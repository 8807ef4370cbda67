-- ===== src/Session/Interleaved.antt =====
-- Runs of `runHost` of desktop/src/main.cpp in which control threads call the room between any two steps of the
-- main thread.
use sync_bluetooth_devices.Common.{
  ◌≡◌, ℕ, refl, true, false, List, [], ◌∷◌, ◌++◌, none, All, ok, arith,
}
use sync_bluetooth_devices.Common.Int.{ℤ}
use sync_bluetooth_devices.Room.{Room, join, leave, update_member, schedule_action}
use sync_bluetooth_devices.Room.Invariant.{
  Call, joins, leaves, updates, sets_playback, sets_stream, schedules, takes, step,
}
use sync_bluetooth_devices.Session.{
  HostSession, Phase, SessionTurn, advances, calls, session_turn, session_turns,
}
use sync_bluetooth_devices.Session.Commands.{Reaches}
use sync_bluetooth_devices.Session.Pausing.{IsControlCall, and_then}

module _ {D : Type 0} where
  -- A call of a control thread that schedules nothing.
  abbrev pub IsQuietCall : Call D → Type 0
  IsQuietCall (joins initial d a p) = Unit
  IsQuietCall (leaves d t) = Unit
  IsQuietCall (updates m) = Unit
  IsQuietCall (sets_playback state) = true ≡ false
  IsQuietCall (sets_stream id) = true ≡ false
  IsQuietCall (schedules action) = true ≡ false
  IsQuietCall takes = true ≡ false

  -- Control threads leave the room's stream and state to the main thread.
  call-stream :
      (r : Room D) (call : Call D) (stream : ℕ)
      → IsControlCall call
      → r.state.stream_id ≡ stream
      → (step r call).state.stream_id ≡ stream
  call-stream r (joins initial d a p) n ok_call e = unfold step join in ground (arith, e)
  call-stream r (leaves d t) n ok_call e = unfold step leave in ground (arith, e)
  call-stream r (updates m) n ok_call e = unfold step update_member in ground (arith, e)
  call-stream r (sets_playback state) n ok_call e = cc ok_call
  call-stream r (sets_stream id) n ok_call e = cc ok_call
  call-stream r (schedules action) n ok_call e = unfold step schedule_action in ground (arith, e)
  call-stream r takes n ok_call e = cc ok_call

  pub IsQuietCall-IsControlCall : (call : Call D) → IsQuietCall call → IsControlCall call
  IsQuietCall-IsControlCall (joins initial d a p) h = h
  IsQuietCall-IsControlCall (leaves d t) h = h
  IsQuietCall-IsControlCall (updates m) h = h
  IsQuietCall-IsControlCall (sets_playback state) h = cc h
  IsQuietCall-IsControlCall (sets_stream id) h = cc h
  IsQuietCall-IsControlCall (schedules action) h = cc h
  IsQuietCall-IsControlCall takes h = cc h

  pub call-free :
      (r : Room D) (call : Call D)
      → IsQuietCall call
      → r.state.pending_action ≡ none
      → (step r call).state.pending_action ≡ none
  call-free r (joins initial d a p) h e = unfold step join in ground (arith, e)
  call-free r (leaves d t) h e = unfold step leave in ground (arith, e)
  call-free r (updates m) h e = unfold step update_member in ground (arith, e)
  call-free r (sets_playback state) h e = cc h
  call-free r (sets_stream id) h e = cc h
  call-free r (schedules action) h e = cc h
  call-free r takes h e = cc h

  -- Where the main thread stands, which the control threads do not change.
  pub record At (phase : Phase) (frame : ℕ) (start : ℤ) (stream control_stream : ℕ)
      (s : HostSession D) : Type 0 where
    pub phase_is : s.phase ≡ phase
    pub frame_is : s.frame ≡ frame
    pub starts : s.segment_start ≡ start
    pub room_stream : s.room.state.stream_id ≡ stream
    pub control_stream_is : s.control_stream_id ≡ control_stream

  abbrev pub called : HostSession D → Call D → HostSession D
  called s call = record s { room = step s.room call }

  pub call-At :
      (phase : Phase) (frame : ℕ) (start : ℤ) (stream control_stream : ℕ) (s : HostSession D)
      (call : Call D)
      → IsControlCall call
      → At phase frame start stream control_stream s
      → At phase frame start stream control_stream (called s call)
  call-At phase frame start stream control_stream s call h v = record {
    phase_is = v.phase_is;
    frame_is = v.frame_is;
    starts = v.starts;
    room_stream = call-stream s.room call stream h v.room_stream;
    control_stream_is = v.control_stream_is;
  }

  -- Turns of control threads alone; those that schedule nothing; and these among passes of the main
  -- thread.
  abbrev pub IsControlOnly : SessionTurn D → Type 0
  IsControlOnly (advances part) = true ≡ false
  IsControlOnly (calls call) = IsControlCall call

  abbrev pub IsQuietOnly : SessionTurn D → Type 0
  IsQuietOnly (advances part) = true ≡ false
  IsQuietOnly (calls call) = IsQuietCall call

  abbrev pub IsQuietTurn : SessionTurn D → Type 0
  IsQuietTurn (advances part) = Unit
  IsQuietTurn (calls call) = IsQuietCall call

  abbrev pub Moves : SessionTurn D → HostSession D → (HostSession D → Type 0) → Type 0
  Moves turn s P = (t : HostSession D) × (session_turn turn s ≡ ok t) × P t

  pub moves_call :
      (P : HostSession D → Type 0) (s : HostSession D) (call : Call D)
      → P (called s call)
      → Moves (calls call) s P
  moves_call P s call p = (called s call, unfold session_turn in refl, p)

  pub reaches_first :
      (P Q : HostSession D → Type 0) (turn : SessionTurn D) (rest : List (SessionTurn D))
      (s : HostSession D)
      → Moves turn s P
      → ((t : HostSession D) → P t → Reaches rest t Q)
      → Reaches (turn ∷ rest) s Q
  reaches_first P Q turn rest s (t, first, p) more =
      let m = more t p in (m.0, and_then s t m.0 turn rest first m.1, m.2)

  pub reaches_last :
      (P : HostSession D → Type 0) (turn : SessionTurn D) (s : HostSession D)
      → Moves turn s P
      → Reaches (turn ∷ []) s P
  reaches_last P turn s (t, first, p) =
      (t, and_then s t t turn [] first (unfold session_turns in refl), p)

  -- Turns that keep a property, before others.
  pub reaches_while :
      (C : SessionTurn D → Type 0) (P Q : HostSession D → Type 0) (l rest : List (SessionTurn D))
      → ((s : HostSession D) (turn : SessionTurn D) → C turn → P s → Moves turn s P)
      → ((t : HostSession D) → P t → Reaches rest t Q)
      → All C l
      → (s : HostSession D) → P s
      → Reaches (l ++ rest) s Q
  reaches_while C P Q [] rest keeps more h s p = more s p
  reaches_while C P Q (turn ∷ l) rest keeps more h s p =
      reaches_first P Q turn (l ++ rest) s (keeps s turn h.0 p)
        (λ t q. reaches_while C P Q l rest keeps more h.1 t q)
