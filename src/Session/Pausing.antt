-- ===== src/Session/Pausing.antt =====
-- A second PAUSE in `runHost` of desktop/src/main.cpp.
use sync_bluetooth_devices.Common.{◌≡◌, ◌≢◌, refl, true, false, List, [], ◌∷◌, some, All, ok, arith}
use sync_bluetooth_devices.Common.Int.{pos, leb_ℤ}
use sync_bluetooth_devices.Room.{
  Room, pause, paused, ScheduledRoomAction, set_playback_state, take_action, schedule_action, join,
  leave, update_member,
}
use sync_bluetooth_devices.Room.Invariant.{
  Call, joins, leaves, updates, sets_playback, sets_stream, schedules, takes, step,
}
use sync_bluetooth_devices.Session.{
  HostSession, SegmentEnd, SessionTurn, advances, calls, streaming, pausing, commanded, end_segment,
  taken, act_on, advance, notice, session_turn, session_turns,
}

module _ {D : Type 0} where
  -- The calls of the control threads: they neither take an action nor set the room's state or stream.
  abbrev pub IsControlCall : Call D → Type 0
  IsControlCall (joins initial d a p) = Unit
  IsControlCall (leaves d t) = Unit
  IsControlCall (updates m) = Unit
  IsControlCall (sets_playback state) = true ≡ false
  IsControlCall (sets_stream id) = true ≡ false
  IsControlCall (schedules action) = Unit
  IsControlCall takes = true ≡ false

  abbrev pub IsControlTurn : SessionTurn D → Type 0
  IsControlTurn (advances part) = Unit
  IsControlTurn (calls call) = IsControlCall call

  -- A pending action stays where it is.
  pub call-pending :
      (r : Room D) (call : Call D) (b : ScheduledRoomAction)
      → IsControlCall call
      → r.state.pending_action ≡ some b
      → (step r call).state.pending_action ≡ some b
  call-pending r (joins initial d a p) b ok_call e = unfold step join in ground (arith, e)
  call-pending r (leaves d t) b ok_call e = unfold step leave in ground (arith, e)
  call-pending r (updates m) b ok_call e = unfold step update_member in ground (arith, e)
  call-pending r (sets_playback state) b ok_call e = cc ok_call
  call-pending r (sets_stream id) b ok_call e = cc ok_call
  call-pending r (schedules action) b ok_call e = unfold step schedule_action in ground (arith, e)
  call-pending r takes b ok_call e = cc ok_call

  passes :
      (s : HostSession D) (b : ScheduledRoomAction) (part : SegmentEnd)
      → s.phase ≡ pausing
      → s.room.state.pending_action ≡ some b
      → b.action ≡ pause
      → session_turn (advances part) s ≡ ok s
  passes s b part waits e is_pause =
      unfold session_turn advance in rw waits (unfold notice in rw e (rw is_pause refl))

  -- The host has taken the first PAUSE; the second one is scheduled; the room is set to paused.
  abbrev pub first_taken : HostSession D → ScheduledRoomAction → SegmentEnd → HostSession D
  first_taken s a part = record s {
    room = (take_action s.room).1;
    phase = commanded a;
    frame = part.last_frame;
  }

  abbrev second_scheduled :
      HostSession D → ScheduledRoomAction → ScheduledRoomAction → SegmentEnd → HostSession D
  second_scheduled s a b part = record (first_taken s a part) {
    room = step (take_action s.room).1 (schedules b);
  }

  pub takes_first :
      (s : HostSession D) (a : ScheduledRoomAction) (part : SegmentEnd)
      → s.phase ≡ streaming
      → s.room.state.pending_action ≡ some a
      → part.source_exhausted ≡ false
      → part.ended_for_command ≡ true
      → session_turn (advances part) s ≡ ok (first_taken s a part)
  unfolding session_turn advance end_segment taken take_action
  takes_first s a part streams e goes_on for_command =
      rw (streams, goes_on, for_command) (rw e refl)

  second_pending :
      (s : HostSession D) (a b : ScheduledRoomAction) (part : SegmentEnd)
      → leb_ℤ b.effective_host_nanoseconds (pos 0) ≡ false
      → b.next_stream_id ≢ 0
      → s.room.state.pending_action ≡ some a
      → (second_scheduled s a b part).room.state.pending_action ≡ some b
  second_pending s a b part due stream e =
      unfold step schedule_action take_action in ground (arith, due, stream, e)

  abbrev second_paused :
      HostSession D → ScheduledRoomAction → ScheduledRoomAction → SegmentEnd → HostSession D
  second_paused s a b part = record (second_scheduled s a b part) {
    room = set_playback_state (second_scheduled s a b part).room paused;
    phase = pausing;
    control_playing = false;
    control_frame = part.last_frame;
  }

  schedules_second :
      (s : HostSession D) (a b : ScheduledRoomAction) (part : SegmentEnd)
      → session_turn (calls (schedules b)) (first_taken s a part) ≡ ok (second_scheduled s a b part)
  unfolding session_turn
  schedules_second s a b part = refl

  sets_paused :
      (s : HostSession D) (a b : ScheduledRoomAction) (part part' : SegmentEnd)
      → a.action ≡ pause
      → session_turn (advances part') (second_scheduled s a b part) ≡ ok (second_paused s a b part)
  unfolding session_turn advance act_on
  sets_paused s a b part part' is_pause = rw is_pause refl

  pub and_then :
      (s t u : HostSession D) (turn : SessionTurn D) (rest : List (SessionTurn D))
      → session_turn turn s ≡ ok t
      → session_turns rest t ≡ ok u
      → session_turns (turn ∷ rest) s ≡ ok u
  unfolding session_turns
  and_then s t u turn rest first more = rw first more

  chained :
      (s : HostSession D) (a b : ScheduledRoomAction) (part part' : SegmentEnd)
      (later : List (SessionTurn D)) (t : HostSession D)
      → s.phase ≡ streaming
      → s.room.state.pending_action ≡ some a
      → a.action ≡ pause
      → part.source_exhausted ≡ false
      → part.ended_for_command ≡ true
      → session_turns later (second_paused s a b part) ≡ ok t
      → session_turns (advances part ∷ calls (schedules b) ∷ advances part' ∷ later) s ≡ ok t
  chained s a b part part' later t streams e a_pause goes_on for_command h =
      and_then s _ t (advances part) (calls (schedules b) ∷ advances part' ∷ later)
        (takes_first s a part streams e goes_on for_command)
        (and_then _ _ t (calls (schedules b)) (advances part' ∷ later) (schedules_second s a b part)
          (and_then _ _ t (advances part') later (sets_paused s a b part part' a_pause) h))

  stays_paused :
      (s : HostSession D) (b : ScheduledRoomAction) (later : List (SessionTurn D))
      → s.phase ≡ pausing
      → s.room.state.pending_action ≡ some b
      → b.action ≡ pause
      → All IsControlTurn later
      → (t : HostSession D) × (session_turns later s ≡ ok t)
        × (t.phase ≡ pausing)
        × (t.room.state.pending_action ≡ some b)
  stays_paused s b [] waits e is_pause ok_later = (s, unfold session_turns in refl, waits, e)
  stays_paused s b (calls call ∷ rest) waits e is_pause ok_later =
      let more =
        stays_paused (record s { room = step s.room call }) b rest waits
          (call-pending s.room call b ok_later.0 e) is_pause ok_later.1 in
      (
        more.0,
        and_then s (record s { room = step s.room call }) more.0 (calls call) rest
            (unfold session_turn in refl) more.1,
        more.2,
        more.3,
      )
  stays_paused s b (advances part ∷ rest) waits e is_pause ok_later =
      let more = stays_paused s b rest waits e is_pause ok_later.1 in
      (
        more.0,
        and_then s s more.0 (advances part) rest (passes s b part waits e is_pause) more.1,
        more.2,
        more.3,
      )

  -- A PAUSE that is scheduled after the host has taken an earlier one, and before it has set the room to paused,
  -- is never taken: the host then waits for a resume for good, with this PAUSE pending, whatever the
  -- control threads do to the room.
  pub second_pause_waits :
      (s : HostSession D) (a b : ScheduledRoomAction) (part part' : SegmentEnd)
      (later : List (SessionTurn D))
      → s.phase ≡ streaming
      → s.room.state.pending_action ≡ some a
      → a.action ≡ pause
      → b.action ≡ pause
      → leb_ℤ b.effective_host_nanoseconds (pos 0) ≡ false
      → b.next_stream_id ≢ 0
      → part.source_exhausted ≡ false
      → part.ended_for_command ≡ true
      → All IsControlTurn later
      → (t : HostSession D) × (session_turns
            (advances part ∷ calls (schedules b) ∷ advances part' ∷ later)
            s
          ≡ ok t)
        × (t.phase ≡ pausing)
        × (t.room.state.pending_action ≡ some b)
  second_pause_waits s a b part part' later streams e a_pause b_pause due stream goes_on for_command
        ok_later =
      let u = second_paused s a b part in
      let more =
        stays_paused u b later refl
          (unfold set_playback_state in second_pending s a b part due stream e) b_pause ok_later in
      (
        more.0,
        chained s a b part part' later more.0 streams e a_pause goes_on for_command more.1,
        more.2,
        more.3,
      )
