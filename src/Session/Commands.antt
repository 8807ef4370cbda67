-- ===== src/Session/Commands.antt =====
-- What a command does to the playback of `runHost` in desktop/src/main.cpp.
use sync_bluetooth_devices.Common.{
  ℕ, ◌≡◌, ◌≢◌, refl, true, false, List, [], ◌∷◌, none, some, ok, ◌==◌, arith,
}
use sync_bluetooth_devices.Common.Int.{ℤ}
use sync_bluetooth_devices.Room.{
  Room, seek, playing, ScheduledRoomAction, set_playback_state, set_stream_id, take_action,
}
use sync_bluetooth_devices.Session.Pausing.{first_taken, takes_first, and_then}
use sync_bluetooth_devices.Session.{
  HostSession, SegmentEnd, SessionTurn, advances, starting, streaming, open_segment, start_segment,
  act_on, advance, session_turn, session_turns,
}

module _ {D : Type 0} where
  -- The session streams from this frame, which is due at this time, on this stream, with no action pending.
  pub record Streams (frame : ℕ) (start : ℤ) (stream : ℕ) (s : HostSession D) : Type 0 where
    pub phase : s.phase ≡ streaming
    pub frame_is : s.frame ≡ frame
    pub starts : s.segment_start ≡ start
    pub state : s.room.state.playback_state ≡ playing
    pub room_stream : s.room.state.stream_id ≡ stream
    pub control_stream : s.control_stream_id ≡ stream
    pub control_playing : s.control_playing ≡ true
    pub free : s.room.state.pending_action ≡ none

  abbrev pub Reaches : List (SessionTurn D) → HostSession D → (HostSession D → Type 0) → Type 0
  Reaches turns s P = (t : HostSession D) × (session_turns turns s ≡ ok t) × P t

  abbrev pub four : SegmentEnd → List (SessionTurn D)
  four part = advances part ∷ advances part ∷ advances part ∷ advances part ∷ []

  set_stream_id-ok :
      (r : Room D) (id : ℕ)
      → id ≢ 0
      → set_stream_id r id ≡ ok (record r { state = record (r.state) { stream_id = id } })
  unfolding set_stream_id
  set_stream_id-ok r id h = let nonzero : (id == 0) ≡ false = ground (arith, h) in rw nonzero refl

  starts_segment :
      (t : HostSession D) (part : SegmentEnd)
      → t.phase ≡ starting
      → session_turns (advances part ∷ advances part ∷ []) t ≡ ok (start_segment (open_segment t))
  unfolding session_turns session_turn advance open_segment
  starts_segment t part e = rw e refl

  abbrev sought : HostSession D → ScheduledRoomAction → SegmentEnd → HostSession D
  sought s a part = record (first_taken s a part) {
    room = record ((take_action s.room).1) {
      state = record ((take_action s.room).1.state) { stream_id = a.next_stream_id };
    };
    phase = starting;
    frame = a.seek_frame;
    segment_start = a.effective_host_nanoseconds;
    control_playing = false;
    control_frame = a.seek_frame;
  }

  acts_on_seek :
      (s : HostSession D) (a : ScheduledRoomAction) (part : SegmentEnd)
      → a.next_stream_id ≢ 0
      → a.action ≡ seek
      → session_turn (advances part) (first_taken s a part) ≡ ok (sought s a part)
  unfolding session_turn advance act_on
  acts_on_seek s a part stream is_seek =
      rw (is_seek, set_stream_id-ok (take_action s.room).1 a.next_stream_id stream) refl

  freed :
      (r : Room D) (a : ScheduledRoomAction)
      → r.state.pending_action ≡ some a
      → (take_action r).1.state.pending_action ≡ none
  unfolding take_action
  freed r a e = rw e refl

  -- When a segment ends for a SEEK, the host's next four steps make it stream from the action's frame, due at
  -- the action's time, on the action's stream, which the room and the control threads then name too; the
  -- room plays, and no action is pending.
  pub seeks_to :
      (s : HostSession D) (a : ScheduledRoomAction) (part : SegmentEnd)
      → s.phase ≡ streaming
      → s.room.state.pending_action ≡ some a
      → part.source_exhausted ≡ false
      → part.ended_for_command ≡ true
      → a.next_stream_id ≢ 0
      → a.action ≡ seek
      → Reaches (four part) s (Streams a.seek_frame a.effective_host_nanoseconds a.next_stream_id)
  seeks_to s a part streams e goes_on for_command stream is_seek =
      let t = sought s a part in
      let u = start_segment (open_segment t) in
      (
        u,
        and_then s (first_taken s a part) u (advances part)
            (advances part ∷ advances part ∷ advances part ∷ [])
            (takes_first s a part streams e goes_on for_command)
            (and_then (first_taken s a part) t u (advances part)
              (advances part ∷ advances part ∷ []) (acts_on_seek s a part stream is_seek)
              (starts_segment t part refl)),
        unfold open_segment start_segment set_playback_state in
            record {
              phase = refl;
              frame_is = refl;
              starts = refl;
              state = refl;
              room_stream = refl;
              control_stream = refl;
              control_playing = refl;
              free = freed s.room a e;
            },
      )
