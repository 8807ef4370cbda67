-- ===== src/Session/Steps.antt =====
-- The single steps of a pause in `runHost` of desktop/src/main.cpp, and of the PLAY that ends it, where
-- control threads may call the room before each.
use sync_bluetooth_devices.Common.{ℕ, ◌≡◌, ◌≢◌, refl, true, false, Option, some, none, arith}
use sync_bluetooth_devices.Common.Int.{ℤ, pos, leb_ℤ}
use sync_bluetooth_devices.Room.{
  play, pause, paused, playing, ScheduledRoomAction, set_playback_state, take_action,
  schedule_action,
}
use sync_bluetooth_devices.Room.Invariant.{schedules, step}
use sync_bluetooth_devices.Session.{
  HostSession, Phase, SegmentEnd, SessionTurn, advances, calls, starting, opening, streaming,
  commanded, pausing, noticed, open_segment, start_segment, act_on, notice, resume, advance,
  session_turn,
}
use sync_bluetooth_devices.Session.Pausing.{first_taken, takes_first, call-pending}
use sync_bluetooth_devices.Session.Interleaved.{
  At, call-At, call-free, IsQuietCall-IsControlCall, IsControlOnly, IsQuietOnly, IsQuietTurn, Moves,
  moves_call,
}

module _ {D : Type 0} where
  -- The session streams from this frame, which is due at this time, on this stream.
  pub record Plays (frame : ℕ) (start : ℤ) (stream : ℕ) (s : HostSession D) : Type 0 where
    pub phase : s.phase ≡ streaming
    pub frame_is : s.frame ≡ frame
    pub starts : s.segment_start ≡ start
    pub state : s.room.state.playback_state ≡ playing
    pub room_stream : s.room.state.stream_id ≡ stream
    pub control_stream : s.control_stream_id ≡ stream
    pub control_playing : s.control_playing ≡ true

  abbrev pub Pending : Option ScheduledRoomAction → HostSession D → Type 0
  Pending o s = s.room.state.pending_action ≡ o

  module _ (frame : ℕ) (start : ℤ) (stream control_stream : ℕ) where
    abbrev pub Free : Phase → HostSession D → Type 0
    Free phase s = At phase frame start stream control_stream s × Pending none s

    abbrev pub Waits : Phase → ScheduledRoomAction → HostSession D → Type 0
    Waits phase b s = At phase frame start stream control_stream s × Pending (some b) s

    pub keeps_At :
        (phase : Phase) (s : HostSession D) (turn : SessionTurn D)
        → IsControlOnly turn
        → At phase frame start stream control_stream s
        → Moves turn s (At phase frame start stream control_stream)
    keeps_At phase s (advances part) h v = cc h
    keeps_At phase s (calls call) h v =
        moves_call _ s call (call-At phase frame start stream control_stream s call h v)

    pub keeps_Waits :
        (phase : Phase) (b : ScheduledRoomAction) (s : HostSession D) (turn : SessionTurn D)
        → IsControlOnly turn
        → Waits phase b s
        → Moves turn s (Waits phase b)
    keeps_Waits phase b s (advances part) h v = cc h
    keeps_Waits phase b s (calls call) h (v, e) =
        moves_call _ s call (
          call-At phase frame start stream control_stream s call h v,
          call-pending s.room call b h e,
        )

    pub keeps_Free :
        (phase : Phase) (s : HostSession D) (turn : SessionTurn D)
        → IsQuietOnly turn
        → Free phase s
        → Moves turn s (Free phase)
    keeps_Free phase s (advances part) h v = cc h
    keeps_Free phase s (calls call) h (v, e) =
        let control = IsQuietCall-IsControlCall call h in
        moves_call _ s call (
          call-At phase frame start stream control_stream s call control v,
          call-free s.room call h e,
        )

    -- With nothing pending, the main thread waits on.
    pub waits_on :
        (s : HostSession D) (turn : SessionTurn D)
        → IsQuietTurn turn
        → Free pausing s
        → Moves turn s (Free pausing)
    waits_on s (calls call) h v = keeps_Free pausing s (calls call) h v
    waits_on s (advances part) h (v, e) =
        (s, unfold session_turn advance in rw (v.phase_is) (unfold notice in rw e refl), (v, e))

    pub schedules_play :
        (s : HostSession D) (b : ScheduledRoomAction)
        → leb_ℤ b.effective_host_nanoseconds (pos 0) ≡ false
        → b.next_stream_id ≢ 0
        → Free pausing s
        → Moves (calls (schedules b)) s (Waits pausing b)
    schedules_play s b due nonzero (v, e) = moves_call _ s (schedules b) (
      call-At pausing frame start stream control_stream s (schedules b) tt v,
      unfold step schedule_action in ground (arith, due, nonzero, e),
    )

    pub notices :
        (s : HostSession D) (b : ScheduledRoomAction) (part : SegmentEnd)
        → b.action ≡ play
        → Waits pausing b s
        → Moves (advances part) s (Waits (noticed play) b)
    notices s b part is_play (v, e) = (
      record s { phase = noticed play },
      unfold session_turn advance in rw (v.phase_is) (unfold notice in rw e (rw is_play refl)),
      (
        record {
          phase_is = refl;
          frame_is = v.frame_is;
          starts = v.starts;
          room_stream = v.room_stream;
          control_stream_is = v.control_stream_is;
        },
        e,
      ),
    )

    pub resumes :
        (s : HostSession D) (b : ScheduledRoomAction) (part : SegmentEnd)
        → Waits (noticed play) b s
        → Moves
            (advances part)
            s
            (At starting frame b.effective_host_nanoseconds stream control_stream)
    resumes s b part (v, e) = (
      record s {
        room = (take_action s.room).1;
        phase = starting;
        segment_start = b.effective_host_nanoseconds;
      },
      unfold session_turn advance in rw (v.phase_is) (unfold resume take_action in rw e refl),
      record {
        phase_is = refl;
        frame_is = v.frame_is;
        starts = refl;
        room_stream = unfold take_action in rw e (v.room_stream);
        control_stream_is = v.control_stream_is;
      },
    )

    pub opens :
        (s : HostSession D) (part : SegmentEnd)
        → At starting frame start stream control_stream s
        → Moves (advances part) s (At opening frame start stream stream)
    opens s part v = (
      open_segment s,
      unfold session_turn advance in rw (v.phase_is) refl,
      unfold open_segment in
          record {
            phase_is = refl;
            frame_is = v.frame_is;
            starts = v.starts;
            room_stream = v.room_stream;
            control_stream_is = v.room_stream;
          },
    )

    pub starts :
        (s : HostSession D) (part : SegmentEnd)
        → At opening frame start stream stream s
        → Moves (advances part) s (Plays frame start stream)
    starts s part v = (
      start_segment s,
      unfold session_turn advance in rw (v.phase_is) refl,
      unfold start_segment set_playback_state in
          record {
            phase = refl;
            frame_is = v.frame_is;
            starts = v.starts;
            state = refl;
            room_stream = v.room_stream;
            control_stream = v.control_stream_is;
            control_playing = refl;
          },
    )

    pub pauses :
        (s : HostSession D) (a : ScheduledRoomAction) (part : SegmentEnd)
        → a.action ≡ pause
        → Free (commanded a) s
        → Moves (advances part) s (Free pausing)
    pauses s a part is_pause (v, e) = (
      record s {
        room = set_playback_state s.room paused;
        phase = pausing;
        control_playing = false;
        control_frame = s.frame;
      },
      unfold session_turn advance act_on in rw (v.phase_is) (rw is_pause refl),
      unfold set_playback_state in
          (
            record {
              phase_is = refl;
              frame_is = v.frame_is;
              starts = v.starts;
              room_stream = v.room_stream;
              control_stream_is = v.control_stream_is;
            },
            e,
          ),
    )

  pub takes_pause :
      (s : HostSession D) (a : ScheduledRoomAction) (part : SegmentEnd)
      → s.phase ≡ streaming
      → s.room.state.pending_action ≡ some a
      → part.source_exhausted ≡ false
      → part.ended_for_command ≡ true
      → Moves (advances part) s (
          Free part.last_frame s.segment_start s.room.state.stream_id s.control_stream_id
            (commanded a))
  takes_pause s a part streams e goes_on for_command = (
    first_taken s a part,
    takes_first s a part streams e goes_on for_command,
    unfold take_action in
        rw e (
          record {
            phase_is = refl;
            frame_is = refl;
            starts = refl;
            room_stream = refl;
            control_stream_is = refl;
          },
          refl,
        ),
  )
