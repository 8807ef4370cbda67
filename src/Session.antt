-- ===== src/Session.antt =====
-- The segments of `runHost` in desktop/src/main.cpp: what the host's main thread does with the room from one
-- command to the next, while the control threads use the room too. A step is one call of the room with
-- what follows it up to the next one. What `streamFile` returns is an argument; the player, the waits, the statistics
-- and the printing are left out.
pub mod Pausing
pub mod Commands
pub mod Interleaved
pub mod Steps
pub mod Resumed
use sync_bluetooth_devices.Common.{
  ℕ, Bool, true, false, List, [], ◌∷◌, Option, none, some, Result, ok, err, ◌>>=◌, if◌then◌else◌,
}
use sync_bluetooth_devices.Common.Int.{ℤ}
use sync_bluetooth_devices.Room.{
  Room, RoomError, RoomAction, play, pause, seek, stop, playing, paused, stopped,
  ScheduledRoomAction, set_playback_state, set_stream_id, take_action,
}
use sync_bluetooth_devices.Room.Invariant.{Call, step}

pub data SessionError : Type 0 where
  ended_unexpectedly action_disappeared : SessionError
  room_error : RoomError → SessionError

-- Where the main thread is: at the head of its loop; in `playFrom` of a segment; in `streamFile`; with a
-- command that it has taken and not acted on; in the loop that waits for a resume, and there with the
-- action that it has seen pending (never a pause), with a SEEK or a STOP that it has taken; behind its
-- loop, by a command or not.
pub data Phase : Type 0 where
  starting opening streaming : Phase
  commanded : ScheduledRoomAction → Phase
  pausing : Phase
  noticed : RoomAction → Phase
  seeking : ScheduledRoomAction → Phase
  stopping : Phase
  finished : Bool → Phase

-- The locals of `runHost` and the state that the control threads read.
pub record HostSession (D : Type 0) : Type 0 where
  pub room : Room D
  pub phase : Phase
  pub frame : ℕ
  pub segment_start : ℤ
  pub control_playing : Bool
  pub control_stream_id : ℕ
  pub control_frame : ℕ

-- What matters of the statistics of `streamFile`.
pub record SegmentEnd : Type 0 where
  pub last_frame : ℕ
  pub source_exhausted : Bool
  pub ended_for_command : Bool

-- The main thread's next step, or a call of a control thread.
pub data SessionTurn (D : Type 0) : Type 0 where
  advances : SegmentEnd → SessionTurn D
  calls : Call D → SessionTurn D

module _ {D : Type 0} where
  -- Up to the call of `playFrom`, and up to that of `streamFile`.
  unfoldable pub open_segment : HostSession D → HostSession D
  open_segment s = record s { phase = opening; control_stream_id = s.room.state.stream_id }

  unfoldable pub start_segment : HostSession D → HostSession D
  start_segment s = record s {
    room = set_playback_state s.room playing;
    phase = streaming;
    control_playing = true;
  }

  unfoldable pub taken :
      HostSession D → Option ScheduledRoomAction × Room D → Result SessionError (HostSession D)
  taken s (none, r) = err action_disappeared
  taken s (some command, r) = ok (record s { room = r; phase = commanded command })

  -- A segment has ended: at the end of the file, or for a command, which is taken.
  unfoldable pub end_segment : SegmentEnd → HostSession D → Result SessionError (HostSession D)
  end_segment part s =
      let at_last : HostSession D = record s { frame = part.last_frame } in
      if part.source_exhausted
      then ok (record at_last {
        room = set_playback_state s.room stopped;
        phase = finished false;
        control_playing = false;
      })
      else if part.ended_for_command
      then taken at_last (take_action s.room)
      else err ended_unexpectedly

  abbrev pub or_room_error : Result RoomError (Room D) → Result SessionError (Room D)
  or_room_error (ok r) = ok r
  or_room_error (err e) = err (room_error e)

  -- Stops the room for good.
  unfoldable pub finish_stopped : HostSession D → HostSession D
  finish_stopped s = record s {
    room = set_playback_state s.room stopped;
    phase = finished true;
    control_playing = false;
  }

  -- Acts on the command once its time has come.
  unfoldable pub act_on :
      RoomAction → ScheduledRoomAction → HostSession D → Result SessionError (HostSession D)
  act_on stop command s = ok (finish_stopped (record s { control_frame = s.frame }))
  act_on seek command s = do
    r ← or_room_error (set_stream_id s.room command.next_stream_id)
    ok (record s {
      room = r;
      phase = starting;
      frame = command.seek_frame;
      segment_start = command.effective_host_nanoseconds;
      control_playing = false;
      control_frame = command.seek_frame;
    })
  act_on pause command s = ok (record s {
    room = set_playback_state s.room paused;
    phase = pausing;
    control_playing = false;
    control_frame = s.frame;
  })
  act_on play command s =
      ok (record s { phase = starting; control_playing = false; control_frame = s.frame })

  -- One pass of the loop that waits for a resume: the action that its snapshot finds pending, ...
  abbrev pub notice_action : RoomAction → HostSession D → HostSession D
  notice_action play s = record s { phase = noticed play }
  notice_action seek s = record s { phase = noticed seek }
  notice_action stop s = record s { phase = noticed stop }
  notice_action pause s = s

  unfoldable pub notice : Option ScheduledRoomAction → HostSession D → HostSession D
  notice none s = s
  notice (some pending) s = notice_action pending.action s

  -- ... what `takeAction` then gives, ...
  unfoldable pub resume :
      RoomAction → Option ScheduledRoomAction × Room D → HostSession D → HostSession D
  resume action (none, r) s = record s { room = r; phase = pausing }
  resume play (some next, r) s = record s {
    room = r;
    phase = starting;
    segment_start = next.effective_host_nanoseconds;
  }
  resume seek (some next, r) s = record s { room = r; phase = seeking next }
  resume stop (some next, r) s = record s { room = r; phase = stopping }
  resume pause (some next, r) s = record s { room = r; phase = pausing }

  -- ... and the move to the frame of a SEEK once its time has come.
  unfoldable pub seek_paused :
      ScheduledRoomAction → HostSession D → Result SessionError (HostSession D)
  seek_paused next s = do
    r ← or_room_error (set_stream_id s.room next.next_stream_id)
    ok (record s {
      room = r;
      phase = pausing;
      frame = next.seek_frame;
      control_stream_id = next.next_stream_id;
      control_frame = next.seek_frame;
    })

  unfoldable pub advance : Phase → SegmentEnd → HostSession D → Result SessionError (HostSession D)
  advance starting part s = ok (open_segment s)
  advance opening part s = ok (start_segment s)
  advance streaming part s = end_segment part s
  advance (commanded command) part s = act_on command.action command s
  advance pausing part s = ok (notice s.room.state.pending_action s)
  advance (noticed action) part s = ok (resume action (take_action s.room) s)
  advance (seeking next) part s = seek_paused next s
  advance stopping part s = ok (finish_stopped s)
  advance (finished by_command) part s = ok s

  unfoldable pub session_turn : SessionTurn D → HostSession D → Result SessionError (HostSession D)
  session_turn (advances part) s = advance s.phase part s
  session_turn (calls call) s = ok (record s { room = step s.room call })

  unfoldable pub session_turns :
      List (SessionTurn D) → HostSession D → Result SessionError (HostSession D)
  session_turns [] s = ok s
  session_turns (t ∷ rest) s = session_turn t s >>= λ next. session_turns rest next
