-- ===== src/Runs/Sessions.antt =====
-- A host that is paused twice in a row.
use sync_bluetooth_devices.Common.{ℕ, ◌≡◌, refl, true, false, List, [], ◌∷◌, some, ok}
use sync_bluetooth_devices.Common.Int.{pos}
use sync_bluetooth_devices.Room.{pause, play, seek, ScheduledRoomAction}
use sync_bluetooth_devices.Room.Invariant.{leaves, schedules}
use sync_bluetooth_devices.Session.{
  HostSession, SegmentEnd, SessionTurn, advances, calls, streaming, pausing, session_turns,
}
use sync_bluetooth_devices.Session.Commands.{Reaches, Streams, four, seeks_to}
use sync_bluetooth_devices.Session.Steps.{Plays}
use sync_bluetooth_devices.Session.Resumed.{plays_on}
use sync_bluetooth_devices.Session.Pausing.{second_pause_waits}
use sync_bluetooth_devices.Runs.Commands.{playing_room}

abbrev first_pause : ScheduledRoomAction
first_pause = record {
  action = pause;
  effective_host_nanoseconds = pos 5;
  seek_frame = 0;
  next_stream_id = 4;
}

abbrev second_pause : ScheduledRoomAction
second_pause = record first_pause { effective_host_nanoseconds = pos 6 }

abbrev hosting : HostSession ℕ
hosting = record {
  room = record playing_room {
    state = record (playing_room.state) { pending_action = some first_pause };
  };
  phase = streaming;
  frame = 0;
  segment_start = pos 0;
  control_playing = true;
  control_stream_id = 4;
  control_frame = 0;
}

abbrev cut : SegmentEnd
cut = record { last_frame = 480; source_exhausted = false; ended_for_command = true }

abbrev afterwards : List (SessionTurn ℕ)
afterwards = advances cut ∷ calls (schedules first_pause) ∷ advances cut ∷ []

second_pause_waits_example :
    (t : HostSession ℕ) × (session_turns
        (advances cut ∷ calls (schedules second_pause) ∷ advances cut ∷ afterwards)
        hosting
      ≡ ok t)
    × (t.phase ≡ pausing)
    × (t.room.state.pending_action ≡ some second_pause)
second_pause_waits_example =
    second_pause_waits hosting first_pause second_pause cut cut afterwards refl refl refl refl refl
      (λ e. cc e) refl refl (tt, (tt, (tt, tt)))

abbrev a_seek : ScheduledRoomAction
a_seek = record first_pause { action = seek; seek_frame = 9; next_stream_id = 5 }

abbrev seeking : HostSession ℕ
seeking = record hosting {
  room = record playing_room {
    state = record (playing_room.state) { pending_action = some a_seek };
  };
}

seeks_to_example : Reaches (four cut) seeking (Streams 9 (pos 5) 5)
seeks_to_example = seeks_to seeking a_seek cut refl refl refl refl (λ e. cc e) refl

abbrev a_play : ScheduledRoomAction
a_play = record first_pause { action = play }

-- A member leaves, and a second PLAY is scheduled.
abbrev leaving : SessionTurn ℕ
leaving = calls (leaves (b'H' ∷ []) 1)

abbrev plays_again : SessionTurn ℕ
plays_again = calls (schedules a_play)

plays_on_example :
    Reaches
      (advances cut
        ∷ leaving
        ∷ advances cut
        ∷ leaving
        ∷ advances cut
        ∷ plays_again
        ∷ advances cut
        ∷ leaving
        ∷ advances cut
        ∷ plays_again
        ∷ advances cut
        ∷ leaving
        ∷ advances cut
        ∷ [])
      hosting
      (Plays 480 (pos 5) 4)
plays_on_example =
    plays_on hosting first_pause a_play cut (leaving ∷ []) (leaving ∷ advances cut ∷ []) []
      (leaving ∷ []) (plays_again ∷ []) (leaving ∷ []) refl refl refl refl refl (λ e. cc e) refl
      refl (tt, tt) (tt, (tt, tt)) tt (tt, tt) (tt, tt) (tt, tt)
