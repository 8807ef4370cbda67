-- ===== src/Runs/Commands.antt =====
-- A seek to frame 5 of a track that plays, and a second one before it has happened.
use sync_bluetooth_devices.Common.{ℕ, ◌≡◌, ◌<◌, ◌⊎◌, refl, [], ◌∷◌, none, some, ok, Text, text_eq}
use sync_bluetooth_devices.Common.Int.{pos, ◌+ℤ◌}
use sync_bluetooth_devices.Room.{Room, seek, playing, schedule_action}
use sync_bluetooth_devices.Control.{
  scheduled, command_pending, command_response, schedule_command, action_of, from_chars, digits,
  local_address,
}
use sync_bluetooth_devices.Control.Schedule.{
  IsScheduled, command_response-IsScheduled, command_response_refused,
}

abbrev pub playing_room : Room ℕ
playing_room = record {
  state = record {
    room_id = b'0' ∷ [];
    room_name = b'R' ∷ [];
    host_device_id = b'H' ∷ [];
    session_id = 9;
    stream_id = 4;
    playback_state = playing;
    pending_action = none;
    recent_action = none;
    members = [];
  };
  members = [];
  next_membership_token = 1;
}

abbrev seeking : Room ℕ
seeking = record playing_room {
  state = record (playing_room.state) {
    pending_action = some (record {
      action = seek;
      effective_host_nanoseconds = pos 2_000_000_070;
      seek_frame = 5;
      next_stream_id = 5;
    });
  };
}

abbrev seek_five : Text
seek_five = b'S' ∷ b'E' ∷ b'E' ∷ b'K' ∷ b' ' ∷ b'5' ∷ []

seeks :
    command_response playing_room playing_room 100 local_address seek_five (pos 70)
    ≡ ok (scheduled seek (pos 2_000_000_070) 5, seeking)
unfolding command_response schedule_command action_of from_chars digits schedule_action text_eq ◌+ℤ◌
seeks = refl

command_response-IsScheduled_example :
    (local_address ≡ local_address)
    × (pos 2_000_000_070 ≡ pos 70 +ℤ pos 2_000_000_000)
    × (◌≡◌ {A = ℕ} 100 0 ⊎ (5 < 100))
    × IsScheduled playing_room playing_room seeking seek (pos 2_000_000_070) 5
command_response-IsScheduled_example =
    command_response-IsScheduled playing_room playing_room seeking 100 local_address seek_five
      (pos 70) seek (pos 2_000_000_070) 5 seeks

waits :
    command_response seeking seeking 100 local_address seek_five (pos 80)
    ≡ ok (command_pending, seeking)
unfolding command_response schedule_command action_of from_chars digits schedule_action text_eq ◌+ℤ◌
waits = refl

command_response_refused_example : seeking ≡ seeking
command_response_refused_example =
    command_response_refused seeking seeking seeking 100 local_address seek_five (pos 80)
      command_pending waits (λ a effective f e. cc)
