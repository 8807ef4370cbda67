-- ===== src/Control.antt =====
-- The device IDs and the playback commands of desktop/src/ControlChannel.cpp: PLAY, PAUSE, STOP and
-- SEEK, as `responseFor` takes them. An answer is a constructor of `Response` for each text that the
-- code sends; the reading of the clock is an argument.
pub mod Schedule
pub mod Connection
pub mod Departure
pub mod Serving
pub mod Leaving
use sync_bluetooth_devices.Common.{
  ℕ, zero, suc, ◌+◌, ◌-◌, ◌*◌, ◌%◌, ◌^◌, Bool, true, false, ◌||◌, ◌&&◌, not, List, [], ◌∷◌, length,
  ltb, leb, ◌==◌, if◌then◌else◌, Option, none, some, Result, ok, err, Text, text_eq, take, drop,
}
use sync_bluetooth_devices.Common.Int.{ℤ, pos, ◌+ℤ◌}
use sync_bluetooth_devices.Room.{
  Room, RoomError, RoomAction, RoomPlaybackState, play, pause, seek, stop, stopped, playing, paused,
  ScheduledRoomAction, schedule_action, is_empty,
}

-- What a line with a playback command is answered.
pub data Response : Type 0 where
  host_only_command invalid_seek seek_out_of_range : Response
  invalid_state command_pending : Response
  scheduled : RoomAction → ℤ → ℕ → Response

-- `std::isalnum` in the "C" locale.
abbrev pub is_alnum : ℕ → Bool
is_alnum c = (leb b'0' c && leb c b'9') || (leb b'A' c && leb c b'Z') || (leb b'a' c && leb c b'z')

unfoldable pub all_id_characters : Text → Bool
all_id_characters [] = true
all_id_characters (c ∷ cs) = (is_alnum c || c == b'-' || c == b'_') && all_id_characters cs

unfoldable pub valid_device_id : Text → Bool
unfolding is_empty
valid_device_id id = not (is_empty id || ltb 64 (length id)) && all_id_characters id

abbrev pub play_line : Text
play_line = b'P' ∷ b'L' ∷ b'A' ∷ b'Y' ∷ []

abbrev pub pause_line : Text
pause_line = b'P' ∷ b'A' ∷ b'U' ∷ b'S' ∷ b'E' ∷ []

abbrev pub stop_line : Text
stop_line = b'S' ∷ b'T' ∷ b'O' ∷ b'P' ∷ []

abbrev pub seek_prefix : Text
seek_prefix = b'S' ∷ b'E' ∷ b'E' ∷ b'K' ∷ b' ' ∷ []

abbrev pub local_address : Text
local_address = b'1' ∷ b'2' ∷ b'7' ∷ b'.' ∷ b'0' ∷ b'.' ∷ b'0' ∷ b'.' ∷ b'1' ∷ []

-- `line.rfind("SEEK ", 0) == 0`
abbrev pub is_seek : Text → Bool
is_seek line = text_eq (take 5 line) seek_prefix

-- `std::from_chars` of a whole text, behind the digits that made `value`.
unfoldable pub digits : ℕ → Text → Option ℕ
digits value [] = some value
digits value (c ∷ cs) =
    let next = value * 10 + (c - b'0') in
    let rest = digits next cs in
    if not (leb b'0' c && leb c b'9') then none else if leb (2 ^ 64) next then none else rest

unfoldable pub from_chars : Text → Option ℕ
from_chars [] = none
from_chars (c ∷ cs) = digits 0 (c ∷ cs)

abbrev pub is_playing : RoomPlaybackState → Bool
is_playing playing = true
is_playing stopped = false
is_playing paused = false

abbrev pub is_stopped : RoomPlaybackState → Bool
is_stopped stopped = true
is_stopped playing = false
is_stopped paused = false

-- The action and the frame of a line, which is one of the four commands.
unfoldable pub action_of : ℕ → Text → Result Response (RoomAction × ℕ)
action_of total_frames line =
    if text_eq line pause_line
    then ok (pause, 0)
    else if text_eq line stop_line
    then ok (stop, 0)
    else if not (is_seek line)
    then ok (play, 0)
    else elim (from_chars (drop 5 line)) [
      | none ↦ err invalid_seek
      | some frame ↦
          if not (total_frames == 0) && leb total_frames frame
          then err seek_out_of_range
          else ok (seek, frame)
    ]

abbrev pub is_invalid_in : RoomPlaybackState → RoomAction → Bool
is_invalid_in state play = is_playing state
is_invalid_in state pause = not (is_playing state)
is_invalid_in state seek = is_stopped state
is_invalid_in state stop = false

-- The stream that the action leads to.
abbrev pub next_stream : RoomAction → ℕ → ℕ
next_stream seek id = if (id + 1) % 2 ^ 32 == 0 then 1 else (id + 1) % 2 ^ 32
next_stream play id = id
next_stream pause id = id
next_stream stop id = id

module _ {D : Type 0} where
  abbrev pub answered :
      RoomAction
      → ℤ
      → ℕ
      → Room D
      → Result RoomError (Bool × Room D)
      → Result RoomError (Response × Room D)
  answered action effective frame r (err e) = err e
  answered action effective frame r (ok (true, r')) = ok (scheduled action effective frame, r')
  answered action effective frame r (ok (false, r')) = ok (command_pending, r')

  -- A command that is well formed, at `now`. The snapshot and `scheduleAction` are two calls: the
  -- first saw the room as `seen`, and the second finds it as `r`.
  unfoldable pub schedule_command :
      Room D → Room D → RoomAction → ℕ → ℤ → Result RoomError (Response × Room D)
  schedule_command seen r action frame now =
      let effective = now +ℤ pos 2_000_000_000 in
      if is_invalid_in seen.state.playback_state action
      then ok (invalid_state, r)
      else answered action effective frame r (
          schedule_action r (record {
            action = action;
            effective_host_nanoseconds = effective;
            seek_frame = frame;
            next_stream_id = next_stream action seen.state.stream_id;
          }))

  -- `responseFor` of a playback command from `peer_address`, in a host that has a room.
  unfoldable pub command_response :
      Room D → Room D → ℕ → Text → Text → ℤ → Result RoomError (Response × Room D)
  command_response seen r total_frames peer_address line now =
      if not (text_eq peer_address local_address)
      then ok (host_only_command, r)
      else elim (action_of total_frames line) [
        | err refusal ↦ ok (refusal, r)
        | ok (action, frame) ↦ schedule_command seen r action frame now
      ]
