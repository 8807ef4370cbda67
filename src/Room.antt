-- ===== src/Room.antt =====
-- core/include/Room.hpp and core/src/Room.cpp: a room's members, playback state and pending action.
-- A text is the list of its characters. `D` is the type of the telemetry `double`s, which a room
-- only stores, with `initial` for `0.0`. The hash map of the members is an association list from
-- device IDs; nothing proved depends on its order. The mutex makes each operation one step.
pub mod Members
pub mod Actions
pub mod Membership
pub mod Invariant
pub mod Creation
use sync_bluetooth_devices.Common.{
  zero, suc, ◌/◌, ◌-◌, ℕ, ◌+◌, ◌*◌, ◌%◌, ◌/◌, ◌^◌, Bool, true, false, ◌||◌, ◌&&◌, not, List, [],
  ◌∷◌, ◌++◌, map, Option, none, some, ltb, leb, ◌==◌, if◌then◌else◌, Text, text_eq, length, Result,
  ok, err, ◌>>=◌, ◌>>◌, throw_if,
}
use sync_bluetooth_devices.Common.Int.{ℤ, pos, leb_ℤ}
use Members.{lookup, insert_or_assign, erase, values}

-- One constructor for each message of `std::invalid_argument`.
pub data RoomError : Type 0 where
  incomplete_identity bad_name incomplete_endpoint zero_stream bad_action : RoomError

pub data RoomPlaybackState : Type 0 where
  stopped playing paused : RoomPlaybackState

pub data RoomConnectionState : Type 0 where
  connected syncing buffering synced degraded reconnecting : RoomConnectionState

pub data RoomAction : Type 0 where
  play pause seek stop : RoomAction

pub record ScheduledRoomAction : Type 0 where
  pub action : RoomAction
  pub effective_host_nanoseconds : ℤ
  pub seek_frame : ℕ
  pub next_stream_id : ℕ

pub record RoomMember (D : Type 0) : Type 0 where
  pub device_id : Text
  pub ipv4_address : Text
  pub audio_port : ℕ
  pub membership_token : ℕ
  pub connection_state : RoomConnectionState
  pub round_trip_ms : D
  pub clock_offset_ms : D
  pub network_jitter_ms : D
  pub packet_loss_percent : D
  pub buffer_depth_ms : D
  pub output_latency_ms : D
  pub output_route : Text
  pub estimated_sync_error_ms : D

pub record RoomSnapshot (D : Type 0) : Type 0 where
  pub room_id : Text
  pub room_name : Text
  pub host_device_id : Text
  pub session_id : ℕ
  pub stream_id : ℕ
  pub playback_state : RoomPlaybackState
  pub pending_action : Option ScheduledRoomAction
  pub recent_action : Option ScheduledRoomAction
  pub members : List (RoomMember D)

pub record Room (D : Type 0) : Type 0 where
  pub state : RoomSnapshot D
  pub members : List (Text × RoomMember D)
  pub next_membership_token : ℕ

-- "Unknown"
abbrev pub unknown_route : Text
unknown_route = b'U' ∷ b'n' ∷ b'k' ∷ b'n' ∷ b'o' ∷ b'w' ∷ b'n' ∷ []

unfoldable pub is_empty : Text → Bool
is_empty [] = true
is_empty (c ∷ cs) = false

-- `character >= 32 && character <= 126` of every character.
unfoldable pub all_printable : Text → Bool
all_printable [] = true
all_printable (c ∷ cs) = leb 32 c && leb c 126 && all_printable cs

-- `std::hex` of a value with `std::setfill('0')` and a width: its last digits.
abbrev hex_digit : ℕ → ℕ
hex_digit d = if ltb d 10 then b'0' + d else b'a' + (d - 10)

unfoldable pub hex : ℕ → ℕ → Text → Text
hex zero value rest = rest
hex (suc width) value rest = hex width (value / 16) (hex_digit (value % 16) ∷ rest)

module _ {D : Type 0} where
  unfoldable pub room : Text → Text → Text → ℕ → ℕ → Result RoomError (Room D)
  unfolding is_empty
  room room_id room_name host_device_id session_id stream_id = do
    throw_if
        (is_empty room_id
          || is_empty room_name
          || is_empty host_device_id
          || session_id == 0
          || stream_id == 0)
        incomplete_identity
    throw_if (ltb 48 (length room_name) || not (all_printable room_name)) bad_name
    ok (record {
      state = record {
        room_id = room_id;
        room_name = room_name;
        host_device_id = host_device_id;
        session_id = session_id;
        stream_id = stream_id;
        playback_state = stopped;
        pending_action = none;
        recent_action = none;
        members = [];
      };
      members = [];
      next_membership_token = 1;
    })

  -- `Room::create` with what `random64` returns, in the order of the calls.
  unfoldable pub create : Text → Text → ℕ → ℕ → ℕ → ℕ → Result RoomError (Room D)
  create room_name host_device_id id₀ id₁ random_stream session_id =
      let stream_id = random_stream % 2 ^ 32 in
      room (hex 16 id₀ (hex 16 id₁ [])) room_name host_device_id session_id
        (if stream_id == 0 then 1 else stream_id)

  -- The member that `join` makes of its endpoint: the other fields have their defaults.
  abbrev pub new_member : D → Text → Text → ℕ → ℕ → RoomMember D
  new_member initial device_id ipv4_address audio_port token = record {
    device_id = device_id;
    ipv4_address = ipv4_address;
    audio_port = audio_port;
    membership_token = token;
    connection_state = connected;
    round_trip_ms = initial;
    clock_offset_ms = initial;
    network_jitter_ms = initial;
    packet_loss_percent = initial;
    buffer_depth_ms = initial;
    output_latency_ms = initial;
    output_route = unknown_route;
    estimated_sync_error_ms = initial;
  }

  unfoldable pub join : D → Room D → Text → Text → ℕ → Result RoomError (ℕ × Room D)
  unfolding is_empty
  join initial r device_id ipv4_address audio_port = do
    throw_if (is_empty device_id || is_empty ipv4_address || audio_port == 0) incomplete_endpoint
    let token = r.next_membership_token
    ok (
      token,
      record r {
        next_membership_token = (token + 1) % 2 ^ 64;
        members =
            insert_or_assign device_id (new_member initial device_id ipv4_address audio_port token)
              r.members;
      },
    )

  unfoldable pub leave : Room D → Text → ℕ → Room D
  leave r device_id token = elim (lookup device_id r.members) [
    | none ↦ r
    | some member ↦
        if member.membership_token == token
        then record r { members = erase device_id r.members }
        else r
  ]

  unfoldable pub update_member : Room D → RoomMember D → Bool × Room D
  update_member r member = elim (lookup member.device_id r.members) [
    | none ↦ (false, r)
    | some old ↦
        if old.membership_token == member.membership_token
        then (true, record r { members = insert_or_assign member.device_id member r.members })
        else (false, r)
  ]

  unfoldable pub set_playback_state : Room D → RoomPlaybackState → Room D
  set_playback_state r state = record r { state = record (r.state) { playback_state = state } }

  unfoldable pub set_stream_id : Room D → ℕ → Result RoomError (Room D)
  set_stream_id r stream_id = do
    throw_if (stream_id == 0) zero_stream
    ok (record r { state = record (r.state) { stream_id = stream_id } })

  unfoldable pub schedule_action : Room D → ScheduledRoomAction → Result RoomError (Bool × Room D)
  schedule_action r action = do
    throw_if (leb_ℤ action.effective_host_nanoseconds (pos 0) || action.next_stream_id == 0)
        bad_action
    elim r.state.pending_action [
      | some pending ↦ ok (false, r)
      | none ↦ ok (true, record r { state = record (r.state) { pending_action = some action } })
    ]

  unfoldable pub take_action : Room D → Option ScheduledRoomAction × Room D
  take_action r = elim r.state.pending_action [
    | none ↦ (none, record r { state = record (r.state) { pending_action = none } })
    | some action ↦ (
      some action,
      record r { state = record (r.state) { recent_action = some action; pending_action = none } },
    )
  ]

  unfoldable pub snapshot : Room D → RoomSnapshot D
  snapshot r = record (r.state) { members = r.state.members ++ values r.members }
