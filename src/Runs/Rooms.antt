-- ===== src/Runs/Rooms.antt =====
-- A room that a phone joins twice, and uses of its action slot.
use sync_bluetooth_devices.Common.{
  true, false, ℕ, ◌≡◌, refl, false, List, [], ◌∷◌, ◌++◌, none, Text, ok, arith,
}
use sync_bluetooth_devices.Common.Int.{pos}
use sync_bluetooth_devices.Room.{
  is_empty, create, all_printable, Room, ScheduledRoomAction, play, stop, stopped, playing, room,
  join, leave, update_member, new_member,
}
use sync_bluetooth_devices.Room.Members.{insert_or_assign}
use sync_bluetooth_devices.Room.Invariant.{
  IsRoom, Call, joins, leaves, sets_playback, schedules, takes, run, run-IsRoom, room-IsRoom,
}
use sync_bluetooth_devices.Room.Creation.{create-IsRoom}
use sync_bluetooth_devices.Room.Membership.{stale_token}
use sync_bluetooth_devices.Room.Actions as Actions

abbrev phone : Text
phone = b'P' ∷ []

abbrev address : Text
address = b'1' ∷ []

abbrev empty_room : Room ℕ
empty_room = record {
  state = record {
    room_id = b'0' ∷ [];
    room_name = b'R' ∷ [];
    host_device_id = b'H' ∷ [];
    session_id = 9;
    stream_id = 4;
    playback_state = stopped;
    pending_action = none;
    recent_action = none;
    members = [];
  };
  members = [];
  next_membership_token = 1;
}

opened : room (b'0' ∷ []) (b'R' ∷ []) (b'H' ∷ []) 9 4 ≡ ok empty_room
unfolding room all_printable
opened = refl

empty_room-IsRoom : IsRoom empty_room
empty_room-IsRoom = room-IsRoom (b'0' ∷ []) (b'R' ∷ []) (b'H' ∷ []) 9 4 empty_room opened

abbrev start : ScheduledRoomAction
start = record {
  action = play;
  effective_host_nanoseconds = pos 5;
  seek_frame = 0;
  next_stream_id = 4;
}

abbrev halt : ScheduledRoomAction
halt = record {
  action = stop;
  effective_host_nanoseconds = pos 8;
  seek_frame = 0;
  next_stream_id = 4;
}

-- The second action finds the slot taken.
accepted-taken_example :
    []
      ++ Actions.accepted empty_room
          (Actions.schedules start ∷ Actions.schedules halt ∷ Actions.takes ∷ [])
    ≡ Actions.taken empty_room
        (Actions.schedules start ∷ Actions.schedules halt ∷ Actions.takes ∷ [])
      ++ Actions.slot (
          Actions.use_all empty_room
            (Actions.schedules start ∷ Actions.schedules halt ∷ Actions.takes ∷ []))
accepted-taken_example =
    Actions.accepted-taken empty_room
      (Actions.schedules start ∷ Actions.schedules halt ∷ Actions.takes ∷ [])

abbrev busy : List (Call ℕ)
busy =
    joins 0 phone address 5000
    ∷ schedules start
    ∷ takes
    ∷ sets_playback playing
    ∷ leaves phone 1
    ∷ []

run-IsRoom_example : IsRoom (run empty_room busy)
run-IsRoom_example = run-IsRoom empty_room busy (omega arith) empty_room-IsRoom

abbrev joined : Room ℕ
joined = record empty_room {
  members = insert_or_assign phone (new_member 0 phone address 5000 1) [];
  next_membership_token = 2;
}

joins_once : join 0 empty_room phone address 5000 ≡ ok (1, joined)
unfolding join
joins_once = refl

abbrev rejoined : Room ℕ
rejoined = record joined {
  members = insert_or_assign phone (new_member 0 phone address 5001 2) joined.members;
  next_membership_token = 3;
}

joins_again : join 0 (run joined []) phone address 5001 ≡ ok (2, rejoined)
unfolding join run
joins_again = refl

stale_token_example :
    (leave rejoined phone 1 ≡ rejoined)
    × (update_member rejoined (new_member 0 phone address 5000 1) ≡ (false, rejoined))
stale_token_example =
    stale_token 0 0 empty_room joined rejoined phone address address 5000 5001 1 2 []
      (new_member 0 phone address 5000 1) (omega arith) joins_once joins_again refl refl

named_printable : all_printable (b'R' ∷ []) ≡ true
unfolding all_printable
named_printable = refl

filled : is_empty (b'R' ∷ []) ≡ false
unfolding is_empty
filled = refl

create-IsRoom_example :
    (r : Room ℕ) × (create (b'R' ∷ []) (b'R' ∷ []) 17 3 4_294_967_296 9 ≡ ok r)
    × IsRoom r
    × (r.state.session_id ≡ 9)
create-IsRoom_example =
    create-IsRoom (b'R' ∷ []) (b'R' ∷ []) 17 3 4_294_967_296 9 filled (omega arith) named_printable
      filled (omega arith)
