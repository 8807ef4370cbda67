-- ===== src/Runs/Connections.antt =====
-- A client that joins and leaves, with another thread at work in between.
use sync_bluetooth_devices.Common.{
  ℕ, ◌≡◌, ◌≢◌, refl, true, false, List, [], ◌∷◌, ◌++◌, Option, none, some, All, ok, Text, text_eq,
  arith,
}
use sync_bluetooth_devices.Common.Int.{pos}
use sync_bluetooth_devices.Room.{Room, RoomMember, join, leave, take_action, is_empty}
use sync_bluetooth_devices.Room.Members.{lookup, insert_or_assign, erase}
use sync_bluetooth_devices.Room.Invariant.{IsRoom, takes, step}
use sync_bluetooth_devices.Control.{valid_device_id, all_id_characters, local_address}
use sync_bluetooth_devices.Control.Connection.{
  Connection, new_connection, Peer, Turn, here, elsewhere, receives, turns, turn, serve_client,
  after_answer, response_for, rejoin, leave_joined, close_connection, strip_return, ClientReport,
  leave_line,
}
use sync_bluetooth_devices.Control.Leaving.{departed_for_good}
use sync_bluetooth_devices.Runs.Buffers.{naturals}
use sync_bluetooth_devices.Runs.Commands.{playing_room}

abbrev peer : Peer
peer = record { address = local_address; audio_port = 40100; total_frames = 100; now = pos 70 }

abbrev typed : Text → List (Turn naturals)
typed [] = []
typed (c ∷ cs) = here (receives c peer true) ∷ typed cs

abbrev join_a : Text
join_a = b'J' ∷ b'O' ∷ b'I' ∷ b'N' ∷ b' ' ∷ b'A' ∷ 10 ∷ []

abbrev visit : List (Turn naturals)
visit = typed join_a ++ (elsewhere takes ∷ typed (leave_line ++ (10 ∷ [])))

abbrev reads_nothing : Text → Option (ClientReport ℕ)
reads_nothing line = none

abbrev gone : Connection
gone = record {
  line = leave_line;
  joined_device_id = b'A' ∷ [];
  membership_token = 1;
  is_open = false;
  past_tokens = 0 ∷ [];
}

abbrev left_room : Room ℕ
left_room = record playing_room { next_membership_token = 2 }

visits : turns naturals reads_nothing visit new_connection playing_room ≡ ok (gone, left_room)
unfolding turns turn serve_client after_answer response_for rejoin leave_joined close_connection
    strip_return valid_device_id all_id_characters is_empty join leave step take_action lookup
    insert_or_assign erase text_eq
visits = refl

playing_room-IsRoom : IsRoom playing_room
unfolding lookup
playing_room-IsRoom = record {
  session = λ e. cc e;
  stream = λ e. cc e;
  pending = tt;
  recent = tt;
  next = omega arith;
  entries = λ k. tt;
}

departed_for_good_example :
    All
      (λ t.
        (k : Text) (m : RoomMember ℕ)
        → lookup k left_room.members ≡ some m
        → m.membership_token ≢ t)
      (1 ∷ 0 ∷ [])
departed_for_good_example =
    departed_for_good naturals reads_nothing visit playing_room gone left_room (omega arith)
      playing_room-IsRoom visits refl
