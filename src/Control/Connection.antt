-- ===== src/Control/Connection.antt =====
-- One connection of `ControlServer` in desktop/src/ControlChannel.cpp, in a host that has a room:
-- `responseFor` of every line, and `serveClient`. An answer is a constructor for each kind of text; what
-- WELCOME, HOST_STATE and MEMBERS print of the state is left out. `std::istringstream` is a parameter,
-- and so is the socket. The calls of the room that one answer makes (`leave` and `join`; `snapshot` and
-- `updateMember` or `scheduleAction`) are one step here, with no call of another thread between them.
use sync_bluetooth_devices.Common.{
  ℕ, Bool, true, false, ◌||◌, ◌&&◌, not, List, [], ◌∷◌, ◌++◌, length, ltb, leb, ◌==◌, if◌then◌else◌,
  Option, none, some, Result, ok, err, ◌>>=◌, Text, text_eq, take, drop,
}
use sync_bluetooth_devices.Common.Int.{ℤ}
use sync_bluetooth_devices.Common.Floats.{Floats}
use sync_bluetooth_devices.Room.{
  Room, RoomError, RoomMember, RoomConnectionState, connected, syncing, buffering, synced, degraded,
  reconnecting, join, leave, update_member, snapshot, is_empty,
}
use sync_bluetooth_devices.Room.Invariant.{Call, step}
use sync_bluetooth_devices.Control.{
  Response, valid_device_id, is_alnum, play_line, pause_line, stop_line, is_seek, local_address,
  command_response,
}

pub data Answer : Type 0 where
  version protocol_version invalid_device_id welcome host_state host_only_command members
        not_joined :
      Answer
  invalid_client_state accepted bye unknown_command : Answer
  command : Response → Answer

abbrev pub hello_line : Text
hello_line = b'H' ∷ b'E' ∷ b'L' ∷ b'L' ∷ b'O' ∷ b' ' ∷ b'2' ∷ []

abbrev pub join_prefix : Text
join_prefix = b'J' ∷ b'O' ∷ b'I' ∷ b'N' ∷ b' ' ∷ []

abbrev pub host_state_line : Text
host_state_line = b'H' ∷ b'O' ∷ b'S' ∷ b'T' ∷ b'_' ∷ b'S' ∷ b'T' ∷ b'A' ∷ b'T' ∷ b'E' ∷ []

abbrev pub members_line : Text
members_line = b'M' ∷ b'E' ∷ b'M' ∷ b'B' ∷ b'E' ∷ b'R' ∷ b'S' ∷ []

abbrev pub client_state_prefix : Text
client_state_prefix =
    b'C' ∷ b'L' ∷ b'I' ∷ b'E' ∷ b'N' ∷ b'T' ∷ b'_' ∷ b'S' ∷ b'T' ∷ b'A' ∷ b'T' ∷ b'E' ∷ b' ' ∷ []

abbrev pub leave_line : Text
leave_line = b'L' ∷ b'E' ∷ b'A' ∷ b'V' ∷ b'E' ∷ []

-- The names of the states of a connection.
unfoldable pub connection_of : Text → Option RoomConnectionState
connection_of status =
    if text_eq status (b'C' ∷ b'O' ∷ b'N' ∷ b'N' ∷ b'E' ∷ b'C' ∷ b'T' ∷ b'E' ∷ b'D' ∷ [])
    then some connected
    else if text_eq status (b'S' ∷ b'Y' ∷ b'N' ∷ b'C' ∷ b'I' ∷ b'N' ∷ b'G' ∷ [])
    then some syncing
    else if text_eq status (b'B' ∷ b'U' ∷ b'F' ∷ b'F' ∷ b'E' ∷ b'R' ∷ b'I' ∷ b'N' ∷ b'G' ∷ [])
    then some buffering
    else if text_eq status (b'S' ∷ b'Y' ∷ b'N' ∷ b'C' ∷ b'E' ∷ b'D' ∷ [])
    then some synced
    else if text_eq status (b'D' ∷ b'E' ∷ b'G' ∷ b'R' ∷ b'A' ∷ b'D' ∷ b'E' ∷ b'D' ∷ [])
    then some degraded
    else if text_eq status
        (b'R' ∷ b'E' ∷ b'C' ∷ b'O' ∷ b'N' ∷ b'N' ∷ b'E' ∷ b'C' ∷ b'T' ∷ b'I' ∷ b'N' ∷ b'G' ∷ [])
    then some reconnecting
    else none

unfoldable pub all_route_characters : Text → Bool
all_route_characters [] = true
all_route_characters (c ∷ cs) = (is_alnum c || c == b'_' || c == b'-') && all_route_characters cs

-- The route by the words behind the numbers: the old one, a new one, or a refusal.
unfoldable pub route_of : Text → List Text → Option Text
route_of old [] = some old
route_of old (w ∷ []) =
    if length w == 0 || ltb 32 (length w) || not (all_route_characters w) then none else some w
route_of old (w ∷ x ∷ rest) = none

-- What `>>` reads of a line: the status, the seven numbers and the words behind them.
pub record ClientReport (D : Type 0) : Type 0 where
  pub status : Text
  pub round_trip_ms : D
  pub network_jitter_ms : D
  pub packet_loss_percent : D
  pub buffer_depth_ms : D
  pub estimated_sync_error_ms : D
  pub output_latency_ms : D
  pub clock_offset_ms : D
  pub trailing : List Text

-- The locals of `serveClient`; `is_open` is false behind its loop. For the theorems, the tokens of earlier
-- joins.
pub record Connection : Type 0 where
  pub line : Text
  pub joined_device_id : Text
  pub membership_token : ℕ
  pub is_open : Bool
  pub past_tokens : List ℕ

-- What a connection has when it starts.
abbrev pub new_connection : Connection
new_connection = record {
  line = [];
  joined_device_id = [];
  membership_token = 0;
  is_open = true;
  past_tokens = [];
}

-- `if (!line.empty() && line.back() == '\r') line.pop_back();`
unfoldable pub strip_return : Text → Text
strip_return [] = []
strip_return (c ∷ []) = if c == 13 then [] else c ∷ []
strip_return (c ∷ d ∷ rest) = c ∷ strip_return (d ∷ rest)

-- Who and where the connection is, and when.
pub record Peer : Type 0 where
  pub address : Text
  pub audio_port : ℕ
  pub total_frames : ℕ
  pub now : ℤ

-- What happens to the connection while its loop runs: a character comes, with what becomes of the answer
-- to it; the peer closes; the server stops. A timeout changes nothing.
pub data SocketEvent : Type 0 where
  receives : ℕ → Peer → Bool → SocketEvent
  closes stops : SocketEvent

module _ {D : Type 0} where
  -- The `find_if` of a member with this device and token.
  unfoldable pub find_member : Text → ℕ → List (RoomMember D) → Option (RoomMember D)
  find_member device_id token [] = none
  find_member device_id token (m ∷ ms) =
      if text_eq m.device_id device_id && m.membership_token == token
      then some m
      else find_member device_id token ms

  unfoldable pub leave_joined : Connection → Room D → Room D
  unfolding is_empty
  leave_joined c r =
      if is_empty c.joined_device_id then r else leave r c.joined_device_id c.membership_token

  -- A JOIN of a valid device.
  unfoldable pub rejoin :
      D → Peer → Text → Connection → Room D → Result RoomError (Answer × Connection × Room D)
  rejoin initial peer device_id c r = do
    (token, joined) ← join initial (leave_joined c r) device_id peer.address peer.audio_port
    ok (
      welcome,
      record c {
        joined_device_id = device_id;
        membership_token = token;
        past_tokens = c.membership_token ∷ c.past_tokens;
      },
      joined,
    )

module _ (F : Floats) where
  open F use {Double, lit, abs, is_finite}

  unfoldable pub is_bad : Double → Bool
  is_bad value = not (is_finite value) || F.ltb (lit 1_000_000 1) (abs value)

  abbrev pub is_bad_report : ClientReport Double → Bool
  is_bad_report p =
      is_bad p.round_trip_ms
      || is_bad p.network_jitter_ms
      || is_bad p.packet_loss_percent
      || is_bad p.buffer_depth_ms
      || is_bad p.estimated_sync_error_ms
      || is_bad p.output_latency_ms
      || is_bad p.clock_offset_ms

  -- The member as the report has it.
  unfoldable pub reported :
      ClientReport Double
      → RoomMember Double
      → Option Text
      → Option RoomConnectionState
      → Option (RoomMember Double)
  reported p m none state = none
  reported p m (some route) none = none
  reported p m (some route) (some state) =
      if is_bad_report p
      then none
      else some (record m {
        connection_state = state;
        round_trip_ms = p.round_trip_ms;
        clock_offset_ms = p.clock_offset_ms;
        network_jitter_ms = p.network_jitter_ms;
        packet_loss_percent = p.packet_loss_percent;
        buffer_depth_ms = p.buffer_depth_ms;
        output_latency_ms = p.output_latency_ms;
        output_route = route;
        estimated_sync_error_ms = p.estimated_sync_error_ms;
      })

  unfoldable pub report_of :
      Option (ClientReport Double) → RoomMember Double → Option (RoomMember Double)
  report_of none m = none
  report_of (some p) m = reported p m (route_of m.output_route p.trailing) (connection_of p.status)

  unfoldable pub store_report : Option (RoomMember Double) → Room Double → Answer × Room Double
  store_report none r = (invalid_client_state, r)
  store_report (some m) r =
      let (found, updated) = update_member r m in (if found then accepted else not_joined, updated)

  unfoldable pub client_state :
      (Text → Option (ClientReport Double))
      → Text
      → Option (RoomMember Double)
      → Room Double
      → Answer × Room Double
  client_state read line none r = (not_joined, r)
  client_state read line (some m) r = store_report (report_of (read (drop 13 line)) m) r

  abbrev pub is_command : Text → Bool
  is_command line =
      text_eq line play_line || text_eq line pause_line || text_eq line stop_line || is_seek line

  abbrev pub with_command :
      Connection
      → Result RoomError (Response × Room Double)
      → Result RoomError (Answer × Connection × Room Double)
  with_command c (err e) = err e
  with_command c (ok (answer, r)) = ok (command answer, c, r)

  abbrev pub keep :
      Connection → Answer × Room Double → Result RoomError (Answer × Connection × Room Double)
  keep c (answer, r) = ok (answer, c, r)

  -- `responseFor`, with what `std::istringstream` reads.
  unfoldable pub response_for :
      (Text → Option (ClientReport Double))
      → Peer
      → Text
      → Connection
      → Room Double
      → Result RoomError (Answer × Connection × Room Double)
  unfolding is_empty
  response_for read peer line c r =
      if text_eq line hello_line
      then ok (version, c, r)
      else if text_eq (take 6 line) (take 6 hello_line)
      then ok (protocol_version, c, r)
      else if text_eq (take 5 line) join_prefix
      then (if not (valid_device_id (drop 5 line))
          then ok (invalid_device_id, c, r)
          else rejoin (lit 0 1) peer (drop 5 line) c r)
      else if text_eq line host_state_line
      then ok (host_state, c, r)
      else if text_eq line members_line
      then ok (if text_eq peer.address local_address then members else host_only_command, c, r)
      else if text_eq (take 13 line) client_state_prefix
      then (if is_empty c.joined_device_id
          then ok (not_joined, c, r)
          else keep c (
              client_state read line
                (find_member c.joined_device_id c.membership_token (snapshot r).members) r))
      else if text_eq line leave_line
      then ok (bye, c, r)
      else if is_command line
      then with_command c (command_response r r peer.total_frames peer.address line peer.now)
      else ok (unknown_command, c, r)

  -- Behind the loop of `serveClient`.
  unfoldable pub close_connection : Connection → Room Double → Connection × Room Double
  close_connection c r = (record c { is_open = false }, leave_joined c r)

  -- The answer is sent, or not, and the loop goes on, or not.
  unfoldable pub after_answer :
      Bool
      → Text
      → Result RoomError (Answer × Connection × Room Double)
      → Result RoomError (Connection × Room Double)
  after_answer sends line (err e) = err e
  after_answer sends line (ok (answer, c, r)) =
      if not sends || text_eq line leave_line
      then ok (close_connection c r)
      else ok (record c { line = [] }, r)

  unfoldable pub serve_client :
      (Text → Option (ClientReport Double))
      → SocketEvent
      → Connection
      → Room Double
      → Result RoomError (Connection × Room Double)
  serve_client read (receives character peer sends) c r =
      if character == 10
      then (let line = strip_return c.line in
          after_answer sends line (response_for read peer line c r))
      else if ltb (length c.line) 256 && leb 32 character && ltb character 127
      then ok (record c { line = c.line ++ (character ∷ []) }, r)
      else ok (close_connection c r)
  serve_client read closes c r = ok (close_connection c r)
  serve_client read stops c r = ok (close_connection c r)

  -- The room is shared: other threads call it between the events of this connection.
  pub data Turn : Type 0 where
    here : SocketEvent → Turn
    elsewhere : Call Double → Turn

  unfoldable pub turn :
      (Text → Option (ClientReport Double))
      → Turn
      → Connection
      → Room Double
      → Result RoomError (Connection × Room Double)
  turn read (here e) c r = if c.is_open then serve_client read e c r else ok (c, r)
  turn read (elsewhere call) c r = ok (c, step r call)

  unfoldable pub turns :
      (Text → Option (ClientReport Double))
      → List Turn
      → Connection
      → Room Double
      → Result RoomError (Connection × Room Double)
  turns read [] c r = ok (c, r)
  turns read (t ∷ rest) c r = do (c₁, r₁) ← turn read t c r; turns read rest c₁ r₁
