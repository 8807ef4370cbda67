-- ===== src/Control/Serving.antt =====
-- What an answer of `responseFor` in desktop/src/ControlChannel.cpp leaves of the connection and the room.
use sync_bluetooth_devices.Common.{
  ℕ, ◌+◌, ◌^◌, ◌≤◌, ◌<◌, ◌≡◌, inl, inr, refl, Bool, Bool-cases, true, false, not, if◌then◌else◌,
  Option, none, some, Result, Result-cases, ok, err, Text, text_eq, take, drop, arith,
}
use sync_bluetooth_devices.Common.Floats.{Floats}
use sync_bluetooth_devices.Room.{
  RoomAction, Room, RoomError, RoomMember, join, schedule_action, snapshot, is_empty,
  ScheduledRoomAction,
}
use sync_bluetooth_devices.Room.Invariant.{Call, updates, schedules, step, step-next}
use sync_bluetooth_devices.Common.Int.{ℤ, pos, ◌+ℤ◌}
use sync_bluetooth_devices.Control.{
  answered, is_invalid_in, next_stream, invalid_state, Response, command_response, schedule_command,
  action_of, valid_device_id, local_address,
}
use sync_bluetooth_devices.Control.Connection.{
  invalid_device_id, is_command, unknown_command, bye, client_state_prefix, not_joined, members,
  host_only_command, members_line, host_state, host_state_line, join_prefix, protocol_version,
  hello_line, version, Connection, leave_joined, rejoin, Peer, Answer, response_for, client_state,
  store_report, report_of, keep, with_command, find_member, leave_line, ClientReport,
}
use sync_bluetooth_devices.Control.Departure.{
  IsServed, step-IsServed, leave_joined-Gone, leave_joined-IsServed, leave_joined-next,
  join-IsServed,
}

-- What a step leaves if it throws nothing: a connection that is served, and one token given out at most.
module _ (F : Floats) where
  open F use {Double, lit}

  abbrev pub ServedAt : ℕ → Connection × Room Double → Type 0
  ServedAt n x = IsServed x.0 x.1 × (x.1.next_membership_token ≤ n)

  abbrev pub Serves : ℕ → Result RoomError (Answer × Connection × Room Double) → Type 0
  Serves n (err e) = Unit
  Serves n (ok (answer, c, r)) = ServedAt n (c, r)

  abbrev pub Goes : ℕ → Result RoomError (Connection × Room Double) → Type 0
  Goes n (err e) = Unit
  Goes n (ok x) = ServedAt n x

  -- Either branch.
  pub branch :
      (n : ℕ) (b : Bool) (x y : Result RoomError (Answer × Connection × Room Double))
      → Serves n x
      → Serves n y
      → Serves n (if b then x else y)
  branch n true x y v w = v
  branch n false x y v w = w

  pub turns_to :
      (n : ℕ) (b : Bool) (x y : Result RoomError (Connection × Room Double))
      → Goes n x
      → Goes n y
      → Goes n (if b then x else y)
  turns_to n true x y v w = v
  turns_to n false x y v w = w

  pub valid-named : (d : Text) → valid_device_id d ≡ true → is_empty d ≡ false
  unfolding valid_device_id
  valid-named d e = ground (arith, e)

  pub rejoin-Serves :
      (peer : Peer) (d : Text) (c : Connection) (r : Room Double)
      → r.next_membership_token + 1 < 2 ^ 64
      → valid_device_id d ≡ true
      → c.is_open ≡ true
      → IsServed c r
      → Serves (r.next_membership_token + 1) (rejoin (lit 0 1) peer d c r)
  rejoin-Serves peer d c r h valid opened v =
      let left = leave_joined c r in
      elim (Result-cases (join (lit 0 1) left d peer.address peer.audio_port)) [
        | inl ((t, r'), e) ↦
            unfold rejoin in
            rw e (
              join-IsServed (lit 0 1) c left r' d peer.address peer.audio_port t
                  (omega (arith, h, leave_joined-next c r)) (valid-named d valid) opened
                  (leave_joined-IsServed c r h v) (leave_joined-Gone c r v) e,
              at_most t r' e,
            )
        | inr (x, e) ↦ unfold rejoin in rw e tt
      ]
    where
      at_most :
          (t : ℕ) (r' : Room Double)
          → join (lit 0 1) (leave_joined c r) d peer.address peer.audio_port ≡ ok (t, r')
          → r'.next_membership_token ≤ r.next_membership_token + 1
      at_most t r' e = unfold join in ground (arith, e, leave_joined-next c r)

  -- A call that gives out no token.
  pub call-Served :
      (c : Connection) (r : Room Double) (call : Call Double)
      → r.next_membership_token + 1 < 2 ^ 64
      → IsServed c r
      → ServedAt (r.next_membership_token + 1) (c, step r call)
  call-Served c r call h v = (step-IsServed c r call h v, (step-next r call h).1)

  pub stays :
      (c : Connection) (r : Room Double)
      → IsServed c r
      → ServedAt (r.next_membership_token + 1) (c, r)
  stays c r v = (v, omega arith)

  pub client_state-Serves :
      (read : Text → Option (ClientReport Double)) (line : Text) (o : Option (RoomMember Double))
      (c : Connection) (r : Room Double)
      → r.next_membership_token + 1 < 2 ^ 64
      → IsServed c r
      → Serves (r.next_membership_token + 1) (keep F c (client_state F read line o r))
  unfolding client_state
  client_state-Serves read line none c r h v = stays c r v
  client_state-Serves read line (some m) c r h v = stored (report_of F (read (drop 13 line)) m)
    where
      stored :
          (o : Option (RoomMember Double))
          → Serves (r.next_membership_token + 1) (keep F c (store_report F o r))
      stored none = unfold store_report in stays c r v
      stored (some n) = unfold store_report step in call-Served c r (updates n) h v

  pub schedule_command-Serves :
      (c : Connection) (r : Room Double) (action : RoomAction) (frame : ℕ) (now : ℤ)
      → r.next_membership_token + 1 < 2 ^ 64
      → IsServed c r
      → Serves
          (r.next_membership_token + 1)
          (with_command F c (schedule_command r r action frame now))
  schedule_command-Serves c r action frame now h v =
      unfold schedule_command in refused (is_invalid_in r.state.playback_state action)
    where
      wanted : ScheduledRoomAction
      wanted = record {
        action = action;
        effective_host_nanoseconds = now +ℤ pos 2_000_000_000;
        seek_frame = frame;
        next_stream_id = next_stream action r.state.stream_id;
      }

      scheduled_by :
          (x : Result RoomError (Bool × Room Double))
          → schedule_action r wanted ≡ x
          → Serves
              (r.next_membership_token + 1)
              (with_command F c (answered action (now +ℤ pos 2_000_000_000) frame r x))
      scheduled_by (err x) e = tt
      scheduled_by (ok (true, r')) e =
          let same : step r (schedules wanted) ≡ r' = unfold step in rw e refl in
          rw same at (call-Served c r (schedules wanted) h v)
      scheduled_by (ok (false, r')) e =
          let same : step r (schedules wanted) ≡ r' = unfold step in rw e refl in
          rw same at (call-Served c r (schedules wanted) h v)

      refused :
          (b : Bool)
          → Serves (r.next_membership_token + 1) (
              with_command F c (
                if b
                then ok (invalid_state, r)
                else answered action (now +ℤ pos 2_000_000_000) frame r (schedule_action r wanted)))
      refused true = stays c r v
      refused false = scheduled_by (schedule_action r wanted) refl

  pub command-Serves :
      (c : Connection) (r : Room Double) (total : ℕ) (address line : Text) (now : ℤ)
      → r.next_membership_token + 1 < 2 ^ 64
      → IsServed c r
      → Serves
          (r.next_membership_token + 1)
          (with_command F c (command_response r r total address line now))
  command-Serves c r total address line now h v =
      elim (Bool-cases (text_eq address local_address)) [
        | inl local ↦ unfold command_response in rw local (by (action_of total line))
        | inr away ↦ unfold command_response in rw away (stays c r v)
      ]
    where
      by :
          (x : Result Response (RoomAction × ℕ))
          → Serves (r.next_membership_token + 1) (
              with_command F c (elim x [
                | err refusal ↦ ok (refusal, r)
                | ok (action, frame) ↦ schedule_command r r action frame now
              ]))
      by (err refusal) = stays c r v
      by (ok (action, frame)) = schedule_command-Serves c r action frame now h v

  pub response_for-Serves :
      (read : Text → Option (ClientReport Double)) (peer : Peer) (line : Text) (c : Connection)
      (r : Room Double)
      → r.next_membership_token + 1 < 2 ^ 64
      → c.is_open ≡ true
      → IsServed c r
      → Serves (r.next_membership_token + 1) (response_for F read peer line c r)
  unfolding response_for
  response_for-Serves read peer line c r h opened v =
      let n = r.next_membership_token + 1 in
      let same = stays c r v in
      let e₈ : Result RoomError (Answer × Connection × Room Double) =
        if is_command F line
        then with_command F c (command_response r r peer.total_frames peer.address line peer.now)
        else ok (unknown_command, c, r) in
      let e₇ : Result RoomError (Answer × Connection × Room Double) =
        if text_eq line leave_line then ok (bye, c, r) else e₈ in
      let reply : Result RoomError (Answer × Connection × Room Double) = keep F c (
        client_state F read line
          (find_member c.joined_device_id c.membership_token (snapshot r).members) r) in
      let stated : Result RoomError (Answer × Connection × Room Double) =
        if is_empty c.joined_device_id then ok (not_joined, c, r) else reply in
      let e₆ : Result RoomError (Answer × Connection × Room Double) =
        if text_eq (take 13 line) client_state_prefix then stated else e₇ in
      let listed : Result RoomError (Answer × Connection × Room Double) =
        ok (if text_eq peer.address local_address then members else host_only_command, c, r) in
      let e₅ : Result RoomError (Answer × Connection × Room Double) =
        if text_eq line members_line then listed else e₆ in
      let e₄ : Result RoomError (Answer × Connection × Room Double) =
        if text_eq line host_state_line then ok (host_state, c, r) else e₅ in
      let joins_in : Result RoomError (Answer × Connection × Room Double) =
        if not (valid_device_id (drop 5 line))
        then ok (invalid_device_id, c, r)
        else rejoin (lit 0 1) peer (drop 5 line) c r in
      let e₃ : Result RoomError (Answer × Connection × Room Double) =
        if text_eq (take 5 line) join_prefix then joins_in else e₄ in
      let e₂ : Result RoomError (Answer × Connection × Room Double) =
        if text_eq (take 6 line) (take 6 hello_line) then ok (protocol_version, c, r) else e₃ in
      let v₈ =
        branch n (is_command F line)
          (with_command F c (command_response r r peer.total_frames peer.address line peer.now))
          (ok (unknown_command, c, r))
          (command-Serves c r peer.total_frames peer.address line peer.now h v) same in
      let v₆ =
        branch n (text_eq (take 13 line) client_state_prefix) stated e₇
          (branch n (is_empty c.joined_device_id) (ok (not_joined, c, r)) reply same
            (client_state-Serves read line _ c r h v))
          (branch n (text_eq line leave_line) (ok (bye, c, r)) e₈ same v₈) in
      let v₄ =
        branch n (text_eq line host_state_line) (ok (host_state, c, r)) e₅ same
          (branch n (text_eq line members_line) listed e₆ same v₆) in
      let v₂ =
        branch n (text_eq (take 6 line) (take 6 hello_line)) (ok (protocol_version, c, r)) e₃ same
          (branch n (text_eq (take 5 line) join_prefix) joins_in e₄ joining v₄) in
      branch n (text_eq line hello_line) (ok (version, c, r)) e₂ same v₂
    where
      joining : Serves (r.next_membership_token + 1) (
          if not (valid_device_id (drop 5 line))
          then ok (invalid_device_id, c, r)
          else rejoin (lit 0 1) peer (drop 5 line) c r)
      joining = elim (Bool-cases (valid_device_id (drop 5 line))) [
        | inl valid ↦ rw valid (rejoin-Serves peer (drop 5 line) c r h valid opened v)
        | inr bad ↦ rw bad (stays c r v)
      ]
