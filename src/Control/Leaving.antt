-- ===== src/Control/Leaving.antt =====
-- The loop of `serveClient` in desktop/src/ControlChannel.cpp, event by event, while other threads use the
-- room.
use sync_bluetooth_devices.Common.{
  ℕ, ◌+◌, ◌^◌, ◌≤◌, ◌<◌, ◌≡◌, ◌≢◌, refl, Bool, true, false, ◌||◌, ◌&&◌, not, List, [], ◌∷◌, ◌++◌,
  length, ltb, leb, ◌==◌, if◌then◌else◌, Option, some, Result, ok, err, ◌>>=◌, Text, text_eq, All,
  arith,
}
use sync_bluetooth_devices.Common.Floats.{Floats}
use sync_bluetooth_devices.Room.{Room, RoomError, RoomMember}
use sync_bluetooth_devices.Room.Members.{lookup}
use sync_bluetooth_devices.Room.Invariant.{IsRoom}
use sync_bluetooth_devices.Control.Connection.{
  Connection, new_connection, Answer, SocketEvent, receives, closes, stops, Turn, here, elsewhere,
  turn, turns, serve_client, after_answer, close_connection, response_for, strip_return, leave_line,
  ClientReport,
}
use sync_bluetooth_devices.Control.Departure.{
  Never, Held, IsServed, new_connection-IsServed, leave_joined-Gone, leave_joined-IsServed,
  leave_joined-next,
}
use sync_bluetooth_devices.Control.Serving.{
  ServedAt, Serves, Goes, turns_to, call-Served, stays, response_for-Serves,
}

module _ (F : Floats) where
  open F use {Double}

  -- Fields of the connection that the room does not know.
  with_line :
      (c : Connection) (r : Room Double) (line : Text)
      → IsServed c r
      → IsServed (record c { line = line }) r
  with_line c r line v = record {
    room = v.room;
    issued = v.issued;
    current = v.current;
    closed = v.closed;
    past = v.past;
  }

  close-Goes :
      (n : ℕ) (c : Connection) (r : Room Double)
      → r.next_membership_token + 1 < 2 ^ 64
      → r.next_membership_token ≤ n
      → IsServed c r
      → ServedAt F n (close_connection F c r)
  close-Goes n c r h le v =
      let w = leave_joined-IsServed c r h v in
      unfold close_connection in
      (
        record {
          room = w.room;
          issued = w.issued;
          current = w.current;
          closed = λ e. leave_joined-Gone c r v;
          past = w.past;
        },
        omega (arith, le, leave_joined-next c r),
      )

  after_answer-Goes :
      (n : ℕ) (sends : Bool) (line : Text)
      (x : Result RoomError (Answer × Connection × Room Double))
      → n + 1 < 2 ^ 64
      → Serves F n x
      → Goes F n (after_answer F sends line x)
  unfolding after_answer
  after_answer-Goes n sends line (err e) h v = tt
  after_answer-Goes n sends line (ok (answer, c, r)) h v =
      turns_to F n (not sends || text_eq line leave_line) (ok (close_connection F c r))
        (ok (record c { line = [] }, r)) (close-Goes n c r (omega (arith, h, v.1)) v.1 v.0)
        (with_line c r [] v.0, v.1)

  serve_client-Goes :
      (read : Text → Option (ClientReport Double)) (e : SocketEvent) (c : Connection)
      (r : Room Double)
      → r.next_membership_token + 2 < 2 ^ 64
      → c.is_open ≡ true
      → IsServed c r
      → Goes F (r.next_membership_token + 1) (serve_client F read e c r)
  unfolding serve_client
  serve_client-Goes read (receives character peer sends) c r h opened v =
      let n = r.next_membership_token + 1 in
      let shut = close-Goes n c r (omega (arith, h)) (omega arith) v in
      let longer : Connection = record c { line = c.line ++ (character ∷ []) } in
      let line = strip_return c.line in
      turns_to F n (character == 10) (after_answer F sends line (response_for F read peer line c r))
        _
        (after_answer-Goes n sends line (response_for F read peer line c r) (omega (arith, h))
          (response_for-Serves F read peer line c r (omega (arith, h)) opened v))
        (turns_to F n (ltb (length c.line) 256 && leb 32 character && ltb character 127)
          (ok (longer, r)) (ok (close_connection F c r))
          (with_line c r (c.line ++ (character ∷ [])) v, omega arith) shut)
  serve_client-Goes read closes c r h opened v = close-Goes _ c r (omega (arith, h)) (omega arith) v
  serve_client-Goes read stops c r h opened v = close-Goes _ c r (omega (arith, h)) (omega arith) v

  turn-Goes :
      (read : Text → Option (ClientReport Double)) (t : Turn F) (c : Connection) (r : Room Double)
      → r.next_membership_token + 2 < 2 ^ 64
      → IsServed c r
      → Goes F (r.next_membership_token + 1) (turn F read t c r)
  unfolding turn
  turn-Goes read (elsewhere call) c r h v = call-Served F c r call (omega (arith, h)) v
  turn-Goes read (here e) c r h v = looping c.is_open refl
    where
      looping :
          (b : Bool)
          → c.is_open ≡ b
          → Goes F
              (r.next_membership_token + 1)
              (if b then serve_client F read e c r else ok (c, r))
      looping true opened = serve_client-Goes read e c r h opened v
      looping false shut = stays F c r v

  abbrev Served : Result RoomError (Connection × Room Double) → Type 0
  Served (err e) = Unit
  Served (ok x) = IsServed x.0 x.1

  then_Served :
      (n : ℕ) (x : Result RoomError (Connection × Room Double))
      (next : Connection → Room Double → Result RoomError (Connection × Room Double))
      → Goes F n x
      → ((c : Connection) (r : Room Double)
          → r.next_membership_token ≤ n
          → IsServed c r
          → Served (next c r))
      → Served (x >>= λ (y : Connection × Room Double). next y.0 y.1)
  then_Served n (err e) next v go = tt
  then_Served n (ok (c, r)) next v go = go c r v.1 v.0

  turns-Served :
      (read : Text → Option (ClientReport Double)) (ts : List (Turn F)) (c : Connection)
      (r : Room Double)
      → r.next_membership_token + length ts + 1 < 2 ^ 64
      → IsServed c r
      → Served (turns F read ts c r)
  unfolding turns
  turns-Served read [] c r h v = v
  turns-Served read (t ∷ rest) c r h v =
      then_Served (r.next_membership_token + 1) (turn F read t c r)
        (λ c₁ r₁. turns F read rest c₁ r₁) (turn-Goes read t c r (omega (arith, h)) v)
        (λ c₁ r₁ le w. turns-Served read rest c₁ r₁ (omega (arith, h, le)) w)

  -- Whatever lines a client sends in whatever pieces, and whatever other threads do to the room in between,
  -- in a host that has a room: once its connection is over (LEAVE, a malformed line, an answer that
  -- cannot be sent, a closed socket or the server's stop) no member of the room has the token of its last
  -- JOIN, nor that of an earlier one; this from any well-formed room, as long as the tokens do not run
  -- out and no call throws.
  pub departed_for_good :
      (read : Text → Option (ClientReport Double)) (ts : List (Turn F)) (r : Room Double)
      (c' : Connection) (r' : Room Double)
      → r.next_membership_token + length ts + 1 < 2 ^ 64
      → IsRoom r
      → turns F read ts new_connection r ≡ ok (c', r')
      → c'.is_open ≡ false
      → All
          (λ t.
            (k : Text) (m : RoomMember Double)
            → lookup k r'.members ≡ some m
            → m.membership_token ≢ t)
          (c'.membership_token ∷ c'.past_tokens)
  departed_for_good read ts r c' r' h v e over =
      let w : IsServed c' r' =
        rw e at (turns-Served read ts new_connection r h (new_connection-IsServed r v)) in
      (
        λ k m found same. absurd (omega (arith, w.closed over k m found same)),
        nobody r' c'.past_tokens w.past,
      )
    where
      nobody :
          (s : Room Double) (ts : List ℕ)
          → All (λ t. (t < s.next_membership_token) × Held Never s t) ts
          → All
              (λ t.
                (k : Text) (m : RoomMember Double)
                → lookup k s.members ≡ some m
                → m.membership_token ≢ t)
              ts
      nobody s [] w = tt
      nobody s (t ∷ ts) w =
          (λ k m found same. absurd (omega (arith, (w.0).1 k m found same)), nobody s ts w.1)
