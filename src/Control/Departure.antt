-- ===== src/Control/Departure.antt =====
-- What a connection of desktop/src/ControlChannel.cpp leaves in the room.
use sync_bluetooth_devices.Common.{
  ℕ, ◌+◌, ◌^◌, ◌≤◌, ◌<◌, ◌≡◌, inl, inr, refl, Bool-cases, true, false, List, [], ◌∷◌, Option, none,
  some, ok, Text, text_eq, text_eq_iff, All, arith,
}
use sync_bluetooth_devices.Room.{
  Room, RoomMember, new_member, join, leave, update_member, set_playback_state, set_stream_id,
  schedule_action, take_action, is_empty,
}
use sync_bluetooth_devices.Room.Members.{lookup, lookup-insert_or_assign, lookup-erase}
use sync_bluetooth_devices.Room.Membership.{lookup-join}
use sync_bluetooth_devices.Room.Invariant.{
  IsRoom, Call, joins, leaves, updates, sets_playback, sets_stream, schedules, takes, step,
  step-IsRoom, step-next,
}
use sync_bluetooth_devices.Control.Connection.{Connection, new_connection, leave_joined}

-- Nobody has the token.
abbrev pub Never : Text → Type 0
Never k = 1 ≤ 0

-- Only the device has it.
abbrev pub Owner : Text → Text → Type 0
Owner d k = (k ≡ d) × (is_empty d ≡ false)

module _ {D : Type 0} where
  -- Only members under a key with `Q` have the token.
  abbrev pub Held : (Text → Type 0) → Room D → ℕ → Type 0
  Held Q r t =
      (k : Text) (m : RoomMember D) → lookup k r.members ≡ some m → m.membership_token ≡ t → Q k

  update-Held :
      (Q : Text → Type 0) (r : Room D) (n : RoomMember D) (t : ℕ)
      → Held Q r t
      → Held Q (update_member r n).1 t
  update-Held Q r n t h k m e same = found (lookup n.device_id r.members) refl
    where
      found : (o : Option (RoomMember D)) → lookup n.device_id r.members ≡ o → Q k
      found none eo = unfold update_member in ground (arith, eo, h k m)
      found (some old) eo =
          unfold update_member in
          ground (
            arith,
            eo,
            h k m,
            h k old,
            text_eq_iff n.device_id k,
            lookup-insert_or_assign n.device_id k n r.members,
          )

  -- No call gives a token out again, or to another device.
  pub step-Held :
      (Q : Text → Type 0) (r : Room D) (c : Call D) (t : ℕ)
      → t < r.next_membership_token
      → Held Q r t
      → Held Q (step r c) t
  step-Held Q r (joins initial d a p) t lt h k m e same =
      unfold step join in
      ground (
        arith,
        h k m,
        text_eq_iff d k,
        lookup-insert_or_assign d k (new_member initial d a p r.next_membership_token) r.members,
      )
  step-Held Q r (leaves d u) t lt h k m e same =
      unfold step leave in ground (arith, h k m, lookup-erase d k r.members)
  step-Held Q r (updates n) t lt h k m e same = unfold step in update-Held Q r n t h k m e same
  step-Held Q r (sets_playback s) t lt h k m e same =
      h k m (unfold step set_playback_state in e) same
  step-Held Q r (sets_stream i) t lt h k m e same =
      unfold step set_stream_id in ground (arith, h k m)
  step-Held Q r (schedules a) t lt h k m e same =
      unfold step schedule_action in ground (arith, h k m)
  step-Held Q r takes t lt h k m e same = unfold step take_action in ground (arith, h k m)

  leave-Gone : (r : Room D) (d : Text) (t : ℕ) → Held (λ k. k ≡ d) r t → Held Never (leave r d t) t
  leave-Gone r d t h k m e same = found (lookup d r.members) refl
    where
      found : (o : Option (RoomMember D)) → lookup d r.members ≡ o → Never k
      found none eo = unfold leave in ground (arith, eo, h k m, text_eq_iff d k)
      found (some old) eo =
          unfold leave in
          ground (arith, eo, h k m, h d old, text_eq_iff d k, lookup-erase d k r.members)

  -- The room and a connection whose loop runs: the current token is its device's, the past ones are
  -- nobody's, and all of them were given out.
  pub record IsServed (c : Connection) (r : Room D) : Type 0 where
    pub room : IsRoom r
    pub issued : c.membership_token < r.next_membership_token
    pub current : Held (Owner c.joined_device_id) r c.membership_token
    pub closed : c.is_open ≡ false → Held Never r c.membership_token
    pub past : All (λ t. (t < r.next_membership_token) × Held Never r t) c.past_tokens

  past-step :
      (r : Room D) (call : Call D) (ts : List ℕ)
      → r.next_membership_token + 1 < 2 ^ 64
      → All (λ t. (t < r.next_membership_token) × Held Never r t) ts
      → All (λ t. (t < (step r call).next_membership_token) × Held Never (step r call) t) ts
  past-step r call [] h v = tt
  past-step r call (t ∷ ts) h v = (
    (omega (arith, (v.0).0, (step-next r call h).0), step-Held Never r call t (v.0).0 (v.0).1),
    past-step r call ts h v.1,
  )

  -- A call that another thread makes, or this one.
  pub step-IsServed :
      (c : Connection) (r : Room D) (call : Call D)
      → r.next_membership_token + 1 < 2 ^ 64
      → IsServed c r
      → IsServed c (step r call)
  step-IsServed c r call h v = record {
    room = step-IsRoom r call h v.room;
    issued = omega (arith, v.issued, (step-next r call h).0);
    current = step-Held (Owner c.joined_device_id) r call c.membership_token v.issued v.current;
    closed = λ e. step-Held Never r call c.membership_token v.issued (v.closed e);
    past = past-step r call c.past_tokens h v.past;
  }

  pub new_connection-IsServed : (r : Room D) → IsRoom r → IsServed new_connection r
  new_connection-IsServed r v = record {
    room = v;
    issued = omega (arith, v.next);
    current = λ k m e same. none_zero k m e same;
    closed = λ e. cc e;
    past = tt;
  }
    where
      none_zero :
          (k : Text) (m : RoomMember D)
          → lookup k r.members ≡ some m
          → m.membership_token ≡ 0
          → Owner [] k
      none_zero k m e same = let entry = v.entries k in ground (arith, rw e at entry)

  pub leave_joined-Gone :
      (c : Connection) (r : Room D)
      → IsServed c r
      → Held Never (leave_joined c r) c.membership_token
  leave_joined-Gone c r v = elim (Bool-cases (is_empty c.joined_device_id)) [
    | inl none_joined ↦
        unfold leave_joined in rw none_joined (λ k m e same. nobody none_joined k m e same)
    | inr joined ↦
        unfold leave_joined in
        rw joined (
          leave-Gone r c.joined_device_id c.membership_token
            (λ k m e same. (v.current k m e same).0))
  ]
    where
      nobody :
          is_empty c.joined_device_id ≡ true
          → (k : Text) (m : RoomMember D) → lookup k r.members ≡ some m
          → m.membership_token ≡ c.membership_token
          → Never k
      nobody none_joined k m e same =
          let owner = v.current k m e same in absurd (cc (owner.1, none_joined))

  -- The calls of `leave_joined` and `rejoin`.
  pub leave_joined-IsServed :
      (c : Connection) (r : Room D)
      → r.next_membership_token + 1 < 2 ^ 64
      → IsServed c r
      → IsServed c (leave_joined c r)
  leave_joined-IsServed c r h v = elim (Bool-cases (is_empty c.joined_device_id)) [
    | inl none_joined ↦ unfold leave_joined in rw none_joined v
    | inr joined ↦
        unfold leave_joined step in
        rw joined (step-IsServed c r (leaves c.joined_device_id c.membership_token) h v)
  ]

  pub leave_joined-next :
      (c : Connection) (r : Room D)
      → (leave_joined c r).next_membership_token ≡ r.next_membership_token
  leave_joined-next c r = unfold leave_joined leave in ground arith

  pub join-IsServed :
      (initial : D) (c : Connection) (r r' : Room D) (d a : Text) (p t : ℕ)
      → r.next_membership_token + 1 < 2 ^ 64
      → is_empty d ≡ false
      → c.is_open ≡ true
      → IsServed c r
      → Held Never r c.membership_token
      → join initial r d a p ≡ ok (t, r')
      → IsServed
          (record c {
            joined_device_id = d;
            membership_token = t;
            past_tokens = c.membership_token ∷ c.past_tokens;
          })
          r'
  join-IsServed initial c r r' d a p t h named opened v gone e =
      let call : Call D = joins initial d a p in
      let same : step r call ≡ r' = unfold step in rw e refl in
      let token : t ≡ r.next_membership_token = unfold join in ground (arith, e) in
      let next : r'.next_membership_token ≡ r.next_membership_token + 1 =
        unfold join in ground (arith, e, h) in
      let w = step-IsServed c r call h v in
      record {
        room = rw same at w.room;
        issued = omega (arith, token, next);
        current = λ k m found has. owned k m found has;
        closed = λ shut. cc (shut, opened);
        past = (
          (
            omega (arith, v.issued, next),
            rw same at (step-Held Never r call c.membership_token v.issued gone),
          ),
          rw same at w.past,
        );
      }
    where
      owned :
          (k : Text) (m : RoomMember D)
          → lookup k r'.members ≡ some m
          → m.membership_token ≡ t
          → Owner d k
      owned k m found has = elim (Bool-cases (text_eq d k)) [
        | inl at_d ↦ (ground (arith, at_d, text_eq_iff d k), named)
        | inr away ↦
            let old : lookup k r.members ≡ some m =
              ground (arith, away, found, lookup-join initial r r' d a k p t e) in
            let entry = rw old at (v.room.entries k) in
            let token : t ≡ r.next_membership_token = unfold join in ground (arith, e) in
            absurd (omega (arith, entry.2, has, token))
      ]
