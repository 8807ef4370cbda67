-- ===== src/Room/Membership.antt =====
-- What a membership token is good for, in core/src/Room.cpp.
use sync_bluetooth_devices.Common.{
  ℕ, ◌+◌, ◌^◌, ◌<◌, ◌≡◌, ◌≢◌, refl, ◌∙◌, false, List, some, length, Text, text_eq, text_eq_refl, ok,
  if◌then◌else◌, arith,
}
use sync_bluetooth_devices.Room.Members.{lookup, lookup-insert_or_assign}
use sync_bluetooth_devices.Room.{RoomMember, Room, new_member, join, leave, update_member}
use sync_bluetooth_devices.Room.Invariant.{Call, run, run-next}

module _ {D : Type 0} where
  -- After `join` the device is a member under the token, whatever it was before, and every other
  -- device is what it was.
  pub lookup-join :
      (initial : D) (r r' : Room D) (d a k : Text) (p t : ℕ)
      → join initial r d a p ≡ ok (t, r')
      → lookup k r'.members
        ≡ (if text_eq d k then some (new_member initial d a p t) else lookup k r.members)
  unfolding join
  lookup-join initial r r' d a k p t e = ground (
    arith,
    lookup-insert_or_assign d k (new_member initial d a p r.next_membership_token) r.members,
  )

  join-token :
      (initial : D) (r r' : Room D) (d a : Text) (p t : ℕ)
      → join initial r d a p ≡ ok (t, r')
      → t ≡ r.next_membership_token
  unfolding join
  join-token initial r r' d a p t e = ground arith

  join-next :
      (initial : D) (r r' : Room D) (d a : Text) (p t : ℕ)
      → r.next_membership_token + 1 < 2 ^ 64
      → join initial r d a p ≡ ok (t, r')
      → r'.next_membership_token ≡ t + 1
  unfolding join
  join-next initial r r' d a p t h e = ground arith

  -- `leave` and `update_member` with another token than the member's change nothing.
  wrong_token :
      (r : Room D) (d : Text) (t : ℕ) (m : RoomMember D) (old : RoomMember D)
      → lookup d r.members ≡ some old
      → old.membership_token ≢ t
      → m.device_id ≡ d
      → m.membership_token ≡ t
      → (leave r d t ≡ r) × (update_member r m ≡ (false, r))
  unfolding leave update_member
  wrong_token r d t m old e h hd ht = ground arith

  -- Once a device has joined again, with any calls in between, the token of its first connection
  -- can neither remove it nor change it.
  pub stale_token :
      (i j : D) (r r₁ r₂ : Room D) (d a b : Text) (p q t u : ℕ) (cs : List (Call D))
      (m : RoomMember D)
      → r.next_membership_token + length cs + 2 < 2 ^ 64
      → join i r d a p ≡ ok (t, r₁)
      → join j (run r₁ cs) d b q ≡ ok (u, r₂)
      → m.device_id ≡ d
      → m.membership_token ≡ t
      → (leave r₂ d t ≡ r₂) × (update_member r₂ m ≡ (false, r₂))
  stale_token i j r r₁ r₂ d a b p q t u cs m h e₁ e₂ hd ht =
      let t_is = join-token i r r₁ d a p t e₁ in
      let next₁ = join-next i r r₁ d a p t (omega arith) e₁ in
      let u_is = join-token j (run r₁ cs) r₂ d b q u e₂ in
      let later = run-next r₁ cs (omega (arith, t_is, next₁)) in
      let found : lookup d r₂.members ≡ some (new_member j d b q u) =
        lookup-join j (run r₁ cs) r₂ d b d q u e₂ ∙ rw (text_eq_refl d) refl in
      wrong_token r₂ d t m _ found (omega (arith, t_is, next₁, u_is, later)) hd ht
