-- ===== src/Room/Invariant.antt =====
-- What every operation of core/src/Room.cpp keeps, over any history of calls.
use sync_bluetooth_devices.Common.{
  ℕ, ◌+◌, ◌^◌, ◌≤◌, ◌<◌, ◌≡◌, ◌≢◌, inl, inr, Bool, List, [], ◌∷◌, Option, none, some, length, Text,
  text_eq_iff, Result, Result-cases, ok, err, arith,
}
use sync_bluetooth_devices.Common.Int.{pos, ◌<ℤ◌}
use sync_bluetooth_devices.Room.Members.{lookup, lookup-insert_or_assign, lookup-erase}
use sync_bluetooth_devices.Room.{
  RoomError, RoomPlaybackState, RoomMember, ScheduledRoomAction, Room, new_member, room, join,
  leave, update_member, set_playback_state, set_stream_id, schedule_action, take_action,
}

-- An action that may be scheduled.
pub record IsAction (a : ScheduledRoomAction) : Type 0 where
  pub later : pos 0 <ℤ a.effective_host_nanoseconds
  pub stream : a.next_stream_id ≢ 0

abbrev pub IsActionIn : Option ScheduledRoomAction → Type 0
IsActionIn none = Unit
IsActionIn (some a) = IsAction a

-- What an entry of the members' map holds, for the next token `next`.
abbrev pub IsEntry : {D : Type 0} → ℕ → Text → Option (RoomMember D) → Type 0
IsEntry next k none = Unit
IsEntry next k (some m) = (m.device_id ≡ k) × (1 ≤ m.membership_token) × (m.membership_token < next)

pub data Call (D : Type 0) : Type 0 where
  joins : D → Text → Text → ℕ → Call D
  leaves : Text → ℕ → Call D
  updates : RoomMember D → Call D
  sets_playback : RoomPlaybackState → Call D
  sets_stream : ℕ → Call D
  schedules : ScheduledRoomAction → Call D
  takes : Call D

module _ {D : Type 0} where
  pub record IsRoom (r : Room D) : Type 0 where
    pub session : r.state.session_id ≢ 0
    pub stream : r.state.stream_id ≢ 0
    pub pending : IsActionIn r.state.pending_action
    pub recent : IsActionIn r.state.recent_action
    pub next : 1 ≤ r.next_membership_token
    pub entries : (k : Text) → IsEntry r.next_membership_token k (lookup k r.members)

  -- A call that throws leaves the room as it was.
  abbrev after {ℓ} : {A : Type ℓ} → Room D → (A → Room D) → Result RoomError A → Room D
  after r f (ok a) = f a
  after r f (err e) = r

  unfoldable pub step : Room D → Call D → Room D
  step r (joins initial d a p) = after r (λ x. x.1) (join initial r d a p)
  step r (leaves d t) = leave r d t
  step r (updates m) = (update_member r m).1
  step r (sets_playback s) = set_playback_state r s
  step r (sets_stream i) = after r (λ x. x) (set_stream_id r i)
  step r (schedules a) = after r (λ x. x.1) (schedule_action r a)
  step r takes = (take_action r).1

  unfoldable pub run : Room D → List (Call D) → Room D
  run r [] = r
  run r (c ∷ cs) = run (step r c) cs

  IsEntry-mono :
      (m n : ℕ) (k : Text) (o : Option (RoomMember D)) → m ≤ n → IsEntry m k o → IsEntry n k o
  IsEntry-mono m n k none h e = tt
  IsEntry-mono m n k (some x) h e = (e.0, e.1, omega (arith, e.2))

  join-IsRoom :
      (initial : D) (r : Room D) (d a : Text) (p t : ℕ) (r' : Room D)
      → r.next_membership_token + 1 < 2 ^ 64
      → IsRoom r
      → join initial r d a p ≡ ok (t, r')
      → IsRoom r'
  join-IsRoom initial r d a p t r' h v e = record {
    session = unfold join in ground (arith, v.session);
    stream = unfold join in ground (arith, v.stream);
    pending = unfold join in ground (arith, v.pending);
    recent = unfold join in ground (arith, v.recent);
    next = unfold join in ground (arith, v.next);
    entries = λ k.
        unfold join in
        ground (
          arith,
          v.next,
          v.entries k,
          text_eq_iff d k,
          lookup-insert_or_assign d k (new_member initial d a p r.next_membership_token) r.members,
          IsEntry-mono r.next_membership_token (r.next_membership_token + 1) k (lookup k r.members),
        );
  }

  leave-IsRoom : (r : Room D) (d : Text) (t : ℕ) → IsRoom r → IsRoom (leave r d t)
  leave-IsRoom r d t v = record {
    session = unfold leave in ground (arith, v.session);
    stream = unfold leave in ground (arith, v.stream);
    pending = unfold leave in ground (arith, v.pending);
    recent = unfold leave in ground (arith, v.recent);
    next = unfold leave in ground (arith, v.next);
    entries = λ k. unfold leave in ground (arith, v.entries k, lookup-erase d k r.members);
  }

  update_member-IsRoom : (r : Room D) (m : RoomMember D) → IsRoom r → IsRoom (update_member r m).1
  update_member-IsRoom r m v = record {
    session = unfold update_member in ground (arith, v.session);
    stream = unfold update_member in ground (arith, v.stream);
    pending = unfold update_member in ground (arith, v.pending);
    recent = unfold update_member in ground (arith, v.recent);
    next = unfold update_member in ground (arith, v.next);
    entries = λ k.
        unfold update_member in
        ground (
          arith,
          v.entries k,
          v.entries m.device_id,
          text_eq_iff m.device_id k,
          lookup-insert_or_assign m.device_id k m r.members,
        );
  }

  set_stream_id-IsRoom : (r r' : Room D) (i : ℕ) → IsRoom r → set_stream_id r i ≡ ok r' → IsRoom r'
  unfolding set_stream_id
  set_stream_id-IsRoom r r' i v e = record {
    session = ground (arith, v.session);
    stream = ground (arith, v.stream);
    pending = ground (arith, v.pending);
    recent = ground (arith, v.recent);
    next = ground (arith, v.next);
    entries = λ k. ground (arith, v.entries k);
  }

  schedule_action-IsRoom :
      (r : Room D) (a : ScheduledRoomAction) (b : Bool) (r' : Room D)
      → IsRoom r
      → schedule_action r a ≡ ok (b, r')
      → IsRoom r'
  unfolding schedule_action
  schedule_action-IsRoom r a b r' v e = record {
    session = ground (arith, v.session);
    stream = ground (arith, v.stream);
    pending = ground (arith, v.pending);
    recent = ground (arith, v.recent);
    next = ground (arith, v.next);
    entries = λ k. ground (arith, v.entries k);
  }

  take_action-IsRoom : (r : Room D) → IsRoom r → IsRoom (take_action r).1
  unfolding take_action
  take_action-IsRoom r v = record {
    session = ground (arith, v.session);
    stream = ground (arith, v.stream);
    pending = ground (arith, v.pending);
    recent = ground (arith, v.pending, v.recent);
    next = ground (arith, v.next);
    entries = λ k. ground (arith, v.entries k);
  }

  pub step-IsRoom :
      (r : Room D) (c : Call D)
      → r.next_membership_token + 1 < 2 ^ 64
      → IsRoom r
      → IsRoom (step r c)
  step-IsRoom r (joins initial d a p) h v = elim (Result-cases (join initial r d a p)) [
    | inl ((t, r'), e) ↦ unfold step in rw e (join-IsRoom initial r d a p t r' h v e)
    | inr (x, e) ↦ unfold step in rw e v
  ]
  step-IsRoom r (leaves d t) h v = unfold step in leave-IsRoom r d t v
  step-IsRoom r (updates m) h v = unfold step in update_member-IsRoom r m v
  step-IsRoom r (sets_playback s) h v =
      unfold step set_playback_state in
      record {
        session = v.session;
        stream = v.stream;
        pending = v.pending;
        recent = v.recent;
        next = v.next;
        entries = v.entries;
      }
  step-IsRoom r (sets_stream i) h v = elim (Result-cases (set_stream_id r i)) [
    | inl (r', e) ↦ unfold step in rw e (set_stream_id-IsRoom r r' i v e)
    | inr (x, e) ↦ unfold step in rw e v
  ]
  step-IsRoom r (schedules a) h v = elim (Result-cases (schedule_action r a)) [
    | inl ((b, r'), e) ↦ unfold step in rw e (schedule_action-IsRoom r a b r' v e)
    | inr (x, e) ↦ unfold step in rw e v
  ]
  step-IsRoom r takes h v = unfold step in take_action-IsRoom r v

  -- Tokens are given out in order, one by one.
  pub step-next :
      (r : Room D) (c : Call D)
      → r.next_membership_token + 1 < 2 ^ 64
      → (r.next_membership_token ≤ (step r c).next_membership_token)
        × ((step r c).next_membership_token ≤ r.next_membership_token + 1)
  step-next r (joins initial d a p) h = unfold step join in ground arith
  step-next r (leaves d t) h = unfold step leave in ground arith
  step-next r (updates m) h = unfold step update_member in ground arith
  step-next r (sets_playback s) h = unfold step set_playback_state in ground arith
  step-next r (sets_stream i) h = unfold step set_stream_id in ground arith
  step-next r (schedules a) h = unfold step schedule_action in ground arith
  step-next r takes h = unfold step take_action in ground arith

  -- Over any history that is shorter than the tokens left: a room's session and stream stay
  -- nonzero, its pending and its recent action are ones that may be scheduled, and every member
  -- stands under its own device ID with a token that was given out.
  pub run-IsRoom :
      (r : Room D) (cs : List (Call D))
      → r.next_membership_token + length cs < 2 ^ 64
      → IsRoom r
      → IsRoom (run r cs)
  unfolding run
  run-IsRoom r [] h v = v
  run-IsRoom r (c ∷ cs) h v =
      run-IsRoom (step r c) cs (omega (arith, step-next r c (omega arith)))
        (step-IsRoom r c (omega arith) v)

  pub run-next :
      (r : Room D) (cs : List (Call D))
      → r.next_membership_token + length cs < 2 ^ 64
      → r.next_membership_token ≤ (run r cs).next_membership_token
  unfolding run
  run-next r [] h = omega arith
  run-next r (c ∷ cs) h =
      let s = step-next r c (omega arith) in
      omega (arith, run-next (step r c) cs (omega (arith, s)), s)

  -- A room starts out so.
  pub room-IsRoom :
      (room_id room_name host : Text) (session_id stream_id : ℕ) (r : Room D)
      → room room_id room_name host session_id stream_id ≡ ok r
      → IsRoom r
  unfolding room lookup
  room-IsRoom room_id room_name host session_id stream_id r e = record {
    session = ground arith;
    stream = ground arith;
    pending = ground arith;
    recent = ground arith;
    next = ground arith;
    entries = λ k. ground arith;
  }
