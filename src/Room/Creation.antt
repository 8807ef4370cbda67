-- ===== src/Room/Creation.antt =====
-- What `Room::create` of core/src/Room.cpp makes.
use sync_bluetooth_devices.Common.{
  ℕ, zero, suc, ◌≡◌, ◌≢◌, ◌≤◌, ◌%◌, ◌/◌, ◌^◌, ◌==◌, refl, true, false, [], length, ltb,
  if◌then◌else◌, ok, Text, arith,
}
use sync_bluetooth_devices.Room.{Room, is_empty, all_printable, hex, room, create}
use sync_bluetooth_devices.Room.Invariant.{IsRoom, room-IsRoom}

hex_nonempty :
    (width value : ℕ) (rest : Text)
    → is_empty rest ≡ false
    → is_empty (hex width value rest) ≡ false
unfolding hex is_empty
hex_nonempty zero value rest h = h
hex_nonempty (suc width) value rest h = hex_nonempty width (value / 16) _ refl

id_nonempty : (id₀ id₁ : ℕ) → is_empty (hex 16 id₀ (hex 16 id₁ [])) ≡ false
unfolding hex is_empty
id_nonempty id₀ id₁ = refl

module _ {D : Type 0} where
  room_opens :
      (room_name host : Text) (session_id : ℕ)
      → is_empty room_name ≡ false
      → length room_name ≤ 48
      → all_printable room_name ≡ true
      → is_empty host ≡ false
      → session_id ≢ 0
      → (room_id : Text) (stream_id : ℕ) → is_empty room_id ≡ false
      → stream_id ≢ 0
      → (r : Room D) × (room room_id room_name host session_id stream_id ≡ ok r)
        × (r.state.session_id ≡ session_id)
  unfolding room
  room_opens room_name host session_id h₁ h₂ h₃ h₄ h₅ room_id stream_id k₁ k₂ =
      rw (k₁, h₁, h₄, some_session, some_stream, short, h₃) (_, refl, refl)
    where
      some_session : (session_id == 0) ≡ false
      some_session = ground arith

      some_stream : (stream_id == 0) ≡ false
      some_stream = ground arith

      short : ltb 48 (length room_name) ≡ false
      short = ground arith

  -- With a printable name of 1 to 48 characters, a host and a nonzero random session, whatever the
  -- other random numbers are, `create` returns a room under the invariant, with that session.
  pub create-IsRoom :
      (room_name host : Text) (id₀ id₁ random_stream session_id : ℕ)
      → is_empty room_name ≡ false
      → length room_name ≤ 48
      → all_printable room_name ≡ true
      → is_empty host ≡ false
      → session_id ≢ 0
      → (r : Room D) × (create room_name host id₀ id₁ random_stream session_id ≡ ok r)
        × IsRoom r
        × (r.state.session_id ≡ session_id)
  unfolding create
  create-IsRoom room_name host id₀ id₁ random_stream session_id h₁ h₂ h₃ h₄ h₅ =
      let (r, e, s) =
        room_opens room_name host session_id h₁ h₂ h₃ h₄ h₅ (hex 16 id₀ (hex 16 id₁ []))
          (if random_stream % 2 ^ 32 == 0 then 1 else random_stream % 2 ^ 32) (id_nonempty id₀ id₁)
          (ground arith) in
      (r, e, room-IsRoom _ room_name host session_id _ r e, s)
