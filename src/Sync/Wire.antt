-- ===== src/Sync/Wire.antt =====
-- The byte accesses of core/src/ClockSync.cpp: big-endian words at a moving offset.
use sync_bluetooth_devices.Common.{
  ℕ, zero, suc, ◌+◌, ◌*◌, ◌/◌, ◌%◌, ◌^◌, ◌<◌, ◌≡◌, List, [], ◌∷◌, ◌++◌, length, get_or, set, drop,
  arith,
}
use sync_bluetooth_devices.Packet.Words.{u8_bytes, u16_bytes, u32_bytes, u64_bytes}
use native.Mathlib.Nat.{add_assoc}
use native.Mathlib.Numerals.{add-one}

-- `output[offset++] = value`
unfoldable pub append_u8 : List ℕ → ℕ → ℕ → List ℕ × ℕ
append_u8 output offset value = (set output offset (value % 2 ^ 8), offset + 1)

unfoldable pub append_u16 : List ℕ → ℕ → ℕ → List ℕ × ℕ
unfolding append_u8
append_u16 output offset value =
    let (o, at) = append_u8 output offset (value / 2 ^ 8 % 2 ^ 8) in append_u8 o at (value % 2 ^ 8)

unfoldable pub append_u32 : List ℕ → ℕ → ℕ → List ℕ × ℕ
unfolding append_u16
append_u32 output offset value =
    let (o, at) = append_u16 output offset (value / 2 ^ 16 % 2 ^ 16) in
    append_u16 o at (value % 2 ^ 16)

unfoldable pub append_u64 : List ℕ → ℕ → ℕ → List ℕ × ℕ
unfolding append_u32
append_u64 output offset value =
    let (o, at) = append_u32 output offset (value / 2 ^ 32 % 2 ^ 32) in
    append_u32 o at (value % 2 ^ 32)

-- `std::copy` to the front of a longer array.
unfoldable pub copy : List ℕ → List ℕ → List ℕ
copy xs ys = xs ++ drop (length xs) ys

-- `data[offset++]`. The callers read inside the array, where `get_or` has a byte.
unfoldable pub read_u8 : List ℕ → ℕ → ℕ × ℕ
read_u8 bytes offset = (get_or bytes offset 0, offset + 1)

unfoldable pub read_u16 : List ℕ → ℕ → ℕ × ℕ
read_u16 bytes offset =
    let (high, at₁) = read_u8 bytes offset in
    let (low, at₂) = read_u8 bytes at₁ in (high * 2 ^ 8 + low, at₂)

unfoldable pub read_u32 : List ℕ → ℕ → ℕ × ℕ
read_u32 bytes offset =
    let (high, at₁) = read_u16 bytes offset in
    let (low, at₂) = read_u16 bytes at₁ in (high * 2 ^ 16 + low, at₂)

unfoldable pub read_u64 : List ℕ → ℕ → ℕ × ℕ
read_u64 bytes offset =
    let (high, at₁) = read_u32 bytes offset in
    let (low, at₂) = read_u32 bytes at₁ in (high * 2 ^ 32 + low, at₂)

get_or-drop :
    (bytes : List ℕ) (at b : ℕ) (rest : List ℕ) → drop at bytes ≡ b ∷ rest → get_or bytes at 0 ≡ b
get_or-drop [] zero b rest h = cc
get_or-drop [] (suc at) b rest h = cc
get_or-drop (x ∷ xs) zero b rest h = ground arith
get_or-drop (x ∷ xs) (suc at) b rest h = get_or-drop xs at b rest h

drop_step :
    (bytes : List ℕ) (at b : ℕ) (rest : List ℕ)
    → drop at bytes ≡ b ∷ rest
    → drop (suc at) bytes ≡ rest
drop_step [] zero b rest h = cc
drop_step [] (suc at) b rest h = cc
drop_step (x ∷ xs) zero b rest h = cc
drop_step (x ∷ xs) (suc at) b rest h = drop_step xs at b rest h

-- A read at an offset where the value's bytes lie: the value, and what lies behind it.
abbrev pub Reads : (List ℕ → ℕ → ℕ × ℕ) → ℕ → List ℕ → ℕ → ℕ → List ℕ → Type 0
Reads read size bytes at v rest = (read bytes at ≡ (v, at + size)) × (drop (at + size) bytes ≡ rest)

pub read_u8-bytes :
    (bytes : List ℕ) (at v : ℕ) (rest : List ℕ)
    → v < 2 ^ 8
    → drop at bytes ≡ u8_bytes v rest
    → Reads read_u8 1 bytes at v rest
unfolding read_u8
read_u8-bytes bytes at v rest hv h =
    (ground (arith, get_or-drop bytes at _ rest h), rw add-one (drop_step bytes at _ rest h))

pub read_u16-bytes :
    (bytes : List ℕ) (at v : ℕ) (rest : List ℕ)
    → v < 2 ^ 16
    → drop at bytes ≡ u16_bytes v rest
    → Reads read_u16 2 bytes at v rest
read_u16-bytes bytes at v rest hv h =
    let (e₁, h₁) =
      read_u8-bytes bytes at (v / 2 ^ 8 % 2 ^ 8) (u8_bytes (v % 2 ^ 8) rest) (omega arith) h in
    let (e₂, h₂) = read_u8-bytes bytes (at + 1) (v % 2 ^ 8) rest (omega arith) h₁ in
    (unfold read_u16 in rw (e₁, e₂) (ground arith), rw (add_assoc at 1 1) at h₂)

pub read_u32-bytes :
    (bytes : List ℕ) (at v : ℕ) (rest : List ℕ)
    → v < 2 ^ 32
    → drop at bytes ≡ u32_bytes v rest
    → Reads read_u32 4 bytes at v rest
unfolding u32_bytes
read_u32-bytes bytes at v rest hv h =
    let (e₁, h₁) =
      read_u16-bytes bytes at (v / 2 ^ 16 % 2 ^ 16) (u16_bytes (v % 2 ^ 16) rest) (omega arith) h in
    let (e₂, h₂) = read_u16-bytes bytes (at + 2) (v % 2 ^ 16) rest (omega arith) h₁ in
    (unfold read_u32 in rw (e₁, e₂) (ground arith), rw (add_assoc at 2 2) at h₂)

pub read_u64-bytes :
    (bytes : List ℕ) (at v : ℕ) (rest : List ℕ)
    → v < 2 ^ 64
    → drop at bytes ≡ u64_bytes v rest
    → Reads read_u64 8 bytes at v rest
unfolding u64_bytes
read_u64-bytes bytes at v rest hv h =
    let (e₁, h₁) =
      read_u32-bytes bytes at (v / 2 ^ 32 % 2 ^ 32) (u32_bytes (v % 2 ^ 32) rest) (omega arith) h in
    let (e₂, h₂) = read_u32-bytes bytes (at + 4) (v % 2 ^ 32) rest (omega arith) h₁ in
    (unfold read_u64 in rw (e₁, e₂) (ground arith), rw (add_assoc at 4 4) at h₂)
