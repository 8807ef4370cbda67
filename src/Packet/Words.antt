-- ===== src/Packet/Words.antt =====
-- The big-endian words of core/src/PacketSerializer.cpp: the `append` functions and `Reader`.
use sync_bluetooth_devices.Common.{
  ℕ, ◌+◌, ◌*◌, ◌/◌, ◌%◌, ◌^◌, ◌<◌, ◌≡◌, ◌∙◌, List, [], ◌∷◌, ◌++◌, ltb, length, take, drop,
  take-append, drop-append, length-append, ge→ltb, Result, ok, err, ◌>>=◌, ◌>>◌, throw_if, arith,
}
use mathlib.Core.List.{append_assoc}

-- One constructor for each message of `std::invalid_argument`.
pub data PacketError : Type 0 where
  short_header oversized_datagram bad_magic bad_header_size inconsistent_payload : PacketError
  truncated unsupported_format unsupported_version unsupported_rate : PacketError
  unsupported_channels bad_timing empty_payload oversized_payload : PacketError
  partial_frame frame_count_mismatch unrepresentable_payload : PacketError

abbrev pub IsByte : ℕ → Type 0
IsByte b = b < 2 ^ 8

unfoldable pub append_u8 : List ℕ → ℕ → List ℕ
append_u8 output value = output ++ (value % 2 ^ 8) ∷ []

unfoldable pub append_u16 : List ℕ → ℕ → List ℕ
unfolding append_u8
append_u16 output value = append_u8 (append_u8 output (value / 2 ^ 8 % 2 ^ 8)) (value % 2 ^ 8)

unfoldable pub append_u32 : List ℕ → ℕ → List ℕ
unfolding append_u16
append_u32 output value = append_u16 (append_u16 output (value / 2 ^ 16 % 2 ^ 16)) (value % 2 ^ 16)

unfoldable pub append_u64 : List ℕ → ℕ → List ℕ
unfolding append_u32
append_u64 output value = append_u32 (append_u32 output (value / 2 ^ 32 % 2 ^ 32)) (value % 2 ^ 32)

-- A `Reader` is what of its span lies behind the offset.
abbrev pub Reader : Type 0
Reader = List ℕ

unfoldable pub remaining : Reader → ℕ
remaining r = length r

unfoldable pub require_available : ℕ → Reader → Result PacketError (Unit {0})
unfolding remaining
require_available count r = throw_if (ltb (remaining r) count) truncated

unfoldable pub next_byte : Reader → Result PacketError (ℕ × Reader)
next_byte [] = err truncated
next_byte (b ∷ rest) = ok (b, rest)

unfoldable pub read_u8 : Reader → Result PacketError (ℕ × Reader)
unfolding require_available next_byte
read_u8 r = do require_available 1 r; next_byte r

-- The shifted high part and the low part share no bit, so their `|` is their sum.
unfoldable pub read_u16 : Reader → Result PacketError (ℕ × Reader)
unfolding read_u8
read_u16 r = do (high, r₁) ← read_u8 r; (low, r₂) ← read_u8 r₁; ok (high * 2 ^ 8 + low, r₂)

unfoldable pub read_u32 : Reader → Result PacketError (ℕ × Reader)
unfolding read_u16
read_u32 r = do (high, r₁) ← read_u16 r; (low, r₂) ← read_u16 r₁; ok (high * 2 ^ 16 + low, r₂)

unfoldable pub read_u64 : Reader → Result PacketError (ℕ × Reader)
unfolding read_u32
read_u64 r = do (high, r₁) ← read_u32 r; (low, r₂) ← read_u32 r₁; ok (high * 2 ^ 32 + low, r₂)

unfoldable pub read_bytes : ℕ → Reader → Result PacketError (List ℕ × Reader)
unfolding require_available
read_bytes count r = do require_available count r; ok (take count r, drop count r)

-- The bytes of a word, highest first, in front of `rest`.
abbrev pub u8_bytes : ℕ → List ℕ → List ℕ
u8_bytes v rest = (v % 2 ^ 8) ∷ rest

abbrev pub u16_bytes : ℕ → List ℕ → List ℕ
u16_bytes v rest = u8_bytes (v / 2 ^ 8 % 2 ^ 8) (u8_bytes (v % 2 ^ 8) rest)

unfoldable pub u32_bytes : ℕ → List ℕ → List ℕ
u32_bytes v rest = u16_bytes (v / 2 ^ 16 % 2 ^ 16) (u16_bytes (v % 2 ^ 16) rest)

unfoldable pub u64_bytes : ℕ → List ℕ → List ℕ
u64_bytes v rest = u32_bytes (v / 2 ^ 32 % 2 ^ 32) (u32_bytes (v % 2 ^ 32) rest)

pub append_u8-bytes :
    (out : List ℕ) (v : ℕ) (rest : List ℕ) → append_u8 out v ++ rest ≡ out ++ u8_bytes v rest
unfolding append_u8
append_u8-bytes out v rest = append_assoc out ((v % 2 ^ 8) ∷ []) rest

pub append_u16-bytes :
    (out : List ℕ) (v : ℕ) (rest : List ℕ) → append_u16 out v ++ rest ≡ out ++ u16_bytes v rest
append_u16-bytes out v rest =
    unfold append_u16 in
    append_u8-bytes (append_u8 out _) (v % 2 ^ 8) rest ∙ append_u8-bytes out _ _

pub append_u32-bytes :
    (out : List ℕ) (v : ℕ) (rest : List ℕ) → append_u32 out v ++ rest ≡ out ++ u32_bytes v rest
unfolding u32_bytes
append_u32-bytes out v rest =
    unfold append_u32 in
    append_u16-bytes (append_u16 out _) (v % 2 ^ 16) rest ∙ append_u16-bytes out _ _

pub append_u64-bytes :
    (out : List ℕ) (v : ℕ) (rest : List ℕ) → append_u64 out v ++ rest ≡ out ++ u64_bytes v rest
unfolding u64_bytes
append_u64-bytes out v rest =
    unfold append_u64 in
    append_u32-bytes (append_u32 out _) (v % 2 ^ 32) rest ∙ append_u32-bytes out _ _

pub read_u8-cons : (b : ℕ) (rest : List ℕ) → read_u8 (b ∷ rest) ≡ ok (b, rest)
unfolding read_u8
read_u8-cons b rest = ground arith

pub read_u8-bytes : (v : ℕ) (rest : List ℕ) → v < 2 ^ 8 → read_u8 (u8_bytes v rest) ≡ ok (v, rest)
read_u8-bytes v rest h = rw read_u8-cons (ground arith)

pub read_u16-bytes :
    (v : ℕ) (rest : List ℕ) → v < 2 ^ 16 → read_u16 (u16_bytes v rest) ≡ ok (v, rest)
read_u16-bytes v rest h = unfold read_u16 in rw (read_u8-cons, read_u8-cons) (ground arith)

pub read_u32-bytes :
    (v : ℕ) (rest : List ℕ) → v < 2 ^ 32 → read_u32 (u32_bytes v rest) ≡ ok (v, rest)
unfolding u32_bytes
read_u32-bytes v rest h =
    unfold read_u32 in
    rw
      (
        read_u16-bytes (v / 2 ^ 16 % 2 ^ 16) _ (omega arith),
        read_u16-bytes (v % 2 ^ 16) _ (omega arith),
      )
      (ground arith)

pub read_u64-bytes :
    (v : ℕ) (rest : List ℕ) → v < 2 ^ 64 → read_u64 (u64_bytes v rest) ≡ ok (v, rest)
unfolding u64_bytes
read_u64-bytes v rest h =
    unfold read_u64 in
    rw
      (
        read_u32-bytes (v / 2 ^ 32 % 2 ^ 32) _ (omega arith),
        read_u32-bytes (v % 2 ^ 32) _ (omega arith),
      )
      (ground arith)

pub read_bytes-append : (xs rest : List ℕ) → read_bytes (length xs) (xs ++ rest) ≡ ok (xs, rest)
unfolding read_bytes
read_bytes-append xs rest =
    rw (take-append xs rest, drop-append xs rest)
      (rw (ge→ltb (length (xs ++ rest)) (length xs) (omega (arith, length-append xs rest))))
