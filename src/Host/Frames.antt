-- ===== src/Host/Frames.antt =====
-- The samples and the packet size of desktop/src/DesktopNetworkHost.cpp.
use sync_bluetooth_devices.Common.{
  ℕ, ◌+◌, ◌*◌, ◌/◌, ◌%◌, ◌^◌, ◌<◌, ◌≤◌, ◌≡◌, ◌⊎◌, refl, ap, inl, inr, Bool-cases, List, [], ◌∷◌,
  length, max, ltb, All, ok, arith,
}
use native.Mathlib.Nat.{mod-lt}
use sync_bluetooth_devices.Common.Int.{ℤ, pos_part}
use sync_bluetooth_devices.Packet.{maximum_payload_size}
use sync_bluetooth_devices.Jitter.Store.{decode_pcm}
use sync_bluetooth_devices.Playback.Rounding.{mul-le_of_le_div, lt-mul_of_div_lt}
use sync_bluetooth_devices.Host.{to_little_endian_pcm, frames_per_packet}

pub to_little_endian_pcm-bytes :
    (samples : List ℕ)
    → All (λ bits. bits < 2 ^ 16) samples
    → All (λ b. b < 2 ^ 8) (to_little_endian_pcm samples)
unfolding to_little_endian_pcm
to_little_endian_pcm-bytes [] h = tt
to_little_endian_pcm-bytes (bits ∷ rest) h =
    (mod-lt bits (omega arith), (omega (arith, h.0), to_little_endian_pcm-bytes rest h.1))

pub length-to_little_endian_pcm :
    (samples : List ℕ) → length (to_little_endian_pcm samples) ≡ length samples * 2
unfolding to_little_endian_pcm
length-to_little_endian_pcm [] = refl
length-to_little_endian_pcm (bits ∷ rest) = omega (arith, length-to_little_endian_pcm rest)

-- The client's `decodePcm` gives back the 16-bit samples that the host's `toLittleEndianPcm` wrote.
pub decode_pcm-to_little_endian_pcm :
    (samples : List ℕ)
    → All (λ bits. bits < 2 ^ 16) samples
    → decode_pcm (to_little_endian_pcm samples) ≡ samples
unfolding to_little_endian_pcm decode_pcm
decode_pcm-to_little_endian_pcm [] h = refl
decode_pcm-to_little_endian_pcm (bits ∷ rest) h =
    let same : bits % 256 + bits / 256 * 256 ≡ bits = omega arith in
    rw same (ap (λ xs. bits ∷ xs) (decode_pcm-to_little_endian_pcm rest h.1))

-- For at least one channel, the frames that a packet gets: there is at least one, the count fits 16 bits,
-- and the payload has room for them; and they are as many as the desired duration rounds up to (one at
-- least), unless one more than these would not fit.
pub frames_per_packet_lem :
    (rate channels : ℕ) (duration : ℤ) (frames : ℕ)
    → 1 ≤ channels
    → frames_per_packet rate channels duration ≡ ok frames
    → (1 ≤ frames)
      × (frames < 2 ^ 16)
      × (frames * (channels * 2) ≤ maximum_payload_size)
      × ((frames ≡ max 1 ((rate * pos_part duration + 999) % 2 ^ 64 / 1000))
          ⊎ (maximum_payload_size < (frames + 1) * (channels * 2)))
unfolding frames_per_packet
frames_per_packet_lem rate channels duration frames h e = (
  ground (arith, e),
  ground (arith, e),
  mul-le_of_le_div (channels * 2) maximum_payload_size frames (ground (arith, e)),
  elim (Bool-cases (ltb frames (maximum_payload_size / (channels * 2)))) [
    | inl less ↦ inl (ground (arith, e, less))
    | inr full ↦ inr (
        lt-mul_of_div_lt (channels * 2) maximum_payload_size (frames + 1) (omega (arith, h))
          (ground (arith, e, full)))
  ],
)
