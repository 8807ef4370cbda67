-- ===== src/Jitter/Store.antt =====
-- The stored packets of core/src/JitterBuffer.cpp.
use sync_bluetooth_devices.Common.{
  ℕ, ◌+◌, ◌*◌, ◌%◌, ◌^◌, Bool, false, ◌||◌, List, [], ◌∷◌, ltb, leb, ◌==◌, if◌then◌else◌,
}

pub record BufferedPacket : Type 0 where
  pub start_frame : ℕ
  pub presentation_timestamp_nanoseconds : ℕ
  pub frame_count : ℕ
  pub samples : List ℕ

-- `low | (high << 8)` of each pair of bytes; the two share no bit.
unfoldable pub decode_pcm : List ℕ → List ℕ
decode_pcm [] = []
decode_pcm (low ∷ []) = []
decode_pcm (low ∷ high ∷ rest) = (low + high * 2 ^ 8) ∷ decode_pcm rest

abbrev pub end_frame : BufferedPacket → ℕ
end_frame p = (p.start_frame + p.frame_count) % 2 ^ 64

-- Erases the packets at the front that have been read to their end.
unfoldable pub prune : ℕ → List BufferedPacket → List BufferedPacket
prune read [] = []
prune read (p ∷ ps) = if leb (end_frame p) read then prune read ps else p ∷ ps

unfoldable pub contains : ℕ → List BufferedPacket → Bool
contains key [] = false
contains key (p ∷ ps) = p.start_frame == key || contains key ps

-- Inserts at the place of the key, unless the key is there.
unfoldable pub try_emplace : BufferedPacket → List BufferedPacket → List BufferedPacket
try_emplace q [] = q ∷ []
try_emplace q (p ∷ ps) =
    if ltb q.start_frame p.start_frame
    then q ∷ p ∷ ps
    else if q.start_frame == p.start_frame
    then p ∷ ps
    else p ∷ try_emplace q ps
