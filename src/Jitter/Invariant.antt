-- ===== src/Jitter/Invariant.antt =====
-- What `push` and `readFrames` of core/src/JitterBuffer.cpp keep.
use sync_bluetooth_devices.Common.{
  ℕ, ◌+◌, ◌/◌, ◌≤◌, ◌≡◌, ◌⊎◌, inl, inr, refl, Bool-cases, List, [], ◌∷◌, ltb, leb, ◌==◌, length,
  Option, none, some, All, arith,
}
use sync_bluetooth_devices.Jitter.Store.{BufferedPacket, decode_pcm, end_frame, prune, try_emplace}
use sync_bluetooth_devices.Jitter.Overlay.{IsPacket, Ascending}
use sync_bluetooth_devices.Jitter.{JitterBuffer, JitterBufferFormat, capacity, shrink}

pub All-prune {κ} :
    (P : BufferedPacket → Type κ) (read : ℕ) (ps : List BufferedPacket)
    → All P ps
    → All P (prune read ps)
unfolding prune
All-prune P read [] h = h
All-prune P read (p ∷ ps) h = elim (Bool-cases (leb (end_frame p) read)) [
  | inl e ↦ rw e (All-prune P read ps h.1)
  | inr e ↦ rw e h
]

pub Ascending-mono :
    (low high : ℕ) (ps : List BufferedPacket) → low ≤ high → Ascending high ps → Ascending low ps
Ascending-mono low high [] h a = tt
Ascending-mono low high (p ∷ ps) h a = (omega arith, a.1)

pub Ascending-prune :
    (read low : ℕ) (ps : List BufferedPacket) → Ascending low ps → Ascending low (prune read ps)
unfolding prune
Ascending-prune read low [] a = a
Ascending-prune read low (p ∷ ps) a = elim (Bool-cases (leb (end_frame p) read)) [
  | inl e ↦ rw e (
      Ascending-mono low (p.start_frame + 1) (prune read ps) (omega arith)
        (Ascending-prune read (p.start_frame + 1) ps a.1))
  | inr e ↦ rw e a
]

pub length-prune : (read : ℕ) (ps : List BufferedPacket) → length (prune read ps) ≤ length ps
unfolding prune
length-prune read [] = omega arith
length-prune read (p ∷ ps) = ground (arith, length-prune read ps)

pub All-try_emplace {κ} :
    (P : BufferedPacket → Type κ) (q : BufferedPacket) (ps : List BufferedPacket)
    → P q
    → All P ps
    → All P (try_emplace q ps)
unfolding try_emplace
All-try_emplace P q [] hq h = (hq, h)
All-try_emplace P q (p ∷ ps) hq h = elim (Bool-cases (ltb q.start_frame p.start_frame)) [
  | inl e ↦ rw e (hq, h)
  | inr e ↦ rw e (elim (Bool-cases (q.start_frame == p.start_frame)) [
    | inl same ↦ rw same h
    | inr other ↦ rw other (h.0, All-try_emplace P q ps hq h.1)
  ])
]

pub Ascending-try_emplace :
    (q : BufferedPacket) (low : ℕ) (ps : List BufferedPacket)
    → low ≤ q.start_frame
    → Ascending low ps
    → Ascending low (try_emplace q ps)
unfolding try_emplace
Ascending-try_emplace q low [] h a = (h, tt)
Ascending-try_emplace q low (p ∷ ps) h a = elim (Bool-cases (ltb q.start_frame p.start_frame)) [
  | inl e ↦ rw e (h, (ground arith, a.1))
  | inr e ↦ rw e (elim (Bool-cases (q.start_frame == p.start_frame)) [
    | inl same ↦ rw same a
    | inr other ↦ rw other (a.0, Ascending-try_emplace q (p.start_frame + 1) ps (ground arith) a.1)
  ])
]

pub length-try_emplace :
    (q : BufferedPacket) (ps : List BufferedPacket) → length (try_emplace q ps) ≤ length ps + 1
unfolding try_emplace
length-try_emplace q [] = omega arith
length-try_emplace q (p ∷ ps) = ground (arith, length-try_emplace q ps)

pub All-shrink {κ} :
    (P : BufferedPacket → Type κ) (ps : List BufferedPacket) → All P ps → All P (shrink ps).0
unfolding shrink
All-shrink P [] h = h
All-shrink P (p ∷ ps) h = elim (Bool-cases (ltb capacity (length (p ∷ ps)))) [
  | inl e ↦ rw e (h.1)
  | inr e ↦ rw e h
]

pub Ascending-shrink : (ps : List BufferedPacket) → Ascending 0 ps → Ascending 0 (shrink ps).0
unfolding shrink
Ascending-shrink [] a = a
Ascending-shrink (p ∷ ps) a = elim (Bool-cases (ltb capacity (length (p ∷ ps)))) [
  | inl e ↦ rw e (Ascending-mono 0 (p.start_frame + 1) ps (omega arith) a.1)
  | inr e ↦ rw e a
]

pub length-shrink :
    (ps : List BufferedPacket) → length ps ≤ capacity + 1 → length (shrink ps).0 ≤ capacity
unfolding shrink
length-shrink [] h = omega arith
length-shrink (p ∷ ps) h = ground arith

pub length-decode_pcm : (bytes : List ℕ) → length (decode_pcm bytes) ≡ length bytes / 2
unfolding decode_pcm
length-decode_pcm [] = refl
length-decode_pcm (low ∷ []) = refl
length-decode_pcm (low ∷ high ∷ rest) = omega (arith, length-decode_pcm rest)

-- Packets are stored only under a format, all with its channels.
abbrev pub HasFormat : Option JitterBufferFormat → List BufferedPacket → Type 0
HasFormat none ps = ps ≡ []
HasFormat (some f) ps =
    ((f.channel_count ≡ 1) ⊎ (f.channel_count ≡ 2)) × All (IsPacket f.channel_count) ps

pub record IsBuffer {D : Type 0} (b : JitterBuffer D) : Type 0 where
  pub format : HasFormat b.format b.packets
  pub order : Ascending 0 b.packets
  pub size : length b.packets ≤ capacity
  pub ends : All (λ p. end_frame p ≤ b.latest_end_frame) b.packets
  pub published : b.latest_end_frame_atomic ≡ b.latest_end_frame
