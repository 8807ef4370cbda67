-- ===== src/Jitter/Read.antt =====
-- What `readFrames` of core/src/JitterBuffer.cpp returns.
use sync_bluetooth_devices.Common.{
  ℕ, ◌+◌, ◌-◌, ◌*◌, ◌/◌, ◌%◌, ◌^◌, ◌<◌, ◌≡◌, ◌⊎◌, inl, inr, refl, sym, ◌∙◌, ap, Bool, true, false,
  Bool-cases, List, [], ◌∷◌, ltb, ◌==◌, some, All, arith, get_or, get_or-replicate,
  length-replicate,
}
use sync_bluetooth_devices.Common.Floats.{Floats}
use sync_bluetooth_devices.Jitter.Store.{BufferedPacket, contains, try_emplace}
use sync_bluetooth_devices.Jitter.Overlay.{covers, overlay, copy_packets-overlay}
use sync_bluetooth_devices.Jitter.Invariant.{HasFormat, IsBuffer}
use sync_bluetooth_devices.Jitter.{JitterBuffer, JitterBufferFormat, read_frames}

-- A packet that alone has a frame decides its samples.
pub overlay_alone :
    (channels : ℕ) (ps : List BufferedPacket) (f c d : ℕ)
    → All (λ p. covers p f ≡ false) ps
    → overlay channels ps f c d ≡ d
unfolding overlay
overlay_alone channels [] f c d h = refl
overlay_alone channels (p ∷ ps) f c d h = rw (h.0) (overlay_alone channels ps f c d h.1)

try_emplace_front :
    (q p : BufferedPacket) (ps : List BufferedPacket)
    → ltb q.start_frame p.start_frame ≡ true
    → try_emplace q (p ∷ ps) ≡ q ∷ p ∷ ps
unfolding try_emplace
try_emplace_front q p ps e = rw e refl

overlay_first :
    (channels : ℕ) (q : BufferedPacket) (ps : List BufferedPacket) (f c d : ℕ)
    → All (λ p. covers p f ≡ false) ps
    → covers q f ≡ true
    → overlay channels (q ∷ ps) f c d ≡ get_or q.samples ((f - q.start_frame) * channels + c) 0
unfolding overlay
overlay_first channels q ps f c d h e = rw e (overlay_alone channels ps f c _ h)

pub overlay-try_emplace :
    (channels : ℕ) (q : BufferedPacket) (ps : List BufferedPacket) (f c d : ℕ)
    → contains q.start_frame ps ≡ false
    → All (λ p. covers p f ≡ false) ps
    → covers q f ≡ true
    → overlay channels (try_emplace q ps) f c d
      ≡ get_or q.samples ((f - q.start_frame) * channels + c) 0
unfolding overlay try_emplace contains
overlay-try_emplace channels q [] f c d new h e = rw e refl
overlay-try_emplace channels q (p ∷ ps) f c d new h e =
    elim (Bool-cases (ltb q.start_frame p.start_frame)) [
      | inl lt ↦
          ap (λ l. overlay channels l f c d) (try_emplace_front q p ps lt)
          ∙ overlay_first channels q (p ∷ ps) f c d h e
      | inr ge ↦
          let other : (q.start_frame == p.start_frame) ≡ false = ground arith in
          rw ge (rw other (overlay-try_emplace channels q ps f c _ (ground arith) h.1 e))
    ]

module _ (F : Floats) where
  open F use {Double}

  -- A read that gets the lock, of `n` frames that do not wrap: at each frame and channel the output
  -- has the sample of the last packet in frame order that holds the frame, and silence where no
  -- packet does.
  pub read_frames-overlay :
      (b : JitterBuffer Double) (f : JitterBufferFormat) (start n k c : ℕ) (retain : Bool)
      → IsBuffer b
      → b.format ≡ some f
      → start + n < 2 ^ 64
      → k < n
      → c < f.channel_count
      → get_or
          (read_frames F b true start (n * f.channel_count) retain).1
          (k * f.channel_count + c)
          0
        ≡ overlay f.channel_count b.packets (start + k) c 0
  unfolding read_frames
  read_frames-overlay b f start n k c retain v e no_wrap hk hc = rw e (
      rw whole (
        rw frames (
          rw end_of (
            copy_packets-overlay f.channel_count start (start + n) 0 b.packets _ 0 k c two stored.1
              v.order
              (length-replicate (n * f.channel_count) 0 ∙ ap (λ m. m * f.channel_count) (sym span))
              hc (omega arith)
            ∙ ap (overlay f.channel_count b.packets (start + k) c)
                (get_or-replicate (n * f.channel_count) (k * f.channel_count + c))))))
    where
      span : start + n - start ≡ n
      span = omega arith

      stored : HasFormat (some f) b.packets
      stored = rw e at v.format

      two : (f.channel_count ≡ 1) ⊎ (f.channel_count ≡ 2)
      two = stored.0

      whole : ((n * f.channel_count) % f.channel_count == 0) ≡ true
      whole = elim two [ inl h ↦ rw h (ground arith) | inr h ↦ rw h (ground arith) ]

      frames : (n * f.channel_count) / f.channel_count ≡ n
      frames = elim two [ inl h ↦ rw h (omega arith) | inr h ↦ rw h (omega arith) ]

      end_of : (start + n) % 2 ^ 64 ≡ start + n
      end_of = omega arith
