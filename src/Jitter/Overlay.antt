-- ===== src/Jitter/Overlay.antt =====
-- What `readFrames` of core/src/JitterBuffer.cpp copies, sample by sample.
use sync_bluetooth_devices.Common.{
  ℕ, ◌+◌, ◌-◌, ◌*◌, ◌^◌, ◌≤◌, ◌<◌, ◌≡◌, ◌⊎◌, inl, inr, refl, sym, ◌∙◌, ap, Bool, true, false, ◌&&◌,
  Bool-cases, List, [], ◌∷◌, ◌++◌, ltb, lt→ltb, leb, if◌then◌else◌, min, max, length, take, drop,
  get_or, get_or-take, get_or-drop, get_or-append, length-append, length-take, length-drop, All,
  arith,
}
use sync_bluetooth_devices.Jitter.Store.{BufferedPacket, end_frame}
use sync_bluetooth_devices.Jitter.Copy.{copy_n, copy_packets}

length-copy_n :
    (source : List ℕ) (from count : ℕ) (output : List ℕ) (to : ℕ)
    → from + count ≤ length source
    → to + count ≤ length output
    → length (copy_n source from count output to) ≡ length output
unfolding copy_n
length-copy_n source from count output to hs ho = omega (
  arith,
  length-append (take to output) (take count (drop from source) ++ drop (to + count) output),
  length-append (take count (drop from source)) (drop (to + count) output),
  length-take to output,
  length-take count (drop from source),
  length-drop from source,
  length-drop (to + count) output,
)

get_or-copy_n :
    (source : List ℕ) (from count : ℕ) (output : List ℕ) (to i : ℕ)
    → from + count ≤ length source
    → to + count ≤ length output
    → get_or (copy_n source from count output to) i 0 ≡ (
        if leb to i && ltb i (to + count)
        then get_or source (from + (i - to)) 0
        else get_or output i 0)
unfolding copy_n
get_or-copy_n source from count output to i hs ho = ground (
  arith,
  get_or-append (take to output) (take count (drop from source) ++ drop (to + count) output) i,
  get_or-append (take count (drop from source)) (drop (to + count) output) (i - to),
  get_or-take to output i,
  get_or-take count (drop from source) (i - to),
  get_or-drop from source (i - to),
  get_or-drop (to + count) output (i - to - count),
  ap (λ j. get_or output j 0) {x = to + count + (i - to - count)} {y = i},
  length-take to output,
  length-take count (drop from source),
  length-drop from source,
)

-- A stored packet of `channels` channels: it has frames, its frame numbers do not wrap, and it has
-- a sample for each frame and channel.
pub record IsPacket (channels : ℕ) (p : BufferedPacket) : Type 0 where
  pub frames : 1 ≤ p.frame_count
  pub no_wrap : p.start_frame + p.frame_count < 2 ^ 64
  pub size : length p.samples ≡ p.frame_count * channels

-- Keys rise along the list, from `low` on.
abbrev pub Ascending : ℕ → List BufferedPacket → Type 0
Ascending low [] = Unit {0}
Ascending low (p ∷ ps) = (low ≤ p.start_frame) × Ascending (p.start_frame + 1) ps

abbrev pub covers : BufferedPacket → ℕ → Bool
covers p f = leb p.start_frame f && ltb f (end_frame p)

-- The sample of frame `f` on channel `c` in the last packet that has the frame, or `d`.
unfoldable pub overlay : ℕ → List BufferedPacket → ℕ → ℕ → ℕ → ℕ
overlay channels [] f c d = d
overlay channels (p ∷ ps) f c d =
    overlay channels ps f c
      (if covers p f then get_or p.samples ((f - p.start_frame) * channels + c) 0 else d)

overlay_before :
    (channels : ℕ) (ps : List BufferedPacket) (low f c d : ℕ)
    → Ascending low ps
    → f < low
    → overlay channels ps f c d ≡ d
unfolding overlay
overlay_before channels [] low f c d a h = refl
overlay_before channels (p ∷ ps) low f c d a h =
    ground (arith, overlay_before channels ps (p.start_frame + 1) f c d a.1)

-- One packet's copy, seen at one sample.
copy_one :
    (channels start requested_end : ℕ) (p : BufferedPacket) (output : List ℕ) (k c : ℕ)
    → (channels ≡ 1) ⊎ (channels ≡ 2)
    → IsPacket channels p
    → length output ≡ (requested_end - start) * channels
    → c < channels
    → k < requested_end - start
    → max start p.start_frame < min requested_end (end_frame p)
    → let copy_start = max start p.start_frame in
      let copied =
        copy_n p.samples
          ((copy_start - p.start_frame) * channels)
          ((min requested_end (end_frame p) - copy_start) * channels)
          output
          ((copy_start - start) * channels) in
      (length copied ≡ length output)
      × (get_or copied (k * channels + c) 0 ≡ (
          if covers p (start + k)
          then get_or p.samples ((start + k - p.start_frame) * channels + c) 0
          else get_or output (k * channels + c) 0))
copy_one channels start requested_end p output k c hc v hl h₁ h₂ lt = (
  length-copy_n p.samples from count output to in_source in_output,
  get_or-copy_n p.samples from count output to (k * channels + c) in_source in_output ∙ pick,
)
  where
    from : ℕ
    from = (max start p.start_frame - p.start_frame) * channels

    count : ℕ
    count = (min requested_end (end_frame p) - max start p.start_frame) * channels

    to : ℕ
    to = (max start p.start_frame - start) * channels

    in_source : from + count ≤ length p.samples
    in_source = elim hc [
      | inl one ↦ rw one (omega (arith, v.size, v.no_wrap, rw one at v.size))
      | inr two ↦ rw two (omega (arith, v.no_wrap, rw two at v.size))
    ]

    in_output : to + count ≤ length output
    in_output = elim hc [
      | inl one ↦ rw one (omega (arith, v.no_wrap, rw one at hl))
      | inr two ↦ rw two (omega (arith, v.no_wrap, rw two at hl))
    ]

    within :
        (leb to (k * channels + c) && ltb (k * channels + c) (to + count)) ≡ covers p (start + k)
    within = elim hc [
      | inl one ↦ rw one (let h = rw one at h₁ in ground (arith, v.no_wrap))
      | inr two ↦ rw two (let h = rw two at h₁ in ground (arith, v.no_wrap))
    ]

    index :
        covers p (start + k) ≡ true
        → from + (k * channels + c - to) ≡ (start + k - p.start_frame) * channels + c
    index e = elim hc [
      | inl one ↦ rw one (let h = rw one at h₁ in ground (arith, v.no_wrap))
      | inr two ↦ rw two (let h = rw two at h₁ in ground (arith, v.no_wrap))
    ]

    pick :
        (if leb to (k * channels + c) && ltb (k * channels + c) (to + count)
          then get_or p.samples (from + (k * channels + c - to)) 0
          else get_or output (k * channels + c) 0)
        ≡ (if covers p (start + k)
            then get_or p.samples ((start + k - p.start_frame) * channels + c) 0
            else get_or output (k * channels + c) 0)
    pick = elim (Bool-cases (covers p (start + k))) [
      | inl e ↦ rw (within, e) (ap (λ j. get_or p.samples j 0) (index e))
      | inr e ↦ rw (within, e) refl
    ]

-- The loop leaves, at each frame and channel of the output, the sample of the last packet that has
-- the frame, and what was there where no packet has it.
pub copy_packets-overlay :
    (channels start requested_end low : ℕ) (ps : List BufferedPacket) (output : List ℕ)
    (copied k c : ℕ)
    → (channels ≡ 1) ⊎ (channels ≡ 2)
    → All (IsPacket channels) ps
    → Ascending low ps
    → length output ≡ (requested_end - start) * channels
    → c < channels
    → k < requested_end - start
    → get_or (copy_packets channels start requested_end ps output copied).0 (k * channels + c) 0
      ≡ overlay channels ps (start + k) c (get_or output (k * channels + c) 0)
unfolding copy_packets overlay
copy_packets-overlay channels start requested_end low [] output copied k c hc v a hl h₁ h₂ = refl
copy_packets-overlay channels start requested_end low (p ∷ ps) output copied k c hc v a hl h₁ h₂ =
    elim (Bool-cases (leb (end_frame p) start)) [
      | inl early ↦
          let miss : covers p (start + k) ≡ false = ground arith in
          rw (early, miss)
            (copy_packets-overlay channels start requested_end (p.start_frame + 1) ps output copied
              k c hc v.1 a.1 hl h₁ h₂)
      | inr not_early ↦ elim (Bool-cases (leb requested_end p.start_frame)) [
        | inl late ↦
            let miss : covers p (start + k) ≡ false = ground arith in
            rw (not_early, late, miss)
              (sym
                (overlay_before channels ps (p.start_frame + 1) (start + k) c _ a.1 (ground arith)))
        | inr not_late ↦
            let lt : max start p.start_frame < min requested_end (end_frame p) =
              ground (arith, v.0.frames, v.0.no_wrap) in
            let (len, one) =
              copy_one channels start requested_end p output k c hc v.0 hl h₁ h₂ lt in
            rw (not_early, not_late, lt→ltb _ _ lt, ← one)
              (copy_packets-overlay channels start requested_end (p.start_frame + 1) ps _ _ k c hc
                v.1 a.1 (len ∙ hl) h₁ h₂)
      ]
    ]
