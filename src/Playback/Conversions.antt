-- ===== src/Playback/Conversions.antt =====
-- The two conversions of core/src/PlaybackClock.cpp between frames and timestamps.
use sync_bluetooth_devices.Common.{
  ℕ, ◌+◌, ◌^◌, ◌≤◌, ◌<◌, ◌≡◌, ◌↔◌, refl, inl, inr, sym, ◌∙◌, Bool-cases, ok, Result-cases, arith,
}
use sync_bluetooth_devices.Common.Int.{ℤ, pos, pos_part, ◌+ℤ◌, ◌-ℤ◌, leb_ℤ, ◌≤ℤ◌}
use sync_bluetooth_devices.Playback.{
  PlaybackClock, nanoseconds_per_second, duration_max, frame_max, frame_to_duration,
  duration_to_frame, frame_to_timestamp, timestamp_to_frame,
}
use sync_bluetooth_devices.Playback.Rounding.{
  frame_to_duration_exact, duration_to_frame_exact, IsCeiling, IsFloor, mul_mono,
}
use native.Mathlib.Decide.{dec_le}

-- A clock with a positive 32-bit rate; start times lie where `steady_clock` reads, from 0 on.
pub record IsClock (c : PlaybackClock) : Type 0 where
  pub rate_pos : 0 < c.sample_rate
  pub rate_u32 : c.sample_rate < 2 ^ 32
  pub start_low : pos 0 ≤ℤ c.start_time
  pub start_high : c.start_time ≤ℤ pos duration_max

-- A frame is due by `n` exactly if it is not after the frame of `n`.
adjoint : (rate f n d g : ℕ) → 0 < rate → IsCeiling rate f d → IsFloor rate n g → (d ≤ n) ↔ (f ≤ g)
adjoint rate f n d g h cd fg = (
  λ le. omega (arith, mul_mono d n rate le),
  λ le. elim (dec_le d n) [
    | yes due ↦ due
    | no late ↦ absurd (omega (arith, mul_mono (n + 1) d rate (omega arith)))
  ],
)

timestamp_parts :
    (c : PlaybackClock) (f : ℕ) (t : ℤ)
    → frame_to_timestamp c f ≡ ok t
    → (d : ℕ) × (frame_to_duration c f ≡ ok d) × (t ≡ c.start_time +ℤ pos d)
timestamp_parts c f t e = elim (Result-cases (frame_to_duration c f)) [
  | inl (d, hd) ↦ (d, hd, unfold frame_to_timestamp in ground arith)
  | inr (x, hx) ↦ absurd (unfold frame_to_timestamp in ground arith)
]

-- Nanoseconds since the start, for a time that is not before it.
abbrev since : PlaybackClock → ℤ → ℕ
since c t = pos_part (t -ℤ c.start_time)

since-le-max :
    (c : PlaybackClock) (t : ℤ) → IsClock c → t ≤ℤ pos duration_max → since c t ≤ duration_max
unfolding ◌-ℤ◌
since-le-max c t k h = ground (arith, k.start_low)

due_since :
    (s t now : ℤ) (d : ℕ) → s ≤ℤ now → t ≡ s +ℤ pos d → (t ≤ℤ now) ↔ (d ≤ pos_part (now -ℤ s))
unfolding ◌+ℤ◌ ◌-ℤ◌
due_since s t now d h e = ground arith

since_plus : (s t : ℤ) (d : ℕ) → t ≡ s +ℤ pos d → (s ≤ℤ t) × (pos_part (t -ℤ s) ≡ d)
unfolding ◌+ℤ◌ ◌-ℤ◌
since_plus s t d e = ground arith

-- The shortcut for times up to the start gives what the conversion would.
timestamp_to_frame-since :
    (c : PlaybackClock) (t : ℤ)
    → c.start_time ≤ℤ t
    → timestamp_to_frame c t ≡ duration_to_frame c (since c t)
timestamp_to_frame-since c t h = elim (Bool-cases (leb_ℤ t c.start_time)) [
  | inl e ↦
      let z : since c t ≡ 0 = unfold ◌-ℤ◌ in ground arith in
      unfold timestamp_to_frame in rw (e, z) (unfold duration_to_frame in ground arith)
  | inr e ↦ unfold timestamp_to_frame in rw e refl
]

timestamp_to_frame-IsFloor :
    (c : PlaybackClock) (t : ℤ) (g : ℕ)
    → IsClock c
    → c.start_time ≤ℤ t
    → t ≤ℤ pos duration_max
    → timestamp_to_frame c t ≡ ok g
    → IsFloor c.sample_rate (since c t) g
timestamp_to_frame-IsFloor c t g k ge le e =
    let (g', fl, r) =
      duration_to_frame_exact c (since c t) k.rate_pos k.rate_u32 (since-le-max c t k le) in
    let e' = sym (timestamp_to_frame-since c t ge) ∙ e in
    elim r [ inl (ok_g, _) ↦ let same : g ≡ g' = cc in rw same fl | inr (thrown, _) ↦ cc ]

-- Between the start and the largest timestamp the two conversions agree on order: a frame's
-- timestamp has been reached exactly if the frame is not after the frame of the present time.
pub frame_to_timestamp-due_iff :
    (c : PlaybackClock) (f g : ℕ) (t now : ℤ)
    → IsClock c
    → frame_to_timestamp c f ≡ ok t
    → c.start_time ≤ℤ now
    → now ≤ℤ pos duration_max
    → timestamp_to_frame c now ≡ ok g
    → (t ≤ℤ now) ↔ (f ≤ g)
frame_to_timestamp-due_iff c f g t now k et ge le eg =
    let (d, hd, t_is) = timestamp_parts c f t et in
    let (d', ceil, r) = frame_to_duration_exact c f k.rate_pos k.rate_u32 in
    let fl = timestamp_to_frame-IsFloor c now g k ge le eg in
    elim r [
      | inl (ok_d, _) ↦
          let same : d ≡ d' = cc in
          let a = adjoint c.sample_rate f (since c now) d g k.rate_pos (rw same ceil) fl in
          let b = due_since c.start_time t now d ge t_is in (λ h. a.0 (b.0 h), λ h. b.1 (a.1 h))
      | inr (thrown, _) ↦ absurd (cc)
    ]

-- A frame number survives the way to its timestamp and back, at every rate up to one frame per
-- nanosecond.
pub timestamp_to_frame-frame_to_timestamp :
    (c : PlaybackClock) (f : ℕ) (t : ℤ)
    → IsClock c
    → c.sample_rate ≤ nanoseconds_per_second
    → f ≤ frame_max
    → frame_to_timestamp c f ≡ ok t
    → timestamp_to_frame c t ≡ ok f
timestamp_to_frame-frame_to_timestamp c f t k hr hf e =
    let (d, hd, t_is) = timestamp_parts c f t e in
    let (ge, since_d) = since_plus c.start_time t d t_is in
    let (d', ceil, r) = frame_to_duration_exact c f k.rate_pos k.rate_u32 in
    timestamp_to_frame-since c t ge
    ∙ rw since_d (elim r [
      | inl (ok_d, small) ↦ let same : d ≡ d' = cc in rw same (back d' ceil small)
      | inr (thrown, _) ↦ cc
    ])
  where
    back : (d : ℕ) → IsCeiling c.sample_rate f d → d ≤ duration_max → duration_to_frame c d ≡ ok f
    back d ceil small =
        let (g, fl, r) = duration_to_frame_exact c d k.rate_pos k.rate_u32 small in
        let f_is_g : f ≡ g = omega arith in
        elim r [ inl (ok_g, _) ↦ cc | inr (_, big) ↦ absurd (omega arith) ]
