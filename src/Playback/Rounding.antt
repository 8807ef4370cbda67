-- ===== src/Playback/Rounding.antt =====
-- The two roundings of core/src/PlaybackClock.cpp against exact fractions: durations are rounded
-- up, frames down, and an exception is thrown exactly when the rounded value is out of range.
use sync_bluetooth_devices.Common.{
  ℕ, ◌+◌, ◌-◌, ◌*◌, ◌/◌, ◌%◌, ◌^◌, ◌≤◌, ◌<◌, ◌≡◌, ◌⊎◌, ap, ok, err, arith,
}
use sync_bluetooth_devices.Playback.{
  frame_overflow, duration_overflow, PlaybackClock, nanoseconds_per_second, duration_max, frame_max,
  frame_to_duration, duration_to_frame,
}
use native.Mathlib.Nat.{div-add-mod, mod-lt}

pub mul_mono : (a b c : ℕ) → a ≤ b → a * c ≤ b * c
mul_mono a b c h = grind arith

pub mul-le_of_le_div : (b a w : ℕ) → w ≤ a / b → w * b ≤ a
mul-le_of_le_div b a w h = omega (arith, mul_mono w (a / b) b h, div-add-mod a b)

pub lt-mul_of_div_lt : (b a w : ℕ) → 0 < b → a / b < w → a < w * b
lt-mul_of_div_lt b a w hb h =
    omega (arith, mul_mono (a / b + 1) w b (omega arith), div-add-mod a b, mod-lt a hb)

-- The ceiling of `f * ns / rate` splits at the whole seconds.
ceil_bounds :
    (rate f : ℕ)
    → 0 < rate
    → rate < 2 ^ 32
    → let d =
        f / rate * nanoseconds_per_second + (f % rate * nanoseconds_per_second + rate - 1) / rate in
      (f * nanoseconds_per_second ≤ d * rate) × (d * rate < f * nanoseconds_per_second + rate)
ceil_bounds rate f h k =
    let x : ℕ = f % rate * nanoseconds_per_second + rate - 1 in
    omega (arith, div-add-mod f rate, div-add-mod x rate, mod-lt x h)

floor_bounds :
    (rate n : ℕ)
    → let g =
        n / nanoseconds_per_second * rate
        + n % nanoseconds_per_second * rate / nanoseconds_per_second in
      (g * nanoseconds_per_second ≤ n * rate) × (n * rate < (g + 1) * nanoseconds_per_second)
floor_bounds rate n = omega (arith, ap (λ (t : ℕ). t * rate) (div-add-mod n nanoseconds_per_second))

-- `d` is `f * ns / rate`, rounded up.
abbrev pub IsCeiling : ℕ → ℕ → ℕ → Type 0
IsCeiling rate f d =
    (f * nanoseconds_per_second ≤ d * rate) × (d * rate < f * nanoseconds_per_second + rate)

-- `g` is `n * rate / ns`, rounded down.
abbrev pub IsFloor : ℕ → ℕ → ℕ → Type 0
IsFloor rate n g =
    (g * nanoseconds_per_second ≤ n * rate) × (n * rate < (g + 1) * nanoseconds_per_second)

-- A frame number has a duration, its exact time rounded up to nanoseconds, unless the rounded time
-- does not fit `int64_t`, and then the conversion throws.
pub frame_to_duration_exact :
    (c : PlaybackClock) (f : ℕ)
    → 0 < c.sample_rate
    → c.sample_rate < 2 ^ 32
    → (d : ℕ) × IsCeiling c.sample_rate f d
      × (((frame_to_duration c f ≡ ok d) × (d ≤ duration_max))
          ⊎ ((frame_to_duration c f ≡ err duration_overflow) × (duration_max < d)))
frame_to_duration_exact c f h k =
    (d, ceil_bounds c.sample_rate f h k, unfold frame_to_duration in ground (arith, mod-lt f h))
  where
    open c use {sample_rate as rate}

    d : ℕ
    d = f / rate * nanoseconds_per_second + (f % rate * nanoseconds_per_second + rate - 1) / rate

-- The frame of a time after the start is its exact value rounded down, unless the rounded value does
-- not fit `uint64_t`, and then the conversion throws.
pub duration_to_frame_exact :
    (c : PlaybackClock) (n : ℕ)
    → 0 < c.sample_rate
    → c.sample_rate < 2 ^ 32
    → n ≤ duration_max
    → (g : ℕ) × IsFloor c.sample_rate n g
      × (((duration_to_frame c n ≡ ok g) × (g ≤ frame_max))
          ⊎ ((duration_to_frame c n ≡ err frame_overflow) × (frame_max < g)))
duration_to_frame_exact c n h k l = (
  g,
  floor_bounds c.sample_rate n,
  unfold duration_to_frame in
      ground (
        arith,
        mul-le_of_le_div rate frame_max (n / nanoseconds_per_second),
        lt-mul_of_div_lt rate frame_max (n / nanoseconds_per_second) h,
        mul_mono (n % nanoseconds_per_second) nanoseconds_per_second rate,
      ),
)
  where
    open c use {sample_rate as rate}

    g : ℕ
    g =
        n / nanoseconds_per_second * rate
        + n % nanoseconds_per_second * rate / nanoseconds_per_second
