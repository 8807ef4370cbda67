-- ===== src/Drift.antt =====
-- core/include/DriftCorrection.hpp and core/src/DriftCorrection.cpp: the drift of the host's clock
-- from samples of its offset. Times and offsets are 64-bit integers, as ℤ; the deque of samples is a
-- list, the oldest first.
pub mod Window
use sync_bluetooth_devices.Common.{
  ℕ, zero, suc, ◌+◌, ◌-◌, ◌%◌, ◌^◌, Bool, true, false, ◌||◌, ◌&&◌, not, List, [], ◌∷◌, ◌++◌, length,
  ltb, leb, if◌then◌else◌, Option, none, some, Result, ok, err, ◌>>=◌, ◌>>◌, throw_if,
}
use sync_bluetooth_devices.Common.Int.{ℤ, pos, ◌-ℤ◌, leb_ℤ, ltb_ℤ}
use sync_bluetooth_devices.Common.Floats.{Floats, fmax, clamp}

pub data DriftError : Type 0 where
  time_not_increasing : DriftError

pub record Sample : Type 0 where
  pub time : ℤ
  pub offset : ℤ

pub record DriftEstimator (D : Type 0) : Type 0 where
  pub samples : List Sample
  pub slope : D
  pub fitted_offset_at_last : D
  pub consecutive_outliers : ℕ

-- `samples_.back()`, if there is one.
unfoldable pub back : List Sample → Option Sample
back [] = none
back (s ∷ []) = some s
back (s ∷ t ∷ ts) = back (t ∷ ts)

abbrev pub is_late : Option Sample → ℤ → Bool
is_late none time = false
is_late (some b) time = leb_ℤ time b.time

-- The loop that keeps recent history.
unfoldable pub trim : ℤ → List Sample → List Sample
trim time [] = []
trim time (s ∷ ss) =
    let rest = trim time ss in
    if ltb 32 (length (s ∷ ss))
      || (ltb 2 (length (s ∷ ss)) && ltb_ℤ (pos 120_000_000_000) (time -ℤ s.time))
    then rest
    else s ∷ ss

module _ (F : Floats) where
  open F use {Double, lit, of_int, add, sub, mul, div, abs, neg, ltb as fltb, is_finite}

  unfoldable pub drift_estimator : DriftEstimator Double
  drift_estimator = record {
    samples = [];
    slope = lit 0 1;
    fitted_offset_at_last = lit 0 1;
    consecutive_outliers = 0;
  }

  unfoldable pub offset_nanoseconds_at : DriftEstimator Double → ℤ → Double
  offset_nanoseconds_at e time = elim (back e.samples) [
    | none ↦ lit 0 1
    | some b ↦ add e.fitted_offset_at_last (mul e.slope (of_int (time -ℤ b.time)))
  ]

  unfoldable pub estimated_drift_ppm : DriftEstimator Double → Double
  estimated_drift_ppm e = mul e.slope (lit 1_000_000 1)

  unfoldable pub sample_count : DriftEstimator Double → ℕ
  sample_count e = length e.samples

  unfoldable pub is_outlier : DriftEstimator Double → ℤ → ℤ → Bool
  is_outlier e time offset = elim (back e.samples) [
    | none ↦ false
    | some b ↦
        let residual = abs (sub (of_int offset) (offset_nanoseconds_at e time)) in
        let elapsed = of_int (time -ℤ b.time) in
        let limit = fmax F (lit 5_000_000 1) (mul elapsed (lit 1 1000)) in
        ltb 3 (length e.samples) && fltb limit residual
  ]

  -- The sums of the first loop and of the second.
  unfoldable pub sums : Double → Double → List Sample → Double → Double → Double × Double
  sums origin_time origin_offset [] sum_time sum_offset = (sum_time, sum_offset)
  sums origin_time origin_offset (s ∷ ss) sum_time sum_offset =
      sums origin_time origin_offset ss (add sum_time (sub (of_int s.time) origin_time))
        (add sum_offset (sub (of_int s.offset) origin_offset))

  unfoldable pub moments :
      Double → Double → Double → Double → List Sample → Double → Double → Double × Double
  moments origin_time mean_time origin_offset mean_offset [] covariance variance =
      (covariance, variance)
  moments origin_time mean_time origin_offset mean_offset (s ∷ ss) covariance variance =
      let x = sub (sub (of_int s.time) origin_time) mean_time in
      let y = sub (sub (of_int s.offset) origin_offset) mean_offset in
      moments origin_time mean_time origin_offset mean_offset ss (add covariance (mul x y))
        (add variance (mul x x))

  -- `addSample` from the trimmed samples on: the new slope and offset.
  unfoldable pub fit : List Sample → ℤ → ℤ → Double × Double
  fit [] time offset = (lit 0 1, of_int offset)
  fit (s ∷ []) time offset = (lit 0 1, of_int offset)
  fit (s ∷ t ∷ ts) time offset =
      let samples = s ∷ t ∷ ts in
      let origin_time = of_int s.time in
      let origin_offset = of_int s.offset in
      let count = of_int (pos (length samples)) in
      let (sum_time, sum_offset) = sums origin_time origin_offset samples (lit 0 1) (lit 0 1) in
      let mean_time = div sum_time count in
      let mean_offset = div sum_offset count in
      let (covariance, variance) =
        moments origin_time mean_time origin_offset mean_offset samples (lit 0 1) (lit 0 1) in
      let slope =
        if fltb (lit 0 1) variance
        then clamp F (div covariance variance) (neg (lit 2 1000)) (lit 2 1000)
        else lit 0 1 in
      (
        slope,
        add (add origin_offset mean_offset)
            (mul slope (sub (sub (of_int time) origin_time) mean_time)),
      )

  -- `addSample` from `push_back` on.
  unfoldable pub append_sample : List Sample → ℕ → ℤ → ℤ → DriftEstimator Double
  append_sample samples outliers time offset =
      let kept = trim time (samples ++ record { time = time; offset = offset } ∷ []) in
      let (slope, fitted) = fit kept time offset in
      record {
        samples = kept;
        slope = slope;
        fitted_offset_at_last = fitted;
        consecutive_outliers = outliers;
      }

  -- `addSample` of a time that is late enough.
  unfoldable pub take_sample : DriftEstimator Double → ℤ → ℤ → DriftEstimator Double
  take_sample e time offset =
      let outliers = (e.consecutive_outliers + 1) % 2 ^ 32 in
      if is_outlier e time offset
      then (if ltb outliers 3
          then record e { consecutive_outliers = outliers }
          else append_sample [] 0 time offset)
      else append_sample e.samples
          (if ltb 3 (length e.samples) || leb (length e.samples) 0
            then 0
            else e.consecutive_outliers)
          time offset

  unfoldable pub add_sample :
      DriftEstimator Double → ℤ → ℤ → Result DriftError (DriftEstimator Double)
  add_sample e time offset = do
    throw_if (is_late (back e.samples) time) time_not_increasing
    ok (take_sample e time offset)

  unfoldable pub correction_ratio : Double → Double → Double
  correction_ratio drift_ppm buffer_error_ms =
      if not (is_finite drift_ppm) || not (is_finite buffer_error_ms)
      then lit 1 1
      else (let correction_ppm =
            clamp F (add drift_ppm (mul (lit 20 1) buffer_error_ms)) (neg (lit 500 1))
              (lit 500 1) in
          add (lit 1 1) (div correction_ppm (lit 1_000_000 1)))
