-- ===== src/Drift/Window.antt =====
-- The samples that core/src/DriftCorrection.cpp keeps.
use sync_bluetooth_devices.Common.{◌≤◌, ◌<◌, ◌≡◌, List, [], ◌∷◌, length, some, All}
use sync_bluetooth_devices.Common.Int.{ℤ, pos, ◌-ℤ◌, ◌<ℤ◌, ◌≤ℤ◌}
use sync_bluetooth_devices.Common.Floats.{Floats}
use sync_bluetooth_devices.Drift.{Sample, DriftEstimator, back}

-- Times rise along the list.
abbrev pub IsRising : List Sample → Type 0
IsRising [] = Unit {0}
IsRising (s ∷ ss) = All (λ x. s.time <ℤ x.time) ss × IsRising ss

-- The first sample is at most two minutes before a time, or there are at most two.
abbrev pub IsRecent : ℤ → List Sample → Type 0
IsRecent time [] = Unit {0}
IsRecent time (s ∷ ss) = 2 < length (s ∷ ss) → time -ℤ s.time ≤ℤ pos 120_000_000_000

-- The estimator's state: the times of its samples rise, there are at most 32, the newest of three or
-- more is at most two minutes after the oldest, and fewer than three outliers have been passed over
-- in a row.
pub record IsWindow {D : Type 0} (e : DriftEstimator D) : Type 0 where
  pub rising : IsRising e.samples
  pub size : length e.samples ≤ 32
  pub recent : (b : Sample) → back e.samples ≡ some b → IsRecent b.time e.samples
  pub outliers : e.consecutive_outliers < 3
