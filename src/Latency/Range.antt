-- ===== src/Latency/Range.antt =====
-- When `submissionTime` of core/src/OutputLatency.cpp returns, and what.
use sync_bluetooth_devices.Common.{ap, ◌≡◌, ◌↔◌, ok, arith, ◌||◌, Bool-cases, inl, inr, Bool}
use sync_bluetooth_devices.Common.Int.{
  ℤ, pos, negsuc, ◌+ℤ◌, ◌-ℤ◌, ltb_ℤ, ◌≤ℤ◌, int_laws, +ℤ_parts, -ℤ_parts, pos_part, neg_part,
  eq_of_parts,
}
use sync_bluetooth_devices.Latency.{OutputLatency, effective_latency, submission_time}

abbrev is_unsupported : OutputLatency → Bool
is_unsupported l =
    ltb_ℤ l.system_estimate (pos 0)
    || ltb_ℤ (pos 5_000_000_000) l.system_estimate
    || ltb_ℤ l.manual_adjustment (negsuc 999_999_999)
    || ltb_ℤ (pos 1_000_000_000) l.manual_adjustment

pub record IsSupported (l : OutputLatency) : Type 0 where
  pub system_low : pos 0 ≤ℤ l.system_estimate
  pub system_high : l.system_estimate ≤ℤ pos 5_000_000_000
  pub manual_low : negsuc 999_999_999 ≤ℤ l.manual_adjustment
  pub manual_high : l.manual_adjustment ≤ℤ pos 1_000_000_000

-- A submission time is returned just for a latency in the supported range, and then the audio
-- submitted at that time sounds at the wanted time: it lies before it by the estimate and the
-- adjustment together.
pub submission_time_iff :
    (l : OutputLatency) (acoustic t : ℤ)
    → (submission_time l acoustic ≡ ok t)
      ↔ (IsSupported l × (t +ℤ (l.system_estimate +ℤ l.manual_adjustment) ≡ acoustic))
unfolding submission_time effective_latency
submission_time_iff l acoustic t = elim (Bool-cases (is_unsupported l)) [
  | inl bad ↦ rw bad (
    (λ h. cc),
    (λ (h, e). ground (arith, h.system_low, h.system_high, h.manual_low, h.manual_high)),
  )
  | inr good ↦ rw good (
    (λ h. (
      record {
        system_low = ground arith;
        system_high = ground arith;
        manual_low = ground arith;
        manual_high = ground arith;
      },
      moved cc,
    )),
    (λ (h, e). ap ok (eq_of_parts _ _ (omega (int_laws, ap pos_part e, ap neg_part e)))),
  )
]
  where
    moved :
        acoustic -ℤ (l.system_estimate +ℤ l.manual_adjustment) ≡ t
        → t +ℤ (l.system_estimate +ℤ l.manual_adjustment) ≡ acoustic
    moved same = ground (
      arith,
      eq_of_parts (t +ℤ (l.system_estimate +ℤ l.manual_adjustment)) acoustic,
      -ℤ_parts acoustic (l.system_estimate +ℤ l.manual_adjustment),
      +ℤ_parts t (l.system_estimate +ℤ l.manual_adjustment),
      ap pos_part same,
      ap neg_part same,
    )
