-- ===== src/Latency.antt =====
-- core/include/OutputLatency.hpp and core/src/OutputLatency.cpp: the time from the submission of
-- audio to the sound. Durations and time points are their counts of nanoseconds, as ℤ.
pub mod Range
use sync_bluetooth_devices.Common.{
  ℕ, ◌||◌, Bool, Result, ok, err, ◌>>=◌, Text, ltb, leb, if◌then◌else◌, ◌+◌, ◌-◌,
}
use sync_bluetooth_devices.Common.Int.{ℤ, pos, negsuc, ◌+ℤ◌, ◌-ℤ◌, ltb_ℤ}

pub data LatencyError : Type 0 where
  out_of_range : LatencyError

pub data OutputRouteType : Type 0 where
  unknown built_in wired bluetooth usb : OutputRouteType

pub data CalibrationConfidence : Type 0 where
  unknown system_estimate manual measured : CalibrationConfidence

pub record OutputLatency : Type 0 where
  pub output_route_id : Text
  pub output_route_type : OutputRouteType
  pub calibration_confidence : CalibrationConfidence
  pub system_estimate : ℤ
  pub manual_adjustment : ℤ

unfoldable pub effective_latency : OutputLatency → Result LatencyError ℤ
effective_latency l =
    if ltb_ℤ l.system_estimate (pos 0)
      || ltb_ℤ (pos 5_000_000_000) l.system_estimate
      || ltb_ℤ l.manual_adjustment (negsuc 999_999_999)
      || ltb_ℤ (pos 1_000_000_000) l.manual_adjustment
    then err out_of_range
    else ok (l.system_estimate +ℤ l.manual_adjustment)

unfoldable pub submission_time : OutputLatency → ℤ → Result LatencyError ℤ
submission_time l acoustic_presentation_time =
    effective_latency l >>= λ latency. ok (acoustic_presentation_time -ℤ latency)
