-- ===== src/Runs/Clocks.antt =====
-- A 48 kHz clock that started at one second, and an exchange with a host whose clock is 500 ns
-- ahead over a way of 100 ns.
use sync_bluetooth_devices.Common.{
  some, ℕ, ◌+◌, ◌*◌, ◌<◌, ◌≤◌, ◌≡◌, ◌↔◌, ◌⊎◌, inl, refl, List, length, ok, err, arith, [],
}
use sync_bluetooth_devices.Common.Int.{pos, negsuc, ◌+ℤ◌, ◌-ℤ◌, ◌≤ℤ◌, int_laws}
use sync_bluetooth_devices.Playback.{
  PlaybackClock, frame_to_duration, frame_to_timestamp, duration_to_frame, timestamp_to_frame,
  duration_overflow, frame_overflow, duration_max, frame_max,
}
use sync_bluetooth_devices.Playback.Rounding.{
  IsCeiling, IsFloor, frame_to_duration_exact, duration_to_frame_exact,
}
use sync_bluetooth_devices.Playback.Conversions.{
  IsClock, frame_to_timestamp-due_iff, timestamp_to_frame-frame_to_timestamp,
}
use sync_bluetooth_devices.Sync.{
  ClockSyncMessage, ClockSyncEstimate, message_size, serialize, deserialize, estimate,
}
use sync_bluetooth_devices.Sync.Message.{Fits, deserialize-serialize_message}
use sync_bluetooth_devices.Sync.Estimate.{
  OverPath, IsExchange, estimate_error, estimate-IsExchange_iff,
}
use sync_bluetooth_devices.Transport.{respond, accept, sampled}
use sync_bluetooth_devices.Transport.Exchange.{accept-respond}
use sync_bluetooth_devices.Latency.{OutputLatency, submission_time, bluetooth, manual}
use sync_bluetooth_devices.Latency.Range.{IsSupported, submission_time_iff}

abbrev clock : PlaybackClock
clock = record { sample_rate = 48000; start_time = pos 1_000_000_000 }

clock-IsClock : IsClock clock
clock-IsClock = record {
  rate_pos = omega arith;
  rate_u32 = omega arith;
  start_low = omega arith;
  start_high = omega arith;
}

frame_to_duration_exact_example :
    (d : ℕ) × IsCeiling 48000 7 d
    × (((frame_to_duration clock 7 ≡ ok d) × (d ≤ duration_max))
        ⊎ ((frame_to_duration clock 7 ≡ err duration_overflow) × (duration_max < d)))
frame_to_duration_exact_example = frame_to_duration_exact clock 7 (omega arith) (omega arith)

duration_to_frame_exact_example :
    (g : ℕ) × IsFloor 48000 145_833 g
    × (((duration_to_frame clock 145_833 ≡ ok g) × (g ≤ frame_max))
        ⊎ ((duration_to_frame clock 145_833 ≡ err frame_overflow) × (frame_max < g)))
duration_to_frame_exact_example =
    duration_to_frame_exact clock 145_833 (omega arith) (omega arith) (omega arith)

-- Frame 7 falls at 145,833.33 nanoseconds after the start.
frame_seven : frame_to_timestamp clock 7 ≡ ok (pos 1_000_145_834)
unfolding frame_to_timestamp frame_to_duration ◌+ℤ◌ ◌-ℤ◌
frame_seven = refl

nanosecond_before : timestamp_to_frame clock (pos 1_000_145_833) ≡ ok 6
unfolding timestamp_to_frame duration_to_frame ◌-ℤ◌
nanosecond_before = refl

frame_to_timestamp-due_iff_example : (pos 1_000_145_834 ≤ℤ pos 1_000_145_833) ↔ (7 ≤ 6)
frame_to_timestamp-due_iff_example =
    frame_to_timestamp-due_iff clock 7 6 (pos 1_000_145_834) (pos 1_000_145_833) clock-IsClock
      frame_seven (omega arith) (omega arith) nanosecond_before

timestamp_to_frame-frame_to_timestamp_example : timestamp_to_frame clock (pos 1_000_145_834) ≡ ok 7
timestamp_to_frame-frame_to_timestamp_example =
    timestamp_to_frame-frame_to_timestamp clock 7 (pos 1_000_145_834) clock-IsClock (omega arith)
      (omega arith) frame_seven

abbrev probe : ClockSyncMessage
probe = record {
  type = 1;
  request_id = 3;
  client_send_timestamp_nanoseconds = 1000;
  host_receive_timestamp_nanoseconds = 0;
  host_send_timestamp_nanoseconds = 0;
}

probe-Fits : Fits probe
probe-Fits = ground arith

deserialize-serialize_message_example :
    (bytes : List ℕ) × (serialize probe ≡ ok bytes)
    × (length bytes ≡ message_size)
    × (deserialize bytes ≡ ok probe)
deserialize-serialize_message_example = deserialize-serialize_message probe probe-Fits (inl refl)

same_way : OverPath 1000 1600 1650 1250 (pos 500) 100 50 100
same_way = record {
  arrives = omega int_laws;
  answers = refl;
  returns = refl;
  client_max = omega arith;
  host_max = omega arith;
}

estimate_error_example :
    (e : ClockSyncEstimate) × (estimate 1000 1600 1650 1250 ≡ ok e)
    × (e.round_trip_time ≡ pos 200)
    × (e.host_minus_client_offset +ℤ e.host_minus_client_offset
        ≤ℤ pos 500 +ℤ pos 500 +ℤ (pos 100 -ℤ pos 100) +ℤ pos 1)
    × (pos 500 +ℤ pos 500 +ℤ (pos 100 -ℤ pos 100)
        ≤ℤ e.host_minus_client_offset +ℤ e.host_minus_client_offset +ℤ pos 1)
    × (2 * e.client_sample_timestamp_nanoseconds ≤ 1000 + 1250)
    × (1000 + 1250 ≤ 2 * e.client_sample_timestamp_nanoseconds + 1)
estimate_error_example = estimate_error 1000 1600 1650 1250 (pos 500) 100 50 100 same_way

estimate-IsExchange_iff_example :
    ((e : ClockSyncEstimate) × (estimate 1000 1600 1650 1250 ≡ ok e))
    ↔ IsExchange 1000 1600 1650 1250
estimate-IsExchange_iff_example = estimate-IsExchange_iff 1000 1600 1650 1250

abbrev speaker : OutputLatency
speaker = record {
  output_route_id = [];
  output_route_type = bluetooth;
  calibration_confidence = manual;
  system_estimate = pos 180_000_000;
  manual_adjustment = negsuc 9_999_999;
}

submission_time_iff_example :
    (submission_time speaker (pos 1_000_000_000) ≡ ok (pos 830_000_000)) ↔ (
      IsSupported speaker
      × (pos 830_000_000 +ℤ (pos 180_000_000 +ℤ negsuc 9_999_999) ≡ pos 1_000_000_000))
submission_time_iff_example = submission_time_iff speaker (pos 1_000_000_000) (pos 830_000_000)

accept-respond_example :
    (datagram : List ℕ) × (reply : List ℕ) × (serialize probe ≡ ok datagram)
    × (respond datagram 1600 1650 ≡ some reply)
    × (accept probe reply 1250 ≡ sampled (estimate 1000 1600 1650 1250))
accept-respond_example =
    accept-respond probe 1600 1650 1250 probe-Fits refl (omega arith) (omega arith)
