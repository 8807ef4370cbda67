-- ===== src/Playback.antt =====
-- core/include/PlaybackClock.hpp and core/src/PlaybackClock.cpp: frames and monotonic timestamps.
-- A timestamp is an `int64_t` count of nanoseconds, here an integer (signed overflow, which C++
-- leaves undefined, does not wrap). Reading the clock is the caller's: `elapsed` and the default
-- start take the reading as an argument.
pub mod Rounding
pub mod Conversions
use sync_bluetooth_devices.Common.{
  ℕ, ◌+◌, ◌-◌, ◌*◌, ◌/◌, ◌%◌, ◌^◌, ltb, ◌==◌, if◌then◌else◌, Result, ok, err, ◌>>=◌, ◌>>◌, throw_if,
}
use sync_bluetooth_devices.Common.Int.{ℤ, pos, pos_part, ◌+ℤ◌, ◌-ℤ◌, leb_ℤ, ltb_ℤ}

-- One constructor for each message of the exceptions.
pub data ClockError : Type 0 where
  zero_rate timestamp_overflow frame_overflow duration_overflow : ClockError

abbrev pub nanoseconds_per_second : ℕ
nanoseconds_per_second = 1_000_000_000

-- `std::numeric_limits<Duration::rep>::max()`
abbrev pub duration_max : ℕ
duration_max = 2 ^ 63 - 1

-- `std::numeric_limits<Frame>::max()`
abbrev pub frame_max : ℕ
frame_max = 2 ^ 64 - 1

pub record PlaybackClock : Type 0 where
  pub sample_rate : ℕ
  pub start_time : ℤ

unfoldable pub playback_clock : ℕ → ℤ → Result ClockError PlaybackClock
playback_clock rate start = do
  throw_if (rate == 0) zero_rate
  ok (record { sample_rate = rate; start_time = start })

unfoldable pub elapsed_at : PlaybackClock → ℤ → ℤ
elapsed_at c timestamp = timestamp -ℤ c.start_time

-- `elapsed` at the reading `now`.
unfoldable pub elapsed : PlaybackClock → ℤ → ℤ
unfolding elapsed_at
elapsed c now = elapsed_at c now

unfoldable pub frame_to_duration : PlaybackClock → ℕ → Result ClockError ℕ
frame_to_duration c frame = do
  let whole_seconds = frame / c.sample_rate
  let remaining_frames = frame % c.sample_rate
  throw_if (ltb (duration_max / nanoseconds_per_second) whole_seconds) duration_overflow
  let whole_nanoseconds = whole_seconds * nanoseconds_per_second % 2 ^ 64
  let partial_nanoseconds =
      (remaining_frames * nanoseconds_per_second + c.sample_rate - 1) % 2 ^ 64 / c.sample_rate
  throw_if (ltb (duration_max - whole_nanoseconds) partial_nanoseconds) duration_overflow
  ok ((whole_nanoseconds + partial_nanoseconds) % 2 ^ 64)

unfoldable pub frame_to_timestamp : PlaybackClock → ℕ → Result ClockError ℤ
frame_to_timestamp c frame = do
  offset ← frame_to_duration c frame
  throw_if (ltb_ℤ (pos duration_max -ℤ pos offset) c.start_time) timestamp_overflow
  ok (c.start_time +ℤ pos offset)

-- The frame of `nanoseconds` after the start.
unfoldable pub duration_to_frame : PlaybackClock → ℕ → Result ClockError ℕ
duration_to_frame c nanoseconds = do
  let whole_seconds = nanoseconds / nanoseconds_per_second
  let remaining_nanoseconds = nanoseconds % nanoseconds_per_second
  throw_if (ltb (frame_max / c.sample_rate) whole_seconds) frame_overflow
  let whole_frames = whole_seconds * c.sample_rate % 2 ^ 64
  let partial_frames = remaining_nanoseconds * c.sample_rate % 2 ^ 64 / nanoseconds_per_second
  throw_if (ltb (frame_max - whole_frames) partial_frames) frame_overflow
  ok ((whole_frames + partial_frames) % 2 ^ 64)

unfoldable pub timestamp_to_frame : PlaybackClock → ℤ → Result ClockError ℕ
unfolding elapsed_at
timestamp_to_frame c timestamp =
    if leb_ℤ timestamp c.start_time
    then ok 0
    else duration_to_frame c (pos_part (elapsed_at c timestamp))
