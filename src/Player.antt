-- ===== src/Player.antt =====
-- desktop/include/DesktopAudioPlayer.hpp and desktop/src/DesktopAudioPlayer.cpp: the player of the
-- host's own output. The ring between its two threads is Player/Ring. Readings of the clock and what
-- miniaudio and the file system answer are arguments; `freeze_timeline`, `play_from` and `load` are one
-- step each.
pub mod Ring
pub mod Timeline
use sync_bluetooth_devices.Common.{
  ℕ, ◌+◌, min, max, Bool, true, false, ◌&&◌, ◌||◌, not, List, [], ◌∷◌, Option, none, some, ltb,
  if◌then◌else◌, Result, ok, err, ◌>>=◌,
}
use sync_bluetooth_devices.Common.Int.{ℤ, pos, ◌-ℤ◌, ltb_ℤ}
use sync_bluetooth_devices.Playback.{
  PlaybackClock, ClockError, playback_clock, elapsed, frame_to_timestamp, timestamp_to_frame,
}
use Ring.{
  PlayerRing, player_ring, Consumer, outside, copying, copied, consume, produce, take_frames,
  copy_out, release,
}

pub data PlayerError : Type 0 where
  not_loaded no_such_file cannot_inspect cannot_open no_duration cannot_seek cannot_initialize
        cannot_start :
      PlayerError
  clock_error : ClockError → PlayerError

-- `durationSeconds`, which nothing reads but the command line, is left out.
pub record AudioMetadata : Type 0 where
  pub sample_rate : ℕ
  pub channels : ℕ
  pub total_frames : ℕ

-- The members behind the ring: `submittedFrames_` and `endReached_` are in the ring.
pub record DesktopAudioPlayer : Type 0 where
  pub ring : PlayerRing
  pub metadata : AudioMetadata
  pub decoder_initialized : Bool
  pub device_initialized : Bool
  pub prefetch_running : Bool
  pub playing : Bool
  pub output_route_changed : Bool
  pub timeline_running : Bool
  pub stopped_frame : ℕ
  pub stopped_elapsed_nanoseconds : ℤ
  pub clock : Option PlaybackClock
  pub segment_start_time : ℤ
  pub segment_start_frame : ℕ

unfoldable pub desktop_audio_player : DesktopAudioPlayer
unfolding player_ring
desktop_audio_player = record {
  ring = player_ring [] 0 0;
  metadata = record { sample_rate = 0; channels = 0; total_frames = 0 };
  decoder_initialized = false;
  device_initialized = false;
  prefetch_running = false;
  playing = false;
  output_route_changed = false;
  timeline_running = false;
  stopped_frame = 0;
  stopped_elapsed_nanoseconds = pos 0;
  clock = none;
  segment_start_time = pos 0;
  segment_start_frame = 0;
}

-- The frame of the clock, no later than what was submitted, which also stands for a frame that the
-- clock cannot count.
unfoldable pub submitted_frame : Result ClockError ℕ → ℕ → ℕ
submitted_frame (ok timeline_frame) submitted =
    if ltb timeline_frame submitted then timeline_frame else submitted
submitted_frame (err e) submitted = submitted

unfoldable pub current_timeline_frame : PlaybackClock → ℕ → ℤ → ℕ
current_timeline_frame c submitted now = submitted_frame (timestamp_to_frame c now) submitted

-- The elapsed time is at least the length of a stream that was completed.
unfoldable pub at_least_scheduled : Result ClockError ℤ → PlaybackClock → ℤ → ℤ
at_least_scheduled (ok scheduled) c stopped_elapsed =
    let scheduled_elapsed = scheduled -ℤ c.start_time in
    if ltb_ℤ stopped_elapsed scheduled_elapsed then scheduled_elapsed else stopped_elapsed
at_least_scheduled (err e) c stopped_elapsed = stopped_elapsed

unfoldable pub freeze_at : PlaybackClock → Bool → ℤ → ℤ → DesktopAudioPlayer → DesktopAudioPlayer
freeze_at c stream_completed frame_now elapsed_now p =
    let submitted = p.ring.submitted_frames in
    let frame =
      if stream_completed then submitted else current_timeline_frame c submitted frame_now in
    let now_elapsed = elapsed c elapsed_now in
    record p {
      stopped_frame = frame;
      stopped_elapsed_nanoseconds =
          if stream_completed
          then at_least_scheduled (frame_to_timestamp c frame) c now_elapsed
          else now_elapsed;
      timeline_running = false;
    }

unfoldable pub freeze_with :
    Option PlaybackClock → Bool → ℤ → ℤ → DesktopAudioPlayer → DesktopAudioPlayer
freeze_with none stream_completed frame_now elapsed_now p = p
freeze_with (some c) stream_completed frame_now elapsed_now p =
    freeze_at c stream_completed frame_now elapsed_now p

-- The clock is read once for the frame and once for the elapsed time.
unfoldable pub freeze_timeline : Bool → ℤ → ℤ → DesktopAudioPlayer → DesktopAudioPlayer
freeze_timeline stream_completed frame_now elapsed_now p =
    if not p.timeline_running
    then p
    else freeze_with p.clock stream_completed frame_now elapsed_now p

-- The callback under way, for whose end `ma_device_uninit` waits.
unfoldable pub finish_callback : Consumer → PlayerRing → PlayerRing
finish_callback outside s = s
finish_callback (copying count drained) s = release count drained (copy_out count drained s)
finish_callback (copied count drained) s = release count drained s

unfoldable pub stop : ℤ → ℤ → DesktopAudioPlayer → DesktopAudioPlayer
stop frame_now elapsed_now p = record (freeze_timeline false frame_now elapsed_now p) {
  ring = finish_callback p.ring.consumer p.ring;
  playing = false;
  device_initialized = false;
  prefetch_running = false;
}

-- `currentPlaybackFrame`, which reads the clock twice.
unfoldable pub playback_frame_by : Option PlaybackClock → ℤ → ℤ → DesktopAudioPlayer → ℕ
playback_frame_by none start_now frame_now p = 0
playback_frame_by (some c) start_now frame_now p =
    if ltb_ℤ start_now p.segment_start_time
    then p.segment_start_frame
    else if not p.timeline_running
    then p.stopped_frame
    else submitted_frame (timestamp_to_frame c frame_now) p.ring.submitted_frames

unfoldable pub current_playback_frame : ℤ → ℤ → DesktopAudioPlayer → ℕ
current_playback_frame start_now frame_now p = playback_frame_by p.clock start_now frame_now p

unfoldable pub timestamp_by : Option PlaybackClock → ℕ → Result ClockError (Option ℤ)
timestamp_by none frame = ok none
timestamp_by (some c) frame = do timestamp ← frame_to_timestamp c frame; ok (some timestamp)

unfoldable pub expected_playback_timestamp : ℕ → DesktopAudioPlayer → Result ClockError (Option ℤ)
expected_playback_timestamp frame p = timestamp_by p.clock frame

unfoldable pub elapsed_by : Option PlaybackClock → ℤ → DesktopAudioPlayer → ℤ
elapsed_by none now p = pos 0
elapsed_by (some c) now p =
    if p.timeline_running then elapsed c now else p.stopped_elapsed_nanoseconds

unfoldable pub elapsed_playback_time : ℤ → DesktopAudioPlayer → ℤ
elapsed_playback_time now p = elapsed_by p.clock now p

-- `notificationCallback` on a reroute.
unfoldable pub reroute : DesktopAudioPlayer → DesktopAudioPlayer
reroute p = record p { output_route_changed = true }

abbrev pub has_clock : Option PlaybackClock → Bool
has_clock none = false
has_clock (some c) = true

-- `dataCallback` up to its loads: silence before the start, and one silent call at the end.
unfoldable pub enter_callback : ℤ → ℤ → ℕ → DesktopAudioPlayer → DesktopAudioPlayer
enter_callback now elapsed_now frame_count p =
    if has_clock p.clock && ltb_ℤ now p.segment_start_time
    then p
    else if p.ring.end_reached
    then record (freeze_timeline true now elapsed_now p) { playing = false }
    else record p { ring = take_frames frame_count p.ring }

-- The next step of `dataCallback`, from wherever it stands in the ring.
unfoldable pub data_callback : Consumer → ℤ → ℤ → ℕ → DesktopAudioPlayer → DesktopAudioPlayer
data_callback outside now elapsed_now frame_count p = enter_callback now elapsed_now frame_count p
data_callback (copying count drained) now elapsed_now frame_count p = record p {
  ring = consume (copying count drained) frame_count p.ring;
}
data_callback (copied count drained) now elapsed_now frame_count p = record p {
  ring = consume (copied count drained) frame_count p.ring;
}

-- What the environment answers during `playFrom`: the ring's cells behind `resize`, what the decoding
-- thread has done by the end of the wait, and whether each call of miniaudio succeeds.
pub record PlayOutcome : Type 0 where
  pub seeks : Bool
  pub cells : List ℕ
  pub prefilled : List (List ℕ × Bool)
  pub initializes : Bool
  pub starts : Bool

-- Steps of the decoding thread alone.
unfoldable pub prefill : List (List ℕ × Bool) → PlayerRing → PlayerRing
prefill [] s = s
prefill ((frames, succeeded) ∷ rest) s = prefill rest (produce s.producer frames succeeded s)

-- `playFrom` behind the device's initialisation, with the offset of the first frame on a clock from 0.
unfoldable pub start_device :
    Result ClockError ℤ
    → ℕ
    → ℤ
    → Bool
    → DesktopAudioPlayer
    → DesktopAudioPlayer × Option PlayerError
start_device (err e) frame start_time starts p = (p, some (clock_error e))
start_device (ok frame_offset) frame start_time starts p =
    let set : DesktopAudioPlayer = record p {
      segment_start_time = start_time;
      segment_start_frame = frame;
    } in
    if starts
    then (
      record set {
        clock = some (record {
          sample_rate = p.metadata.sample_rate;
          start_time = start_time -ℤ frame_offset;
        });
        timeline_running = true;
        playing = true;
        output_route_changed = false;
      },
      none,
    )
    else (
      record set {
        clock = none;
        timeline_running = false;
        playing = false;
        output_route_changed = false;
        device_initialized = false;
        prefetch_running = false;
      },
      some cannot_start,
    )

-- The offset of `frame` by `zeroClock`.
unfoldable pub frame_offset_at : ℕ → ℕ → Result ClockError ℤ
frame_offset_at rate frame = do
  zero_clock ← playback_clock rate (pos 0)
  frame_to_timestamp zero_clock frame

unfoldable pub prepare : ℕ → PlayOutcome → DesktopAudioPlayer → DesktopAudioPlayer
prepare frame o p =
    let capacity = max p.metadata.sample_rate 4096 in
    let fresh : PlayerRing = record (player_ring o.cells capacity frame) {
      end_reached = p.ring.end_reached;
    } in
    record p { ring = prefill o.prefilled fresh; prefetch_running = true }

-- The resets at the head of `playFrom`, and of `load` at frame 0.
unfoldable pub reset_at : ℕ → DesktopAudioPlayer → DesktopAudioPlayer
reset_at frame p = record p {
  clock = none;
  ring = record p.ring { submitted_frames = frame };
  stopped_frame = frame;
  stopped_elapsed_nanoseconds = pos 0;
}

-- `playFrom` from the initialisation of the device on.
unfoldable pub open_device :
    ℕ → ℤ → PlayOutcome → DesktopAudioPlayer → DesktopAudioPlayer × Option PlayerError
open_device frame start_time o p =
    if not o.initializes
    then (record p { prefetch_running = false }, some cannot_initialize)
    else start_device (frame_offset_at p.metadata.sample_rate frame) frame start_time o.starts
        (record p {
          device_initialized = true;
          ring = record p.ring { end_reached = false; submitted_frames = frame };
          stopped_frame = frame;
          stopped_elapsed_nanoseconds = pos 0;
        })

unfoldable pub play_from :
    ℕ → ℤ → ℤ → ℤ → PlayOutcome → DesktopAudioPlayer → DesktopAudioPlayer × Option PlayerError
play_from frame start_time frame_now elapsed_now o p =
    if not p.decoder_initialized
    then (p, some not_loaded)
    else let reset = reset_at frame (stop frame_now elapsed_now p) in
      if not o.seeks
      then (reset, some cannot_seek)
      else open_device frame start_time o (prepare frame o reset)

-- What the file system and the decoder answer during `load`.
pub data LoadOutcome : Type 0 where
  inspection_failed absent unreadable lengthless : LoadOutcome
  loaded : AudioMetadata → LoadOutcome

unfoldable pub load_outcome :
    LoadOutcome → DesktopAudioPlayer → DesktopAudioPlayer × Option PlayerError
load_outcome inspection_failed p = (p, some cannot_inspect)
load_outcome absent p = (p, some no_such_file)
load_outcome unreadable p = (p, some cannot_open)
load_outcome lengthless p = (p, some no_duration)
load_outcome (loaded metadata) p =
    (record p { metadata = metadata; decoder_initialized = true }, none)

unfoldable pub load :
    ℤ → ℤ → LoadOutcome → DesktopAudioPlayer → DesktopAudioPlayer × Option PlayerError
load frame_now elapsed_now o p =
    load_outcome o
      (record (reset_at 0 (stop frame_now elapsed_now p)) { decoder_initialized = false })

-- The calls of the application and the steps of the two threads, in any order.
pub data PlayerOperation : Type 0 where
  loads : ℤ → ℤ → LoadOutcome → PlayerOperation
  plays_from : ℕ → ℤ → ℤ → ℤ → PlayOutcome → PlayerOperation
  stops : ℤ → ℤ → PlayerOperation
  prefetches : List ℕ → Bool → PlayerOperation
  calls_back : ℤ → ℤ → ℕ → PlayerOperation
  reroutes : PlayerOperation

unfoldable pub operate : DesktopAudioPlayer → PlayerOperation → DesktopAudioPlayer
operate p (loads frame_now elapsed_now o) = (load frame_now elapsed_now o p).0
operate p (plays_from frame start_time frame_now elapsed_now o) =
    (play_from frame start_time frame_now elapsed_now o p).0
operate p (stops frame_now elapsed_now) = stop frame_now elapsed_now p
operate p (prefetches frames succeeded) = record p {
  ring = produce p.ring.producer frames succeeded p.ring;
}
operate p (calls_back now elapsed_now frame_count) =
    data_callback p.ring.consumer now elapsed_now frame_count p
operate p reroutes = reroute p

unfoldable pub operate_all : DesktopAudioPlayer → List PlayerOperation → DesktopAudioPlayer
operate_all p [] = p
operate_all p (o ∷ rest) = operate_all (operate p o) rest
