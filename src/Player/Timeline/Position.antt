-- ===== src/Player/Timeline/Position.antt =====
-- The position that desktop/src/DesktopAudioPlayer.cpp reports, after any calls.
use sync_bluetooth_devices.Common.{
  ℕ, ◌+◌, ◌^◌, ◌<◌, ◌≤◌, ◌≡◌, refl, ap, List, [], ◌∷◌, Option, none, some, arith,
}
use sync_bluetooth_devices.Common.Int.{ℤ}
use sync_bluetooth_devices.Playback.{PlaybackClock, timestamp_to_frame}
use sync_bluetooth_devices.Player.{
  DesktopAudioPlayer, desktop_audio_player, playback_frame_by, current_playback_frame, reroute,
  has_clock, PlayerOperation, loads, plays_from, stops, prefetches, calls_back, reroutes, operate,
  operate_all,
}
use sync_bluetooth_devices.Player.Ring.{player_ring}
use sync_bluetooth_devices.Player.Timeline.{
  IsTimeline, submitted_frame_le, produce-sides, with_ring-IsTimeline, stop-IsTimeline,
  data_callback-IsTimeline,
}
use sync_bluetooth_devices.Player.Timeline.Calls.{play_from-IsTimeline, load-IsTimeline}

-- The frames that an operation can bring.
abbrev pub frames_of : PlayerOperation → ℕ
frames_of (loads a b o) = 0
frames_of (plays_from frame start_time a b o) = frame
frames_of (stops a b) = 0
frames_of (prefetches frames succeeded) = 0
frames_of (calls_back a b frame_count) = frame_count
frames_of reroutes = 0

abbrev pub frames_in : List PlayerOperation → ℕ
frames_in [] = 0
frames_in (o ∷ rest) = frames_of o + frames_in rest

pub weaken : (b c : ℕ) (p : DesktopAudioPlayer) → b ≤ c → IsTimeline b p → IsTimeline c p
weaken b c p h v = record {
  stopped = v.stopped;
  segment = v.segment;
  spent = omega (arith, v.spent);
}

pub operate-IsTimeline :
    (bound : ℕ) (p : DesktopAudioPlayer) (o : PlayerOperation)
    → bound + frames_of o < 2 ^ 64
    → IsTimeline bound p
    → IsTimeline (bound + frames_of o) (operate p o)
unfolding operate
operate-IsTimeline bound p (loads a b o) h v =
    load-IsTimeline (bound + 0) a b o p h (weaken bound (bound + 0) p (omega arith) v)
operate-IsTimeline bound p (plays_from frame start_time a b o) h v =
    play_from-IsTimeline (bound + frame) frame start_time a b o p h (omega arith)
      (weaken bound (bound + frame) p (omega arith) v)
operate-IsTimeline bound p (stops a b) h v =
    stop-IsTimeline (bound + 0) a b p h (weaken bound (bound + 0) p (omega arith) v)
operate-IsTimeline bound p (prefetches frames succeeded) h v =
    let sides = produce-sides p.ring.producer frames succeeded p.ring in
    with_ring-IsTimeline (bound + 0) _ p (omega (arith, sides.0))
      (rw (sides.0, sides.1) (omega (arith, v.spent))) (weaken bound (bound + 0) p (omega arith) v)
operate-IsTimeline bound p (calls_back a b frame_count) h v =
    data_callback-IsTimeline (bound + frame_count) frame_count p.ring.consumer a b p refl h
      (omega (arith, v.spent)) (weaken bound (bound + frame_count) p (omega arith) v)
operate-IsTimeline bound p reroutes h v =
    unfold reroute in
    record { stopped = v.stopped; segment = v.segment; spent = omega (arith, v.spent) }

pub operate_all-IsTimeline :
    (bound : ℕ) (p : DesktopAudioPlayer) (ops : List PlayerOperation)
    → bound + frames_in ops < 2 ^ 64
    → IsTimeline bound p
    → IsTimeline (bound + frames_in ops) (operate_all p ops)
unfolding operate_all
operate_all-IsTimeline bound p [] h v = weaken bound (bound + 0) p (omega arith) v
operate_all-IsTimeline bound p (o ∷ rest) h v = weaken _ _ _ (omega arith) (
    operate_all-IsTimeline (bound + frames_of o) (operate p o) rest (omega (arith, h))
      (operate-IsTimeline bound p o (omega (arith, h)) v))

pub new-IsTimeline : IsTimeline 0 desktop_audio_player
unfolding desktop_audio_player player_ring
new-IsTimeline = record { stopped = omega arith; segment = λ c. omega arith; spent = omega arith }

pub playback_frame_le :
    (bound : ℕ) (c : Option PlaybackClock) (a b : ℤ) (p : DesktopAudioPlayer)
    → p.clock ≡ c
    → IsTimeline bound p
    → playback_frame_by c a b p ≤ p.ring.submitted_frames
unfolding playback_frame_by
playback_frame_le bound none a b p e v = omega arith
playback_frame_le bound (some c) a b p e v =
    let start : p.segment_start_frame ≤ p.ring.submitted_frames = v.segment (ap has_clock e) in
    let stopped : p.stopped_frame ≤ p.ring.submitted_frames = v.stopped in
    ground (arith, submitted_frame_le (timestamp_to_frame c b) p.ring.submitted_frames)

-- Whatever the application calls and however the threads run in between, the position that a new
-- player reports, before the start, while it plays and once it is stopped, is never past the frames
-- that it has handed to the device (counted from the first frame of the file); this as long as the
-- start frames and the frames that the callbacks ask for sum to less than 2^64.
pub position_le_submitted :
    (ops : List PlayerOperation) (start_now frame_now : ℤ)
    → frames_in ops < 2 ^ 64
    → let p = operate_all desktop_audio_player ops in
      current_playback_frame start_now frame_now p ≤ p.ring.submitted_frames
unfolding current_playback_frame
position_le_submitted ops start_now frame_now h =
    let p = operate_all desktop_audio_player ops in
    playback_frame_le (0 + frames_in ops) p.clock start_now frame_now p refl
      (operate_all-IsTimeline 0 desktop_audio_player ops (omega (arith, h)) new-IsTimeline)
