-- ===== src/Player/Timeline.antt =====
-- What the player of desktop/src/DesktopAudioPlayer.cpp reports of its position.

pub mod Calls
pub mod Position
pub mod Completion
use sync_bluetooth_devices.Common.{
  ℕ, ◌+◌, ◌-◌, ◌%◌, ◌^◌, ◌<◌, ◌≤◌, ◌≡◌, ◌∙◌, ◌⊎◌, refl, ap, sym, inl, inr, Bool-cases, Bool, true,
  false, ◌&&◌, ◌||◌, not, List, [], ◌∷◌, Option, none, some, min, max, ltb, if◌then◌else◌, Result,
  ok, err, arith,
}
use sync_bluetooth_devices.Common.Int.{ℤ, pos, ltb_ℤ}
use sync_bluetooth_devices.Playback.{PlaybackClock, ClockError, timestamp_to_frame}
use sync_bluetooth_devices.Player.{
  DesktopAudioPlayer, PlayerError, PlayOutcome, LoadOutcome, inspection_failed, absent, unreadable,
  lengthless, loaded, not_loaded, cannot_seek, finish_callback, reset_at, open_device,
  desktop_audio_player, submitted_frame, current_timeline_frame, freeze_at, freeze_with,
  freeze_timeline, stop, playback_frame_by, current_playback_frame, reroute, has_clock,
  enter_callback, data_callback, prefill, start_device, frame_offset_at, prepare, play_from,
  load_outcome, load, PlayerOperation, loads, plays_from, stops, prefetches, calls_back, reroutes,
  operate, operate_all,
}
use sync_bluetooth_devices.Player.Ring.{
  PlayerRing, Producer, looping, exhausted, stopped, decoding, publishing, Consumer, outside,
  copying, copied, player_ring, request_frames, decode, publish, finish, take_frames, copy_out,
  release, produce, consume,
}
use sync_bluetooth_devices.Player.Ring.Valid.{held}

-- No frame on record is past the submitted ones, and neither these nor those of the callback under way
-- are past `bound`.
pub record IsTimeline (bound : ℕ) (p : DesktopAudioPlayer) : Type 0 where
  pub stopped : p.stopped_frame ≤ p.ring.submitted_frames
  pub segment : has_clock p.clock ≡ true → p.segment_start_frame ≤ p.ring.submitted_frames
  pub spent : p.ring.submitted_frames + held p.ring.consumer ≤ bound

pub submitted_frame_le :
    (r : Result ClockError ℕ) (submitted : ℕ) → submitted_frame r submitted ≤ submitted
unfolding submitted_frame
submitted_frame_le (ok frame) submitted = ground arith
submitted_frame_le (err e) submitted = omega arith

pub either :
    (bound : ℕ) (b : Bool) (p q : DesktopAudioPlayer)
    → IsTimeline bound p
    → IsTimeline bound q
    → IsTimeline bound (if b then p else q)
either bound true p q v w = v
either bound false p q v w = w

pub freeze_with-IsTimeline :
    (bound : ℕ) (c : Option PlaybackClock) (completed : Bool) (a b : ℤ) (p : DesktopAudioPlayer)
    → IsTimeline bound p
    → IsTimeline bound (freeze_with c completed a b p)
unfolding freeze_with freeze_at current_timeline_frame
freeze_with-IsTimeline bound none completed a b p v = v
freeze_with-IsTimeline bound (some c) true a b p v = record {
  stopped = omega arith;
  segment = v.segment;
  spent = v.spent;
}
freeze_with-IsTimeline bound (some c) false a b p v = record {
  stopped = submitted_frame_le (timestamp_to_frame c a) p.ring.submitted_frames;
  segment = v.segment;
  spent = v.spent;
}

pub freeze_timeline-IsTimeline :
    (bound : ℕ) (completed : Bool) (a b : ℤ) (p : DesktopAudioPlayer)
    → IsTimeline bound p
    → IsTimeline bound (freeze_timeline completed a b p)
unfolding freeze_timeline
freeze_timeline-IsTimeline bound completed a b p v =
    either bound (not p.timeline_running) p (freeze_with p.clock completed a b p) v
      (freeze_with-IsTimeline bound p.clock completed a b p v)

pub freeze_timeline-ring :
    (completed : Bool) (a b : ℤ) (p : DesktopAudioPlayer)
    → (freeze_timeline completed a b p).ring ≡ p.ring
unfolding freeze_timeline
freeze_timeline-ring completed a b p = by p.timeline_running p.clock
  where
    by :
        (runs : Bool) (c : Option PlaybackClock)
        → (if not runs then p else freeze_with c completed a b p).ring ≡ p.ring
    by true none = unfold freeze_with in refl
    by true (some c) = unfold freeze_with freeze_at in refl
    by false c = refl

-- The decoding thread leaves the consumer's side alone.
pub produce-sides :
    (q : Producer) (frames : List ℕ) (succeeded : Bool) (s : PlayerRing)
    → let t = produce q frames succeeded s in
      (t.submitted_frames ≡ s.submitted_frames) × (t.consumer ≡ s.consumer)
unfolding produce request_frames decode publish finish
produce-sides looping frames succeeded s = ground arith
produce-sides (decoding request) frames succeeded s = (refl, refl)
produce-sides (publishing count last) frames succeeded s = (refl, refl)
produce-sides exhausted frames succeeded s = (refl, refl)
produce-sides stopped frames succeeded s = (refl, refl)

pub prefill-sides :
    (steps : List (List ℕ × Bool)) (s : PlayerRing)
    → let t = prefill steps s in
      (t.submitted_frames ≡ s.submitted_frames) × (t.consumer ≡ s.consumer)
unfolding prefill
prefill-sides [] s = (refl, refl)
prefill-sides ((frames, succeeded) ∷ rest) s =
    let one = produce-sides s.producer frames succeeded s in
    let more = prefill-sides rest (produce s.producer frames succeeded s) in
    (more.0 ∙ one.0, more.1 ∙ one.1)

-- A ring that another one replaces.
pub with_ring-IsTimeline :
    (bound : ℕ) (s : PlayerRing) (p : DesktopAudioPlayer)
    → p.ring.submitted_frames ≤ s.submitted_frames
    → s.submitted_frames + held s.consumer ≤ bound
    → IsTimeline bound p
    → IsTimeline bound (record p { ring = s })
with_ring-IsTimeline bound s p more fits v = record {
  stopped = omega (arith, v.stopped, more);
  segment = λ c. omega (arith, v.segment c, more);
  spent = fits;
}

-- The ring behind the end of the callback under way.
pub finish_callback-sides :
    (bound : ℕ) (c : Consumer) (s : PlayerRing)
    → s.consumer ≡ c
    → bound < 2 ^ 64
    → s.submitted_frames + held s.consumer ≤ bound
    → let t = finish_callback c s in
      (t.consumer ≡ outside)
      × (s.submitted_frames ≤ t.submitted_frames)
      × (t.submitted_frames ≤ bound)
unfolding finish_callback
finish_callback-sides bound outside s e h few = (e, omega arith, omega arith)
finish_callback-sides bound (copying count drained) s e h few =
    unfold release copy_out in (refl, omega (arith, h, rw e at few), omega (arith, h, rw e at few))
finish_callback-sides bound (copied count drained) s e h few =
    unfold release in (refl, omega (arith, h, rw e at few), omega (arith, h, rw e at few))

pub stop-IsTimeline :
    (bound : ℕ) (a b : ℤ) (p : DesktopAudioPlayer)
    → bound < 2 ^ 64
    → IsTimeline bound p
    → IsTimeline bound (stop a b p)
unfolding stop
stop-IsTimeline bound a b p h v =
    let w = freeze_timeline-IsTimeline bound false a b p v in
    let sides = finish_callback-sides bound p.ring.consumer p.ring refl h v.spent in
    let same = freeze_timeline-ring false a b p in
    record {
      stopped = omega (arith, w.stopped, sides.1, ap submitted same);
      segment = λ c. omega (arith, w.segment c, sides.1, ap submitted same);
      spent = rw (sides.0) (omega (arith, sides.2));
    }
  where
    submitted : PlayerRing → ℕ
    submitted s = s.submitted_frames

pub stop-outside :
    (bound : ℕ) (a b : ℤ) (p : DesktopAudioPlayer)
    → bound < 2 ^ 64
    → IsTimeline bound p
    → (stop a b p).ring.consumer ≡ outside
unfolding stop
stop-outside bound a b p h v = (finish_callback-sides bound p.ring.consumer p.ring refl h v.spent).0

pub enter_callback-IsTimeline :
    (bound frame_count : ℕ) (a b : ℤ) (p : DesktopAudioPlayer)
    → p.ring.submitted_frames + frame_count ≤ bound
    → IsTimeline bound p
    → IsTimeline bound (enter_callback a b frame_count p)
unfolding enter_callback
enter_callback-IsTimeline bound frame_count a b p few v =
    let w = freeze_timeline-IsTimeline bound true a b p v in
    let closed : DesktopAudioPlayer = record (freeze_timeline true a b p) { playing = false } in
    let taken : DesktopAudioPlayer = record p { ring = take_frames frame_count p.ring } in
    either bound (has_clock p.clock && ltb_ℤ a p.segment_start_time) p
      (if p.ring.end_reached then closed else taken) v
      (either bound p.ring.end_reached closed taken
        (record { stopped = w.stopped; segment = w.segment; spent = w.spent })
        (with_ring-IsTimeline bound (take_frames frame_count p.ring) p
          (unfold take_frames in omega arith) (unfold take_frames in omega (arith, few)) v))

pub data_callback-IsTimeline :
    (bound frame_count : ℕ) (c : Consumer) (a b : ℤ) (p : DesktopAudioPlayer)
    → p.ring.consumer ≡ c
    → bound < 2 ^ 64
    → p.ring.submitted_frames + frame_count ≤ bound
    → IsTimeline bound p
    → IsTimeline bound (data_callback c a b frame_count p)
unfolding data_callback consume
data_callback-IsTimeline bound frame_count outside a b p e h few v =
    enter_callback-IsTimeline bound frame_count a b p few v
data_callback-IsTimeline bound frame_count (copying count drained) a b p e h few v =
    with_ring-IsTimeline bound (copy_out count drained p.ring) p (unfold copy_out in omega arith)
      (unfold copy_out in omega (arith, rw e at v.spent)) v
data_callback-IsTimeline bound frame_count (copied count drained) a b p e h few v =
    let sum : (p.ring.submitted_frames + count) % 2 ^ 64 ≡ p.ring.submitted_frames + count =
      omega (arith, rw e at v.spent, h) in
    with_ring-IsTimeline bound (release count drained p.ring) p
      (unfold release in omega (arith, sum)) (unfold release in omega (arith, sum, rw e at v.spent))
      v
