-- ===== src/Player/Timeline/Calls.antt =====
-- `playFrom` and `load` of desktop/src/DesktopAudioPlayer.cpp, and the positions on record.
use sync_bluetooth_devices.Common.{
  ℕ, ◌+◌, ◌^◌, ◌<◌, ◌≤◌, ◌≡◌, ◌∙◌, refl, sym, Bool, true, false, not, Option, some, if◌then◌else◌,
  Result, ok, err, arith,
}
use sync_bluetooth_devices.Common.Int.{ℤ}
use sync_bluetooth_devices.Playback.{ClockError}
use sync_bluetooth_devices.Player.{
  DesktopAudioPlayer, PlayerError, PlayOutcome, LoadOutcome, inspection_failed, absent, unreadable,
  lengthless, loaded, not_loaded, cannot_seek, reset_at, open_device, stop, has_clock, start_device,
  prepare, play_from, load_outcome, load,
}
use sync_bluetooth_devices.Player.Ring.{outside, player_ring}
use sync_bluetooth_devices.Player.Ring.Valid.{held}
use sync_bluetooth_devices.Player.Timeline.{IsTimeline, prefill-sides, stop-outside}

-- The state of `playFrom` and `load` behind their resets, whatever the ring is: no clock, and the
-- submitted frames at the stopped one.
pub reset-IsTimeline :
    (bound : ℕ) (p : DesktopAudioPlayer)
    → has_clock p.clock ≡ false
    → p.stopped_frame ≡ p.ring.submitted_frames
    → p.ring.submitted_frames + held p.ring.consumer ≤ bound
    → IsTimeline bound p
reset-IsTimeline bound p e at_frame few = record {
  stopped = omega (arith, at_frame);
  segment = λ c. ground (arith, e, c);
  spent = few;
}

pub either_first :
    (bound : ℕ) (b : Bool) (x y : DesktopAudioPlayer × Option PlayerError)
    → IsTimeline bound x.0
    → IsTimeline bound y.0
    → IsTimeline bound (if b then x else y).0
either_first bound true x y v w = v
either_first bound false x y v w = w

pub start_device-IsTimeline :
    (bound frame : ℕ) (r : Result ClockError ℤ) (start_time : ℤ) (starts : Bool)
    (p : DesktopAudioPlayer)
    → has_clock p.clock ≡ false
    → p.stopped_frame ≡ frame
    → p.ring.submitted_frames ≡ frame
    → p.ring.consumer ≡ outside
    → frame ≤ bound
    → IsTimeline bound (start_device r frame start_time starts p).0
unfolding start_device
start_device-IsTimeline bound frame (err e) start_time starts p no_clock at_frame whole out few =
    reset-IsTimeline bound p no_clock (at_frame ∙ sym whole) (rw (out, whole) (omega (arith, few)))
start_device-IsTimeline bound frame (ok offset) start_time true p no_clock at_frame whole out few =
    record {
      stopped = omega (arith, at_frame, whole);
      segment = λ c. omega (arith, whole);
      spent = rw (out, whole) (omega (arith, few));
    }
start_device-IsTimeline bound frame (ok offset) start_time false p no_clock at_frame whole out few =
    record {
      stopped = omega (arith, at_frame, whole);
      segment = λ c. omega (arith, whole);
      spent = rw (out, whole) (omega (arith, few));
    }

-- The state that `playFrom` has before it initializes the device.
pub prepare-sides :
    (frame : ℕ) (o : PlayOutcome) (p : DesktopAudioPlayer)
    → let s = (prepare frame o p).ring in (s.submitted_frames ≡ frame) × (s.consumer ≡ outside)
unfolding prepare player_ring
prepare-sides frame o p = prefill-sides o.prefilled _

pub open_device-IsTimeline :
    (bound frame : ℕ) (start_time : ℤ) (o : PlayOutcome) (p : DesktopAudioPlayer)
    → has_clock p.clock ≡ false
    → p.stopped_frame ≡ frame
    → p.ring.submitted_frames ≡ frame
    → p.ring.consumer ≡ outside
    → frame ≤ bound
    → IsTimeline bound (open_device frame start_time o p).0
unfolding open_device
open_device-IsTimeline bound frame start_time o p no_clock at_frame whole out few =
    either_first bound (not o.initializes) _ _
      (reset-IsTimeline bound _ no_clock (at_frame ∙ sym whole)
        (rw (out, whole) (omega (arith, few))))
      (start_device-IsTimeline bound frame _ start_time o.starts _ no_clock refl refl out few)

pub reset_at-IsTimeline :
    (bound frame : ℕ) (p : DesktopAudioPlayer)
    → p.ring.consumer ≡ outside
    → frame ≤ bound
    → IsTimeline bound (reset_at frame p)
unfolding reset_at
reset_at-IsTimeline bound frame p out few =
    reset-IsTimeline bound _ refl refl (rw out (omega (arith, few)))

pub play_from-IsTimeline :
    (bound frame : ℕ) (start_time a b : ℤ) (o : PlayOutcome) (p : DesktopAudioPlayer)
    → bound < 2 ^ 64
    → frame ≤ bound
    → IsTimeline bound p
    → IsTimeline bound (play_from frame start_time a b o p).0
unfolding play_from
play_from-IsTimeline bound frame start_time a b o p h few v =
    let out = stop-outside bound a b p h v in
    let reset = reset_at frame (stop a b p) in
    let ready = prepare frame o reset in
    let sides = prepare-sides frame o reset in
    either_first bound (not p.decoder_initialized) (p, some not_loaded) _ v
      (either_first bound (not o.seeks) (reset, some cannot_seek)
        (open_device frame start_time o ready)
        (reset_at-IsTimeline bound frame (stop a b p) out few)
        (open_device-IsTimeline bound frame start_time o ready (unfold prepare reset_at in refl)
          (unfold prepare reset_at in refl) sides.0 sides.1 few))

pub load_outcome-IsTimeline :
    (bound : ℕ) (o : LoadOutcome) (p : DesktopAudioPlayer)
    → IsTimeline bound p
    → IsTimeline bound (load_outcome o p).0
unfolding load_outcome
load_outcome-IsTimeline bound inspection_failed p v = v
load_outcome-IsTimeline bound absent p v = v
load_outcome-IsTimeline bound unreadable p v = v
load_outcome-IsTimeline bound lengthless p v = v
load_outcome-IsTimeline bound (loaded metadata) p v = record {
  stopped = v.stopped;
  segment = v.segment;
  spent = v.spent;
}

pub load-IsTimeline :
    (bound : ℕ) (a b : ℤ) (o : LoadOutcome) (p : DesktopAudioPlayer)
    → bound < 2 ^ 64
    → IsTimeline bound p
    → IsTimeline bound (load a b o p).0
unfolding load
load-IsTimeline bound a b o p h v =
    let w = reset_at-IsTimeline bound 0 (stop a b p) (stop-outside bound a b p h v) (omega arith) in
    load_outcome-IsTimeline bound o _
      (record { stopped = w.stopped; segment = w.segment; spent = w.spent })
