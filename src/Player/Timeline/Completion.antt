-- ===== src/Player/Timeline/Completion.antt =====
-- The end of the stream in desktop/src/DesktopAudioPlayer.cpp: the callback that stops the player, and
-- what the player reports from then on.
use sync_bluetooth_devices.Common.{
  ℕ, ◌≡◌, ◌∙◌, ap, not, ◌⊎◌, inl, inr, refl, Bool, Bool-cases, true, false, ◌&&◌, if◌then◌else◌,
  List, [], ◌∷◌, some, Result, ok, err, All, arith,
}
use sync_bluetooth_devices.Common.Int.{ℤ, ltb_ℤ, ◌-ℤ◌, ◌≤ℤ◌, int_laws}
use sync_bluetooth_devices.Playback.{frame_to_timestamp, elapsed, PlaybackClock, ClockError}
use sync_bluetooth_devices.Player.{
  DesktopAudioPlayer, at_least_scheduled, elapsed_by, elapsed_playback_time, freeze_at, freeze_with,
  freeze_timeline, stop, finish_callback, playback_frame_by, current_playback_frame, reroute,
  has_clock, enter_callback, data_callback, PlayerOperation, loads, plays_from, stops, prefetches,
  calls_back, reroutes, operate, operate_all,
}
use sync_bluetooth_devices.Player.Ring.{
  Producer, looping, exhausted, stopped, decoding, publishing, PlayerRing, outside, produce,
  request_frames, take_frames, decode, publish, finish,
}
use sync_bluetooth_devices.Player.Timeline.{produce-sides}

-- What may follow within the same playback: anything but a `load` or a `playFrom`.
abbrev pub IsSamePlayback : PlayerOperation → Type 0
IsSamePlayback (loads a b o) = true ≡ false
IsSamePlayback (plays_from frame start_time a b o) = true ≡ false
IsSamePlayback (stops a b) = Unit
IsSamePlayback (prefetches frames succeeded) = Unit
IsSamePlayback (calls_back a b frame_count) = Unit
IsSamePlayback reroutes = Unit

-- The player has come to the end of its stream, at this frame and elapsed time.
record IsCompleted (c : PlaybackClock) (start : ℤ) (frame : ℕ) (time : ℤ) (p : DesktopAudioPlayer)
    : Type 0 where
  clock_is : p.clock ≡ some c
  starts : p.segment_start_time ≡ start
  stands : p.timeline_running ≡ false
  frame_is : p.stopped_frame ≡ frame
  time_is : p.stopped_elapsed_nanoseconds ≡ time
  quiet : p.playing ≡ false
  over : p.ring.end_reached ≡ true
  out : p.ring.consumer ≡ outside

produce-end_reached :
    (q : Producer) (frames : List ℕ) (succeeded : Bool) (s : PlayerRing)
    → (produce q frames succeeded s).end_reached ≡ s.end_reached
unfolding produce request_frames decode publish finish
produce-end_reached looping frames succeeded s = ground arith
produce-end_reached (decoding request) frames succeeded s = refl
produce-end_reached (publishing count last) frames succeeded s = refl
produce-end_reached exhausted frames succeeded s = refl
produce-end_reached stopped frames succeeded s = refl

-- Nothing is recorded twice.
frozen_again :
    (completed : Bool) (a b : ℤ) (p : DesktopAudioPlayer)
    → p.timeline_running ≡ false
    → freeze_timeline completed a b p ≡ p
unfolding freeze_timeline
frozen_again completed a b p e = by p.timeline_running e
  where
    by :
        (runs : Bool)
        → runs ≡ false
        → (if not runs then p else freeze_with p.clock completed a b p) ≡ p
    by false h = refl
    by true h = cc h

abbrev torn_down : DesktopAudioPlayer → PlayerRing → DesktopAudioPlayer
torn_down p s = record p {
  ring = s;
  playing = false;
  device_initialized = false;
  prefetch_running = false;
}

stop_again :
    (a b : ℤ) (p : DesktopAudioPlayer)
    → p.timeline_running ≡ false
    → p.ring.consumer ≡ outside
    → stop a b p ≡ torn_down p p.ring
unfolding stop finish_callback
stop_again a b p e out =
    ap (λ q. torn_down q (finish_callback p.ring.consumer p.ring)) (frozen_again false a b p e)
    ∙ ap (λ side. torn_down p (finish_callback side p.ring)) out

module _ (c : PlaybackClock) (start : ℤ) (frame : ℕ) (time : ℤ) where
  operate-IsCompleted :
      (p : DesktopAudioPlayer) (o : PlayerOperation)
      → IsSamePlayback o
      → IsCompleted c start frame time p
      → IsCompleted c start frame time (operate p o)
  unfolding operate
  operate-IsCompleted p (loads a b o) h v = cc h
  operate-IsCompleted p (plays_from f s a b o) h v = cc h
  operate-IsCompleted p (stops a b) h v = rw (stop_again a b p v.stands v.out) (record {
    clock_is = v.clock_is;
    starts = v.starts;
    stands = v.stands;
    frame_is = v.frame_is;
    time_is = v.time_is;
    quiet = refl;
    over = v.over;
    out = v.out;
  })
  operate-IsCompleted p (prefetches frames succeeded) h v = record {
    clock_is = v.clock_is;
    starts = v.starts;
    stands = v.stands;
    frame_is = v.frame_is;
    time_is = v.time_is;
    quiet = v.quiet;
    over = rw (produce-end_reached p.ring.producer frames succeeded p.ring) (v.over);
    out = rw ((produce-sides p.ring.producer frames succeeded p.ring).1) (v.out);
  }
  operate-IsCompleted p (calls_back a b k) h v =
      let outside_is : data_callback p.ring.consumer a b k p ≡ enter_callback a b k p =
        ap (λ side. data_callback side a b k p) v.out ∙ unfold data_callback in refl in
      rw outside_is (
        unfold enter_callback in
        by (has_clock p.clock && ltb_ℤ a p.segment_start_time) p.ring.end_reached
          (freeze_timeline true a b p) v.over (frozen_again true a b p v.stands))
    where
      by :
          (early over : Bool) (q : DesktopAudioPlayer)
          → over ≡ true
          → q ≡ p
          → IsCompleted c start frame time (
              if early
              then p
              else if over
              then record q { playing = false }
              else record p { ring = take_frames k p.ring })
      by true over q e same = v
      by false true q e same = rw same (record {
        clock_is = v.clock_is;
        starts = v.starts;
        stands = v.stands;
        frame_is = v.frame_is;
        time_is = v.time_is;
        quiet = refl;
        over = v.over;
        out = v.out;
      })
      by false false q e same = cc e
  operate-IsCompleted p reroutes h v =
      unfold reroute in
      record {
        clock_is = v.clock_is;
        starts = v.starts;
        stands = v.stands;
        frame_is = v.frame_is;
        time_is = v.time_is;
        quiet = v.quiet;
        over = v.over;
        out = v.out;
      }

  operate_all-IsCompleted :
      (p : DesktopAudioPlayer) (ops : List PlayerOperation)
      → All IsSamePlayback ops
      → IsCompleted c start frame time p
      → IsCompleted c start frame time (operate_all p ops)
  unfolding operate_all
  operate_all-IsCompleted p [] h v = v
  operate_all-IsCompleted p (o ∷ rest) h v =
      operate_all-IsCompleted (operate p o) rest h.1 (operate-IsCompleted p o h.0 v)

-- What `freezeTimeline` records for a stream that was completed: the later of the clock's reading
-- and the time of the stream's last frame, where the clock can count it.
abbrev pub IsCompletedTime : PlaybackClock → ℤ → ℕ → ℤ → Type 0
IsCompletedTime c elapsed_now frame time =
    ((scheduled : ℤ) × (frame_to_timestamp c frame ≡ ok scheduled)
      × (elapsed c elapsed_now ≤ℤ time)
      × ((scheduled -ℤ c.start_time) ≤ℤ time)
      × ((time ≡ elapsed c elapsed_now) ⊎ (time ≡ scheduled -ℤ c.start_time)))
    ⊎ ((e : ClockError) × (frame_to_timestamp c frame ≡ err e) × (time ≡ elapsed c elapsed_now))

at_least_scheduled-IsCompletedTime :
    (c : PlaybackClock) (elapsed_now : ℤ) (frame : ℕ) (r : Result ClockError ℤ)
    → frame_to_timestamp c frame ≡ r
    → IsCompletedTime c elapsed_now frame (at_least_scheduled r c (elapsed c elapsed_now))
unfolding at_least_scheduled
at_least_scheduled-IsCompletedTime c elapsed_now frame (err e) said = inr (e, said, refl)
at_least_scheduled-IsCompletedTime c elapsed_now frame (ok s) said =
    let reading = elapsed c elapsed_now in
    elim (Bool-cases (ltb_ℤ reading (s -ℤ c.start_time))) [
      | inl less ↦ rw less (inl (s, said, grind int_laws, grind int_laws, inr refl))
      | inr not_less ↦ rw not_less (inl (s, said, grind int_laws, grind int_laws, inl refl))
    ]

completed :
    (c : PlaybackClock) (k : ℕ) (now elapsed_now : ℤ) (p : DesktopAudioPlayer)
    → p.clock ≡ some c
    → p.timeline_running ≡ true
    → p.ring.consumer ≡ outside
    → p.ring.end_reached ≡ true
    → ltb_ℤ now p.segment_start_time ≡ false
    → operate p (calls_back now elapsed_now k)
      ≡ record (freeze_at c true now elapsed_now p) { playing = false }
unfolding operate data_callback enter_callback freeze_timeline freeze_with
completed c k now elapsed_now p e runs out over begun = rw out (rw (e, begun, over, runs) refl)

-- A callback after the end of the stream, not before the segment's start, while the timeline runs,
-- and then any stops, reroutes, callbacks and steps of the decoding thread, in any order: the player
-- does not play; the position, read at any time from the start on, is the number of frames that were
-- submitted; and the elapsed time, read whenever, is the one that the callback found, the later of
-- its clock's reading and the time of these frames (the reading, where the clock cannot count them).
pub completes :
    (c : PlaybackClock) (k : ℕ) (now elapsed_now later later_still any_time : ℤ)
    (p : DesktopAudioPlayer) (ops : List PlayerOperation)
    → p.clock ≡ some c
    → p.timeline_running ≡ true
    → p.ring.consumer ≡ outside
    → p.ring.end_reached ≡ true
    → ltb_ℤ now p.segment_start_time ≡ false
    → ltb_ℤ later p.segment_start_time ≡ false
    → All IsSamePlayback ops
    → let t = operate_all p (calls_back now elapsed_now k ∷ ops) in
      (t.playing ≡ false)
      × (current_playback_frame later later_still t ≡ p.ring.submitted_frames)
      × IsCompletedTime c elapsed_now p.ring.submitted_frames (elapsed_playback_time any_time t)
completes c k now elapsed_now later later_still any_time p ops e runs out over begun started h =
    let frame = p.ring.submitted_frames in
    let time = at_least_scheduled (frame_to_timestamp c frame) c (elapsed c elapsed_now) in
    let u = operate p (calls_back now elapsed_now k) in
    let first : IsCompleted c p.segment_start_time frame time u =
      rw (completed c k now elapsed_now p e runs out over begun) (
        unfold freeze_at in
        record {
          clock_is = e;
          starts = refl;
          stands = refl;
          frame_is = refl;
          time_is = refl;
          quiet = refl;
          over = over;
          out = out;
        }) in
    let v = operate_all-IsCompleted c p.segment_start_time frame time u ops h first in
    unfold operate_all in
    (
      v.quiet,
      unfold current_playback_frame playback_frame_by in
          rw (v.clock_is, v.starts, started, v.stands) (v.frame_is),
      unfold elapsed_playback_time elapsed_by in
          rw (v.clock_is, v.stands)
            (rw (v.time_is) (at_least_scheduled-IsCompletedTime c elapsed_now frame _ refl)),
    )
