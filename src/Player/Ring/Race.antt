-- ===== src/Player/Ring/Race.antt =====
-- The end of playback in desktop/src/DesktopAudioPlayer.cpp when the decoding thread is done in the middle
-- of a callback.
use sync_bluetooth_devices.Common.{
  ℕ, zero, suc, ◌+◌, ◌-◌, ◌%◌, ◌^◌, ◌<◌, ◌≤◌, ◌≡◌, ◌∙◌, refl, ap, Bool, true, false, ◌||◌, List, [],
  ◌∷◌, ◌++◌, take, length, min, ltb, ◌==◌, arith,
}
use mathlib.Core.List.{append-nil}
use sync_bluetooth_devices.Player.Ring.{
  PlayerRing, Producer, looping, exhausted, stopped, decoding, publishing, outside, copying,
  request_frames, decode, publish, finish, take_frames, copy_out, release, read_at, write_at,
  Action, produces, consumes, produce, consume, step, run,
}

pub run-append : (s : PlayerRing) (xs ys : List Action) → run s (xs ++ ys) ≡ run (run s xs) ys
unfolding run
run-append s [] ys = refl
run-append s (x ∷ xs) ys = run-append (step s x) xs ys

abbrev pub last_decode : List ℕ → List Action
last_decode tail = produces [] true ∷ produces tail true ∷ produces [] true ∷ produces [] true ∷ []

-- The callback looks for frames; then the decoding thread reads the last frames, `tail`, publishes
-- them and says that it is done; then the callback goes on.
abbrev pub race : ℕ → List ℕ → List Action
race k tail = consumes k ∷ (last_decode tail ++ (consumes k ∷ consumes k ∷ []))

-- The frames that `prefetch` asks for in a ring that is empty.
abbrev pub asked : PlayerRing → ℕ
asked s = min (min s.capacity (s.capacity - s.written_frame % s.capacity)) 4096

pub take-all : (n : ℕ) (xs : List ℕ) → length xs ≤ n → take n xs ≡ xs
take-all zero [] h = refl
take-all zero (x ∷ xs) h = absurd (omega arith)
take-all (suc n) [] h = refl
take-all (suc n) (x ∷ xs) h = ap (λ ys. x ∷ ys) (take-all n xs (omega arith))

pub finds_nothing :
    (s : PlayerRing) (k : ℕ)
    → s.consumer ≡ outside
    → s.end_reached ≡ false
    → s.read_frame ≡ s.written_frame
    → step s (consumes k) ≡ record s { consumer = copying 0 true }
unfolding step consume take_frames
finds_nothing s k out goes empty =
    let none_there : min k (s.written_frame - s.read_frame) ≡ 0 = omega (arith, empty) in
    let at_end : (s.read_frame + 0 == s.written_frame) ≡ true = ground (arith, empty) in
    rw (out, goes, none_there, at_end) refl

pub requests :
    (s : PlayerRing) (frames : List ℕ) (succeeded : Bool)
    → s.producer ≡ looping
    → s.read_frame ≡ s.written_frame
    → 0 < s.capacity
    → step s (produces frames succeeded) ≡ record s { producer = decoding (asked s) }
unfolding step produce request_frames
requests s frames succeeded e empty h =
    let whole : s.capacity - (s.written_frame - s.read_frame) ≡ s.capacity = omega (arith, empty) in
    let has_room : (s.capacity == 0) ≡ false = ground arith in rw (e, whole, has_room) refl

-- The ring once the last frames are in it.
abbrev pub filled : PlayerRing → List ℕ → PlayerRing
filled s tail = record s {
  cells = write_at s.cells (s.written_frame % s.capacity) tail;
  decoded = s.decoded ++ tail;
  written_frame = (s.written_frame + length tail) % 2 ^ 64;
  decoder_finished = true;
  producer = stopped;
}

pub decodes_last :
    (s : PlayerRing) (tail : List ℕ)
    → s.producer ≡ looping
    → s.read_frame ≡ s.written_frame
    → 0 < s.capacity
    → length tail < asked s
    → run s (last_decode tail) ≡ filled s tail
unfolding run
decodes_last s tail e empty h short =
    rw (requests s [] true e empty h)
      (unfold step produce decode publish finish in rw (whole, last) refl)
  where
    whole : take (asked s) tail ≡ tail
    whole = take-all (asked s) tail (omega (arith, short))

    last : ltb (length tail) (asked s) ≡ true
    last = ground (arith, short)

pub reads_none : (cells : List ℕ) (c r : ℕ) → read_at cells c r 0 ≡ []
unfolding read_at
reads_none cells c r = let none_here : min 0 (c - r % c) ≡ 0 = omega arith in rw none_here refl

-- The callback's last steps when it found nothing and the decoder is done by then.
pub ends_empty :
    (s : PlayerRing) (k : ℕ)
    → s.consumer ≡ copying 0 true
    → s.decoder_finished ≡ true
    → let t = run s (consumes k ∷ consumes k ∷ []) in
      (t.end_reached ≡ true)
      × (t.consumer ≡ outside)
      × (t.played ≡ s.played)
      × (t.decoded ≡ s.decoded)
unfolding run step consume copy_out release
ends_empty s k e done = rw e (
    rw (done, reads_none s.cells s.capacity s.read_frame)
      (ended s.end_reached, refl, append-nil s.played, refl))
  where
    ended : (b : Bool) → (b || true) ≡ true
    ended true = refl
    ended false = refl

pub race_ends :
    (s : PlayerRing) (tail : List ℕ) (k : ℕ)
    → s.consumer ≡ outside
    → s.end_reached ≡ false
    → s.producer ≡ looping
    → s.read_frame ≡ s.written_frame
    → 0 < s.capacity
    → length tail < asked s
    → let t = run s (race k tail) in
      (t.end_reached ≡ true)
      × (t.consumer ≡ outside)
      × (t.played ≡ s.played)
      × (t.decoded ≡ s.decoded ++ tail)
unfolding run
race_ends s tail k out goes e empty h short =
    let found : PlayerRing = record s { consumer = copying 0 true } in
    rw (finds_nothing s k out goes empty) (
      rw (run-append found (last_decode tail) (consumes k ∷ consumes k ∷ []))
        (rw (decodes_last found tail e empty h short) (ends_empty (filled found tail) k refl refl)))

-- After the end nothing more is played.
pub produce-played :
    (p : Producer) (frames : List ℕ) (succeeded : Bool) (s : PlayerRing)
    → let t = produce p frames succeeded s in
      (t.played ≡ s.played) × (t.end_reached ≡ s.end_reached) × (t.consumer ≡ s.consumer)
unfolding produce request_frames decode publish finish
produce-played looping frames succeeded s = ground arith
produce-played (decoding request) frames succeeded s = (refl, refl, refl)
produce-played (publishing count last) frames succeeded s = (refl, refl, refl)
produce-played exhausted frames succeeded s = (refl, refl, refl)
produce-played stopped frames succeeded s = (refl, refl, refl)

pub step-produced :
    (s : PlayerRing) (frames : List ℕ) (succeeded : Bool)
    → let t = step s (produces frames succeeded) in
      (t.played ≡ s.played) × (t.end_reached ≡ s.end_reached) × (t.consumer ≡ s.consumer)
unfolding step
step-produced s frames succeeded = produce-played s.producer frames succeeded s

pub ignores :
    (s : PlayerRing) (frame_count : ℕ)
    → s.end_reached ≡ true
    → s.consumer ≡ outside
    → step s (consumes frame_count) ≡ s
unfolding step consume
ignores s frame_count ended out = rw (out, ended) refl

pub ignored :
    (s : PlayerRing) (frame_count : ℕ) (rest : List Action)
    → s.end_reached ≡ true
    → s.consumer ≡ outside
    → run s (consumes frame_count ∷ rest) ≡ run s rest
unfolding run
ignored s frame_count rest ended out = ap (λ u. run u rest) (ignores s frame_count ended out)

pub stays_ended :
    (s : PlayerRing) (actions : List Action)
    → s.end_reached ≡ true
    → s.consumer ≡ outside
    → let t = run s actions in
      (t.played ≡ s.played) × (t.end_reached ≡ true) × (t.consumer ≡ outside)
unfolding run
stays_ended s [] ended out = (refl, ended, out)
stays_ended s (produces frames succeeded ∷ rest) ended out =
    let one = step-produced s frames succeeded in
    let more =
      stays_ended (step s (produces frames succeeded)) rest (one.1 ∙ ended) (one.2 ∙ out) in
    (more.0 ∙ one.0, more.1, more.2)
stays_ended s (consumes frame_count ∷ rest) ended out =
    rw (ignored s frame_count rest ended out) (stays_ended s rest ended out)

-- In a ring that is empty while the decoder has more, which is outside the callback and not at its end:
-- when the decoding thread reads and publishes its last frames, fewer than it asks for, and is done,
-- all between the callback's loads and its look at the decoder's flag, then playback is at its end
-- without these frames, and no later step of either thread plays them.
pub race_loses_tail :
    (s : PlayerRing) (tail : List ℕ) (k : ℕ) (later : List Action)
    → s.consumer ≡ outside
    → s.end_reached ≡ false
    → s.producer ≡ looping
    → s.read_frame ≡ s.written_frame
    → 0 < s.capacity
    → length tail < asked s
    → let t = run s (race k tail ++ later) in
      (t.end_reached ≡ true)
      × (t.played ≡ s.played)
      × ((run s (race k tail)).decoded ≡ s.decoded ++ tail)
race_loses_tail s tail k later out goes e empty h short =
    let now = race_ends s tail k out goes e empty h short in
    let after = stays_ended (run s (race k tail)) later now.0 now.1 in
    rw (run-append s (race k tail) later) (after.1, after.0 ∙ now.2, now.3)
