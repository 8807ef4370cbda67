-- ===== src/Player/Ring/Order.antt =====
-- Nothing is lost, repeated or overwritten in the ring of desktop/src/DesktopAudioPlayer.cpp,
-- in whatever order the two threads run.
use sync_bluetooth_devices.Common.{
  ℕ, ◌+◌, ◌^◌, ◌<◌, ◌≤◌, ◌≡◌, ◌∙◌, refl, ap, sym, inl, inr, Bool-cases, Bool, List, [], ◌∷◌, ◌++◌,
  take, drop, length, length-append, length-take, length-drop, take-append-drop, arith,
}
use native.Mathlib.Nat.{mod-lt}
use sync_bluetooth_devices.Player.Ring.{
  PlayerRing, Producer, looping, exhausted, stopped, decoding, publishing, Consumer, outside,
  copying, copied, player_ring, request_frames, decode, publish, finish, take_frames, copy_out,
  release, Action, produces, consumes, produce, consume, step, run,
}
use sync_bluetooth_devices.Player.Ring.Valid.{
  IsRing, unpublished-le-reserved, request_frames-IsRing, decode-IsRing,
}
use sync_bluetooth_devices.Player.Ring.Steps.{
  publish-IsRing, finish-IsRing, take_frames-IsRing, copy_out-IsRing, release-IsRing,
}

produce-IsRing :
    (p : Producer) (frames : List ℕ) (succeeded : Bool) (s : PlayerRing)
    → s.producer ≡ p
    → length s.decoded + length frames < 2 ^ 64
    → IsRing s
    → IsRing (produce p frames succeeded s)
unfolding produce
produce-IsRing looping frames succeeded s e few v = request_frames-IsRing s e v
produce-IsRing (decoding request) frames succeeded s e few v =
    decode-IsRing s request (take request frames) succeeded e
      (omega (arith, length-take request frames)) (omega (arith, length-take request frames)) v
produce-IsRing (publishing count last) frames succeeded s e few v = publish-IsRing s count last e v
produce-IsRing exhausted frames succeeded s e few v = finish-IsRing s e v
produce-IsRing stopped frames succeeded s e few v = v

consume-IsRing :
    (c : Consumer) (frame_count : ℕ) (s : PlayerRing)
    → s.consumer ≡ c
    → IsRing s
    → IsRing (consume c frame_count s)
unfolding consume
consume-IsRing outside frame_count s e v = elim (Bool-cases s.end_reached) [
  | inl ended ↦ rw ended (rw ended at v)
  | inr goes ↦ rw goes (rw goes at (take_frames-IsRing s frame_count e v))
]
consume-IsRing (copying count drained) frame_count s e v = copy_out-IsRing s count drained e v
consume-IsRing (copied count drained) frame_count s e v = release-IsRing s count drained e v

-- The frames that the decoder offers over a run.
abbrev pub offered : List Action → ℕ
offered [] = 0
offered (produces frames succeeded ∷ rest) = length frames + offered rest
offered (consumes frame_count ∷ rest) = offered rest

produce-decoded :
    (p : Producer) (frames : List ℕ) (succeeded : Bool) (s : PlayerRing)
    → length (produce p frames succeeded s).decoded ≤ length s.decoded + length frames
unfolding produce request_frames decode publish finish
produce-decoded looping frames succeeded s = ground arith
produce-decoded (decoding request) frames succeeded s =
    omega (arith, length-append s.decoded (take request frames), length-take request frames)
produce-decoded (publishing count last) frames succeeded s = omega arith
produce-decoded exhausted frames succeeded s = omega arith
produce-decoded stopped frames succeeded s = omega arith

consume-decoded :
    (c : Consumer) (frame_count : ℕ) (s : PlayerRing)
    → (consume c frame_count s).decoded ≡ s.decoded
unfolding consume take_frames copy_out release
consume-decoded outside frame_count s = ground arith
consume-decoded (copying count drained) frame_count s = refl
consume-decoded (copied count drained) frame_count s = refl

pub run-IsRing :
    (s : PlayerRing) (actions : List Action)
    → length s.decoded + offered actions < 2 ^ 64
    → IsRing s
    → IsRing (run s actions)
unfolding run step
run-IsRing s [] few v = v
run-IsRing s (produces frames succeeded ∷ rest) few v =
    run-IsRing (produce s.producer frames succeeded s) rest
      (omega (arith, produce-decoded s.producer frames succeeded s))
      (produce-IsRing s.producer frames succeeded s refl (omega arith) v)
run-IsRing s (consumes frame_count ∷ rest) few v =
    run-IsRing (consume s.consumer frame_count s) rest
      (omega (arith, ap length (consume-decoded s.consumer frame_count s)))
      (consume-IsRing s.consumer frame_count s refl v)

pub player_ring-IsRing :
    (cells : List ℕ) (capacity frame : ℕ)
    → 0 < capacity
    → length cells ≡ capacity
    → IsRing (player_ring cells capacity frame)
unfolding player_ring
player_ring-IsRing cells capacity frame h size = record {
  positive = h;
  size = size;
  bound = omega arith;
  written = omega arith;
  read = omega arith;
  behind = omega arith;
  room = omega arith;
  straight = omega (arith, mod-lt 0 h);
  stored = λ i hr hi. absurd (omega arith);
  prefix = refl;
}

-- In whatever order the two threads take their steps, what has been played is the first part of what
-- the decoder has returned, frame for frame, and the rest, which is in the ring, is no more than its
-- capacity; this from any contents of the cells, as long as the decoder offers fewer than 2^64 frames.
pub run_refines :
    (cells : List ℕ) (capacity frame : ℕ) (actions : List Action)
    → 0 < capacity
    → length cells ≡ capacity
    → offered actions < 2 ^ 64
    → let s = run (player_ring cells capacity frame) actions in
      (rest : List ℕ) × (s.decoded ≡ s.played ++ rest) × (length rest ≤ s.capacity)
run_refines cells capacity frame actions h size few =
    let s = run (player_ring cells capacity frame) actions in
    let v =
      run-IsRing (player_ring cells capacity frame) actions
        (unfold player_ring in omega (arith, few))
        (player_ring-IsRing cells capacity frame h size) in
    (
      drop (length s.played) s.decoded,
      sym (
          ap (λ l. l ++ drop (length s.played) s.decoded) v.prefix
          ∙ take-append-drop (length s.played) s.decoded),
      rest_len s v,
    )
  where
    rest_len : (s : PlayerRing) → IsRing s → length (drop (length s.played) s.decoded) ≤ s.capacity
    rest_len s v = omega (
      arith,
      length-drop (length s.played) s.decoded,
      v.read,
      v.written,
      v.room,
      unpublished-le-reserved s.producer,
    )
