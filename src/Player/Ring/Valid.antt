-- ===== src/Player/Ring/Valid.antt =====
-- The ring of desktop/src/DesktopAudioPlayer.cpp as both threads leave it, and what the decoding
-- thread does to it up to its writes.
use sync_bluetooth_devices.Common.{
  ℕ, zero, suc, ◌+◌, ◌-◌, ◌%◌, ◌^◌, ◌<◌, ◌≤◌, ◌≡◌, ◌∙◌, refl, ap, sym, inl, inr, Bool-cases, Bool,
  List, [], ◌∷◌, ◌++◌, take, length, get_or, get_or-append, length-append, ltb, ◌==◌, arith,
}
use native.Mathlib.Nat.{mod-lt}
use sync_bluetooth_devices.Player.Ring.{
  PlayerRing, Producer, looping, exhausted, stopped, decoding, publishing, Consumer, outside,
  copying, copied, request_frames, decode, write_at,
}
use sync_bluetooth_devices.Player.Ring.Around.{apart, mod_on, get_or-write_at, length-write_at}

-- The frames in the ring that are not published yet.
abbrev pub unpublished : Producer → ℕ
unpublished looping = 0
unpublished (decoding request) = 0
unpublished (publishing count last) = count
unpublished exhausted = 0
unpublished stopped = 0

-- The frames that the producer may still write.
abbrev pub reserved : Producer → ℕ
reserved looping = 0
reserved (decoding request) = request
reserved (publishing count last) = count
reserved exhausted = 0
reserved stopped = 0

-- The frames that the consumer has copied and not released.
abbrev pub unreleased : Consumer → ℕ
unreleased outside = 0
unreleased (copying count drained) = 0
unreleased (copied count drained) = count

abbrev pub held : Consumer → ℕ
held outside = 0
held (copying count drained) = count
held (copied count drained) = count

-- Each frame that is not released stands in its cell; counts fit 64 bits; neither thread goes where
-- the other one is.
pub record IsRing (s : PlayerRing) : Type 0 where
  pub positive : 0 < s.capacity
  pub size : length s.cells ≡ s.capacity
  pub bound : length s.decoded < 2 ^ 64
  pub written : length s.decoded ≡ s.written_frame + unpublished s.producer
  pub read : length s.played ≡ s.read_frame + unreleased s.consumer
  pub behind : s.read_frame + held s.consumer ≤ s.written_frame
  pub room : s.written_frame + reserved s.producer ≤ s.read_frame + s.capacity
  pub straight : s.written_frame % s.capacity + reserved s.producer ≤ s.capacity
  pub stored :
      (i : ℕ)
      → s.read_frame ≤ i
      → i < length s.decoded
      → get_or s.cells (i % s.capacity) 0 ≡ get_or s.decoded i 0
  pub prefix : s.played ≡ take (length s.played) s.decoded

pub unreleased-le-held : (c : Consumer) → unreleased c ≤ held c
unreleased-le-held outside = omega arith
unreleased-le-held (copying count drained) = omega arith
unreleased-le-held (copied count drained) = omega arith

pub unpublished-le-reserved : (p : Producer) → unpublished p ≤ reserved p
unpublished-le-reserved looping = omega arith
unpublished-le-reserved (decoding request) = omega arith
unpublished-le-reserved (publishing count last) = omega arith
unpublished-le-reserved exhausted = omega arith
unpublished-le-reserved stopped = omega arith

pub request_frames-IsRing :
    (s : PlayerRing) → s.producer ≡ looping → IsRing s → IsRing (request_frames s)
unfolding request_frames
request_frames-IsRing s e v =
    elim (Bool-cases ((s.capacity - (s.written_frame - s.read_frame)) == 0)) [
      | inl full ↦ rw full v
      | inr room ↦ rw room (record {
        positive = v.positive;
        size = v.size;
        bound = v.bound;
        written = v.written ∙ ap (λ p. s.written_frame + unpublished p) e;
        read = v.read;
        behind = v.behind;
        room = ground (arith, v.behind, rw e at v.room);
        straight = ground (arith, mod-lt s.written_frame v.positive);
        stored = v.stored;
        prefix = v.prefix;
      })
    ]

take-append-le : (n : ℕ) (xs ys : List ℕ) → n ≤ length xs → take n (xs ++ ys) ≡ take n xs
take-append-le zero xs ys h = refl
take-append-le (suc n) [] ys h = absurd (omega arith)
take-append-le (suc n) (x ∷ xs) ys h = ap (λ zs. x ∷ zs) (take-append-le n xs ys (omega arith))

pub decode-IsRing :
    (s : PlayerRing) (request : ℕ) (frames : List ℕ) (succeeded : Bool)
    → s.producer ≡ decoding request
    → length frames ≤ request
    → length s.decoded + length frames < 2 ^ 64
    → IsRing s
    → IsRing (decode request frames succeeded s)
unfolding decode
decode-IsRing s request frames succeeded e few fits v = record {
  positive = v.positive;
  size = length-write_at s.cells frames _ inside ∙ v.size;
  bound = omega (arith, length-append s.decoded frames);
  written = omega (arith, length-append s.decoded frames, rw e at v.written);
  read = v.read;
  behind = v.behind;
  room = omega (arith, rw e at v.room);
  straight = omega (arith, rw e at v.straight);
  stored = stored_at;
  prefix =
      v.prefix
      ∙ sym (
          take-append-le (length s.played) s.decoded frames
            (omega (arith, v.read, v.behind, v.written, unreleased-le-held s.consumer)));
}
  where
    inside : s.written_frame % s.capacity + length frames ≤ length s.cells
    inside = omega (arith, v.size, rw e at v.straight)

    whole : length s.decoded ≡ s.written_frame
    whole = omega (arith, rw e at v.written)

    stored_at :
        (i : ℕ)
        → s.read_frame ≤ i
        → i < length (s.decoded ++ frames)
        → get_or (write_at s.cells (s.written_frame % s.capacity) frames) (i % s.capacity) 0
          ≡ get_or (s.decoded ++ frames) i 0
    stored_at i hr hi = elim (Bool-cases (ltb i s.written_frame)) [
      | inl old ↦
          let away =
            apart s.capacity i s.written_frame (length frames) v.positive (ground arith)
              (omega (arith, rw e at v.room)) (omega (arith, rw e at v.straight)) in
          ground (
            arith,
            get_or-write_at s.cells frames (s.written_frame % s.capacity) (i % s.capacity) inside,
            get_or-append s.decoded frames i,
            v.stored i hr,
            whole,
          )
      | inr new ↦
          let len = length-append s.decoded frames in
          let on =
            mod_on s.capacity s.written_frame (i - s.written_frame) v.positive
              (ground (arith, whole, len, rw e at v.room, v.behind, v.size, inside)) in
          let same : s.written_frame + (i - s.written_frame) ≡ i = ground arith in
          let here : i % s.capacity ≡ s.written_frame % s.capacity + (i - s.written_frame) =
            ap (λ k. k % s.capacity) (sym same) ∙ ground (arith, on, whole, len, v.size, inside) in
          rw here (
            ground (
              arith,
              get_or-write_at s.cells frames (s.written_frame % s.capacity)
                  (s.written_frame % s.capacity + (i - s.written_frame)) inside,
              get_or-append s.decoded frames i,
              whole,
              len,
              ap (λ k. get_or frames k 0)
                  {x = s.written_frame % s.capacity
                    + (i - s.written_frame)
                    - s.written_frame % s.capacity}
                  {y = i - length s.decoded},
            ))
    ]
