-- ===== src/Player/Ring/Steps.antt =====
-- Each step of the two threads keeps the ring of desktop/src/DesktopAudioPlayer.cpp.
use sync_bluetooth_devices.Common.{
  ℕ, ◌+◌, ◌-◌, ◌%◌, ◌^◌, ◌<◌, ◌≤◌, ◌≡◌, ◌∙◌, refl, ap, inl, inr, Bool-cases, Bool, List, ◌++◌, take,
  length, get_or, get_or-take, get_or-append, length-append, length-take, ltb, arith,
}
use native.Mathlib.Nat.{mod-lt}
use sync_bluetooth_devices.Player.Ring.{
  PlayerRing, Producer, looping, exhausted, publishing, outside, copying, copied, publish, finish,
  take_frames, copy_out, release, read_at,
}
use sync_bluetooth_devices.Player.Ring.Around.{length-read_at, get_or-read_at, get_or_ext}
use sync_bluetooth_devices.Player.Ring.Valid.{IsRing, unpublished, reserved}

pub publish-IsRing :
    (s : PlayerRing) (count : ℕ) (last : Bool)
    → s.producer ≡ publishing count last
    → IsRing s
    → IsRing (publish count last s)
unfolding publish
publish-IsRing s count last e v = elim (Bool-cases last) [
  | inl l ↦ rw l (rw sum (shape exhausted refl refl))
  | inr l ↦ rw l (rw sum (shape looping refl refl))
]
  where
    sum : (s.written_frame + count) % 2 ^ 64 ≡ s.written_frame + count
    sum = omega (arith, v.bound, rw e at v.written)

    shape :
        (p : Producer)
        → unpublished p ≡ 0
        → reserved p ≡ 0
        → IsRing (record s { written_frame = s.written_frame + count; producer = p })
    shape p none_left none_asked = record {
      positive = v.positive;
      size = v.size;
      bound = v.bound;
      written = omega (arith, none_left, rw e at v.written);
      read = v.read;
      behind = omega (arith, v.behind);
      room = omega (arith, none_asked, rw e at v.room);
      straight = omega (arith, none_asked, mod-lt (s.written_frame + count) v.positive);
      stored = v.stored;
      prefix = v.prefix;
    }

pub finish-IsRing : (s : PlayerRing) → s.producer ≡ exhausted → IsRing s → IsRing (finish s)
unfolding finish
finish-IsRing s e v = record {
  positive = v.positive;
  size = v.size;
  bound = v.bound;
  written = rw e at v.written;
  read = v.read;
  behind = v.behind;
  room = rw e at v.room;
  straight = rw e at v.straight;
  stored = v.stored;
  prefix = v.prefix;
}

pub take_frames-IsRing :
    (s : PlayerRing) (frame_count : ℕ)
    → s.consumer ≡ outside
    → IsRing s
    → IsRing (take_frames frame_count s)
unfolding take_frames
take_frames-IsRing s frame_count e v = record {
  positive = v.positive;
  size = v.size;
  bound = v.bound;
  written = v.written;
  read = rw e at v.read;
  behind = ground (arith, v.behind, rw e at v.behind);
  room = v.room;
  straight = v.straight;
  stored = v.stored;
  prefix = v.prefix;
}

pub copy_out-IsRing :
    (s : PlayerRing) (count : ℕ) (drained : Bool)
    → s.consumer ≡ copying count drained
    → IsRing s
    → IsRing (copy_out count drained s)
unfolding copy_out
copy_out-IsRing s count drained e v = record {
  positive = v.positive;
  size = v.size;
  bound = v.bound;
  written = v.written;
  read = omega (arith, len, at_read);
  behind = rw e at v.behind;
  room = v.room;
  straight = v.straight;
  stored = v.stored;
  prefix =
      get_or_ext _ _
        (omega (
          arith,
          len,
          length-take (length (s.played ++ out)) s.decoded,
          at_read,
          rw e at v.behind,
          v.written,
        ))
        same;
}
  where
    out : List ℕ
    out = read_at s.cells s.capacity s.read_frame count

    at_read : length s.played ≡ s.read_frame
    at_read = omega (arith, rw e at v.read)

    small : count ≤ s.capacity
    small = omega (arith, rw e at v.behind, v.room)

    out_len : length out ≡ count
    out_len = length-read_at s.cells s.capacity s.read_frame count v.positive v.size small

    len : length (s.played ++ out) ≡ length s.played + count
    len = omega (arith, length-append s.played out, out_len)

    same :
        (i : ℕ)
        → i < length (s.played ++ out)
        → get_or (s.played ++ out) i 0 ≡ get_or (take (length (s.played ++ out)) s.decoded) i 0
    same i hi = elim (Bool-cases (ltb i (length s.played))) [
      | inl old ↦
          let before : get_or s.played i 0 ≡ get_or (take (length s.played) s.decoded) i 0 =
            ap (λ l. get_or l i 0) v.prefix in
          ground (
            arith,
            get_or-append s.played out i,
            get_or-take (length (s.played ++ out)) s.decoded i,
            get_or-take (length s.played) s.decoded i,
          )
      | inr new ↦
          let there =
            get_or-read_at s.cells s.capacity s.read_frame count (i - length s.played) v.positive
              v.size small (ground (arith, len)) in
          let index : s.read_frame + (i - length s.played) ≡ i = ground (arith, at_read) in
          let at_i : get_or out (i - length s.played) 0 ≡ get_or s.cells (i % s.capacity) 0 =
            there ∙ ap (λ k. get_or s.cells (k % s.capacity) 0) index in
          let stored =
            v.stored i (ground (arith, at_read))
              (ground (arith, len, at_read, rw e at v.behind, v.written)) in
          ground (
            arith,
            get_or-append s.played out i,
            get_or-take (length (s.played ++ out)) s.decoded i,
          )
    ]

pub release-IsRing :
    (s : PlayerRing) (count : ℕ) (drained : Bool)
    → s.consumer ≡ copied count drained
    → IsRing s
    → IsRing (release count drained s)
unfolding release
release-IsRing s count drained e v = rw sum (record {
  positive = v.positive;
  size = v.size;
  bound = v.bound;
  written = v.written;
  read = omega (arith, rw e at v.read);
  behind = omega (arith, rw e at v.behind);
  room = omega (arith, v.room);
  straight = v.straight;
  stored = λ i hr hi. v.stored i (omega arith) hi;
  prefix = v.prefix;
})
  where
    sum : (s.read_frame + count) % 2 ^ 64 ≡ s.read_frame + count
    sum = omega (arith, v.bound, v.written, rw e at v.behind)
