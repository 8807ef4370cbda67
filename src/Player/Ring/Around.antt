-- ===== src/Player/Ring/Around.antt =====
-- Positions that go round the ring of desktop/src/DesktopAudioPlayer.cpp.
use sync_bluetooth_devices.Common.{
  ℕ, suc, ◌+◌, ◌-◌, ◌%◌, ◌<◌, ◌≤◌, ◌≡◌, ◌∙◌, ◌⊎◌, refl, ap, sym, inl, inr, Bool-cases, ◌&&◌, List,
  [], ◌∷◌, ◌++◌, take, drop, length, get_or, get_or-take, get_or-drop, get_or-append, length-append,
  length-take, length-drop, min, ltb, leb, if◌then◌else◌, arith,
}
use native.Mathlib.Nat.{mod-lt, mod-eq_of_lt, mod-eq-sub-mod, mod-add-mod, add-mod_right}
use sync_bluetooth_devices.Player.Ring.{write_at, read_at}

-- `d` steps on from `i`, with no full turn.
pub mod_on :
    (c i d : ℕ)
    → 0 < c
    → d < c
    → (i + d) % c ≡ (if ltb (i % c + d) c then i % c + d else i % c + d - c)
mod_on c i d hc hd = elim (Bool-cases (ltb (i % c + d) c)) [
  | inl e ↦ rw e (sym (mod-add-mod i c d) ∙ mod-eq_of_lt (ground arith))
  | inr e ↦ rw e (
      sym (mod-add-mod i c d)
      ∙ mod-eq-sub-mod (ground arith)
      ∙ mod-eq_of_lt (omega (arith, mod-lt i hc)))
]

-- A write of `n` frames at `w`, where they fit, stays away from what lies before `w` by no more than
-- the ring has left.
pub apart :
    (c i w n : ℕ)
    → 0 < c
    → i < w
    → w + n ≤ i + c
    → w % c + n ≤ c
    → (i % c < w % c) ⊎ (w % c + n ≤ i % c)
apart c i w n hc lt room fits = elim (Bool-cases (ltb (w - i) c)) [
  | inl e ↦
      let on = mod_on c i (w - i) hc (ground arith) in
      let same : (i + (w - i)) % c ≡ w % c =
        ap (λ k. k % c) {x = i + (w - i)} {y = w} (omega arith) in
      ground (arith, mod-lt i hc)
  | inr e ↦
      let same : w % c ≡ i % c =
        ap (λ k. k % c) {x = w} {y = i + c} (ground arith) ∙ add-mod_right i c in
      inr (ground arith)
]

pub get_or-write_at :
    (cells frames : List ℕ) (at i : ℕ)
    → at + length frames ≤ length cells
    → get_or (write_at cells at frames) i 0 ≡ (
        if leb at i && ltb i (at + length frames)
        then get_or frames (i - at) 0
        else get_or cells i 0)
unfolding write_at
get_or-write_at cells frames at i h = ground (
  arith,
  get_or-append (take at cells) (frames ++ drop (at + length frames) cells) i,
  get_or-append frames (drop (at + length frames) cells) (i - at),
  get_or-take at cells i,
  get_or-drop (at + length frames) cells (i - at - length frames),
  ap (λ j. get_or cells j 0) {x = at + length frames + (i - at - length frames)} {y = i},
  length-take at cells,
)

pub length-write_at :
    (cells frames : List ℕ) (at : ℕ)
    → at + length frames ≤ length cells
    → length (write_at cells at frames) ≡ length cells
unfolding write_at
length-write_at cells frames at h = omega (
  arith,
  length-append (take at cells) (frames ++ drop (at + length frames) cells),
  length-append frames (drop (at + length frames) cells),
  length-take at cells,
  length-drop (at + length frames) cells,
)

pub length-read_at :
    (cells : List ℕ) (c r n : ℕ)
    → 0 < c
    → length cells ≡ c
    → n ≤ c
    → length (read_at cells c r n) ≡ n
unfolding read_at
length-read_at cells c r n hc hl hn = ground (
  arith,
  mod-lt r hc,
  length-append (take (min n (c - r % c)) (drop (r % c) cells))
      (take (n - min n (c - r % c)) cells),
  length-take (min n (c - r % c)) (drop (r % c) cells),
  length-take (n - min n (c - r % c)) cells,
  length-drop (r % c) cells,
)

pub get_or-read_at :
    (cells : List ℕ) (c r n j : ℕ)
    → 0 < c
    → length cells ≡ c
    → n ≤ c
    → j < n
    → get_or (read_at cells c r n) j 0 ≡ get_or cells ((r + j) % c) 0
unfolding read_at
get_or-read_at cells c r n j hc hl hn hj = rw (mod_on c r j hc (omega arith)) (
    ground (
      arith,
      mod-lt r hc,
      get_or-append (take (min n (c - r % c)) (drop (r % c) cells))
          (take (n - min n (c - r % c)) cells) j,
      get_or-take (min n (c - r % c)) (drop (r % c) cells) j,
      get_or-drop (r % c) cells j,
      get_or-take (n - min n (c - r % c)) cells (j - (c - r % c)),
      length-take (min n (c - r % c)) (drop (r % c) cells),
      length-drop (r % c) cells,
      ap (λ k. get_or cells k 0) {x = j - (c - r % c)} {y = r % c + j - c},
    ))

-- Lists of one length with the same elements.
pub get_or_ext :
    (xs ys : List ℕ)
    → length xs ≡ length ys
    → ((i : ℕ) → i < length xs → get_or xs i 0 ≡ get_or ys i 0)
    → xs ≡ ys
get_or_ext [] [] h e = refl
get_or_ext [] (y ∷ ys) h e = absurd (omega arith)
get_or_ext (x ∷ xs) [] h e = absurd (omega arith)
get_or_ext (x ∷ xs) (y ∷ ys) h e =
    let first : x ≡ y = e 0 (omega arith) in
    rw first (ap (λ zs. y ∷ zs) (get_or_ext xs ys (omega arith) (λ i hi. e (suc i) (omega arith))))
