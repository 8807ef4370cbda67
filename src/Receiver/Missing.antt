-- ===== src/Receiver/Missing.antt =====
-- The set of missing sequence numbers of desktop/src/DesktopAudioClient.cpp.
use sync_bluetooth_devices.Common.{
  ℕ, zero, suc, ◌+◌, ◌<◌, ◌≡◌, ◌∙◌, inl, inr, refl, Bool, true, ◌||◌, ◌&&◌, not, Bool-cases, List,
  [], ◌∷◌, ltb, leb, ◌==◌, if◌then◌else◌, length, arith,
}
use sync_bluetooth_devices.Receiver.{contains, insert, erase, insert_range}

-- No element twice.
unfoldable pub is_distinct : List ℕ → Bool
is_distinct [] = true
is_distinct (x ∷ xs) = not (contains x xs) && is_distinct xs

pub contains-insert :
    (x : ℕ) (xs : List ℕ) (s : ℕ) → contains s (insert x xs) ≡ ((s == x) || contains s xs)
unfolding insert contains
contains-insert x xs s = elim (Bool-cases (contains x xs)) [
  | inl there ↦ rw there (elim (Bool-cases (s == x)) [
    | inl same ↦ let e : s ≡ x = ground arith in rw e (rw there (ground arith))
    | inr other ↦ rw other refl
  ])
  | inr new ↦ rw new refl
]

pub contains-insert_range :
    (missing n : ℕ) (xs : List ℕ) (s : ℕ)
    → contains s (insert_range missing n xs)
      ≡ ((leb missing s && ltb s (missing + n)) || contains s xs)
unfolding insert_range
contains-insert_range missing zero xs s = ground arith
contains-insert_range missing (suc n) xs s =
    contains-insert_range (missing + 1) n (insert missing xs) s
    ∙ ground (arith, contains-insert missing xs s)

-- A range above every element adds as many elements as it has numbers.
pub insert_range_above :
    (missing n : ℕ) (xs : List ℕ)
    → ((s : ℕ) → contains s xs ≡ true → s < missing)
    → is_distinct xs ≡ true
    → (is_distinct (insert_range missing n xs) ≡ true)
      × (length (insert_range missing n xs) ≡ length xs + n)
unfolding insert_range insert is_distinct contains
insert_range_above missing zero xs below d = (d, omega arith)
insert_range_above missing (suc n) xs below d = elim (Bool-cases (contains missing xs)) [
  | inl there ↦ let h : missing < missing = below missing there in absurd (omega arith)
  | inr new ↦ rw new (
      let (distinct, len) = insert_range_above (missing + 1) n (missing ∷ xs) above (rw new d) in
      (distinct, omega arith))
]
  where
    above : (s : ℕ) → contains s (missing ∷ xs) ≡ true → s < missing + 1
    above s h = elim (Bool-cases (s == missing)) [
      | inl e ↦ ground arith
      | inr e ↦ let l : s < missing = below s (rw e at h) in omega arith
    ]

pub contains-erase :
    (r : ℕ) (xs : List ℕ) (s : ℕ)
    → is_distinct xs ≡ true
    → contains s (erase r xs) ≡ (contains s xs && not (s == r))
unfolding erase contains is_distinct
contains-erase r [] s d = refl
contains-erase r (x ∷ xs) s d = elim (Bool-cases (contains x xs)) [
  | inl there ↦ absurd (ground (arith, there))
  | inr new ↦ elim (Bool-cases (r == x)) [
    | inl same ↦
        let e : r ≡ x = ground arith in
        rw same (
          rw e (elim (Bool-cases (s == x)) [
            | inl at_x ↦ let e' : s ≡ x = ground arith in rw e' (rw new (ground arith))
            | inr other ↦ rw other (ground arith)
          ]))
    | inr other ↦ rw other (ground (arith, contains-erase r xs s (ground arith)))
  ]
]

pub is_distinct-erase :
    (r : ℕ) (xs : List ℕ) → is_distinct xs ≡ true → is_distinct (erase r xs) ≡ true
unfolding erase contains is_distinct
is_distinct-erase r [] d = refl
is_distinct-erase r (x ∷ xs) d = elim (Bool-cases (r == x)) [
  | inl same ↦ rw same (ground arith)
  | inr other ↦
      rw other (
        ground (arith, contains-erase r xs x (ground arith), is_distinct-erase r xs (ground arith)))
]

pub length-erase :
    (r : ℕ) (xs : List ℕ) → length (erase r xs) + (if contains r xs then 1 else 0) ≡ length xs
unfolding erase contains
length-erase r [] = refl
length-erase r (x ∷ xs) = ground (arith, length-erase r xs)
