-- ===== src/Impairment/Delivery.antt =====
-- What `drain` of desktop/src/NetworkImpairment.cpp delivers.
use sync_bluetooth_devices.Common.{
  ℕ, ◌+◌, ◌≤◌, ◌≡◌, ◌⊎◌, refl, Bool, true, false, Bool-cases, inl, inr, List, [], ◌∷◌,
  if◌then◌else◌, All, arith,
}
use sync_bluetooth_devices.Common.Int.{ℤ, leb_ℤ, ltb_ℤ, ◌≤ℤ◌, ◌<ℤ◌}
use sync_bluetooth_devices.Common.Floats.{Floats}
use sync_bluetooth_devices.Impairment.{
  ImpairedDatagram, NetworkImpairment, Random, is_before, insert_sorted, stable_sort, partition_due,
  drain,
}

-- How many of a list pass a test.
unfoldable pub count : (ImpairedDatagram → Bool) → List ImpairedDatagram → ℕ
count test [] = 0
count test (d ∷ ds) = (if test d then 1 else 0) + count test ds

-- None stands behind one that is to come after it.
abbrev pub IsOrdered : List ImpairedDatagram → Type 0
IsOrdered [] = Unit {0}
IsOrdered (d ∷ ds) = All (λ x. is_before x d ≡ false) ds × IsOrdered ds

-- Delivered earlier, or at one time with no higher sequence number.
abbrev pub Precedes : ImpairedDatagram → ImpairedDatagram → Type 0
Precedes d x =
    (d.delivery_time <ℤ x.delivery_time)
    ⊎ ((d.delivery_time ≤ℤ x.delivery_time) × (d.sequence ≤ x.sequence))

-- Each datagram precedes those behind it.
abbrev pub InOrder : List ImpairedDatagram → Type 0
InOrder [] = Unit {0}
InOrder (d ∷ ds) = All (λ x. Precedes d x) ds × InOrder ds

is_before-Precedes : (d x : ImpairedDatagram) → is_before x d ≡ false → Precedes d x
is_before-Precedes d x e = elim (Bool-cases (ltb_ℤ d.delivery_time x.delivery_time)) [
  | inl earlier ↦ inl (ground (arith, earlier))
  | inr same ↦ inr (ground (arith, e, same), ground (arith, e, same))
]

IsOrdered-InOrder : (ds : List ImpairedDatagram) → IsOrdered ds → InOrder ds
IsOrdered-InOrder [] h = tt
IsOrdered-InOrder (d ∷ ds) h = (each ds h.0, IsOrdered-InOrder ds h.1)
  where
    each :
        (xs : List ImpairedDatagram)
        → All (λ x. is_before x d ≡ false) xs
        → All (λ x. Precedes d x) xs
    each [] h = tt
    each (x ∷ xs) h = (is_before-Precedes d x h.0, each xs h.1)

All-insert_sorted {κ} :
    (P : ImpairedDatagram → Type κ) (d : ImpairedDatagram) (xs : List ImpairedDatagram)
    → P d
    → All P xs
    → All P (insert_sorted d xs)
unfolding insert_sorted
All-insert_sorted P d [] h hs = (h, tt)
All-insert_sorted P d (x ∷ xs) h hs = elim (Bool-cases (is_before x d)) [
  | inl e ↦ rw e (hs.0, All-insert_sorted P d xs h hs.1)
  | inr e ↦ rw e (h, hs)
]

IsOrdered-insert_sorted :
    (d : ImpairedDatagram) (xs : List ImpairedDatagram)
    → IsOrdered xs
    → IsOrdered (insert_sorted d xs)
unfolding insert_sorted
IsOrdered-insert_sorted d [] h = (tt, tt)
IsOrdered-insert_sorted d (x ∷ xs) h = elim (Bool-cases (is_before x d)) [
  | inl e ↦ rw e (All-insert_sorted _ d xs (asym x d e) h.0, IsOrdered-insert_sorted d xs h.1)
  | inr e ↦ rw e ((e, behind x d xs e h.0), h)
]
  where
    asym : (x d : ImpairedDatagram) → is_before x d ≡ true → is_before d x ≡ false
    asym x d e = ground arith

    trans :
        (y x d : ImpairedDatagram)
        → is_before x d ≡ false
        → is_before y x ≡ false
        → is_before y d ≡ false
    trans y x d e f = ground arith

    behind :
        (x d : ImpairedDatagram) (ys : List ImpairedDatagram)
        → is_before x d ≡ false
        → All (λ y. is_before y x ≡ false) ys
        → All (λ y. is_before y d ≡ false) ys
    behind x d [] e h = tt
    behind x d (y ∷ ys) e h = (trans y x d e h.0, behind x d ys e h.1)

IsOrdered-stable_sort : (ds : List ImpairedDatagram) → IsOrdered (stable_sort ds)
unfolding stable_sort
IsOrdered-stable_sort [] = tt
IsOrdered-stable_sort (d ∷ ds) =
    IsOrdered-insert_sorted d (stable_sort ds) (IsOrdered-stable_sort ds)

All-stable_sort {κ} :
    (P : ImpairedDatagram → Type κ) (ds : List ImpairedDatagram) → All P ds → All P (stable_sort ds)
unfolding stable_sort
All-stable_sort P [] h = tt
All-stable_sort P (d ∷ ds) h = All-insert_sorted P d (stable_sort ds) h.0 (All-stable_sort P ds h.1)

count-insert_sorted :
    (test : ImpairedDatagram → Bool) (d : ImpairedDatagram) (xs : List ImpairedDatagram)
    → count test (insert_sorted d xs) ≡ (if test d then 1 else 0) + count test xs
unfolding insert_sorted count
count-insert_sorted test d [] = refl
count-insert_sorted test d (x ∷ xs) = elim (Bool-cases (is_before x d)) [
  | inl e ↦ rw e (omega (arith, count-insert_sorted test d xs))
  | inr e ↦ rw e refl
]

count-stable_sort :
    (test : ImpairedDatagram → Bool) (ds : List ImpairedDatagram)
    → count test (stable_sort ds) ≡ count test ds
unfolding stable_sort count
count-stable_sort test [] = refl
count-stable_sort test (d ∷ ds) =
    omega (arith, count-insert_sorted test d (stable_sort ds), count-stable_sort test ds)

partition_due_lem :
    (test : ImpairedDatagram → Bool) (now : ℤ) (ds : List ImpairedDatagram)
    → let (ready, rest) = partition_due now ds in
      All (λ d. leb_ℤ d.delivery_time now ≡ true) ready
      × All (λ d. leb_ℤ d.delivery_time now ≡ false) rest
      × (count test ready + count test rest ≡ count test ds)
unfolding partition_due count
partition_due_lem test now [] = (tt, tt, refl)
partition_due_lem test now (d ∷ ds) =
    let (h₁, h₂, h₃) = partition_due_lem test now ds in
    elim (Bool-cases (leb_ℤ d.delivery_time now)) [
      | inl e ↦ rw e ((e, h₁), h₂, omega (arith, h₃))
      | inr e ↦ rw e (h₁, (e, h₂), omega (arith, h₃))
    ]

module _ (F : Floats) (S : Random F.Double) where
  open F use {Double}
  open S use {Generator}

  -- What is delivered at a time is all that is due by then, in the order of delivery times and, at
  -- one time, of sequence numbers; what stays is not due; and every datagram that was pending is
  -- delivered or stays, as often as it was there.
  pub drain-IsOrdered :
      (n : NetworkImpairment Double Generator) (now : ℤ) (test : ImpairedDatagram → Bool)
      → InOrder (drain F S n now).0
        × All (λ d. leb_ℤ d.delivery_time now ≡ true) (drain F S n now).0
        × All (λ d. leb_ℤ d.delivery_time now ≡ false) (drain F S n now).1.pending
        × (count test (drain F S n now).0 + count test (drain F S n now).1.pending
            ≡ count test n.pending)
  unfolding drain
  drain-IsOrdered n now test =
      let (h₁, h₂, h₃) = partition_due_lem test now n.pending in
      (
        IsOrdered-InOrder _ (IsOrdered-stable_sort _),
        All-stable_sort _ _ h₁,
        h₂,
        omega (arith, h₃, count-stable_sort test (partition_due now n.pending).0),
      )
