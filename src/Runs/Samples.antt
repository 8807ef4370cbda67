-- ===== src/Runs/Samples.antt =====
-- Two measurements, chosen from with an insertion sort, and a drift estimator's first sample.
use sync_bluetooth_devices.Common.{
  suc, ◌+◌, ◌≡◌, ◌∙◌, inl, inr, refl, ap, Bool, true, false, Bool-cases, List, [], ◌∷◌, length,
  if◌then◌else◌, All, arith, ok,
}
use sync_bluetooth_devices.Common.Int.{pos}
use sync_bluetooth_devices.Sync.{ClockSyncEstimate}
use sync_bluetooth_devices.Transport.{Sort, IsOrdered, count, select_sample}
use sync_bluetooth_devices.Transport.Selection.{IsMeasured, select_sample-IsMeasured}

abbrev Less : Type 0
Less = ClockSyncEstimate → ClockSyncEstimate → Bool

unfoldable insert : Less → ClockSyncEstimate → List ClockSyncEstimate → List ClockSyncEstimate
insert less a [] = a ∷ []
insert less a (x ∷ xs) = let rest = insert less a xs in if less x a then x ∷ rest else a ∷ x ∷ xs

unfoldable insertion_sort : Less → List ClockSyncEstimate → List ClockSyncEstimate
insertion_sort less [] = []
insertion_sort less (x ∷ xs) = insert less x (insertion_sort less xs)

length-insert :
    (less : Less) (a : ClockSyncEstimate) (xs : List ClockSyncEstimate)
    → length (insert less a xs) ≡ suc (length xs)
unfolding insert
length-insert less a [] = refl
length-insert less a (x ∷ xs) = elim (Bool-cases (less x a)) [
  | inl e ↦ rw e (ap suc (length-insert less a xs))
  | inr e ↦ rw e refl
]

length-insertion_sort :
    (less : Less) (xs : List ClockSyncEstimate) → length (insertion_sort less xs) ≡ length xs
unfolding insertion_sort
length-insertion_sort less [] = refl
length-insertion_sort less (x ∷ xs) =
    rw (length-insert less x (insertion_sort less xs)) (ap suc (length-insertion_sort less xs))

All-insert :
    (less : Less) (P : ClockSyncEstimate → Type 0) (a : ClockSyncEstimate)
    (xs : List ClockSyncEstimate)
    → (P a × All P xs → All P (insert less a xs)) × (All P (insert less a xs) → P a × All P xs)
unfolding insert
All-insert less P a [] = (λ h. h, λ h. h)
All-insert less P a (x ∷ xs) = elim (Bool-cases (less x a)) [
  | inl e ↦ rw e (
      let (to, from) = All-insert less P a xs in
      (λ h. (h.1.0, to (h.0, h.1.1)), λ h. let r = from h.1 in (r.0, (h.0, r.1))))
  | inr e ↦ rw e (λ h. h, λ h. h)
]

All-insertion_sort :
    (less : Less) (P : ClockSyncEstimate → Type 0) (xs : List ClockSyncEstimate)
    → (All P xs → All P (insertion_sort less xs)) × (All P (insertion_sort less xs) → All P xs)
unfolding insertion_sort
All-insertion_sort less P [] = (λ h. h, λ h. h)
All-insertion_sort less P (x ∷ xs) =
    let (to, from) = All-insertion_sort less P xs in
    let (in_to, in_from) = All-insert less P x (insertion_sort less xs) in
    (λ h. in_to (h.0, to h.1), λ h. let r = in_from h in (r.0, from r.1))

count-insert :
    (less : Less) (test : ClockSyncEstimate → Bool) (a : ClockSyncEstimate)
    (xs : List ClockSyncEstimate)
    → count test (insert less a xs) ≡ (if test a then 1 else 0) + count test xs
unfolding insert count
count-insert less test a [] = refl
count-insert less test a (x ∷ xs) = elim (Bool-cases (less x a)) [
  | inl e ↦ rw e (omega (arith, count-insert less test a xs))
  | inr e ↦ rw e refl
]

count-insertion_sort :
    (less : Less) (test : ClockSyncEstimate → Bool) (xs : List ClockSyncEstimate)
    → count test (insertion_sort less xs) ≡ count test xs
unfolding insertion_sort count
count-insertion_sort less test [] = refl
count-insertion_sort less test (x ∷ xs) =
    count-insert less test x (insertion_sort less xs)
    ∙ ap (λ n. (if test x then 1 else 0) + n) (count-insertion_sort less test xs)

module _ (less : Less) (asym : (a b : ClockSyncEstimate) → less a b ≡ true → less b a ≡ false)
    (trans : (a b c : ClockSyncEstimate)
      → less b a ≡ false
      → less c b ≡ false
      → less c a ≡ false) where
  behind :
      (a x : ClockSyncEstimate) (xs : List ClockSyncEstimate)
      → less x a ≡ false
      → All (λ y. less y x ≡ false) xs
      → All (λ y. less y a ≡ false) xs
  behind a x [] e h = tt
  behind a x (y ∷ ys) e h = (trans a x y e h.0, behind a x ys e h.1)

  IsOrdered-insert :
      (a : ClockSyncEstimate) (xs : List ClockSyncEstimate)
      → IsOrdered less xs
      → IsOrdered less (insert less a xs)
  unfolding insert
  IsOrdered-insert a [] h = (tt, tt)
  IsOrdered-insert a (x ∷ xs) h = elim (Bool-cases (less x a)) [
    | inl e ↦ rw e ((All-insert less _ a xs).0 (asym x a e, h.0), IsOrdered-insert a xs h.1)
    | inr e ↦ rw e ((e, behind a x xs e h.0), h)
  ]

  IsOrdered-insertion_sort : (xs : List ClockSyncEstimate) → IsOrdered less (insertion_sort less xs)
  unfolding insertion_sort
  IsOrdered-insertion_sort [] = tt
  IsOrdered-insertion_sort (x ∷ xs) =
      IsOrdered-insert x (insertion_sort less xs) (IsOrdered-insertion_sort xs)

abbrev sorts : Sort
sorts = record {
  sort = insertion_sort;
  length-sort = length-insertion_sort;
  All-sort = All-insertion_sort;
  count-sort = count-insertion_sort;
  IsOrdered-sort = λ less xs asym trans. IsOrdered-insertion_sort less asym trans xs;
}

abbrev far : ClockSyncEstimate
far = record {
  host_minus_client_offset = pos 700;
  round_trip_time = pos 900;
  samples = 1;
  client_sample_timestamp_nanoseconds = 1500;
}

abbrev near : ClockSyncEstimate
near = record {
  host_minus_client_offset = pos 500;
  round_trip_time = pos 200;
  samples = 1;
  client_sample_timestamp_nanoseconds = 2500;
}

abbrev middle : ClockSyncEstimate
middle = record {
  host_minus_client_offset = pos 600;
  round_trip_time = pos 300;
  samples = 1;
  client_sample_timestamp_nanoseconds = 3500;
}

select_sample-IsMeasured_example :
    (e : ClockSyncEstimate) × (select_sample sorts (far ∷ near ∷ middle ∷ near ∷ []) ≡ ok e)
    × IsMeasured (far ∷ near ∷ middle ∷ near ∷ []) e
select_sample-IsMeasured_example = select_sample-IsMeasured sorts far (near ∷ middle ∷ near ∷ [])
