-- ===== src/Transport/Rank.antt =====
-- The ranks of the elements of an ordered list, for `measure` of desktop/src/ClockSyncTransport.cpp.
use sync_bluetooth_devices.Common.{
  ℕ, zero, suc, ◌+◌, ◌<◌, ◌≤◌, ◌≡◌, ◌⊎◌, inl, inr, refl, Bool, true, false, List, [], ◌∷◌, length,
  take, drop, get_or, min, All, arith,
}
use sync_bluetooth_devices.Sync.{ClockSyncEstimate}
use sync_bluetooth_devices.Transport.{IsOrdered, count}

-- Some element has it.
abbrev pub Any {ℓ} : {A : Type ℓ} → (A → Type 0) → List A → Type 0
Any P [] = true ≡ false
Any P (x ∷ xs) = P x ⊎ Any P xs

pub All-map {ℓ} :
    {A : Type ℓ} (P Q : A → Type 0) (xs : List A) → ((x : A) → P x → Q x) → All P xs → All Q xs
All-map P Q [] f h = tt
All-map P Q (x ∷ xs) f h = (f x h.0, All-map P Q xs f h.1)

-- Every element is related to one of the list.
pub All-Any {ℓ} :
    {A : Type ℓ} (R : A → A → Type 0) (xs : List A) → ((x : A) → R x x) → All (λ x. Any (R x) xs) xs
All-Any R [] r = tt
All-Any R (x ∷ xs) r = (
  inl (r x),
  All-map (λ y. Any (R y) xs) (λ y. Any (R y) (x ∷ xs)) xs (λ y h. inr h) (All-Any R xs r),
)

pub All-take {ℓ} :
    {A : Type ℓ} (P : A → Type 0) (n : ℕ) (xs : List A) → All P xs → All P (take n xs)
All-take P zero xs h = tt
All-take P (suc n) [] h = tt
All-take P (suc n) (x ∷ xs) h = (h.0, All-take P n xs h.1)

pub All-drop {ℓ} :
    {A : Type ℓ} (P : A → Type 0) (n : ℕ) (xs : List A) → All P xs → All P (drop n xs)
All-drop P zero xs h = h
All-drop P (suc n) [] h = tt
All-drop P (suc n) (x ∷ xs) h = All-drop P n xs h.1

pub All-get_or {ℓ} :
    {A : Type ℓ} (P : A → Type 0) (xs : List A) (i : ℕ) (d : A)
    → i < length xs
    → All P xs
    → P (get_or xs i d)
All-get_or P [] i d h all = absurd (omega arith)
All-get_or P (x ∷ xs) zero d h all = all.0
All-get_or P (x ∷ xs) (suc i) d h all = All-get_or P xs i d (omega arith) all.1

pub length-take {ℓ} : {A : Type ℓ} (n : ℕ) (xs : List A) → length (take n xs) ≡ min n (length xs)
length-take zero xs = omega arith
length-take (suc n) [] = omega arith
length-take (suc n) (x ∷ xs) = omega (arith, length-take n xs)

pub count_parts :
    (test : ClockSyncEstimate → Bool) (n : ℕ) (xs : List ClockSyncEstimate)
    → count test (take n xs) + count test (drop n xs) ≡ count test xs
unfolding count
count_parts test zero xs = omega arith
count_parts test (suc n) [] = refl
count_parts test (suc n) (x ∷ xs) = omega (arith, count_parts test n xs)

pub count_le :
    (test : ClockSyncEstimate → Bool) (xs : List ClockSyncEstimate) → count test xs ≤ length xs
unfolding count
count_le test [] = omega arith
count_le test (x ∷ xs) = let more = count_le test xs in ground arith

count_none :
    (test : ClockSyncEstimate → Bool) (xs : List ClockSyncEstimate)
    → All (λ x. test x ≡ false) xs
    → count test xs ≡ 0
unfolding count
count_none test [] h = refl
count_none test (x ∷ xs) h = rw (h.0) (omega (arith, count_none test xs h.1))

module _ (less : ClockSyncEstimate → ClockSyncEstimate → Bool)
    (irrefl : (a : ClockSyncEstimate) → less a a ≡ false) where
  -- Those ahead of a part of an ordered list are not behind any of the rest.
  pub drop_behind_take :
      (n : ℕ) (xs : List ClockSyncEstimate)
      → IsOrdered less xs
      → All (λ a. All (λ b. less b a ≡ false) (drop n xs)) (take n xs)
  drop_behind_take zero xs o = tt
  drop_behind_take (suc n) [] o = tt
  drop_behind_take (suc n) (x ∷ xs) o = (All-drop _ n xs o.0, drop_behind_take n xs o.1)

  -- At most `i` elements are less than the one at `i`, ...
  pub count_less :
      (xs : List ClockSyncEstimate) (i : ℕ) (d : ClockSyncEstimate)
      → i < length xs
      → IsOrdered less xs
      → count (λ s. less s (get_or xs i d)) xs ≤ i
  unfolding count
  count_less [] i d h o = omega arith
  count_less (x ∷ xs) zero d h o = rw (irrefl x, count_none (λ s. less s x) xs o.0) (omega arith)
  count_less (x ∷ xs) (suc i) d h o = let more = count_less xs i d (omega arith) o.1 in ground arith

  -- ... and it is less than at most those behind it.
  pub count_greater :
      (xs : List ClockSyncEstimate) (i : ℕ) (d : ClockSyncEstimate)
      → i < length xs
      → IsOrdered less xs
      → count (λ s. less (get_or xs i d) s) xs + i + 1 ≤ length xs
  unfolding count
  count_greater [] i d h o = absurd (omega arith)
  count_greater (x ∷ xs) zero d h o =
      let more = count_le (λ s. less x s) xs in rw (irrefl x) (omega arith)
  count_greater (x ∷ xs) (suc i) d h o =
      let more = count_greater xs i d (omega arith) o.1 in
      let not_before : less (get_or xs i d) x ≡ false = All-get_or _ xs i d (omega arith) o.0 in
      rw not_before (omega arith)
