-- ===== src/Common/Floats.antt =====
-- `double` as the program uses it: an abstract type with its operations, and the few laws that IEEE
-- arithmetic keeps for every value, NaN included.
use Prim.Native.Nat.{ℕ}
use mathlib.Core.Path.{◌≡◌}
use mathlib.Core.Bool.{Bool, true}
use sync_bluetooth_devices.Common.Int.{ℤ}
use sync_bluetooth_devices.Common.Tests.{if◌then◌else◌}

pub record Floats : Type 1 where
  pub Double : Type 0
  -- The literal `n / d`, as 1/4 for `0.25`.
  pub lit : ℕ → ℕ → Double
  -- `static_cast<double>` of an integer.
  pub of_int : ℤ → Double
  pub add : Double → Double → Double
  pub sub : Double → Double → Double
  pub mul : Double → Double → Double
  pub div : Double → Double → Double
  pub abs : Double → Double
  pub neg : Double → Double
  pub ltb : Double → Double → Bool
  pub leb : Double → Double → Bool
  pub is_finite : Double → Bool
  pub ltb_trans : (x y z : Double) → ltb x y ≡ true → ltb y z ≡ true → ltb x z ≡ true
  -- Adding a literal, which is not negative, does not make a value smaller, nor does taking one
  -- away make it larger.
  pub add_lit : (n d : ℕ) (x y : Double) → ltb (add x (lit n d)) y ≡ true → ltb x y ≡ true
  pub sub_lit : (n d : ℕ) (x y : Double) → ltb y (sub x (lit n d)) ≡ true → ltb y x ≡ true

module _ (F : Floats) where
  open F use {Double, ltb}

  -- `std::min`, `std::max` and `std::clamp`.
  abbrev pub fmin : Double → Double → Double
  fmin a b = if ltb b a then b else a

  abbrev pub fmax : Double → Double → Double
  fmax a b = if ltb a b then b else a

  abbrev pub clamp : Double → Double → Double → Double
  clamp v low high = if ltb v low then low else if ltb high v then high else v
