-- ===== src/Room/Members.antt =====
-- The hash map `members_` of core/include/Room.hpp, as an association list with text keys.
use sync_bluetooth_devices.Common.{
  ◌≡◌, refl, List, [], ◌∷◌, Option, none, some, if◌then◌else◌, Text, text_eq, text_eq_iff, arith,
}

module _ {ℓ} {V : Type ℓ} where
  -- `find`
  unfoldable pub lookup : Text → List (Text × V) → Option V
  lookup k [] = none
  lookup k ((j, v) ∷ m) = if text_eq j k then some v else lookup k m

  unfoldable pub insert_or_assign : Text → V → List (Text × V) → List (Text × V)
  insert_or_assign k v [] = (k, v) ∷ []
  insert_or_assign k v ((j, w) ∷ m) =
      if text_eq j k then (j, v) ∷ m else (j, w) ∷ insert_or_assign k v m

  -- Drops every entry of the key; a map has one at most.
  unfoldable pub erase : Text → List (Text × V) → List (Text × V)
  erase k [] = []
  erase k ((j, v) ∷ m) = if text_eq j k then erase k m else (j, v) ∷ erase k m

  unfoldable pub values : List (Text × V) → List V
  values [] = []
  values ((j, v) ∷ m) = v ∷ values m

  pub lookup-insert_or_assign :
      (k j : Text) (v : V) (m : List (Text × V))
      → lookup j (insert_or_assign k v m) ≡ (if text_eq k j then some v else lookup j m)
  unfolding lookup insert_or_assign
  lookup-insert_or_assign k j v [] = refl
  lookup-insert_or_assign k j v ((i, w) ∷ m) =
      ground
        (arith, text_eq_iff k j, text_eq_iff i k, text_eq_iff i j, lookup-insert_or_assign k j v m)

  pub lookup-erase :
      (k j : Text) (m : List (Text × V))
      → lookup j (erase k m) ≡ (if text_eq k j then none else lookup j m)
  unfolding lookup erase
  lookup-erase k j [] = ground arith
  lookup-erase k j ((i, w) ∷ m) =
      ground (arith, text_eq_iff k j, text_eq_iff i k, text_eq_iff i j, lookup-erase k j m)
