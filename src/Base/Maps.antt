-- ===== src/Base/Maps.antt =====
-- The maps and sets of the C++ library as lists of entries. `assign` keeps the place of a key
-- (`std::unordered_map`, whose order of entries is unspecified: here the order of insertion);
-- `insert_sorted` and `assign_sorted` keep the keys ordered (`std::set`, `std::map`).
use mathlib.Core.Path.{◌≡◌, refl}
use mathlib.Core.Bool.{Bool, true, false, ◌||◌}
use mathlib.Core.List.{List, [], ◌∷◌}
use mathlib.Core.Option.{Option, none, some}
use native.Mathlib.Omega.{arith}
use anolis.Base.Tests.{if◌then◌else◌}
use anolis.Base.Keys.{Key, ◌==◌}

abbrev pub Map {ℓ κ} : Type ℓ → Type κ → Type (ℓ ⊔ κ)
Map K V = List (K × V)

module _ {ℓ κ} {K : Type ℓ} {V : Type κ} ⦃e : Key K⦄ where
  unfoldable pub find : K → Map K V → Option V
  find k [] = none
  find k ((j, v) ∷ m) = if j == k then some v else find k m

  unfoldable pub assign : K → V → Map K V → Map K V
  assign k v [] = (k, v) ∷ []
  assign k v ((j, w) ∷ m) = if j == k then (j, v) ∷ m else (j, w) ∷ assign k v m

  unfoldable pub assign_sorted : K → V → Map K V → Map K V
  assign_sorted k v [] = (k, v) ∷ []
  assign_sorted k v ((j, w) ∷ m) =
      if j == k
      then (j, v) ∷ m
      else if e.blt k j
      then (k, v) ∷ (j, w) ∷ m
      else (j, w) ∷ assign_sorted k v m

  unfoldable pub erase : K → Map K V → Map K V
  erase k [] = []
  erase k ((j, w) ∷ m) = if j == k then erase k m else (j, w) ∷ erase k m

  pub find-assign :
      (k j : K) (v : V) (m : Map K V)
      → find j (assign k v m) ≡ (if k == j then some v else find j m)
  unfolding find assign
  find-assign k j v [] = refl
  find-assign k j v ((i, w) ∷ m) =
      ground (arith, e.beq_iff k j, e.beq_iff i k, e.beq_iff i j, find-assign k j v m)

  pub find-assign_sorted :
      (k j : K) (v : V) (m : Map K V)
      → find j (assign_sorted k v m) ≡ (if k == j then some v else find j m)
  unfolding find assign_sorted
  find-assign_sorted k j v [] = refl
  find-assign_sorted k j v ((i, w) ∷ m) =
      ground (arith, e.beq_iff k j, e.beq_iff i k, e.beq_iff i j, find-assign_sorted k j v m)

  pub find-erase :
      (k j : K) (m : Map K V) → find j (erase k m) ≡ (if k == j then none else find j m)
  unfolding find erase
  find-erase k j [] = ground arith
  find-erase k j ((i, w) ∷ m) =
      ground (arith, e.beq_iff k j, e.beq_iff i k, e.beq_iff i j, find-erase k j m)

module _ {ℓ} {K : Type ℓ} ⦃e : Key K⦄ where
  pub beq_refl : (k : K) → (k == k) ≡ true
  beq_refl k = (e.beq_iff k k).1 refl

  -- `count(k) != 0`, `contains(k)`.
  unfoldable pub contains : K → List K → Bool
  contains k [] = false
  contains k (j ∷ s) = j == k || contains k s

  unfoldable pub insert_sorted : K → List K → List K
  insert_sorted k [] = k ∷ []
  insert_sorted k (j ∷ s) =
      if j == k then j ∷ s else if e.blt k j then k ∷ j ∷ s else j ∷ insert_sorted k s

  pub contains-insert_sorted :
      (k j : K) (s : List K) → contains j (insert_sorted k s) ≡ (k == j || contains j s)
  unfolding contains insert_sorted
  contains-insert_sorted k j [] = refl
  contains-insert_sorted k j (i ∷ s) =
      ground (arith, e.beq_iff k j, e.beq_iff i k, e.beq_iff i j, contains-insert_sorted k j s)
