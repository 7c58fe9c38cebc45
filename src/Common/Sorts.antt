-- ===== src/Common/Sorts.antt =====
-- sort.Slice: an insertion sort, by a number and by a comparison.
use mathlib.Core.Path.{◌≡◌, refl}
use mathlib.Core.Logic.{inl, inr}
use mathlib.Core.Bool.{Bool, true, false, ◌||◌}
use mathlib.Core.List.{List, [], ◌∷◌}
use native.Mathlib.Omega.{arith}
use snmp_olt_zte.Common.Tests.{if◌then◌else◌, Bool-cases}
use snmp_olt_zte.Common.Lists.{All}
use snmp_olt_zte.Common.Int.{ℤ, ltb_ℤ, ◌≤ℤ◌}

abbrev pub any {ℓ} : {A : Type ℓ} → (A → Bool) → List A → Bool
any f [] = false
any f (x ∷ xs) = f x || any f xs

module _ {ℓ} {A : Type ℓ} (key : A → ℤ) where
  unfoldable pub insert_by : A → List A → List A
  insert_by x [] = x ∷ []
  insert_by x (y ∷ ys) =
      let rest = insert_by x ys in if ltb_ℤ (key y) (key x) then y ∷ rest else x ∷ y ∷ ys

  unfoldable pub sort_by : List A → List A
  unfolding insert_by
  sort_by [] = []
  sort_by (x ∷ xs) = insert_by x (sort_by xs)

  -- Each key is at most the next.
  abbrev pub IsSorted : List A → Type 0
  IsSorted [] = Unit
  IsSorted (x ∷ []) = Unit
  IsSorted (x ∷ y ∷ ys) = (key x ≤ℤ key y) × IsSorted (y ∷ ys)

  any-insert_by : (f : A → Bool) (x : A) (xs : List A) → any f (insert_by x xs) ≡ any f (x ∷ xs)
  unfolding insert_by
  any-insert_by f x [] = refl
  any-insert_by f x (y ∷ ys) = ground (arith, any-insert_by f x ys)

  -- Sorting keeps the elements.
  pub any-sort_by : (f : A → Bool) (xs : List A) → any f (sort_by xs) ≡ any f xs
  unfolding sort_by
  any-sort_by f [] = refl
  any-sort_by f (x ∷ xs) = ground (arith, any-insert_by f x (sort_by xs), any-sort_by f xs)

  insert_by-IsSorted : (x : A) (xs : List A) → IsSorted xs → IsSorted (insert_by x xs)
  unfolding insert_by
  insert_by-IsSorted x [] h = tt
  insert_by-IsSorted x (y ∷ []) h = elim (Bool-cases (ltb_ℤ (key y) (key x))) [
    | inl after ↦ rw after (ground arith, tt)
    | inr before ↦ rw before (ground arith, tt)
  ]
  insert_by-IsSorted x (y ∷ z ∷ zs) (h, hs) = elim (Bool-cases (ltb_ℤ (key y) (key x))) [
    | inr before ↦ rw before (ground arith, (h, hs))
    | inl after ↦ rw after (elim (Bool-cases (ltb_ℤ (key z) (key x))) [
      | inl later ↦ rw later (h, rw later at (insert_by-IsSorted x (z ∷ zs) hs))
      | inr here ↦ rw here (ground arith, (ground arith, hs))
    ])
  ]

  -- The result is sorted.
  pub sort_by-IsSorted : (xs : List A) → IsSorted (sort_by xs)
  unfolding sort_by
  sort_by-IsSorted [] = tt
  sort_by-IsSorted (x ∷ xs) = insert_by-IsSorted x (sort_by xs) (sort_by-IsSorted xs)

  -- A sorted list stays as it is.
  pub sort_by_of_IsSorted : (xs : List A) → IsSorted xs → sort_by xs ≡ xs
  unfolding sort_by insert_by
  sort_by_of_IsSorted [] h = refl
  sort_by_of_IsSorted (x ∷ []) h = refl
  sort_by_of_IsSorted (x ∷ y ∷ ys) (h, hs) = rw (sort_by_of_IsSorted (y ∷ ys) hs) (ground arith)

-- sort.Slice by a comparison.
module _ {ℓ} {A : Type ℓ} (less : A → A → Bool) where
  unfoldable pub insert_less : A → List A → List A
  insert_less x [] = x ∷ []
  insert_less x (y ∷ ys) = let rest = insert_less x ys in if less y x then y ∷ rest else x ∷ y ∷ ys

  unfoldable pub sort_less : List A → List A
  unfolding insert_less
  sort_less [] = []
  sort_less (x ∷ xs) = insert_less x (sort_less xs)

  -- No element is before its predecessor.
  abbrev pub InOrder : List A → Type 0
  InOrder [] = Unit
  InOrder (x ∷ []) = Unit
  InOrder (x ∷ y ∷ ys) = (less y x ≡ false) × InOrder (y ∷ ys)

  insert_less-InOrder :
      ((x y : A) → less x y ≡ true → less y x ≡ false)
      → (x : A) (xs : List A) → InOrder xs
      → InOrder (insert_less x xs)
  unfolding insert_less
  insert_less-InOrder asym x [] h = tt
  insert_less-InOrder asym x (y ∷ []) h = elim (Bool-cases (less y x)) [
    | inl after ↦ rw after (asym y x after, tt)
    | inr before ↦ rw before (before, tt)
  ]
  insert_less-InOrder asym x (y ∷ z ∷ zs) (h, hs) = elim (Bool-cases (less y x)) [
    | inr before ↦ rw before (before, (h, hs))
    | inl after ↦ rw after (elim (Bool-cases (less z x)) [
      | inl later ↦ rw later (h, rw later at (insert_less-InOrder asym x (z ∷ zs) hs))
      | inr here ↦ rw here (asym y x after, (here, hs))
    ])
  ]

  pub sort_less-InOrder :
      ((x y : A) → less x y ≡ true → less y x ≡ false) → (xs : List A) → InOrder (sort_less xs)
  unfolding sort_less
  sort_less-InOrder asym [] = tt
  sort_less-InOrder asym (x ∷ xs) =
      insert_less-InOrder asym x (sort_less xs) (sort_less-InOrder asym xs)

module _ {ℓ} {A : Type ℓ} (less : A → A → Bool) where
  any-insert_less :
      (f : A → Bool) (x : A) (xs : List A) → any f (insert_less less x xs) ≡ any f (x ∷ xs)
  unfolding insert_less
  any-insert_less f x [] = refl
  any-insert_less f x (y ∷ ys) = ground (arith, any-insert_less f x ys)

  pub any-sort_less : (f : A → Bool) (xs : List A) → any f (sort_less less xs) ≡ any f xs
  unfolding sort_less
  any-sort_less f [] = refl
  any-sort_less f (x ∷ xs) =
      ground (arith, any-insert_less f x (sort_less less xs), any-sort_less f xs)

module _ {ℓ κ} {A : Type ℓ} (less : A → A → Bool) (P : A → Type κ) where
  insert_less-All : (x : A) (xs : List A) → P x → All P xs → All P (insert_less less x xs)
  unfolding insert_less
  insert_less-All x [] p h = (p, tt)
  insert_less-All x (y ∷ ys) p (h, hs) = elim (Bool-cases (less y x)) [
    | inl after ↦ rw after (h, insert_less-All x ys p hs)
    | inr before ↦ rw before (p, (h, hs))
  ]

  -- Sorting adds nothing.
  pub sort_less-All : (xs : List A) → All P xs → All P (sort_less less xs)
  unfolding sort_less
  sort_less-All [] h = tt
  sort_less-All (x ∷ xs) (p, h) = insert_less-All x (sort_less less xs) p (sort_less-All xs h)
