-- ===== src/Prelude/Sorting.antt =====
-- `sorted`, for values that an order test compares.
use Prim.Native.Nat.{◌+◌}
use mathlib.Core.Path.{◌≡◌, refl}
use mathlib.Core.Bool.{Bool, true, false, not, ◌&&◌, ◌||◌}
use mathlib.Core.Logic.{inl, inr}
use mathlib.Core.List.{List, [], ◌∷◌}
use native.Mathlib.Omega.{arith}
use night_recon.Prelude.Tests.{Bool-cases, if◌then◌else◌}
use night_recon.Prelude.Equality.{Eq, ◌==◌}
use night_recon.Prelude.Lists.{All, contains, length, unique}

module _ {ℓ} {A : Type ℓ} (le : A → A → Bool) where
  unfoldable pub insort : A → List A → List A
  insort a [] = a ∷ []
  insort a (x ∷ xs) = if le a x then a ∷ x ∷ xs else x ∷ insort a xs

  -- equal keys keep their order, as Python's sort does
  unfoldable pub sorted : List A → List A
  unfolding insort
  sorted [] = []
  sorted (x ∷ xs) = insort x (sorted xs)

module _ {ℓ} {A : Type ℓ} (le : A → A → Bool) where
  length-insort : (a : A) (xs : List A) → length (insort le a xs) ≡ length xs + 1
  unfolding insort
  length-insort a [] = refl
  length-insort a (x ∷ xs) = ground (arith, length-insort a xs)

  pub length-sorted : (xs : List A) → length (sorted le xs) ≡ length xs
  unfolding sorted
  length-sorted [] = refl
  length-sorted (x ∷ xs) = ground (arith, length-insort x (sorted le xs), length-sorted xs)

  All-insort {κ} : (P : A → Type κ) (a : A) (xs : List A) → P a → All P xs → All P (insort le a xs)
  unfolding insort
  All-insort P a [] p h = (p, tt)
  All-insort P a (x ∷ xs) p h = elim (Bool-cases (le a x)) [
    | inl b ↦ rw b (p, h)
    | inr b ↦ rw b (h.0, All-insort P a xs p h.1)
  ]

  pub All-sorted {κ} : (P : A → Type κ) (xs : List A) → All P xs → All P (sorted le xs)
  unfolding sorted
  All-sorted P [] h = tt
  All-sorted P (x ∷ xs) h = All-insort P x (sorted le xs) h.0 (All-sorted P xs h.1)

-- Each item comes before the one that follows it.
abbrev pub IsOrdered {ℓ} : {A : Type ℓ} → (A → A → Bool) → List A → Type 0
IsOrdered le [] = Unit
IsOrdered le (x ∷ []) = Unit
IsOrdered le (x ∷ y ∷ xs) = (le x y ≡ true) × IsOrdered le (y ∷ xs)

module _ {ℓ} {A : Type ℓ} (le : A → A → Bool) where
  IsOrdered-insort :
      ((x y : A) → le x y ≡ false → le y x ≡ true)
      → (a : A) (xs : List A) → IsOrdered le xs
      → IsOrdered le (insort le a xs)
  unfolding insort
  IsOrdered-insort total a [] h = tt
  IsOrdered-insort total a (x ∷ []) h = elim (Bool-cases (le a x)) [
    | inl b ↦ rw b (b, tt)
    | inr b ↦ rw b (total a x b, tt)
  ]
  IsOrdered-insort total a (x ∷ y ∷ xs) (h, hs) = elim (Bool-cases (le a x)) [
    | inl b ↦ rw b (b, (h, hs))
    | inr b ↦
        let rest : IsOrdered le (insort le a (y ∷ xs)) = IsOrdered-insort total a (y ∷ xs) hs in
        elim (Bool-cases (le a y)) [
          | inl c ↦ rw (b, c) (total a x b, (c, hs))
          | inr c ↦ rw (b, c) (h, rw c at rest)
        ]
  ]

  IsOrdered-sorted :
      ((x y : A) → le x y ≡ false → le y x ≡ true) → (xs : List A) → IsOrdered le (sorted le xs)
  unfolding sorted
  IsOrdered-sorted total [] = tt
  IsOrdered-sorted total (x ∷ xs) =
      IsOrdered-insort total x (sorted le xs) (IsOrdered-sorted total xs)

  sorted_of_ordered : (xs : List A) → IsOrdered le xs → sorted le xs ≡ xs
  unfolding sorted
  sorted_of_ordered [] h = refl
  sorted_of_ordered (x ∷ []) h = refl
  sorted_of_ordered (x ∷ y ∷ xs) (h, hs) = rw (sorted_of_ordered (y ∷ xs) hs, h)

  -- For an order in which any two items compare, sorting twice is sorting once.
  pub sorted_twice :
      ((x y : A) → le x y ≡ false → le y x ≡ true)
      → (xs : List A) → sorted le (sorted le xs) ≡ sorted le xs
  sorted_twice total xs = sorted_of_ordered (sorted le xs) (IsOrdered-sorted total xs)

module _ {ℓ} {A : Type ℓ} ⦃e : Eq A⦄ (le : A → A → Bool) where
  contains-insort :
      (a b : A) (xs : List A) → contains a (insort le b xs) ≡ (b == a || contains a xs)
  unfolding insort contains
  contains-insort a b [] = refl
  contains-insort a b (x ∷ xs) = ground (arith, contains-insort a b xs)

  pub contains-sorted : (a : A) (xs : List A) → contains a (sorted le xs) ≡ contains a xs
  unfolding sorted contains
  contains-sorted a [] = refl
  contains-sorted a (x ∷ xs) =
      ground (arith, contains-insort a x (sorted le xs), contains-sorted a xs)

  unique-insort :
      (a : A) (xs : List A) → unique (insort le a xs) ≡ (not (contains a xs) && unique xs)
  unfolding insort contains unique
  unique-insort a [] = refl
  unique-insort a (x ∷ xs) =
      ground (arith, unique-insort a xs, contains-insort x a xs, e.equal_iff x a, e.equal_iff a x)

  pub unique-sorted : (xs : List A) → unique (sorted le xs) ≡ unique xs
  unfolding sorted unique
  unique-sorted [] = refl
  unique-sorted (x ∷ xs) =
      ground (arith, unique-insort x (sorted le xs), unique-sorted xs, contains-sorted x xs)
