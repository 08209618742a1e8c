-- ===== src/Prelude/Sort.antt =====
-- A stable insertion sort by a Boolean order, as `Array.prototype.sort` and `ORDER BY` use it.
use Prim.Native.Nat.{suc}
use mathlib.Core.Path.{◌≡◌, refl, ap, ◌∙◌}
use mathlib.Core.Logic.{inl, inr}
use mathlib.Core.Bool.{Bool, true, false, ◌||◌}
use mathlib.Core.List.{List, [], ◌∷◌, Perm}
use mathlib.Core.List.Perm
use native.Mathlib.Omega.{arith}
use zkvote.Prelude.Tests.{if◌then◌else◌, Bool-cases}
use zkvote.Prelude.Lists.{length, any}

module _ {ℓ} {A : Type ℓ} (le : A → A → Bool) where
  unfoldable pub insert_by : A → List A → List A
  insert_by x [] = x ∷ []
  insert_by x (y ∷ ys) = if le x y then x ∷ y ∷ ys else y ∷ insert_by x ys

  unfoldable pub sort_by : List A → List A
  unfolding insert_by
  sort_by [] = []
  sort_by (x ∷ xs) = insert_by x (sort_by xs)

  -- Each item is at most the next one.
  abbrev pub AtMostHead : A → List A → Type 0
  AtMostHead x [] = Unit
  AtMostHead x (y ∷ ys) = le x y ≡ true

  abbrev pub IsSorted : List A → Type 0
  IsSorted [] = Unit
  IsSorted (x ∷ xs) = AtMostHead x xs × IsSorted xs

  insert_by-perm : (x : A) (ys : List A) → Perm (insert_by x ys) (x ∷ ys)
  unfolding insert_by
  insert_by-perm x [] = Perm.refl _
  insert_by-perm x (y ∷ ys) = elim (Bool-cases (le x y)) [
    | inl h ↦ rw h (Perm.refl _)
    | inr h ↦ rw h (Perm.trans (Perm.cons y (insert_by-perm x ys)) (Perm.swap x y ys))
  ]

  pub sort_by-perm : (xs : List A) → Perm (sort_by xs) xs
  unfolding sort_by
  sort_by-perm [] = Perm.refl _
  sort_by-perm (x ∷ xs) = Perm.trans (insert_by-perm x (sort_by xs)) (Perm.cons x (sort_by-perm xs))

  length-insert_by : (x : A) (ys : List A) → length (insert_by x ys) ≡ suc (length ys)
  unfolding insert_by
  length-insert_by x [] = refl
  length-insert_by x (y ∷ ys) = ground (arith, length-insert_by x ys)

  pub length-sort_by : (xs : List A) → length (sort_by xs) ≡ length xs
  unfolding sort_by
  length-sort_by [] = refl
  length-sort_by (x ∷ xs) = omega (arith, length-insert_by x (sort_by xs), length-sort_by xs)

module _ {ℓ} {A : Type ℓ} (le : A → A → Bool) where
  insert_by_first : (x : A) (xs : List A) → AtMostHead le x xs → insert_by le x xs ≡ x ∷ xs
  unfolding insert_by
  insert_by_first x [] h = refl
  insert_by_first x (y ∷ xs) h = rw h refl

  pub sort_by_sorted : (xs : List A) → IsSorted le xs → sort_by le xs ≡ xs
  unfolding sort_by
  sort_by_sorted [] h = refl
  sort_by_sorted (x ∷ xs) (h, k) = rw (sort_by_sorted xs k) (insert_by_first x xs h)

module _ {ℓ} {A : Type ℓ} (le : A → A → Bool) (p : A → Bool) where
  any-insert_by : (x : A) (ys : List A) → any p (insert_by le x ys) ≡ (p x || any p ys)
  unfolding insert_by
  any-insert_by x [] = refl
  any-insert_by x (y ∷ ys) = ground (arith, any-insert_by x ys)

  pub any-sort_by : (xs : List A) → any p (sort_by le xs) ≡ any p xs
  unfolding sort_by
  any-sort_by [] = refl
  any-sort_by (x ∷ xs) = any-insert_by x (sort_by le xs) ∙ ap (λ b. p x || b) (any-sort_by xs)

module _ {ℓ} {A : Type ℓ} (le : A → A → Bool)
    (total : (x y : A) → le x y ≡ false → le y x ≡ true) where
  AtMostHead-insert_by :
      (z x : A) (ys : List A)
      → le z x ≡ true
      → AtMostHead le z ys
      → AtMostHead le z (insert_by le x ys)
  unfolding insert_by
  AtMostHead-insert_by z x [] h k = h
  AtMostHead-insert_by z x (y ∷ ys) h k = elim (Bool-cases (le x y)) [
    | inl b ↦ rw b h
    | inr b ↦ rw b k
  ]

  insert_by-IsSorted : (x : A) (ys : List A) → IsSorted le ys → IsSorted le (insert_by le x ys)
  unfolding insert_by
  insert_by-IsSorted x [] h = (tt, tt)
  insert_by-IsSorted x (y ∷ ys) h = elim (Bool-cases (le x y)) [
    | inl b ↦ rw b (b, h)
    | inr b ↦ rw b (AtMostHead-insert_by y x ys (total x y b) h.0, insert_by-IsSorted x ys h.1)
  ]

  pub sort_by-IsSorted : (xs : List A) → IsSorted le (sort_by le xs)
  unfolding sort_by
  sort_by-IsSorted [] = tt
  sort_by-IsSorted (x ∷ xs) = insert_by-IsSorted x (sort_by le xs) (sort_by-IsSorted xs)
