-- ===== src/Prelude/Ties.antt =====
-- Sorting where no two items tie: the result does not depend on the order before.
use mathlib.Core.Path.{◌≡◌, refl, sym, ap, ap₂, ◌∙◌}
use mathlib.Core.Logic.{∥∥₁_elim}
use mathlib.Core.Bool.{Bool, true, false, not, ◌&&◌, ◌||◌}
use mathlib.Core.List.{List, [], ◌∷◌, Perm, Permᴰ}
use mathlib.Core.List
use native.Mathlib.Omega.{arith}
use zkvote.Prelude.Lists.{any}
use zkvote.Prelude.Sort.{sort_by, insert_by}

module _ {ℓ} {A : Type ℓ} (le : A → A → Bool) where
  abbrev pub ties : A → A → Bool
  ties x y = le x y && le y x

  -- No item ties with a later one.
  abbrev pub untied : List A → Bool
  untied [] = true
  untied (x ∷ xs) = not (any (ties x) xs) && untied xs

or_swap : (a a' b b' c : Bool) → a ≡ b' → b ≡ a' → (a || (b || c)) ≡ (a' || (b' || c))
or_swap a a' b b' c e f = ground (arith, e, f)

any-Permᴰ {ℓ} : {A : Type ℓ} (p : A → Bool) {xs ys : List A} → Permᴰ xs ys → any p xs ≡ any p ys
any-Permᴰ p Permᴰ.nil = refl
any-Permᴰ p (Permᴰ.cons e d) = ap₂ (λ a b. a || b) (ap p e) (any-Permᴰ p d)
any-Permᴰ p (Permᴰ.swap e f) = or_swap _ _ _ _ _ (ap p e) (ap p f)
any-Permᴰ p (Permᴰ.trans d e) = any-Permᴰ p d ∙ any-Permᴰ p e

module _ {ℓ} {A : Type ℓ} (le : A → A → Bool) where
  untied_swap :
      (a b a' b' : A) (l : List A)
      → a ≡ b'
      → b ≡ a'
      → untied le (a ∷ b ∷ l) ≡ untied le (a' ∷ b' ∷ l)
  untied_swap a b a' b' l e f =
      swapped (le a b) (le b a) (any (ties le a) l) (any (ties le b) l) (untied le l)
      ∙ ap₂ (λ x y. untied le (x ∷ y ∷ l)) f e
    where
      swapped :
          (p q x y z : Bool)
          → (not (p && q || x) && (not y && z)) ≡ (not (q && p || y) && (not x && z))
      swapped p q x y z = ground arith

  untied-Permᴰ : {xs ys : List A} → Permᴰ xs ys → untied le xs ≡ untied le ys
  untied-Permᴰ Permᴰ.nil = refl
  untied-Permᴰ (Permᴰ.cons {a = a} {b = b} {l₁ = l₁} {l₂ = l₂} e d) =
      ap₂ (λ x y. not x && y) (any-Permᴰ (ties le a) d ∙ ap (λ c. any (ties le c) l₂) e)
        (untied-Permᴰ d)
  untied-Permᴰ (Permᴰ.swap {a = a} {b = b} {a' = a'} {b' = b'} {l = l} e f) =
      untied_swap a b a' b' l e f
  untied-Permᴰ (Permᴰ.trans d e) = untied-Permᴰ d ∙ untied-Permᴰ e

module _ {ℓ} {A : Type ℓ} (le : A → A → Bool) (total : (x y : A) → le x y ≡ false → le y x ≡ true)
    (transitive : (x y z : A) → le x y ≡ true → le y z ≡ true → le x z ≡ true) where
  insert_by_comm :
      (x y : A) (zs : List A)
      → ties le x y ≡ false
      → insert_by le x (insert_by le y zs) ≡ insert_by le y (insert_by le x zs)
  unfolding insert_by
  insert_by_comm x y [] h = ground (arith, total x y)
  insert_by_comm x y (z ∷ zs) h =
      ground (arith, total x y, transitive x y z, transitive y x z, insert_by_comm x y zs)

  sort_by-Permᴰ :
      {xs ys : List A} → Permᴰ xs ys → untied le xs ≡ true → sort_by le xs ≡ sort_by le ys
  unfolding sort_by
  sort_by-Permᴰ Permᴰ.nil h = refl
  sort_by-Permᴰ (Permᴰ.cons e d) h =
      ap₂ (λ a l. insert_by le a l) e (sort_by-Permᴰ d (ground (arith, h)))
  sort_by-Permᴰ (Permᴰ.swap {a = a} {b = b} {a' = a'} {b' = b'} {l = l} e f) h =
      insert_by_comm a b (sort_by le l) (ground (arith, h))
      ∙ ap₂ (λ x y. insert_by le x (insert_by le y (sort_by le l))) f e
  sort_by-Permᴰ (Permᴰ.trans d e) h =
      sort_by-Permᴰ d h ∙ sort_by-Permᴰ e (sym (untied-Permᴰ le d) ∙ h)

  pub sort_by-eq-Perm :
      {xs ys : List A} → IsSet A → Perm xs ys → untied le xs ≡ true → sort_by le xs ≡ sort_by le ys
  sort_by-eq-Perm {xs} {ys} s p h =
      ∥∥₁_elim p (List.is_set s (sort_by le xs) (sort_by le ys)) (λ d. sort_by-Permᴰ d h)
