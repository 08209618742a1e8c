-- ===== src/Prelude/Texts.antt =====
-- Equality of texts as lists of code units.
use Prim.Native.Nat.{ℕ}
use Prim.Native.String.{String}
use Prim.Native.Char.{code}
use mathlib.Core.Path.{◌≡◌, refl, ap, subst}
use mathlib.Core.Logic.{◌↔◌}
use mathlib.Core.Bool.{Bool, true, false, ◌&&◌}
use mathlib.Core.List.{List, [], ◌∷◌}
use native.Mathlib.Omega.{arith}
use zkvote.Prelude.Tests.{◌==◌}
use zkvote.Prelude.Lists.{length}

-- The code units of an ASCII text.
abbrev pub codes : String → List ℕ
codes String.[] = []
codes (String.◌∷◌ c s) = code c ∷ codes s

abbrev pub same_text : List ℕ → List ℕ → Bool
same_text [] [] = true
same_text (c ∷ s) (d ∷ t) = c == d && same_text s t
same_text _ _ = false

pub same_text_refl : (x : List ℕ) → same_text x x ≡ true
same_text_refl [] = refl
same_text_refl (c ∷ x) = ground (arith, same_text_refl x)

pub same_text_eq : (x y : List ℕ) → same_text x y ≡ true → x ≡ y
same_text_eq [] [] h = refl
same_text_eq [] (d ∷ y) h = absurd (ground arith)
same_text_eq (c ∷ x) [] h = absurd (ground arith)
same_text_eq (c ∷ x) (d ∷ y) h =
    let e : c ≡ d = ground arith in
    let t : x ≡ y = same_text_eq x y (ground arith) in rw (e, t) refl

pub same_text-length : (x y : List ℕ) → same_text x y ≡ true → length x ≡ length y
same_text-length x y h = ap length (same_text_eq x y h)

pub same_text_iff : (x y : List ℕ) → (same_text x y ≡ true) ↔ (x ≡ y)
same_text_iff x y = (same_text_eq x y, λ e. subst (λ z. same_text x z ≡ true) e (same_text_refl x))
