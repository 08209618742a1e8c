-- ===== src/Decimal.antt =====
-- Numbers in decimal, as `${n}` writes them and `parseInt` reads them back.
use zkvote.Prelude.{
  ℕ, zero, suc, ◌+◌, ◌-◌, ◌*◌, ◌/◌, ◌%◌, ◌<◌, ◌≡◌, refl, sym, ap, ◌∙◌, Bool, true, false, ◌&&◌,
  List, [], ◌∷◌, ◌++◌, ltb, leb, if◌then◌else◌, arith, ltb→lt, if_true, if_elim, ◌≢◌, subst,
}

-- A code unit of `\d`.
abbrev pub is_digit : ℕ → Bool
is_digit c = leb b'0' c && leb c b'9'

-- The digits of a number before those of `acc`; fuel above the number is enough.
unfoldable pub digits : ℕ → ℕ → List ℕ → List ℕ
digits zero n acc = acc
digits (suc fuel) n acc =
    let more = digits fuel (n / 10) ((b'0' + n % 10) ∷ acc) in
    if ltb n 10 then (b'0' + n) ∷ acc else more

unfoldable pub decimal : ℕ → List ℕ
unfolding digits
decimal n = digits (suc n) n []

abbrev pub value_from : ℕ → List ℕ → ℕ
value_from v [] = v
value_from v (c ∷ s) = value_from (v * 10 + (c - b'0')) s

-- The longest prefix of digits: `/^(\d+)/`.
abbrev pub leading_digits : List ℕ → List ℕ
leading_digits [] = []
leading_digits (c ∷ s) = if is_digit c then c ∷ leading_digits s else []

-- No digit stands first.
abbrev pub starts_no_digit : List ℕ → Bool
starts_no_digit [] = true
starts_no_digit (c ∷ s) = if is_digit c then false else true

value_from-digits :
    (fuel n : ℕ) (acc : List ℕ) → n < fuel → value_from 0 (digits fuel n acc) ≡ value_from n acc
unfolding digits
value_from-digits zero n acc h = absurd (ground arith)
value_from-digits (suc fuel) n acc h =
    if_elim {A = List ℕ} (ltb n 10) (λ s. value_from 0 s ≡ value_from n acc) _ _
      (λ small. ap (λ v. value_from v acc) (omega arith))
      (λ large.
        value_from-digits fuel (n / 10) ((b'0' + n % 10) ∷ acc) (ground arith)
        ∙ ap (λ v. value_from v acc) (omega arith))

is_digit-char : (d : ℕ) → d < 10 → is_digit (b'0' + d) ≡ true
is_digit-char d h = ground arith

leading_digits_cons :
    (d : ℕ) (s t : List ℕ)
    → d < 10
    → leading_digits s ≡ t
    → leading_digits ((b'0' + d) ∷ s) ≡ (b'0' + d) ∷ t
leading_digits_cons d s t h e =
    if_true (is_digit (b'0' + d)) _ _ (is_digit-char d h) ∙ ap (λ l. (b'0' + d) ∷ l) e

leading_digits-digits :
    (fuel n : ℕ) (acc rest : List ℕ)
    → leading_digits (acc ++ rest) ≡ acc
    → n < fuel
    → leading_digits (digits fuel n acc ++ rest) ≡ digits fuel n acc
unfolding digits
leading_digits-digits zero n acc rest a h = a
leading_digits-digits (suc fuel) n acc rest a h =
    if_elim {A = List ℕ} (ltb n 10) (λ s. leading_digits (s ++ rest) ≡ s) _ _
      (λ small. leading_digits_cons n (acc ++ rest) acc (ltb→lt n 10 small) a)
      (λ large.
        leading_digits-digits fuel (n / 10) ((b'0' + n % 10) ∷ acc) rest
          (leading_digits_cons (n % 10) (acc ++ rest) acc (omega arith) a) (ground arith))

leading_digits_none : (rest : List ℕ) → starts_no_digit rest ≡ true → leading_digits rest ≡ []
leading_digits_none [] h = refl
leading_digits_none (c ∷ rest) h = ground arith

-- A number that no further digit follows is read back.
pub value-decimal : (n : ℕ) → value_from 0 (decimal n) ≡ n
unfolding decimal
value-decimal n = value_from-digits (suc n) n [] (omega arith)

pub leading_digits-decimal :
    (n : ℕ) (rest : List ℕ)
    → starts_no_digit rest ≡ true
    → leading_digits (decimal n ++ rest) ≡ decimal n
unfolding decimal
leading_digits-decimal n rest h =
    leading_digits-digits (suc n) n [] rest (leading_digits_none rest h) (omega arith)

pub decimal_nonempty : (n : ℕ) → decimal n ≢ []
unfolding decimal digits
decimal_nonempty n e =
    let z : n ≡ 0 = sym (value-decimal n) ∙ ap (value_from 0) e in
    let e' : decimal 0 ≡ [] = subst (λ k. decimal k ≡ []) z e in ground arith
