-- ===== src/ParseInt.antt =====
-- JavaScript's `parseInt` without a radix, as the routes call it on the texts of a request.
use zkvote.Prelude.{
  ℕ, zero, suc, ◌≡◌, ◌≢◌, refl, sym, ◌∙◌, ap, true, false, ◌||◌, Option, none, some, [], ◌∷◌, ◌==◌,
  if◌then◌else◌, if_elim, if_false, arith, append-nil,
}
use zkvote.Hex.{Text, is_hex, hex_value}
use zkvote.Decimal.{
  is_digit, value_from, leading_digits, decimal, value-decimal, leading_digits-decimal,
  decimal_nonempty,
}
use zkvote.Slug.{trim_start, is_space}

pub data ℤ : Type 0 where
  pos : ℕ → ℤ
  negsuc : ℕ → ℤ

abbrev pub negated : ℕ → ℤ
negated zero = pos 0
negated (suc n) = negsuc n

abbrev pub leading_hex : Text → Text
leading_hex [] = []
leading_hex (c ∷ s) = let rest = leading_hex s in if is_hex c then c ∷ rest else []

abbrev pub read_digits : (Text → ℕ) → Text → Option ℕ
read_digits value [] = none
read_digits value (c ∷ s) = some (value (c ∷ s))

-- The digits after the spaces and the sign: hexadecimal after `0x` or `0X`, else decimal. The value is exact
-- up to `2 ^ 53`.
unfoldable pub unsigned : Text → Option ℕ
unsigned [] = none
unsigned (a ∷ []) = read_digits (value_from 0) (leading_digits (a ∷ []))
unsigned (a ∷ b ∷ s) =
    if a == b'0'
    then (if b == b'x' || b == b'X'
        then read_digits hex_value (leading_hex s)
        else read_digits (value_from 0) (leading_digits (a ∷ b ∷ s)))
    else read_digits (value_from 0) (leading_digits (a ∷ b ∷ s))

abbrev pub positive : Option ℕ → Option ℤ
positive none = none
positive (some n) = some (pos n)

abbrev pub negative : Option ℕ → Option ℤ
negative none = none
negative (some n) = some (negated n)

unfoldable pub signed : Text → Option ℤ
unfolding unsigned
signed [] = none
signed (c ∷ s) =
    if c == b'-'
    then negative (unsigned s)
    else if c == b'+'
    then positive (unsigned s)
    else positive (unsigned (c ∷ s))

-- `none` is NaN.
unfoldable pub parse_int : Text → Option ℤ
unfolding signed
parse_int s = signed (trim_start s)

first_digit :
    (c : ℕ) (s t : Text)
    → (if is_digit c then c ∷ leading_digits s else []) ≡ c ∷ t
    → (is_digit c ≡ true) × (leading_digits s ≡ t)
first_digit c s t h = ground (arith, h)

not_space : (c : ℕ) → is_digit c ≡ true → is_space c ≡ false
unfolding is_space
not_space c h = ground (arith, h)

not_sign : (c : ℕ) → is_digit c ≡ true → ((c == b'-') ≡ false) × ((c == b'+') ≡ false)
not_sign c h = (ground (arith, h), ground (arith, h))

not_x : (c : ℕ) → is_digit c ≡ true → (c == b'x' || c == b'X') ≡ false
not_x c h = ground (arith, h)

unsigned_digits :
    (c b : ℕ) (s : Text)
    → (b == b'x' || b == b'X') ≡ false
    → leading_digits (c ∷ b ∷ s) ≡ c ∷ b ∷ s
    → unsigned (c ∷ b ∷ s) ≡ some (value_from 0 (c ∷ b ∷ s))
unfolding unsigned
unsigned_digits c b s x h =
    let dec : read_digits (value_from 0) (leading_digits (c ∷ b ∷ s))
        ≡ some (value_from 0 (c ∷ b ∷ s)) =
      ap (read_digits (value_from 0)) h in
    if_elim {A = Option ℕ} (c == b'0') (λ r. r ≡ some (value_from 0 (c ∷ b ∷ s))) _ _
      (λ z. if_false (b == b'x' || b == b'X') _ _ x ∙ dec) (λ z. dec)

unsigned_text : (s : Text) → s ≢ [] → leading_digits s ≡ s → unsigned s ≡ some (value_from 0 s)
unfolding unsigned
unsigned_text [] n h = absurd (n refl)
unsigned_text (c ∷ []) n h = ap (read_digits (value_from 0)) h
unsigned_text (c ∷ b ∷ s) n h =
    let (d, e) = first_digit c (b ∷ s) (b ∷ s) h in
    let (d', e') = first_digit b s s e in unsigned_digits c b s (not_x b d') h

unsigned-decimal : (n : ℕ) → unsigned (decimal n) ≡ some n
unsigned-decimal n =
    unsigned_text (decimal n) (decimal_nonempty n)
      (ap leading_digits (sym (append-nil (decimal n))) ∙ leading_digits-decimal n [] refl)
    ∙ ap {B = Option ℕ} some (value-decimal n)

signed_digits : (s : Text) → s ≢ [] → leading_digits s ≡ s → parse_int s ≡ positive (unsigned s)
unfolding parse_int signed trim_start
signed_digits [] n h = absurd (n refl)
signed_digits (c ∷ s) n h =
    let (d, e) = first_digit c s s h in let (m, p) = not_sign c d in rw (not_space c d, m, p) refl

-- A number in decimal is read back.
pub parse_int-decimal : (n : ℕ) → parse_int (decimal n) ≡ some (pos n)
parse_int-decimal n =
    signed_digits (decimal n) (decimal_nonempty n)
      (ap leading_digits (sym (append-nil (decimal n))) ∙ leading_digits-decimal n [] refl)
    ∙ ap positive (unsigned-decimal n)

-- And so is one with a minus sign.
pub parse_int-minus : (n : ℕ) → parse_int (b'-' ∷ decimal n) ≡ some (negated n)
unfolding parse_int signed trim_start is_space
parse_int-minus n = ap negative (unsigned-decimal n)
