-- ===== src/Hex/Digits.antt =====
-- The laws of hexadecimal text: values of joined texts, fixed-width printing, round trips.
use native.Mathlib.Nat.{pow-suc, pow-zero}
use zkvote.Prelude.{
  ℕ, zero, suc, ◌+◌, ◌-◌, ◌*◌, ◌/◌, ◌%◌, ◌^◌, ◌<◌, ◌≤◌, ◌≡◌, refl, sym, ap, ◌∙◌, true, inl, inr, [],
  ◌∷◌, ◌++◌, append_assoc, append-nil, arith, ◌≢◌, ==_iff, length-replicate, ◌==◌, Bool-cases,
  length, length-append, replicate, all-append,
}
use zkvote.Hex.{
  Text, is_hex, digit_value, hex_from, hex_value, pad_start, digit_char, hex_digits, to_hex,
  all_hex,
}

pub digit_value-digit_char : (d : ℕ) → d < 16 → digit_value (digit_char d) ≡ d
unfolding digit_value digit_char
digit_value-digit_char d h = ground arith

pub is_hex-digit_char : (d : ℕ) → d < 16 → is_hex (digit_char d) ≡ true
unfolding is_hex digit_char
is_hex-digit_char d h = ground arith

digit_value-lt : (c : ℕ) → is_hex c ≡ true → digit_value c < 16
unfolding is_hex digit_value
digit_value-lt c h = ground arith

hex_from-append : (acc : ℕ) (s t : Text) → hex_from acc (s ++ t) ≡ hex_from (hex_from acc s) t
unfolding hex_from
hex_from-append acc [] t = refl
hex_from-append acc (c ∷ s) t = hex_from-append (acc * 16 + digit_value c) s t

hex_from-eq : (acc : ℕ) (s : Text) → hex_from acc s ≡ acc * 16 ^ length s + hex_value s
unfolding hex_from hex_value
hex_from-eq acc [] = omega arith
hex_from-eq acc (c ∷ s) = omega (
  arith,
  hex_from-eq (acc * 16 + digit_value c) s,
  hex_from-eq (0 * 16 + digit_value c) s,
  pow-suc 16 (length s),
  ap (λ (t : ℕ). acc * t) (pow-suc 16 (length s)),
)

-- The value of joined texts.
pub hex_value-append : (s t : Text) → hex_value (s ++ t) ≡ hex_value s * 16 ^ length t + hex_value t
unfolding hex_value
hex_value-append s t = hex_from-append 0 s t ∙ hex_from-eq (hex_from 0 s) t

-- Exactly `k` digits of a number.
abbrev pub fixed_hex : ℕ → ℕ → Text
fixed_hex zero n = []
fixed_hex (suc k) n = fixed_hex k (n / 16) ++ digit_char (n % 16) ∷ []

pub length-fixed_hex : (k n : ℕ) → length (fixed_hex k n) ≡ k
length-fixed_hex zero n = refl
length-fixed_hex (suc k) n = omega (
  arith,
  length-append (fixed_hex k (n / 16)) (digit_char (n % 16) ∷ []),
  length-fixed_hex k (n / 16),
)

pub all_hex-append : (s t : Text) → all_hex s ≡ true → all_hex t ≡ true → all_hex (s ++ t) ≡ true
unfolding all_hex
all_hex-append s t h k = rw (all-append is_hex s t, h) k

pub all_hex-fixed_hex : (k n : ℕ) → all_hex (fixed_hex k n) ≡ true
unfolding all_hex
all_hex-fixed_hex zero n = refl
all_hex-fixed_hex (suc k) n =
    all_hex-append (fixed_hex k (n / 16)) (digit_char (n % 16) ∷ []) (all_hex-fixed_hex k (n / 16))
      (rw (is_hex-digit_char (n % 16) (omega arith)))

hex_value-snoc : (s : Text) (c : ℕ) → hex_value (s ++ c ∷ []) ≡ hex_value s * 16 + digit_value c
unfolding hex_value hex_from
hex_value-snoc s c = hex_from-append 0 s (c ∷ [])

-- Printing at a fixed width loses nothing below `16 ^ k`.
pub hex_value-fixed_hex : (k n : ℕ) → n < 16 ^ k → hex_value (fixed_hex k n) ≡ n
unfolding hex_value hex_from
hex_value-fixed_hex zero n h = omega (arith, pow-zero 16)
hex_value-fixed_hex (suc k) n h = omega (
  arith,
  hex_value-snoc (fixed_hex k (n / 16)) (digit_char (n % 16)),
  hex_value-fixed_hex k (n / 16) (omega (arith, pow-suc 16 k)),
  digit_value-digit_char (n % 16) (omega arith),
)

mul_le : (a b c : ℕ) → a ≤ b → a * c ≤ b * c
mul_le a b c h = grind arith

-- A hexadecimal text of `k` digits stands for a number below `16 ^ k`.
pub hex_value-lt : (s : Text) → all_hex s ≡ true → hex_value s < 16 ^ length s
unfolding all_hex hex_value hex_from
hex_value-lt [] h = omega (arith, pow-zero 16)
hex_value-lt (c ∷ s) h = elim (Bool-cases (is_hex c)) [
  | inl p ↦
      let rest : all_hex s ≡ true = rw p at h in
      omega (
        arith,
        hex_from-eq (0 * 16 + digit_value c) s,
        digit_value-lt c p,
        hex_value-lt s rest,
        pow-suc 16 (length s),
        mul_le (digit_value c + 1) 16 (16 ^ length s) (omega (arith, digit_value-lt c p)),
      )
  | inr p ↦ ground arith
]

pad_start-snoc :
    (k : ℕ) (s : Text) (c : ℕ) → pad_start (suc k) (s ++ c ∷ []) ≡ pad_start k s ++ c ∷ []
unfolding pad_start
pad_start-snoc k s c =
    let e : suc k - length (s ++ c ∷ []) ≡ k - length s = omega (arith, length-append s (c ∷ [])) in
    rw e (sym (append_assoc (replicate (k - length s) b'0') s (c ∷ [])))

replicate-snoc : (k c : ℕ) → replicate k c ++ c ∷ [] ≡ c ∷ replicate k c
replicate-snoc zero c = refl
replicate-snoc (suc k) c = ap (λ l. c ∷ l) (replicate-snoc k c)

fixed_hex-zero : (k : ℕ) → fixed_hex k 0 ≡ replicate k b'0'
unfolding digit_char
fixed_hex-zero zero = refl
fixed_hex-zero (suc k) = rw (fixed_hex-zero k) (replicate-snoc k b'0')

pad_start-nil : (k : ℕ) → pad_start k [] ≡ replicate k b'0'
unfolding pad_start
pad_start-nil k = let e : k - 0 ≡ k = omega arith in rw e (append-nil _)

-- Enough fuel, whatever it is, prints the digits that `padStart` fills up to width `k`.
pad_start-hex_digits :
    (f k n : ℕ) → n ≤ f → n < 16 ^ k → pad_start k (hex_digits f n) ≡ fixed_hex k n
unfolding hex_digits
pad_start-hex_digits zero k n h lt =
    let z : n ≡ 0 = omega arith in rw (z, fixed_hex-zero) (pad_start-nil k)
pad_start-hex_digits (suc f) zero n h lt =
    let z : n ≡ 0 = omega (arith, pow-zero 16) in rw (z, pad_start-nil)
pad_start-hex_digits (suc f) (suc k) n h lt = elim (Bool-cases (n == 0)) [
  | inl z ↦ rw z (rw ((==_iff n 0).0 z) (pad_start-nil (suc k) ∙ sym (fixed_hex-zero (suc k))))
  | inr p ↦
      let pos : n ≢ 0 = ground arith in
      rw (p, pad_start-snoc)
        (rw (pad_start-hex_digits f k (n / 16) (omega arith) (omega (arith, pow-suc 16 k))))
]

-- `n.toString(16).padStart(k, '0')` is the text of exactly `k` digits.
pub pad_start-to_hex :
    (k n : ℕ) → n < 16 ^ suc k → pad_start (suc k) (to_hex n) ≡ fixed_hex (suc k) n
unfolding to_hex pad_start
pad_start-to_hex k n lt = elim (Bool-cases (n == 0)) [
  | inl z ↦ rw z (
      let e : suc k - 1 ≡ k = omega arith in
      rw ((==_iff n 0).0 z, fixed_hex-zero (suc k), e) (replicate-snoc k b'0'))
  | inr p ↦ rw p (pad_start-hex_digits n (suc k) n (omega arith) lt)
]

-- Padding does not change a text of the full width, nor the value of any text.
pub pad_start_full : (k : ℕ) (s : Text) → length s ≡ k → pad_start k s ≡ s
unfolding pad_start
pad_start_full k s h = let e : k - length s ≡ 0 = omega arith in rw e

hex_value-replicate : (k : ℕ) → hex_value (replicate k b'0') ≡ 0
unfolding hex_value hex_from digit_value
hex_value-replicate zero = refl
hex_value-replicate (suc k) = hex_value-replicate k

pub hex_value-pad_start : (k : ℕ) (s : Text) → hex_value (pad_start k s) ≡ hex_value s
unfolding pad_start
hex_value-pad_start k s =
    rw (hex_value-append (replicate (k - length s) b'0') s, hex_value-replicate) (omega arith)

pub length-pad_start : (k : ℕ) (s : Text) → length s ≤ k → length (pad_start k s) ≡ k
unfolding pad_start
length-pad_start k s h = omega (
  arith,
  length-append (replicate (k - length s) b'0') s,
  length-replicate {A = ℕ} (k - length s) b'0',
)

all_hex-replicate : (k : ℕ) → all_hex (replicate k b'0') ≡ true
unfolding all_hex is_hex
all_hex-replicate zero = refl
all_hex-replicate (suc k) = all_hex-replicate k

pub all_hex-pad_start : (k : ℕ) (s : Text) → all_hex s ≡ true → all_hex (pad_start k s) ≡ true
unfolding pad_start
all_hex-pad_start k s h =
    all_hex-append (replicate (k - length s) b'0') s (all_hex-replicate (k - length s)) h
