-- ===== src/Stellar/Bytes.antt =====
-- stellar.ts: `hexToBytes` on texts of a fixed width, against big-endian bytes.
use zkvote.Prelude.{
  ok, ℕ, zero, suc, ◌+◌, ◌*◌, ◌/◌, ◌%◌, ◌≡◌, refl, ap, ◌∙◌, true, List, [], ◌∷◌, ◌++◌, append_assoc,
  arith, length, length-append,
}
use zkvote.Hex.{Text, strip_0x, digit_value, digit_char, all_hex}
use zkvote.Hex.Digits.{fixed_hex, length-fixed_hex, pad_start_full, digit_value-digit_char}
use zkvote.Stellar.{bytes_of_hex, hex_to_bytes}

abbrev pub twice : ℕ → ℕ
twice zero = 0
twice (suc k) = suc (suc (twice k))

-- The `k` bytes of a number, the most significant one first.
abbrev pub be_bytes : ℕ → ℕ → List ℕ
be_bytes zero n = []
be_bytes (suc k) n = be_bytes k (n / 256) ++ n % 256 ∷ []

pub bytes_of_hex-append :
    (m : ℕ) (s t : Text)
    → length s ≡ twice m
    → bytes_of_hex (s ++ t) ≡ bytes_of_hex s ++ bytes_of_hex t
unfolding bytes_of_hex
bytes_of_hex-append zero [] t h = refl
bytes_of_hex-append zero (c ∷ s) t h = absurd (omega arith)
bytes_of_hex-append (suc m) [] t h = absurd (omega arith)
bytes_of_hex-append (suc m) (c ∷ []) t h = absurd (omega arith)
bytes_of_hex-append (suc m) (c ∷ d ∷ s) t h =
    ap (λ l. (digit_value c * 16 + digit_value d) ∷ l) (bytes_of_hex-append m s t (omega arith))

pub bytes_of_hex-fixed_hex : (k n : ℕ) → bytes_of_hex (fixed_hex (twice k) n) ≡ be_bytes k n
unfolding bytes_of_hex
bytes_of_hex-fixed_hex zero n = refl
bytes_of_hex-fixed_hex (suc k) n =
    let front = fixed_hex (twice k) (n / 16 / 16) in
    let hi = digit_char (n / 16 % 16) in
    let lo = digit_char (n % 16) in
    let byte : digit_value hi * 16 + digit_value lo ≡ n % 256 = omega (
      arith,
      digit_value-digit_char (n / 16 % 16) (omega arith),
      digit_value-digit_char (n % 16) (omega arith),
    ) in
    let quotient : n / 16 / 16 ≡ n / 256 = omega arith in
    ap bytes_of_hex (append_assoc front (hi ∷ []) (lo ∷ []))
    ∙ bytes_of_hex-append k front (hi ∷ lo ∷ []) (length-fixed_hex (twice k) (n / 16 / 16))
    ∙ ap (λ b. bytes_of_hex front ++ b ∷ []) byte
    ∙ ap (λ l. l ++ n % 256 ∷ [])
        (bytes_of_hex-fixed_hex k (n / 16 / 16) ∙ ap (be_bytes k) quotient)

pub bytes_of_hex-fixed_append :
    (k n : ℕ) (t : Text)
    → bytes_of_hex (fixed_hex (twice k) n ++ t) ≡ be_bytes k n ++ bytes_of_hex t
bytes_of_hex-fixed_append k n t =
    bytes_of_hex-append k (fixed_hex (twice k) n) t (length-fixed_hex (twice k) n)
    ∙ ap (λ l. l ++ bytes_of_hex t) (bytes_of_hex-fixed_hex k n)

pub length-be_bytes : (k n : ℕ) → length (be_bytes k n) ≡ k
length-be_bytes zero n = refl
length-be_bytes (suc k) n =
    omega (arith, length-append (be_bytes k (n / 256)) (n % 256 ∷ []), length-be_bytes k (n / 256))

pub strip_0x_plain : (s : Text) → all_hex s ≡ true → strip_0x s ≡ s
unfolding strip_0x all_hex
strip_0x_plain [] h = refl
strip_0x_plain (c ∷ []) h = refl
strip_0x_plain (c ∷ d ∷ s) h = ground arith

-- A text of the full width with no prefix is read whole.
pub hex_to_bytes_full :
    (s : Text) (n : ℕ)
    → all_hex s ≡ true
    → length s ≡ n * 2
    → length (bytes_of_hex s) ≡ n
    → hex_to_bytes s n ≡ ok (bytes_of_hex s)
unfolding hex_to_bytes
hex_to_bytes_full s n h l k = rw (strip_0x_plain s h, pad_start_full (n * 2) s l) (ground arith)
