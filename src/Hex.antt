-- ===== src/Hex.antt =====
-- Hexadecimal text as the relayer and the browser read and write it
-- (backend/src/services/stellar.ts, backend/src/validation/schemas.ts,
-- frontend/src/lib/zkproof.ts). A JavaScript string is the list of its code units.
pub mod Digits
use zkvote.Prelude.{
  ℕ, zero, suc, ◌+◌, ◌-◌, ◌*◌, ◌/◌, ◌%◌, Bool, ◌&&◌, ◌||◌, List, [], ◌∷◌, ◌++◌, ltb, leb, ◌==◌,
  if◌then◌else◌, length, replicate, all,
}

abbrev pub Text : Type 0
Text = List ℕ

-- `s.startsWith('0x') ? s.slice(2) : s`
unfoldable pub strip_0x : Text → Text
strip_0x (c ∷ d ∷ s) = if c == b'0' && d == b'x' then s else c ∷ d ∷ s
strip_0x (c ∷ []) = c ∷ []
strip_0x [] = []

-- The character class `[0-9a-fA-F]`.
unfoldable pub is_hex : ℕ → Bool
is_hex c = (leb b'0' c && leb c b'9') || (leb b'a' c && leb c b'f') || (leb b'A' c && leb c b'F')

unfoldable pub digit_value : ℕ → ℕ
digit_value c = if leb c b'9' then c - b'0' else if leb c b'F' then c - 55 else c - 87

-- The number that `BigInt('0x' + s)` reads from hexadecimal digits.
unfoldable pub hex_from : ℕ → Text → ℕ
unfolding digit_value
hex_from acc [] = acc
hex_from acc (c ∷ s) = hex_from (acc * 16 + digit_value c) s

unfoldable pub hex_value : Text → ℕ
unfolding hex_from
hex_value s = hex_from 0 s

-- `s.padStart(n, '0')`
unfoldable pub pad_start : ℕ → Text → Text
pad_start n s = replicate (n - length s) b'0' ++ s

unfoldable pub digit_char : ℕ → ℕ
digit_char d = if ltb d 10 then b'0' + d else 87 + d

-- The digits of a number, the last one first taken off; the fuel `n` is enough for `n`.
unfoldable pub hex_digits : ℕ → ℕ → Text
unfolding digit_char
hex_digits zero n = []
hex_digits (suc f) n =
    let more = hex_digits f (n / 16) ++ digit_char (n % 16) ∷ [] in if n == 0 then [] else more

-- `n.toString(16)`
unfoldable pub to_hex : ℕ → Text
unfolding hex_digits
to_hex n = if n == 0 then b'0' ∷ [] else hex_digits n n

-- `/^0*$/` and `/^[0-9a-fA-F]*$/`
unfoldable pub all_zero_digits : Text → Bool
all_zero_digits s = all (λ c. c == b'0') s

unfoldable pub all_hex : Text → Bool
unfolding is_hex
all_hex s = all is_hex s
