-- ===== src/Validation.antt =====
-- backend/src/validation/schemas.ts: the validators of the zod schemas as tests on texts. A string
-- is the list of its UTF-16 code units.
pub mod Fields
pub mod Proofs
use zkvote.Prelude.{
  ℕ, zero, suc, Bool, true, false, not, ◌&&◌, ◌||◌, List, [], ◌∷◌, ltb, leb, ◌==◌, if◌then◌else◌,
  length, all,
}
use zkvote.Hex.{Text, strip_0x, hex_value, pad_start, all_zero_digits, all_hex, is_hex}
use zkvote.Stellar.{Groth16Proof, bn254_modulus}

unfoldable pub hex_string : ℕ → Text → Bool
hex_string max_hex_chars val =
    let hex = strip_0x val in if ltb max_hex_chars (length hex) then false else all_hex hex

unfoldable pub bn254_field : Text → Bool
bn254_field val =
    let hex = strip_0x val in
    if length hex == 0 || ltb 64 (length hex)
    then false
    else if not (all_hex hex)
    then false
    else ltb (hex_value hex) bn254_modulus

-- `hexString(width)` refined by "not all zeros"; zod runs the second test only after the first.
abbrev not_infinity : ℕ → Text → Bool
not_infinity width val = not (all_zero_digits (pad_start width (strip_0x val)))

unfoldable pub proof_a : Text → Bool
unfolding hex_string
proof_a val = hex_string 128 val && not_infinity 128 val

unfoldable pub proof_b : Text → Bool
unfolding hex_string
proof_b val = hex_string 256 val && not_infinity 256 val

unfoldable pub proof_c : Text → Bool
unfolding hex_string
proof_c val = hex_string 128 val && not_infinity 128 val

unfoldable pub groth16_proof : Groth16Proof → Bool
groth16_proof p = proof_a p.a && proof_b p.b && proof_c p.c

unfoldable pub starts_with : Text → Text → Bool
starts_with s [] = true
starts_with [] (c ∷ p) = false
starts_with (d ∷ s) (c ∷ p) = d == c && starts_with s p

unfoldable pub ipfs_cid : Text → Bool
unfolding starts_with
ipfs_cid val =
    (starts_with val (b'Q' ∷ b'm' ∷ []) && leb 46 (length val))
    || ((starts_with val (b'b' ∷ b'a' ∷ b'f' ∷ b'y' ∷ [])
          || starts_with val (b'b' ∷ b'a' ∷ b'f' ∷ b'k' ∷ []))
        && leb 59 (length val))

-- The character class `[A-Z2-7]`.
abbrev is_base32 : ℕ → Bool
is_base32 c = (leb b'A' c && leb c b'Z') || (leb b'2' c && leb c b'7')

abbrev keyed : ℕ → Text → Bool
keyed head [] = false
keyed head (c ∷ s) = c == head && (length s == 55 && all is_base32 s)

-- `/^G[A-Z2-7]{55}$/` and `/^C[A-Z2-7]{55}$/`
unfoldable pub stellar_address : Text → Bool
stellar_address s = keyed b'G' s

unfoldable pub contract_address : Text → Bool
contract_address s = keyed b'C' s

-- `/^[0-9a-fA-F]{64}$/`
unfoldable pub tx_hash : Text → Bool
tx_hash s = length s == 64 && all_hex s
