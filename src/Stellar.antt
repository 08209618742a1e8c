-- ===== src/Stellar.antt =====
-- backend/src/services/stellar.ts: the values that the relayer hands to the contracts. A thrown
-- error is its message, less the lengths that the source puts into some of them; `ScVal` has the
-- constructors of the SDK's union that the relayer builds.
pub mod Words
pub mod Bytes
use zkvote.Prelude.{
  ℕ, ◌+◌, ◌-◌, ◌*◌, ◌%◌, String, Bool, true, false, not, ◌&&◌, ◌||◌, List, [], ◌∷◌, ◌++◌, ltb, leb,
  ◌==◌, if◌then◌else◌, length, take, drop, all, Result, ok, err, ◌>>=◌, require,
}
use zkvote.Hex.{Text, strip_0x, hex_value, pad_start, digit_value, to_hex, all_hex}

-- The two field constants of config.ts, as they are named there.
abbrev pub bn254_modulus : ℕ
bn254_modulus = 21888242871839275222246405745257275088548364400416034343698204186575808495617

abbrev pub bn254_scalar_field : ℕ
bn254_scalar_field = 0x30644e72e131a029b85045b68181585d97816a916871ca8d3c208c16d87cfd47

pub record U256Parts : Type 0 where
  pub hi_hi : ℕ
  pub hi_lo : ℕ
  pub lo_hi : ℕ
  pub lo_lo : ℕ

pub data ScVal : Type 0 where
  u256 : U256Parts → ScVal
  -- the map with the keys `a`, `b` and `c`, each a byte string
  proof_map : List ℕ → List ℕ → List ℕ → ScVal
  -- any value that is neither
  other : ScVal

abbrev is_even : ℕ → Bool
is_even n = n % 2 == 0

-- `s.slice(start, end)`
abbrev pub slice : ℕ → ℕ → Text → Text
slice start end s = take (end - start) (drop start s)

unfoldable pub u256_parts : Text → U256Parts
u256_parts padded = record {
  hi_hi = hex_value (slice 0 16 padded);
  hi_lo = hex_value (slice 16 32 padded);
  lo_hi = hex_value (slice 32 48 padded);
  lo_lo = hex_value (slice 48 64 padded);
}

unfoldable pub u256_to_sc_val : Text → Result ScVal
unfolding u256_parts
u256_to_sc_val hex_string =
    let hex = strip_0x hex_string in
    let padded = pad_start 64 hex in
    require (all_hex hex) "Invalid U256 hex string: contains non-hexadecimal characters" (
      require (is_even (length hex)) "Invalid U256 hex string: odd length" (
        require (leb (length hex) 64) "Invalid U256 hex string: too long" (
          require (ltb (hex_value padded) bn254_scalar_field)
            "Value exceeds BN254 scalar field modulus" (ok (u256 (u256_parts padded))))))

unfoldable pub sc_val_to_u256_hex : ScVal → Result Text
sc_val_to_u256_hex (u256 parts) =
    let word = λ (n : ℕ). pad_start 16 (to_hex n) in
    ok (
      b'0' ∷ b'x' ∷ word parts.hi_hi
      ++ (word parts.hi_lo ++ (word parts.lo_hi ++ word parts.lo_lo)))
sc_val_to_u256_hex (proof_map a b c) = err "Expected U256 ScVal"
sc_val_to_u256_hex other = err "Expected U256 ScVal"

-- `Buffer.from(s, 'hex')` on hexadecimal digits: a byte for each pair.
unfoldable pub bytes_of_hex : Text → List ℕ
bytes_of_hex (c ∷ d ∷ s) = (digit_value c * 16 + digit_value d) ∷ bytes_of_hex s
bytes_of_hex (c ∷ []) = []
bytes_of_hex [] = []

unfoldable pub hex_to_bytes : Text → ℕ → Result (List ℕ)
hex_to_bytes hex expected_length =
    let clean_hex = strip_0x hex in
    let bytes = bytes_of_hex (pad_start (expected_length * 2) clean_hex) in
    require (all_hex clean_hex) "Invalid hex string: contains non-hexadecimal characters" (
      require (is_even (length clean_hex)) "Invalid hex string: odd length" (
        require (leb (length clean_hex) (expected_length * 2)) "Hex string too long"
          (require (length bytes == expected_length) "Unexpected number of bytes" (ok bytes))))

unfoldable pub is_all_zeros : List ℕ → Bool
is_all_zeros bytes = all (λ byte. byte == 0) bytes

-- The proof as the request carries it; an empty text is falsy.
pub record Groth16Proof : Type 0 where
  pub a : Text
  pub b : Text
  pub c : Text

abbrev pub is_empty : Text → Bool
is_empty [] = true
is_empty (c ∷ s) = false

unfoldable pub proof_to_sc_val : Groth16Proof → Result ScVal
proof_to_sc_val proof =
    require (not (is_empty proof.a || is_empty proof.b || is_empty proof.c))
      "Invalid proof: missing a, b, or c fields"
      do
        a_bytes ← hex_to_bytes proof.a 64
        b_bytes ← hex_to_bytes proof.b 128
        c_bytes ← hex_to_bytes proof.c 64
        require (not (is_all_zeros a_bytes || is_all_zeros b_bytes || is_all_zeros c_bytes))
            "Invalid proof: proof components cannot be point at infinity (all zeros)"
            (ok (proof_map a_bytes b_bytes c_bytes))
