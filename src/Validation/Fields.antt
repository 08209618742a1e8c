-- ===== src/Validation/Fields.antt =====
-- schemas.ts and stellar.ts: the schema of a field element against the conversion to a U256.
use zkvote.Prelude.{
  ok, err, ℕ, ◌%◌, ◌<◌, ◌≤◌, ◌≡◌, ap, ◌∙◌, true, false, arith, ◌==◌, if◌then◌else◌, length,
}
use zkvote.Hex.{Text, strip_0x, hex_value, pad_start, all_hex}
use zkvote.Hex.Digits.{fixed_hex, hex_value-fixed_hex, hex_value-pad_start, all_hex-fixed_hex}
use zkvote.Stellar.{U256Parts, u256, u256_to_sc_val, u256_parts, bn254_modulus, bn254_scalar_field}
use zkvote.Stellar.Words.{u256_value, padded_value, u256_to_sc_val_complete}
use zkvote.Stellar.Bytes.{strip_0x_plain}
use zkvote.Validation.{bn254_field}

pub record IsField (s : Text) : Type 0 where
  pub nonempty : 0 < length (strip_0x s)
  pub short : length (strip_0x s) ≤ 64
  pub hex : all_hex (strip_0x s) ≡ true
  pub below : hex_value (strip_0x s) < bn254_modulus

bn254_field-IsField : (s : Text) → bn254_field s ≡ true → IsField s
unfolding bn254_field
bn254_field-IsField s h = ground arith

-- A field element that the schema lets through is converted to its number, which is below the bound
-- of the schema, if it has an even number of digits; with an odd number the conversion throws.
pub bn254_field-u256_to_sc_val :
    (s : Text)
    → bn254_field s ≡ true
    → (p : U256Parts) × (u256_value p ≡ hex_value (strip_0x s))
      × (u256_value p < bn254_modulus)
      × (u256_to_sc_val s ≡ (
          if length (strip_0x s) % 2 == 0
          then ok (u256 p)
          else err "Invalid U256 hex string: odd length"))
bn254_field-u256_to_sc_val s h =
    let f = bn254_field-IsField s h in
    let value = padded_value s f.short in
    (
      u256_parts (pad_start 64 (strip_0x s)),
      value,
      rw value f.below,
      unfold u256_to_sc_val in
          ground (arith, f.hex, f.short, f.below, hex_value-pad_start 64 (strip_0x s)),
    )

-- Every number from the order of the scalar field up to the modulus of the base field is refused by
-- the schema's field test and accepted by the conversion, although its error text speaks of the
-- scalar field.
pub u256_to_sc_val_above :
    (n : ℕ)
    → bn254_modulus ≤ n
    → n < bn254_scalar_field
    → (bn254_field (fixed_hex 64 n) ≡ false)
      × ((p : U256Parts) × (u256_to_sc_val (fixed_hex 64 n) ≡ ok (u256 p)) × (u256_value p ≡ n))
u256_to_sc_val_above n lo hi = (refused, accepted)
  where
    value : hex_value (strip_0x (fixed_hex 64 n)) ≡ n
    value =
        ap hex_value (strip_0x_plain (fixed_hex 64 n) (all_hex-fixed_hex 64 n))
        ∙ hex_value-fixed_hex 64 n (omega arith)

    refused : bn254_field (fixed_hex 64 n) ≡ false
    refused = unfold bn254_field in ground (arith, value)

    accepted :
        (p : U256Parts) × (u256_to_sc_val (fixed_hex 64 n) ≡ ok (u256 p)) × (u256_value p ≡ n)
    accepted =
        let same : strip_0x (fixed_hex 64 n) ≡ fixed_hex 64 n =
          strip_0x_plain (fixed_hex 64 n) (all_hex-fixed_hex 64 n) in
        let (p, runs, e) = u256_to_sc_val_complete (fixed_hex 64 n) (record {
          hex = rw same (all_hex-fixed_hex 64 n);
          even = rw same;
          short = rw same (omega arith);
          below = rw value hi;
        }) in
        (p, runs, e ∙ value)
