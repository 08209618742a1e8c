-- ===== src/Examples/Encoding.antt =====
-- Examples for the text forms of numbers and proofs.
use zkvote.Prelude.{
  ℕ, ◌%◌, ◌<◌, ◌≡◌, refl, true, false, List, [], ◌∷◌, ◌++◌, ok, err, ◌>>=◌, arith, ◌==◌,
  if◌then◌else◌, length, replicate,
}
use zkvote.Hex.{Text, strip_0x, hex_value, all_hex, pad_start, all_zero_digits}
use zkvote.Stellar.{
  U256Parts, u256, proof_map, u256_to_sc_val, sc_val_to_u256_hex, proof_to_sc_val, is_all_zeros,
  Groth16Proof, bn254_modulus, bn254_scalar_field,
}
use zkvote.Stellar.Words.{
  u256_value, IsAccepted, AreWords, u256_to_sc_val_sound, u256_to_sc_val-sc_val_to_u256_hex,
}
use zkvote.Validation.{bn254_field, groth16_proof, proof_a, proof_b, proof_c}
use zkvote.Validation.Fields.{bn254_field-u256_to_sc_val}
use zkvote.Validation.Proofs.{groth16_proof-proof_to_sc_val}
use zkvote.Zkproof.{SnarkProof}
use zkvote.Zkproof.Format.{FitsProof}

abbrev pub forty_two_text : Text
forty_two_text = b'0' ∷ b'x' ∷ b'2' ∷ b'A' ∷ []

abbrev forty_two : U256Parts
forty_two = record { hi_hi = 0; hi_lo = 0; lo_hi = 0; lo_lo = 42 }

encoded : u256_to_sc_val forty_two_text ≡ ok (u256 forty_two)
unfolding u256_to_sc_val strip_0x all_hex hex_value pad_start
encoded = refl

u256_to_sc_val_sound_example :
    IsAccepted forty_two_text
    × (u256_value forty_two ≡ hex_value (strip_0x forty_two_text))
    × AreWords forty_two
u256_to_sc_val_sound_example = u256_to_sc_val_sound forty_two_text forty_two encoded

accepted : IsAccepted forty_two_text
unfolding strip_0x all_hex hex_value
accepted = record { hex = refl; even = refl; short = omega arith; below = omega arith }

abbrev large : U256Parts
large = record { hi_hi = 3; hi_lo = 0; lo_hi = 255; lo_lo = 7 }

large_words : AreWords large
large_words = record {
  hi_hi_lt = omega arith;
  hi_lo_lt = omega arith;
  lo_hi_lt = omega arith;
  lo_lo_lt = omega arith;
}

large_below : u256_value large < bn254_scalar_field
large_below = omega arith

round_trip_example : (sc_val_to_u256_hex (u256 large) >>= u256_to_sc_val) ≡ ok (u256 large)
round_trip_example = u256_to_sc_val-sc_val_to_u256_hex large large_words large_below

pub field_accepted : bn254_field forty_two_text ≡ true
unfolding bn254_field strip_0x all_hex hex_value all_zero_digits
field_accepted = refl

bn254_field_example :
    (p : U256Parts) × (u256_value p ≡ hex_value (strip_0x forty_two_text))
    × (u256_value p < bn254_modulus)
    × (u256_to_sc_val forty_two_text ≡ (
        if length (strip_0x forty_two_text) % 2 == 0
        then ok (u256 p)
        else err "Invalid U256 hex string: odd length"))
bn254_field_example = bn254_field-u256_to_sc_val forty_two_text field_accepted

abbrev pub small_proof : Groth16Proof
small_proof = record {
  a = replicate 127 b'0' ++ b'1' ∷ [];
  b = replicate 255 b'0' ++ b'2' ∷ [];
  c = replicate 127 b'0' ++ b'3' ∷ [];
}

pub small_proof_accepted : groth16_proof small_proof ≡ true
unfolding groth16_proof strip_0x all_hex all_zero_digits proof_a proof_b proof_c pad_start
small_proof_accepted = refl

abbrev Even : Text → Type 0
Even s = length (strip_0x s) % 2 ≡ 0

digits_of_a : Even small_proof.a
unfolding strip_0x
digits_of_a = refl

digits_of_b : Even small_proof.b
unfolding strip_0x
digits_of_b = refl

digits_of_c : Even small_proof.c
unfolding strip_0x
digits_of_c = refl

groth16_proof_example :
    (a b c : List ℕ) × (proof_to_sc_val small_proof ≡ ok (proof_map a b c))
    × (length a ≡ 64)
    × (length b ≡ 128)
    × (length c ≡ 64)
    × (is_all_zeros a ≡ false)
    × (is_all_zeros b ≡ false)
    × (is_all_zeros c ≡ false)
groth16_proof_example =
    groth16_proof-proof_to_sc_val small_proof small_proof_accepted digits_of_a digits_of_b
      digits_of_c

abbrev pub snark_proof : SnarkProof
snark_proof = record {
  pi_a = record { x = 1; y = 2 };
  pi_b = record { x = record { c0 = 3; c1 = 4 }; y = record { c0 = 5; c1 = 6 } };
  pi_c = record { x = 7; y = 8 };
}

pub snark_proof_fits : FitsProof snark_proof
snark_proof_fits = record {
  a_fits = record { x_lt = omega arith; y_lt = omega arith };
  b_fits = record {
    x0_lt = omega arith;
    x1_lt = omega arith;
    y0_lt = omega arith;
    y1_lt = omega arith;
  };
  c_fits = record { x_lt = omega arith; y_lt = omega arith };
}

abbrev random_bytes : List ℕ
random_bytes = 255 ∷ 0 ∷ 17 ∷ []
