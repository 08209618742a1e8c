-- ===== src/Ballot/Request.antt =====
-- VoteModal.tsx, schemas.ts and voting.ts together: the page's request at the relayer.
use zkvote.Prelude.{
  ℕ, ◌%◌, ◌<◌, ◌≡◌, sym, ap, ◌∙◌, subst, Bool, true, false, not, ◌&&◌, ◌||◌, List, [], ◌∷◌, arith,
  ok, length, ◌==◌, if_true, if_false,
}
use zkvote.Hex.{Text, strip_0x, all_hex, hex_value, pad_start, all_zero_digits}
use zkvote.Hex.Digits.{
  fixed_hex, all_hex-fixed_hex, length-fixed_hex, hex_value-fixed_hex, pad_start-to_hex,
  pad_start_full,
}
use zkvote.Stellar.{
  bn254_modulus, u256_to_sc_val, u256, U256Parts, proof_map, proof_to_sc_val, is_all_zeros,
  bytes_of_hex,
}
use zkvote.Stellar.Words.{u256_value}
use zkvote.Stellar.Bytes.{strip_0x_plain, twice}
use zkvote.Validation.{bn254_field, hex_string, proof_a, proof_b, proof_c, groth16_proof}
use zkvote.Validation.Fields.{bn254_field-u256_to_sc_val}
use zkvote.Validation.Proofs.{zeros-bytes_of_hex}
use zkvote.Zkproof.{SnarkProof, to_hex_be, format_proof_for_soroban}
use zkvote.Zkproof.Format.{
  FitsProof, g1_bytes, g2_bytes, g1_hex, g2_hex, is_infinity1, is_infinity2, all_hex-g1_hex,
  all_hex-g2_hex, length-g1_hex, length-g2_hex, bytes-g1_hex, bytes-g2_hex, zeros-g1, zeros-g2,
  format-eq-hex, proof_to_sc_val-format,
}
use zkvote.Relay.{Arg, u64, flag, sc_val}

module _ (n : ℕ) (below : n < bn254_modulus) where
  to_hex_be_fixed : to_hex_be n ≡ fixed_hex 64 n
  unfolding to_hex_be
  to_hex_be_fixed = pad_start-to_hex 63 n (omega arith)

  strip_0x_fixed : strip_0x (fixed_hex 64 n) ≡ fixed_hex 64 n
  strip_0x_fixed = strip_0x_plain (fixed_hex 64 n) (all_hex-fixed_hex 64 n)

  fixed_value : hex_value (strip_0x (fixed_hex 64 n)) ≡ n
  fixed_value = ap hex_value strip_0x_fixed ∙ hex_value-fixed_hex 64 n (omega arith)

  pub field_passes : bn254_field (to_hex_be n) ≡ true
  unfolding bn254_field
  field_passes =
      subst (λ s. bn254_field s ≡ true) (sym to_hex_be_fixed)
        (ground (arith, fixed_value, strip_0x_fixed, all_hex-fixed_hex 64 n, length-fixed_hex 64 n))

  pub field_value :
      (p : U256Parts) × (u256_value p ≡ n) × (u256_to_sc_val (to_hex_be n) ≡ ok (u256 p))
  field_value =
      let (p, value, lower, runs) = bn254_field-u256_to_sc_val (to_hex_be n) field_passes in
      (
        p,
        value ∙ ap (λ s. hex_value (strip_0x s)) to_hex_be_fixed ∙ fixed_value,
        runs
            ∙ if_true (length (strip_0x (to_hex_be n)) % 2 == 0) _ _ (
                ground (
                  arith,
                  ap length strip_0x_fixed,
                  ap (λ s. length (strip_0x s)) to_hex_be_fixed,
                  length-fixed_hex 64 n,
                )),
      )

and_true : (a b c : Bool) → a ≡ true → b ≡ true → c ≡ true → (a && b && c) ≡ true
and_true a b c p q r = ground arith

component_passes :
    (m : ℕ) (s : Text)
    → all_hex s ≡ true
    → length s ≡ twice m
    → is_all_zeros (bytes_of_hex s) ≡ false
    → (hex_string (twice m) s && not (all_zero_digits (pad_start (twice m) (strip_0x s)))) ≡ true
unfolding hex_string
component_passes m s h l z =
    rw (strip_0x_plain s h, pad_start_full (twice m) s l, sym (zeros-bytes_of_hex m s l h), z, h)
      (ground (arith, l))

module _ (p : SnarkProof) (f : FitsProof p)
    (finite : (is_infinity1 p.pi_a || is_infinity2 p.pi_b || is_infinity1 p.pi_c) ≡ false) where
  pub proof_passes : groth16_proof (format_proof_for_soroban p) ≡ true
  unfolding groth16_proof proof_a proof_b proof_c
  proof_passes =
      let a = component_passes 64 (g1_hex p.pi_a) (all_hex-g1_hex p.pi_a) (length-g1_hex p.pi_a) (
        ap is_all_zeros (bytes-g1_hex p.pi_a)
        ∙ zeros-g1 p.pi_a f.a_fits
        ∙ ground (arith, finite)) in
      let b = component_passes 128 (g2_hex p.pi_b) (all_hex-g2_hex p.pi_b) (length-g2_hex p.pi_b) (
        ap is_all_zeros (bytes-g2_hex p.pi_b)
        ∙ zeros-g2 p.pi_b f.b_fits
        ∙ ground (arith, finite)) in
      let c = component_passes 64 (g1_hex p.pi_c) (all_hex-g1_hex p.pi_c) (length-g1_hex p.pi_c) (
        ap is_all_zeros (bytes-g1_hex p.pi_c)
        ∙ zeros-g1 p.pi_c f.c_fits
        ∙ ground (arith, finite)) in
      subst (λ q. groth16_proof q ≡ true) (sym (format-eq-hex p f)) (and_true _ _ _ a b c)

  pub proof_encodes :
      proof_to_sc_val (format_proof_for_soroban p)
      ≡ ok (proof_map (g1_bytes p.pi_a) (g2_bytes p.pi_b) (g1_bytes p.pi_c))
  proof_encodes = proof_to_sc_val-format p f ∙ if_false _ _ _ finite

abbrev pub encoded_args : ℕ → ℕ → Bool → U256Parts → U256Parts → SnarkProof → List Arg
encoded_args dao_id proposal_id choice nullifier root p =
    u64 dao_id
    ∷ u64 proposal_id
    ∷ flag choice
    ∷ sc_val (u256 nullifier)
    ∷ sc_val (u256 root)
    ∷ sc_val (proof_map (g1_bytes p.pi_a) (g2_bytes p.pi_b) (g1_bytes p.pi_c))
    ∷ []
