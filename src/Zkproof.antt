-- ===== src/Zkproof.antt =====
-- frontend/src/lib/zkproof.ts: the text form in which a Groth16 proof is sent to the relayer, the
-- random secret, and the hashed identities. A decimal text of a field element stands as its number;
-- Poseidon (circomlibjs) is a parameter.
pub mod Format
use zkvote.Prelude.{ℕ, ◌+◌, ◌*◌, List, [], ◌∷◌, ◌++◌}
use zkvote.Hex.{Text, pad_start, to_hex}
use zkvote.Stellar.{Groth16Proof}

-- A point of G1, and one of G2 with coordinates real first.
pub record G1 : Type 0 where
  pub x : ℕ
  pub y : ℕ

pub record Fp2 : Type 0 where
  pub c0 : ℕ
  pub c1 : ℕ

pub record G2 : Type 0 where
  pub x : Fp2
  pub y : Fp2

-- snarkjs's proof: `pi_a`, `pi_b`, `pi_c`
pub record SnarkProof : Type 0 where
  pub pi_a : G1
  pub pi_b : G2
  pub pi_c : G1

unfoldable pub to_hex_be : ℕ → Text
to_hex_be value = pad_start 64 (to_hex value)

unfoldable pub format_proof_for_soroban : SnarkProof → Groth16Proof
format_proof_for_soroban proof = record {
  a = to_hex_be proof.pi_a.x ++ to_hex_be proof.pi_a.y;
  b =
      to_hex_be proof.pi_b.x.c1
      ++ (to_hex_be proof.pi_b.x.c0 ++ (to_hex_be proof.pi_b.y.c1 ++ to_hex_be proof.pi_b.y.c0));
  c = to_hex_be proof.pi_c.x ++ to_hex_be proof.pi_c.y;
}

-- The loop of `generateSecret` over the random bytes: `(result << 8) | byte` with a byte in the
-- bits that the shift has cleared is a sum.
unfoldable pub secret_from : ℕ → List ℕ → ℕ
secret_from result [] = result
secret_from result (byte ∷ array) = secret_from (result * 256 + byte) array

unfoldable pub generate_secret : List ℕ → ℕ
unfolding secret_from
generate_secret array = secret_from 0 array

module _ (poseidon : List ℕ → ℕ) where
  unfoldable pub calculate_nullifier : ℕ → ℕ → ℕ → ℕ
  calculate_nullifier secret dao_id proposal_id = poseidon (secret ∷ dao_id ∷ proposal_id ∷ [])

  unfoldable pub calculate_comment_nullifier : ℕ → ℕ → ℕ → ℕ → ℕ
  calculate_comment_nullifier secret dao_id proposal_id comment_nonce =
      poseidon (secret ∷ dao_id ∷ proposal_id ∷ comment_nonce ∷ [])

  unfoldable pub calculate_commitment : ℕ → ℕ → ℕ
  calculate_commitment secret salt = poseidon (secret ∷ salt ∷ [])
