-- ===== src/Validation/Proofs.antt =====
-- schemas.ts and stellar.ts: the proof schema against the conversion of proofs.
use zkvote.Prelude.{
  ok, ℕ, zero, suc, ◌+◌, ◌*◌, ◌%◌, ◌≤◌, ◌≡◌, refl, ap, ◌∙◌, Bool, true, false, ◌&&◌, List, [], ◌∷◌,
  arith, ◌==◌, length, all, ◌-◌, ◌++◌, replicate, append-nil, ◌↔◌,
}
use zkvote.Hex.{Text, strip_0x, pad_start, all_zero_digits, all_hex, is_hex, digit_value}
use zkvote.Hex.Digits.{length-pad_start, all_hex-pad_start}
use zkvote.Stellar.{
  proof_map, Groth16Proof, bytes_of_hex, hex_to_bytes, is_all_zeros, proof_to_sc_val, is_empty,
}
use zkvote.Stellar.Bytes.{twice}
use zkvote.Validation.{proof_a, proof_b, proof_c, groth16_proof}

zero_digit : (c : ℕ) → is_hex c ≡ true → (digit_value c ≡ 0) ↔ (c ≡ b'0')
unfolding is_hex digit_value
zero_digit c h = ground arith

byte_zero :
    (c d : ℕ)
    → is_hex c ≡ true
    → is_hex d ≡ true
    → (digit_value c * 16 + digit_value d == 0) ≡ (c == b'0' && d == b'0')
byte_zero c d hc hd = ground (arith, zero_digit c hc, zero_digit d hd)

three : (a b c : Bool) → (a && (b && c)) ≡ true → (a ≡ true) × (b ≡ true) × (c ≡ true)
three a b c h = ground arith

-- A byte is zero when both its digits are.
pub zeros-bytes_of_hex :
    (m : ℕ) (s : Text)
    → length s ≡ twice m
    → all_hex s ≡ true
    → is_all_zeros (bytes_of_hex s) ≡ all_zero_digits s
unfolding is_all_zeros bytes_of_hex all_zero_digits all_hex
zeros-bytes_of_hex zero [] l h = refl
zeros-bytes_of_hex zero (c ∷ s) l h = absurd (omega arith)
zeros-bytes_of_hex (suc m) [] l h = absurd (omega arith)
zeros-bytes_of_hex (suc m) (c ∷ []) l h = absurd (omega arith)
zeros-bytes_of_hex (suc m) (c ∷ d ∷ s) l h =
    let (hc, hd, hs) = three (is_hex c) (is_hex d) (all is_hex s) h in
    let later : is_all_zeros (bytes_of_hex s) ≡ all_zero_digits s =
      zeros-bytes_of_hex m s (omega arith) hs in
    rw (byte_zero c d hc hd) (ground (arith, later))

length-bytes_of_hex : (m : ℕ) (s : Text) → length s ≡ twice m → length (bytes_of_hex s) ≡ m
unfolding bytes_of_hex
length-bytes_of_hex zero [] l = refl
length-bytes_of_hex zero (c ∷ s) l = absurd (omega arith)
length-bytes_of_hex (suc m) [] l = absurd (omega arith)
length-bytes_of_hex (suc m) (c ∷ []) l = absurd (omega arith)
length-bytes_of_hex (suc m) (c ∷ d ∷ s) l = ap suc (length-bytes_of_hex m s (omega arith))

twice-eq : (m : ℕ) → twice m ≡ m * 2
twice-eq zero = refl
twice-eq (suc m) = omega (arith, twice-eq m)

-- What the schema has tested of one component of `width` digits.
component :
    (m : ℕ) (s : Text)
    → length (strip_0x s) ≤ m * 2
    → all_hex (strip_0x s) ≡ true
    → all_zero_digits (pad_start (m * 2) (strip_0x s)) ≡ false
    → length (strip_0x s) % 2 ≡ 0
    → (bytes : List ℕ) × (hex_to_bytes s m ≡ ok bytes)
      × (is_all_zeros bytes ≡ false)
      × (length bytes ≡ m)
component m s short hex nonzero even =
    let padded = pad_start (m * 2) (strip_0x s) in
    let wide : length padded ≡ twice m =
      omega (arith, length-pad_start (m * 2) (strip_0x s) short, twice-eq m) in
    let right : length (bytes_of_hex padded) ≡ m = length-bytes_of_hex m padded wide in
    (
      bytes_of_hex padded,
      unfold hex_to_bytes in ground (arith, right),
      zeros-bytes_of_hex m padded wide (all_hex-pad_start (m * 2) (strip_0x s) hex) ∙ nonzero,
      right,
    )

zeros-replicate : (k : ℕ) → all_zero_digits (replicate k b'0') ≡ true
unfolding all_zero_digits
zeros-replicate zero = refl
zeros-replicate (suc k) = zeros-replicate k

nonempty :
    (width : ℕ) (s : Text)
    → all_zero_digits (pad_start width (strip_0x s)) ≡ false
    → is_empty s ≡ false
unfolding strip_0x pad_start
nonempty width [] h =
    let zeros : all_zero_digits (replicate (width - 0) b'0' ++ []) ≡ true =
      rw append-nil (zeros-replicate (width - 0)) in
    cc
nonempty width (c ∷ s) h = refl

record IsTested (m : ℕ) (s : Text) : Type 0 where
  short : length (strip_0x s) ≤ m * 2
  hex : all_hex (strip_0x s) ≡ true
  nonzero : all_zero_digits (pad_start (m * 2) (strip_0x s)) ≡ false

proof_a-IsTested : (s : Text) → proof_a s ≡ true → IsTested 64 s
unfolding proof_a
proof_a-IsTested s h = ground arith

proof_b-IsTested : (s : Text) → proof_b s ≡ true → IsTested 128 s
unfolding proof_b
proof_b-IsTested s h = ground arith

proof_c-IsTested : (s : Text) → proof_c s ≡ true → IsTested 64 s
unfolding proof_c
proof_c-IsTested s h = ground arith

-- A proof that the schema lets through, with an even number of digits in each component, is
-- converted: to 64, 128 and 64 bytes, none of them all zero.
pub groth16_proof-proof_to_sc_val :
    (q : Groth16Proof)
    → groth16_proof q ≡ true
    → length (strip_0x q.a) % 2 ≡ 0
    → length (strip_0x q.b) % 2 ≡ 0
    → length (strip_0x q.c) % 2 ≡ 0
    → (a b c : List ℕ) × (proof_to_sc_val q ≡ ok (proof_map a b c))
      × (length a ≡ 64)
      × (length b ≡ 128)
      × (length c ≡ 64)
      × (is_all_zeros a ≡ false)
      × (is_all_zeros b ≡ false)
      × (is_all_zeros c ≡ false)
unfolding groth16_proof
groth16_proof-proof_to_sc_val q h ea eb ec =
    let ta = proof_a-IsTested q.a (ground arith) in
    let tb = proof_b-IsTested q.b (ground arith) in
    let tc = proof_c-IsTested q.c (ground arith) in
    let (a, ra, za, la) = component 64 q.a ta.short ta.hex ta.nonzero ea in
    let (b, rb, zb, lb) = component 128 q.b tb.short tb.hex tb.nonzero eb in
    let (c, rc, zc, lc) = component 64 q.c tc.short tc.hex tc.nonzero ec in
    let na = nonempty 128 q.a ta.nonzero in
    let nb = nonempty 256 q.b tb.nonzero in
    let nc = nonempty 128 q.c tc.nonzero in
    (a, b, c, unfold proof_to_sc_val in ground arith, la, lb, lc, za, zb, zc)
