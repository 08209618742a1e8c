-- ===== src/Zkproof/Format.antt =====
-- zkproof.ts and stellar.ts: the text that the browser formats, read by the relayer.
use zkvote.Prelude.{
  ok, err, ℕ, zero, suc, ◌^◌, ◌/◌, ◌%◌, ◌&&◌, ◌==◌, if◌then◌else◌, all-append, ◌<◌, ◌≡◌, refl, ap,
  ◌∙◌, Bool, true, false, ◌||◌, List, [], ◌∷◌, ◌++◌, append_assoc, arith, length,
}
use zkvote.Hex.{Text, all_hex}
use zkvote.Hex.Digits.{fixed_hex, all_hex-fixed_hex, all_hex-append, pad_start-to_hex}
use native.Mathlib.Nat.{pow-suc, pow-zero}
use zkvote.Stellar.{
  is_empty, proof_map, bytes_of_hex, hex_to_bytes, is_all_zeros, Groth16Proof, proof_to_sc_val,
}
use zkvote.Stellar.Bytes.{
  be_bytes, bytes_of_hex-fixed_hex, bytes_of_hex-fixed_append, hex_to_bytes_full,
}
use zkvote.Zkproof.{G1, G2, SnarkProof, to_hex_be, format_proof_for_soroban}

pub record Fits1 (p : G1) : Type 0 where
  pub x_lt : p.x < 2 ^ 256
  pub y_lt : p.y < 2 ^ 256

pub record Fits2 (p : G2) : Type 0 where
  pub x0_lt : p.x.c0 < 2 ^ 256
  pub x1_lt : p.x.c1 < 2 ^ 256
  pub y0_lt : p.y.c0 < 2 ^ 256
  pub y1_lt : p.y.c1 < 2 ^ 256

-- The encodings of EIP-196 and EIP-197.
abbrev pub g1_bytes : G1 → List ℕ
g1_bytes p = be_bytes 32 p.x ++ be_bytes 32 p.y

abbrev pub g2_bytes : G2 → List ℕ
g2_bytes p =
    be_bytes 32 p.x.c1 ++ (be_bytes 32 p.x.c0 ++ (be_bytes 32 p.y.c1 ++ be_bytes 32 p.y.c0))

to_hex_be-eq-fixed : (n : ℕ) → n < 2 ^ 256 → to_hex_be n ≡ fixed_hex 64 n
unfolding to_hex_be
to_hex_be-eq-fixed n h = pad_start-to_hex 63 n h

pub g1_hex : G1 → Text
g1_hex p = fixed_hex 64 p.x ++ fixed_hex 64 p.y

pub g2_hex : G2 → Text
g2_hex p =
    fixed_hex 64 p.x.c1 ++ (fixed_hex 64 p.x.c0 ++ (fixed_hex 64 p.y.c1 ++ fixed_hex 64 p.y.c0))

pub bytes-g1_hex : (p : G1) → bytes_of_hex (g1_hex p) ≡ g1_bytes p
unfolding g1_hex
bytes-g1_hex p =
    bytes_of_hex-fixed_append 32 p.x (fixed_hex 64 p.y)
    ∙ ap (λ l. be_bytes 32 p.x ++ l) (bytes_of_hex-fixed_hex 32 p.y)

pub bytes-g2_hex : (p : G2) → bytes_of_hex (g2_hex p) ≡ g2_bytes p
unfolding g2_hex
bytes-g2_hex p = rw (
  bytes_of_hex-fixed_append 32 p.x.c1,
  bytes_of_hex-fixed_append 32 p.x.c0,
  bytes_of_hex-fixed_append 32 p.y.c1,
  bytes_of_hex-fixed_hex 32 p.y.c0,
)

pub all_hex-g1_hex : (p : G1) → all_hex (g1_hex p) ≡ true
unfolding g1_hex
all_hex-g1_hex p = all_hex-append _ _ (all_hex-fixed_hex 64 p.x) (all_hex-fixed_hex 64 p.y)

pub length-g1_hex : (p : G1) → length (g1_hex p) ≡ 128
unfolding g1_hex
length-g1_hex p = refl

hex_to_bytes-g1_hex : (p : G1) → hex_to_bytes (g1_hex p) 64 ≡ ok (g1_bytes p)
hex_to_bytes-g1_hex p =
    hex_to_bytes_full (g1_hex p) 64 (all_hex-g1_hex p) (length-g1_hex p)
      (ap length (bytes-g1_hex p))
    ∙ ap ok (bytes-g1_hex p)

pub all_hex-g2_hex : (p : G2) → all_hex (g2_hex p) ≡ true
unfolding g2_hex
all_hex-g2_hex p = all_hex-append _ _ (all_hex-fixed_hex 64 p.x.c1) (
    all_hex-append _ _ (all_hex-fixed_hex 64 p.x.c0)
      (all_hex-append _ _ (all_hex-fixed_hex 64 p.y.c1) (all_hex-fixed_hex 64 p.y.c0)))

pub length-g2_hex : (p : G2) → length (g2_hex p) ≡ 256
unfolding g2_hex
length-g2_hex p = refl

hex_to_bytes-g2_hex : (p : G2) → hex_to_bytes (g2_hex p) 128 ≡ ok (g2_bytes p)
hex_to_bytes-g2_hex p =
    hex_to_bytes_full (g2_hex p) 128 (all_hex-g2_hex p) (length-g2_hex p)
      (ap length (bytes-g2_hex p))
    ∙ ap ok (bytes-g2_hex p)

pub record FitsProof (p : SnarkProof) : Type 0 where
  pub a_fits : Fits1 p.pi_a
  pub b_fits : Fits2 p.pi_b
  pub c_fits : Fits1 p.pi_c

pub format-eq-hex :
    (p : SnarkProof)
    → FitsProof p
    → format_proof_for_soroban p
      ≡ record { a = g1_hex p.pi_a; b = g2_hex p.pi_b; c = g1_hex p.pi_c }
unfolding format_proof_for_soroban g1_hex g2_hex
format-eq-hex p f = rw (
  to_hex_be-eq-fixed p.pi_a.x f.a_fits.x_lt,
  to_hex_be-eq-fixed p.pi_a.y f.a_fits.y_lt,
  to_hex_be-eq-fixed p.pi_b.x.c0 f.b_fits.x0_lt,
  to_hex_be-eq-fixed p.pi_b.x.c1 f.b_fits.x1_lt,
  to_hex_be-eq-fixed p.pi_b.y.c0 f.b_fits.y0_lt,
  to_hex_be-eq-fixed p.pi_b.y.c1 f.b_fits.y1_lt,
  to_hex_be-eq-fixed p.pi_c.x f.c_fits.x_lt,
  to_hex_be-eq-fixed p.pi_c.y f.c_fits.y_lt,
)

decoded :
    (q : Groth16Proof) {a b c : List ℕ}
    → is_empty q.a ≡ false
    → is_empty q.b ≡ false
    → is_empty q.c ≡ false
    → hex_to_bytes q.a 64 ≡ ok a
    → hex_to_bytes q.b 128 ≡ ok b
    → hex_to_bytes q.c 64 ≡ ok c
    → proof_to_sc_val q ≡ (
        if is_all_zeros a || is_all_zeros b || is_all_zeros c
        then err "Invalid proof: proof components cannot be point at infinity (all zeros)"
        else ok (proof_map a b c))
unfolding proof_to_sc_val
decoded q ea eb ec ha hb hc = ground arith

nonempty_fixed : (k n : ℕ) (t : Text) → is_empty (fixed_hex (suc k) n ++ t) ≡ false
nonempty_fixed zero n t = refl
nonempty_fixed (suc k) n t =
    rw (append_assoc (fixed_hex (suc k) (n / 16))) (nonempty_fixed k (n / 16) _)

nonempty_g1 : (p : G1) → is_empty (g1_hex p) ≡ false
unfolding g1_hex
nonempty_g1 p = nonempty_fixed 63 p.x (fixed_hex 64 p.y)

nonempty_g2 : (p : G2) → is_empty (g2_hex p) ≡ false
unfolding g2_hex
nonempty_g2 p =
    nonempty_fixed 63 p.x.c1 (fixed_hex 64 p.x.c0 ++ (fixed_hex 64 p.y.c1 ++ fixed_hex 64 p.y.c0))

zeros-append : (s t : List ℕ) → is_all_zeros (s ++ t) ≡ (is_all_zeros s && is_all_zeros t)
unfolding is_all_zeros
zeros-append s t = all-append _ s t

zeros-be_bytes : (k n : ℕ) → n < 256 ^ k → is_all_zeros (be_bytes k n) ≡ (n == 0)
zeros-be_bytes zero n h =
    let z : n ≡ 0 = omega (arith, pow-zero 256) in rw z (unfold is_all_zeros in refl)
zeros-be_bytes (suc k) n h =
    rw
      (
        zeros-append (be_bytes k (n / 256)) (n % 256 ∷ []),
        zeros-be_bytes k (n / 256) (omega (arith, pow-suc 256 k)),
      )
      (unfold is_all_zeros in ground arith)

-- The point at infinity is the pair of zeros.
abbrev pub is_infinity1 : G1 → Bool
is_infinity1 p = p.x == 0 && p.y == 0

abbrev pub is_infinity2 : G2 → Bool
is_infinity2 p = p.x.c1 == 0 && (p.x.c0 == 0 && (p.y.c1 == 0 && p.y.c0 == 0))

pub zeros-g1 : (p : G1) → Fits1 p → is_all_zeros (g1_bytes p) ≡ is_infinity1 p
zeros-g1 p f = rw (
  zeros-append (be_bytes 32 p.x) (be_bytes 32 p.y),
  zeros-be_bytes 32 p.x f.x_lt,
  zeros-be_bytes 32 p.y f.y_lt,
)

pub zeros-g2 : (p : G2) → Fits2 p → is_all_zeros (g2_bytes p) ≡ is_infinity2 p
zeros-g2 p f = rw (
  zeros-append (be_bytes 32 p.x.c1) _,
  zeros-append (be_bytes 32 p.x.c0) _,
  zeros-append (be_bytes 32 p.y.c1) _,
  zeros-be_bytes 32 p.x.c1 f.x1_lt,
  zeros-be_bytes 32 p.x.c0 f.x0_lt,
  zeros-be_bytes 32 p.y.c1 f.y1_lt,
  zeros-be_bytes 32 p.y.c0 f.y0_lt,
)

-- For a proof whose coordinates are below `2 ^ 256`, the relayer decodes the browser's text to the
-- EIP-196/197 bytes of its three points, unless one of them is the point at infinity, which it
-- refuses.
pub proof_to_sc_val-format :
    (p : SnarkProof)
    → FitsProof p
    → proof_to_sc_val (format_proof_for_soroban p) ≡ (
        if is_infinity1 p.pi_a || is_infinity2 p.pi_b || is_infinity1 p.pi_c
        then err "Invalid proof: proof components cannot be point at infinity (all zeros)"
        else ok (proof_map (g1_bytes p.pi_a) (g2_bytes p.pi_b) (g1_bytes p.pi_c)))
proof_to_sc_val-format p f = rw (
  format-eq-hex p f,
  decoded (record { a = g1_hex p.pi_a; b = g2_hex p.pi_b; c = g1_hex p.pi_c }) (nonempty_g1 p.pi_a)
      (nonempty_g2 p.pi_b) (nonempty_g1 p.pi_c) (hex_to_bytes-g1_hex p.pi_a)
      (hex_to_bytes-g2_hex p.pi_b) (hex_to_bytes-g1_hex p.pi_c),
  zeros-g1 p.pi_a f.a_fits,
  zeros-g2 p.pi_b f.b_fits,
  zeros-g1 p.pi_c f.c_fits,
)
