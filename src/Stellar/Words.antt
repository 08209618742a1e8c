-- ===== src/Stellar/Words.antt =====
-- `u256ToScVal` and `scValToU256Hex`: what they accept, the number they carry, the round trip.
use zkvote.Prelude.{
  ok, ◌>>=◌, ℕ, zero, suc, ◌+◌, ◌*◌, ◌%◌, ◌^◌, ◌<◌, ◌≤◌, ◌≡◌, refl, sym, ap, subst, ◌∙◌, true, [],
  ◌∷◌, ◌++◌, arith, length, length-take, length-drop, take, drop, take-append-drop, take_full,
  drop-drop,
}
use zkvote.Hex.{Text, strip_0x, hex_value, pad_start, all_hex}
use zkvote.Hex.Digits.{
  fixed_hex, all_hex-fixed_hex, all_hex-append, hex_value-fixed_hex, hex_value-append, hex_value-lt,
  pad_start-to_hex, pad_start_full, hex_value-pad_start, length-pad_start, all_hex-pad_start,
}
use zkvote.Stellar.{
  U256Parts, ScVal, u256, u256_parts, u256_to_sc_val, sc_val_to_u256_hex, bn254_scalar_field,
}

-- The number that the four 64-bit words of a U256 stand for.
abbrev pub u256_value : U256Parts → ℕ
u256_value p = ((p.hi_hi * 2 ^ 64 + p.hi_lo) * 2 ^ 64 + p.lo_hi) * 2 ^ 64 + p.lo_lo

pub record AreWords (p : U256Parts) : Type 0 where
  pub hi_hi_lt : p.hi_hi < 2 ^ 64
  pub hi_lo_lt : p.hi_lo < 2 ^ 64
  pub lo_hi_lt : p.lo_hi < 2 ^ 64
  pub lo_lo_lt : p.lo_lo < 2 ^ 64

hex_value-split :
    (k n : ℕ) (s : Text)
    → length (drop k s) ≡ n
    → hex_value s ≡ hex_value (take k s) * 16 ^ n + hex_value (drop k s)
hex_value-split k n s h =
    subst (λ m. hex_value s ≡ hex_value (take k s) * 16 ^ m + hex_value (drop k s)) h
      (ap hex_value (sym (take-append-drop k s)) ∙ hex_value-append (take k s) (drop k s))

value-u256_parts : (s : Text) → length s ≡ 64 → u256_value (u256_parts s) ≡ hex_value s
unfolding u256_parts
value-u256_parts s h =
    let l16 : length (drop 16 s) ≡ 48 = omega (arith, length-drop 16 s) in
    let l32 : length (drop 32 s) ≡ 32 = omega (arith, length-drop 32 s) in
    let l48 : length (drop 48 s) ≡ 16 = omega (arith, length-drop 48 s) in
    let d32 : drop 16 (drop 16 s) ≡ drop 32 s = drop-drop 16 16 32 s refl in
    let d48 : drop 16 (drop 32 s) ≡ drop 48 s = drop-drop 16 32 48 s refl in
    omega (
      arith,
      hex_value-split 16 48 s l16,
      rw (d32) at (hex_value-split 16 32 (drop 16 s) (ap length d32 ∙ l32)),
      rw (d48) at (hex_value-split 16 16 (drop 32 s) (ap length d48 ∙ l48)),
      ap hex_value (take_full 16 (drop 48 s) (omega arith)),
    )

all_hex-take : (k : ℕ) (s : Text) → all_hex s ≡ true → all_hex (take k s) ≡ true
unfolding all_hex
all_hex-take zero s h = refl
all_hex-take (suc k) [] h = refl
all_hex-take (suc k) (c ∷ s) h = ground (arith, all_hex-take k s)

all_hex-drop : (k : ℕ) (s : Text) → all_hex s ≡ true → all_hex (drop k s) ≡ true
unfolding all_hex
all_hex-drop zero s h = h
all_hex-drop (suc k) [] h = refl
all_hex-drop (suc k) (c ∷ s) h = ground (arith, all_hex-drop k s)

slice-lt : (k : ℕ) (s : Text) → all_hex s ≡ true → hex_value (take 16 (drop k s)) < 2 ^ 64
slice-lt k s h =
    let t = take 16 (drop k s) in
    let small : length t ≤ 16 = omega (arith, length-take 16 (drop k s)) in
    let padded = pad_start 16 t in
    omega (
      arith,
      hex_value-pad_start 16 t,
      subst (λ m. hex_value padded < 16 ^ m) (length-pad_start 16 t small)
          (hex_value-lt padded
            (all_hex-pad_start 16 t (all_hex-take 16 (drop k s) (all_hex-drop k s h)))),
    )

-- What `u256ToScVal` asks of its argument.
pub record IsAccepted (s : Text) : Type 0 where
  pub hex : all_hex (strip_0x s) ≡ true
  pub even : length (strip_0x s) % 2 ≡ 0
  pub short : length (strip_0x s) ≤ 64
  pub below : hex_value (strip_0x s) < bn254_scalar_field

u256_to_sc_val-eq-ok :
    (s : Text) (v : ScVal)
    → u256_to_sc_val s ≡ ok v
    → IsAccepted s × (v ≡ u256 (u256_parts (pad_start 64 (strip_0x s))))
unfolding u256_to_sc_val
u256_to_sc_val-eq-ok s v h = ground (arith, hex_value-pad_start 64 (strip_0x s))

u256_to_sc_val_accepts :
    (s : Text)
    → IsAccepted s
    → u256_to_sc_val s ≡ ok (u256 (u256_parts (pad_start 64 (strip_0x s))))
unfolding u256_to_sc_val
u256_to_sc_val_accepts s a = ground (arith, hex_value-pad_start 64 (strip_0x s))

pub padded_value :
    (s : Text)
    → length (strip_0x s) ≤ 64
    → u256_value (u256_parts (pad_start 64 (strip_0x s))) ≡ hex_value (strip_0x s)
padded_value s short =
    value-u256_parts (pad_start 64 (strip_0x s)) (length-pad_start 64 (strip_0x s) short)
    ∙ hex_value-pad_start 64 (strip_0x s)

padded-AreWords : (s : Text) → IsAccepted s → AreWords (u256_parts (pad_start 64 (strip_0x s)))
unfolding u256_parts
padded-AreWords s a =
    let h = all_hex-pad_start 64 (strip_0x s) a.hex in
    let padded = pad_start 64 (strip_0x s) in
    record {
      hi_hi_lt = slice-lt 0 padded h;
      hi_lo_lt = slice-lt 16 padded h;
      lo_hi_lt = slice-lt 32 padded h;
      lo_lo_lt = slice-lt 48 padded h;
    }

-- A text that is converted to a U256 is hexadecimal digits, an even number of them and at most 64, behind
-- an optional `0x`; the parts are words of 64 bits, and together the number that the digits write.
pub u256_to_sc_val_sound :
    (s : Text) (p : U256Parts)
    → u256_to_sc_val s ≡ ok (u256 p)
    → IsAccepted s × (u256_value p ≡ hex_value (strip_0x s)) × AreWords p
u256_to_sc_val_sound s p h =
    let (a, e) = u256_to_sc_val-eq-ok s (u256 p) h in
    let e' : p ≡ u256_parts (pad_start 64 (strip_0x s)) = cc in
    (a, rw e' (padded_value s a.short), rw e' (padded-AreWords s a))

-- A text of hexadecimal digits behind an optional `0x`, an even number of them and at most 64, that writes
-- a number below the constant BN254_SCALAR_FIELD, is converted to a U256 of that number.
pub u256_to_sc_val_complete :
    (s : Text)
    → IsAccepted s
    → (p : U256Parts) × (u256_to_sc_val s ≡ ok (u256 p)) × (u256_value p ≡ hex_value (strip_0x s))
u256_to_sc_val_complete s a =
    (u256_parts (pad_start 64 (strip_0x s)), u256_to_sc_val_accepts s a, padded_value s a.short)

join_words : U256Parts → Text
join_words p =
    fixed_hex 16 p.hi_hi ++ (fixed_hex 16 p.hi_lo ++ (fixed_hex 16 p.lo_hi ++ fixed_hex 16 p.lo_lo))

u256_hex-eq-join_words :
    (p : U256Parts) → AreWords p → sc_val_to_u256_hex (u256 p) ≡ ok (b'0' ∷ b'x' ∷ join_words p)
unfolding sc_val_to_u256_hex join_words
u256_hex-eq-join_words p w = rw (
  pad_start-to_hex 15 p.hi_hi w.hi_hi_lt,
  pad_start-to_hex 15 p.hi_lo w.hi_lo_lt,
  pad_start-to_hex 15 p.lo_hi w.lo_hi_lt,
  pad_start-to_hex 15 p.lo_lo w.lo_lo_lt,
)

length-join_words : (p : U256Parts) → length (join_words p) ≡ 64
unfolding join_words
length-join_words p = refl

all_hex-join_words : (p : U256Parts) → all_hex (join_words p) ≡ true
unfolding join_words
all_hex-join_words p = all_hex-append _ _ (all_hex-fixed_hex 16 p.hi_hi) (
    all_hex-append _ _ (all_hex-fixed_hex 16 p.hi_lo)
      (all_hex-append _ _ (all_hex-fixed_hex 16 p.lo_hi) (all_hex-fixed_hex 16 p.lo_lo)))

parts-join_words : (p : U256Parts) → AreWords p → u256_parts (join_words p) ≡ p
unfolding join_words u256_parts
parts-join_words p w = λ i. record {
  hi_hi = hex_value-fixed_hex 16 p.hi_hi w.hi_hi_lt i;
  hi_lo = hex_value-fixed_hex 16 p.hi_lo w.hi_lo_lt i;
  lo_hi = hex_value-fixed_hex 16 p.lo_hi w.lo_hi_lt i;
  lo_lo = hex_value-fixed_hex 16 p.lo_lo w.lo_lo_lt i;
}

value-join_words : (p : U256Parts) → AreWords p → hex_value (join_words p) ≡ u256_value p
value-join_words p w =
    sym (value-u256_parts (join_words p) (length-join_words p))
    ∙ ap u256_value (parts-join_words p w)

join_words-IsAccepted :
    (p : U256Parts)
    → AreWords p
    → u256_value p < bn254_scalar_field
    → IsAccepted (b'0' ∷ b'x' ∷ join_words p)
unfolding strip_0x
join_words-IsAccepted p w h = record {
  hex = all_hex-join_words p;
  even = rw (length-join_words p);
  short = rw (length-join_words p) (omega arith);
  below = rw (value-join_words p w) h;
}

unpadded :
    (p : U256Parts)
    → AreWords p
    → u256_parts (pad_start 64 (strip_0x (b'0' ∷ b'x' ∷ join_words p))) ≡ p
unfolding strip_0x
unpadded p w =
    ap u256_parts (pad_start_full 64 (join_words p) (length-join_words p)) ∙ parts-join_words p w

-- Reading a U256 of 64-bit words, below the constant BN254_SCALAR_FIELD, back from its printed form gives
-- it again.
pub u256_to_sc_val-sc_val_to_u256_hex :
    (p : U256Parts)
    → AreWords p
    → u256_value p < bn254_scalar_field
    → (sc_val_to_u256_hex (u256 p) >>= u256_to_sc_val) ≡ ok (u256 p)
u256_to_sc_val-sc_val_to_u256_hex p w h = rw (u256_hex-eq-join_words p w) (
    u256_to_sc_val_accepts (b'0' ∷ b'x' ∷ join_words p) (join_words-IsAccepted p w h)
    ∙ ap (λ q. ok (u256 q)) (unpadded p w))
