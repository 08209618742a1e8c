-- ===== src/Slug/Shape.antt =====
-- lib/utils.ts: what a slug looks like.
use zkvote.Prelude.{
  ℕ, ◌≡◌, refl, ◌∙◌, inl, inr, Bool, true, false, not, ◌&&◌, ◌||◌, [], ◌∷◌, leb, ◌==◌,
  if◌then◌else◌, arith, all, all-append, Bool-cases, if_true, if_false, sym,
}
use zkvote.Hex.{Text}
use zkvote.Slug.{
  lower, to_lower_case, is_space, is_word, is_hyphen, trim_start, trim_end_step, trim_end,
  remove_non_words, replace_runs, drop_first_hyphen, drop_last_hyphen, to_slug,
}

abbrev pub is_lower_word : ℕ → Bool
is_lower_word c = (leb b'a' c && leb c b'z') || (leb b'0' c && leb c b'9') || c == b'_'

-- Lower-case word characters and single hyphens between them; `after` tells whether a hyphen, or the start, is
-- before.
abbrev pub is_slug_from : Bool → Text → Bool
is_slug_from after [] = not after
is_slug_from after (c ∷ s) =
    if is_hyphen c
    then not after && is_slug_from true s
    else is_lower_word c && is_slug_from false s

abbrev pub is_slug : Text → Bool
is_slug [] = true
is_slug (c ∷ s) = is_slug_from true (c ∷ s)

-- The same, with a hyphen allowed at the end.
abbrev single : Bool → Text → Bool
single after [] = true
single after (c ∷ s) =
    if is_hyphen c then not after && single true s else is_lower_word c && single false s

abbrev not_upper : ℕ → Bool
not_upper c = not (leb b'A' c && leb c b'Z')

abbrev slug_or_space : ℕ → Bool
slug_or_space c = is_lower_word c || is_space c || is_hyphen c

abbrev slug_unit : ℕ → Bool
slug_unit c = is_lower_word c || is_hyphen c

all-lower : (c : ℕ) → all not_upper (lower c) ≡ true
unfolding lower
all-lower c = ground arith

all-to_lower_case : (s : Text) → all not_upper (to_lower_case s) ≡ true
unfolding to_lower_case
all-to_lower_case [] = refl
all-to_lower_case (c ∷ s) =
    ground
      (arith, all-append not_upper (lower c) (to_lower_case s), all-lower c, all-to_lower_case s)

all-trim_start : (s : Text) → all not_upper s ≡ true → all not_upper (trim_start s) ≡ true
unfolding trim_start
all-trim_start [] h = refl
all-trim_start (c ∷ s) h = elim (Bool-cases (is_space c)) [
  | inl e ↦ rw e (all-trim_start s (ground arith))
  | inr e ↦ rw e h
]

all-trim_end_step :
    (c : ℕ) (s : Text)
    → not_upper c ≡ true
    → all not_upper s ≡ true
    → all not_upper (trim_end_step c s) ≡ true
all-trim_end_step c [] h k = elim (Bool-cases (is_space c)) [
  | inl e ↦ rw e refl
  | inr e ↦ rw e (ground (arith, h))
]
all-trim_end_step c (d ∷ s) h k = ground (arith, h, k)

all-trim_end : (s : Text) → all not_upper s ≡ true → all not_upper (trim_end s) ≡ true
unfolding trim_end
all-trim_end [] h = refl
all-trim_end (c ∷ s) h =
    all-trim_end_step c (trim_end s) (ground arith) (all-trim_end s (ground arith))

kept :
    (c : ℕ)
    → not_upper c ≡ true
    → (is_word c || is_space c || c == b'-') ≡ true
    → slug_or_space c ≡ true
kept c h k = ground (arith, h, k)

all-remove_non_words :
    (s : Text) → all not_upper s ≡ true → all slug_or_space (remove_non_words s) ≡ true
unfolding remove_non_words
all-remove_non_words [] h = refl
all-remove_non_words (c ∷ s) h = elim (Bool-cases (is_word c || is_space c || c == b'-')) [
  | inl e ↦ rw (e, kept c (ground arith) e) (all-remove_non_words s (ground arith))
  | inr e ↦ rw e (all-remove_non_words s (ground arith))
]

unspaced : (c : ℕ) → slug_or_space c ≡ true → is_space c ≡ false → slug_unit c ≡ true
unspaced c h k = ground (arith, h, k)

all-replace_spaces :
    (inside : Bool) (s : Text)
    → all slug_or_space s ≡ true
    → all slug_unit (replace_runs is_space inside s) ≡ true
unfolding replace_runs
all-replace_spaces inside [] h = refl
all-replace_spaces inside (c ∷ s) h = elim (Bool-cases (is_space c)) [
  | inl e ↦ rw e (
      hyphen_first inside (replace_runs is_space true s) (all-replace_spaces true s (ground arith)))
  | inr e ↦ rw (e, unspaced c (ground arith) e) (all-replace_spaces false s (ground arith))
]
  where
    hyphen_first :
        (inside : Bool) (t : Text)
        → all slug_unit t ≡ true
        → all slug_unit (if inside then t else b'-' ∷ t) ≡ true
    hyphen_first true t h = h
    hyphen_first false t h = h

both : (a b : Bool) → a ≡ true → b ≡ true → (a && b) ≡ true
both a b h k = ground arith

word : (c : ℕ) → slug_unit c ≡ true → is_hyphen c ≡ false → is_lower_word c ≡ true
word c h k = ground (arith, h, k)

both_of : (a b : Bool) → (a && b) ≡ true → (a ≡ true) × (b ≡ true)
both_of a b h = (ground arith, ground arith)

-- What a text with single hyphens says at a word character, and at the start.
word_first :
    (after : Bool) (c : ℕ) (s : Text)
    → single after (c ∷ s) ≡ true
    → is_hyphen c ≡ false
    → (is_lower_word c ≡ true) × (single false s ≡ true)
word_first after c s h e =
    both_of (is_lower_word c) (single false s) (sym (if_false (is_hyphen c) _ _ e) ∙ h)

no_hyphen : (c : ℕ) (s : Text) → single true (c ∷ s) ≡ true → is_hyphen c ≡ false
no_hyphen c s h = elim (Bool-cases (is_hyphen c)) [
  | inl e ↦
      absurd
        (ground (arith, sym (if_true {A = Bool} (is_hyphen c) (not true && single true s) _ e) ∙ h))
  | inr e ↦ e
]

single-replace_hyphens :
    (inside : Bool) (s : Text)
    → all slug_unit s ≡ true
    → single inside (replace_runs is_hyphen inside s) ≡ true
unfolding replace_runs
single-replace_hyphens inside [] h = refl
single-replace_hyphens inside (c ∷ s) h = elim (Bool-cases (is_hyphen c)) [
  | inl e ↦ rw e (
      hyphen_first inside (replace_runs is_hyphen true s)
        (single-replace_hyphens true s (ground arith)))
  | inr e ↦ rw e (
      rw e (
        both (is_lower_word c) _ (word c (ground arith) e)
          (single-replace_hyphens false s (ground arith))))
]
  where
    hyphen_first :
        (inside : Bool) (t : Text)
        → single true t ≡ true
        → single inside (if inside then t else b'-' ∷ t) ≡ true
    hyphen_first true t h = h
    hyphen_first false t h = h

single-drop_first : (s : Text) → single false s ≡ true → single true (drop_first_hyphen s) ≡ true
unfolding drop_first_hyphen
single-drop_first [] h = refl
single-drop_first (c ∷ s) h = elim (Bool-cases (is_hyphen c)) [
  | inl e ↦ rw e (ground (arith, e))
  | inr e ↦ rw e (ground (arith, e))
]

is_slug_from-drop_last_start :
    (c : ℕ) (s : Text)
    → (single false s ≡ true → is_slug_from false (drop_last_hyphen s) ≡ true)
    → single true (c ∷ s) ≡ true
    → is_slug_from true (drop_last_hyphen (c ∷ s)) ≡ true
unfolding drop_last_hyphen
is_slug_from-drop_last_start c [] rest h = ground arith
is_slug_from-drop_last_start c (d ∷ s) rest h =
    let e = no_hyphen c (d ∷ s) h in
    let (w, t) = word_first true c (d ∷ s) h e in rw e (both (is_lower_word c) _ w (rest t))

is_slug_from-drop_last :
    (s : Text) → single false s ≡ true → is_slug_from false (drop_last_hyphen s) ≡ true
unfolding drop_last_hyphen
is_slug_from-drop_last [] h = refl
is_slug_from-drop_last (c ∷ []) h = ground arith
is_slug_from-drop_last (c ∷ d ∷ s) h = elim (Bool-cases (is_hyphen c)) [
  | inl e ↦ rw e (is_slug_from-drop_last_start d s (is_slug_from-drop_last s) (ground (arith, e)))
  | inr e ↦
      let (w, t) = word_first false c (d ∷ s) h e in
      rw e (both (is_lower_word c) _ w (is_slug_from-drop_last (d ∷ s) t))
]

is_slug-drop_last : (s : Text) → single true s ≡ true → is_slug (drop_last_hyphen s) ≡ true
unfolding drop_last_hyphen
is_slug-drop_last [] h = refl
is_slug-drop_last (c ∷ s) h =
    is_slug_of (drop_last_hyphen (c ∷ s))
      (is_slug_from-drop_last_start c s (is_slug_from-drop_last s) h)
  where
    is_slug_of : (t : Text) → is_slug_from true t ≡ true → is_slug t ≡ true
    is_slug_of [] k = refl
    is_slug_of (d ∷ t) k = k

-- The slug of any text is empty, or consists of lower-case ASCII letters, digits, underscores and hyphens, with
-- no hyphen first, last or after another.
pub is_slug-to_slug : (text : Text) → is_slug (to_slug text) ≡ true
unfolding to_slug
is_slug-to_slug text =
    let trimmed : Text = trim_end (trim_start (to_lower_case text)) in
    let spaced : Text = remove_non_words trimmed in
    let hyphened : Text = replace_runs is_space false spaced in
    let joined : Text = replace_runs is_hyphen false hyphened in
    is_slug-drop_last (drop_first_hyphen joined) (
      single-drop_first joined (
        single-replace_hyphens false hyphened (
          all-replace_spaces false spaced (
            all-remove_non_words trimmed (
              all-trim_end (trim_start (to_lower_case text))
                (all-trim_start (to_lower_case text) (all-to_lower_case text)))))))
