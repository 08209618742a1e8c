-- ===== src/Slug.antt =====
-- frontend/src/lib/utils.ts: URL paths with an id and a name. A string is the list of its UTF-16 code units.
pub mod Shape
pub mod Ids
use zkvote.Prelude.{
  ℕ, ◌+◌, Bool, true, false, not, ◌&&◌, ◌||◌, Option, none, some, List, [], ◌∷◌, ◌++◌, leb, ◌==◌,
  if◌then◌else◌, any,
}
use zkvote.Hex.{Text}
use zkvote.Decimal.{decimal, value_from, leading_digits}

-- `toLowerCase` of one code unit. Of those that are not ASCII, only the Kelvin sign and the dotted capital I
-- have a lower case with ASCII letters; the others stand as they are, since they and their lower case forms
-- are neither word characters nor spaces and are removed later.
unfoldable pub lower : ℕ → Text
lower c =
    if leb b'A' c && leb c b'Z'
    then (c + 32) ∷ []
    else if c == 0x130
    then b'i' ∷ 0x307 ∷ []
    else if c == 0x212A
    then b'k' ∷ []
    else c ∷ []

unfoldable pub to_lower_case : Text → Text
unfolding lower
to_lower_case [] = []
to_lower_case (c ∷ s) = lower c ++ to_lower_case s

-- The class `\s`, which is what `trim` removes too.
unfoldable pub is_space : ℕ → Bool
is_space c =
    (leb 9 c && leb c 13)
    || c == 32
    || c == 0xA0
    || c == 0x1680
    || (leb 0x2000 c && leb c 0x200A)
    || c == 0x2028
    || c == 0x2029
    || c == 0x202F
    || c == 0x205F
    || c == 0x3000
    || c == 0xFEFF

-- The class `\w`.
abbrev pub is_word : ℕ → Bool
is_word c =
    (leb b'a' c && leb c b'z')
    || (leb b'A' c && leb c b'Z')
    || (leb b'0' c && leb c b'9')
    || c == b'_'

unfoldable pub trim_start : Text → Text
unfolding is_space
trim_start [] = []
trim_start (c ∷ s) = if is_space c then trim_start s else c ∷ s

-- The text so far and what follows of it without its last spaces.
abbrev pub trim_end_step : ℕ → Text → Text
trim_end_step c [] = if is_space c then [] else c ∷ []
trim_end_step c (d ∷ s) = c ∷ d ∷ s

unfoldable pub trim_end : Text → Text
unfolding is_space
trim_end [] = []
trim_end (c ∷ s) = trim_end_step c (trim_end s)

-- `.replace(/[^\w\s-]/g, '')`
unfoldable pub remove_non_words : Text → Text
unfolding is_space
remove_non_words [] = []
remove_non_words (c ∷ s) =
    let rest = remove_non_words s in if is_word c || is_space c || c == b'-' then c ∷ rest else rest

-- `.replace(/P+/g, '-')`: `inside` tells whether the code unit before was of the run.
unfoldable pub replace_runs : (ℕ → Bool) → Bool → Text → Text
replace_runs p inside [] = []
replace_runs p inside (c ∷ s) =
    let rest = replace_runs p (p c) s in
    if p c then (if inside then rest else b'-' ∷ rest) else c ∷ rest

abbrev pub is_hyphen : ℕ → Bool
is_hyphen c = c == b'-'

-- `.replace(/^-|-$/g, '')`
unfoldable pub drop_first_hyphen : Text → Text
drop_first_hyphen [] = []
drop_first_hyphen (c ∷ s) = if is_hyphen c then s else c ∷ s

unfoldable pub drop_last_hyphen : Text → Text
drop_last_hyphen [] = []
drop_last_hyphen (c ∷ []) = if is_hyphen c then [] else c ∷ []
drop_last_hyphen (c ∷ d ∷ s) = c ∷ drop_last_hyphen (d ∷ s)

unfoldable pub to_slug : Text → Text
unfolding to_lower_case trim_start trim_end remove_non_words replace_runs drop_first_hyphen
    drop_last_hyphen is_space
to_slug text = drop_last_hyphen (
    drop_first_hyphen (
      replace_runs is_hyphen false (
        replace_runs is_space false
          (remove_non_words (trim_end (trim_start (to_lower_case text)))))))

abbrev pub with_id : ℕ → Text → Text
with_id id [] = decimal id
with_id id (c ∷ s) = decimal id ++ (b'-' ∷ c ∷ s)

unfoldable pub to_id_slug : ℕ → Text → Text
unfolding to_slug
to_id_slug id name = with_id id (to_slug name)

abbrev pub parsed : Text → Option ℕ
parsed [] = none
parsed (c ∷ s) = some (value_from 0 (c ∷ s))

-- Exact on numbers below `2 ^ 53`, as all that JavaScript's numbers hold exactly.
unfoldable pub parse_id_from_slug : Text → Option ℕ
parse_id_from_slug id_slug = parsed (leading_digits id_slug)
