-- ===== src/Slug/Ids.antt =====
-- lib/utils.ts: ids in paths.
use zkvote.Prelude.{ℕ, ◌≡◌, ◌≢◌, refl, ap, ◌∙◌, Option, some, [], ◌∷◌, append-nil, sym}
use zkvote.Hex.{Text}
use zkvote.Decimal.{
  decimal, value_from, leading_digits, value-decimal, leading_digits-decimal, decimal_nonempty,
}
use zkvote.Slug.{to_slug, with_id, to_id_slug, parsed, parse_id_from_slug}

parsed-decimal : (s : Text) → s ≢ [] → parsed s ≡ some (value_from 0 s)
parsed-decimal [] h = absurd (h refl)
parsed-decimal (c ∷ s) h = refl

leading_digits-with_id : (id : ℕ) (slug : Text) → leading_digits (with_id id slug) ≡ decimal id
leading_digits-with_id id [] =
    ap leading_digits (sym (append-nil (decimal id))) ∙ leading_digits-decimal id [] refl
leading_digits-with_id id (c ∷ s) = leading_digits-decimal id (b'-' ∷ c ∷ s) refl

-- The path that is made of an id and any name gives the id back.
pub parse_id_from_slug-to_id_slug :
    (id : ℕ) (name : Text) → parse_id_from_slug (to_id_slug id name) ≡ some id
unfolding parse_id_from_slug to_id_slug
parse_id_from_slug-to_id_slug id name =
    ap parsed (leading_digits-with_id id (to_slug name))
    ∙ (parsed-decimal (decimal id) (decimal_nonempty id)
        ∙ ap {B = Option ℕ} some (value-decimal id))
