-- ===== src/Examples/Paths.antt =====
-- Slugs at concrete names.
use zkvote.Prelude.{◌≡◌, refl, true, codes}
use zkvote.Hex.{Text}
use zkvote.Decimal.{decimal, digits}
use zkvote.Slug.{to_slug, to_id_slug}
use zkvote.Slug.Shape.{is_slug, is_slug-to_slug}

abbrev name : Text
name = codes "  My -- first DAO! "

slug_of_name : to_slug name ≡ codes "my-first-dao"
unfolding to_slug
slug_of_name = refl

path_of_name : to_id_slug 12 name ≡ codes "12-my-first-dao"
unfolding to_id_slug decimal digits
path_of_name = refl

is_slug-to_slug_example : is_slug (to_slug name) ≡ true
is_slug-to_slug_example = is_slug-to_slug name
