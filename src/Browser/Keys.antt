-- ===== src/Browser/Keys.antt =====
-- localStorage: lookups after each change, and the keys of the registrations.
use zkvote.Prelude.{
  ℕ, ◌≡◌, refl, sym, ap, ◌∙◌, subst, inl, inr, true, ◌&&◌, none, some, [], ◌∷◌, ◌++◌, ◌==◌,
  if◌then◌else◌, arith, same_text, same_text_refl, same_text_eq, same_text_iff, codes, Bool-cases,
}
use zkvote.Hex.{Text}
use zkvote.Decimal.{decimal, value_from, leading_digits, value-decimal, leading_digits-decimal}
use zkvote.Browser.{Item, Storage, get_item, set_item, remove_item, credential_key}

pub get_item-set_item :
    (j k : Text) (v : Item) (storage : Storage)
    → get_item j (set_item k v storage) ≡ (if same_text k j then some v else get_item j storage)
unfolding get_item set_item
get_item-set_item j k v [] = refl
get_item-set_item j k v ((i, w) ∷ storage) = ground (
  arith,
  same_text_iff k j,
  same_text_iff i k,
  same_text_iff i j,
  get_item-set_item j k v storage,
)

pub get_item-remove_item :
    (j k : Text) (storage : Storage)
    → get_item j (remove_item k storage) ≡ (if same_text k j then none else get_item j storage)
unfolding get_item remove_item
get_item-remove_item j k [] = ground arith
get_item-remove_item j k ((i, w) ∷ storage) = ground (
  arith,
  same_text_iff k j,
  same_text_iff i k,
  same_text_iff i j,
  get_item-remove_item j k storage,
)

append_cancel : (x s t : Text) → x ++ s ≡ x ++ t → s ≡ t
append_cancel [] s t h = h
append_cancel (c ∷ x) s t h = append_cancel x s t (cc)

credential_key_injective :
    (prefix : Text) (d d' : ℕ) (k k' : Text)
    → credential_key prefix d k ≡ credential_key prefix d' k'
    → (d ≡ d') × (k ≡ k')
unfolding credential_key
credential_key_injective prefix d d' k k' h =
    let tail : decimal d ++ (codes "_" ++ k) ≡ decimal d' ++ (codes "_" ++ k') =
      append_cancel (codes "_voting_registration_") _ _ (append_cancel prefix _ _ h) in
    let digits : decimal d ≡ decimal d' =
      sym (leading_digits-decimal d (codes "_" ++ k) refl)
      ∙ (ap leading_digits tail ∙ leading_digits-decimal d' (codes "_" ++ k') refl) in
    let same : d ≡ d' = sym (value-decimal d) ∙ (ap (value_from 0) digits ∙ value-decimal d') in
    (
      same,
      append_cancel (codes "_") k k' (
          append_cancel (decimal d) (codes "_" ++ k) (codes "_" ++ k')
            (tail ∙ ap (λ x. x ++ (codes "_" ++ k')) (sym digits))),
    )

-- The keys of two DAOs or of two accounts differ.
pub same_text-credential_key :
    (prefix : Text) (d d' : ℕ) (k k' : Text)
    → same_text (credential_key prefix d k) (credential_key prefix d' k')
      ≡ (d == d' && same_text k k')
same_text-credential_key prefix d d' k k' = elim (Bool-cases (d == d' && same_text k k')) [
  | inl h ↦
      let e : d ≡ d' = ground arith in
      let f : k ≡ k' = same_text_eq k k' (ground arith) in
      rw h (
        subst (λ x. same_text (credential_key prefix d k) x ≡ true)
          (ap (λ i. credential_key prefix i k) e ∙ ap (credential_key prefix d') f)
          (same_text_refl (credential_key prefix d k)))
  | inr h ↦
      elim (Bool-cases (same_text (credential_key prefix d k) (credential_key prefix d' k'))) [
        | inr other ↦ rw h other
        | inl same ↦
            let (e, f) = credential_key_injective prefix d d' k k' (same_text_eq _ _ same) in
            absurd (ground (arith, same_text_iff k k', e, f, h))
      ]
]
