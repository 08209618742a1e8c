-- ===== src/Browser/Caches.antt =====
-- lib/cache.ts: what a new deployment clears.
use zkvote.Prelude.{
  ◌≡◌, refl, sym, ap, ◌∙◌, Bool, true, false, ◌&&◌, ◌||◌, Option, none, some, List, [], ◌∷◌,
  if◌then◌else◌, if_true, if_false, arith, any, same_text, same_text_refl, same_text_eq,
}
use zkvote.Hex.{Text}
use zkvote.Browser.{
  Item, other, Storage, get_item, set_item, remove_item, version_key, is_cache_key, keys_to_remove,
  remove_all, clear_all_zkvote_caches, is_version, check_and_clear_stale_cache,
}
use zkvote.Browser.Keys.{get_item-set_item, get_item-remove_item}

abbrev has_item : Option Item → Bool
has_item none = false
has_item (some v) = true

pub get_item-remove_all :
    (j : Text) (keys : List Text) (storage : Storage)
    → get_item j (remove_all keys storage)
      ≡ (if any (λ k. same_text k j) keys then none else get_item j storage)
unfolding remove_all
get_item-remove_all j [] storage = refl
get_item-remove_all j (k ∷ keys) storage =
    get_item-remove_all j keys (remove_item k storage)
    ∙ rw (get_item-remove_item j k storage) (ground arith)

any_if :
    (p : Text → Bool) (b : Bool) (k : Text) (keys : List Text)
    → any p (if b then k ∷ keys else keys) ≡ ((b && p k) || any p keys)
any_if p true k keys = refl
any_if p false k keys = refl

has_item_if :
    (b : Bool) (v : Item) (o : Option Item) → has_item (if b then some v else o) ≡ (b || has_item o)
has_item_if true v o = refl
has_item_if false v o = refl

never : (b : Bool) → false ≡ (b && false)
never true = refl
never false = refl

joined : (c c' s h : Bool) → (s ≡ true → c ≡ c') → ((c && s) || (c' && h)) ≡ (c' && (s || h))
joined c c' true h e = rw (e refl) (ground arith)
joined c c' false h e = ground arith

removed :
    (j : Text) (storage : Storage)
    → any (λ k. same_text k j) (keys_to_remove storage)
      ≡ (is_cache_key j && has_item (get_item j storage))
unfolding keys_to_remove get_item
removed j [] = never (is_cache_key j)
removed j ((k, v) ∷ storage) =
    any_if (λ k. same_text k j) (is_cache_key k) k (keys_to_remove storage)
    ∙ (ap (λ b. (is_cache_key k && same_text k j) || b) (removed j storage)
        ∙ (joined (is_cache_key k) (is_cache_key j) (same_text k j) (has_item (get_item j storage))
              (λ same. ap is_cache_key (same_text_eq k j same))
            ∙ ap (λ b. is_cache_key j && b)
                (sym (has_item_if (same_text k j) v (get_item j storage)))))

get_item-clear_all :
    (j : Text) (storage : Storage)
    → get_item j (clear_all_zkvote_caches storage)
      ≡ (if is_cache_key j then none else get_item j storage)
unfolding clear_all_zkvote_caches
get_item-clear_all j storage =
    get_item-remove_all j (keys_to_remove storage) storage
    ∙ rw (removed j storage) (absent (is_cache_key j) (get_item j storage))
  where
    absent :
        (b : Bool) (o : Option Item)
        → (if b && has_item o then none else o) ≡ (if b then none else o)
    absent true none = refl
    absent true (some v) = refl
    absent false o = refl

-- When the stored version is not the deployed one, `checkAndClearStaleCache` answers true and leaves, besides the
-- new version, exactly the entries whose keys have none of the five prefixes; with the same version the next call
-- answers false and changes nothing.
pub check_and_clear_stale_cache_clears :
    (version : Text) (storage : Storage)
    → is_version version (get_item version_key storage) ≡ false
    → ((check_and_clear_stale_cache version storage).0 ≡ true)
      × ((j : Text)
          → get_item j (check_and_clear_stale_cache version storage).1 ≡ (
              if same_text version_key j
              then some (other version)
              else if is_cache_key j
              then none
              else get_item j storage))
      × (check_and_clear_stale_cache version (check_and_clear_stale_cache version storage).1
          ≡ (false, (check_and_clear_stale_cache version storage).1))
check_and_clear_stale_cache_clears version storage h =
    (ap (λ r. r.0) first, (λ j. rw first (reads j)), rw first again)
  where
    cleared : Storage
    cleared = set_item version_key (other version) (clear_all_zkvote_caches storage)

    first : check_and_clear_stale_cache version storage ≡ (true, cleared)
    first = unfold check_and_clear_stale_cache in if_false {A = Bool × Storage} _ _ _ h

    reads :
        (j : Text)
        → get_item j cleared ≡ (
            if same_text version_key j
            then some (other version)
            else if is_cache_key j
            then none
            else get_item j storage)
    reads j =
        get_item-set_item j version_key (other version) (clear_all_zkvote_caches storage)
        ∙ rw (get_item-clear_all j storage) refl

    again : check_and_clear_stale_cache version cleared ≡ (false, cleared)
    again =
        unfold check_and_clear_stale_cache in
        if_true {A = Bool × Storage} _ _ _
          (ap (is_version version) (reads version_key ∙ refl) ∙ same_text_refl version)
