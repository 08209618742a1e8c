-- ===== src/Browser/Credentials.antt =====
-- lib/zk.ts: stored registrations.
use zkvote.Prelude.{
  ℕ, ◌≡◌, refl, ap, ◌∙◌, Bool, true, false, ◌&&◌, Option, none, some, ◌==◌, if◌then◌else◌,
  same_text, Bool-cases, inl, inr,
}
use zkvote.Hex.{Text}
use zkvote.Browser.{
  Item, registration, anonymous_comments, other, Registration, ZkCredentials, Storage,
  credential_key, store_zk_credentials, is_expired, get_credentials, get_zk_credentials,
}
use zkvote.Browser.Keys.{get_item-set_item, same_text-credential_key}

-- The answer does not depend on the rest of the storage.
answer : ℕ → Option Item → Option Registration
answer now none = none
answer now (some (registration r)) = if is_expired now r then none else some r
answer now (some (anonymous_comments records)) = none
answer now (some (other text)) = none

get_credentials-answer :
    (now : ℕ) (key : Text) (o : Option Item) (storage : Storage)
    → (get_credentials now key o storage).0 ≡ answer now o
unfolding get_credentials answer
get_credentials-answer now key none storage = refl
get_credentials-answer now key (some (registration r)) storage =
    elim (Bool-cases (is_expired now r)) [ inl h ↦ rw h refl | inr h ↦ rw h refl ]
get_credentials-answer now key (some (anonymous_comments records)) storage = refl
get_credentials-answer now key (some (other text)) storage = refl

answer_if :
    (now : ℕ) (b : Bool) (r : Registration) (o : Option Item)
    → answer now (if b then some (registration r) else o)
      ≡ (if b then (if is_expired now r then none else some r) else answer now o)
unfolding answer
answer_if now true r o = refl
answer_if now false r o = refl

-- After `storeZKCredentials` for a DAO and an account, `getZKCredentials` gives for the same DAO and account
-- what was stored with its time, or null once it has expired, and for any other DAO or account what it gave
-- before.
pub get_zk_credentials-store_zk_credentials :
    (prefix : Text) (now at : ℕ) (d d' : ℕ) (k k' : Text) (c : ZkCredentials) (leaf_index : ℕ)
    (storage : Storage)
    → (get_zk_credentials prefix now d' k'
        (store_zk_credentials prefix at d k c leaf_index storage)).0
      ≡ (if d == d' && same_text k k'
          then (if is_expired now
                (record { credentials = c; leaf_index = leaf_index; registered_at = at })
              then none
              else some (record { credentials = c; leaf_index = leaf_index; registered_at = at }))
          else (get_zk_credentials prefix now d' k' storage).0)
unfolding get_zk_credentials store_zk_credentials
get_zk_credentials-store_zk_credentials prefix now at d d' k k' c leaf_index storage =
    get_credentials-answer now (credential_key prefix d' k') _ _
    ∙ (ap (answer now)
          (get_item-set_item (credential_key prefix d' k') (credential_key prefix d k) _ storage)
        ∙ rw (same_text-credential_key prefix d d' k k', get_credentials-answer)
            (answer_if now (d == d' && same_text k k') _ _))
