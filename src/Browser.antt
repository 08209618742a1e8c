-- ===== src/Browser.antt =====
-- The browser's localStorage as the frontend uses it: lib/zk.ts, lib/cache.ts and the anonymous comments of
-- lib/comments.ts. A stored JSON text stands as what it was made from.
pub mod Keys
pub mod Credentials
pub mod Caches
use zkvote.Prelude.{
  ℕ, ◌+◌, ◌-◌, ◌*◌, Bool, true, false, not, ◌&&◌, ◌||◌, Option, none, some, List, [], ◌∷◌, ◌++◌,
  Result, ok, err, ltb, ◌==◌, if◌then◌else◌, same_text, codes, any,
}
use zkvote.Hex.{Text}
use zkvote.Validation.{starts_with}
use zkvote.Decimal.{decimal}
use zkvote.Zkproof.{secret_from}

-- Decimal texts of field elements stand as their numbers.
pub record ZkCredentials : Type 0 where
  pub secret : ℕ
  pub salt : ℕ
  pub commitment : ℕ

pub record Registration : Type 0 where
  pub credentials : ZkCredentials
  pub leaf_index : ℕ
  pub registered_at : ℕ

pub record AnonymousCommentRecord : Type 0 where
  -- `none` where the relayer read no id
  pub comment_id : Option ℕ
  pub proposal_id : ℕ
  pub dao_id : ℕ
  pub nullifier : Text

-- A stored text: a registration, a list of anonymous comments, or a text that is neither.
pub data Item : Type 0 where
  registration : Registration → Item
  anonymous_comments : List AnonymousCommentRecord → Item
  other : Text → Item

abbrev pub Storage : Type 0
Storage = List (Text × Item)

unfoldable pub get_item : Text → Storage → Option Item
get_item key [] = none
get_item key ((k, v) ∷ storage) = if same_text k key then some v else get_item key storage

unfoldable pub set_item : Text → Item → Storage → Storage
set_item key v [] = (key, v) ∷ []
set_item key v ((k, w) ∷ storage) =
    if same_text k key then (k, v) ∷ storage else (k, w) ∷ set_item key v storage

unfoldable pub remove_item : Text → Storage → Storage
remove_item key [] = []
remove_item key ((k, v) ∷ storage) =
    let rest = remove_item key storage in if same_text k key then rest else (k, v) ∷ rest

-- lib/zk.ts

abbrev pub credential_cache_ttl_ms : ℕ
credential_cache_ttl_ms = 6 * 60 * 60 * 1000

-- STORAGE_PREFIX, from the network's name and the first six code units of the voting contract's id.
unfoldable pub storage_prefix : Text → Text → Text
storage_prefix network voting = codes "zkvote_" ++ (network ++ (codes "_" ++ voting))

unfoldable pub credential_key : Text → ℕ → Text → Text
credential_key prefix dao_id public_key =
    prefix ++ (codes "_voting_registration_" ++ (decimal dao_id ++ (codes "_" ++ public_key)))

-- From the signed message: SHA-256 of it, and of it after `salt:`, as big-endian numbers.
unfoldable pub credentials_of : (Text → List ℕ) → (List ℕ → ℕ) → Text → ZkCredentials
credentials_of sha256 poseidon signed_message =
    let secret = secret_from 0 (sha256 signed_message) in
    let salt = secret_from 0 (sha256 (codes "salt:" ++ signed_message)) in
    record { secret = secret; salt = salt; commitment = poseidon (secret ∷ salt ∷ []) }

abbrev pub credentials_signed : (Text → List ℕ) → (List ℕ → ℕ) → Result Text → Result ZkCredentials
credentials_signed sha256 poseidon (ok signed_message) =
    ok (credentials_of sha256 poseidon signed_message)
credentials_signed sha256 poseidon (err e) = err e

-- `sign_message` is the wallet's answer to the message for the DAO.
unfoldable pub generate_deterministic_zk_credentials :
    (Text → List ℕ) → (List ℕ → ℕ) → (ℕ → Result Text) → ℕ → Result ZkCredentials
unfolding credentials_of
generate_deterministic_zk_credentials sha256 poseidon sign_message dao_id =
    credentials_signed sha256 poseidon (sign_message dao_id)

unfoldable pub store_zk_credentials : Text → ℕ → ℕ → Text → ZkCredentials → ℕ → Storage → Storage
store_zk_credentials prefix now dao_id public_key credentials leaf_index storage =
    set_item (credential_key prefix dao_id public_key)
      (registration
        (record { credentials = credentials; leaf_index = leaf_index; registered_at = now }))
      storage

-- A registration with no time never expires.
abbrev pub is_expired : ℕ → Registration → Bool
is_expired now r = not (r.registered_at == 0) && ltb credential_cache_ttl_ms (now - r.registered_at)

-- What is stored under the key decides. Only registrations are stored under such a key.
unfoldable pub get_credentials : ℕ → Text → Option Item → Storage → Option Registration × Storage
get_credentials now key none storage = (none, storage)
get_credentials now key (some (registration r)) storage =
    if is_expired now r then (none, remove_item key storage) else (some r, storage)
get_credentials now key (some (anonymous_comments records)) storage = (none, storage)
get_credentials now key (some (other text)) storage = (none, storage)

unfoldable pub get_zk_credentials : Text → ℕ → ℕ → Text → Storage → Option Registration × Storage
unfolding get_credentials
get_zk_credentials prefix now dao_id public_key storage =
    get_credentials now (credential_key prefix dao_id public_key)
      (get_item (credential_key prefix dao_id public_key) storage) storage

-- After a miss: with a wallet the credentials are computed, and not used; a failure to sign is caught.
unfoldable pub regenerated : Option (ℕ → Result ZkCredentials) → ℕ → Option Registration
regenerated none dao_id = none
regenerated (some generate) dao_id = elim (generate dao_id) [ ok credentials ↦ none | err e ↦ none ]

unfoldable pub or_regenerated :
    Option (ℕ → Result ZkCredentials)
    → ℕ
    → Option Registration × Storage
    → Option Registration × Storage
unfolding regenerated
or_regenerated kit dao_id (some r, storage) = (some r, storage)
or_regenerated kit dao_id (none, storage) = (regenerated kit dao_id, storage)

unfoldable pub get_or_regenerate_zk_credentials :
    Text
    → Option (ℕ → Result ZkCredentials)
    → ℕ
    → ℕ
    → Text
    → Storage
    → Option Registration × Storage
unfolding get_zk_credentials or_regenerated
get_or_regenerate_zk_credentials prefix kit now dao_id public_key storage =
    or_regenerated kit dao_id (get_zk_credentials prefix now dao_id public_key storage)

-- lib/cache.ts

abbrev pub version_key : Text
version_key = codes "zkvote_deploy_version"

unfoldable pub is_cache_key : Text → Bool
unfolding starts_with
is_cache_key key =
    starts_with key (codes "zkvote_")
    || starts_with key (codes "dao_")
    || starts_with key (codes "tree_")
    || starts_with key (codes "proposal_")
    || starts_with key (codes "member_")

unfoldable pub keys_to_remove : Storage → List Text
unfolding is_cache_key
keys_to_remove [] = []
keys_to_remove ((k, v) ∷ storage) =
    if is_cache_key k then k ∷ keys_to_remove storage else keys_to_remove storage

unfoldable pub remove_all : List Text → Storage → Storage
unfolding remove_item
remove_all [] storage = storage
remove_all (key ∷ keys) storage = remove_all keys (remove_item key storage)

unfoldable pub clear_all_zkvote_caches : Storage → Storage
unfolding keys_to_remove remove_all
clear_all_zkvote_caches storage = remove_all (keys_to_remove storage) storage

abbrev pub is_version : Text → Option Item → Bool
is_version version none = false
is_version version (some (other text)) = same_text text version
is_version version (some (registration r)) = false
is_version version (some (anonymous_comments records)) = false

unfoldable pub check_and_clear_stale_cache : Text → Storage → Bool × Storage
unfolding clear_all_zkvote_caches set_item get_item
check_and_clear_stale_cache version storage =
    if is_version version (get_item version_key storage)
    then (false, storage)
    else (true, set_item version_key (other version) (clear_all_zkvote_caches storage))

-- lib/comments.ts

abbrev pub anon_comments_key : Text
anon_comments_key = codes "zkvote_anonymous_comments"

abbrev pub comments_of : Option Item → List AnonymousCommentRecord
comments_of (some (anonymous_comments records)) = records
comments_of (some (registration r)) = []
comments_of (some (other text)) = []
comments_of none = []

unfoldable pub get_anonymous_comments_all : Storage → List AnonymousCommentRecord
unfolding get_item
get_anonymous_comments_all storage = comments_of (get_item anon_comments_key storage)

unfoldable pub save_anonymous_comment : AnonymousCommentRecord → Storage → Storage
unfolding get_anonymous_comments_all set_item
save_anonymous_comment r storage =
    set_item anon_comments_key (anonymous_comments (get_anonymous_comments_all storage ++ (r ∷ [])))
      storage

unfoldable pub can_edit_anonymous_comment : ℕ → ℕ → Text → Storage → Bool
unfolding get_anonymous_comments_all
can_edit_anonymous_comment dao_id proposal_id nullifier storage =
    any
      (λ r. r.dao_id == dao_id && (r.proposal_id == proposal_id && same_text r.nullifier nullifier))
      (get_anonymous_comments_all storage)
