-- ===== src/Sync.antt =====
-- backend/src/services/sync.ts, and the role that backend/src/routes/daos.ts gives a user: copying the
-- DAOs and their members from the contracts. What a contract call gives, after the account, the
-- simulation and the SDK's reading of the value, is a parameter: an error if any of these throws, and
-- `none` where the simulation fails or returns nothing.
pub mod Daos
pub mod Members
use Prim.Native.String.{◌++◌ as text_append}
use zkvote.Prelude.{
  ℕ, zero, suc, ◌+◌, String, Bool, true, false, not, Option, none, some, List, [], ◌∷◌, ◌++◌,
  Result, ok, err, ◌==◌, str_eq, if◌then◌else◌, length, any,
}
use zkvote.Db.{DaoRow, Db}
use zkvote.Db.Daos.{DaoInput, upsert_daos, set_daos_sync_time, get_all_cached_daos}
use zkvote.Indexer.Service.{DaoData, ensure_dao_create_event}

-- What `get_dao` returns. An empty text is falsy, and `none` is a member that is not there.
pub record ChainDao : Type 0 where
  pub name : String
  pub creator : String
  pub membership_open : Option Bool
  pub members_can_propose : Option Bool
  pub metadata_cid : Option String
  pub member_count : Option ℕ

pub record Registry : Type 0 where
  pub dao_count : Result (Option ℕ)
  pub get_dao : ℕ → Result (Option ChainDao)

abbrev pub some_text : Option String → Option String
some_text none = none
some_text (some s) = if str_eq s "" then none else some s

-- `x !== false` and `x === true`
abbrev pub not_false : Option Bool → Bool
not_false (some false) = false
not_false _ = true

abbrev pub is_true : Option Bool → Bool
is_true (some true) = true
is_true _ = false

abbrev pub count_or_zero : Option ℕ → ℕ
count_or_zero none = 0
count_or_zero (some n) = n

abbrev pub data_of : DaoInput → DaoData
data_of dao = record { name = some dao.name; creator = some dao.creator }

module _ (show : ℕ → String) (stringify : DaoData → String) where
  unfoldable pub dao_input : ℕ → ChainDao → DaoInput
  dao_input i d = record {
    id = i;
    name = if str_eq d.name "" then text_append "DAO " (show i) else d.name;
    creator = d.creator;
    membership_open = not_false d.membership_open;
    members_can_propose = is_true d.members_can_propose;
    metadata_cid = some_text d.metadata_cid;
    member_count = some (count_or_zero d.member_count);
  }

  -- An error is caught, and the DAO left out.
  unfoldable pub fetched_as : ℕ → Result (Option ChainDao) → Option DaoInput
  fetched_as i (err e) = none
  fetched_as i (ok none) = none
  fetched_as i (ok (some d)) = some (dao_input i d)

  abbrev pub pushed : Option DaoInput → List DaoInput → List DaoInput
  pushed none daos = daos
  pushed (some dao) daos = dao ∷ daos

  -- The loop from `i`, with `n` DAOs to go.
  unfoldable pub fetch_daos : Registry → ℕ → ℕ → List DaoInput
  fetch_daos registry i zero = []
  fetch_daos registry i (suc n) =
      pushed (fetched_as i (registry.get_dao i)) (fetch_daos registry (suc i) n)

  abbrev pub and_then : Result Bool × Db → (Db → Result (Unit {0}) × Db) → Result (Unit {0}) × Db
  and_then (ok b, db) rest = rest db
  and_then (err e, db) rest = (err e, db)

  unfoldable pub ensure_events : ℕ → List DaoInput → Db → Result (Unit {0}) × Db
  ensure_events now [] db = (ok tt, db)
  ensure_events now (dao ∷ daos) db =
      and_then (ensure_dao_create_event show stringify now dao.id (data_of dao) db)
        (ensure_events now daos)

  abbrev pub synced : ℕ → ℕ → Result (Unit {0}) × Db → ℕ × Db
  synced now n (ok done, db) = (n, set_daos_sync_time now db)
  synced now n (err e, db) = (0, db)

  unfoldable pub save_daos : ℕ → List DaoInput → Db → ℕ × Db
  save_daos now daos db =
      if length daos == 0
      then (0, set_daos_sync_time now db)
      else synced now (length daos) (ensure_events now daos (upsert_daos now daos db))

  unfoldable pub sync_counted : ℕ → Registry → Result (Option ℕ) → Db → ℕ × Db
  unfolding save_daos
  sync_counted now registry (err e) db = (0, db)
  sync_counted now registry (ok none) db = (0, db)
  sync_counted now registry (ok (some count)) db =
      if count == 0
      then (0, set_daos_sync_time now db)
      else save_daos now (fetch_daos registry 1 count) db

  -- `configured` is whether the registry has a valid contract id.
  unfoldable pub sync_daos_from_contract : ℕ → Bool → Registry → Db → ℕ × Db
  unfolding sync_counted
  sync_daos_from_contract now configured registry db =
      if not configured then (0, db) else sync_counted now registry registry.dao_count db

-- The two caches: a set is a list without repetition.
pub record Caches : Type 0 where
  pub members : List (ℕ × List String)
  pub admins : List (ℕ × String)

abbrev pub set_entry {ℓ} : {A : Type ℓ} → ℕ → A → List (ℕ × A) → List (ℕ × A)
set_entry k a [] = (k, a) ∷ []
set_entry k a ((j, b) ∷ es) = if j == k then (k, a) ∷ es else (j, b) ∷ set_entry k a es

abbrev pub get_entry {ℓ} : {A : Type ℓ} → ℕ → List (ℕ × A) → Option A
get_entry k [] = none
get_entry k ((j, b) ∷ es) = if j == k then some b else get_entry k es

abbrev pub has : String → List String → Bool
has a members = any (λ m. str_eq m a) members

abbrev pub add_member : String → List String → List String
add_member a members = if has a members then members else members ++ a ∷ []

abbrev pub add_members : List String → List String → List String
add_members [] members = members
add_members (a ∷ rest) members = add_members rest (add_member a members)

-- A page of `get_members` from an offset; the empty list is also any answer that is no list of members.
unfoldable pub take_page :
    (ℕ → List String → Option (Result (List String)))
    → ℕ
    → List String
    → Result (List String)
    → Option (Result (List String))
take_page again offset members (err e) = some (err e)
take_page again offset members (ok []) = some (ok members)
take_page again offset members (ok (a ∷ rest)) =
    let page = a ∷ rest in
    let members' = add_members page members in
    if length page == 50 then again (offset + length page) members' else some (ok members')

-- The loop, with fuel; `none` is out of fuel.
unfoldable pub get_pages :
    ℕ → (ℕ → Result (List String)) → ℕ → List String → Option (Result (List String))
unfolding take_page
get_pages zero get_members offset members = none
get_pages (suc fuel) get_members offset members =
    take_page (get_pages fuel get_members) offset members (get_members offset)

abbrev pub cached_members : ℕ → Option (Result (List String)) → Caches → Option Caches
cached_members dao_id none caches = none
cached_members dao_id (some (err e)) caches = some caches
cached_members dao_id (some (ok members)) caches =
    some (record caches { members = set_entry dao_id members caches.members })

unfoldable pub sync_dao_membership :
    ℕ → Bool → (ℕ → ℕ → Result (List String)) → ℕ → Caches → Option Caches
sync_dao_membership fuel configured get_members dao_id caches =
    if not configured
    then some caches
    else cached_members dao_id (get_pages fuel (get_members dao_id) 0 []) caches

unfoldable pub cache_admins : List DaoRow → Caches → Caches
cache_admins [] caches = caches
cache_admins (dao ∷ daos) caches = cache_admins daos (
    if str_eq dao.creator ""
    then caches
    else record caches { admins = set_entry dao.id dao.creator caches.admins })

abbrev pub then_caches : Option Caches → (Caches → Option Caches) → Option Caches
then_caches none rest = none
then_caches (some caches) rest = rest caches

unfoldable pub sync_each :
    ℕ → Bool → (ℕ → ℕ → Result (List String)) → List DaoRow → Caches → Option Caches
sync_each fuel configured get_members [] caches = some caches
sync_each fuel configured get_members (dao ∷ daos) caches =
    then_caches (sync_dao_membership fuel configured get_members dao.id caches)
      (sync_each fuel configured get_members daos)

unfoldable pub sync_all_memberships :
    ℕ → Bool → (ℕ → ℕ → Result (List String)) → Db → Caches → Option Caches
sync_all_memberships fuel configured get_members db caches =
    if not configured
    then some caches
    else (let daos = get_all_cached_daos db in
        sync_each fuel configured get_members daos (cache_admins daos caches))

pub data Role : Type 0 where
  admin : Role
  member : Role
  no_role : Role

-- `daoAdminsCache.get(dao.id) || dao.creator`
abbrev pub admin_of : Option String → String → String
admin_of none creator = creator
admin_of (some a) creator = if str_eq a "" then creator else a

abbrev pub member_role : String → Option (List String) → Role
member_role user none = no_role
member_role user (some members) = if has user members then member else no_role

-- The role in the answer of GET /daos.
unfoldable pub role_of : String → Caches → DaoRow → Role
role_of user caches dao =
    if str_eq (admin_of (get_entry dao.id caches.admins) dao.creator) user
    then admin
    else member_role user (get_entry dao.id caches.members)
