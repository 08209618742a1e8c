-- ===== src/Db.antt =====
-- backend/src/services/db.ts: the tables that the relayer keeps in SQLite, and the statements that it
-- runs on them. Each operation takes the tables and returns them; a thrown SQLite error is its code,
-- and a statement that throws has changed nothing. `now` is the clock, in milliseconds; timestamps,
-- ISO texts in the source, stand as such numbers. The connection itself is not modelled: every
-- operation opens it first.
pub mod Events
pub mod Statements
pub mod Durable
pub mod Query
pub mod Daos
pub mod DaoLaws
pub mod Pending
use zkvote.Prelude.{
  ℕ, suc, ◌≡◌, refl, ap, arith, eq_iff, String, Bool, Option, none, some, List, [], ◌∷◌, Result, ok,
  err, str_eq, if◌then◌else◌,
}

-- A JavaScript number where the code expects a DAO id: `Number` of a text that is none is NaN.
pub data JsNumber : Type 0 where
  nan : JsNumber
  num : ℕ → JsNumber

-- A row of `events`. `payload` is the column `data`, a JSON text.
pub record EventRow : Type 0 where
  pub id : ℕ
  pub dao_id : ℕ
  pub type : String
  pub payload : String
  pub ledger : Option ℕ
  pub tx_hash : Option String
  pub timestamp : ℕ
  pub verified : Bool
  pub created_at : ℕ

-- The member `data` of an event: null, an object that has a JSON text, or one that holds a BigInt, on
-- which `JSON.stringify` throws.
pub data Payload : Type 0 where
  null : Payload
  json : String → Payload
  with_bigint : Payload

pub record EventInput : Type 0 where
  pub dao_id : JsNumber
  pub type : String
  pub payload : Payload
  pub ledger : Option ℕ
  pub tx_hash : Option String
  pub timestamp : Option ℕ
  pub verified : Bool

pub record DaoRow : Type 0 where
  pub id : ℕ
  pub name : String
  pub creator : String
  pub membership_open : Bool
  pub members_can_propose : Bool
  pub metadata_cid : Option String
  pub member_count : ℕ
  pub updated_at : ℕ

-- The values that the code stores under a metadata key.
pub data MetaValue : Type 0 where
  number : ℕ → MetaValue
  time : ℕ → MetaValue

-- `next_id` is the AUTOINCREMENT counter of `events`.
pub record Db : Type 0 where
  pub events : List EventRow
  pub next_id : ℕ
  pub metadata : List (String × MetaValue)
  pub daos : List DaoRow

abbrev pub empty : Db
empty = record { events = []; next_id = 1; metadata = []; daos = [] }

lookup_meta : String → List (String × MetaValue) → Option MetaValue
lookup_meta key [] = none
lookup_meta key ((k, v) ∷ rows) = if str_eq k key then some v else lookup_meta key rows

replace_meta : String → MetaValue → List (String × MetaValue) → List (String × MetaValue)
replace_meta key value [] = (key, value) ∷ []
replace_meta key value ((k, v) ∷ rows) =
    if str_eq k key then (key, value) ∷ rows else (k, v) ∷ replace_meta key value rows

unfoldable pub get_metadata : String → Db → Option MetaValue
unfolding lookup_meta
get_metadata key db = lookup_meta key db.metadata

unfoldable pub set_metadata : String → MetaValue → Db → Db
unfolding replace_meta
set_metadata key value db = record db { metadata = replace_meta key value db.metadata }

lookup_meta-replace_meta :
    (key j : String) (v : MetaValue) (rows : List (String × MetaValue))
    → lookup_meta j (replace_meta key v rows)
      ≡ (if str_eq key j then some v else lookup_meta j rows)
unfolding lookup_meta replace_meta
lookup_meta-replace_meta key j v [] = refl
lookup_meta-replace_meta key j v ((i, w) ∷ rows) =
    ground (arith, eq_iff key j, eq_iff i key, eq_iff i j, lookup_meta-replace_meta key j v rows)

-- A key that is written is read with its new value, and every other key with the value it had.
pub get_metadata-set_metadata :
    (key j : String) (v : MetaValue) (db : Db)
    → get_metadata j (set_metadata key v db) ≡ (if str_eq key j then some v else get_metadata j db)
unfolding get_metadata set_metadata
get_metadata-set_metadata key j v db = lookup_meta-replace_meta key j v db.metadata

-- `getMetadata<number>('lastLedger') ?? 0`
abbrev pub as_number : Option MetaValue → ℕ
as_number (some (number n)) = n
as_number (some (time n)) = n
as_number none = 0

unfoldable pub last_ledger : Db → ℕ
last_ledger db = as_number (get_metadata "lastLedger" db)

pub last_ledger-of_metadata : (a b : Db) → a.metadata ≡ b.metadata → last_ledger a ≡ last_ledger b
unfolding last_ledger get_metadata
last_ledger-of_metadata a b h = ap (λ m. as_number (lookup_meta "lastLedger" m)) h
