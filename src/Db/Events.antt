-- ===== src/Db/Events.antt =====
-- db.ts: the statements on the table `events`.
use zkvote.Prelude.{
  ℕ, suc, ◌+◌, String, Bool, true, false, not, ◌&&◌, ◌||◌, Option, none, some, List, [], ◌∷◌, ◌++◌,
  Result, ok, err, ltb, leb, str_eq, ◌==◌, if◌then◌else◌, length, take, drop, any, sort_by, map,
}
use zkvote.ParseInt.{ℤ, pos, negsuc}
use zkvote.Db.{
  Payload, null, json, with_bigint, JsNumber, nan, num, EventRow, EventInput, Db, set_metadata,
  number,
}

-- In SQL a comparison with NULL does not hold.
abbrev pub eq_ledger : Option ℕ → Option ℕ → Bool
eq_ledger (some a) (some b) = a == b
eq_ledger _ _ = false

abbrev pub eq_hash : Option String → Option String → Bool
eq_hash (some a) (some b) = str_eq a b
eq_hash _ _ = false

-- UNIQUE(dao_id, ledger, tx_hash, type), where a NULL differs from every value.
unfoldable pub same_key : EventRow → EventRow → Bool
same_key r s =
    r.dao_id == s.dao_id
    && (str_eq r.type s.type && (eq_ledger r.ledger s.ledger && eq_hash r.tx_hash s.tx_hash))

unfoldable pub keys_distinct : List EventRow → Bool
keys_distinct [] = true
keys_distinct (r ∷ rows) = not (any (same_key r) rows) && keys_distinct rows

-- `JSON.stringify(event.data)`; `none` where it throws
unfoldable pub payload_text : Payload → Option String
payload_text null = some "null"
payload_text (json text) = some text
payload_text with_bigint = none

-- `e.data ? JSON.parse(e.data) : null`
unfoldable pub payload_value : String → Option String
payload_value text = if str_eq text "" || str_eq text "null" then none else some text

abbrev pub or_default : Option ℕ → ℕ → ℕ
or_default none d = d
or_default (some n) d = n

unfoldable pub row_of : ℕ → ℕ → ℕ → String → EventInput → EventRow
row_of now id dao_id text event = record {
  id = id;
  dao_id = dao_id;
  type = event.type;
  payload = text;
  ledger = event.ledger;
  tx_hash = event.tx_hash;
  timestamp = or_default event.timestamp now;
  verified = event.verified;
  created_at = now;
}

abbrev pub added_row : EventRow → Db → Db
added_row r db = record db { events = db.events ++ r ∷ []; next_id = suc db.next_id }

-- A row is inserted unless its key is there.
unfoldable pub insert_row : EventRow → Db → Result (Unit {0}) × Db
insert_row r db =
    if any (same_key r) db.events
    then (err "SQLITE_CONSTRAINT_UNIQUE", db)
    else (ok tt, added_row r db)

-- INSERT INTO events, after its arguments are computed.
unfoldable pub insert_text : ℕ → EventInput → JsNumber → Option String → Db → Result (Unit {0}) × Db
insert_text now event dao_id none db = (err "TypeError", db)
insert_text now event nan (some text) db = (err "SQLITE_CONSTRAINT_NOTNULL", db)
insert_text now event (num d) (some text) db = insert_row (row_of now db.next_id d text event) db

unfoldable pub insert_event : ℕ → EventInput → Db → Result (Unit {0}) × Db
unfolding insert_text insert_row
insert_event now event db = insert_text now event event.dao_id (payload_text event.payload) db

-- The `catch`: a duplicate is false, any other error is thrown on.
unfoldable pub caught : Result (Unit {0}) → Result Bool
caught (ok done) = ok true
caught (err code) = if str_eq code "SQLITE_CONSTRAINT_UNIQUE" then ok false else err code

unfoldable pub add_event : ℕ → EventInput → Db → Result Bool × Db
unfolding insert_event caught
add_event now event db = let (r, db') = insert_event now event db in (caught r, db')

abbrev pub pending_input : ℕ → JsNumber → String → Payload → String → EventInput
pending_input now dao_id type payload tx_hash = record {
  dao_id = dao_id;
  type = type;
  payload = payload;
  ledger = none;
  tx_hash = some tx_hash;
  timestamp = some now;
  verified = false;
}

unfoldable pub add_pending_event : ℕ → JsNumber → String → Payload → String → Db → Result Bool × Db
add_pending_event now dao_id type payload tx_hash db =
    add_event now (pending_input now dao_id type payload tx_hash) db

abbrev pub has_hash : String → EventRow → Bool
has_hash tx r = eq_hash r.tx_hash (some tx)

abbrev pub verified_at : String → ℕ → EventRow → EventRow
verified_at tx ledger r =
    if has_hash tx r then record r { verified = true; ledger = some ledger } else r

-- UPDATE events SET verified = 1, ledger = ? WHERE tx_hash = ?
unfoldable pub verify_event : String → ℕ → Db → Result (Unit {0}) × Db
unfolding keys_distinct
verify_event tx ledger db =
    let rows = map (verified_at tx ledger) db.events in
    if keys_distinct rows
    then (ok tt, record db { events = rows })
    else (err "SQLITE_CONSTRAINT_UNIQUE", db)

abbrev pub keep {ℓ} : {A : Type ℓ} → (A → Bool) → List A → List A
keep p [] = []
keep p (x ∷ xs) = if p x then x ∷ keep p xs else keep p xs

-- DELETE FROM events WHERE tx_hash = ? AND verified = 0
unfoldable pub delete_unverified_event : String → Db → Db
delete_unverified_event tx db = record db {
  events = keep (λ r. not (has_hash tx r && not r.verified)) db.events;
}

pub record EventQueryOptions : Type 0 where
  pub limit : ℤ
  pub offset : ℤ
  -- `none` for null
  pub types : Option (List String)
  pub verified_only : Bool

-- LIMIT: a negative number is no bound. OFFSET: a negative number is 0.
abbrev pub limited {ℓ} : {A : Type ℓ} → ℤ → List A → List A
limited (pos n) xs = take n xs
limited (negsuc n) xs = xs

abbrev pub skipped {ℓ} : {A : Type ℓ} → ℤ → List A → List A
skipped (pos n) xs = drop n xs
skipped (negsuc n) xs = xs

pub record EventQueryResult : Type 0 where
  pub events : List EventRow
  pub total : ℕ
  pub dao_id : ℕ

abbrev pub type_in : Option (List String) → String → Bool
type_in none t = true
type_in (some []) t = true
type_in (some (x ∷ xs)) t = any (λ y. str_eq t y) (x ∷ xs)

-- The WHERE clause.
unfoldable pub selects : ℕ → EventQueryOptions → EventRow → Bool
selects dao_id options r =
    r.dao_id == dao_id
    && (type_in options.types r.type && (not options.verified_only || r.verified))

-- SQLite takes NULL for smaller than any value.
abbrev ledger_ge : Option ℕ → Option ℕ → Bool
ledger_ge a none = true
ledger_ge none (some b) = false
ledger_ge (some a) (some b) = leb b a

-- ORDER BY timestamp DESC, ledger DESC
unfoldable pub newest_first : EventRow → EventRow → Bool
newest_first r s =
    ltb s.timestamp r.timestamp || (r.timestamp == s.timestamp && ledger_ge r.ledger s.ledger)

-- A number is bound as a double, and SQLite takes a double for LIMIT and OFFSET only strictly between `-(2 ^ 63)` and
-- `2 ^ 63`. From this number on, the nearest double is `2 ^ 63`.
abbrev pub sqlite_bound : ℕ
sqlite_bound = 9223372036854775296

abbrev pub is_bindable : ℤ → Bool
is_bindable (pos n) = ltb n sqlite_bound
is_bindable (negsuc n) = ltb (suc n) sqlite_bound

-- `scan` rearranges the rows: SQLite leaves the order of rows that tie open, and any order by the columns of ORDER BY
-- is that of a stable sort after some rearrangement.
unfoldable pub get_events_for_dao :
    (List EventRow → List EventRow) → ℕ → EventQueryOptions → Db → Result EventQueryResult
unfolding selects newest_first
get_events_for_dao scan dao_id options db =
    let rows = keep (selects dao_id options) db.events in
    if is_bindable options.limit && is_bindable options.offset
    then ok (record {
      events = limited options.limit (skipped options.offset (sort_by newest_first (scan rows)));
      total = length rows;
      dao_id = dao_id;
    })
    else err "datatype mismatch"

-- WHERE verified = 0 AND tx_hash IS NOT NULL ORDER BY created_at ASC LIMIT ?
-- The order of rows that tie is that of the table.
abbrev is_pending : EventRow → Bool
is_pending r = not r.verified && elim r.tx_hash [ none ↦ false | some tx ↦ true ]

unfoldable pub get_unverified_events : ℕ → Db → List EventRow
get_unverified_events limit db =
    take limit (sort_by (λ r s. leb r.created_at s.created_at) (keep is_pending db.events))

-- The members of `events` in the JSON file of an earlier version, under their DAO ids.
pub record JsonEvent : Type 0 where
  pub type : String
  -- the JSON text of an object, `none` for null
  pub payload : Option String
  pub ledger : Option ℕ
  pub tx_hash : Option String
  pub timestamp : Option ℕ

abbrev pub parsed_payload : Option String → Payload
parsed_payload none = null
parsed_payload (some text) = json text

abbrev pub migrated_input : JsNumber → JsonEvent → EventInput
migrated_input dao_id e = record {
  dao_id = dao_id;
  type = e.type;
  payload = parsed_payload e.payload;
  ledger = e.ledger;
  tx_hash = e.tx_hash;
  timestamp = e.timestamp;
  verified = true;
}

-- INSERT OR IGNORE does not throw, so each event is counted.
unfoldable pub migrate_events : ℕ → JsNumber → List JsonEvent → ℕ × Db → ℕ × Db
migrate_events now dao_id [] (n, db) = (n, db)
migrate_events now dao_id (e ∷ es) (n, db) =
    migrate_events now dao_id es (n + 1, (insert_event now (migrated_input dao_id e) db).1)

unfoldable pub migrate_daos : ℕ → List (JsNumber × List JsonEvent) → ℕ × Db → ℕ × Db
migrate_daos now [] s = s
migrate_daos now ((dao_id, es) ∷ rest) s = migrate_daos now rest (migrate_events now dao_id es s)

pub record JsonFile : Type 0 where
  pub events : List (JsNumber × List JsonEvent)
  pub last_ledger : Option ℕ

-- `if (data.lastLedger)`: a 0 is not stored.
unfoldable pub save_ledger : Option ℕ → Db → Db
save_ledger none db = db
save_ledger (some n) db = if n == 0 then db else set_metadata "lastLedger" (number n) db

-- `none` is a file that does not exist, or is not read as JSON.
unfoldable pub migrate_from_json : ℕ → Option JsonFile → Db → ℕ × Db
migrate_from_json now none db = (0, db)
migrate_from_json now (some file) db =
    let (n, db') = migrate_daos now file.events (0, db) in (n, save_ledger file.last_ledger db')
