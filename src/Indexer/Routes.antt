-- ===== src/Indexer/Routes.antt =====
-- backend/src/routes/indexer.ts: the routes that read the events and that report one.
use zkvote.Prelude.{
  ℕ, min, String, codes, Bool, false, not, ◌&&◌, Option, none, some, List, [], ◌∷◌, Result, ok, err,
  ◌==◌, str_eq, any, if◌then◌else◌,
}
use Prim.Native.Char.{Char, code}
use zkvote.Hex.{Text}
use zkvote.ParseInt.{ℤ, pos, negsuc, parse_int}
use zkvote.Validation.{tx_hash}
use zkvote.Db.{EventRow, Payload, json, null, JsNumber, num, Db}
use zkvote.Db.Events.{EventQueryOptions, EventQueryResult, is_bindable, get_events_for_dao}
use zkvote.Indexer.{notify_event}
use zkvote.Indexer.Service.{add_manual_event}

-- The texts of a query, where they are given.
pub record EventQuery : Type 0 where
  pub limit : Option Text
  pub offset : Option Text
  pub types : Option String

pub record EventsResult : Type 0 where
  pub events : List EventRow
  pub total : ℕ

abbrev pub or_text : Option Text → Text → Text
or_text none t = t
or_text (some s) t = s

-- `n || k`: NaN and 0 are falsy.
abbrev pub or_number : Option ℤ → ℕ → ℤ
or_number none k = pos k
or_number (some (pos n)) k = if n == 0 then pos k else pos n
or_number (some (negsuc n)) k = negsuc n

-- `Math.min(n, k)`
abbrev pub at_most : ℤ → ℕ → ℤ
at_most (pos n) k = pos (min n k)
at_most (negsuc n) k = negsuc n

-- `types.split(',')`
abbrev pub to_first : Char → List String → List String
to_first c [] = []
to_first c (s ∷ rest) = String.◌∷◌ c s ∷ rest

abbrev pub split_commas : String → List String
split_commas String.[] = "" ∷ []
split_commas (String.◌∷◌ c s) =
    let rest = split_commas s in if code c == b',' then "" ∷ rest else to_first c rest

abbrev pub query_types : Option String → Option (List String)
query_types none = none
query_types (some t) = if str_eq t "" then none else some (split_commas t)

unfoldable pub query_options : EventQuery → EventQueryOptions
query_options q = record {
  limit = at_most (or_number (parse_int (or_text q.limit (codes "50"))) 50) 100;
  offset = or_number (parse_int (or_text q.offset (codes "0"))) 0;
  types = query_types q.types;
  verified_only = false;
}

abbrev pub events_result : Result EventQueryResult → Result EventsResult
events_result (err e) = err e
events_result (ok r) = ok (record { events = r.events; total = r.total })

-- No row has a DAO id that is negative or NaN.
abbrev pub no_rows : EventQueryOptions → Result EventsResult
no_rows options =
    if is_bindable options.limit && is_bindable options.offset
    then ok (record { events = []; total = 0 })
    else err "datatype mismatch"

-- `getEventsForDao` of services/indexer.ts.
unfoldable pub events_for_dao :
    (List EventRow → List EventRow) → Option ℤ → EventQueryOptions → Db → Result EventsResult
events_for_dao scan none options db = no_rows options
events_for_dao scan (some (negsuc n)) options db = no_rows options
events_for_dao scan (some (pos n)) options db = events_result (get_events_for_dao scan n options db)

-- GET /events/:daoId; an error is the answer 500.
unfoldable pub get_events :
    (List EventRow → List EventRow) → Text → EventQuery → Db → Result EventsResult
unfolding events_for_dao query_options
get_events scan dao_id q db = events_for_dao scan (parse_int dao_id) (query_options q) db

-- A DAO id in a body: missing, a whole number that is not negative, or a text, which `Number` reads.
pub data BodyId : Type 0 where
  absent : BodyId
  number : ℕ → BodyId
  text : String → BodyId

pub record Notification : Type 0 where
  pub dao_id : BodyId
  pub type : Option String
  pub payload : Payload
  pub tx_hash : Option String

pub data Answer : Type 0 where
  success : Answer
  bad_request : String → Answer
  failed : String → Answer

-- What a route leaves: its answer, the tables, and the ids that were handed to `triggerMembershipSync`.
pub record Handled : Type 0 where
  pub answer : Answer
  pub db : Db
  pub synced : List JsNumber

abbrev pub given : Option String → Option String
given none = none
given (some s) = if str_eq s "" then none else some s

-- `data || {}`
abbrev pub or_empty : Payload → Payload
or_empty null = json "{}"
or_empty p = p

abbrev pub membership_events : List String
membership_events = "sbt_mint" ∷ "sbt_revoke" ∷ "member_join" ∷ "member_leave" ∷ "self_join" ∷ []

unfoldable pub is_membership_event : String → Bool
is_membership_event type = any (str_eq type) membership_events

-- After the insertion; `initialized` tells whether the routes were given the synchronisation.
abbrev pub notified : Bool → JsNumber → String → Result Bool × Db → Handled
notified initialized dao_id type (err e, db) = record {
  answer = failed "Failed to notify event";
  db = db;
  synced = [];
}
notified initialized dao_id type (ok added, db) = record {
  answer = success;
  db = db;
  synced = if is_membership_event type && initialized then dao_id ∷ [] else [];
}

unfoldable pub notify_fields :
    ℕ → Bool → Option JsNumber → Option String → Payload → Option String → Db → Handled
unfolding is_membership_event
notify_fields now initialized (some dao_id) (some type) payload (some hash) db =
    if not (tx_hash (codes hash))
    then record { answer = bad_request "Invalid txHash format"; db = db; synced = [] }
    else notified initialized dao_id type (notify_event now dao_id type (or_empty payload) hash db)
notify_fields now initialized _ _ payload _ db = record {
  answer = bad_request "daoId, type, and txHash are required";
  db = db;
  synced = [];
}

abbrev pub manual_answer : Result Bool × Db → Handled
manual_answer (err e, db) = record { answer = failed "Failed to add event"; db = db; synced = [] }
manual_answer (ok b, db) = record { answer = success; db = db; synced = [] }

unfoldable pub manual_fields :
    (ℕ → String) → ℕ → Option JsNumber → Option String → Payload → Db → Handled
manual_fields show ms (some dao_id) (some type) payload db =
    manual_answer (add_manual_event show ms dao_id type (or_empty payload) 0 db)
manual_fields show ms _ _ payload db = record {
  answer = bad_request "daoId and type are required";
  db = db;
  synced = [];
}

module _ (number_of : String → JsNumber) where
  -- `Number(daoId)` of a truthy id.
  abbrev pub given_id : BodyId → Option JsNumber
  given_id absent = none
  given_id (number n) = if n == 0 then none else some (num n)
  given_id (text s) = if str_eq s "" then none else some (number_of s)

  -- POST /events/notify at the time `now`.
  unfoldable pub notify : ℕ → Bool → Notification → Db → Handled
  unfolding notify_fields
  notify now initialized n db =
      notify_fields now initialized (given_id n.dao_id) (given n.type) n.payload (given n.tx_hash)
        db

  -- POST /events, behind authGuard, at the time `ms`.
  unfoldable pub post_event : (ℕ → String) → ℕ → Notification → Db → Handled
  unfolding manual_fields
  post_event show ms n db = manual_fields show ms (given_id n.dao_id) (given n.type) n.payload db
