-- ===== src/Indexer.antt =====
-- backend/src/services/indexer.ts: polling contract events into the table `events`, and verifying the
-- events that browsers notify. The Soroban RPC server is a parameter: what it answers, `none` where the
-- call throws. `scValToNative` is the SDK's, so an event carries what it gives. A number or a template
-- literal is turned to text by the parameter `show`.
pub mod Polling
pub mod Repeat
pub mod Verify
pub mod Service
pub mod Routes
pub mod Notices
pub mod Pages
pub mod Ticks
use Prim.Native.String.{◌++◌ as text_append}
use zkvote.Prelude.{
  ℕ, zero, suc, ◌+◌, String, Bool, true, false, not, ◌&&◌, ◌||◌, Option, none, some, List, [], ◌∷◌,
  ◌++◌, Result, ok, err, ltb, leb, str_eq, ◌==◌, if◌then◌else◌, length,
}
use zkvote.Db.{
  Payload, json, JsNumber, num, EventRow, EventInput, Db, MetaValue, number, set_metadata,
  last_ledger,
}
use zkvote.Db.Events.{
  or_default, add_event, add_pending_event, verify_event, delete_unverified_event,
  get_unverified_events, EventQueryOptions, get_events_for_dao, JsonFile, migrate_from_json,
}

abbrev event_types : List (String × String)
event_types =
    ("DaoCreateEvent", "dao_create")
    ∷ ("AdminXferEvent", "admin_transfer")
    ∷ ("SbtMintEvent", "member_added")
    ∷ ("SbtRevokeEvent", "member_revoked")
    ∷ ("SbtLeaveEvent", "member_left")
    ∷ ("TreeInitEvent", "tree_init")
    ∷ ("CommitEvent", "voter_registered")
    ∷ ("RemovalEvent", "voter_removed")
    ∷ ("ReinstatementEvent", "voter_reinstated")
    ∷ ("VKSetEvent", "vk_updated")
    ∷ ("ProposalEvent", "proposal_created")
    ∷ ("ProposalClosedEvent", "proposal_closed")
    ∷ ("ProposalArchivedEvent", "proposal_archived")
    ∷ ("VoteEvent", "vote_cast")
    ∷ []

-- `EVENT_TYPES[eventName] ?? eventName`
type_in_table : List (String × String) → String → String
type_in_table [] name = name
type_in_table ((k, t) ∷ rest) name = if str_eq k name then t else type_in_table rest name

unfoldable pub event_type : String → String
unfolding type_in_table
event_type name = type_in_table event_types name

-- An event as the RPC server returns it, with the time at which the loop reads it. The outer `none`
-- of `name`, `dao` and `value` is a topic or value that is not there, the inner one a value on which
-- `scValToNative` throws.
pub record ChainEvent : Type 0 where
  pub name : Option (Option String)
  pub dao : Option (Option JsNumber)
  pub value : Option (Option Payload)
  pub ledger : Option ℕ
  pub tx_hash : Option String
  pub read_at : ℕ

pub record ParsedEvent : Type 0 where
  pub type : String
  pub dao_id : Option JsNumber
  pub payload : Payload
  pub ledger : ℕ
  pub tx_hash : Option String
  pub timestamp : ℕ

abbrev pub flat {ℓ} : {A : Type ℓ} → Option (Option A) → Option A
flat none = none
flat (some o) = o

abbrev pub payload_or_empty : Option Payload → Payload
payload_or_empty none = json "{}"
payload_or_empty (some p) = p

unfoldable pub parsed_as : ChainEvent → String → Option JsNumber → ParsedEvent
parsed_as event type dao_id = record {
  type = type;
  dao_id = dao_id;
  payload = payload_or_empty (flat event.value);
  ledger = or_default event.ledger 0;
  tx_hash = event.tx_hash;
  timestamp = event.read_at;
}

unfoldable pub parse_named : ChainEvent → Option (Option String) → Option ParsedEvent
parse_named event none = some (parsed_as event "unknown" none)
parse_named event (some none) = none
parse_named event (some (some name)) = some (parsed_as event (event_type name) (flat event.dao))

unfoldable pub parse_event_data : ChainEvent → Option ParsedEvent
unfolding parse_named
parse_event_data event = parse_named event event.name

abbrev pub input_of : ParsedEvent → JsNumber → EventInput
input_of p dao_id = record {
  dao_id = dao_id;
  type = p.type;
  payload = p.payload;
  ledger = some p.ledger;
  tx_hash = p.tx_hash;
  timestamp = some p.timestamp;
  verified = true;
}

-- `if (parsed && parsed.daoId !== null)`
unfoldable pub input_for : ParsedEvent → Option JsNumber → Option EventInput
input_for p none = none
input_for p (some dao_id) = some (input_of p dao_id)

unfoldable pub wanted_parsed : Option ParsedEvent → Option EventInput
unfolding input_for
wanted_parsed none = none
wanted_parsed (some p) = input_for p p.dao_id

unfoldable pub wanted_input : ChainEvent → Option EventInput
unfolding parse_event_data wanted_parsed
wanted_input event = wanted_parsed (parse_event_data event)

unfoldable pub add_wanted : ℕ → Option EventInput → Db → Result Bool × Db
add_wanted now none db = (ok false, db)
add_wanted now (some e) db = add_event now e db

-- One round of the loop over a contract's events.
unfoldable pub index_event : ChainEvent → Db → Result Bool × Db
index_event event db = add_wanted event.read_at (wanted_input event) db

-- The loop; a throw ends it, and the caller's `catch` goes on with the next contract.
unfoldable pub next_event : Result Bool × Db → (Db → Db) → Db
next_event (ok added, db) rest = rest db
next_event (err e, db) rest = db

unfoldable pub index_events : List ChainEvent → Db → Db
index_events [] db = db
index_events (event ∷ events) db = next_event (index_event event db) (index_events events)

pub data TxStatus : Type 0 where
  success : ℕ → TxStatus
  failed : TxStatus
  not_found : TxStatus

pub record RpcServer : Type 0 where
  pub get_latest_ledger : Option ℕ
  -- contract, start ledger, end ledger, limit
  pub get_events : String → ℕ → ℕ → ℕ → Option (List ChainEvent)
  pub get_transaction : String → Option TxStatus

unfoldable pub poll_contract : Option (List ChainEvent) → Db → Db
poll_contract none db = db
poll_contract (some events) db = index_events events db

unfoldable pub poll_contracts : RpcServer → List String → ℕ → ℕ → Db → Db
poll_contracts server [] start_ledger current_ledger db = db
poll_contracts server (contract ∷ contracts) start_ledger current_ledger db =
    poll_contracts server contracts start_ledger current_ledger
      (poll_contract (server.get_events contract (start_ledger + 1) current_ledger 100) db)

-- The rest of `pollEvents`, once the latest ledger is known.
unfoldable pub poll_up_to : RpcServer → List String → ℕ → Option ℕ → Db → ℕ × Db
poll_up_to server contracts start_ledger none db = (start_ledger, db)
poll_up_to server contracts start_ledger (some current_ledger) db =
    if leb current_ledger start_ledger
    then (start_ledger, db)
    else (current_ledger, poll_contracts server contracts start_ledger current_ledger db)

unfoldable pub poll_events : RpcServer → List String → ℕ → Db → ℕ × Db
unfolding poll_up_to
poll_events server contracts start_ledger db =
    poll_up_to server contracts start_ledger server.get_latest_ledger db

-- The `try` around the calls: an error of `verifyEvent` is logged, and the answer is false.
abbrev verified_result : Result (Unit {0}) × Db → Bool × Db
verified_result (ok done, db) = (true, db)
verified_result (err e, db) = (false, db)

unfoldable pub apply_status : String → Option TxStatus → Db → Bool × Db
apply_status tx none db = (false, db)
apply_status tx (some (success ledger)) db = verified_result (verify_event tx ledger db)
apply_status tx (some failed) db = (false, delete_unverified_event tx db)
apply_status tx (some not_found) db = (false, db)

-- `!event.tx_hash`: the empty text is falsy too.
unfoldable pub verify_hash : RpcServer → Option String → Db → Bool × Db
verify_hash server none db = (false, db)
verify_hash server (some tx) db =
    if str_eq tx "" then (false, db) else apply_status tx (server.get_transaction tx) db

unfoldable pub verify_event_on_chain : RpcServer → EventRow → Db → Bool × Db
unfolding verify_hash
verify_event_on_chain server event db = verify_hash server event.tx_hash db

unfoldable pub verify_each : RpcServer → List EventRow → Db → Db
verify_each server [] db = db
verify_each server (event ∷ events) db =
    verify_each server events (verify_event_on_chain server event db).1

unfoldable pub verify_pending_events : RpcServer → Db → Db
verify_pending_events server db = verify_each server (get_unverified_events 10 db) db

-- `notifyEvent`; a throw of the insertion reaches the route.
unfoldable pub notify_event : ℕ → JsNumber → String → Payload → String → Db → Result Bool × Db
notify_event now dao_id type payload tx_hash db =
    add_pending_event now dao_id type payload tx_hash db
