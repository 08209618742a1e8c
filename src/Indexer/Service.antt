-- ===== src/Indexer/Service.antt =====
-- backend/src/services/indexer.ts: the module's state, its start, its polls and its stop, and the events that
-- the relayer makes up itself.
use Prim.Native.String.{◌++◌ as text_append}
use zkvote.Prelude.{
  ℕ, String, Bool, true, false, not, Option, some, List, [], ◌∷◌, Result, ok, err, ltb,
  if◌then◌else◌, length,
}
use zkvote.ParseInt.{pos}
use zkvote.Db.{Payload, json, JsNumber, num, EventInput, Db, number, set_metadata, last_ledger}
use zkvote.Db.Events.{
  add_event, EventQueryOptions, EventQueryResult, get_events_for_dao, JsonFile, migrate_from_json,
}
use zkvote.Indexer.{RpcServer, poll_events, verify_pending_events}

-- The state of the module, with the tables.
pub record Indexer : Type 0 where
  pub is_polling : Bool
  pub last_ledger : ℕ
  pub db : Db

-- One call of `poll`.
unfoldable pub poll : RpcServer → List String → Indexer → Indexer
poll server contracts s =
    if not s.is_polling
    then s
    else (let (new_ledger, db) = poll_events server contracts s.last_ledger s.db in
        if ltb s.last_ledger new_ledger
        then record s {
          last_ledger = new_ledger;
          db = verify_pending_events server (set_metadata "lastLedger" (number new_ledger) db);
        }
        else record s { db = verify_pending_events server db })

-- `startIndexer` up to its first poll; `file` is the JSON file of an earlier version.
unfoldable pub start_indexer : ℕ → Option JsonFile → RpcServer → List String → Indexer → Indexer
start_indexer now file server contracts s =
    if s.is_polling
    then s
    else (let (migrated, db) = migrate_from_json now file s.db in
        let (ledger, db') = poll_events server contracts (last_ledger db) db in
        record {
          is_polling = true;
          last_ledger = ledger;
          db = set_metadata "lastLedger" (number ledger) db';
        })

unfoldable pub stop_indexer : Indexer → Indexer
stop_indexer s = record s { is_polling = false }

pub record DaoData : Type 0 where
  pub name : Option String
  pub creator : Option String

abbrev pub create_options : EventQueryOptions
create_options = record {
  limit = pos 1;
  offset = pos 0;
  types = some ("dao_create" ∷ "dao_create_event" ∷ []);
  verified_only = false;
}

module _ (show : ℕ → String) (stringify : DaoData → String) where
  -- `stringify` gives the JSON text of `{ admin, name, synthetic: true }`.
  unfoldable pub synthetic_input : ℕ → DaoData → EventInput
  synthetic_input dao_id dao_data = record {
    dao_id = num dao_id;
    type = "dao_create";
    payload = json (stringify dao_data);
    ledger = some 0;
    tx_hash = some (text_append "synthetic-dao-create-" (show dao_id));
    timestamp = some 0;
    verified = true;
  }

  unfoldable pub ensured : ℕ → ℕ → DaoData → Result EventQueryResult → Db → Result Bool × Db
  ensured now dao_id dao_data (err e) db = (err e, db)
  ensured now dao_id dao_data (ok existing) db =
      if ltb 0 (length existing.events)
      then (ok false, db)
      else add_event now (synthetic_input dao_id dao_data) db

  -- Only whether there is a row counts, so that the order of the rows is that of the table.
  unfoldable pub ensure_dao_create_event : ℕ → ℕ → DaoData → Db → Result Bool × Db
  unfolding ensured
  ensure_dao_create_event now dao_id dao_data db =
      ensured now dao_id dao_data (get_events_for_dao (λ rows. rows) dao_id create_options db) db

module _ (show : ℕ → String) where
  -- `ms` is the clock, in the text and for the timestamp.
  unfoldable pub add_manual_event : ℕ → JsNumber → String → Payload → ℕ → Db → Result Bool × Db
  add_manual_event ms dao_id type payload ledger db =
      add_event ms
        (record {
          dao_id = dao_id;
          type = type;
          payload = payload;
          ledger = some ledger;
          tx_hash = some (text_append "manual-" (show ms));
          timestamp = some ms;
          verified = true;
        })
        db
