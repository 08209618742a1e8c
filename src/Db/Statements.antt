-- ===== src/Db/Statements.antt =====
-- Any sequence of statements of db.ts on the table `events`, from empty tables.
use zkvote.Prelude.{ℕ, String, Option, List, [], ◌∷◌}
use zkvote.Db.{Payload, JsNumber, EventInput, Db, MetaValue, set_metadata}
use zkvote.Db.Events.{
  add_event, add_pending_event, verify_event, delete_unverified_event, JsonFile, migrate_from_json,
}

pub data Statement : Type 0 where
  add : EventInput → Statement
  add_pending : JsNumber → String → Payload → String → Statement
  verify : String → ℕ → Statement
  delete_unverified : String → Statement
  set_meta : String → MetaValue → Statement
  migrate : Option JsonFile → Statement

-- Each statement runs at its own time.
unfoldable pub execute : ℕ × Statement → Db → Db
execute (now, add e) db = (add_event now e db).1
execute (now, add_pending d t p tx) db = (add_pending_event now d t p tx db).1
execute (now, verify tx ledger) db = (verify_event tx ledger db).1
execute (now, delete_unverified tx) db = delete_unverified_event tx db
execute (now, set_meta key v) db = set_metadata key v db
execute (now, migrate file) db = (migrate_from_json now file db).1

unfoldable pub run : List (ℕ × Statement) → Db → Db
run [] db = db
run (s ∷ ss) db = run ss (execute s db)
