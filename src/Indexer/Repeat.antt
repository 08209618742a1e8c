-- ===== src/Indexer/Repeat.antt =====
-- indexer.ts: the same events indexed again.
use mathlib.Core.Path.{fun_ext}
use zkvote.Prelude.{
  subst, ℕ, ◌≡◌, refl, ◌∙◌, String, Bool, true, false, Option, none, some, List, [], ◌∷◌, Result,
  ok, err, inl, inr, arith, eq_iff, Bool-cases, All, any, any-append,
}
use zkvote.Db.{JsNumber, nan, num, EventRow, EventInput, Db}
use zkvote.Db.Events.{
  or_default, same_key, row_of, payload_text, insert_row, insert_text, insert_event, caught,
  add_event,
}
use zkvote.Indexer.{
  ChainEvent, wanted_input, add_wanted, index_event, next_event, index_events, parsed_as,
}
use zkvote.Indexer.Polling.{Extends-refl, Extends, Extends-trans, index_events-Extends}

-- A row that has a ledger and a transaction has its own key.
pub same_key_refl :
    (r : EventRow) {l : ℕ} {tx : String}
    → r.ledger ≡ some l
    → r.tx_hash ≡ some tx
    → same_key r r ≡ true
unfolding same_key
same_key_refl r {l} {tx} hl ht = rw (hl, ht) (ground (arith, eq_iff r.type r.type, eq_iff tx tx))

-- Nothing new is in `old` but not in `new`.
same_key_stays :
    (r : EventRow) (old new : Db)
    → Extends old new
    → any (same_key r) old.events ≡ true
    → any (same_key r) new.events ≡ true
same_key_stays r old new x h = rw (x.appended, any-append (same_key r) old.events x.rows, h)

record IsKeyed (e : EventInput) : Type 0 where
  at : ℕ
  tx : String
  ledger : e.ledger ≡ some at
  hash : e.tx_hash ≡ some tx

key_by_content :
    (now now' id id' d : ℕ) (text : String) (e : EventInput) (s : EventRow)
    → same_key (row_of now id d text e) s ≡ same_key (row_of now' id' d text e) s
unfolding same_key row_of
key_by_content now now' id id' d text e s = refl

insert_row_stored :
    (r : EventRow) (db : Db)
    → any (same_key r) db.events ≡ true
    → insert_row r db ≡ (err "SQLITE_CONSTRAINT_UNIQUE", db)
unfolding insert_row
insert_row_stored r db h = rw h

-- After the insertion of a row its key is there.
stored_after :
    (r : EventRow) (db : Db)
    → same_key r r ≡ true
    → any (same_key r) (insert_row r db).1.events ≡ true
unfolding insert_row
stored_after r db self = elim (Bool-cases (any (same_key r) db.events)) [
  | inl dup ↦ rw dup dup
  | inr fresh ↦ rw (fresh, any-append (same_key r) db.events (r ∷ [])) (rw (fresh, self))
]

caught_row : (r : EventRow) (db : Db) → (b : Bool) × (caught (insert_row r db).0 ≡ ok b)
unfolding insert_row caught
caught_row r db = elim (Bool-cases (any (same_key r) db.events)) [
  | inl dup ↦ (false, rw dup)
  | inr fresh ↦ (true, rw fresh)
]

-- The insertion of an event again, on later tables: the loop goes on as it did, and changes nothing.
again_text :
    (now : ℕ) (e : EventInput) (n : JsNumber) (text : Option String) (db later : Db)
    (rest : Db → Db)
    → IsKeyed e
    → Extends (insert_text now e n text db).1 later
    → next_event
        (caught (insert_text now e n text later).0, (insert_text now e n text later).1)
        rest
      ≡ next_event (caught (insert_text now e n text db).0, later) rest
unfolding insert_text
again_text now e n none db later rest k x = refl
again_text now e nan (some text) db later rest k x = refl
again_text now e (num d) (some text) db later rest k x =
    let r = row_of now db.next_id d text e in
    let r' = row_of now later.next_id d text e in
    let self : same_key r r ≡ true =
      same_key_refl r {l = k.at} {tx = k.tx} (unfold row_of in k.ledger)
        (unfold row_of in k.hash) in
    let there : any (same_key r) later.events ≡ true =
      same_key_stays r (insert_row r db).1 later x (stored_after r db self) in
    let there' : any (same_key r') later.events ≡ true =
      subst (λ f. any f later.events ≡ true)
        (fun_ext (key_by_content now now db.next_id later.next_id d text e)) there in
    let (b, first) = caught_row r db in
    rw (insert_row_stored r' later there') (rw first (unfold caught next_event in refl))

again_event :
    (now : ℕ) (e : EventInput) (db later : Db) (rest : Db → Db)
    → IsKeyed e
    → Extends (add_event now e db).1 later
    → next_event (add_event now e later) rest ≡ next_event ((add_event now e db).0, later) rest
unfolding add_event insert_event
again_event now e db later rest k x =
    again_text now e e.dao_id (payload_text e.payload) db later rest k x

again_wanted :
    (now : ℕ) (o : Option EventInput) (db later : Db) (rest : Db → Db)
    → ((e : EventInput) → o ≡ some e → IsKeyed e)
    → Extends (add_wanted now o db).1 later
    → next_event (add_wanted now o later) rest ≡ next_event ((add_wanted now o db).0, later) rest
unfolding add_wanted
again_wanted now none db later rest k x = refl
again_wanted now (some e) db later rest k x = again_event now e db later rest (k e refl) x

pub record HasHash (event : ChainEvent) : Type 0 where
  pub tx : String
  pub hash : event.tx_hash ≡ some tx

wanted_input-IsKeyed :
    (event : ChainEvent)
    → HasHash event
    → (e : EventInput) → wanted_input event ≡ some e
    → IsKeyed e
unfolding wanted_input parsed_as
wanted_input-IsKeyed event h e w = record {
  at = or_default event.ledger 0;
  tx = h.tx;
  ledger = ground arith;
  hash = ground (arith, h.hash);
}

Extends-next_event :
    (s : Result Bool × Db) (rest : Db → Db)
    → ((d : Db) → Extends d (rest d))
    → Extends s.1 (next_event s rest)
unfolding next_event
Extends-next_event (ok added, db) rest keeps = keeps db
Extends-next_event (err e, db) rest keeps = Extends-refl db

settled :
    (s : Result Bool × Db) (later : Db) (rest : Db → Db)
    → ((d : Db) → Extends (rest d) later → rest later ≡ later)
    → Extends (next_event s rest) later
    → next_event (s.0, later) rest ≡ later
unfolding next_event
settled (ok added, d) later rest ih x = ih d x
settled (err c, d) later rest ih x = refl

index_events_again :
    (events : List ChainEvent) (db later : Db)
    → All HasHash events
    → Extends (index_events events db) later
    → index_events events later ≡ later
unfolding index_events
index_events_again [] db later h x = refl
index_events_again (event ∷ events) db later (h, hs) x =
    let step = index_event event db in
    let done =
      Extends-trans step.1 (next_event step (index_events events)) later
        (Extends-next_event step (index_events events) (index_events-Extends events)) x in
    let same : next_event (index_event event later) (index_events events)
        ≡ next_event (step.0, later) (index_events events) =
      unfold index_event in
      again_wanted event.read_at (wanted_input event) db later (index_events events)
        (wanted_input-IsKeyed event h) (unfold index_event in done) in
    same
    ∙ settled step later (index_events events) (λ d y. index_events_again events d later hs y) x

-- Indexing a list of events that carry their transaction hashes a second time changes nothing, also
-- when the first time broke off at an error.
pub index_events_idempotent :
    (events : List ChainEvent) (db : Db)
    → All HasHash events
    → index_events events (index_events events db) ≡ index_events events db
index_events_idempotent events db h =
    index_events_again events db (index_events events db) h (Extends-refl (index_events events db))
