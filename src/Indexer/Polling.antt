-- ===== src/Indexer/Polling.antt =====
-- indexer.ts: what a poll does to the tables and to the ledger.
use zkvote.Prelude.{
  ℕ, ◌+◌, ◌≤◌, ◌<◌, ◌≡◌, refl, sym, ap, ◌∙◌, String, Bool, true, false, Option, none, some, List,
  [], ◌∷◌, ◌++◌, append-nil, append_assoc, Result, ok, err, inl, inr, arith, leb, Bool-cases, All,
  All-append, any,
}
use zkvote.Db.{with_bigint, JsNumber, nan, num, EventRow, EventInput, Db}
use zkvote.Db.Events.{
  same_key, row_of, payload_text, insert_row, insert_text, insert_event, add_event,
}
use zkvote.Indexer.{
  ChainEvent, RpcServer, parsed_as, flat, event_type, input_of, wanted_input, add_wanted,
  index_event, next_event, index_events, poll_contract, poll_contracts, poll_up_to, poll_events,
}

-- The new rows are behind the old ones, and each is verified. The other tables are as before.
pub record Extends (old new : Db) : Type 0 where
  pub rows : List EventRow
  pub appended : new.events ≡ old.events ++ rows
  pub all_verified : All (λ r. r.verified ≡ true) rows
  pub same_metadata : new.metadata ≡ old.metadata
  pub same_daos : new.daos ≡ old.daos

pub Extends-refl : (db : Db) → Extends db db
Extends-refl db = record {
  rows = [];
  appended = sym (append-nil db.events);
  all_verified = tt;
  same_metadata = refl;
  same_daos = refl;
}

pub Extends-trans : (a b c : Db) → Extends a b → Extends b c → Extends a c
Extends-trans a b c p q = record {
  rows = p.rows ++ q.rows;
  appended = q.appended ∙ ap (λ l. l ++ q.rows) p.appended ∙ append_assoc a.events p.rows q.rows;
  all_verified = All-append (λ r. r.verified ≡ true) p.rows q.rows p.all_verified q.all_verified;
  same_metadata = q.same_metadata ∙ p.same_metadata;
  same_daos = q.same_daos ∙ p.same_daos;
}

insert_row-Extends : (r : EventRow) (db : Db) → r.verified ≡ true → Extends db (insert_row r db).1
unfolding insert_row
insert_row-Extends r db v = elim (Bool-cases (any (same_key r) db.events)) [
  | inl dup ↦ rw dup (Extends-refl db)
  | inr fresh ↦ rw fresh (record {
    rows = r ∷ [];
    appended = refl;
    all_verified = (v, tt);
    same_metadata = refl;
    same_daos = refl;
  })
]

insert_text-Extends :
    (now : ℕ) (e : EventInput) (n : JsNumber) (text : Option String) (db : Db)
    → e.verified ≡ true
    → Extends db (insert_text now e n text db).1
unfolding insert_text
insert_text-Extends now e n none db v = Extends-refl db
insert_text-Extends now e nan (some text) db v = Extends-refl db
insert_text-Extends now e (num d) (some text) db v =
    insert_row-Extends (row_of now db.next_id d text e) db (unfold row_of in v)

pub add_event-Extends :
    (now : ℕ) (e : EventInput) (db : Db) → e.verified ≡ true → Extends db (add_event now e db).1
unfolding add_event insert_event
add_event-Extends now e db v = insert_text-Extends now e e.dao_id (payload_text e.payload) db v

wanted_input-verified :
    (event : ChainEvent) (e : EventInput) → wanted_input event ≡ some e → e.verified ≡ true
unfolding wanted_input
wanted_input-verified event e h = ground arith

add_wanted-Extends :
    (now : ℕ) (o : Option EventInput) (db : Db)
    → ((e : EventInput) → o ≡ some e → e.verified ≡ true)
    → Extends db (add_wanted now o db).1
unfolding add_wanted
add_wanted-Extends now none db v = Extends-refl db
add_wanted-Extends now (some e) db v = add_event-Extends now e db (v e refl)

pub index_event-Extends : (event : ChainEvent) (db : Db) → Extends db (index_event event db).1
unfolding index_event
index_event-Extends event db =
    add_wanted-Extends event.read_at (wanted_input event) db (wanted_input-verified event)

next_event-Extends :
    (db : Db) (s : Result Bool × Db) (rest : Db → Db)
    → Extends db s.1
    → ((d : Db) → Extends d (rest d))
    → Extends db (next_event s rest)
unfolding next_event
next_event-Extends db (ok added, db') rest step keeps =
    Extends-trans db db' (rest db') step (keeps db')
next_event-Extends db (err e, db') rest step keeps = step

pub index_events-Extends :
    (events : List ChainEvent) (db : Db) → Extends db (index_events events db)
unfolding index_events
index_events-Extends [] db = Extends-refl db
index_events-Extends (event ∷ events) db =
    next_event-Extends db (index_event event db) (index_events events)
      (index_event-Extends event db) (index_events-Extends events)

poll_contract-Extends : (o : Option (List ChainEvent)) (db : Db) → Extends db (poll_contract o db)
unfolding poll_contract
poll_contract-Extends none db = Extends-refl db
poll_contract-Extends (some events) db = index_events-Extends events db

poll_contracts-Extends :
    (server : RpcServer) (contracts : List String) (lo hi : ℕ) (db : Db)
    → Extends db (poll_contracts server contracts lo hi db)
unfolding poll_contracts
poll_contracts-Extends server [] lo hi db = Extends-refl db
poll_contracts-Extends server (c ∷ cs) lo hi db =
    let answer = server.get_events c (lo + 1) hi 100 in
    Extends-trans db (poll_contract answer db)
      (poll_contracts server cs lo hi (poll_contract answer db)) (poll_contract-Extends answer db)
      (poll_contracts-Extends server cs lo hi (poll_contract answer db))

poll_up_to-Extends :
    (server : RpcServer) (contracts : List String) (start_ledger : ℕ) (latest : Option ℕ) (db : Db)
    → Extends db (poll_up_to server contracts start_ledger latest db).1
      × (start_ledger ≤ (poll_up_to server contracts start_ledger latest db).0)
unfolding poll_up_to
poll_up_to-Extends server contracts start_ledger none db = (Extends-refl db, omega arith)
poll_up_to-Extends server contracts start_ledger (some current) db =
    elim (Bool-cases (leb current start_ledger)) [
      | inl old ↦ rw old (Extends-refl db, omega arith)
      | inr ahead ↦
          rw ahead (poll_contracts-Extends server contracts start_ledger current db, ground arith)
    ]

-- A poll leaves every stored row in its place, appends only verified rows, touches no other table, and
-- never moves the ledger back.
pub poll_events-Extends :
    (server : RpcServer) (contracts : List String) (start_ledger : ℕ) (db : Db)
    → Extends db (poll_events server contracts start_ledger db).1
      × (start_ledger ≤ (poll_events server contracts start_ledger db).0)
unfolding poll_events
poll_events-Extends server contracts start_ledger db =
    poll_up_to-Extends server contracts start_ledger server.get_latest_ledger db

ahead : (a b : ℕ) → a < b → leb b a ≡ false
ahead a b h = ground arith

next_event-same :
    (s : Result Bool × Db) (f g : Db → Db)
    → ((d : Db) → f d ≡ g d)
    → next_event s f ≡ next_event s g
unfolding next_event
next_event-same (ok added, db) f g h = h db
next_event-same (err e, db) f g h = refl

-- What `JSON.stringify` cannot write: an event of a DAO whose value holds a BigInt.
pub record IsUnwritable (event : ChainEvent) : Type 0 where
  pub event_name : String
  pub dao_id : JsNumber
  pub named : event.name ≡ some (some event_name)
  pub of_dao : event.dao ≡ some (some dao_id)
  pub holds_bigint : event.value ≡ some (some with_bigint)

wanted_unwritable :
    (event : ChainEvent)
    → IsUnwritable event
    → (e : EventInput) × (wanted_input event ≡ some e) × (e.payload ≡ with_bigint)
unfolding wanted_input parsed_as
wanted_unwritable event u = (
  input_of (parsed_as event (event_type u.event_name) (flat event.dao)) u.dao_id,
  rw (u.named, parsed_as) (rw u.of_dao),
  rw u.holds_bigint,
)

index_event_unwritable :
    (event : ChainEvent) (db : Db)
    → IsUnwritable event
    → index_event event db ≡ (err "TypeError", db)
unfolding index_event add_wanted add_event insert_event insert_text payload_text
index_event_unwritable event db u =
    let (e, wanted, payload) = wanted_unwritable event u in rw wanted (simp payload)

index_events_stop :
    (before after : List ChainEvent) (event : ChainEvent) (db : Db)
    → IsUnwritable event
    → index_events (before ++ event ∷ after) db ≡ index_events before db
unfolding index_events
index_events_stop [] after event db u =
    rw (index_event_unwritable event db u) (unfold next_event in refl)
index_events_stop (b ∷ before) after event db u =
    next_event-same (index_event b db) (index_events (before ++ event ∷ after))
      (index_events before) (λ d. index_events_stop before after event d u)

poll_contracts-append :
    (server : RpcServer) (front back : List String) (lo hi : ℕ) (db : Db)
    → poll_contracts server (front ++ back) lo hi db
      ≡ poll_contracts server back lo hi (poll_contracts server front lo hi db)
unfolding poll_contracts
poll_contracts-append server [] back lo hi db = refl
poll_contracts-append server (c ∷ front) back lo hi db =
    poll_contracts-append server front back lo hi
      (poll_contract (server.get_events c (lo + 1) hi 100) db)

-- An event whose value holds a BigInt (such as a vote's nullifier) ends the work on its contract, whatever contracts
-- are polled before and after it: what the server lists from that event on is not stored, the other contracts are
-- polled, and yet the poll moves on to the latest ledger.
pub poll_events_loses :
    (server : RpcServer) (front back : List String) (contract : String) (start_ledger current : ℕ)
    (db : Db) (before after : List ChainEvent) (event : ChainEvent)
    → server.get_latest_ledger ≡ some current
    → start_ledger < current
    → server.get_events contract (start_ledger + 1) current 100 ≡ some (before ++ event ∷ after)
    → IsUnwritable event
    → poll_events server (front ++ contract ∷ back) start_ledger db ≡ (
      current,
      poll_contracts server back start_ledger current
          (index_events before (poll_contracts server front start_ledger current db)),
    )
unfolding poll_events poll_contracts
poll_events_loses server front back contract start_ledger current db before after event hl lt he u =
    let polled = poll_contracts server front start_ledger current db in
    simp hl (
      unfold poll_up_to in
      rw (ahead start_ledger current lt) (
        ap (λ d. (current, d))
          (poll_contracts-append server front (contract ∷ back) start_ledger current db
            ∙ simp he (
                unfold poll_contract in
                ap (poll_contracts server back start_ledger current)
                  (index_events_stop before after event polled u)))))
