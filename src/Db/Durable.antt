-- ===== src/Db/Durable.antt =====
-- db.ts: what the statements on the table `events` leave of the rows that are there.
use zkvote.Prelude.{
  ℕ, ◌+◌, ◌≡◌, refl, sym, ap, ◌∙◌, subst, ◌⊎◌, inl, inr, String, Bool, true, false, not, ◌&&◌,
  Option, none, some, List, [], ◌∷◌, ◌++◌, append-nil, append_assoc, map, arith, any, Bool-cases,
  if_false,
}
use zkvote.Db.{JsNumber, nan, num, EventRow, EventInput, Db, set_metadata}
use zkvote.Db.Events.{
  same_key, row_of, payload_text, keys_distinct, insert_row, insert_text, insert_event, add_event,
  add_pending_event, pending_input, has_hash, verified_at, verify_event, keep, eq_hash,
  delete_unverified_event, JsonEvent, JsonFile, migrated_input, migrate_events, migrate_daos,
  save_ledger, migrate_from_json,
}
use zkvote.Db.Statements.{
  Statement, add, add_pending, verify, delete_unverified, set_meta, migrate, execute, run,
}

abbrev pub Has : (EventRow → Type 0) → List EventRow → Type 0
Has P [] = ⊥
Has P (r ∷ rows) = P r ⊎ Has P rows

-- The row with another ledger, verified.
abbrev pub IsVerifiedAs : EventRow → EventRow → Type 0
IsVerifiedAs r s = s ≡ record r { ledger = s.ledger; verified = true }

abbrev names : Option String → Statement → Bool
names hash (verify tx ledger) = eq_hash hash (some tx)
names hash (delete_unverified tx) = eq_hash hash (some tx)
names hash (add e) = false
names hash (add_pending d t p tx) = false
names hash (set_meta k v) = false
names hash (migrate f) = false

-- A statement that updates or deletes rows of the hash.
abbrev pub touches : Option String → ℕ × Statement → Bool
touches hash (now, s) = names hash s

-- Rows are only added.
record Grows (old new : Db) : Type 0 where
  rows : List EventRow
  appended : new.events ≡ old.events ++ rows

Grows-refl : (db : Db) → Grows db db
Grows-refl db = record { rows = []; appended = sym (append-nil db.events) }

Grows-trans : (a b c : Db) → Grows a b → Grows b c → Grows a c
Grows-trans a b c p q = record {
  rows = p.rows ++ q.rows;
  appended = q.appended ∙ ap (λ l. l ++ q.rows) p.appended ∙ append_assoc a.events p.rows q.rows;
}

insert_row-Grows : (r : EventRow) (db : Db) → Grows db (insert_row r db).1
unfolding insert_row
insert_row-Grows r db = elim (Bool-cases (any (same_key r) db.events)) [
  | inl dup ↦ rw dup (Grows-refl db)
  | inr fresh ↦ rw fresh (record { rows = r ∷ []; appended = refl })
]

insert_text-Grows :
    (now : ℕ) (e : EventInput) (n : JsNumber) (text : Option String) (db : Db)
    → Grows db (insert_text now e n text db).1
unfolding insert_text
insert_text-Grows now e n none db = Grows-refl db
insert_text-Grows now e nan (some text) db = Grows-refl db
insert_text-Grows now e (num d) (some text) db =
    insert_row-Grows (row_of now db.next_id d text e) db

insert_event-Grows : (now : ℕ) (e : EventInput) (db : Db) → Grows db (insert_event now e db).1
unfolding insert_event
insert_event-Grows now e db = insert_text-Grows now e e.dao_id (payload_text e.payload) db

migrate_events-Grows :
    (now : ℕ) (d : JsNumber) (es : List JsonEvent) (n : ℕ) (db : Db)
    → Grows db (migrate_events now d es (n, db)).1
unfolding migrate_events
migrate_events-Grows now d [] n db = Grows-refl db
migrate_events-Grows now d (e ∷ es) n db =
    let next = (insert_event now (migrated_input d e) db).1 in
    Grows-trans db next _ (insert_event-Grows now (migrated_input d e) db)
      (migrate_events-Grows now d es (n + 1) next)

migrate_daos-Grows :
    (now : ℕ) (file : List (JsNumber × List JsonEvent)) (n : ℕ) (db : Db)
    → Grows db (migrate_daos now file (n, db)).1
unfolding migrate_daos
migrate_daos-Grows now [] n db = Grows-refl db
migrate_daos-Grows now ((d, es) ∷ rest) n db =
    let (m, next) = migrate_events now d es (n, db) in
    Grows-trans db next _ (migrate_events-Grows now d es n db) (migrate_daos-Grows now rest m next)

save_ledger-events : (o : Option ℕ) (db : Db) → (save_ledger o db).events ≡ db.events
unfolding save_ledger set_metadata
save_ledger-events none db = refl
save_ledger-events (some n) db = ground arith

migrate_from_json-Grows :
    (now : ℕ) (file : Option JsonFile) (db : Db) → Grows db (migrate_from_json now file db).1
unfolding migrate_from_json
migrate_from_json-Grows now none db = Grows-refl db
migrate_from_json-Grows now (some file) db =
    let g = migrate_daos-Grows now file.events 0 db in
    record {
      rows = g.rows;
      appended =
          save_ledger-events file.last_ledger (migrate_daos now file.events (0, db)).1 ∙ g.appended;
    }

Has-append : (P : EventRow → Type 0) (rows more : List EventRow) → Has P rows → Has P (rows ++ more)
Has-append P [] more h = elim h [ ]
Has-append P (r ∷ rows) more (inl p) = inl p
Has-append P (r ∷ rows) more (inr h) = inr (Has-append P rows more h)

Has-Grows :
    (P : EventRow → Type 0) (old new : Db) → Grows old new → Has P old.events → Has P new.events
Has-Grows P old new g h = subst (Has P) (sym g.appended) (Has-append P old.events g.rows h)

Has-map :
    (P : EventRow → Type 0) (f : EventRow → EventRow) (rows : List EventRow)
    → ((s : EventRow) → P s → P (f s))
    → Has P rows
    → Has P (map f rows)
Has-map P f [] k h = elim h [ ]
Has-map P f (r ∷ rows) k (inl p) = inl (k r p)
Has-map P f (r ∷ rows) k (inr h) = inr (Has-map P f rows k h)

Has-keep :
    (P : EventRow → Type 0) (p : EventRow → Bool) (rows : List EventRow)
    → ((s : EventRow) → P s → p s ≡ true)
    → Has P rows
    → Has P (keep p rows)
Has-keep P p [] k h = elim h [ ]
Has-keep P p (r ∷ rows) k (inl h) = rw (k r h) (inl h)
Has-keep P p (r ∷ rows) k (inr h) = elim (Bool-cases (p r)) [
  | inl e ↦ rw e (inr (Has-keep P p rows k h))
  | inr e ↦ rw e (Has-keep P p rows k h)
]

-- What each statement that changes rows leaves of those with a property.
module _ (P : EventRow → Type 0) where
  verify_event-Has :
      (tx : String) (ledger : ℕ) (db : Db)
      → ((s : EventRow) → P s → P (verified_at tx ledger s))
      → Has P db.events
      → Has P (verify_event tx ledger db).1.events
  unfolding verify_event
  verify_event-Has tx ledger db k h =
      elim (Bool-cases (keys_distinct (map (verified_at tx ledger) db.events))) [
        | inl e ↦ rw e (Has-map P (verified_at tx ledger) db.events k h)
        | inr e ↦ rw e h
      ]

  execute-Has :
      (s : ℕ × Statement) (db : Db)
      → ((tx : String) (ledger : ℕ)
          → s.1 ≡ verify tx ledger
          → (r : EventRow) → P r
          → P (verified_at tx ledger r))
      → ((tx : String)
          → s.1 ≡ delete_unverified tx
          → (r : EventRow) → P r
          → not (has_hash tx r && not r.verified) ≡ true)
      → Has P db.events
      → Has P (execute s db).events
  unfolding execute add_event add_pending_event set_metadata delete_unverified_event
  execute-Has (now, add e) db v d h = Has-Grows P db _ (insert_event-Grows now e db) h
  execute-Has (now, add_pending n t p tx) db v d h =
      Has-Grows P db _ (insert_event-Grows now (pending_input now n t p tx) db) h
  execute-Has (now, verify tx ledger) db v d h = verify_event-Has tx ledger db (v tx ledger refl) h
  execute-Has (now, delete_unverified tx) db v d h =
      Has-keep P (λ r. not (has_hash tx r && not r.verified)) db.events (d tx refl) h
  execute-Has (now, set_meta key value) db v d h = h
  execute-Has (now, migrate file) db v d h =
      Has-Grows P db _ (migrate_from_json-Grows now file db) h

verified_at-IsVerifiedAs :
    (r : EventRow) (tx : String) (ledger : ℕ) (s : EventRow)
    → IsVerifiedAs r s
    → IsVerifiedAs r (verified_at tx ledger s)
verified_at-IsVerifiedAs r tx ledger s h =
    let again : EventRow → EventRow = λ t. record t { verified = true; ledger = some ledger } in
    elim (Bool-cases (has_hash tx s)) [ inl e ↦ rw e (ap again h) | inr e ↦ rw e h ]

IsVerifiedAs-kept :
    (r : EventRow) (tx : String) (s : EventRow)
    → IsVerifiedAs r s
    → not (has_hash tx s && not s.verified) ≡ true
IsVerifiedAs-kept r tx s h = let v : s.verified ≡ true = ap (λ t. t.verified) h in ground (arith, v)

-- A verified event is never lost: after any sequence of statements, from any tables, a row that was verified is there
-- with all it had but the ledger, and is still verified.
pub run_keeps_verified :
    (ss : List (ℕ × Statement)) (r : EventRow) (db : Db)
    → Has (IsVerifiedAs r) db.events
    → Has (IsVerifiedAs r) (run ss db).events
unfolding run
run_keeps_verified [] r db h = h
run_keeps_verified (s ∷ ss) r db h = run_keeps_verified ss r (execute s db) (
    execute-Has (IsVerifiedAs r) s db (λ tx ledger e t. verified_at-IsVerifiedAs r tx ledger t)
      (λ tx e t. IsVerifiedAs-kept r tx t) h)

untouched-verified_at :
    (r : EventRow) (tx : String) (ledger : ℕ)
    → has_hash tx r ≡ false
    → (s : EventRow) → s ≡ r
    → verified_at tx ledger s ≡ r
untouched-verified_at r tx ledger h s e =
    ap (verified_at tx ledger) e ∙ if_false (has_hash tx r) _ _ h

-- Only the statements on its transaction change an event: a row whose hash no statement of the sequence verifies or
-- deletes is there as it was after it, verified or not, whatever is added, migrated, verified or deleted beside it.
pub run_keeps_untouched :
    (ss : List (ℕ × Statement)) (r : EventRow) (db : Db)
    → any (touches r.tx_hash) ss ≡ false
    → Has (λ s. s ≡ r) db.events
    → Has (λ s. s ≡ r) (run ss db).events
unfolding run
run_keeps_untouched [] r db u h = h
run_keeps_untouched ((now, s) ∷ ss) r db u h =
    run_keeps_untouched ss r (execute (now, s) db) (ground (arith, u)) (
      execute-Has (λ t. t ≡ r) (now, s) db
        (λ tx ledger e.
          let miss : has_hash tx r ≡ false =
            let n : names r.tx_hash (verify tx ledger) ≡ false =
              subst (λ x. names r.tx_hash x ≡ false) e (ground (arith, u)) in
            n in
          untouched-verified_at r tx ledger miss)
        (λ tx e t same.
          let n : names r.tx_hash (delete_unverified tx) ≡ false =
            subst (λ x. names r.tx_hash x ≡ false) e (ground (arith, u)) in
          let m : has_hash tx t ≡ false = ap (has_hash tx) same ∙ n in ground (arith, m))
        h)
