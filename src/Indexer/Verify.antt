-- ===== src/Indexer/Verify.antt =====
-- indexer.ts: verification of notified events, and what it leaves alone.
use zkvote.Prelude.{
  ℕ, ◌≡◌, refl, ap, ◌∙◌, String, Bool, true, false, not, ◌&&◌, Option, none, some, List, [], ◌∷◌,
  Result, inl, inr, arith, str_eq, if◌then◌else◌, Bool-cases, map, if_elim,
}
use zkvote.Db.{EventRow, Db}
use zkvote.Db.Events.{
  keys_distinct, has_hash, verified_at, verify_event, keep, delete_unverified_event,
}
use zkvote.Indexer.{
  RpcServer, TxStatus, success, failed, not_found, apply_status, verified_result, verify_hash,
  verify_event_on_chain, verify_each, verify_pending_events,
}

-- The rows of other transactions.
abbrev pub others : String → List EventRow → List EventRow
others tx rows = keep (λ r. not (has_hash tx r)) rows

has_hash-verified_at :
    (tx : String) (ledger : ℕ) (r : EventRow)
    → has_hash tx (verified_at tx ledger r) ≡ has_hash tx r
has_hash-verified_at tx ledger r = elim (Bool-cases (has_hash tx r)) [
  | inl h ↦ rw h h
  | inr h ↦ rw h h
]

others-cons :
    (tx : String) (r : EventRow) (rows : List EventRow)
    → others tx (r ∷ rows) ≡ (if has_hash tx r then others tx rows else r ∷ others tx rows)
others-cons tx r rows = elim (Bool-cases (has_hash tx r)) [ inl h ↦ rw h refl | inr h ↦ rw h refl ]

others-verified_at :
    (tx : String) (ledger : ℕ) (rows : List EventRow)
    → others tx (map (verified_at tx ledger) rows) ≡ others tx rows
others-verified_at tx ledger [] = refl
others-verified_at tx ledger (r ∷ rows) = elim (Bool-cases (has_hash tx r)) [
  | inl h ↦ rw (has_hash-verified_at tx ledger r) (rw h (others-verified_at tx ledger rows))
  | inr h ↦ rw h (rw h (ap (λ l. r ∷ l) (others-verified_at tx ledger rows)))
]

keep-keep :
    (p q : EventRow → Bool) (rows : List EventRow)
    → ((r : EventRow) → p r ≡ true → q r ≡ true)
    → keep p (keep q rows) ≡ keep p rows
keep-keep p q [] h = refl
keep-keep p q (r ∷ rows) h = elim (Bool-cases (q r)) [
  | inl e ↦ elim (Bool-cases (p r)) [
    | inl f ↦ rw e (rw f (ap (λ l. r ∷ l) (keep-keep p q rows h)))
    | inr f ↦ rw e (rw f (keep-keep p q rows h))
  ]
  | inr e ↦ let f : p r ≡ false = ground (arith, e, h r) in rw e (rw f (keep-keep p q rows h))
]

others-delete :
    (tx : String) (rows : List EventRow)
    → others tx (keep (λ r. not (has_hash tx r && not r.verified)) rows) ≡ others tx rows
others-delete tx rows =
    keep-keep (λ r. not (has_hash tx r)) (λ r. not (has_hash tx r && not r.verified)) rows
      (λ r h. ground (arith, h))

-- What the verification of an event leaves alone: the rows of other transactions, in their order, the
-- metadata, and the DAOs.
pub record LeavesOthers (tx : String) (old new : Db) : Type 0 where
  pub same_others : others tx new.events ≡ others tx old.events
  pub same_metadata : new.metadata ≡ old.metadata
  pub same_daos : new.daos ≡ old.daos

LeavesOthers-refl : (tx : String) (db : Db) → LeavesOthers tx db db
LeavesOthers-refl tx db = record { same_others = refl; same_metadata = refl; same_daos = refl }

verify_event-LeavesOthers :
    (tx : String) (ledger : ℕ) (db : Db)
    → LeavesOthers tx db (verified_result (verify_event tx ledger db)).1
unfolding verify_event
verify_event-LeavesOthers tx ledger db =
    let rows = map (verified_at tx ledger) db.events in
    if_elim {A = Result (Unit {0}) × Db} (keys_distinct rows)
      (λ s. LeavesOthers tx db (verified_result s).1) _ _
      (λ h. record {
        same_others = others-verified_at tx ledger db.events;
        same_metadata = refl;
        same_daos = refl;
      })
      (λ h. LeavesOthers-refl tx db)

apply_status-LeavesOthers :
    (tx : String) (status : Option TxStatus) (db : Db)
    → LeavesOthers tx db (apply_status tx status db).1
unfolding apply_status delete_unverified_event
apply_status-LeavesOthers tx none db = LeavesOthers-refl tx db
apply_status-LeavesOthers tx (some (success ledger)) db = verify_event-LeavesOthers tx ledger db
apply_status-LeavesOthers tx (some failed) db = record {
  same_others = others-delete tx db.events;
  same_metadata = refl;
  same_daos = refl;
}
apply_status-LeavesOthers tx (some not_found) db = LeavesOthers-refl tx db

-- The hash by which an event is looked up; `verify_event_on_chain` does nothing without one.
abbrev pub hash_or_empty : Option String → String
hash_or_empty none = ""
hash_or_empty (some tx) = tx

verify_hash-LeavesOthers :
    (server : RpcServer) (o : Option String) (db : Db)
    → LeavesOthers (hash_or_empty o) db (verify_hash server o db).1
unfolding verify_hash
verify_hash-LeavesOthers server none db = LeavesOthers-refl "" db
verify_hash-LeavesOthers server (some tx) db =
    if_elim {A = Bool × Db} (str_eq tx "") (λ s. LeavesOthers tx db s.1) _ _
      (λ h. LeavesOthers-refl tx db)
      (λ h. apply_status-LeavesOthers tx (server.get_transaction tx) db)

-- Whatever the server answers, the verification of an event leaves the rows of all other transactions as
-- they are and in their order, and does not touch the metadata and the DAOs.
pub verify_event_on_chain-LeavesOthers :
    (server : RpcServer) (event : EventRow) (db : Db)
    → LeavesOthers (hash_or_empty event.tx_hash) db (verify_event_on_chain server event db).1
unfolding verify_event_on_chain
verify_event_on_chain-LeavesOthers server event db =
    verify_hash-LeavesOthers server event.tx_hash db

verify_each-metadata :
    (server : RpcServer) (events : List EventRow) (db : Db)
    → (verify_each server events db).metadata ≡ db.metadata
unfolding verify_each
verify_each-metadata server [] db = refl
verify_each-metadata server (event ∷ events) db =
    let l = verify_event_on_chain-LeavesOthers server event db in
    verify_each-metadata server events (verify_event_on_chain server event db).1 ∙ l.same_metadata

pub verify_pending_events-metadata :
    (server : RpcServer) (db : Db) → (verify_pending_events server db).metadata ≡ db.metadata
unfolding verify_pending_events
verify_pending_events-metadata server db = verify_each-metadata server _ db
