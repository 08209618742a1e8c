-- ===== src/Db/Pending.antt =====
-- db.ts: events that are notified twice.
use zkvote.Prelude.{
  ℕ, ◌≡◌, refl, ap, ◌∙◌, String, true, false, List, [], ◌∷◌, ◌++◌, ok, err, arith, eq_iff, str_eq,
  any, map, if_false,
}
use zkvote.Db.{json, num, EventRow, Db}
use zkvote.Db.Events.{
  same_key, keys_distinct, row_of, payload_text, pending_input, added_row, insert_row, insert_text,
  insert_event, caught, add_event, add_pending_event, verified_at, verify_event,
}

-- The row of a notification.
abbrev pub pending_row : ℕ → ℕ → ℕ → String → String → String → EventRow
pending_row now id d type text tx =
    row_of now id d text (pending_input now (num d) type (json text) tx)

no_key :
    (now id d : ℕ) (type text tx : String) (rows : List EventRow)
    → any (same_key (pending_row now id d type text tx)) rows ≡ false
unfolding same_key row_of
no_key now id d type text tx [] = refl
no_key now id d type text tx (s ∷ rows) = ground (arith, no_key now id d type text tx rows)

pub pending_added :
    (now d : ℕ) (type text tx : String) (db : Db)
    → add_pending_event now (num d) type (json text) tx db
      ≡ (ok true, added_row (pending_row now db.next_id d type text tx) db)
unfolding add_pending_event add_event insert_event insert_text insert_row payload_text caught
pending_added now d type text tx db = rw (no_key now db.next_id d type text tx db.events) refl

same_last :
    (rows : List EventRow) (r s : EventRow)
    → same_key r s ≡ true
    → keys_distinct ((rows ++ r ∷ []) ++ s ∷ []) ≡ false
unfolding keys_distinct
same_last [] r s h = ground (arith, h)
same_last (t ∷ rows) r s h = ground (arith, same_last rows r s h)

map_two :
    (f : EventRow → EventRow) (rows : List EventRow) (r s : EventRow)
    → map f ((rows ++ r ∷ []) ++ s ∷ []) ≡ (map f rows ++ f r ∷ []) ++ f s ∷ []
map_two f [] r s = refl
map_two f (t ∷ rows) r s = ap (λ l. f t ∷ l) (map_two f rows r s)

same_verified :
    (now now' id id' d ledger : ℕ) (type text text' tx : String)
    → same_key
        (verified_at tx ledger (pending_row now id d type text tx))
        (verified_at tx ledger (pending_row now' id' d type text' tx))
      ≡ true
unfolding same_key row_of
same_verified now now' id id' d ledger type text text' tx =
    let e : str_eq tx tx ≡ true = ground (arith, eq_iff tx tx) in
    rw e (ground (arith, e, eq_iff type type))

verify_two :
    (tx : String) (ledger : ℕ) (db : Db) (r s : EventRow)
    → same_key (verified_at tx ledger r) (verified_at tx ledger s) ≡ true
    → verify_event tx ledger (added_row s (added_row r db))
      ≡ (err "SQLITE_CONSTRAINT_UNIQUE", added_row s (added_row r db))
unfolding verify_event
verify_two tx ledger db r s h =
    if_false (keys_distinct (map (verified_at tx ledger) ((db.events ++ r ∷ []) ++ s ∷ []))) _ _ (
      ap keys_distinct (map_two (verified_at tx ledger) db.events r s)
      ∙ same_last (map (verified_at tx ledger) db.events) (verified_at tx ledger r)
          (verified_at tx ledger s) h)

-- A notification is always stored, also when one of the same DAO, type and transaction is there. After two
-- of them, `verifyEvent` of the transaction, at any ledger, breaks the uniqueness of the keys and changes
-- nothing.
pub verify_event-add_pending_event :
    (now now' d ledger : ℕ) (type text text' tx : String) (db : Db)
    → ((add_pending_event now (num d) type (json text) tx db).0 ≡ ok true)
      × ((add_pending_event now'
            (num d)
            type
            (json text')
            tx
            (add_pending_event now (num d) type (json text) tx db).1).0
          ≡ ok true)
      × (verify_event tx ledger
            (add_pending_event now'
              (num d)
              type
              (json text')
              tx
              (add_pending_event now (num d) type (json text) tx db).1).1
          ≡ (
            err "SQLITE_CONSTRAINT_UNIQUE",
            (add_pending_event now'
                (num d)
                type
                (json text')
                tx
                (add_pending_event now (num d) type (json text) tx db).1).1,
          ))
verify_event-add_pending_event now now' d ledger type text text' tx db =
    let r = pending_row now db.next_id d type text tx in
    let once = added_row r db in
    let s = pending_row now' once.next_id d type text' tx in
    rw (pending_added now d type text tx db) (
      rw (pending_added now' d type text' tx once) (
        refl,
        refl,
        verify_two tx ledger db r s
            (same_verified now now' db.next_id once.next_id d ledger type text text' tx),
      ))
