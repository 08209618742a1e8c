-- ===== src/Db/Query.antt =====
-- db.ts: what a query of a DAO's events returns.
use zkvote.Prelude.{
  ◌≡◌, Bool, true, false, arith, List, length, sort_by, sort_by-perm, length-sort_by,
  sort_by-IsSorted, IsSorted, sym, untied, sort_by-eq-Perm,
}
use mathlib.Core.List.{Perm}
use mathlib.Core.List.Perm
use text.Mathlib.TextEquality.{IsScalar-prop}
use zkvote.Db.{EventRow, Db}
use zkvote.Db.Events.{keep, newest_first}

newest_first_total : (r s : EventRow) → newest_first r s ≡ false → newest_first s r ≡ true
unfolding newest_first
newest_first_total r s h = ground arith

-- The events that are selected, newest first.
abbrev pub newest : (EventRow → Bool) → Db → List EventRow
newest p db = sort_by newest_first (keep p db.events)

pub newest-Perm : (p : EventRow → Bool) (db : Db) → Perm (newest p db) (keep p db.events)
newest-Perm p db = sort_by-perm newest_first (keep p db.events)

pub newest-IsSorted : (p : EventRow → Bool) (db : Db) → IsSorted newest_first (newest p db)
newest-IsSorted p db = sort_by-IsSorted newest_first newest_first_total (keep p db.events)

newest_first_transitive :
    (r s t : EventRow) → newest_first r s ≡ true → newest_first s t ≡ true → newest_first r t ≡ true
unfolding newest_first
newest_first_transitive r s t h k = ground arith

EventRow-set : IsSet EventRow
EventRow-set = hlevel (IsScalar-prop)

-- Where no two selected rows tie, the order in which they are scanned is of no account.
pub scanned-newest :
    (scan : List EventRow → List EventRow) (p : EventRow → Bool) (db : Db)
    → Perm (scan (keep p db.events)) (keep p db.events)
    → untied newest_first (keep p db.events) ≡ true
    → sort_by newest_first (scan (keep p db.events)) ≡ newest p db
scanned-newest scan p db moved h = sym (
    sort_by-eq-Perm newest_first newest_first_total newest_first_transitive EventRow-set
      (Perm.symm moved) h)

pub length-newest :
    (p : EventRow → Bool) (db : Db) → length (newest p db) ≡ length (keep p db.events)
length-newest p db = length-sort_by newest_first (keep p db.events)
