-- ===== src/Indexer/Pages.antt =====
-- routes/indexer.ts and db.ts together: reading a DAO's events page by page.
use zkvote.Prelude.{
  ℕ, zero, suc, ◌+◌, ◌*◌, ◌≤◌, ◌<◌, ◌≡◌, refl, sym, ap, ◌∙◌, min, String, Bool, true, false, Option,
  some, List, [], ◌∷◌, ◌++◌, Result, ok, err, ◌>>=◌, ltb, arith, untied, sort_by, length-sort_by,
  take, drop, drop-drop, take-take-drop, take_full, length, length-take, IsSorted,
}
use mathlib.Core.List.{Perm}
use zkvote.Decimal.{decimal}
use zkvote.ParseInt.{pos, parse_int-decimal, parse_int-minus}
use zkvote.Db.{EventRow, Db}
use zkvote.Db.Events.{keep, selects, newest_first, get_events_for_dao, sqlite_bound, is_bindable}
use zkvote.Db.Query.{newest, newest-Perm, newest-IsSorted, length-newest, scanned-newest}
use zkvote.Indexer.Routes.{
  EventQuery, EventsResult, query_options, events_for_dao, get_events, or_number, at_most,
}

-- ?limit=...&offset=... with the texts of two numbers.
abbrev pub page : Option String → ℕ → ℕ → EventQuery
page types limit offset = record {
  limit = some (decimal limit);
  offset = some (decimal offset);
  types = types;
}

-- A limit that has a minus sign.
abbrev pub below_zero : Option String → ℕ → EventQuery
below_zero types n = record {
  limit = some (b'-' ∷ decimal n);
  offset = some (decimal 0);
  types = types;
}

-- The events of `count` requests, each of which starts where the last one ended. At each request the rows may be
-- scanned in another order.
pub read_pages :
    (ℕ → List EventRow → List EventRow)
    → ℕ
    → Option String
    → ℕ
    → ℕ
    → ℕ
    → Db
    → Result (List EventRow)
read_pages scans dao_id types limit zero offset db = ok []
read_pages scans dao_id types limit (suc count) offset db = do
  first ← get_events (scans count) (decimal dao_id) (page types limit offset) db
  others ← read_pages scans dao_id types limit count (offset + limit) db
  ok (first.events ++ others)

-- Of the DAO, and of the types of the query.
abbrev pub wanted : ℕ → Option String → EventRow → Bool
wanted dao_id types = selects dao_id (query_options (page types 0 0))

or_number_pos : (n : ℕ) → or_number (some (pos n)) 0 ≡ pos n
or_number_pos zero = refl
or_number_pos (suc n) = ground arith

at_most-suc : (k : ℕ) → suc k ≤ 100 → at_most (or_number (some (pos (suc k))) 50) 100 ≡ pos (suc k)
at_most-suc k h = ground (arith, h)

bindable : (n : ℕ) → n < sqlite_bound → is_bindable (pos n) ≡ true
bindable n h = ground (arith, h)

not_bindable : (n : ℕ) → sqlite_bound ≤ n → ltb n sqlite_bound ≡ false
not_bindable n h = ground (arith, h)

-- What the route's query holds, with a limit and an offset that are in range.
page_answer : (EventRow → Bool) → ℕ → ℕ → Db → EventsResult
page_answer p limit offset db = record {
  events = take limit (drop offset (newest p db));
  total = length (keep p db.events);
}

module _ (scan : List EventRow → List EventRow) (dao_id : ℕ) (types : Option String) (db : Db)
    (moved : Perm
      (scan (keep (wanted dao_id types) db.events))
      (keep (wanted dao_id types) db.events))
    (apart : untied newest_first (keep (wanted dao_id types) db.events) ≡ true) where
  get_events_page :
      (k offset : ℕ)
      → suc k ≤ 100
      → offset < sqlite_bound
      → get_events scan (decimal dao_id) (page types (suc k) offset) db
        ≡ ok (page_answer (wanted dao_id types) (suc k) offset db)
  unfolding get_events query_options events_for_dao get_events_for_dao selects page_answer
  get_events_page k offset h o =
      rw
        (
          parse_int-decimal dao_id,
          parse_int-decimal offset,
          parse_int-decimal (suc k),
          at_most-suc k h,
          or_number_pos offset,
        )
        (rw (bindable (suc k) (omega (arith, h)), bindable offset o)
          (ap
            (λ rows. ok (record {
              events = take (suc k) (drop offset rows);
              total = length (keep (wanted dao_id types) db.events);
            }))
            (scanned-newest scan (wanted dao_id types) db moved apart)))

ok_total : (a b : EventsResult) → ◌≡◌ {A = Result EventsResult} (ok a) (ok b) → a.total ≡ b.total
ok_total a b e = ground (arith, e)

module _ (scans : ℕ → List EventRow → List EventRow) (dao_id : ℕ) (types : Option String) (db : Db)
    (moved : (i : ℕ)
      → Perm
          (scans i (keep (wanted dao_id types) db.events))
          (keep (wanted dao_id types) db.events))
    (apart : untied newest_first (keep (wanted dao_id types) db.events) ≡ true) where
  read_pages-take :
      (k count offset : ℕ)
      → suc k ≤ 100
      → offset + count * suc k < sqlite_bound
      → read_pages scans dao_id types (suc k) count offset db
        ≡ ok (take (count * suc k) (drop offset (newest (wanted dao_id types) db)))
  unfolding read_pages page_answer
  read_pages-take k zero offset h small =
      let z : 0 * suc k ≡ 0 = omega arith in
      sym (ap (λ n. ok (take n (drop offset (newest (wanted dao_id types) db)))) z)
  read_pages-take k (suc count) offset h small =
      let rows = newest (wanted dao_id types) db in
      let more : suc count * suc k ≡ suc k + count * suc k = omega arith in
      rw
        (
          get_events_page (scans count) dao_id types db (moved count) apart k offset h
              (omega (arith, small, more)),
          read_pages-take k count (offset + suc k) h (omega (arith, small, more)),
        )
        (ap ok (
          ap (λ l. take (suc k) (drop offset rows) ++ take (count * suc k) l)
            (sym (drop-drop (suc k) offset (offset + suc k) rows refl))
          ∙ take-take-drop (suc k) (count * suc k) (suc count * suc k) (drop offset rows)
              (omega arith)))

  -- While the table does not change and no two selected events have the same time and ledger, requests of a constant
  -- size of at most 100, each of which starts where the last one ended, and of which there are enough for the total
  -- and not so many that the offset leaves SQLite's range, succeed and return together every selected event of the
  -- DAO exactly once, newest first, in whatever order each query scans the rows.
  pub read_pages_whole :
      (k count : ℕ) (first : EventsResult)
      → suc k ≤ 100
      → get_events (scans count) (decimal dao_id) (page types (suc k) 0) db ≡ ok first
      → first.total ≤ count * suc k
      → count * suc k < sqlite_bound
      → (rows : List EventRow) × (read_pages scans dao_id types (suc k) count 0 db ≡ ok rows)
        × Perm rows (keep (wanted dao_id types) db.events)
        × IsSorted newest_first rows
  unfolding page_answer
  read_pages_whole k count first h runs enough small =
      let rows = newest (wanted dao_id types) db in
      let same : first.total ≡ length (keep (wanted dao_id types) db.events) = ok_total first _ (
        sym runs
        ∙ get_events_page (scans count) dao_id types db (moved count) apart k 0 h (omega arith)) in
      (
        rows,
        read_pages-take k count 0 h (omega (arith, small))
            ∙ ap ok (
                take_full (count * suc k) rows
                  (omega (arith, enough, same, length-newest (wanted dao_id types) db))),
        newest-Perm (wanted dao_id types) db,
        newest-IsSorted (wanted dao_id types) db,
      )

limit_bound : (n : ℕ) → (m : ℕ) × (at_most (or_number (some (pos n)) 50) 100 ≡ pos m) × (m ≤ 100)
limit_bound zero = (50, refl, omega arith)
limit_bound (suc n) = (min (suc n) 100, ground arith, omega arith)

length-take_le : (m : ℕ) (rows : List EventRow) → m ≤ 100 → length (take m rows) ≤ 100
length-take_le m rows h = omega (arith, length-take m rows, h)

scanned : (List EventRow → List EventRow) → (EventRow → Bool) → Db → List EventRow
scanned scan p db = sort_by newest_first (scan (keep p db.events))

length-scanned :
    (scan : List EventRow → List EventRow) (p : EventRow → Bool) (db : Db)
    → length (scan (keep p db.events)) ≡ length (keep p db.events)
    → length (scanned scan p db) ≡ length (keep p db.events)
unfolding scanned
length-scanned scan p db same = length-sort_by newest_first (scan (keep p db.events)) ∙ same

-- However a query scans the rows, as long as their number is kept: a limit without a sign, whatever its size, succeeds
-- with at most 100 events. A limit with a minus sign that is not 0 and is in SQLite's range succeeds with all the
-- events that are counted, however many they are; with one out of the range the query fails.
pub get_events_bounds :
    (scan : List EventRow → List EventRow) (dao_id n small large : ℕ) (types : Option String)
    (db : Db)
    → length (scan (keep (wanted dao_id types) db.events))
      ≡ length (keep (wanted dao_id types) db.events)
    → suc small < sqlite_bound
    → sqlite_bound ≤ suc large
    → ((few : EventsResult) × (get_events scan (decimal dao_id) (page types n 0) db ≡ ok few)
        × (length few.events ≤ 100))
      × ((all : EventsResult) × (get_events scan (decimal dao_id) (below_zero types (suc small)) db
            ≡ ok all)
          × (length all.events ≡ all.total))
      × (get_events scan (decimal dao_id) (below_zero types (suc large)) db
          ≡ err "datatype mismatch")
unfolding get_events query_options events_for_dao get_events_for_dao selects scanned
get_events_bounds scan dao_id n small large types db same fits exceeds =
    let (m, e, least) = limit_bound n in
    let p = wanted dao_id types in
    (
      (
        record { events = take m (scanned scan p db); total = length (keep p db.events) },
        rw (parse_int-decimal dao_id, parse_int-decimal n, parse_int-decimal 0, e)
            (rw (bindable m (omega (arith, least))) refl),
        length-take_le m (scanned scan p db) least,
      ),
      (
        record { events = scanned scan p db; total = length (keep p db.events) },
        rw (parse_int-decimal dao_id, parse_int-minus (suc small), parse_int-decimal 0)
            (rw (bindable (suc small) fits) refl),
        length-scanned scan p db same,
      ),
      rw (parse_int-decimal dao_id, parse_int-minus (suc large), parse_int-decimal 0)
          (rw (not_bindable (suc large) exceeds) refl),
    )
