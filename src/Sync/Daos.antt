-- ===== src/Sync/Daos.antt =====
-- sync.ts: what the table `daos` holds after a synchronisation.
use zkvote.Prelude.{
  ℕ, zero, suc, ◌+◌, ◌≤◌, ◌<◌, ◌≡◌, refl, ap, ◌∙◌, ◌⊎◌, subst, String, Bool, true, false, Option,
  none, some, List, [], ◌∷◌, Result, ok, err, ◌==◌, ltb, any, if◌then◌else◌, if_true, if_false,
  if_elim, arith, inl, inr, Bool-cases, length,
}
use zkvote.Db.{Db, JsNumber, nan, num, EventRow, EventInput, set_metadata}
use zkvote.Db.Events.{
  same_key, insert_row, insert_text, insert_event, payload_text, add_event, EventQueryResult,
  get_events_for_dao,
}
use zkvote.Db.Daos.{DaoInput, get_cached_dao, find_row, upsert_daos, set_daos_sync_time}
use zkvote.Db.DaoLaws.{last_with, cached_or, get_cached_dao-upsert_daos}
use zkvote.Indexer.Service.{
  DaoData, ensured, ensure_dao_create_event, synthetic_input, create_options,
}
use zkvote.Sync.{
  ChainDao, Registry, data_of, dao_input, fetched_as, pushed, fetch_daos, and_then, ensure_events,
  synced, save_daos, sync_counted, sync_daos_from_contract,
}

daos-insert_row : (r : EventRow) (db : Db) → (insert_row r db).1.daos ≡ db.daos
unfolding insert_row
daos-insert_row r db = elim (Bool-cases (any (same_key r) db.events)) [
  | inl h ↦ rw h refl
  | inr h ↦ rw h refl
]

daos-insert_text :
    (now : ℕ) (e : EventInput) (n : JsNumber) (text : Option String) (db : Db)
    → (insert_text now e n text db).1.daos ≡ db.daos
unfolding insert_text
daos-insert_text now e n none db = refl
daos-insert_text now e nan (some text) db = refl
daos-insert_text now e (num d) (some text) db = daos-insert_row _ db

daos-add_event : (now : ℕ) (e : EventInput) (db : Db) → (add_event now e db).1.daos ≡ db.daos
unfolding add_event insert_event
daos-add_event now e db = daos-insert_text now e e.dao_id (payload_text e.payload) db

le_cases : (a b : ℕ) → a ≤ b → (a ≡ b) ⊎ (a < b)
le_cases a b l = ground arith

kept :
    (j : ℕ) (dao : DaoInput) (found : Option DaoInput)
    → (dao.id == j) ≡ false
    → elim found [ none ↦ if dao.id == j then some dao else none | some d ↦ some d ] ≡ found
kept j dao none h = if_false (dao.id == j) _ _ h
kept j dao (some d) h = refl

module _ (show : ℕ → String) (stringify : DaoData → String) where
  daos-ensured :
      (now dao_id : ℕ) (dao_data : DaoData) (r : Result EventQueryResult) (db : Db)
      → (ensured show stringify now dao_id dao_data r db).1.daos ≡ db.daos
  unfolding ensured
  daos-ensured now dao_id dao_data (err e) db = refl
  daos-ensured now dao_id dao_data (ok existing) db =
      if_elim {A = Result Bool × Db} (ltb 0 (length existing.events)) (λ s. s.1.daos ≡ db.daos) _ _
        (λ h. refl) (λ h. daos-add_event now (synthetic_input show stringify dao_id dao_data) db)

  daos-ensure_dao_create_event :
      (now dao_id : ℕ) (dao_data : DaoData) (db : Db)
      → (ensure_dao_create_event show stringify now dao_id dao_data db).1.daos ≡ db.daos
  unfolding ensure_dao_create_event
  daos-ensure_dao_create_event now dao_id dao_data db =
      daos-ensured now dao_id dao_data (get_events_for_dao (λ rows. rows) dao_id create_options db)
        db

  daos-and_then :
      (s : Result Bool × Db) (rest : Db → Result (Unit {0}) × Db)
      → ((d : Db) → (rest d).1.daos ≡ d.daos)
      → (and_then show stringify s rest).1.daos ≡ s.1.daos
  daos-and_then (ok b, db) rest h = h db
  daos-and_then (err e, db) rest h = refl

  daos-ensure_events :
      (now : ℕ) (daos : List DaoInput) (db : Db)
      → (ensure_events show stringify now daos db).1.daos ≡ db.daos
  unfolding ensure_events
  daos-ensure_events now [] db = refl
  daos-ensure_events now (dao ∷ daos) db =
      daos-and_then _ (ensure_events show stringify now daos) (daos-ensure_events now daos)
      ∙ daos-ensure_dao_create_event now dao.id (data_of dao) db

  daos-synced :
      (now n : ℕ) (s : Result (Unit {0}) × Db) → (synced show stringify now n s).1.daos ≡ s.1.daos
  unfolding set_daos_sync_time set_metadata
  daos-synced now n (ok done, db) = refl
  daos-synced now n (err e, db) = refl

  cached-save_daos :
      (now j : ℕ) (daos : List DaoInput) (db : Db)
      → get_cached_dao j (save_daos show stringify now daos db).1
        ≡ cached_or now (last_with j daos) (get_cached_dao j db)
  unfolding save_daos get_cached_dao set_daos_sync_time set_metadata
  cached-save_daos now j [] db = refl
  cached-save_daos now j (dao ∷ daos) db =
      let written = upsert_daos now (dao ∷ daos) db in
      if_elim {A = ℕ × Db} (length (dao ∷ daos) == 0)
        (λ s. find_row j s.1.daos ≡ cached_or now (last_with j (dao ∷ daos)) (find_row j db.daos)) _
        _ (λ h. absurd (ground arith))
        (λ h.
          ap (find_row j) (
            daos-synced now _ (ensure_events show stringify now (dao ∷ daos) written)
            ∙ daos-ensure_events now (dao ∷ daos) written)
          ∙ (unfold get_cached_dao in get_cached_dao-upsert_daos now j (dao ∷ daos) db))

  last_with-other :
      (j i : ℕ) (r : Result (Option ChainDao)) (daos : List DaoInput)
      → (i == j) ≡ false
      → last_with j (pushed show stringify (fetched_as show stringify i r) daos) ≡ last_with j daos
  unfolding fetched_as dao_input
  last_with-other j i (err e) daos l = refl
  last_with-other j i (ok none) daos l = refl
  last_with-other j i (ok (some d)) daos l =
      kept j (dao_input show stringify i d) (last_with j daos) l

  last_with-same :
      (j : ℕ) (r : Result (Option ChainDao)) (daos : List DaoInput)
      → last_with j daos ≡ none
      → last_with j (pushed show stringify (fetched_as show stringify j r) daos)
        ≡ fetched_as show stringify j r
  unfolding fetched_as dao_input
  last_with-same j (err e) daos h = h
  last_with-same j (ok none) daos h = h
  last_with-same j (ok (some d)) daos h = rw h (if_true (j == j) _ _ (ground arith))

  fetched_later :
      (registry : Registry) (j start n : ℕ)
      → j < start
      → last_with j (fetch_daos show stringify registry start n) ≡ none
  unfolding fetch_daos
  fetched_later registry j start zero l = refl
  fetched_later registry j start (suc n) l =
      last_with-other j start (registry.get_dao start)
        (fetch_daos show stringify registry (suc start) n) (ground arith)
      ∙ fetched_later registry j (suc start) n (omega arith)

  fetched_at :
      (registry : Registry) (j start n : ℕ)
      → start ≤ j
      → j < start + n
      → last_with j (fetch_daos show stringify registry start n)
        ≡ fetched_as show stringify j (registry.get_dao j)
  unfolding fetch_daos
  fetched_at registry j start zero l l' = absurd (omega arith)
  fetched_at registry j start (suc n) l l' = elim (le_cases start j l) [
    | inl e ↦
        let at_start =
          last_with-same start (registry.get_dao start)
            (fetch_daos show stringify registry (suc start) n)
            (fetched_later registry start (suc start) n (omega arith)) in
        subst
          (λ k.
            last_with k (
              pushed show stringify (fetched_as show stringify start (registry.get_dao start))
                (fetch_daos show stringify registry (suc start) n))
            ≡ fetched_as show stringify k (registry.get_dao k))
          e at_start
    | inr lt ↦
        last_with-other j start (registry.get_dao start)
          (fetch_daos show stringify registry (suc start) n) (ground (arith, lt))
        ∙ fetched_at registry j (suc start) n (omega arith) (omega arith)
  ]

  -- When the registry has `count` DAOs, a synchronisation leaves in the cache, for each id from 1 to
  -- `count`, the DAO that it fetched, and what was there if fetching it failed.
  pub sync_daos_from_contract_caches :
      (now count j : ℕ) (registry : Registry) (db : Db)
      → registry.dao_count ≡ ok (some count)
      → 1 ≤ j
      → j ≤ count
      → get_cached_dao j (sync_daos_from_contract show stringify now true registry db).1
        ≡ cached_or now (fetched_as show stringify j (registry.get_dao j)) (get_cached_dao j db)
  unfolding sync_daos_from_contract sync_counted
  sync_daos_from_contract_caches now count j registry db is l l' =
      ap (λ r. get_cached_dao j (sync_counted show stringify now registry r db).1) is
      ∙ ap (λ s. get_cached_dao j s.1)
          (if_false {A = ℕ × Db} (count == 0) (0, set_daos_sync_time now db)
            (save_daos show stringify now (fetch_daos show stringify registry 1 count) db)
            (ground arith))
      ∙ cached-save_daos now j (fetch_daos show stringify registry 1 count) db
      ∙ ap (λ o. cached_or now o (get_cached_dao j db))
          (fetched_at registry j 1 count l (omega arith))
