-- ===== src/Db/DaoLaws.antt =====
-- db.ts: reading the table `daos` after writes.
use zkvote.Prelude.{
  ℕ, ◌≡◌, refl, ◌∙◌, ap, sym, Option, none, some, List, [], ◌∷◌, ◌==◌, if◌then◌else◌, if_true,
  if_false, arith, inl, inr, Bool-cases,
}
use zkvote.Db.{DaoRow, Db}
use zkvote.Db.Daos.{
  DaoInput, dao_row, upsert_row, upsert_dao, upsert_daos, find_row, get_cached_dao,
}

find_row-upsert_row :
    (j : ℕ) (r : DaoRow) (rows : List DaoRow)
    → find_row j (upsert_row r rows) ≡ (if r.id == j then some r else find_row j rows)
unfolding upsert_row
find_row-upsert_row j r [] = refl
find_row-upsert_row j r (s ∷ rows) = ground (arith, find_row-upsert_row j r rows)

-- A DAO that is written is read, and the others are as they were.
pub get_cached_dao-upsert_dao :
    (now j : ℕ) (dao : DaoInput) (db : Db)
    → get_cached_dao j (upsert_dao now dao db)
      ≡ (if dao.id == j then some (dao_row now dao) else get_cached_dao j db)
unfolding get_cached_dao upsert_dao dao_row
get_cached_dao-upsert_dao now j dao db = find_row-upsert_row j (dao_row now dao) db.daos

-- The last of a list of DAOs with an id.
abbrev pub last_with : ℕ → List DaoInput → Option DaoInput
last_with j [] = none
last_with j (dao ∷ daos) = elim (last_with j daos) [
  | none ↦ if dao.id == j then some dao else none
  | some found ↦ some found
]

abbrev pub cached_or : ℕ → Option DaoInput → Option DaoRow → Option DaoRow
cached_or now none before = before
cached_or now (some dao) before = some (dao_row now dao)

cached_or-cons :
    (now j : ℕ) (dao : DaoInput) (found : Option DaoInput) (before : Option DaoRow)
    → cached_or now found (if dao.id == j then some (dao_row now dao) else before)
      ≡ cached_or now
          (elim found [ none ↦ if dao.id == j then some dao else none | some d ↦ some d ])
          before
cached_or-cons now j dao none before = elim (Bool-cases (dao.id == j)) [
  | inl e ↦
      if_true (dao.id == j) _ _ e
      ∙ sym (ap (λ o. cached_or now o before) (if_true (dao.id == j) (some dao) none e))
  | inr e ↦
      if_false (dao.id == j) _ _ e
      ∙ sym (ap (λ o. cached_or now o before) (if_false (dao.id == j) (some dao) none e))
]
cached_or-cons now j dao (some d) before = refl

-- After a list of DAOs is written, an id that is in the list gives its last DAO, and any other what it
-- gave before.
pub get_cached_dao-upsert_daos :
    (now j : ℕ) (daos : List DaoInput) (db : Db)
    → get_cached_dao j (upsert_daos now daos db)
      ≡ cached_or now (last_with j daos) (get_cached_dao j db)
unfolding upsert_daos
get_cached_dao-upsert_daos now j [] db = refl
get_cached_dao-upsert_daos now j (dao ∷ daos) db =
    get_cached_dao-upsert_daos now j daos (upsert_dao now dao db)
    ∙ ap (cached_or now (last_with j daos)) (get_cached_dao-upsert_dao now j dao db)
    ∙ cached_or-cons now j dao (last_with j daos) (get_cached_dao j db)
