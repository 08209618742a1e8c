-- ===== src/Db/Daos.antt =====
-- db.ts: the statements on the table `daos`.
use zkvote.Prelude.{
  ℕ, String, Bool, Option, none, some, List, [], ◌∷◌, ◌==◌, leb, if◌then◌else◌, length, sort_by,
}
use zkvote.Db.{DaoRow, Db, MetaValue, time, get_metadata, set_metadata}
use zkvote.Db.Events.{or_default}

pub record DaoInput : Type 0 where
  pub id : ℕ
  pub name : String
  pub creator : String
  pub membership_open : Bool
  pub members_can_propose : Bool
  pub metadata_cid : Option String
  pub member_count : Option ℕ

unfoldable pub dao_row : ℕ → DaoInput → DaoRow
dao_row now dao = record {
  id = dao.id;
  name = dao.name;
  creator = dao.creator;
  membership_open = dao.membership_open;
  members_can_propose = dao.members_can_propose;
  metadata_cid = dao.metadata_cid;
  member_count = or_default dao.member_count 0;
  updated_at = now;
}

-- INSERT ... ON CONFLICT(id) DO UPDATE
unfoldable pub upsert_row : DaoRow → List DaoRow → List DaoRow
upsert_row r [] = r ∷ []
upsert_row r (s ∷ rows) = if s.id == r.id then r ∷ rows else s ∷ upsert_row r rows

unfoldable pub upsert_dao : ℕ → DaoInput → Db → Db
unfolding upsert_row
upsert_dao now dao db = record db { daos = upsert_row (dao_row now dao) db.daos }

-- The loop in the transaction, whose statements all have the same time.
unfoldable pub upsert_daos : ℕ → List DaoInput → Db → Db
upsert_daos now [] db = db
upsert_daos now (dao ∷ daos) db = upsert_daos now daos (upsert_dao now dao db)

-- SELECT * FROM daos ORDER BY id ASC
unfoldable pub get_all_cached_daos : Db → List DaoRow
get_all_cached_daos db = sort_by (λ r s. leb r.id s.id) db.daos

abbrev pub find_row : ℕ → List DaoRow → Option DaoRow
find_row dao_id [] = none
find_row dao_id (r ∷ rows) = if r.id == dao_id then some r else find_row dao_id rows

unfoldable pub get_cached_dao : ℕ → Db → Option DaoRow
get_cached_dao dao_id db = find_row dao_id db.daos

unfoldable pub get_daos_for_user : String → Db → List DaoRow
get_daos_for_user user db = get_all_cached_daos db

unfoldable pub get_daos_sync_time : Db → Option MetaValue
get_daos_sync_time db = get_metadata "daosSyncTime" db

unfoldable pub set_daos_sync_time : ℕ → Db → Db
set_daos_sync_time timestamp db = set_metadata "daosSyncTime" (time timestamp) db

unfoldable pub get_cached_dao_count : Db → ℕ
get_cached_dao_count db = length db.daos
