-- ===== src/Examples/Syncing.antt =====
-- Examples for the synchronisation with the contracts.
use zkvote.Prelude.{ℕ, zero, suc, ◌≡◌, refl, String, true, none, some, List, [], ◌∷◌, ok, arith}
use zkvote.Indexer.Service.{DaoData}
use zkvote.Sync.{ChainDao, Registry, Caches, get_entry, has, sync_dao_membership}
use zkvote.Sync.Members.{paged, sync_dao_membership_complete}

abbrev repeated : ℕ → List String
repeated zero = []
repeated (suc n) = "G1" ∷ repeated n

-- More than a page.
abbrev members : List String
members = "G2" ∷ repeated 59

abbrev caches : Caches
caches = record { members = []; admins = [] }

membership_example :
    (caches' : Caches) × (cached : List String) × (sync_dao_membership 2 true
        (λ dao_id. paged members)
        4
        caches
      ≡ some caches')
    × (get_entry 4 caches'.members ≡ some cached)
    × ((user : String) → has user cached ≡ has user members)
membership_example =
    sync_dao_membership_complete 2 (λ dao_id. paged members) 4 members caches refl (omega arith)

abbrev chain_dao : ChainDao
chain_dao = record {
  name = "One";
  creator = "G1";
  membership_open = none;
  members_can_propose = some true;
  metadata_cid = none;
  member_count = some 2;
}

abbrev registry : Registry
registry = record { dao_count = ok (some 2); get_dao = λ i. ok (some chain_dao) }

abbrev show : ℕ → String
show n = "n"

abbrev stringify : DaoData → String
stringify d = "{}"
