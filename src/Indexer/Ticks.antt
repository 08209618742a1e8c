-- ===== src/Indexer/Ticks.antt =====
-- indexer.ts: the indexer from its start through any sequence of polls.
use zkvote.Prelude.{
  ℕ, ◌≤◌, ◌≡◌, refl, ap, ◌∙◌, String, false, not, List, [], ◌∷◌, Option, ltb, if_elim, arith,
}
use zkvote.Db.{
  Db, number, set_metadata, get_metadata-set_metadata, last_ledger, as_number,
  last_ledger-of_metadata,
}
use zkvote.Indexer.{RpcServer, poll_events, verify_pending_events}
use zkvote.Indexer.Service.{Indexer, poll, start_indexer}
use zkvote.Db.Events.{JsonFile}
use zkvote.Indexer.Polling.{poll_events-Extends}
use zkvote.Indexer.Verify.{verify_pending_events-metadata}

-- The ledger in memory is the one that a restart would read.
pub record IsInSync (s : Indexer) : Type 0 where
  pub same : last_ledger s.db ≡ s.last_ledger

-- One after the other, each poll with the server's answers at its time.
unfoldable pub poll_all : List RpcServer → List String → Indexer → Indexer
poll_all [] contracts s = s
poll_all (server ∷ servers) contracts s = poll_all servers contracts (poll server contracts s)

last_ledger-set_metadata :
    (n : ℕ) (db : Db) → last_ledger (set_metadata "lastLedger" (number n) db) ≡ n
unfolding last_ledger
last_ledger-set_metadata n db =
    ap as_number (get_metadata-set_metadata "lastLedger" "lastLedger" (number n) db) ∙ refl

moved-IsInSync :
    (server : RpcServer) (n : ℕ) (db : Db)
    → last_ledger (verify_pending_events server (set_metadata "lastLedger" (number n) db)) ≡ n
moved-IsInSync server n db =
    last_ledger-of_metadata _ (set_metadata "lastLedger" (number n) db)
      (verify_pending_events-metadata server (set_metadata "lastLedger" (number n) db))
    ∙ last_ledger-set_metadata n db

poll_step :
    (server : RpcServer) (contracts : List String) (s : Indexer)
    → IsInSync s
    → IsInSync (poll server contracts s) × (s.last_ledger ≤ (poll server contracts s).last_ledger)
unfolding poll
poll_step server contracts s i =
    let p = poll_events server contracts s.last_ledger s.db in
    let (extends, ahead) = poll_events-Extends server contracts s.last_ledger s.db in
    if_elim {A = Indexer} (not s.is_polling) (λ t. IsInSync t × (s.last_ledger ≤ t.last_ledger)) _ _
      (λ h. (i, omega arith))
      (λ h.
        if_elim {A = Indexer} (ltb s.last_ledger p.0)
          (λ t. IsInSync t × (s.last_ledger ≤ t.last_ledger)) _ _
          (λ k. (record { same = moved-IsInSync server p.0 p.1 }, ahead))
          (λ k. (
            record {
              same =
                  last_ledger-of_metadata _ s.db
                    (verify_pending_events-metadata server p.1 ∙ extends.same_metadata)
                  ∙ i.same;
            },
            omega arith,
          )))

poll_all_steps :
    (servers : List RpcServer) (contracts : List String) (s : Indexer)
    → IsInSync s
    → IsInSync (poll_all servers contracts s)
      × (s.last_ledger ≤ (poll_all servers contracts s).last_ledger)
unfolding poll_all
poll_all_steps [] contracts s i = (i, omega arith)
poll_all_steps (server ∷ servers) contracts s i =
    let (j, l) = poll_step server contracts s i in
    let (k, m) = poll_all_steps servers contracts (poll server contracts s) j in
    (k, omega (arith, l, m))

start_indexer-IsInSync :
    (now : ℕ) (file : Option JsonFile) (server : RpcServer) (contracts : List String) (s : Indexer)
    → s.is_polling ≡ false
    → IsInSync (start_indexer now file server contracts s)
unfolding start_indexer
start_indexer-IsInSync now file server contracts s off =
    if_elim {A = Indexer} s.is_polling IsInSync _ _ (λ h. absurd (ground arith))
      (λ h. record { same = last_ledger-set_metadata _ _ })

-- From the start of an indexer that was not polling, through any sequence of polls, whatever the servers
-- answer, the ledger in memory is the one stored for a restart, and it never moves back.
pub poll_all-IsInSync :
    (now : ℕ) (file : Option JsonFile) (first : RpcServer) (servers : List RpcServer)
    (contracts : List String) (s : Indexer)
    → s.is_polling ≡ false
    → IsInSync (poll_all servers contracts (start_indexer now file first contracts s))
      × ((start_indexer now file first contracts s).last_ledger
          ≤ (poll_all servers contracts (start_indexer now file first contracts s)).last_ledger)
poll_all-IsInSync now file first servers contracts s off =
    poll_all_steps servers contracts (start_indexer now file first contracts s)
      (start_indexer-IsInSync now file first contracts s off)
