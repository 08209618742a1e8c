-- ===== src/Examples/Indexing.antt =====
-- Examples for the indexer.
use zkvote.Prelude.{◌≤◌, ◌≡◌, refl, false, none, some, List, [], ◌∷◌, arith, All}
use zkvote.Db.{json, with_bigint, num, EventRow}
use zkvote.Indexer.{ChainEvent, success, RpcServer, index_events, poll_contracts, poll_events}
use zkvote.Indexer.Service.{Indexer, start_indexer}
use zkvote.Indexer.Polling.{IsUnwritable, poll_events_loses}
use zkvote.Indexer.Repeat.{HasHash, index_events_idempotent}
use zkvote.Indexer.Ticks.{IsInSync, poll_all, poll_all-IsInSync}
use zkvote.Examples.Tables.{two_rows, joined_row}

abbrev mint : ChainEvent
mint = record {
  name = some (some "SbtMintEvent");
  dao = some (some (num 1));
  value = some (some (json "{}"));
  ledger = some 12;
  tx_hash = some "cc";
  read_at = 100;
}

abbrev vote : ChainEvent
vote = record mint {
  name = some (some "VoteEvent");
  value = some (some with_bigint);
  tx_hash = some "dd";
}

abbrev both : List ChainEvent
both = mint ∷ vote ∷ mint ∷ []

both_hashed : All HasHash both
both_hashed = (
  record { tx = "cc"; hash = refl },
  (record { tx = "dd"; hash = refl }, (record { tx = "cc"; hash = refl }, tt)),
)

idempotent_example : index_events both (index_events both two_rows) ≡ index_events both two_rows
idempotent_example = index_events_idempotent both two_rows both_hashed

abbrev server : RpcServer
server = record {
  get_latest_ledger = some 20;
  get_events = λ contract start end limit. some both;
  get_transaction = λ tx. some (success 15);
}

unwritable : IsUnwritable vote
unwritable = record {
  event_name = "VoteEvent";
  dao_id = num 1;
  named = refl;
  of_dao = refl;
  holds_bigint = refl;
}

loses_example : poll_events server ("C0" ∷ "C1" ∷ "C2" ∷ []) 9 two_rows ≡ (
  20,
  poll_contracts server
      ("C2" ∷ [])
      9
      20
      (index_events (mint ∷ []) (poll_contracts server ("C0" ∷ []) 9 20 two_rows)),
)
loses_example =
    poll_events_loses server ("C0" ∷ []) ("C2" ∷ []) "C1" 9 20 two_rows (mint ∷ []) (mint ∷ []) vote
      refl (omega arith) refl unwritable

abbrev stopped : Indexer
stopped = record { is_polling = false; last_ledger = 0; db = two_rows }

ledger_example :
    IsInSync (
      poll_all (server ∷ server ∷ []) ("C1" ∷ []) (start_indexer 5 none server ("C1" ∷ []) stopped))
    × ((start_indexer 5 none server ("C1" ∷ []) stopped).last_ledger
        ≤ (poll_all
            (server ∷ server ∷ [])
            ("C1" ∷ [])
            (start_indexer 5 none server ("C1" ∷ []) stopped)).last_ledger)
ledger_example = poll_all-IsInSync 5 none server (server ∷ server ∷ []) ("C1" ∷ []) stopped refl

abbrev pending_row : EventRow
pending_row = record joined_row { id = 3; tx_hash = some "ee"; ledger = none; verified = false }
