-- ===== src/Examples/Tables.antt =====
-- Examples for the tables.
use zkvote.Prelude.{ℕ, ◌≡◌, refl, inl, inr, true, none, some, List, [], ◌∷◌}
use zkvote.Db.{json, with_bigint, num, EventRow, EventInput, Db, empty, number}
use zkvote.Db.Events.{add_pending_event, verify_event}
use zkvote.Prelude.{ok, err}
use zkvote.Db.Pending.{verify_event-add_pending_event}
use zkvote.Db.Durable.{Has, IsVerifiedAs, run_keeps_verified, run_keeps_untouched}
use zkvote.Db.Statements.{
  Statement, add, add_pending, verify, delete_unverified, set_meta, migrate, run,
}

abbrev vote_event : EventInput
vote_event = record {
  dao_id = num 1;
  type = "vote_cast";
  payload = json "{}";
  ledger = some 7;
  tx_hash = some "aa";
  timestamp = some 5;
  verified = true;
}

abbrev statements : List (ℕ × Statement)
statements =
    (10, add vote_event)
    ∷ (11, add vote_event)
    ∷ (12, add_pending (num 1) "member_joined" (json "{}") "bb")
    ∷ (13, verify "bb" 8)
    ∷ (14, add (record vote_event { payload = with_bigint }))
    ∷ (15, delete_unverified "cc")
    ∷ (16, set_meta "lastLedger" (number 8))
    ∷ (17, migrate none)
    ∷ []

abbrev pub stored_row : EventRow
stored_row = record {
  id = 1;
  dao_id = 1;
  type = "vote_cast";
  payload = "{}";
  ledger = some 7;
  tx_hash = some "aa";
  timestamp = 5;
  verified = true;
  created_at = 10;
}

abbrev pub joined_row : EventRow
joined_row = record stored_row {
  id = 2;
  type = "member_joined";
  tx_hash = some "bb";
  timestamp = 6;
}

abbrev pub two_rows : Db
two_rows = record empty { events = stored_row ∷ joined_row ∷ []; next_id = 3 }

run_keeps_verified_example : Has (IsVerifiedAs joined_row) (run statements two_rows).events
run_keeps_verified_example = run_keeps_verified statements joined_row two_rows (inr (inl refl))

run_keeps_untouched_example : Has (λ s. s ≡ stored_row) (run statements two_rows).events
run_keeps_untouched_example = run_keeps_untouched statements stored_row two_rows refl (inl refl)

notified_twice_example :
    ((add_pending_event 1 (num 4) "member_joined" (json "{}") "ff" two_rows).0 ≡ ok true)
    × ((add_pending_event 2
          (num 4)
          "member_joined"
          (json "{}")
          "ff"
          (add_pending_event 1 (num 4) "member_joined" (json "{}") "ff" two_rows).1).0
        ≡ ok true)
    × (verify_event "ff" 9
          (add_pending_event 2
            (num 4)
            "member_joined"
            (json "{}")
            "ff"
            (add_pending_event 1 (num 4) "member_joined" (json "{}") "ff" two_rows).1).1
        ≡ (
          err "SQLITE_CONSTRAINT_UNIQUE",
          (add_pending_event 2
              (num 4)
              "member_joined"
              (json "{}")
              "ff"
              (add_pending_event 1 (num 4) "member_joined" (json "{}") "ff" two_rows).1).1,
        ))
notified_twice_example =
    verify_event-add_pending_event 1 2 4 9 "member_joined" "{}" "{}" "ff" two_rows
