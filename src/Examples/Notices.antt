-- ===== src/Examples/Notices.antt =====
-- The routes of the indexer at concrete inputs.
use zkvote.Prelude.{
  ◌≤◌, ◌≡◌, refl, sort_by, take, Option, List, ok, err, String, codes, true, none, some, [], ◌∷◌,
  arith, length, IsSorted,
}
use mathlib.Core.List.{Perm, reverse, reverse_perm}
use zkvote.Slug.{trim_start}
use zkvote.Hex.{is_hex, hex_value, all_hex}
use zkvote.Validation.{tx_hash}
use zkvote.Indexer.{notify_event}
use zkvote.ParseInt.{negsuc, parse_int}
use zkvote.Db.{JsNumber, num, json, EventRow}
use zkvote.Db.Events.{
  keep, selects, newest_first, get_events_for_dao, add_pending_event, add_event, payload_text,
  same_key, row_of,
}
use zkvote.Decimal.{decimal}
use zkvote.Client.{member_added}
use zkvote.Indexer.Routes.{
  EventsResult, Notification, number, query_options, get_events, notify, split_commas,
}
use zkvote.Indexer.Pages.{page, below_zero, wanted, read_pages, read_pages_whole, get_events_bounds}
use zkvote.Indexer.Notices.{
  Outcome, notify-Outcome, client_notification, client_notification_not_synced,
}
use zkvote.Examples.Tables.{two_rows, stored_row, joined_row}

parse_int_hex : parse_int (codes " -0x1Fz") ≡ some (negsuc 30)
unfolding parse_int trim_start is_hex hex_value
parse_int_hex = refl

split_example : split_commas "a,bc,," ≡ "a" ∷ "bc" ∷ "" ∷ "" ∷ []
split_example = refl

abbrev types : Option String
types = some "vote_cast,member_joined"

abbrev reversed : List EventRow → List EventRow
reversed rows = reverse rows

abbrev first_page : EventsResult
first_page = record {
  events = take 1 (sort_by newest_first (joined_row ∷ stored_row ∷ []));
  total = 2;
}

first_answer : get_events reversed (decimal 1) (page types 1 0) two_rows ≡ ok first_page
unfolding decimal get_events parse_int trim_start get_events_for_dao
first_answer = refl

-- Every request scans the rows backwards.
read_pages_whole_example :
    (rows : List EventRow) × (read_pages (λ i. reversed) 1 types 1 2 0 two_rows ≡ ok rows)
    × Perm rows (keep (wanted 1 types) two_rows.events)
    × IsSorted newest_first rows
unfolding selects newest_first decimal query_options
read_pages_whole_example =
    read_pages_whole (λ i. reversed) 1 types two_rows
      (λ i. reverse_perm (keep (wanted 1 types) two_rows.events)) refl 0 2 first_page (omega arith)
      first_answer (omega arith) (omega arith)

get_events_bounds_example :
    ((few : EventsResult) × (get_events reversed (decimal 1) (page none 500 0) two_rows ≡ ok few)
      × (length few.events ≤ 100))
    × ((all : EventsResult) × (get_events reversed (decimal 1) (below_zero none 501) two_rows
          ≡ ok all)
        × (length all.events ≡ all.total))
    × (get_events reversed (decimal 1) (below_zero none 9223372036854775808) two_rows
        ≡ err "datatype mismatch")
unfolding selects query_options
get_events_bounds_example =
    get_events_bounds reversed 1 500 500 9223372036854775807 none two_rows refl (omega arith)
      (omega arith)

abbrev transaction : String
transaction = "00112233445566778899aabbccddeeff00112233445566778899AABBCCDDEEFF"

abbrev joined : Notification
joined = record {
  dao_id = number 1;
  type = some "self_join";
  payload = json "{}";
  tx_hash = some transaction;
}

abbrev number_of : String → JsNumber
number_of s = num 0

joined_synced : (notify number_of 5 true joined two_rows).synced ≡ num 1 ∷ []
unfolding notify tx_hash all_hex notify_event add_pending_event add_event payload_text same_key
    row_of
joined_synced = refl

notify-Outcome_example :
    Outcome number_of 5 true joined two_rows (notify number_of 5 true joined two_rows)
notify-Outcome_example = notify-Outcome number_of 5 true joined two_rows

client_notification_not_synced_example :
    (notify number_of 5 true
      (client_notification 1 member_added (json "{}") transaction)
      two_rows).synced
    ≡ []
client_notification_not_synced_example =
    client_notification_not_synced number_of 5 true 1 member_added (json "{}") transaction two_rows
