-- ===== src/Examples/Routes.antt =====
-- Examples for the routes and their guards.
use zkvote.Prelude.{
  same_text, ℕ, ◌+◌, ◌≤◌, ◌<◌, ◌≡◌, ◌⊎◌, ◌↔◌, refl, String, Bool, true, false, none, some, List, [],
  ◌∷◌, Result, ok, err, arith, ltb, if◌then◌else◌,
}
use zkvote.Hex.{Text, strip_0x, all_hex, hex_value, pad_start}
use zkvote.Stellar.{u256_to_sc_val, proof_to_sc_val, hex_to_bytes, bytes_of_hex, is_all_zeros}
use zkvote.Indexer.{TxStatus, success, not_found}
use zkvote.Relay.{
  Async, settles, result_of, Rpc, Config, simulated, accepted, simulate_with_backoff,
  wait_for_transaction, poll_transaction, call_with_timeout, timeout_message, submit, after_account,
  after_simulation, after_read, after_send, after_wait, u64_arg, parent_arg,
}
use zkvote.Relay.Waiting.{wait_for_transaction_times_out, Throws}
use zkvote.Relay.Vote.{VoteRequest, vote, vote_args, vote_success, vote_labels, vote_response}
use zkvote.Relay.VoteLaws.{Landed, Voted, vote_success_sound}
use zkvote.Relay.Comments.{
  CommentRequest, add_anonymous_comment, added, changed, comment_args, commented, comment_response,
}
use zkvote.Relay.Comments.Changes.{
  EditRequest, edit_args, edit_comment, edit_with, changed_by, change_response,
}
use zkvote.Relay.Guards.{next, answer, Headers, auth_guard}
use zkvote.Relay.GuardLaws.{IsTimingSafe, IsAuthorised, auth_guard_passes}
use zkvote.Examples.Encoding.{forty_two_text, small_proof}

abbrev pub show : ℕ → String
show n = "n"

-- The transaction is found at the third look.
abbrev pub third : ℕ → Async TxStatus
third i = if ltb i 2 then settles (ok not_found) 10 else settles (ok (success 77)) 10

abbrev never : ℕ → Async TxStatus
never i = settles (ok not_found) 10

never_found : (j : ℕ) → j < 30 → result_of (never j) ≡ ok not_found
never_found j l = refl

times_out_example :
    call_with_timeout show 30000 (wait_for_transaction never) "wait_for_vote"
    ≡ settles (err (timeout_message show 30000 "wait_for_vote")) 30000
times_out_example =
    wait_for_transaction_times_out show 30000 "wait_for_vote" never (omega arith) never_found

-- Only the third attempt succeeds.
abbrev flaky : ℕ → Async ℕ
flaky i = if ltb i 3 then settles (err "ECONNREFUSED") 5 else settles (ok 1) 5

flaky-Throws : (j : ℕ) → 1 ≤ j → j < 3 → Throws (flaky j)
flaky-Throws j l l' = ("ECONNREFUSED", ground arith)

flaky_fails : (j : ℕ) → 1 ≤ j → j ≤ 1 + 1 → Throws (flaky j)
flaky_fails j l l' = ("ECONNREFUSED", ground arith)

abbrev pub config : Config
config = record {
  rpc_timeout_ms = 30000;
  relayer_auth_token = some (1 ∷ 2 ∷ []);
  cors_origins = none;
  strip_request_bodies = false;
  generic_errors = true;
  test_mode = false;
}

abbrev pub rpc : Rpc ℕ
rpc = record {
  get_account = settles (ok tt) 3;
  simulate = λ i. settles (ok (simulated (some 6))) 4;
  send = settles (ok (accepted "aa")) 5;
  get_transaction = third;
}

abbrev request : VoteRequest
request = record {
  dao_id = 1;
  proposal_id = 2;
  choice = true;
  nullifier = forty_two_text;
  root = forty_two_text;
  proof = small_proof;
}

voted : (vote show config rpc request).response.body ≡ vote_success "aa"
unfolding vote vote_args u64_arg submit after_account after_simulation after_read after_send
    after_wait call_with_timeout simulate_with_backoff wait_for_transaction poll_transaction
    vote_response u256_to_sc_val proof_to_sc_val hex_to_bytes bytes_of_hex is_all_zeros strip_0x
    all_hex hex_value pad_start
voted = refl

vote_success_example : Voted show config rpc request (vote show config rpc request).sent "aa"
vote_success_example = vote_success_sound show config rpc request "aa" voted

pub request_lands : Landed show config rpc vote_labels "aa" (success 77)
unfolding call_with_timeout simulate_with_backoff wait_for_transaction poll_transaction
request_lands = record {
  value = some 6;
  account = refl;
  simulation = refl;
  sending = refl;
  awaited = refl;
}

abbrev comment : CommentRequest
comment = record {
  dao_id = 1;
  proposal_id = 2;
  content_cid = b'Q' ∷ b'm' ∷ [];
  parent_id = none;
  vote_choice = true;
  nullifier = forty_two_text;
  root = forty_two_text;
  commitment = forty_two_text;
  proof = small_proof;
}

abbrev pub to_number : ℕ → Result ℕ
to_number n = ok n

comment_added :
    (add_anonymous_comment show to_number config rpc comment).response.body ≡ added (some 6) "aa"
unfolding add_anonymous_comment commented comment_args u64_arg parent_arg submit after_account
    after_simulation after_read after_send after_wait call_with_timeout simulate_with_backoff
    wait_for_transaction poll_transaction comment_response u256_to_sc_val proof_to_sc_val
    hex_to_bytes bytes_of_hex is_all_zeros strip_0x all_hex hex_value pad_start
comment_added = refl

abbrev edit : EditRequest
edit = record {
  dao_id = some 1;
  proposal_id = some 2;
  comment_id = some 6;
  new_content_cid = b'Q' ∷ [];
  author = b'G' ∷ [];
}

abbrev address_from_string : Text → Result Text
address_from_string s = ok s

edited : (edit_comment show address_from_string config rpc edit).response.body ≡ changed "aa"
unfolding edit_comment edit_with edit_args u64_arg changed_by submit after_account after_simulation
    after_read after_send after_wait call_with_timeout simulate_with_backoff wait_for_transaction
    poll_transaction change_response
edited = refl

abbrev timing_safe_equal : List ℕ → List ℕ → Result Bool
timing_safe_equal x y = ok (same_text x y)

timing_safe : IsTimingSafe timing_safe_equal
timing_safe = record { compares = λ x y h. refl }

abbrev headers : Headers
headers = record {
  x_relayer_auth = some (1 ∷ 2 ∷ []);
  authorization = none;
  origin = none;
  referer = none;
}

abbrev bytes : Text → List ℕ
bytes s = s

auth_guard_example :
    ((auth_guard bytes timing_safe_equal config headers ≡ next)
      ⊎ (auth_guard bytes timing_safe_equal config headers ≡ answer 401 "Unauthorized"))
    × ((auth_guard bytes timing_safe_equal config headers ≡ next)
        ↔ IsAuthorised bytes config headers)
auth_guard_example = auth_guard_passes bytes timing_safe_equal timing_safe config headers
