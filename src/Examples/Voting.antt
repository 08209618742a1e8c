-- ===== src/Examples/Voting.antt =====
-- The voting dialog, the browser's storage and the requests to the relayer at concrete inputs.
use zkvote.Prelude.{
  ℕ, zero, suc, ◌+◌, ◌≡◌, ◌&&◌, refl, true, false, Option, none, some, List, [], ◌∷◌, ok, err,
  arith, ◌==◌, if◌then◌else◌, same_text, same_text_refl, if_true, codes,
}
use zkvote.Hex.{Text}
use zkvote.Zkproof.{calculate_nullifier}
use zkvote.Relay.Vote.{VoteRequest}
use zkvote.Relay.{simulated}
use zkvote.Relay.Reads.{u64_val, vec, refused, get_proposal}
use zkvote.Client.{
  initial_state, Attempt, failed, responded, relayer_fetch, threw, backing_off, fetch_rounds,
  after_attempt, retry_delay,
}
use zkvote.Client.Backoff.{request, reconnect, use_relayer, IsSound, use_relayer-IsSound}
use zkvote.Client.Retries.{Failed, relayer_fetch_fails}
use zkvote.Browser.{
  ZkCredentials, Registration, Item, registration, anonymous_comments, other, Storage, get_item,
  version_key, is_cache_key, is_expired, credential_key, get_zk_credentials, store_zk_credentials,
  get_credentials, check_and_clear_stale_cache,
}
use zkvote.Browser.Credentials.{get_zk_credentials-store_zk_credentials}
use zkvote.Browser.Caches.{check_and_clear_stale_cache_clears}
use zkvote.Ballot.{
  Reply, World, Props, fixed, trailing, error, prepare, select_root, generate_vote_proof, verified,
  verify_proof_locally, vote_body,
}
use zkvote.Ballot.Casting.{handle_vote}
use zkvote.Ballot.Nullifier.{handle_vote_same_nullifier}
use zkvote.Ballot.Replies.{Ended, voted_already, handle_vote_repeats}
use zkvote.Examples.Encoding.{snark_proof}

abbrev pub network : Text
network = codes "zkvote_testnet_CAVOTE"

abbrev pub account : Text
account = codes "GA"

abbrev pub credentials : ZkCredentials
credentials = record { secret = 5; salt = 6; commitment = 12 }

abbrev pub stored : Registration
stored = record { credentials = credentials; leaf_index = 3; registered_at = 1000 }

abbrev pub storage : Storage
storage = (credential_key network 1 account, registration stored) ∷ []

get_zk_credentials-store_zk_credentials_example :
    (get_zk_credentials network 2000 2 account
      (store_zk_credentials network 1500 1 account credentials 3 storage)).0
    ≡ (if 1 == 2 && same_text account account
        then (if is_expired 2000
              (record { credentials = credentials; leaf_index = 3; registered_at = 1500 })
            then none
            else some (record { credentials = credentials; leaf_index = 3; registered_at = 1500 }))
        else (get_zk_credentials network 2000 2 account storage).0)
get_zk_credentials-store_zk_credentials_example =
    get_zk_credentials-store_zk_credentials network 2000 1500 1 2 account account credentials 3
      storage

abbrev visited : Storage
visited =
    (version_key, other (codes "v1"))
    ∷ (codes "theme", other (codes "dark"))
    ∷ (codes "zkvote_anonymous_comments", anonymous_comments [])
    ∷ []

check_and_clear_stale_cache_clears_example :
    ((check_and_clear_stale_cache (codes "v2") visited).0 ≡ true)
    × ((j : Text)
        → get_item j (check_and_clear_stale_cache (codes "v2") visited).1 ≡ (
            if same_text version_key j
            then some (other (codes "v2"))
            else if is_cache_key j
            then none
            else get_item j visited))
    × (check_and_clear_stale_cache (codes "v2") (check_and_clear_stale_cache (codes "v2") visited).1
        ≡ (false, (check_and_clear_stale_cache (codes "v2") visited).1))
unfolding get_item
check_and_clear_stale_cache_clears_example =
    check_and_clear_stale_cache_clears (codes "v2") visited refl

-- Nothing answers within 15 seconds.
abbrev pub dead : ℕ → Attempt Reply
dead i = record { took = 15000; answer = failed "signal timed out" }

abbrev voted_reply : Reply
voted_reply = record { is_ok = false; json = ok (some "You have already voted on this proposal") }

-- The second attempt is answered.
abbrev pub slow : ℕ → Attempt Reply
slow zero = record { took = 15000; answer = failed "signal timed out" }
slow (suc i) = record { took = 300; answer = responded voted_reply }

use_relayer-IsSound_example : IsSound (
    use_relayer
      (request dead 3 false 1000 ∷ reconnect ∷ request slow 3 true 50000 ∷ [])
      initial_state)
use_relayer-IsSound_example =
    use_relayer-IsSound (request dead 3 false 1000 ∷ reconnect ∷ request slow 3 true 50000 ∷ [])

relayer_fetch_fails_example :
    Failed "signal timed out" 3 3 (relayer_fetch dead 3 false 1000 initial_state)
    × (relayer_fetch slow 3 false 50000 (relayer_fetch dead 3 false 1000 initial_state).state
        ≡ record {
          result = threw backing_off;
          state = (relayer_fetch dead 3 false 1000 initial_state).state;
          now = 50000;
          sent = 0;
        })
unfolding relayer_fetch fetch_rounds after_attempt retry_delay
relayer_fetch_fails_example =
    relayer_fetch_fails dead slow 2 3 false 1000 50000 initial_state (λ j. "signal timed out") refl
      (λ j l. refl) (omega arith)

abbrev pub hash : List ℕ → ℕ
hash [] = 1
hash (x ∷ xs) = x + hash xs

abbrev pub world : World
world = record {
  kit = none;
  get_leaf_index = λ d c. err "unknown";
  current_root = λ d. ok 99;
  get_merkle_path = λ l d. ok (1 ∷ [], 0 ∷ []);
  poseidon = hash;
  full_prove = λ i. ok (snark_proof, i.root ∷ []);
  verify = λ p s. ok true;
  post = λ body. slow;
}

abbrev pub props : Props
props = record {
  proposal_id = 2;
  eligible_root = 77;
  vote_mode = fixed;
  dao_id = 1;
  public_key = account;
}

abbrev later_props : Props
later_props = record {
  proposal_id = 2;
  eligible_root = 77;
  vote_mode = trailing;
  dao_id = 1;
  public_key = account;
}

abbrev pub posted_body : VoteRequest
posted_body = vote_body 1 2 true (calculate_nullifier hash 5 1 2) 77 snark_proof

pub stored_credentials : get_zk_credentials network 2000 1 account storage ≡ (some stored, storage)
unfolding get_zk_credentials get_credentials get_item
stored_credentials =
    rw
      (if_true {A = Option Item}
        (same_text (credential_key network 1 account) (credential_key network 1 account))
        (some (registration stored)) none (same_text_refl (credential_key network 1 account)))
      refl

pub prepared_body : prepare world props true (credentials, 3) ≡ ok posted_body
unfolding prepare select_root generate_vote_proof verified verify_proof_locally
prepared_body = refl

-- The same member in the other mode, with the other choice.
abbrev other_body : VoteRequest
other_body = vote_body 1 2 false (calculate_nullifier hash 5 1 2) 99 snark_proof

prepared_other : prepare world later_props false (credentials, 3) ≡ ok other_body
unfolding prepare select_root generate_vote_proof verified verify_proof_locally
prepared_other = refl

handle_vote_repeats_example :
    Ended error
      (some voted_already)
      posted_body
      2
      (handle_vote world props network 2000 3000 true storage initial_state)
handle_vote_repeats_example =
    handle_vote_repeats world props network 2000 3000 true storage storage initial_state stored
      posted_body "signal timed out" "You have already voted on this proposal" stored_credentials
      prepared_body refl refl refl refl

pub first_vote :
    Ended error
      (some voted_already)
      posted_body
      2
      (handle_vote world props network 2000 3000 true storage initial_state)
first_vote =
    handle_vote_repeats world props network 2000 3000 true storage storage initial_state stored
      posted_body "signal timed out" "You have already voted on this proposal" stored_credentials
      prepared_body refl refl refl refl

second_vote :
    Ended error
      (some voted_already)
      other_body
      2
      (handle_vote world later_props network 2000 4000 false storage initial_state)
second_vote =
    handle_vote_repeats world later_props network 2000 4000 false storage storage initial_state
      stored other_body "signal timed out" "You have already voted on this proposal"
      stored_credentials prepared_other refl refl refl refl

handle_vote_same_nullifier_example : posted_body.nullifier ≡ other_body.nullifier
handle_vote_same_nullifier_example =
    handle_vote_same_nullifier world world props later_props network network 2000 3000 2000 4000
      true false storage storage storage storage initial_state initial_state stored posted_body
      other_body 2 2 refl refl refl stored_credentials stored_credentials first_vote.posts
      second_vote.posts

-- The pair that the contract returns.
pair_refused :
    get_proposal (some 1) (some 2) (record {
      get_account = ok tt;
      simulate_transaction = ok (simulated (some (vec (some (u64_val 3 ∷ u64_val 4 ∷ [])))));
    })
    ≡ refused 500 "Invalid result format"
unfolding get_proposal
pair_refused = refl
