-- ===== src/Examples/Registering.antt =====
-- Registering for voting at concrete inputs.
use zkvote.Prelude.{
  ℕ, ◌≡◌, refl, List, ◌∷◌, true, false, Option, none, some, [], arith, if_true, same_text,
  same_text_refl,
}
use zkvote.Hex.{Text}
use zkvote.Client.{initial_state}
use zkvote.Browser.{
  Registration, Item, credentials_of, registration, Storage, credential_key, get_zk_credentials,
  get_credentials, get_item, set_item, store_zk_credentials,
}
use zkvote.Ballot.Replies.{handle_vote_repeats}
use zkvote.Zkproof.{secret_from}
use zkvote.Registering.{Try, value, Chain, signed_credentials, extract_tx_hash}
use zkvote.Registering.Dashboard.{Dashboard, register_on_dashboard, check_registration_status}
use zkvote.Registering.Votes.{
  IsBound, IsMembersBallot, register_on_dashboard-votes, check_registration_status-register,
}
use zkvote.Examples.Voting.{network, account, credentials, world, props, posted_body, prepared_body}

-- A message that is empty is hashed to 5, any other to 6.
abbrev sha256 : Text → List ℕ
sha256 [] = 5 ∷ []
sha256 (c ∷ s) = 6 ∷ []

abbrev sign_message : ℕ → Try Text
sign_message d = value []

abbrev chain : Chain
chain = record {
  kit = some (signed_credentials sha256 world.poseidon sign_message);
  register = λ d c key. value tt;
  sign_and_send = λ d c key.
      value (
        some (record { hash = none; send_response_hash = some "ab"; get_response_tx_hash = none }));
  get_leaf_index = λ d c. value 3;
}

abbrev idle : Dashboard
idle = record {
  registering = false;
  is_registered = false;
  has_unregistered_credentials = false;
  status = none;
  error = none;
}

abbrev left : Storage
left = (register_on_dashboard chain network 1000 1500 1 (some account) idle []).storage

registered :
    (register_on_dashboard chain network 1000 1500 1 (some account) idle []).state.is_registered
    ≡ true
unfolding register_on_dashboard get_zk_credentials get_item signed_credentials
registered = refl

notified :
    (register_on_dashboard chain network 1000 1500 1 (some account) idle []).notified
    ≡ some ("ab", credentials.commitment, 3)
unfolding register_on_dashboard get_zk_credentials get_item extract_tx_hash signed_credentials
    credentials_of secret_from
notified = refl

abbrev kept : Registration
kept = record { credentials = credentials; leaf_index = 3; registered_at = 1500 }

left_credentials : get_zk_credentials network 2000 1 account left ≡ (some kept, left)
unfolding register_on_dashboard get_zk_credentials get_credentials get_item set_item
    store_zk_credentials signed_credentials credentials_of secret_from
left_credentials =
    rw
      (if_true {A = Option Item}
        (same_text (credential_key network 1 account) (credential_key network 1 account))
        (some (registration kept)) none (same_text_refl (credential_key network 1 account)))
      refl

nothing_stored :
    (r : Registration)
    → (get_zk_credentials network 1000 1 account []).0 ≡ some r
    → IsBound world.poseidon r.credentials
unfolding get_zk_credentials get_item
nothing_stored r h = absurd (ground (arith, h))

register_on_dashboard-votes_example :
    IsMembersBallot chain world props network 1500 2000 left true posted_body
register_on_dashboard-votes_example =
    register_on_dashboard-votes chain world props network 1500 2000 3000 true initial_state
      posted_body 2 sha256 sign_message refl 1000 idle [] nothing_stored refl registered
      (omega arith)
      (handle_vote_repeats world props network 2000 3000 true left left initial_state kept
        posted_body "signal timed out" "You have already voted on this proposal" left_credentials
        prepared_body refl refl refl refl).posts

check_registration_status-register_example :
    (check_registration_status chain network 2000 1 (some account) idle left).0
    ≡ record idle { is_registered = true; has_unregistered_credentials = false }
check_registration_status-register_example =
    check_registration_status-register chain chain network 1000 1500 2000 1 account idle idle []
      (λ c n h. h) refl registered refl (omega arith)
