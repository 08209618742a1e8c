-- ===== src/Relay/Comments.antt =====
-- backend/src/routes/comments.ts: the routes that submit an anonymous comment and that read a comment nonce. The
-- SDK's reading of a returned value as a number is a parameter, which may throw.
pub mod Changes
use zkvote.Prelude.{
  ℕ, String, Bool, ◌&&◌, ◌||◌, Option, none, some, List, [], ◌∷◌, Result, ok, err, ◌>>=◌,
  if◌then◌else◌,
}
use zkvote.Hex.{Text}
use zkvote.Stellar.{Groth16Proof, is_empty, u256_to_sc_val, proof_to_sc_val}
use zkvote.Validation.{bn254_field, groth16_proof, ipfs_cid}
use zkvote.Indexer.{success, failed, not_found}
use zkvote.Relay.{
  includes, Arg, u64_arg, parent_arg, flag, content, sc_val, address, Operation, Rpc, Config,
  Labels, Ending, threw, simulation_failed, send_failed, settled, Submission, submit, SimResult,
  simulated, not_simulated, result_of, call_with_timeout, simulate_with_backoff,
}

pub record CommentRequest : Type 0 where
  pub dao_id : ℕ
  pub proposal_id : ℕ
  pub content_cid : Text
  -- `none` for null and for a member that is not there
  pub parent_id : Option ℕ
  pub vote_choice : Bool
  pub nullifier : Text
  pub root : Text
  pub commitment : Text
  pub proof : Groth16Proof

unfoldable pub anonymous_comment_schema : CommentRequest → Bool
anonymous_comment_schema r =
    ipfs_cid r.content_cid
    && (bn254_field r.nullifier
        && (bn254_field r.root && (bn254_field r.commitment && groth16_proof r.proof)))

pub data Body : Type 0 where
  error : String → Body
  error_details : String → String → Body
  tx_failed : String → Body
  added : Option ℕ → String → Body
  changed : String → Body

pub record Response : Type 0 where
  pub status : ℕ
  pub body : Body

pub record Outcome : Type 0 where
  pub sent : List Operation
  pub response : Response

abbrev pub refuse : ℕ → String → Outcome
refuse status message = record {
  sent = [];
  response = record { status = status; body = error message };
}

unfoldable pub comment_args : CommentRequest → Result (List Arg)
comment_args r = do
  nullifier ← u256_to_sc_val r.nullifier
  root ← u256_to_sc_val r.root
  commitment ← u256_to_sc_val r.commitment
  proof ← proof_to_sc_val r.proof
  dao_id ← u64_arg r.dao_id
  proposal_id ← u64_arg r.proposal_id
  parent_id ← parent_arg r.parent_id
  ok (
      dao_id
      ∷ proposal_id
      ∷ content r.content_cid
      ∷ parent_id
      ∷ sc_val nullifier
      ∷ sc_val root
      ∷ sc_val commitment
      ∷ flag r.vote_choice
      ∷ sc_val proof
      ∷ [])

unfoldable pub comment_exception : String → ℕ × String
comment_exception e =
    if includes e "Timeout:"
    then (504, "Request timeout - please try again")
    else if includes e "Transaction not found after timeout"
    then (504, "Transaction confirmation timeout")
    else if includes e "getAccount" || includes e "ECONNREFUSED"
    then (503, "Blockchain RPC temporarily unavailable - please retry")
    else (500, "Internal server error")

abbrev pub exception_response : Bool → ℕ × String → String → Response
exception_response generic (status, message) e = record {
  status = status;
  body = if generic then error message else error_details message e;
}

-- `details` of a failed simulation; a missing one is not in the answer.
abbrev pub with_details : String → Option String → Body
with_details message none = error message
with_details message (some e) = error_details message e

unfoldable pub comment_response : Config → Ending (Option ℕ) → Response
comment_response config (threw e) = exception_response config.generic_errors (comment_exception e) e
comment_response config (simulation_failed e) = record {
  status = 400;
  body =
      with_details
        "Failed to add anonymous comment (proof verification failed or invalid membership)" e;
}
comment_response config send_failed = record {
  status = 500;
  body = error "Transaction submission failed";
}
comment_response config (settled comment_id hash (success ledger)) = record {
  status = 200;
  body = added comment_id hash;
}
comment_response config (settled comment_id hash failed) = record {
  status = 500;
  body = tx_failed hash;
}
comment_response config (settled comment_id hash not_found) = record {
  status = 500;
  body = tx_failed hash;
}

abbrev pub comment_labels : Labels
comment_labels = record {
  simulate = "simulate_add_anonymous_comment";
  send = "send_add_anonymous_comment";
  wait = "wait_for_anonymous_comment";
}

abbrev pub comment_operation : List Arg → Operation
comment_operation args = record { method = "add_anonymous_comment"; args = args }

-- `Number(scValToNative(retval))`, if there is a value.
abbrev pub read_id : {V : Type 0} → (V → Result ℕ) → Option V → Result (Option ℕ)
read_id to_number none = ok none
read_id to_number (some v) = to_number v >>= λ n. ok (some n)

unfoldable pub commented : Config → Submission (Option ℕ) → Outcome
commented config s = record { sent = s.sent; response = comment_response config s.ending }

module _ (show : ℕ → String) {V : Type 0} (to_number : V → Result ℕ) where
  -- An error of the conversion is thrown in the outer `try`, unlike in the route for a vote.
  unfoldable pub comment_encoded : Config → Rpc V → Result (List Arg) → Outcome
  comment_encoded config rpc (err e) = record {
    sent = [];
    response = exception_response config.generic_errors (comment_exception e) e;
  }
  comment_encoded config rpc (ok args) =
      commented config
        (submit show config rpc comment_labels (comment_operation args) (read_id to_number))

  -- The handler of POST /comment/anonymous.
  unfoldable pub add_anonymous_comment : Config → Rpc V → CommentRequest → Outcome
  unfolding comment_encoded
  add_anonymous_comment config rpc r = comment_encoded config rpc (comment_args r)

  -- `validateBody(anonymousCommentSchema)` before it.
  unfoldable pub comment_validated : Config → Rpc V → CommentRequest → Outcome
  unfolding anonymous_comment_schema add_anonymous_comment
  comment_validated config rpc r =
      if config.strip_request_bodies
      then refuse 400 "Request body stripping enabled"
      else if anonymous_comment_schema r
      then add_anonymous_comment config rpc r
      else refuse 400 "Validation failed"

  -- The simulation of the nonce, after the conversion and the account.
  unfoldable pub nonce_of : Result (SimResult V) → ℕ
  nonce_of (err e) = 0
  nonce_of (ok (not_simulated e)) = 0
  nonce_of (ok (simulated none)) = 0
  nonce_of (ok (simulated (some v))) = elim (to_number v) [ ok n ↦ n | err e ↦ 0 ]

  -- The handler of GET /comments/:daoId/:proposalId/nonce: `none` is the answer 400.
  unfoldable pub get_comment_nonce : Config → Rpc V → Text → Option ℕ
  get_comment_nonce config rpc commitment =
      if is_empty commitment
      then none
      else some (elim (u256_to_sc_val commitment) [
        | err e ↦ 0
        | ok sc_commitment ↦ elim (result_of rpc.get_account) [
          | err e ↦ 0
          | ok account ↦ nonce_of (
              result_of (
                call_with_timeout show config.rpc_timeout_ms (simulate_with_backoff rpc.simulate 3)
                  "simulate_get_comment_nonce"))
        ]
      ])
