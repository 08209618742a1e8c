-- ===== src/Relay/Vote.antt =====
-- backend/src/routes/voting.ts: the route POST /vote, with `validateBody` before it.
use zkvote.Prelude.{
  ℕ, String, Bool, ◌&&◌, ◌||◌, Option, none, some, List, [], ◌∷◌, Result, ok, err, ◌>>=◌,
  if◌then◌else◌,
}
use zkvote.Hex.{Text}
use zkvote.Stellar.{Groth16Proof, ScVal, u256_to_sc_val, proof_to_sc_val}
use zkvote.Validation.{bn254_field, groth16_proof}
use zkvote.Indexer.{TxStatus, success, failed, not_found}
use zkvote.Relay.{
  includes, Arg, u64_arg, flag, sc_val, Operation, Rpc, Config, Labels, Ending, threw,
  simulation_failed, send_failed, settled, Submission, submit,
}

-- The body as the schema's types let it through.
pub record VoteRequest : Type 0 where
  pub dao_id : ℕ
  pub proposal_id : ℕ
  pub choice : Bool
  pub nullifier : Text
  pub root : Text
  pub proof : Groth16Proof

unfoldable pub vote_schema : VoteRequest → Bool
vote_schema r = bn254_field r.nullifier && (bn254_field r.root && groth16_proof r.proof)

pub data Body : Type 0 where
  error : String → Body
  error_details : String → String → Body
  vote_success : String → Body
  vote_failed : String → TxStatus → Body

pub record Response : Type 0 where
  pub status : ℕ
  pub body : Body

pub record Outcome : Type 0 where
  pub sent : List Operation
  pub response : Response

abbrev pub refuse : ℕ → String → Outcome
refuse status message = record {
  sent = [];
  response = record { status = status; body = error message };
}

-- The arguments of the call, whose ids may be out of range.
unfoldable pub call_args : VoteRequest → ScVal → ScVal → ScVal → Result (List Arg)
call_args r nullifier root proof = do
  dao_id ← u64_arg r.dao_id
  proposal_id ← u64_arg r.proposal_id
  ok (dao_id ∷ proposal_id ∷ flag r.choice ∷ sc_val nullifier ∷ sc_val root ∷ sc_val proof ∷ [])

-- The error outside is that of the inner `try`, the one inside is thrown after it.
unfoldable pub vote_args : VoteRequest → Result (Result (List Arg))
unfolding call_args
vote_args r = do
  nullifier ← u256_to_sc_val r.nullifier
  root ← u256_to_sc_val r.root
  proof ← proof_to_sc_val r.proof
  ok (call_args r nullifier root proof)

unfoldable pub simulation_message : Option String → String
simulation_message none = "Transaction simulation failed"
simulation_message (some e) =
    if includes e "already voted"
    then "You have already voted on this proposal"
    else if includes e "voting period closed"
    then "Voting period has ended"
    else if includes e "invalid proof"
    then "Invalid vote proof"
    else if includes e "root must match"
    then "You are not eligible to vote on this proposal"
    else if includes e "proposal not found"
    then "Proposal not found"
    else if includes e "UnreachableCodeReached"
    then "Invalid proof or contract error (proof verification failed)"
    else "Transaction simulation failed"

-- The status and the message for a thrown error.
unfoldable pub vote_exception : String → ℕ × String
vote_exception e =
    if includes e "Timeout:"
    then (504, "Request timeout - please try again")
    else if includes e "Transaction not found after timeout"
    then (
      504,
      "Transaction confirmation timeout - vote may have succeeded, please check proposal results",
    )
    else if includes e "getAccount"
    then (503, "Blockchain RPC temporarily unavailable - please retry")
    else if includes e "ECONNREFUSED" || includes e "ETIMEDOUT"
    then (503, "Network error - please retry")
    else if includes e "sequence"
    then (503, "Transaction sequence error - please retry")
    else (500, "Internal server error")

abbrev pub exception_response : Bool → ℕ × String → String → Response
exception_response generic (status, message) e = record {
  status = status;
  body = if generic then error message else error_details message e;
}

unfoldable pub vote_response : Config → Ending (Unit {0}) → Response
vote_response config (threw e) = exception_response config.generic_errors (vote_exception e) e
vote_response config (simulation_failed e) = record {
  status = 400;
  body = error (simulation_message e);
}
vote_response config send_failed = record {
  status = 500;
  body = error "Transaction submission failed";
}
vote_response config (settled x hash (success ledger)) = record {
  status = 200;
  body = vote_success hash;
}
vote_response config (settled x hash failed) = record {
  status = 500;
  body = vote_failed hash failed;
}
vote_response config (settled x hash not_found) = record {
  status = 500;
  body = vote_failed hash not_found;
}

abbrev pub vote_labels : Labels
vote_labels = record { simulate = "simulate_vote"; send = "send_vote"; wait = "wait_for_vote" }

abbrev pub vote_operation : List Arg → Operation
vote_operation args = record { method = "vote"; args = args }

unfoldable pub submitted : Config → Submission (Unit {0}) → Outcome
submitted config s = record { sent = s.sent; response = vote_response config s.ending }

module _ (show : ℕ → String) {V : Type 0} where
  unfoldable pub vote_called : Config → Rpc V → Result (List Arg) → Outcome
  unfolding submitted
  vote_called config rpc (err e) = record {
    sent = [];
    response = exception_response config.generic_errors (vote_exception e) e;
  }
  vote_called config rpc (ok args) =
      submitted config (submit show config rpc vote_labels (vote_operation args) (λ v. ok tt))

  unfoldable pub vote_encoded : Config → Rpc V → Result (Result (List Arg)) → Outcome
  unfolding vote_called
  vote_encoded config rpc (err e) = refuse 400 e
  vote_encoded config rpc (ok args) =
      if config.test_mode
      then refuse 400 "Simulation failed (test mode)"
      else vote_called config rpc args

  -- The handler.
  unfoldable pub vote : Config → Rpc V → VoteRequest → Outcome
  unfolding vote_encoded
  vote config rpc r = vote_encoded config rpc (vote_args r)

  -- `validateBody(voteSchema)`; `none` is a body without the schema's types.
  unfoldable pub vote_validated : Config → Rpc V → Option VoteRequest → Outcome
  vote_validated config rpc none =
      if config.strip_request_bodies
      then refuse 400 "Request body stripping enabled"
      else refuse 400 "Validation failed"
  vote_validated config rpc (some r) =
      if config.strip_request_bodies
      then refuse 400 "Request body stripping enabled"
      else if vote_schema r
      then vote config rpc r
      else refuse 400 "Validation failed"
