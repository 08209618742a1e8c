-- ===== src/Relay/Comments/Changes.antt =====
-- backend/src/routes/comments.ts: the routes that edit and delete a public comment. The SDK's reading of an address
-- is a parameter, which may throw.
use zkvote.Prelude.{
  ℕ, String, ◌||◌, Option, some, List, [], ◌∷◌, Result, ok, err, ◌>>=◌, if◌then◌else◌,
}
use zkvote.Hex.{Text}
use zkvote.Stellar.{is_empty}
use zkvote.Indexer.{success, failed, not_found}
use zkvote.Relay.{
  Arg, u64_arg, content, address, Operation, Rpc, Config, Labels, Ending, threw, simulation_failed,
  send_failed, settled, Submission, submit,
}
use zkvote.Relay.Comments.{Response, Outcome, refuse, error, changed}

pub record EditRequest : Type 0 where
  pub dao_id : Option ℕ
  pub proposal_id : Option ℕ
  pub comment_id : Option ℕ
  -- an empty text is falsy, as a missing one is
  pub new_content_cid : Text
  pub author : Text

-- What the routes for editing and deleting answer; `failure` is the text for a failed simulation.
unfoldable pub change_response : String → Ending (Unit {0}) → Response
change_response failure (threw e) = record { status = 500; body = error "Internal server error" }
change_response failure (simulation_failed e) = record { status = 400; body = error failure }
change_response failure send_failed = record {
  status = 500;
  body = error "Transaction submission failed";
}
change_response failure (settled x hash (success ledger)) = record {
  status = 200;
  body = changed hash;
}
change_response failure (settled x hash failed) = record {
  status = 500;
  body = error "Transaction failed";
}
change_response failure (settled x hash not_found) = record {
  status = 500;
  body = error "Transaction failed";
}

unfoldable pub changed_by : String → Submission (Unit {0}) → Outcome
changed_by failure s = record { sent = s.sent; response = change_response failure s.ending }

abbrev pub edit_labels : Labels
edit_labels = record {
  simulate = "simulate_edit_comment";
  send = "send_edit_comment";
  wait = "wait_for_edit_comment";
}

abbrev pub delete_labels : Labels
delete_labels = record {
  simulate = "simulate_delete_comment";
  send = "send_delete_comment";
  wait = "wait_for_delete_comment";
}

unfoldable pub edit_args : ℕ → ℕ → ℕ → Text → Text → Result (List Arg)
edit_args dao_id proposal_id comment_id author new_content_cid = do
  dao ← u64_arg dao_id
  proposal ← u64_arg proposal_id
  comment ← u64_arg comment_id
  ok (dao ∷ proposal ∷ comment ∷ address author ∷ content new_content_cid ∷ [])

unfoldable pub delete_args : ℕ → ℕ → ℕ → Text → Result (List Arg)
delete_args dao_id proposal_id comment_id author = do
  dao ← u64_arg dao_id
  proposal ← u64_arg proposal_id
  comment ← u64_arg comment_id
  ok (dao ∷ proposal ∷ comment ∷ address author ∷ [])

abbrev pub edit_operation : List Arg → Operation
edit_operation args = record { method = "edit_comment"; args = args }

abbrev pub delete_operation : List Arg → Operation
delete_operation args = record { method = "delete_comment"; args = args }

module _ (show : ℕ → String) {V : Type 0} where
  -- Whatever is thrown, an address or an id that is not converted, has the same answer.
  unfoldable pub edit_called : Config → Rpc V → Result (List Arg) → Outcome
  edit_called config rpc (err e) = refuse 500 "Internal server error"
  edit_called config rpc (ok args) =
      changed_by "Failed to edit comment"
        (submit show config rpc edit_labels (edit_operation args) (λ v. ok tt))

  unfoldable pub delete_called : Config → Rpc V → Result (List Arg) → Outcome
  delete_called config rpc (err e) = refuse 500 "Internal server error"
  delete_called config rpc (ok args) =
      changed_by "Failed to delete comment"
        (submit show config rpc delete_labels (delete_operation args) (λ v. ok tt))

module _ (show : ℕ → String) {V : Type 0} (address_from_string : Text → Result Text) where
  unfoldable pub edit_with : Config → Rpc V → EditRequest → ℕ → ℕ → ℕ → Result Text → Outcome
  unfolding edit_called
  edit_with config rpc r dao_id proposal_id comment_id (err e) = refuse 500 "Internal server error"
  edit_with config rpc r dao_id proposal_id comment_id (ok author) =
      edit_called show config rpc (edit_args dao_id proposal_id comment_id author r.new_content_cid)

  unfoldable pub edit_fields :
      Config → Rpc V → EditRequest → Option ℕ → Option ℕ → Option ℕ → Outcome
  unfolding edit_with
  edit_fields config rpc r (some dao_id) (some proposal_id) (some comment_id) =
      if is_empty r.new_content_cid || is_empty r.author
      then refuse 400 "Missing required fields"
      else edit_with config rpc r dao_id proposal_id comment_id (address_from_string r.author)
  edit_fields config rpc r _ _ _ = refuse 400 "Missing required fields"

  -- The handler of POST /comment/edit.
  unfoldable pub edit_comment : Config → Rpc V → EditRequest → Outcome
  unfolding edit_fields
  edit_comment config rpc r = edit_fields config rpc r r.dao_id r.proposal_id r.comment_id

  unfoldable pub delete_with : Config → Rpc V → ℕ → ℕ → ℕ → Result Text → Outcome
  unfolding delete_called
  delete_with config rpc dao_id proposal_id comment_id (err e) = refuse 500 "Internal server error"
  delete_with config rpc dao_id proposal_id comment_id (ok author) =
      delete_called show config rpc (delete_args dao_id proposal_id comment_id author)

  unfoldable pub delete_fields : Config → Rpc V → Text → Option ℕ → Option ℕ → Option ℕ → Outcome
  unfolding delete_with
  delete_fields config rpc author (some dao_id) (some proposal_id) (some comment_id) =
      if is_empty author
      then refuse 400 "Missing required fields"
      else delete_with config rpc dao_id proposal_id comment_id (address_from_string author)
  delete_fields config rpc author _ _ _ = refuse 400 "Missing required fields"

  -- The handler of POST /comment/delete; the member `newContentCid` is not read.
  unfoldable pub delete_comment : Config → Rpc V → EditRequest → Outcome
  unfolding delete_fields
  delete_comment config rpc r =
      delete_fields config rpc r.author r.dao_id r.proposal_id r.comment_id
