-- ===== src/Relay/CommentLaws.antt =====
-- comments.ts: what a success of the routes amounts to.
use zkvote.Prelude.{
  ℕ, ◌≡◌, refl, String, false, ◌||◌, Option, none, some, List, [], ◌∷◌, Result, ok, err, arith, inl,
  inr, Bool-cases, if_elim,
}
use zkvote.Hex.{Text}
use zkvote.Stellar.{is_empty}
use zkvote.Indexer.{success, failed, not_found}
use zkvote.Relay.{
  Rpc, Config, Ending, threw, simulation_failed, send_failed, settled, Arg, Operation,
}
use zkvote.Relay.VoteLaws.{Landed, submit-settled}
use zkvote.Relay.Comments.{
  CommentRequest, comment_args, comment_encoded, comment_labels, comment_operation,
  comment_response, commented, read_id, add_anonymous_comment, added, changed, Outcome,
}
use zkvote.Relay.Comments.Changes.{
  EditRequest, edit_labels, edit_args, edit_operation, edit_called, change_response, changed_by,
  edit_with, edit_fields, edit_comment,
}

comment_response_success :
    (config : Config) (e : Ending (Option ℕ)) (id : Option ℕ) (hash : String)
    → (comment_response config e).body ≡ added id hash
    → (ledger : ℕ) × (e ≡ settled id hash (success ledger))
unfolding comment_response
comment_response_success config (threw e) id hash h = elim (Bool-cases config.generic_errors) [
  | inl g ↦ absurd (ground arith)
  | inr g ↦ absurd (ground arith)
]
comment_response_success config (simulation_failed none) id hash h = absurd (ground arith)
comment_response_success config (simulation_failed (some e)) id hash h = absurd (ground arith)
comment_response_success config send_failed id hash h = absurd (ground arith)
comment_response_success config (settled id' hash' (success ledger)) id hash h =
    (ledger, ground arith)
comment_response_success config (settled id' hash' failed) id hash h = absurd (ground arith)
comment_response_success config (settled id' hash' not_found) id hash h = absurd (ground arith)

-- A success: the arguments that were sent, and the ledger of the transaction.
pub record Commented {V : Type 0} (show : ℕ → String) (config : Config) (rpc : Rpc V)
    (r : CommentRequest) (sent : List Operation) (hash : String) : Type 0 where
  pub args : List Arg
  pub ledger : ℕ
  pub encoded : comment_args r ≡ ok args
  pub once : sent ≡ comment_operation args ∷ []
  pub landed : Landed show config rpc comment_labels hash (success ledger)

module _ (show : ℕ → String) {V : Type 0} (to_number : V → Result ℕ) (config : Config)
    (rpc : Rpc V) where
  comment_encoded_success :
      (r : CommentRequest) (a : Result (List Arg)) (id : Option ℕ) (hash : String)
      → comment_args r ≡ a
      → (comment_encoded show to_number config rpc a).response.body ≡ added id hash
      → Commented show config rpc r (comment_encoded show to_number config rpc a).sent hash
  unfolding comment_encoded commented
  comment_encoded_success r (err e) id hash same h = elim (Bool-cases config.generic_errors) [
    | inl g ↦ absurd (ground arith)
    | inr g ↦ absurd (ground arith)
  ]
  comment_encoded_success r (ok args) id hash same h =
      let (ledger, ends) = comment_response_success config _ id hash h in
      let (once, landed) =
        submit-settled show config rpc comment_labels (comment_operation args) (read_id to_number)
          id hash (success ledger) ends in
      record { args = args; ledger = ledger; encoded = same; once = once; landed = landed }

  -- When the route answers that an anonymous comment was added under a transaction hash, the body's
  -- field elements and proof were encoded, exactly one call of `add_anonymous_comment` with these
  -- arguments was sent, after an account and a successful simulation, the server accepted it under that
  -- hash, and the polling loop saw it succeed.
  pub comment_success_sound :
      (r : CommentRequest) (id : Option ℕ) (hash : String)
      → (add_anonymous_comment show to_number config rpc r).response.body ≡ added id hash
      → Commented show config rpc r (add_anonymous_comment show to_number config rpc r).sent hash
  unfolding add_anonymous_comment
  comment_success_sound r id hash h = comment_encoded_success r (comment_args r) id hash refl h

change_response_success :
    (failure : String) (e : Ending (Unit {0})) (hash : String)
    → (change_response failure e).body ≡ changed hash
    → (ledger : ℕ) × (e ≡ settled tt hash (success ledger))
unfolding change_response
change_response_success failure (threw e) hash h = absurd (ground arith)
change_response_success failure (simulation_failed e) hash h = absurd (ground arith)
change_response_success failure send_failed hash h = absurd (ground arith)
change_response_success failure (settled tt hash' (success ledger)) hash h = (ledger, ground arith)
change_response_success failure (settled x hash' failed) hash h = absurd (ground arith)
change_response_success failure (settled x hash' not_found) hash h = absurd (ground arith)

-- A success of the route for editing: every member of the body is there, and this is what was sent.
pub record Edited {V : Type 0} (show : ℕ → String) (address_from_string : Text → Result Text)
    (config : Config) (rpc : Rpc V) (r : EditRequest) (sent : List Operation) (hash : String)
    : Type 0 where
  pub dao_id : ℕ
  pub proposal_id : ℕ
  pub comment_id : ℕ
  pub author : Text
  pub ledger : ℕ
  pub has_dao : r.dao_id ≡ some dao_id
  pub has_proposal : r.proposal_id ≡ some proposal_id
  pub has_comment : r.comment_id ≡ some comment_id
  pub has_author : address_from_string r.author ≡ ok author
  pub has_content : is_empty r.new_content_cid ≡ false
  pub args : List Arg
  pub encoded : edit_args dao_id proposal_id comment_id author r.new_content_cid ≡ ok args
  pub once : sent ≡ edit_operation args ∷ []
  pub landed : Landed show config rpc edit_labels hash (success ledger)

module _ (show : ℕ → String) {V : Type 0} (config : Config) (rpc : Rpc V) where
  edit_called_success :
      (a : Result (List Arg)) (hash : String)
      → (edit_called show config rpc a).response.body ≡ changed hash
      → (args : List Arg) × (ledger : ℕ) × (a ≡ ok args)
        × ((edit_called show config rpc a).sent ≡ edit_operation args ∷ [])
        × Landed show config rpc edit_labels hash (success ledger)
  unfolding edit_called changed_by
  edit_called_success (err e) hash h = absurd (ground arith)
  edit_called_success (ok args) hash h =
      let (ledger, ends) = change_response_success "Failed to edit comment" _ hash h in
      let (once, landed) =
        submit-settled show config rpc edit_labels (edit_operation args) (λ v. ok tt) tt hash
          (success ledger) ends in
      (args, ledger, refl, once, landed)

module _ (show : ℕ → String) {V : Type 0} (address_from_string : Text → Result Text)
    (config : Config) (rpc : Rpc V) where
  edit_with_success :
      (r : EditRequest) (d p c : ℕ) (author : Result Text) (hash : String)
      → r.dao_id ≡ some d
      → r.proposal_id ≡ some p
      → r.comment_id ≡ some c
      → address_from_string r.author ≡ author
      → is_empty r.new_content_cid ≡ false
      → (edit_with show address_from_string config rpc r d p c author).response.body ≡ changed hash
      → Edited show address_from_string config rpc r
          (edit_with show address_from_string config rpc r d p c author).sent
          hash
  unfolding edit_with
  edit_with_success r d p c (err e) hash hd hp hc ha hn h = absurd (ground arith)
  edit_with_success r d p c (ok author) hash hd hp hc ha hn h =
      let (args, ledger, encoded, once, landed) = edit_called_success show config rpc _ hash h in
      record {
        args = args;
        encoded = encoded;
        dao_id = d;
        proposal_id = p;
        comment_id = c;
        author = author;
        ledger = ledger;
        has_dao = hd;
        has_proposal = hp;
        has_comment = hc;
        has_author = ha;
        has_content = hn;
        once = once;
        landed = landed;
      }

  edit_fields_success :
      (r : EditRequest) (d p c : Option ℕ) (hash : String)
      → r.dao_id ≡ d
      → r.proposal_id ≡ p
      → r.comment_id ≡ c
      → (edit_fields show address_from_string config rpc r d p c).response.body ≡ changed hash
      → Edited show address_from_string config rpc r
          (edit_fields show address_from_string config rpc r d p c).sent
          hash
  unfolding edit_fields
  edit_fields_success r none p c hash hd hp hc h = absurd (ground arith)
  edit_fields_success r (some d) none c hash hd hp hc h = absurd (ground arith)
  edit_fields_success r (some d) (some p) none hash hd hp hc h = absurd (ground arith)
  edit_fields_success r (some d) (some p) (some c) hash hd hp hc h =
      if_elim {A = Outcome} (is_empty r.new_content_cid || is_empty r.author)
        (λ o.
          o.response.body ≡ changed hash → Edited show address_from_string config rpc r o.sent hash)
        _ _ (λ t k. absurd (ground arith))
        (λ t k.
          edit_with_success r d p c (address_from_string r.author) hash hd hp hc refl (ground arith)
            k)
        h

  -- When the route for editing answers a success, no member of the body was missing or empty, the
  -- author is an address, and exactly one call of `edit_comment`, for that author, was sent, accepted by
  -- the server and seen to succeed.
  pub edit_comment_success :
      (r : EditRequest) (hash : String)
      → (edit_comment show address_from_string config rpc r).response.body ≡ changed hash
      → Edited show address_from_string config rpc r
          (edit_comment show address_from_string config rpc r).sent
          hash
  unfolding edit_comment
  edit_comment_success r hash h =
      edit_fields_success r r.dao_id r.proposal_id r.comment_id hash refl refl refl h
