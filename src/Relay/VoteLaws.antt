-- ===== src/Relay/VoteLaws.antt =====
-- voting.ts: what a success of the route amounts to.
use zkvote.Prelude.{
  ℕ, ◌≡◌, refl, ap, sym, subst, String, Option, List, [], ◌∷◌, Result, ok, err, arith, inl, inr,
  Bool-cases, if_elim,
}
use zkvote.Indexer.{TxStatus, success, failed, not_found}
use zkvote.Relay.{
  result_of, Rpc, Config, Labels, Ending, threw, simulation_failed, send_failed, settled,
  Submission, submit, Arg, Operation, SimResult, simulated, not_simulated, SendResult, rejected,
  accepted, after_wait, after_send, after_read, after_simulation, after_account,
  wait_for_transaction, call_with_timeout, simulate_with_backoff,
}
use zkvote.Relay.Vote.{
  VoteRequest, vote_args, Outcome, vote_success, vote_response, submitted, vote_called,
  vote_encoded, vote, vote_operation, vote_labels,
}

-- How a transaction that was awaited got there: the account was read, the simulation succeeded, the
-- server accepted the transaction under `hash`, and the loop ended with `status`.
pub record Landed {V : Type 0} (show : ℕ → String) (config : Config) (rpc : Rpc V) (labels : Labels)
    (hash : String) (status : TxStatus) : Type 0 where
  pub value : Option V
  pub account : result_of rpc.get_account ≡ ok tt
  pub simulation :
      result_of (
        call_with_timeout show config.rpc_timeout_ms
          (simulate_with_backoff rpc.simulate 3)
          labels.simulate)
      ≡ ok (simulated value)
  pub sending :
      result_of (call_with_timeout show config.rpc_timeout_ms rpc.send labels.send)
      ≡ ok (accepted hash)
  pub awaited :
      result_of (
        call_with_timeout show config.rpc_timeout_ms
          (wait_for_transaction rpc.get_transaction)
          labels.wait)
      ≡ ok status

abbrev AwaitedAs : {V : Type 0} → (ℕ → String) → Config → Rpc V → Labels → TxStatus → Type 0
AwaitedAs show config rpc labels status =
    result_of (
      call_with_timeout show config.rpc_timeout_ms (wait_for_transaction rpc.get_transaction)
        labels.wait)
    ≡ ok status

module _ (show : ℕ → String) {V X : Type 0} (config : Config) (rpc : Rpc V) (labels : Labels)
    (op : Operation) where
  after_wait-settled :
      (x y : X) (hash hash' : String) (r : Result TxStatus) (status : TxStatus)
      → after_wait show config rpc labels op x hash r ≡ settled y hash' status
      → (hash ≡ hash') × (r ≡ ok status)
  unfolding after_wait
  after_wait-settled x y hash hash' (err e) status h = absurd (ground arith)
  after_wait-settled x y hash hash' (ok s) status h = (ground arith, ground arith)

  after_send-settled :
      (x y : X) (hash : String) (r : Result SendResult) (status : TxStatus)
      → after_send show config rpc labels op x r ≡ settled y hash status
      → (r ≡ ok (accepted hash)) × AwaitedAs show config rpc labels status
  unfolding after_send
  after_send-settled x y hash (err e) status h = absurd (ground arith)
  after_send-settled x y hash (ok rejected) status h = absurd (ground arith)
  after_send-settled x y hash (ok (accepted hash')) status h =
      let (same, awaited) = after_wait-settled x y hash' hash _ status h in
      (ap (λ t. ok (accepted t)) same, awaited)

  after_read-settled :
      (r : Result X) (y : X) (hash : String) (status : TxStatus)
      → (after_read show config rpc labels op r).ending ≡ settled y hash status
      → ((after_read show config rpc labels op r).sent ≡ op ∷ [])
        × (result_of (call_with_timeout show config.rpc_timeout_ms rpc.send labels.send)
            ≡ ok (accepted hash))
        × AwaitedAs show config rpc labels status
  unfolding after_read
  after_read-settled (err e) y hash status h = absurd (ground arith)
  after_read-settled (ok x) y hash status h =
      let (sent, awaited) = after_send-settled x y hash _ status h in (refl, sent, awaited)

  after_simulation-settled :
      (read : Option V → Result X) (r : Result (SimResult V)) (y : X) (hash : String)
      (status : TxStatus)
      → (after_simulation show config rpc labels op read r).ending ≡ settled y hash status
      → ((after_simulation show config rpc labels op read r).sent ≡ op ∷ [])
        × (result_of (call_with_timeout show config.rpc_timeout_ms rpc.send labels.send)
            ≡ ok (accepted hash))
        × AwaitedAs show config rpc labels status
        × ((v : Option V) × (r ≡ ok (simulated v)))
  unfolding after_simulation
  after_simulation-settled read (err e) y hash status h = absurd (ground arith)
  after_simulation-settled read (ok (not_simulated e)) y hash status h = absurd (ground arith)
  after_simulation-settled read (ok (simulated v)) y hash status h =
      let (sent, sending, awaited) = after_read-settled (read v) y hash status h in
      (sent, sending, awaited, (v, refl))

  after_account-settled :
      (read : Option V → Result X) (r : Result (Unit {0})) (y : X) (hash : String)
      (status : TxStatus)
      → r ≡ result_of rpc.get_account
      → (after_account show config rpc labels op read r).ending ≡ settled y hash status
      → ((after_account show config rpc labels op read r).sent ≡ op ∷ [])
        × Landed show config rpc labels hash status
  unfolding after_account
  after_account-settled read (err e) y hash status same h = absurd (ground arith)
  after_account-settled read (ok account) y hash status same h =
      let (sent, sending, awaited, (v, simulation)) =
        after_simulation-settled read _ y hash status h in
      (
        sent,
        record {
          value = v;
          account = sym same;
          simulation = simulation;
          sending = sending;
          awaited = awaited;
        },
      )

  -- A transaction is awaited only after each step before succeeded, and then the operation was sent once.
  pub submit-settled :
      (read : Option V → Result X) (y : X) (hash : String) (status : TxStatus)
      → (submit show config rpc labels op read).ending ≡ settled y hash status
      → ((submit show config rpc labels op read).sent ≡ op ∷ [])
        × Landed show config rpc labels hash status
  unfolding submit
  submit-settled read y hash status h = after_account-settled read _ y hash status refl h

-- The answer is a success only on an ending of that kind.
vote_response_success :
    (config : Config) (e : Ending (Unit {0})) (hash : String)
    → (vote_response config e).body ≡ vote_success hash
    → (ledger : ℕ) × (e ≡ settled tt hash (success ledger))
unfolding vote_response
vote_response_success config (threw e) hash h = elim (Bool-cases config.generic_errors) [
  | inl g ↦ absurd (ground arith)
  | inr g ↦ absurd (ground arith)
]
vote_response_success config (simulation_failed e) hash h = absurd (ground arith)
vote_response_success config send_failed hash h = absurd (ground arith)
vote_response_success config (settled tt hash' (success ledger)) hash h = (ledger, ground arith)
vote_response_success config (settled x hash' failed) hash h = absurd (ground arith)
vote_response_success config (settled x hash' not_found) hash h = absurd (ground arith)

-- A success: the arguments that were sent, and the ledger of the transaction.
pub record Voted {V : Type 0} (show : ℕ → String) (config : Config) (rpc : Rpc V) (r : VoteRequest)
    (sent : List Operation) (hash : String) : Type 0 where
  pub args : List Arg
  pub ledger : ℕ
  pub encoded : vote_args r ≡ ok (ok args)
  pub once : sent ≡ vote_operation args ∷ []
  pub landed : Landed show config rpc vote_labels hash (success ledger)

submitted_success :
    (show : ℕ → String) {V : Type 0} (config : Config) (rpc : Rpc V) (r : VoteRequest)
    (args : List Arg) (hash : String) (s : Submission (Unit {0}))
    → s ≡ submit show config rpc vote_labels (vote_operation args) (λ v. ok tt)
    → vote_args r ≡ ok (ok args)
    → (vote_response config s.ending).body ≡ vote_success hash
    → Voted show config rpc r s.sent hash
submitted_success show config rpc r args hash s is encoded h =
    let (ledger, ends) = vote_response_success config s.ending hash h in
    let (once, landed) =
      submit-settled show config rpc vote_labels (vote_operation args) (λ v. ok tt) tt hash
        (success ledger) (subst (λ t. t.ending ≡ settled tt hash (success ledger)) is ends) in
    record {
      args = args;
      ledger = ledger;
      encoded = encoded;
      once = subst (λ t. t.sent ≡ vote_operation args ∷ []) (sym is) once;
      landed = landed;
    }

vote_called_success :
    (show : ℕ → String) {V : Type 0} (config : Config) (rpc : Rpc V) (r : VoteRequest)
    (a : Result (List Arg)) (hash : String)
    → vote_args r ≡ ok a
    → (vote_called show config rpc a).response.body ≡ vote_success hash
    → Voted show config rpc r (vote_called show config rpc a).sent hash
unfolding vote_called submitted
vote_called_success show config rpc r (err e) hash same h =
    elim (Bool-cases config.generic_errors) [
      | inl g ↦ absurd (ground arith)
      | inr g ↦ absurd (ground arith)
    ]
vote_called_success show config rpc r (ok args) hash same h =
    submitted_success show config rpc r args hash _ refl same h

vote_encoded_success :
    (show : ℕ → String) {V : Type 0} (config : Config) (rpc : Rpc V) (r : VoteRequest)
    (a : Result (Result (List Arg))) (hash : String)
    → vote_args r ≡ a
    → (vote_encoded show config rpc a).response.body ≡ vote_success hash
    → Voted show config rpc r (vote_encoded show config rpc a).sent hash
unfolding vote_encoded
vote_encoded_success show config rpc r (err e) hash same h = absurd (ground arith)
vote_encoded_success show config rpc r (ok args) hash same h =
    if_elim {A = Outcome} config.test_mode
      (λ o. o.response.body ≡ vote_success hash → Voted show config rpc r o.sent hash) _ _
      (λ t k. absurd (ground arith)) (λ t k. vote_called_success show config rpc r args hash same k)
      h

-- When the route answers that a vote succeeded under a transaction hash, the body's ids, field elements and
-- proof were encoded, exactly one call of `vote` with these arguments was sent, after an account and a
-- successful simulation, the server accepted it under that hash, and the polling loop saw it succeed.
pub vote_success_sound :
    (show : ℕ → String) {V : Type 0} (config : Config) (rpc : Rpc V) (r : VoteRequest)
    (hash : String)
    → (vote show config rpc r).response.body ≡ vote_success hash
    → Voted show config rpc r (vote show config rpc r).sent hash
unfolding vote
vote_success_sound show config rpc r hash h =
    vote_encoded_success show config rpc r (vote_args r) hash refl h
