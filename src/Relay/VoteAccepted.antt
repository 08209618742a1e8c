-- ===== src/Relay/VoteAccepted.antt =====
-- voting.ts: what a vote needs to succeed.
use zkvote.Prelude.{
  ℕ, ◌≡◌, refl, ◌∙◌, ap, if_true, if_false, String, true, false, some, List, [], ◌∷◌, ok,
}
use zkvote.Indexer.{success}
use zkvote.Relay.{
  Rpc, Config, settled, submit, Arg, Operation, after_wait, after_send, after_read,
  after_simulation, after_account,
}
use zkvote.Relay.Vote.{
  VoteRequest, vote_args, vote_schema, vote_success, vote_response, submitted, vote_called,
  vote_encoded, vote, vote_validated, vote_operation, vote_labels,
}
use zkvote.Relay.VoteLaws.{Landed}

module _ (show : ℕ → String) {V : Type 0} (config : Config) (rpc : Rpc V) (hash : String)
    (ledger : ℕ) where
  submit_lands :
      (op : Operation)
      → Landed show config rpc vote_labels hash (success ledger)
      → submit show config rpc vote_labels op (λ v. ok tt)
        ≡ record { sent = op ∷ []; ending = settled tt hash (success ledger) }
  unfolding submit after_account after_simulation after_read after_send after_wait
  submit_lands op l = rw l.account (rw l.simulation (rw l.sending (rw l.awaited refl)))

  pub vote_validated_sends :
      (r : VoteRequest) (args : List Arg)
      → config.strip_request_bodies ≡ false
      → config.test_mode ≡ false
      → vote_schema r ≡ true
      → vote_args r ≡ ok (ok args)
      → Landed show config rpc vote_labels hash (success ledger)
      → vote_validated show config rpc (some r) ≡ record {
        sent = vote_operation args ∷ [];
        response = record { status = 200; body = vote_success hash };
      }
  unfolding vote_validated vote vote_encoded vote_called submitted vote_response
  vote_validated_sends r args kept live h encoded l =
      if_false config.strip_request_bodies _ _ kept
      ∙ if_true (vote_schema r) _ _ h
      ∙ ap (vote_encoded show config rpc) encoded
      ∙ if_false config.test_mode _ _ live
      ∙ ap (submitted config) (submit_lands (vote_operation args) l)
