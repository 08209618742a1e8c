-- ===== src/Ballot/Replies.antt =====
-- VoteModal.tsx and api.ts: how a vote ends.
use zkvote.Prelude.{
  ℕ, ◌≡◌, refl, sym, ap, ◌∙◌, subst, String, Bool, true, false, ◌||◌, Option, some, ok, err,
  if_true, arith,
}
use zkvote.Hex.{Text}
use zkvote.Relay.{includes}
use zkvote.Relay.Vote.{VoteRequest}
use zkvote.Client.{RelayerState, failed, responded, response, is_in_backoff, relayer_fetch}
use zkvote.Client.Retries.{IsRetried, Answered, relayer_fetch_finds}
use zkvote.Browser.{Registration, Storage, get_zk_credentials}
use zkvote.Ballot.{
  Reply, World, Props, VoteMode, Cast, VoteStep, error, prepare, cached_or_regenerated,
}
use zkvote.Ballot.Casting.{
  finished, submit_vote, after_credentials, handle_vote, read_reply, refusal, shown_error,
}

pub record Ended (step : VoteStep) (message : Option String) (body : VoteRequest) (sent : ℕ)
    (c : Cast) : Type 0 where
  pub ends : c.step ≡ step
  pub shows : c.message ≡ message
  pub posts : c.posted ≡ some (body, sent)

handle_vote_prepared :
    (w : World) (props : Props) (prefix : Text) (now later : ℕ) (choice : Bool)
    (storage kept : Storage) (relayer : RelayerState) (r : Registration) (body : VoteRequest)
    → get_zk_credentials prefix now props.dao_id props.public_key storage ≡ (some r, kept)
    → prepare w props choice (r.credentials, r.leaf_index) ≡ ok body
    → handle_vote w props prefix now later choice storage relayer
      ≡ submit_vote w props.vote_mode later kept relayer (ok body)
unfolding handle_vote cached_or_regenerated after_credentials
handle_vote_prepared w props prefix now later choice storage kept relayer r body known prepared =
    ap
      (λ found.
        after_credentials w props later choice relayer
          (cached_or_regenerated w prefix now props found))
      known
    ∙ ap (submit_vote w props.vote_mode later kept relayer) prepared

submit_vote-Answered :
    (w : World) (mode : VoteMode) (later : ℕ) (storage : Storage) (relayer : RelayerState)
    (body : VoteRequest) (reply : Reply) (sent : ℕ)
    → Answered reply sent (relayer_fetch (w.post body) 3 false later relayer)
    → submit_vote w mode later storage relayer (ok body)
      ≡ finished mode
          (read_reply (response reply))
          storage
          (relayer_fetch (w.post body) 3 false later relayer).state
          (some (body, sent))
unfolding submit_vote
submit_vote-Answered w mode later storage relayer body reply sent a = rw (a.result, a.requests) refl

abbrev pub voted_already : String
voted_already =
    "You have already voted on this proposal. Each member can only vote once per proposal."

refusal_voted : (e : String) → includes e "already voted" ≡ true → refusal (some e) ≡ voted_already
refusal_voted e said =
    if_true {A = String} (includes e "already voted" || includes e "UnreachableCodeReached") _ _
      (ap (λ b. b || includes e "UnreachableCodeReached") said)

-- When the first request of a vote fails without an answer, as it does when none comes within 15 seconds, the
-- vote is posted once more; a relayer that meanwhile has cast it answers the second request with "already voted",
-- and the dialog ends with an error, in which it says that the member has already voted.
-- Conditions: the registration is stored, the proof is made and verified, and no backoff holds the request back.
pub handle_vote_repeats :
    (w : World) (props : Props) (prefix : Text) (now later : ℕ) (choice : Bool)
    (storage kept : Storage) (relayer : RelayerState) (r : Registration) (body : VoteRequest)
    (timeout e : String)
    → get_zk_credentials prefix now props.dao_id props.public_key storage ≡ (some r, kept)
    → prepare w props choice (r.credentials, r.leaf_index) ≡ ok body
    → is_in_backoff later relayer ≡ false
    → (w.post body 0).answer ≡ failed timeout
    → (w.post body 1).answer ≡ responded (record { is_ok = false; json = ok (some e) })
    → includes e "already voted" ≡ true
    → Ended error
        (some voted_already)
        body
        2
        (handle_vote w props prefix now later choice storage relayer)
unfolding read_reply shown_error
handle_vote_repeats w props prefix now later choice storage kept relayer r body timeout e known
      prepared free first second said =
    let reply : Reply = record { is_ok = false; json = ok (some e) } in
    let a : Answered reply 2 (relayer_fetch (w.post body) 3 false later relayer) =
      relayer_fetch_finds (w.post body) 1 3 false later relayer reply free (omega arith)
        (λ j l.
          let z : j ≡ 0 = omega arith in
          subst (λ i. IsRetried (w.post body i).answer) (sym z) (subst IsRetried (sym first) tt))
        second in
    rw
      (
        handle_vote_prepared w props prefix now later choice storage kept relayer r body known
            prepared,
        submit_vote-Answered w props.vote_mode later kept relayer body reply 2 a,
      )
      (subst
        (λ t. Ended error (some voted_already) body 2 (
          finished props.vote_mode (err t) kept
            (relayer_fetch (w.post body) 3 false later relayer).state (some (body, 2))))
        (sym (refusal_voted e said)) (record { ends = refl; shows = refl; posts = refl }))
