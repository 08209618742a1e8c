-- ===== src/Ballot/Nullifier.antt =====
-- VoteModal.tsx: what a posted vote says.
use zkvote.Prelude.{
  ℕ, ◌≡◌, refl, sym, ap, ◌∙◌, subst, Bool, true, false, Option, some, List, Result, ok, err,
  bind-ok, if_elim, arith,
}
use zkvote.Hex.{Text}
use zkvote.Zkproof.{SnarkProof, to_hex_be, format_proof_for_soroban, calculate_nullifier}
use zkvote.Relay.Vote.{VoteRequest}
use zkvote.Client.{RelayerState, Fetched, relayer_fetch}
use zkvote.Browser.{ZkCredentials, Registration, Storage, get_zk_credentials}
use zkvote.Ballot.{
  Reply, proof_input, VoteMode, World, Props, vote_body, verify_proof_locally, verified,
  select_root, prepare, generate_vote_proof, cached_or_regenerated,
}
use zkvote.Ballot.Casting.{finished, submit_vote, after_credentials, handle_vote, read_reply}

-- The body for credentials with a secret.
pub record IsBallot (w : World) (props : Props) (choice : Bool) (secret : ℕ) (body : VoteRequest)
    : Type 0 where
  pub root : ℕ
  pub proof : SnarkProof
  pub signals : List ℕ
  pub selected : select_root w props ≡ ok root
  pub checked : verify_proof_locally w proof signals ≡ true
  pub says : body ≡ record {
    dao_id = props.dao_id;
    proposal_id = props.proposal_id;
    choice = choice;
    nullifier = to_hex_be (calculate_nullifier w.poseidon secret props.dao_id props.proposal_id);
    root = to_hex_be root;
    proof = format_proof_for_soroban proof;
  }

module _ (w : World) (props : Props) (choice : Bool) where
  verified-IsBallot :
      (secret root : ℕ) (proven : SnarkProof × List ℕ) (body : VoteRequest)
      → select_root w props ≡ ok root
      → verified w props.dao_id props.proposal_id choice
          (calculate_nullifier w.poseidon secret props.dao_id props.proposal_id)
          root
          proven
        ≡ ok body
      → IsBallot w props choice secret body
  unfolding verified vote_body
  verified-IsBallot secret root (proof, signals) body selected =
      if_elim {A = Result VoteRequest} (verify_proof_locally w proof signals)
        (λ r. r ≡ ok body → IsBallot w props choice secret body) _ _
        (λ checked e. record {
          root = root;
          proof = proof;
          signals = signals;
          selected = selected;
          checked = checked;
          says = ground (arith, e);
        })
        (λ unchecked e. absurd (ground (arith, e)))

  prepare-IsBallot :
      (c : ZkCredentials) (leaf_index : ℕ) (body : VoteRequest)
      → prepare w props choice (c, leaf_index) ≡ ok body
      → IsBallot w props choice c.secret body
  unfolding prepare
  prepare-IsBallot c leaf_index body h =
      let (root, selected, h1) = bind-ok (select_root w props) _ body h in
      let (path, found, h2) = bind-ok (w.get_merkle_path leaf_index props.dao_id) _ body h1 in
      let (proven, made, h3) =
        bind-ok (generate_vote_proof w (proof_input w props choice c root path)) _ body h2 in
      verified-IsBallot c.secret root proven body selected h3

posted-finished :
    (mode : VoteMode) (r : Result (Unit {0})) (storage : Storage) (relayer : RelayerState)
    (posted : Option (VoteRequest × ℕ))
    → (finished mode r storage relayer posted).posted ≡ posted
posted-finished mode (ok u) storage relayer posted = refl
posted-finished mode (err e) storage relayer posted = refl

posted-submit_vote :
    (w : World) (mode : VoteMode) (later : ℕ) (storage : Storage) (relayer : RelayerState)
    (r : Result VoteRequest) (body : VoteRequest) (sent : ℕ)
    → (submit_vote w mode later storage relayer r).posted ≡ some (body, sent)
    → r ≡ ok body
unfolding submit_vote
posted-submit_vote w mode later storage relayer (err e) body sent h = absurd (ground arith)
posted-submit_vote w mode later storage relayer (ok b) body sent h =
    let f : Fetched Reply = relayer_fetch (w.post b) 3 false later relayer in
    let e : some (b, f.sent) ≡ some (body, sent) =
      sym (posted-finished mode (read_reply f.result) storage f.state (some (b, f.sent))) ∙ h in
    ground (arith, e)

after_credentials-IsBallot :
    (w : World) (props : Props) (later : ℕ) (choice : Bool) (relayer : RelayerState)
    (c : ZkCredentials) (leaf_index : ℕ) (storage : Storage) (body : VoteRequest) (sent : ℕ)
    → (after_credentials w props later choice relayer (ok (c, leaf_index), storage)).posted
      ≡ some (body, sent)
    → IsBallot w props choice c.secret body
unfolding after_credentials
after_credentials-IsBallot w props later choice relayer c leaf_index storage body sent h =
    prepare-IsBallot w props choice c leaf_index body (
      posted-submit_vote w props.vote_mode later storage relayer
        (prepare w props choice (c, leaf_index)) body sent h)

-- Whatever the page posts for an account with a registration that is stored and has not expired is a vote of the
-- dialog's DAO, proposal and choice, with the root of the vote's mode, a proof that the browser has verified, and
-- the Poseidon hash of the stored secret, the DAO and the proposal as its nullifier.
pub handle_vote-IsBallot :
    (w : World) (props : Props) (prefix : Text) (now later : ℕ) (choice : Bool)
    (storage kept : Storage) (relayer : RelayerState) (r : Registration) (body : VoteRequest)
    (sent : ℕ)
    → get_zk_credentials prefix now props.dao_id props.public_key storage ≡ (some r, kept)
    → (handle_vote w props prefix now later choice storage relayer).posted ≡ some (body, sent)
    → IsBallot w props choice r.credentials.secret body
unfolding handle_vote cached_or_regenerated
handle_vote-IsBallot w props prefix now later choice storage kept relayer r body sent known h =
    after_credentials-IsBallot w props later choice relayer r.credentials r.leaf_index kept body
      sent
      (subst
        (λ found.
          (after_credentials w props later choice relayer
            (cached_or_regenerated w prefix now props found)).posted
          ≡ some (body, sent))
        known h)

-- Two votes that an account posts on one proposal with the same stored registration carry the same nullifier,
-- whatever was chosen and whatever the roots, paths and proofs were.
pub handle_vote_same_nullifier :
    (w w' : World) (props props' : Props) (prefix prefix' : Text) (now later now' later' : ℕ)
    (choice choice' : Bool) (storage kept storage' kept' : Storage)
    (relayer relayer' : RelayerState) (r : Registration) (body body' : VoteRequest) (sent sent' : ℕ)
    → w.poseidon ≡ w'.poseidon
    → props.dao_id ≡ props'.dao_id
    → props.proposal_id ≡ props'.proposal_id
    → get_zk_credentials prefix now props.dao_id props.public_key storage ≡ (some r, kept)
    → get_zk_credentials prefix' now' props'.dao_id props'.public_key storage' ≡ (some r, kept')
    → (handle_vote w props prefix now later choice storage relayer).posted ≡ some (body, sent)
    → (handle_vote w' props' prefix' now' later' choice' storage' relayer').posted
      ≡ some (body', sent')
    → body.nullifier ≡ body'.nullifier
handle_vote_same_nullifier w w' props props' prefix prefix' now later now' later' choice choice'
      storage kept storage' kept' relayer relayer' r body body' sent sent' p d q known known' h h' =
    let b =
      handle_vote-IsBallot w props prefix now later choice storage kept relayer r body sent known
        h in
    let b' =
      handle_vote-IsBallot w' props' prefix' now' later' choice' storage' kept' relayer' r body'
        sent' known' h' in
    ap (λ x. x.nullifier) b.says
    ∙ (ap
          (λ f.
            to_hex_be (calculate_nullifier f r.credentials.secret props.dao_id props.proposal_id))
          p
        ∙ (rw (d, q) refl ∙ sym (ap (λ x. x.nullifier) b'.says)))
