-- ===== src/Commenting/Linked.antt =====
-- CommentForm.tsx and VoteModal.tsx together: what an anonymous comment tells of a vote.
use zkvote.Prelude.{ℕ, ◌≡◌, refl, sym, ap, ◌∙◌, Bool, true, some}
use zkvote.Hex.{Text}
use zkvote.Zkproof.{to_hex_be, calculate_nullifier}
use zkvote.Relay.Vote.{VoteRequest}
use zkvote.Relay.Comments.{CommentRequest}
use zkvote.Client.{RelayerState}
use zkvote.Browser.{ZkCredentials, Registration, Storage, get_zk_credentials}
use zkvote.Ballot.{World, Props}
use zkvote.Ballot.Casting.{handle_vote}
use zkvote.Ballot.Nullifier.{handle_vote-IsBallot}
use zkvote.Commenting.{FormProps, Services}
use zkvote.Commenting.Anonymous.{comment_nullifier, comment_body}
use zkvote.Commenting.Form.{handle_submit}
use zkvote.Commenting.Posted.{IsComment, handle_submit-IsComment}

said_nullifier :
    (w : World) (p : FormProps) (c : ZkCredentials) (body : CommentRequest)
    → IsComment w p c body
    → (body.nullifier ≡ to_hex_be (calculate_nullifier w.poseidon c.secret p.dao_id p.proposal_id))
      × (body.commitment ≡ to_hex_be c.commitment)
unfolding comment_body comment_nullifier
said_nullifier w p c body is = (ap (λ b. b.nullifier) is.says, ap (λ b. b.commitment) is.says)

-- An anonymous comment that an account posts with a stored registration carries, in the open, the commitment of this
-- registration, and the same nullifier as the vote that the account posts on the same proposal with it, whatever
-- the texts, choices, roots, paths and proofs are.
pub handle_submit_reveals_vote :
    (w w' : World) (s : Services) (p : FormProps) (props : Props) (text prefix prefix' : Text)
    (now at later now' later' : ℕ) (choice : Bool) (storage kept storage' kept' : Storage)
    (relayer relayer' : RelayerState) (r : Registration) (comment : CommentRequest)
    (vote : VoteRequest) (sent sent' : ℕ)
    → w.poseidon ≡ w'.poseidon
    → p.dao_id ≡ props.dao_id
    → p.proposal_id ≡ props.proposal_id
    → get_zk_credentials prefix at p.dao_id p.public_key storage ≡ (some r, kept)
    → get_zk_credentials prefix' now' props.dao_id props.public_key storage' ≡ (some r, kept')
    → (handle_submit w s p text true prefix now at later storage relayer).posted
      ≡ some (comment, sent)
    → (handle_vote w' props prefix' now' later' choice storage' relayer').posted
      ≡ some (vote, sent')
    → (comment.nullifier ≡ vote.nullifier)
      × (comment.commitment ≡ to_hex_be r.credentials.commitment)
handle_submit_reveals_vote w w' s p props text prefix prefix' now at later now' later' choice
      storage kept storage' kept' relayer relayer' r comment vote sent sent' f d q known known' h
      h' =
    let (n, c) = said_nullifier w p r.credentials comment (
      handle_submit-IsComment w s p text prefix now at later storage relayer kept r comment sent
        known h) in
    let b =
      handle_vote-IsBallot w' props prefix' now' later' choice storage' kept' relayer' r vote sent'
        known' h' in
    (n ∙ (rw (f, d, q) refl ∙ sym (ap (λ x. x.nullifier) b.says)), c)
