-- ===== src/Commenting.antt =====
-- frontend/src/components/CommentForm.tsx: writing a comment, with uploadCommentContent of lib/comments.ts. An
-- anonymous one is proved as a vote is, with the wallet, the contracts and snarkjs of the voting dialog.
pub mod Anonymous
pub mod Form
pub mod Posted
pub mod Linked
pub mod Saved
pub mod Request
use zkvote.Prelude.{
  ℕ, String, Bool, true, false, not, Option, none, some, List, [], ◌∷◌, Result, ok, err, ◌>>=◌,
  ◌==◌, str_eq, length, if◌then◌else◌,
}
use zkvote.Hex.{Text}
use zkvote.Decimal.{decimal}
use zkvote.Slug.{trim_start, trim_end}
use zkvote.Zkproof.{SnarkProof, to_hex_be, format_proof_for_soroban, calculate_nullifier}
use zkvote.Relay.Comments.{CommentRequest}
use zkvote.Client.{RelayerState, Attempt, FetchResult, response, threw, relayer_fetch}
use zkvote.Browser.{
  ZkCredentials, Registration, Storage, AnonymousCommentRecord, get_zk_credentials,
  save_anonymous_comment,
}
use zkvote.Ballot.{World, Props, fixed, generate_vote_proof, generated, proof_input}
use zkvote.Ballot.Casting.{fetch_message}

pub record FormProps : Type 0 where
  pub dao_id : ℕ
  pub proposal_id : ℕ
  pub public_key : Text
  pub eligible_root : ℕ
  pub parent_id : Option ℕ

-- What both dialogs know of a proposal.
abbrev pub as_props : FormProps → Props
as_props p = record {
  proposal_id = p.proposal_id;
  eligible_root = p.eligible_root;
  vote_mode = fixed;
  dao_id = p.dao_id;
  public_key = p.public_key;
}

-- POST /ipfs/metadata: `response.ok`, and the member `cid` of the answer.
pub record UploadReply : Type 0 where
  pub is_ok : Bool
  pub cid : Result Text

pub record CommentData : Type 0 where
  pub error : Option String
  pub comment_id : Option ℕ

pub record CommentReply : Type 0 where
  pub is_ok : Bool
  pub json : Result CommentData

pub record PublicComment : Type 0 where
  pub dao_id : ℕ
  pub proposal_id : ℕ
  pub content_cid : Text
  pub parent_id : Option ℕ
  pub author : Text

-- The relayer's answers to an upload and to a comment, by their attempts, and the contract call that the wallet
-- signs and sends. The parts of the voting dialog's world that only a vote uses are not used.
pub record Services : Type 0 where
  pub upload : Text → ℕ → Attempt UploadReply
  pub post_comment : CommentRequest → ℕ → Attempt CommentReply
  pub add_comment : PublicComment → Result (Unit {0})

-- What the handler leaves: the shown error, the text in the form, whether `onSubmit` was called, the storage, the
-- connection's state, the body that it posted, if any, with the number of requests, and what the wallet was asked
-- to sign.
pub record Written : Type 0 where
  pub message : Option String
  pub body : Text
  pub submitted : Bool
  pub storage : Storage
  pub relayer : RelayerState
  pub posted : Option (CommentRequest × ℕ)
  pub signed : Option PublicComment

unfoldable pub trim : Text → Text
trim s = trim_end (trim_start s)

unfoldable pub read_upload : FetchResult UploadReply → Result Text
read_upload (threw e) = err (fetch_message e)
read_upload (response r) = if r.is_ok then r.cid else err "Failed to upload comment content to IPFS"
