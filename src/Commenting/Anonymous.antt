-- ===== src/Commenting/Anonymous.antt =====
-- CommentForm.tsx: the branch for an anonymous comment.
use zkvote.Prelude.{
  ℕ, String, true, false, Option, none, some, List, [], Result, ok, err, ◌>>=◌, str_eq,
  if◌then◌else◌,
}
use zkvote.Hex.{Text}
use zkvote.Decimal.{decimal}
use zkvote.Zkproof.{SnarkProof, to_hex_be, format_proof_for_soroban, calculate_nullifier}
use zkvote.Relay.Comments.{CommentRequest}
use zkvote.Client.{RelayerState, FetchResult, response, threw, relayer_fetch}
use zkvote.Browser.{
  ZkCredentials, Registration, Storage, get_zk_credentials, save_anonymous_comment,
}
use zkvote.Ballot.{World, Props, generate_vote_proof, generated, proof_input}
use zkvote.Ballot.Casting.{fetch_message}
use zkvote.Commenting.{
  FormProps, as_props, CommentData, CommentReply, PublicComment, Services, Written,
}

unfoldable pub regenerate :
    World
    → Text
    → ℕ
    → Props
    → Storage
    → Option (ℕ → Result ZkCredentials)
    → Result (ZkCredentials × ℕ) × Storage
regenerate w prefix now props storage none =
    (err "You must register for anonymous comments first.", storage)
regenerate w prefix now props storage (some generate) =
    generated w prefix now props storage (generate props.dao_id)

unfoldable pub cached_or_regenerated :
    World → Text → ℕ → Props → Option Registration × Storage → Result (ZkCredentials × ℕ) × Storage
unfolding regenerate
cached_or_regenerated w prefix now props (some r, storage) =
    (ok (r.credentials, r.leaf_index), storage)
cached_or_regenerated w prefix now props (none, storage) =
    regenerate w prefix now props storage w.kit

unfoldable pub comment_nullifier : World → FormProps → ZkCredentials → ℕ
comment_nullifier w p c = calculate_nullifier w.poseidon c.secret p.dao_id p.proposal_id

unfoldable pub comment_body :
    FormProps → Text → ℕ → ZkCredentials → SnarkProof × List ℕ → CommentRequest
comment_body p cid nullifier c (proof, signals) = record {
  dao_id = p.dao_id;
  proposal_id = p.proposal_id;
  content_cid = cid;
  parent_id = p.parent_id;
  vote_choice = false;
  nullifier = to_hex_be nullifier;
  root = to_hex_be p.eligible_root;
  commitment = to_hex_be c.commitment;
  proof = format_proof_for_soroban proof;
}

-- From the credentials to the body: Merkle path, nullifier, proof.
unfoldable pub prepare_comment :
    World → FormProps → Text → ZkCredentials × ℕ → Result CommentRequest
unfolding generate_vote_proof comment_body comment_nullifier
prepare_comment w p cid (c, leaf_index) =
    (w.get_merkle_path leaf_index p.dao_id >>= λ path.
    generate_vote_proof w (proof_input w (as_props p) false c p.eligible_root path) >>= λ proven.
    ok (comment_body p cid (comment_nullifier w p c) c proven))

-- `data.error || "..."`
abbrev pub refusal : Option String → String
refusal none = "Failed to submit anonymous comment"
refusal (some e) = if str_eq e "" then "Failed to submit anonymous comment" else e

unfoldable pub read_comment_reply : FetchResult CommentReply → Result CommentData
read_comment_reply (threw e) = err (fetch_message e)
read_comment_reply (response r) =
    r.json >>= λ answer. if r.is_ok then ok answer else err (refusal answer.error)

abbrev pub failed_with :
    Text
    → Storage
    → RelayerState
    → Option (CommentRequest × ℕ)
    → Option PublicComment
    → String
    → Written
failed_with text storage relayer posted signed e = record {
  message = some e;
  body = text;
  submitted = false;
  storage = storage;
  relayer = relayer;
  posted = posted;
  signed = signed;
}

abbrev pub cleared :
    Storage → RelayerState → Option (CommentRequest × ℕ) → Option PublicComment → Written
cleared storage relayer posted signed = record {
  message = none;
  body = [];
  submitted = true;
  storage = storage;
  relayer = relayer;
  posted = posted;
  signed = signed;
}

-- The record for editing and deleting holds the decimal text of the nullifier.
unfoldable pub saved : FormProps → ℕ → CommentData → Storage → Storage
saved p nullifier answer storage =
    save_anonymous_comment
      (record {
        comment_id = answer.comment_id;
        proposal_id = p.proposal_id;
        dao_id = p.dao_id;
        nullifier = decimal nullifier;
      })
      storage

unfoldable pub after_reply :
    FormProps
    → Text
    → ℕ
    → Storage
    → RelayerState
    → CommentRequest × ℕ
    → Result CommentData
    → Written
unfolding saved
after_reply p text nullifier storage relayer posted (err e) =
    failed_with text storage relayer (some posted) none e
after_reply p text nullifier storage relayer posted (ok answer) =
    cleared (saved p nullifier answer storage) relayer (some posted) none

-- The request goes out at `later`, with the default of 3 attempts.
unfoldable pub submit_comment :
    Services → FormProps → Text → ℕ → ℕ → Storage → RelayerState → Result CommentRequest → Written
unfolding read_comment_reply after_reply
submit_comment s p text later nullifier storage relayer (err e) =
    failed_with text storage relayer none none e
submit_comment s p text later nullifier storage relayer (ok body) =
    let f = relayer_fetch (s.post_comment body) 3 false later relayer in
    after_reply p text nullifier storage f.state (body, f.sent) (read_comment_reply f.result)

unfoldable pub with_credentials :
    World
    → Services
    → FormProps
    → Text
    → ℕ
    → Text
    → RelayerState
    → Result (ZkCredentials × ℕ) × Storage
    → Written
unfolding submit_comment prepare_comment comment_nullifier
with_credentials w s p text later cid relayer (err e, storage) =
    failed_with text storage relayer none none e
with_credentials w s p text later cid relayer (ok (c, leaf_index), storage) =
    submit_comment s p text later (comment_nullifier w p c) storage relayer
      (prepare_comment w p cid (c, leaf_index))

unfoldable pub submit_anonymous :
    World → Services → FormProps → Text → Text → ℕ → ℕ → Text → Storage → RelayerState → Written
unfolding with_credentials cached_or_regenerated
submit_anonymous w s p text prefix at later cid storage relayer =
    with_credentials w s p text later cid relayer (
      cached_or_regenerated w prefix at (as_props p)
        (get_zk_credentials prefix at p.dao_id p.public_key storage))
