-- ===== src/Examples/Commenting.antt =====
-- The comment form at concrete inputs.
use zkvote.Prelude.{◌≡◌, refl, codes, true, none, some, [], ◌∷◌, ok, arith}
use zkvote.Hex.{Text, pad_start, to_hex}
use zkvote.Slug.{trim_start, trim_end}
use zkvote.Stellar.{U256Parts}
use zkvote.Stellar.Words.{u256_value}
use zkvote.Validation.{ipfs_cid}
use zkvote.Zkproof.{to_hex_be, format_proof_for_soroban}
use zkvote.Indexer.{success}
use zkvote.Relay.{call_with_timeout, simulate_with_backoff, wait_for_transaction, poll_transaction}
use zkvote.Relay.VoteLaws.{Landed}
use zkvote.Relay.Comments.{
  CommentRequest, comment_labels, comment_validated, comment_operation, added,
}
use zkvote.Client.{initial_state, responded, relayer_fetch}
use zkvote.Commenting.{FormProps, Services}
use zkvote.Commenting.Anonymous.{comment_body, comment_nullifier, submit_anonymous}
use zkvote.Commenting.Form.{handle_submit}
use zkvote.Commenting.Linked.{handle_submit_reveals_vote}
use zkvote.Commenting.Request.{encoded_args, comment_body_lands}
use zkvote.Examples.Encoding.{snark_proof, snark_proof_fits}
use zkvote.Examples.Routes.{show, config, rpc, to_number}
use zkvote.Examples.Voting.{
  network, account, credentials, stored, storage, world, props, posted_body, stored_credentials,
  first_vote,
}

abbrev pub form : FormProps
form = record {
  dao_id = 1;
  proposal_id = 2;
  public_key = account;
  eligible_root = 77;
  parent_id = some 4;
}

abbrev cid : Text
cid = codes "QmYwAPJzv5CZsnA625s3Xf2nemtYgPpHdWEz79ojWKPbdG"

cid_accepted : ipfs_cid cid ≡ true
unfolding ipfs_cid
cid_accepted = refl

abbrev pub services : Services
services = record {
  upload =
      λ text i. record { took = 100; answer = responded (record { is_ok = true; cid = ok cid }) };
  post_comment = λ body i. record {
    took = 200;
    answer =
        responded
          (record { is_ok = true; json = ok (record { error = none; comment_id = some 6 }) });
  };
  add_comment = λ c. ok tt;
}

abbrev comment : CommentRequest
comment =
    comment_body form cid (comment_nullifier world form credentials) credentials
      (snark_proof, 77 ∷ [])

comment_posted :
    (handle_submit world services form
      (codes " Well done ")
      true
      network
      1000
      2000
      3000
      storage
      initial_state).posted
    ≡ some (comment, 1)
unfolding handle_submit submit_anonymous trim_end to_hex_be format_proof_for_soroban trim_start
    pad_start relayer_fetch to_hex
comment_posted = rw stored_credentials refl

pub comment_shown :
    (handle_submit world services form
      (codes " Well done ")
      true
      network
      1000
      2000
      3000
      storage
      initial_state).message
    ≡ none
unfolding handle_submit submit_anonymous trim_end trim_start relayer_fetch
comment_shown = rw stored_credentials refl

handle_submit_reveals_vote_example :
    (comment.nullifier ≡ posted_body.nullifier)
    × (comment.commitment ≡ to_hex_be stored.credentials.commitment)
handle_submit_reveals_vote_example =
    handle_submit_reveals_vote world world services form props (codes " Well done ") network network
      1000 2000 3000 2000 3000 true storage storage storage storage initial_state initial_state
      stored comment posted_body 1 2 refl refl refl stored_credentials stored_credentials
      comment_posted first_vote.posts

comment_lands : Landed show config rpc comment_labels "aa" (success 77)
unfolding call_with_timeout simulate_with_backoff wait_for_transaction poll_transaction
comment_lands = record {
  value = some 6;
  account = refl;
  simulation = refl;
  sending = refl;
  awaited = refl;
}

comment_body_lands_example :
    (u v t : U256Parts) × (u256_value u ≡ 42)
    × (u256_value v ≡ 77)
    × (u256_value t ≡ credentials.commitment)
    × (comment_validated show to_number config rpc
          (comment_body form cid 42 credentials (snark_proof, []))
        ≡ record {
          sent = comment_operation (encoded_args form cid u v t snark_proof) ∷ [];
          response = record { status = 200; body = added (some 6) "aa" };
        })
unfolding comment_lands
comment_body_lands_example =
    comment_body_lands show to_number config rpc "aa" 77 form cid 42 credentials snark_proof []
      comment_lands (some 6) (omega arith) (omega arith) (omega arith) cid_accepted (omega arith)
      (omega arith) (omega arith) snark_proof_fits refl refl refl
