-- ===== src/Examples/Threads.antt =====
-- Listed comments at concrete inputs.
use zkvote.Prelude.{
  ℕ, ◌≡◌, refl, codes, true, false, none, some, List, [], ◌∷◌, ok, All, arith, ◌==◌,
}
use zkvote.Zkproof.{calculate_nullifier}
use zkvote.Relay.{simulated}
use zkvote.Relay.Reads.{Reader, json}
use zkvote.Relay.Listing.{NativeComment, null_id, transformed, get_comments}
use zkvote.Browser.{ZkCredentials}
use zkvote.ParseInt.{parse_int}
use zkvote.Slug.{trim_start}
use zkvote.Client.{initial_state}
use zkvote.Commenting.{Written}
use zkvote.Commenting.Anonymous.{comment_nullifier}
use zkvote.Commenting.Form.{handle_submit}
use zkvote.Commenting.Saved.{Accepted, handle_submit-Accepted}
use zkvote.Thread.{Viewer, permissions}
use zkvote.Thread.Listed.{ShownByUser, get_comments-ShownByUser, permissions-Accepted}
use zkvote.Examples.Voting.{network, account, storage, world}
use zkvote.Examples.Commenting.{services, form, comment_shown}

abbrev native : NativeComment
native = record {
  id = 1;
  dao_id = 1;
  proposal_id = 2;
  author = none;
  nullifier = some 42;
  content_cid = codes "Qm";
  parent_id = null_id;
  created_at = 100;
  updated_at = 100;
  revision_cids = none;
  deleted = true;
  deleted_by = 2;
}

abbrev ask : List ℕ → Reader (List NativeComment)
ask args = record {
  get_account = ok tt;
  simulate_transaction = ok (simulated (some (native ∷ [])));
}

one_listed :
    get_comments (λ v. ok v) ask (codes "1") (codes "2") none none ≡ json (transformed native ∷ [])
unfolding get_comments parse_int trim_start
one_listed = refl

get_comments-ShownByUser_example : All ShownByUser (transformed native ∷ [])
get_comments-ShownByUser_example =
    get_comments-ShownByUser (λ v. ok v) ask (codes "1") (codes "2") none none
      (transformed native ∷ []) one_listed

abbrev written : Written
written =
    handle_submit world services form (codes " Well done ") true network 1000 2000 3000 storage
      initial_state

accepted : Accepted world form written
accepted =
    handle_submit-Accepted world services form (codes " Well done ") network 1000 2000 3000 storage
      initial_state comment_shown

abbrev viewer : Viewer
viewer = record {
  dao_id = 1;
  proposal_id = 2;
  public_key = account;
  has_membership = true;
  is_admin = false;
  depth = 0;
}

nonzero : (c : ZkCredentials) → (comment_nullifier world form c == 0) ≡ false
unfolding comment_nullifier calculate_nullifier
nonzero c = ground arith

permissions-Accepted_example :
    (permissions viewer written.storage (
      transformed (record native {
        nullifier = some (comment_nullifier world form accepted.credentials);
      }))).is_own_comment
    ≡ true
permissions-Accepted_example =
    permissions-Accepted world form written accepted viewer
      (record native { nullifier = some (comment_nullifier world form accepted.credentials) }) refl
      refl refl refl (nonzero accepted.credentials)
