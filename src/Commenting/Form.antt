-- ===== src/Commenting/Form.antt =====
-- CommentForm.tsx: the branch for a public comment, and the whole handler.
use zkvote.Prelude.{
  ℕ, Bool, false, Option, none, some, Result, ok, err, ◌==◌, length, if◌then◌else◌,
}
use zkvote.Hex.{Text}
use zkvote.Client.{RelayerState, relayer_fetch}
use zkvote.Browser.{ZkCredentials, Storage}
use zkvote.Ballot.{World}
use zkvote.Commenting.{FormProps, PublicComment, Services, Written, trim, read_upload}
use zkvote.Commenting.Anonymous.{failed_with, cleared, submit_anonymous}

abbrev pub public_comment : FormProps → Text → PublicComment
public_comment p cid = record {
  dao_id = p.dao_id;
  proposal_id = p.proposal_id;
  content_cid = cid;
  parent_id = p.parent_id;
  author = p.public_key;
}

abbrev pub after_signing :
    Text → Storage → RelayerState → PublicComment → Result (Unit {0}) → Written
after_signing text storage relayer c (ok u) = cleared storage relayer none (some c)
after_signing text storage relayer c (err e) = failed_with text storage relayer none (some c) e

unfoldable pub submit_public :
    Services
    → FormProps
    → Text
    → Text
    → Storage
    → RelayerState
    → Option (ℕ → Result ZkCredentials)
    → Written
submit_public s p text cid storage relayer none =
    failed_with text storage relayer none none
      "Wallet required for public comments. Please connect your wallet."
submit_public s p text cid storage relayer (some kit) =
    after_signing text storage relayer (public_comment p cid) (s.add_comment (public_comment p cid))

unfoldable pub after_upload :
    World
    → Services
    → FormProps
    → Text
    → Bool
    → Text
    → ℕ
    → ℕ
    → Storage
    → RelayerState
    → Result Text
    → Written
unfolding submit_anonymous submit_public
after_upload w s p text is_anonymous prefix at later storage relayer (err e) =
    failed_with text storage relayer none none e
after_upload w s p text is_anonymous prefix at later storage relayer (ok cid) =
    if is_anonymous
    then submit_anonymous w s p text prefix at later cid storage relayer
    else submit_public s p text cid storage relayer w.kit

-- `handleSubmit`, which uploads at `now`, reads the credentials at `at` and posts at `later`.
unfoldable pub handle_submit :
    World → Services → FormProps → Text → Bool → Text → ℕ → ℕ → ℕ → Storage → RelayerState → Written
unfolding after_upload read_upload trim
handle_submit w s p text is_anonymous prefix now at later storage relayer =
    if length (trim text) == 0
    then failed_with text storage relayer none none "Comment cannot be empty"
    else (let f = relayer_fetch (s.upload (trim text)) 3 false now relayer in
        after_upload w s p text is_anonymous prefix at later storage f.state (read_upload f.result))
