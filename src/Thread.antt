-- ===== src/Thread.antt =====
-- frontend/src/components/Comment.tsx: what may be done with a listed comment, and the handlers for editing and deleting
-- it, with editComment and deleteComment of lib/comments.ts. The contract call that the wallet signs is a parameter.
pub mod Listed
use zkvote.Prelude.{
  ℕ, String, Bool, true, false, not, ◌&&◌, ◌||◌, Option, none, some, List, [], ◌∷◌, Result, ok, err,
  ◌==◌, ltb, length, str_eq, same_text, if◌then◌else◌,
}
use zkvote.Hex.{Text}
use zkvote.Client.{RelayerState, Attempt, relayer_fetch}
use zkvote.Browser.{Storage, can_edit_anonymous_comment}
use zkvote.Relay.Listing.{ListedComment, JsonValue, json_null, json_number, json_text}
use zkvote.Commenting.{UploadReply, trim, read_upload}

abbrev pub is_author : Option Text → Text → Bool
is_author none key = false
is_author (some author) key = same_text author key

abbrev pub has_record : ℕ → ℕ → Storage → Option Text → Option Text → Bool
has_record dao_id proposal_id storage (some author) nullifier = false
has_record dao_id proposal_id storage none none = false
has_record dao_id proposal_id storage none (some nullifier) =
    not (length nullifier == 0) && can_edit_anonymous_comment dao_id proposal_id nullifier storage

-- What the page knows of the viewer.
pub record Viewer : Type 0 where
  pub dao_id : ℕ
  pub proposal_id : ℕ
  pub public_key : Text
  pub has_membership : Bool
  pub is_admin : Bool
  pub depth : ℕ

pub record Permissions : Type 0 where
  pub is_own_comment : Bool
  pub can_edit : Bool
  pub can_delete : Bool
  pub can_reply : Bool
  pub can_view_history : Bool

unfoldable pub permissions : Viewer → Storage → ListedComment → Permissions
permissions v storage c = record {
  is_own_comment =
      is_author c.author v.public_key
      || has_record v.dao_id v.proposal_id storage c.author c.nullifier;
  can_edit = is_author c.author v.public_key && not c.deleted;
  can_delete = (is_author c.author v.public_key || v.is_admin) && not c.deleted;
  can_reply = v.depth == 0 && v.has_membership && not c.deleted;
  can_view_history =
      ltb 0 (length c.revision_cids) || (c.deleted && not (length c.content_cid == 0));
}

-- `comment.deletedBy === "admin" ? "admin" : "user"`
unfoldable pub shown_deleter : JsonValue → String
shown_deleter json_null = "user"
shown_deleter (json_number n) = "user"
shown_deleter (json_text s) = if str_eq s "admin" then "admin" else "user"

-- The call that the wallet is asked to sign.
pub data Call : Type 0 where
  edit_call : ℕ → ℕ → ℕ → Text → Text → Call
  delete_call : ℕ → ℕ → ℕ → Text → Call

-- The title of the alert, whether the edit field and the question are still open, whether `onRefresh` was called, the
-- connection's state, and the call that was built.
pub record Handled : Type 0 where
  pub alert : Option String
  pub is_editing : Bool
  pub show_delete_confirm : Bool
  pub refreshed : Bool
  pub relayer : RelayerState
  pub called : Option Call

abbrev pub deleted_by_call : RelayerState → Call → Result (Unit {0}) → Handled
deleted_by_call relayer call (ok u) = record {
  alert = none;
  is_editing = false;
  show_delete_confirm = false;
  refreshed = true;
  relayer = relayer;
  called = some call;
}
deleted_by_call relayer call (err e) = record {
  alert = some "Delete Failed";
  is_editing = false;
  show_delete_confirm = false;
  refreshed = false;
  relayer = relayer;
  called = some call;
}

-- `handleDeleteConfirm`; without a wallet nothing is asked. An account with no key has no contract clients.
unfoldable pub handle_delete_confirm :
    (Call → Result (Unit {0})) → Bool → Viewer → ListedComment → RelayerState → Handled
handle_delete_confirm sign has_kit v c relayer =
    let call = delete_call v.dao_id v.proposal_id c.id v.public_key in
    if not has_kit || length v.public_key == 0
    then record {
      alert = some "Wallet Required";
      is_editing = false;
      show_delete_confirm = false;
      refreshed = false;
      relayer = relayer;
      called = none;
    }
    else deleted_by_call relayer call (sign call)

abbrev pub editing_failed : RelayerState → Option Call → String → Handled
editing_failed relayer call title = record {
  alert = some title;
  is_editing = true;
  show_delete_confirm = false;
  refreshed = false;
  relayer = relayer;
  called = call;
}

abbrev pub edited_by_call : RelayerState → Call → Result (Unit {0}) → Handled
edited_by_call relayer call (ok u) = record {
  alert = none;
  is_editing = false;
  show_delete_confirm = false;
  refreshed = true;
  relayer = relayer;
  called = some call;
}
edited_by_call relayer call (err e) = editing_failed relayer (some call) "Edit Failed"

abbrev pub edited_content :
    (Call → Result (Unit {0})) → Viewer → ListedComment → RelayerState → Result Text → Handled
edited_content sign v c relayer (err e) = editing_failed relayer none "Edit Failed"
edited_content sign v c relayer (ok cid) =
    let call = edit_call v.dao_id v.proposal_id c.id cid v.public_key in
    edited_by_call relayer call (sign call)

-- `handleSaveEdit` of the text in the field, at `now`.
unfoldable pub handle_save_edit :
    (Call → Result (Unit {0}))
    → (Text → ℕ → Attempt UploadReply)
    → Bool
    → Viewer
    → ListedComment
    → Text
    → ℕ
    → RelayerState
    → Handled
unfolding trim read_upload
handle_save_edit sign upload has_kit v c text now relayer =
    if length (trim text) == 0
    then record {
      alert = none;
      is_editing = true;
      show_delete_confirm = false;
      refreshed = false;
      relayer = relayer;
      called = none;
    }
    else if not has_kit || length v.public_key == 0
    then editing_failed relayer none "Wallet Required"
    else (let f = relayer_fetch (upload (trim text)) 3 false now relayer in
        edited_content sign v c f.state (read_upload f.result))
