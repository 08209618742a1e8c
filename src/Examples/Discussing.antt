-- ===== src/Examples/Discussing.antt =====
-- A discussion at concrete comments: a root comment with two replies in the wrong order, and one reply to a
-- comment that is not there.
use zkvote.Prelude.{ℕ, ◌≡◌, refl, String, false, Option, none, some, List, [], ◌∷◌, sort_by}
use mathlib.Core.Option
use zkvote.Discussion.{CommentInfo, CommentMetadata, newest_first, find, build_comment_tree}
use zkvote.Discussion.Flat.{time_in, root_ids, last_with, shown}
use zkvote.Discussion.Tree.{build_comment_tree_shows}
use zkvote.Discussion.Shown.{IsReached, IsRooted, build_comment_tree_reaches}

abbrev comment : ℕ → Option ℕ → ℕ → CommentInfo
comment id parent_id created_at = record {
  id = id;
  author = none;
  content_cid = "cid";
  parent_id = parent_id;
  created_at = created_at;
  updated_at = created_at;
  revision_cids = [];
  deleted = false;
  deleted_by = none;
  nullifier = none;
}

abbrev comments : List CommentInfo
comments =
    comment 1 (some 0) 10
    ∷ comment 2 none 20
    ∷ comment 3 (some 1) 40
    ∷ comment 4 (some 1) 30
    ∷ comment 5 (some 9) 50
    ∷ []

abbrev no_content : String → Option CommentMetadata
no_content cid = none

build_comment_tree_shows_example :
    ((build_comment_tree comments no_content).root_comments
      ≡ sort_by (newest_first (time_in comments)) (root_ids comments))
    × ((i : ℕ)
        → find i (build_comment_tree comments no_content).comment_map
          ≡ Option.map (shown comments no_content i) (last_with i comments))
build_comment_tree_shows_example = build_comment_tree_shows comments no_content

four-IsReached : IsReached (build_comment_tree comments no_content) 4
four-IsReached =
    (build_comment_tree_reaches comments no_content 4).1
      (IsRooted.below {i = 1} (IsRooted.top refl) refl)
