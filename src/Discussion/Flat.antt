-- ===== src/Discussion/Flat.antt =====
-- lib/comments.ts: what the flat list of comments says of a tree, with no map of objects.
use mathlib.Core.Option
use zkvote.Prelude.{
  ℕ, String, Bool, false, Option, none, some, List, [], ◌∷◌, ◌==◌, if◌then◌else◌, any, sort_by,
}
use zkvote.Discussion.{
  CommentInfo, CommentWithContent, CommentMetadata, is_root_parent, oldest_first,
}

-- The last comment of the list with an id.
abbrev pub last_with : ℕ → List CommentInfo → Option CommentInfo
last_with j [] = none
last_with j (c ∷ comments) =
    Option.rec (λ o. Option CommentInfo) (if c.id == j then some c else none) (λ d. some d)
      (last_with j comments)

abbrev pub time_of_info : Option CommentInfo → ℕ
time_of_info none = 0
time_of_info (some c) = c.created_at

abbrev pub time_in : List CommentInfo → ℕ → ℕ
time_in comments j = time_of_info (last_with j comments)

abbrev pub root_ids : List CommentInfo → List ℕ
root_ids [] = []
root_ids (c ∷ comments) =
    if is_root_parent c.parent_id then c.id ∷ root_ids comments else root_ids comments

-- A parent 0 stands for none.
abbrev pub is_reply_to : ℕ → Option ℕ → Bool
is_reply_to p none = false
is_reply_to p (some q) = if q == 0 then false else q == p

abbrev pub replies_to : ℕ → List CommentInfo → List ℕ
replies_to p [] = []
replies_to p (c ∷ comments) =
    if is_reply_to p c.parent_id then c.id ∷ replies_to p comments else replies_to p comments

abbrev pub is_in : ℕ → List ℕ → Bool
is_in j js = any (λ i. i == j) js

-- The object that is shown for a comment: its replies by time where it is a root comment, and in the order
-- of the list elsewhere.
abbrev pub shown :
    List CommentInfo → (String → Option CommentMetadata) → ℕ → CommentInfo → CommentWithContent
shown comments content_map j c = record {
  info = c;
  content = content_map c.content_cid;
  replies =
      if is_in j (root_ids comments)
      then sort_by (oldest_first (time_in comments)) (replies_to j comments)
      else replies_to j comments;
  is_collapsed = false;
}
