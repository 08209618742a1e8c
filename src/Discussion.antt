-- ===== src/Discussion.antt =====
-- frontend/src/lib/comments.ts: comments, the tree that the page shows, and the texts of times and
-- addresses.
pub mod Flat
mod Lookup
pub mod Tree
pub mod Shown
use zkvote.Prelude.{
  ℕ, ◌+◌, ◌-◌, ◌*◌, ◌/◌, String, Bool, true, false, not, ◌&&◌, Option, none, some, List, [], ◌∷◌,
  ◌++◌, leb, ltb, take, drop, length, codes, ◌==◌, if◌then◌else◌, sort_by,
}
use zkvote.Hex.{Text}

pub record CommentMetadata : Type 0 where
  pub body : String
  pub created_at : String

pub data Deleter : Type 0 where
  user : Deleter
  admin : Deleter

pub record CommentInfo : Type 0 where
  pub id : ℕ
  pub author : Option String
  pub content_cid : String
  pub parent_id : Option ℕ
  pub created_at : ℕ
  pub updated_at : ℕ
  pub revision_cids : List String
  pub deleted : Bool
  pub deleted_by : Option Deleter
  pub nullifier : Option String

-- CommentWithContent: the objects refer to their replies by the keys of `comment_map`, which holds one
-- object for each id.
pub record CommentWithContent : Type 0 where
  pub info : CommentInfo
  pub content : Option CommentMetadata
  pub replies : List ℕ
  pub is_collapsed : Bool

abbrev pub CommentMap : Type 0
CommentMap = List (ℕ × CommentWithContent)

-- `commentMap.get`
abbrev pub find : ℕ → CommentMap → Option CommentWithContent
find j [] = none
find j ((k, v) ∷ entries) = if k == j then some v else find j entries

-- `commentMap.set`
unfoldable pub put : ℕ → CommentWithContent → CommentMap → CommentMap
put j v [] = (j, v) ∷ []
put j v ((k, w) ∷ entries) = if k == j then (k, v) ∷ entries else (k, w) ∷ put j v entries

-- A change of the object with a key; a key that is missing changes nothing.
unfoldable pub change : ℕ → (CommentWithContent → CommentWithContent) → CommentMap → CommentMap
change j f [] = []
change j f ((k, v) ∷ entries) = if k == j then (k, f v) ∷ entries else (k, v) ∷ change j f entries

-- The object that the first loop stores. `content_map` gives none where the map has no content, or null.
abbrev pub with_content : (String → Option CommentMetadata) → CommentInfo → CommentWithContent
with_content content_map c = record {
  info = c;
  content = content_map c.content_cid;
  replies = [];
  is_collapsed = false;
}

unfoldable pub initialize :
    (String → Option CommentMetadata) → List CommentInfo → CommentMap → CommentMap
initialize content_map [] comment_map = comment_map
initialize content_map (c ∷ comments) comment_map =
    initialize content_map comments (put c.id (with_content content_map c) comment_map)

pub record CommentTree : Type 0 where
  pub root_comments : List ℕ
  pub comment_map : CommentMap

abbrev pub is_root_parent : Option ℕ → Bool
is_root_parent none = true
is_root_parent (some p) = p == 0

-- `replies.push`
abbrev pub push_reply : ℕ → CommentWithContent → CommentWithContent
push_reply j c = record {
  info = c.info;
  content = c.content;
  replies = c.replies ++ (j ∷ []);
  is_collapsed = c.is_collapsed;
}

-- One round of the second loop, by the comment's id and parent.
unfoldable pub attach : ℕ → Option ℕ → CommentTree → CommentTree
attach j none tree = record {
  root_comments = tree.root_comments ++ (j ∷ []);
  comment_map = tree.comment_map;
}
attach j (some p) tree =
    if p == 0
    then record { root_comments = tree.root_comments ++ (j ∷ []); comment_map = tree.comment_map }
    else record {
      root_comments = tree.root_comments;
      comment_map = change p (push_reply j) tree.comment_map;
    }

unfoldable pub build_structure : List CommentInfo → CommentTree → CommentTree
build_structure [] tree = tree
build_structure (c ∷ comments) tree = build_structure comments (attach c.id c.parent_id tree)

-- The time of a reference: every reference is a key.
abbrev pub time_of : Option CommentWithContent → ℕ
time_of none = 0
time_of (some c) = c.info.created_at

abbrev pub created_at : CommentMap → ℕ → ℕ
created_at comment_map j = time_of (find j comment_map)

-- `b.createdAt - a.createdAt` is not positive, so that `a` may stay before `b`.
abbrev pub newest_first : (ℕ → ℕ) → ℕ → ℕ → Bool
newest_first time a b = leb (time b) (time a)

abbrev pub oldest_first : (ℕ → ℕ) → ℕ → ℕ → Bool
oldest_first time a b = leb (time a) (time b)

abbrev pub sort_replies : (ℕ → ℕ) → CommentWithContent → CommentWithContent
sort_replies time c = record {
  info = c.info;
  content = c.content;
  replies = sort_by (oldest_first time) c.replies;
  is_collapsed = c.is_collapsed;
}

-- `rootComments.forEach`: the replies of each root comment are sorted in place.
unfoldable pub sort_all_replies : List ℕ → CommentMap → CommentMap
sort_all_replies [] comment_map = comment_map
sort_all_replies (j ∷ roots) comment_map =
    sort_all_replies roots (change j (sort_replies (created_at comment_map)) comment_map)

unfoldable pub sort_tree : CommentTree → CommentTree
unfolding sort_all_replies
sort_tree tree =
    let roots = sort_by (newest_first (created_at tree.comment_map)) tree.root_comments in
    record { root_comments = roots; comment_map = sort_all_replies roots tree.comment_map }

-- The result holds references: what is reached from them in the map is what the source returns.
unfoldable pub build_comment_tree :
    List CommentInfo → (String → Option CommentMetadata) → CommentTree
unfolding initialize build_structure sort_tree
build_comment_tree comments content_map = sort_tree (
    build_structure comments
      (record { root_comments = []; comment_map = initialize content_map comments [] }))

-- `now` in seconds; the last answer is the date of the timestamp.
pub data RelativeTime : Type 0 where
  just_now : RelativeTime
  -- a count with its unit, which is a plural where the flag is set
  ago : ℕ → String → Bool → RelativeTime
  date_of : ℕ → RelativeTime

abbrev pub counted : ℕ → String → RelativeTime
counted n unit = ago n unit (not (n == 1))

-- A timestamp in the future has a negative difference, which is below 60.
unfoldable pub format_relative_time : ℕ → ℕ → RelativeTime
format_relative_time now timestamp =
    let diff = now - timestamp in
    if ltb diff 60
    then just_now
    else if ltb diff 3600
    then counted (diff / 60) "minute"
    else if ltb diff 86400
    then counted (diff / 3600) "hour"
    else if ltb diff 604800
    then counted (diff / 86400) "day"
    else date_of timestamp

unfoldable pub truncate_address : Text → Text
truncate_address address =
    if leb (length address) 12
    then address
    else take 6 address ++ (codes "..." ++ drop (length address - 4) address)
