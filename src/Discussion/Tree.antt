-- ===== src/Discussion/Tree.antt =====
-- lib/comments.ts: the tree that the loops build, against the flat list.
use mathlib.Core.Path.{fun_ext}
use mathlib.Core.Option
use zkvote.Prelude.{
  ℕ, String, ◌≡◌, refl, ap, ap₂, ◌∙◌, Bool, true, false, ◌||◌, Option, none, some, List, [], ◌∷◌,
  ◌==◌, if◌then◌else◌, arith, sort_by, sort_by_sorted, any-sort_by, sort_by-IsSorted,
}
use zkvote.Discussion.Flat.{last_with, time_in, time_of_info, root_ids, replies_to, is_in, shown}
use zkvote.Discussion.Lookup.{
  or_else, add_replies, find-change, find-initialize, find-build_structure,
  root_comments-build_structure,
}
use zkvote.Discussion.{
  CommentInfo, CommentWithContent, CommentMap, CommentMetadata, CommentTree, find, change,
  with_content, initialize, build_structure, time_of, created_at, newest_first, oldest_first,
  sort_replies, sort_all_replies, sort_tree, build_comment_tree,
}

module _ (time : ℕ → ℕ) where
  sort_replies_again :
      (c : CommentWithContent) → sort_replies time (sort_replies time c) ≡ sort_replies time c
  sort_replies_again c =
      ap {A = List ℕ} {B = CommentWithContent}
        (λ js. record {
          info = c.info;
          content = c.content;
          replies = js;
          is_collapsed = c.is_collapsed;
        })
        (sort_by_sorted (oldest_first time) (sort_by (oldest_first time) c.replies)
          (sort_by-IsSorted (oldest_first time) (λ x y h. ground arith) c.replies))

  -- An object is sorted at its first occurrence, and again at each other one.
  sort_replies_once :
      (a b : Bool) (o : Option CommentWithContent)
      → (if b
          then Option.map (sort_replies time) (if a then Option.map (sort_replies time) o else o)
          else (if a then Option.map (sort_replies time) o else o))
        ≡ (if a || b then Option.map (sort_replies time) o else o)
  sort_replies_once true true none = refl
  sort_replies_once true true (some c) =
      ap {B = Option CommentWithContent} some (sort_replies_again c)
  sort_replies_once true false o = refl
  sort_replies_once false true o = refl
  sort_replies_once false false o = refl

  time_of-sort_replies :
      (b : Bool) (o : Option CommentWithContent)
      → time_of (if b then Option.map (sort_replies time) o else o) ≡ time_of o
  time_of-sort_replies true none = refl
  time_of-sort_replies true (some c) = refl
  time_of-sort_replies false o = refl

  find-sort_all_replies :
      (i : ℕ) (roots : List ℕ) (m : CommentMap)
      → created_at m ≡ time
      → find i (sort_all_replies roots m)
        ≡ (if is_in i roots then Option.map (sort_replies time) (find i m) else find i m)
  unfolding sort_all_replies
  find-sort_all_replies i [] m h = refl
  find-sort_all_replies i (j ∷ roots) m h =
      let m' : CommentMap = change j (sort_replies time) m in
      let h' : created_at m' ≡ time =
        fun_ext (λ k.
          ap time_of (find-change k j (sort_replies time) m)
          ∙ time_of-sort_replies (j == k) (find k m))
        ∙ h in
      ap (λ t. find i (sort_all_replies roots (change j (sort_replies t) m))) h
      ∙ (find-sort_all_replies i roots m' h'
          ∙ (ap (λ o. if is_in i roots then Option.map (sort_replies time) o else o)
                (find-change i j (sort_replies time) m)
              ∙ sort_replies_once (j == i) (is_in i roots) (find i m)))

-- The object that the first two loops leave under an id.
abbrev linked :
    List CommentInfo → (String → Option CommentMetadata) → ℕ → CommentInfo → CommentWithContent
linked comments content_map i c = record {
  info = c;
  content = content_map c.content_cid;
  replies = replies_to i comments;
  is_collapsed = false;
}

module _ (comments : List CommentInfo) (content_map : String → Option CommentMetadata) where
  abbrev structure : CommentTree
  structure =
      build_structure comments
        (record { root_comments = []; comment_map = initialize content_map comments [] })

  find_structure :
      (i : ℕ)
      → find i structure.comment_map
        ≡ Option.map (linked comments content_map i) (last_with i comments)
  unfolding add_replies
  find_structure i =
      find-build_structure i comments
        (record { root_comments = []; comment_map = initialize content_map comments [] })
      ∙ (ap (Option.map (add_replies (replies_to i comments)))
            (find-initialize i content_map comments [])
          ∙ simplify (last_with i comments))
    where
      simplify :
          (o : Option CommentInfo)
          → Option.map
              (add_replies (replies_to i comments))
              (or_else (Option.map (with_content content_map) o) none)
            ≡ Option.map (linked comments content_map i) o
      simplify none = refl
      simplify (some c) = refl

  created_at_structure : created_at structure.comment_map ≡ time_in comments
  created_at_structure =
      fun_ext (λ i. ap time_of (find_structure i) ∙ simplify i (last_with i comments))
    where
      simplify :
          (i : ℕ) (o : Option CommentInfo)
          → time_of (Option.map (linked comments content_map i) o) ≡ time_of_info o
      simplify i none = refl
      simplify i (some c) = refl

  roots_structure :
      sort_by (newest_first (created_at structure.comment_map)) structure.root_comments
      ≡ sort_by (newest_first (time_in comments)) (root_ids comments)
  roots_structure =
      ap₂ (λ (time : ℕ → ℕ) (roots : List ℕ). sort_by (newest_first time) roots)
        created_at_structure
        (root_comments-build_structure comments
          (record { root_comments = []; comment_map = initialize content_map comments [] }))

  is_in-roots_structure :
      (i : ℕ)
      → is_in i (sort_by (newest_first (created_at structure.comment_map)) structure.root_comments)
        ≡ is_in i (root_ids comments)
  is_in-roots_structure i =
      any-sort_by (newest_first (created_at structure.comment_map)) (λ j. j == i)
        structure.root_comments
      ∙ ap (is_in i) (
          root_comments-build_structure comments
            (record { root_comments = []; comment_map = initialize content_map comments [] }))

  sorted_linked :
      (i : ℕ) (b : Bool) (o : Option CommentInfo)
      → is_in i (root_ids comments) ≡ b
      → (if b
          then Option.map
              (sort_replies (time_in comments))
              (Option.map (linked comments content_map i) o)
          else Option.map (linked comments content_map i) o)
        ≡ Option.map (shown comments content_map i) o
  sorted_linked i true none h = refl
  sorted_linked i false none h = refl
  sorted_linked i true (some c) h = rw h refl
  sorted_linked i false (some c) h = rw h refl

  -- The tree shows the root comments' ids, newest first, and under each id of the list the object of the last
  -- comment with it: its content, and as replies the ids of the comments with it as their parent, by time
  -- (oldest first) under a root comment, and in the order of the list under any other comment, where the
  -- source's comment promises the oldest first too. Under any other id there is nothing.
  pub build_comment_tree_shows :
      ((build_comment_tree comments content_map).root_comments
        ≡ sort_by (newest_first (time_in comments)) (root_ids comments))
      × ((i : ℕ)
          → find i (build_comment_tree comments content_map).comment_map
            ≡ Option.map (shown comments content_map i) (last_with i comments))
  unfolding build_comment_tree sort_tree
  build_comment_tree_shows = (
    roots_structure,
    λ i.
        find-sort_all_replies (time_in comments) i
          (sort_by (newest_first (created_at structure.comment_map)) structure.root_comments)
          structure.comment_map created_at_structure
        ∙ rw (is_in-roots_structure i, find_structure i)
            (sorted_linked i (is_in i (root_ids comments)) (last_with i comments) refl),
  )
