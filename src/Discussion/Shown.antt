-- ===== src/Discussion/Shown.antt =====
-- lib/comments.ts: which comments are reached from the roots of the tree.
use mathlib.Core.Option
use zkvote.Prelude.{
  ℕ, String, ◌≡◌, refl, sym, ap, ◌∙◌, ◌↔◌, inl, inr, Bool, true, false, ◌||◌, Option, none, some,
  List, [], ◌∷◌, ◌==◌, if◌then◌else◌, arith, any-sort_by, Bool-cases, Option-cases,
}
use zkvote.Discussion.Flat.{last_with, time_in, root_ids, replies_to, is_reply_to, is_in, shown}
use zkvote.Discussion.Tree.{build_comment_tree_shows}
use zkvote.Discussion.{
  CommentInfo, CommentWithContent, CommentMetadata, CommentTree, find, is_root_parent, newest_first,
  oldest_first, build_comment_tree,
}

-- An object that is reached from a root comment through replies.
pub data IsReached (tree : CommentTree) : ℕ → Type 0 where
  root : {j : ℕ} → is_in j tree.root_comments ≡ true → IsReached tree j
  reply :
      {i j : ℕ} {c : CommentWithContent}
      → IsReached tree i
      → find i tree.comment_map ≡ some c
      → is_in j c.replies ≡ true
      → IsReached tree j

-- The list has a comment with the id and a parent that the test takes.
abbrev pub has_comment : (Option ℕ → Bool) → ℕ → List CommentInfo → Bool
has_comment p j [] = false
has_comment p j (c ∷ comments) =
    (if p c.parent_id then c.id == j else false) || has_comment p j comments

-- The chain of parents, each of them in the list, ends in a root comment.
pub data IsRooted (comments : List CommentInfo) : ℕ → Type 0 where
  top : {j : ℕ} → has_comment is_root_parent j comments ≡ true → IsRooted comments j
  below :
      {i j : ℕ}
      → IsRooted comments i
      → has_comment (is_reply_to i) j comments ≡ true
      → IsRooted comments j

is_in-root_ids :
    (j : ℕ) (comments : List CommentInfo)
    → is_in j (root_ids comments) ≡ has_comment is_root_parent j comments
is_in-root_ids j [] = refl
is_in-root_ids j (c ∷ comments) = elim (Bool-cases (is_root_parent c.parent_id)) [
  | inl h ↦ rw h (ap (λ b. (c.id == j) || b) (is_in-root_ids j comments))
  | inr h ↦ rw h (is_in-root_ids j comments)
]

is_in-replies_to :
    (i j : ℕ) (comments : List CommentInfo)
    → is_in j (replies_to i comments) ≡ has_comment (is_reply_to i) j comments
is_in-replies_to i j [] = refl
is_in-replies_to i j (c ∷ comments) = elim (Bool-cases (is_reply_to i c.parent_id)) [
  | inl h ↦ rw h (ap (λ b. (c.id == j) || b) (is_in-replies_to i j comments))
  | inr h ↦ rw h (is_in-replies_to i j comments)
]

-- Some comment has an id that a test found.
has_comment_last :
    (p : Option ℕ → Bool) (j : ℕ) (comments : List CommentInfo)
    → has_comment p j comments ≡ true
    → (c : CommentInfo) × (last_with j comments ≡ some c)
unfolding Option.rec
has_comment_last p j [] h = absurd (ground arith)
has_comment_last p j (c ∷ comments) h = elim (Option-cases (last_with j comments)) [
  | inr (d, e) ↦ (d, rw e refl)
  | inl e ↦ elim (Bool-cases (c.id == j)) [
    | inl same ↦ (c, rw e (rw same refl))
    | inr other ↦
        let (d, f) = has_comment_last p j comments (ground arith) in absurd (ground (arith, e, f))
  ]
]

abbrev replies_of : Option CommentWithContent → List ℕ
replies_of none = []
replies_of (some c) = c.replies

module _ (comments : List CommentInfo) (content_map : String → Option CommentMetadata) where
  abbrev tree : CommentTree
  tree = build_comment_tree comments content_map

  rooted : {j : ℕ} → IsRooted comments j → (c : CommentInfo) × (last_with j comments ≡ some c)
  rooted (top {j} h) = has_comment_last is_root_parent j comments h
  rooted (below {i} {j} r h) = has_comment_last (is_reply_to i) j comments h

  is_in-replies :
      (i j : ℕ) (c : CommentInfo)
      → is_in j (shown comments content_map i c).replies ≡ has_comment (is_reply_to i) j comments
  is_in-replies i j c = elim (Bool-cases (is_in i (root_ids comments))) [
    | inl h ↦ rw h (
        any-sort_by (oldest_first (time_in comments)) (λ k. k == j) (replies_to i comments)
        ∙ is_in-replies_to i j comments)
    | inr h ↦ rw h (is_in-replies_to i j comments)
  ]

  has_reply :
      (i j : ℕ) (o : Option CommentInfo)
      → is_in j (replies_of (Option.map (shown comments content_map i) o)) ≡ true
      → has_comment (is_reply_to i) j comments ≡ true
  has_reply i j none h = absurd (ground arith)
  has_reply i j (some c) h = sym (is_in-replies i j c) ∙ h

  is_in-root_comments : (j : ℕ) → is_in j tree.root_comments ≡ has_comment is_root_parent j comments
  is_in-root_comments j =
      ap (is_in j) (build_comment_tree_shows comments content_map).0
      ∙ (any-sort_by (newest_first (time_in comments)) (λ k. k == j) (root_ids comments)
          ∙ is_in-root_ids j comments)

  rooted-IsReached : {j : ℕ} → IsRooted comments j → IsReached tree j
  rooted-IsReached (top {j} h) = root (is_in-root_comments j ∙ h)
  rooted-IsReached (below {i} {j} r h) =
      let (c, e) = rooted r in
      reply (rooted-IsReached r)
        ((build_comment_tree_shows comments content_map).1 i
          ∙ ap (Option.map (shown comments content_map i)) e)
        (is_in-replies i j c ∙ h)

  reached-IsRooted : {j : ℕ} → IsReached tree j → IsRooted comments j
  reached-IsRooted (root {j} h) = top (sym (is_in-root_comments j) ∙ h)
  reached-IsRooted (reply {i} {j} {c} r e h) = below (reached-IsRooted r) (
      has_reply i j (last_with i comments) (
        ap (λ o. is_in j (replies_of o))
          (sym ((build_comment_tree_shows comments content_map).1 i) ∙ e)
        ∙ h))

-- Exactly those comments are reached from the roots whose chain of parents, each of them in the list, ends
-- in a root comment.
pub build_comment_tree_reaches :
    (comments : List CommentInfo) (content_map : String → Option CommentMetadata) (j : ℕ)
    → IsReached (build_comment_tree comments content_map) j ↔ IsRooted comments j
build_comment_tree_reaches comments content_map j =
    (reached-IsRooted comments content_map, rooted-IsReached comments content_map)
