-- ===== src/Discussion/Lookup.antt =====
-- lib/comments.ts: lookups in the map of comments after each change.
use mathlib.Core.Option
use zkvote.Prelude.{
  inl, inr, ℕ, String, ◌≡◌, refl, sym, ap, ◌∙◌, Bool, true, false, Option, none, some, List, [],
  ◌∷◌, ◌++◌, append-nil, append_assoc, ◌==◌, if◌then◌else◌, arith, Bool-cases,
}
use zkvote.Discussion.Flat.{last_with, root_ids, replies_to, is_reply_to}
use zkvote.Discussion.{
  CommentInfo, CommentWithContent, CommentMap, CommentMetadata, CommentTree, find, put, change,
  with_content, initialize, push_reply, is_root_parent, attach, build_structure,
}

pub find-put :
    (i j : ℕ) (v : CommentWithContent) (m : CommentMap)
    → find i (put j v m) ≡ (if j == i then some v else find i m)
unfolding put
find-put i j v [] = refl
find-put i j v ((k, w) ∷ m) = ground (arith, find-put i j v m)

pub find-change :
    (i j : ℕ) (f : CommentWithContent → CommentWithContent) (m : CommentMap)
    → find i (change j f m) ≡ (if j == i then Option.map f (find i m) else find i m)
unfolding change
find-change i j f [] = ground arith
find-change i j f ((k, v) ∷ m) = ground (arith, find-change i j f m)

abbrev pub or_else {ℓ} : {A : Type ℓ} → Option A → Option A → Option A
or_else none p = p
or_else (some a) p = some a

pub find-initialize :
    (i : ℕ) (content_map : String → Option CommentMetadata) (comments : List CommentInfo)
    (m : CommentMap)
    → find i (initialize content_map comments m)
      ≡ or_else (Option.map (with_content content_map) (last_with i comments)) (find i m)
unfolding initialize Option.rec
find-initialize i content_map [] m = refl
find-initialize i content_map (c ∷ comments) m = ground (
  arith,
  find-initialize i content_map comments (put c.id (with_content content_map c) m),
  find-put i c.id (with_content content_map c) m,
)

root_comments-attach :
    (j : ℕ) (parent : Option ℕ) (tree : CommentTree) (rest : List ℕ)
    → (attach j parent tree).root_comments ++ rest
      ≡ tree.root_comments ++ (if is_root_parent parent then j ∷ rest else rest)
unfolding attach
root_comments-attach j none tree rest = append_assoc tree.root_comments (j ∷ []) rest
root_comments-attach j (some p) tree rest = elim (Bool-cases (p == 0)) [
  | inl h ↦ rw h (append_assoc tree.root_comments (j ∷ []) rest)
  | inr h ↦ rw h refl
]

pub root_comments-build_structure :
    (comments : List CommentInfo) (tree : CommentTree)
    → (build_structure comments tree).root_comments ≡ tree.root_comments ++ root_ids comments
unfolding build_structure
root_comments-build_structure [] tree = sym (append-nil tree.root_comments)
root_comments-build_structure (c ∷ comments) tree =
    root_comments-build_structure comments (attach c.id c.parent_id tree)
    ∙ root_comments-attach c.id c.parent_id tree (root_ids comments)

unfoldable pub add_replies : List ℕ → CommentWithContent → CommentWithContent
add_replies js c = record {
  info = c.info;
  content = c.content;
  replies = c.replies ++ js;
  is_collapsed = c.is_collapsed;
}

add_replies_nil : (o : Option CommentWithContent) → o ≡ Option.map (add_replies []) o
unfolding add_replies
add_replies_nil none = refl
add_replies_nil (some c) =
    ap {A = List ℕ} {B = Option CommentWithContent}
      (λ js. some (record {
        info = c.info;
        content = c.content;
        replies = js;
        is_collapsed = c.is_collapsed;
      }))
      (sym (append-nil c.replies))

-- What one round of the loop adds, and what the other rounds add after it.
add_replies-attach :
    (b : Bool) (j : ℕ) (js : List ℕ) (o : Option CommentWithContent)
    → Option.map (add_replies js) (if b then Option.map (push_reply j) o else o)
      ≡ Option.map (add_replies (if b then j ∷ js else js)) o
unfolding add_replies
add_replies-attach true j js none = refl
add_replies-attach false j js none = refl
add_replies-attach true j js (some c) =
    ap {A = List ℕ} {B = Option CommentWithContent}
      (λ js. some (record {
        info = c.info;
        content = c.content;
        replies = js;
        is_collapsed = c.is_collapsed;
      }))
      (append_assoc c.replies (j ∷ []) js)
add_replies-attach false j js (some c) = refl

find-attach :
    (i j : ℕ) (parent : Option ℕ) (tree : CommentTree)
    → find i (attach j parent tree).comment_map ≡ (
        if is_reply_to i parent
        then Option.map (push_reply j) (find i tree.comment_map)
        else find i tree.comment_map)
unfolding attach
find-attach i j none tree = refl
find-attach i j (some p) tree = elim (Bool-cases (p == 0)) [
  | inl h ↦ rw h refl
  | inr h ↦ rw h (find-change i p (push_reply j) tree.comment_map)
]

pub find-build_structure :
    (i : ℕ) (comments : List CommentInfo) (tree : CommentTree)
    → find i (build_structure comments tree).comment_map
      ≡ Option.map (add_replies (replies_to i comments)) (find i tree.comment_map)
unfolding build_structure
find-build_structure i [] tree = add_replies_nil (find i tree.comment_map)
find-build_structure i (c ∷ comments) tree =
    find-build_structure i comments (attach c.id c.parent_id tree)
    ∙ (ap (Option.map (add_replies (replies_to i comments))) (find-attach i c.id c.parent_id tree)
        ∙ add_replies-attach (is_reply_to i c.parent_id) c.id (replies_to i comments)
            (find i tree.comment_map))
