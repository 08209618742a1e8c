-- ===== src/Thread/Listed.antt =====
-- CommentForm.tsx, comments.ts of the relayer and Comment.tsx together: listed comments as the page shows them.
use zkvote.Prelude.{
  ℕ, ◌≡◌, ◌≢◌, refl, ap, ◌∙◌, true, false, Option, none, some, List, [], ◌∷◌, Result, ok, err,
  bind-ok, map, All, length, ◌==◌, arith, subst, if_false,
}
use zkvote.Hex.{Text}
use zkvote.Decimal.{decimal, decimal_nonempty}
use zkvote.Relay.{SimResult, simulated, not_simulated}
use zkvote.Relay.Reads.{Reader, ReadAnswer, json}
use zkvote.Relay.Listing.{
  NativeComment, ListedComment, listed, transformed, shown_nullifier, or_null, list_args,
  caught_message, read_comments, get_comments,
}
use zkvote.Ballot.{World}
use zkvote.Commenting.{FormProps, Written}
use zkvote.Commenting.Anonymous.{comment_nullifier}
use zkvote.Commenting.Saved.{Accepted}
use zkvote.Thread.{Viewer, permissions, shown_deleter}

-- What every listed comment shows.
abbrev pub ShownByUser : ListedComment → Type 0
ShownByUser c = shown_deleter c.deleted_by ≡ "user"

transformed-ShownByUser : (natives : List NativeComment) → All ShownByUser (map transformed natives)
unfolding transformed listed shown_deleter
transformed-ShownByUser [] = tt
transformed-ShownByUser (c ∷ natives) = (refl, transformed-ShownByUser natives)

json_injective :
    {A : Type 0} (a b : A) → ◌≡◌ {A = Result (ReadAnswer A)} (ok (json a)) (ok (json b)) → a ≡ b
json_injective a b e = ground (arith, e)

read_comments-ShownByUser :
    {V : Type 0} (to_native : V → Result (List NativeComment)) (r : SimResult V)
    (comments : List ListedComment)
    → read_comments to_native r ≡ ok (json comments)
    → All ShownByUser comments
unfolding read_comments
read_comments-ShownByUser to_native (not_simulated e) comments h = absurd (ground (arith, h))
read_comments-ShownByUser to_native (simulated none) comments h =
    subst (All ShownByUser) (json_injective [] comments h) tt
read_comments-ShownByUser to_native (simulated (some v)) comments h =
    let (natives, read, is) = bind-ok (to_native v) _ (json comments) h in
    subst (All ShownByUser) (json_injective (map transformed natives) comments is)
      (transformed-ShownByUser natives)

caught_message-json :
    {A : Type 0} (r : Result (ReadAnswer A)) (a : A) → caught_message r ≡ json a → r ≡ ok (json a)
caught_message-json (ok b) a h = ap ok h
caught_message-json (err e) a h = absurd (ground (arith, h))

-- Each comment of a list that the relayer answers is shown, if it is deleted, as deleted by its user.
pub get_comments-ShownByUser :
    {V : Type 0} (to_native : V → Result (List NativeComment)) (ask : List ℕ → Reader V)
    (dao_id proposal_id : Text) (limit offset : Option Text) (comments : List ListedComment)
    → get_comments to_native ask dao_id proposal_id limit offset ≡ json comments
    → All ShownByUser comments
unfolding get_comments
get_comments-ShownByUser to_native ask dao_id proposal_id limit offset comments h =
    let all = caught_message-json _ comments h in
    let (args, encoded, h1) =
      bind-ok (list_args dao_id proposal_id limit offset) _ (json comments) all in
    let (account, loaded, h2) = bind-ok (ask args).get_account _ (json comments) h1 in
    let (sim, ran, h3) = bind-ok (ask args).simulate_transaction _ (json comments) h2 in
    read_comments-ShownByUser to_native sim comments h3

decimal_shown : (n : ℕ) → (length (decimal n) == 0) ≡ false
decimal_shown n = nonempty (decimal n) (decimal_nonempty n)
  where
    nonempty : (s : Text) → s ≢ [] → (length s == 0) ≡ false
    nonempty [] e = absurd (e refl)
    nonempty (c ∷ s) e = ground arith

-- When the comment form has accepted an anonymous comment, the comment that the relayer lists with its nullifier, if that
-- is not 0, and with no author is recognised as the viewer's own by the page, for the same DAO and proposal.
pub permissions-Accepted :
    (w : World) (p : FormProps) (r : Written) (a : Accepted w p r) (v : Viewer) (c : NativeComment)
    → v.dao_id ≡ p.dao_id
    → v.proposal_id ≡ p.proposal_id
    → c.author ≡ none
    → c.nullifier ≡ some (comment_nullifier w p a.credentials)
    → (comment_nullifier w p a.credentials == 0) ≡ false
    → (permissions v r.storage (transformed c)).is_own_comment ≡ true
unfolding permissions transformed listed
permissions-Accepted w p r a v c d q author has nonzero =
    let n : ℕ = comment_nullifier w p a.credentials in
    let shown : shown_nullifier c.nullifier ≡ some (decimal n) =
      ap shown_nullifier has ∙ if_false (n == 0) none (some (decimal n)) nonzero in
    let none_author : or_null c.author ≡ none = ap or_null author in
    rw (shown, none_author, d, q, decimal_shown n) a.can_edit
