-- ===== src/Commenting/Saved.antt =====
-- CommentForm.tsx and lib/comments.ts together: the record that an anonymous comment leaves in the browser.
use zkvote.Prelude.{
  ℕ, ◌≡◌, refl, sym, ap, ◌∙◌, Bool, true, false, Option, none, some, ok, err, Result, inl, inr,
  arith, any, any-append, if_true, subst, same_text, same_text_refl, ◌==◌, ◌&&◌, ◌||◌, [], ◌∷◌,
  ◌++◌,
}
use zkvote.Hex.{Text}
use zkvote.Decimal.{decimal}
use zkvote.Relay.Comments.{CommentRequest}
use zkvote.Client.{RelayerState, Fetched, relayer_fetch}
use zkvote.Browser.{
  ZkCredentials, Item, Storage, AnonymousCommentRecord, save_anonymous_comment,
  can_edit_anonymous_comment, get_anonymous_comments_all, anonymous_comments, anon_comments_key,
  get_item, comments_of, get_zk_credentials,
}
use zkvote.Browser.Keys.{get_item-set_item}
use zkvote.Ballot.{World}
use zkvote.Commenting.{FormProps, as_props, CommentData, CommentReply, Services, Written}
use zkvote.Commenting.Anonymous.{
  comment_nullifier, saved, after_reply, cleared, submit_comment, prepare_comment, with_credentials,
  submit_anonymous, cached_or_regenerated, read_comment_reply,
}
use zkvote.Commenting.Form.{handle_submit}
use zkvote.Commenting.Posted.{
  IsComment, handle_submit-cases, found_by_anonymous, posted-after_reply,
}

-- The stored records after one more.
get_anonymous_comments_all-save :
    (r : AnonymousCommentRecord) (storage : Storage)
    → get_anonymous_comments_all (save_anonymous_comment r storage)
      ≡ get_anonymous_comments_all storage ++ r ∷ []
unfolding get_anonymous_comments_all save_anonymous_comment
get_anonymous_comments_all-save r storage = ap comments_of (
    get_item-set_item anon_comments_key anon_comments_key
      (anonymous_comments (get_anonymous_comments_all storage ++ r ∷ [])) storage
    ∙ if_true {A = Option Item} (same_text anon_comments_key anon_comments_key)
        (some (anonymous_comments (get_anonymous_comments_all storage ++ r ∷ [])))
        (get_item anon_comments_key storage) (same_text_refl anon_comments_key))

last_of : (b c d : Bool) → b ≡ true → c ≡ true → d ≡ true → ((b && (c && d)) || false) ≡ true
last_of b c d p q r = ground arith

can_edit-saved :
    (p : FormProps) (n : ℕ) (answer : CommentData) (storage : Storage)
    → can_edit_anonymous_comment p.dao_id p.proposal_id (decimal n) (saved p n answer storage)
      ≡ true
unfolding can_edit_anonymous_comment saved
can_edit-saved p n answer storage =
    let test : AnonymousCommentRecord → Bool = λ r.
      r.dao_id == p.dao_id
      && (r.proposal_id == p.proposal_id && same_text r.nullifier (decimal n)) in
    let r : AnonymousCommentRecord = record {
      comment_id = answer.comment_id;
      proposal_id = p.proposal_id;
      dao_id = p.dao_id;
      nullifier = decimal n;
    } in
    let last : any test (r ∷ []) ≡ true =
      last_of (p.dao_id == p.dao_id) (p.proposal_id == p.proposal_id)
        (same_text (decimal n) (decimal n)) (ground arith) (ground arith)
        (same_text_refl (decimal n)) in
    let both : any test (get_anonymous_comments_all storage ++ r ∷ []) ≡ true =
      any-append test (get_anonymous_comments_all storage) (r ∷ []) ∙ ground (arith, last) in
    ap (any test) (get_anonymous_comments_all-save r storage) ∙ both

-- A handling that showed no error posted a body.
after_reply-cleared :
    (p : FormProps) (text : Text) (n : ℕ) (storage : Storage) (relayer : RelayerState)
    (posted : CommentRequest × ℕ) (r : Result CommentData)
    → (after_reply p text n storage relayer posted r).message ≡ none
    → (answer : CommentData) × (after_reply p text n storage relayer posted r
        ≡ cleared (saved p n answer storage) relayer (some posted) none)
unfolding after_reply
after_reply-cleared p text n storage relayer posted (err e) h = absurd (ground (arith, h))
after_reply-cleared p text n storage relayer posted (ok answer) h = (answer, refl)

submit_comment-posted :
    (s : Services) (p : FormProps) (text : Text) (later n : ℕ) (storage : Storage)
    (relayer : RelayerState) (r : Result CommentRequest)
    → (submit_comment s p text later n storage relayer r).message ≡ none
    → (body : CommentRequest) × (sent : ℕ) × ((submit_comment s p text later n storage relayer
          r).posted
        ≡ some (body, sent))
unfolding submit_comment
submit_comment-posted s p text later n storage relayer (err e) h = absurd (ground (arith, h))
submit_comment-posted s p text later n storage relayer (ok b) h =
    let f : Fetched CommentReply = relayer_fetch (s.post_comment b) 3 false later relayer in
    (
      b,
      f.sent,
      posted-after_reply p text n storage f.state (b, f.sent) (read_comment_reply f.result),
    )

with_credentials-posted :
    (w : World) (s : Services) (p : FormProps) (text : Text) (later : ℕ) (cid : Text)
    (relayer : RelayerState) (r : Result (ZkCredentials × ℕ) × Storage)
    → (with_credentials w s p text later cid relayer r).message ≡ none
    → (body : CommentRequest) × (sent : ℕ) × ((with_credentials w s p text later cid relayer
          r).posted
        ≡ some (body, sent))
unfolding with_credentials
with_credentials-posted w s p text later cid relayer (err e, storage) h = absurd (ground (arith, h))
with_credentials-posted w s p text later cid relayer (ok (c, leaf_index), storage) h =
    submit_comment-posted s p text later (comment_nullifier w p c) storage relayer
      (prepare_comment w p cid (c, leaf_index)) h

-- What is left of an anonymous comment without an error.
pub record Accepted (w : World) (p : FormProps) (r : Written) : Type 0 where
  pub credentials : ZkCredentials
  pub body : CommentRequest
  pub sent : ℕ
  pub posted : r.posted ≡ some (body, sent)
  pub is_comment : IsComment w p credentials body
  pub can_edit :
      can_edit_anonymous_comment p.dao_id p.proposal_id
        (decimal (comment_nullifier w p credentials))
        r.storage
      ≡ true
  pub submitted : r.submitted ≡ true
  pub text_cleared : r.body ≡ []

anonymous-Accepted :
    (w : World) (s : Services) (p : FormProps) (text prefix : Text) (at later : ℕ) (cid : Text)
    (storage : Storage) (relayer : RelayerState)
    → (submit_anonymous w s p text prefix at later cid storage relayer).message ≡ none
    → Accepted w p (submit_anonymous w s p text prefix at later cid storage relayer)
unfolding submit_anonymous
anonymous-Accepted w s p text prefix at later cid storage relayer h =
    let (body, sent, posted) =
      with_credentials-posted w s p text later cid relayer
        (cached_or_regenerated w prefix at (as_props p)
          (get_zk_credentials prefix at p.dao_id p.public_key storage))
        h in
    let (c, sends) =
      found_by_anonymous w s p text body sent prefix at later cid storage relayer posted in
    let n : ℕ = comment_nullifier w p c in
    let (answer, ends) =
      after_reply-cleared p sends.text n sends.before sends.relayer sends.posted sends.answer
        (sym (ap (λ x. x.message) sends.ends) ∙ h) in
    let is = sends.ends ∙ ends in
    record {
      credentials = c;
      body = body;
      sent = sent;
      posted = posted;
      is_comment = sends.is_comment;
      can_edit =
          ap (can_edit_anonymous_comment p.dao_id p.proposal_id (decimal n))
            (ap (λ x. x.storage) is)
          ∙ can_edit-saved p n answer sends.before;
      submitted = ap (λ x. x.submitted) is;
      text_cleared = ap (λ x. x.body) is;
    }

pub handle_submit-Accepted :
    (w : World) (s : Services) (p : FormProps) (text prefix : Text) (now at later : ℕ)
    (storage : Storage) (relayer : RelayerState)
    → (handle_submit w s p text true prefix now at later storage relayer).message ≡ none
    → Accepted w p (handle_submit w s p text true prefix now at later storage relayer)
handle_submit-Accepted w s p text prefix now at later storage relayer h =
    elim (handle_submit-cases w s p text prefix now at later storage relayer) [
      | inl (e, state, stops) ↦ absurd (ground (arith, sym (ap (λ x. x.message) stops) ∙ h))
      | inr (cid, state, runs) ↦ subst (Accepted w p) (sym runs) (
          anonymous-Accepted w s p text prefix at later cid storage state
            (sym (ap (λ x. x.message) runs) ∙ h))
    ]
