-- ===== src/Commenting/Posted.antt =====
-- CommentForm.tsx: what an anonymous comment that was posted says.
use zkvote.Prelude.{
  ℕ, ◌≡◌, refl, sym, ap, ◌∙◌, subst, String, true, false, none, some, List, Result, ok, err,
  bind-ok, ok_injective, if_elim, ◌⊎◌, inl, inr, arith, length, ◌==◌,
}
use zkvote.Hex.{Text}
use zkvote.Zkproof.{SnarkProof}
use zkvote.Relay.Comments.{CommentRequest}
use zkvote.Client.{RelayerState, Fetched, relayer_fetch}
use zkvote.Browser.{ZkCredentials, Registration, Storage, get_zk_credentials}
use zkvote.Ballot.{World, generate_vote_proof, proof_input}
use zkvote.Commenting.{
  FormProps, as_props, CommentData, CommentReply, Services, Written, read_upload, trim,
}
use zkvote.Commenting.Anonymous.{
  cached_or_regenerated, comment_nullifier, comment_body, prepare_comment, read_comment_reply,
  failed_with, after_reply, submit_comment, with_credentials, submit_anonymous,
}
use zkvote.Commenting.Form.{after_upload, handle_submit}

-- The body for credentials, with a proof for the eligible root.
pub record IsComment (w : World) (p : FormProps) (c : ZkCredentials) (body : CommentRequest)
    : Type 0 where
  pub cid : Text
  pub leaf_index : ℕ
  pub path : List ℕ × List ℕ
  pub proven : SnarkProof × List ℕ
  pub found : w.get_merkle_path leaf_index p.dao_id ≡ ok path
  pub made :
      generate_vote_proof w (proof_input w (as_props p) false c p.eligible_root path) ≡ ok proven
  pub says : body ≡ comment_body p cid (comment_nullifier w p c) c proven

prepare_comment-IsComment :
    (w : World) (p : FormProps) (cid : Text) (c : ZkCredentials) (leaf_index : ℕ)
    (body : CommentRequest)
    → prepare_comment w p cid (c, leaf_index) ≡ ok body
    → IsComment w p c body
unfolding prepare_comment
prepare_comment-IsComment w p cid c leaf_index body h =
    let (path, found, h1) = bind-ok (w.get_merkle_path leaf_index p.dao_id) _ body h in
    let (proven, made, h2) =
      bind-ok (generate_vote_proof w (proof_input w (as_props p) false c p.eligible_root path)) _
        body h1 in
    record {
      cid = cid;
      leaf_index = leaf_index;
      path = path;
      proven = proven;
      found = found;
      made = made;
      says = sym (ok_injective (comment_body p cid (comment_nullifier w p c) c proven) body h2);
    }

-- A handling that posted `body` for the credentials `c`, and what follows if it showed no error.
pub record Sent (w : World) (s : Services) (p : FormProps) (c : ZkCredentials)
    (body : CommentRequest) (r : Written) : Type 0 where
  pub is_comment : IsComment w p c body
  pub answer : Result CommentData
  pub before : Storage
  pub posted : CommentRequest × ℕ
  pub text : Text
  pub relayer : RelayerState
  pub ends : r ≡ after_reply p text (comment_nullifier w p c) before relayer posted answer

first_injective : (a b : CommentRequest × ℕ) → some a ≡ some b → a.0 ≡ b.0
first_injective a b e = ground (arith, e)

pub posted-after_reply :
    (p : FormProps) (text : Text) (n : ℕ) (storage : Storage) (relayer : RelayerState)
    (posted : CommentRequest × ℕ) (r : Result CommentData)
    → (after_reply p text n storage relayer posted r).posted ≡ some posted
unfolding after_reply
posted-after_reply p text n storage relayer posted (err e) = refl
posted-after_reply p text n storage relayer posted (ok answer) = refl

module _ (w : World) (s : Services) (p : FormProps) (text : Text) (body : CommentRequest)
    (sent : ℕ) where
  submit_comment-Sent :
      (c : ZkCredentials) (leaf_index : ℕ) (cid : Text) (later : ℕ) (storage : Storage)
      (relayer : RelayerState) (r : Result CommentRequest)
      → prepare_comment w p cid (c, leaf_index) ≡ r
      → (submit_comment s p text later (comment_nullifier w p c) storage relayer r).posted
        ≡ some (body, sent)
      → Sent w s p c body
          (submit_comment s p text later (comment_nullifier w p c) storage relayer r)
  unfolding submit_comment
  submit_comment-Sent c leaf_index cid later storage relayer (err e) made h =
      absurd (ground (arith, h))
  submit_comment-Sent c leaf_index cid later storage relayer (ok b) made h =
      let f : Fetched CommentReply = relayer_fetch (s.post_comment b) 3 false later relayer in
      let e : some (b, f.sent) ≡ some (body, sent) =
        sym (
          posted-after_reply p text (comment_nullifier w p c) storage f.state (b, f.sent)
            (read_comment_reply f.result))
        ∙ h in
      record {
        is_comment =
            subst (λ x. IsComment w p c x) (first_injective (b, f.sent) (body, sent) e)
              (prepare_comment-IsComment w p cid c leaf_index b made);
        answer = read_comment_reply f.result;
        before = storage;
        posted = (b, f.sent);
        text = text;
        relayer = f.state;
        ends = refl;
      }

  with_credentials-Sent :
      (c : ZkCredentials) (leaf_index : ℕ) (cid : Text) (later : ℕ) (storage : Storage)
      (relayer : RelayerState)
      → (with_credentials w s p text later cid relayer (ok (c, leaf_index), storage)).posted
        ≡ some (body, sent)
      → Sent w s p c body
          (with_credentials w s p text later cid relayer (ok (c, leaf_index), storage))
  unfolding with_credentials
  with_credentials-Sent c leaf_index cid later storage relayer h =
      submit_comment-Sent c leaf_index cid later storage relayer
        (prepare_comment w p cid (c, leaf_index)) refl h

  found-Sent :
      (cid : Text) (later : ℕ) (relayer : RelayerState) (r : Result (ZkCredentials × ℕ) × Storage)
      → (with_credentials w s p text later cid relayer r).posted ≡ some (body, sent)
      → (c : ZkCredentials) × Sent w s p c body (with_credentials w s p text later cid relayer r)
  unfolding with_credentials
  found-Sent cid later relayer (err e, storage) h = absurd (ground (arith, h))
  found-Sent cid later relayer (ok (c, leaf_index), storage) h =
      (c, with_credentials-Sent c leaf_index cid later storage relayer h)

  -- With a registration that is stored.
  submit_anonymous-Sent :
      (prefix : Text) (at later : ℕ) (cid : Text) (storage kept : Storage) (relayer : RelayerState)
      (r : Registration)
      → get_zk_credentials prefix at p.dao_id p.public_key storage ≡ (some r, kept)
      → (submit_anonymous w s p text prefix at later cid storage relayer).posted ≡ some (body, sent)
      → Sent w s p r.credentials body
          (submit_anonymous w s p text prefix at later cid storage relayer)
  unfolding submit_anonymous cached_or_regenerated
  submit_anonymous-Sent prefix at later cid storage kept relayer r known h =
      subst
        (λ found.
          (with_credentials w s p text later cid relayer
              (cached_or_regenerated w prefix at (as_props p) found)).posted
            ≡ some (body, sent)
          → Sent w s p r.credentials body (
              with_credentials w s p text later cid relayer
                (cached_or_regenerated w prefix at (as_props p) found)))
        (sym known) (with_credentials-Sent r.credentials r.leaf_index cid later kept relayer) h

  pub found_by_anonymous :
      (prefix : Text) (at later : ℕ) (cid : Text) (storage : Storage) (relayer : RelayerState)
      → (submit_anonymous w s p text prefix at later cid storage relayer).posted ≡ some (body, sent)
      → (c : ZkCredentials) × Sent w s p c body
          (submit_anonymous w s p text prefix at later cid storage relayer)
  unfolding submit_anonymous
  found_by_anonymous prefix at later cid storage relayer h =
      found-Sent cid later relayer
        (cached_or_regenerated w prefix at (as_props p)
          (get_zk_credentials prefix at p.dao_id p.public_key storage))
        h

-- Anonymous handling stops before the credentials with an error, or it has a content identifier.
abbrev pub Stopped : FormProps → Text → Storage → Written → Type 0
Stopped p text storage r =
    (e : String) × (relayer : RelayerState) × (r ≡ failed_with text storage relayer none none e)

abbrev pub Uploaded :
    World → Services → FormProps → Text → Text → ℕ → ℕ → Storage → Written → Type 0
Uploaded w s p text prefix at later storage r =
    (cid : Text) × (relayer : RelayerState) × (r
      ≡ submit_anonymous w s p text prefix at later cid storage relayer)

module _ (w : World) (s : Services) (p : FormProps) (text prefix : Text) (now at later : ℕ)
    (storage : Storage) (relayer : RelayerState) where
  after_upload-cases :
      (r : Result Text) (state : RelayerState)
      → Stopped p text storage (after_upload w s p text true prefix at later storage state r)
        ⊎ Uploaded w s p text prefix at later storage
            (after_upload w s p text true prefix at later storage state r)
  unfolding after_upload
  after_upload-cases (err e) state = inl (e, state, refl)
  after_upload-cases (ok cid) state = inr (cid, state, refl)

  pub handle_submit-cases :
      Stopped p text storage (handle_submit w s p text true prefix now at later storage relayer)
      ⊎ Uploaded w s p text prefix at later storage
          (handle_submit w s p text true prefix now at later storage relayer)
  unfolding handle_submit
  handle_submit-cases =
      if_elim {A = Written} (length (trim text) == 0)
        (λ r. Stopped p text storage r ⊎ Uploaded w s p text prefix at later storage r) _ _
        (λ blank. inl ("Comment cannot be empty", relayer, refl))
        (λ written.
          let f = relayer_fetch (s.upload (trim text)) 3 false now relayer in
          after_upload-cases (read_upload f.result) f.state)

  pub handle_submit-IsComment :
      (kept : Storage) (r : Registration) (body : CommentRequest) (sent : ℕ)
      → get_zk_credentials prefix at p.dao_id p.public_key storage ≡ (some r, kept)
      → (handle_submit w s p text true prefix now at later storage relayer).posted
        ≡ some (body, sent)
      → IsComment w p r.credentials body
  handle_submit-IsComment kept r body sent known h = elim handle_submit-cases [
    | inl (e, state, stops) ↦ absurd (ground (arith, sym (ap (λ x. x.posted) stops) ∙ h))
    | inr (cid, state, runs) ↦
        (submit_anonymous-Sent w s p text body sent prefix at later cid storage kept state r known
          (sym (ap (λ x. x.posted) runs) ∙ h)).is_comment
  ]
