-- ===== src/Commenting/Request.antt =====
-- CommentForm.tsx, schemas.ts and comments.ts together: the form's request at the relayer.
use zkvote.Prelude.{
  ℕ, ◌^◌, ◌<◌, ◌≡◌, refl, ap, ◌∙◌, String, true, false, ◌||◌, Option, List, [], ◌∷◌, Result, ok,
  if_true, if_false,
}
use zkvote.Hex.{Text}
use zkvote.Stellar.{bn254_modulus, u256_to_sc_val, u256, U256Parts, proof_map, proof_to_sc_val}
use zkvote.Stellar.Words.{u256_value}
use zkvote.Validation.{ipfs_cid}
use zkvote.Zkproof.{SnarkProof, to_hex_be, format_proof_for_soroban}
use zkvote.Zkproof.Format.{FitsProof, g1_bytes, g2_bytes, is_infinity1, is_infinity2}
use zkvote.Indexer.{success}
use zkvote.Relay.{
  Rpc, Config, Arg, u64, flag, content, maybe_id, sc_val, settled, submit, Operation, after_wait,
  after_send, after_read, after_simulation, after_account, FitsParent, u64_arg-eq-ok,
  parent_arg-eq-ok,
}
use zkvote.Relay.VoteLaws.{Landed}
use zkvote.Relay.Comments.{
  CommentRequest, anonymous_comment_schema, comment_args, comment_validated, comment_operation,
  comment_labels, comment_encoded, add_anonymous_comment, commented, comment_response, added,
  read_id,
}
use zkvote.Browser.{ZkCredentials}
use zkvote.Ballot.Request.{field_passes, field_value, proof_passes, proof_encodes}
use zkvote.Commenting.{FormProps}
use zkvote.Commenting.Anonymous.{comment_body}

abbrev pub encoded_args :
    FormProps → Text → U256Parts → U256Parts → U256Parts → SnarkProof → List Arg
encoded_args form cid nullifier root commitment p =
    u64 form.dao_id
    ∷ u64 form.proposal_id
    ∷ content cid
    ∷ maybe_id form.parent_id
    ∷ sc_val (u256 nullifier)
    ∷ sc_val (u256 root)
    ∷ sc_val (u256 commitment)
    ∷ flag false
    ∷ sc_val (proof_map (g1_bytes p.pi_a) (g2_bytes p.pi_b) (g1_bytes p.pi_c))
    ∷ []

module _ (form : FormProps) (cid : Text) (nullifier : ℕ) (c : ZkCredentials) (p : SnarkProof)
    (signals : List ℕ) where
  schema-comment_body :
      ipfs_cid cid ≡ true
      → nullifier < bn254_modulus
      → form.eligible_root < bn254_modulus
      → c.commitment < bn254_modulus
      → FitsProof p
      → (is_infinity1 p.pi_a || is_infinity2 p.pi_b || is_infinity1 p.pi_c) ≡ false
      → anonymous_comment_schema (comment_body form cid nullifier c (p, signals)) ≡ true
  unfolding anonymous_comment_schema comment_body
  schema-comment_body i n r m f finite =
      rw
        (
          i,
          field_passes nullifier n,
          field_passes form.eligible_root r,
          field_passes c.commitment m,
          proof_passes p f finite,
        )
        refl

  comment_args-comment_body :
      (u v t : U256Parts)
      → u256_to_sc_val (to_hex_be nullifier) ≡ ok (u256 u)
      → u256_to_sc_val (to_hex_be form.eligible_root) ≡ ok (u256 v)
      → u256_to_sc_val (to_hex_be c.commitment) ≡ ok (u256 t)
      → proof_to_sc_val (format_proof_for_soroban p)
        ≡ ok (proof_map (g1_bytes p.pi_a) (g2_bytes p.pi_b) (g1_bytes p.pi_c))
      → form.dao_id < 2 ^ 64
      → form.proposal_id < 2 ^ 64
      → FitsParent form.parent_id
      → comment_args (comment_body form cid nullifier c (p, signals))
        ≡ ok (encoded_args form cid u v t p)
  unfolding comment_args comment_body
  comment_args-comment_body u v t hu hv ht hp d q a =
      rw
        (
          hu,
          hv,
          ht,
          hp,
          u64_arg-eq-ok form.dao_id d,
          u64_arg-eq-ok form.proposal_id q,
          parent_arg-eq-ok form.parent_id a,
        )
        refl

module _ (show : ℕ → String) {V : Type 0} (to_number : V → Result ℕ) (config : Config) (rpc : Rpc V)
    (hash : String) (ledger : ℕ) where
  submit_lands :
      (op : Operation) (l : Landed show config rpc comment_labels hash (success ledger))
      (id : Option ℕ)
      → read_id to_number l.value ≡ ok id
      → submit show config rpc comment_labels op (read_id to_number)
        ≡ record { sent = op ∷ []; ending = settled id hash (success ledger) }
  unfolding submit after_account after_simulation after_read after_send after_wait
  submit_lands op l id read =
      rw l.account (rw l.simulation (rw read (rw l.sending (rw l.awaited refl))))

  validated_sends :
      (r : CommentRequest) (args : List Arg)
      (l : Landed show config rpc comment_labels hash (success ledger)) (id : Option ℕ)
      → config.strip_request_bodies ≡ false
      → anonymous_comment_schema r ≡ true
      → comment_args r ≡ ok args
      → read_id to_number l.value ≡ ok id
      → comment_validated show to_number config rpc r ≡ record {
        sent = comment_operation args ∷ [];
        response = record { status = 200; body = added id hash };
      }
  unfolding comment_validated add_anonymous_comment comment_encoded commented comment_response
  validated_sends r args l id kept h encoded read =
      if_false config.strip_request_bodies _ _ kept
      ∙ if_true (anonymous_comment_schema r) _ _ h
      ∙ ap (comment_encoded show to_number config rpc) encoded
      ∙ ap (commented config) (submit_lands (comment_operation args) l id read)

  -- An anonymous comment from the form to the contract call. Conditions: the DAO and the proposal are below `2 ^ 64`
  -- and the parent, if any, below `2 ^ 256`; the content identifier has a form that the
  -- schema takes; the nullifier, the eligible root and the commitment are below the order of the scalar field, the
  -- proof's coordinates are below `2 ^ 256` and none of its points is the point at infinity; the relayer does not strip
  -- bodies; the account is read, the simulation succeeds with a value that is read as an id, the server accepts the
  -- transaction under `hash` and the loop sees it succeed.
  -- Then the relayer answers 200 with the id and `hash` after sending exactly one call of `add_anonymous_comment`, whose
  -- arguments are the form's DAO, proposal, content and parent, the words of the three numbers, a choice of false, and
  -- the EIP-196/197 bytes of the three points.
  pub comment_body_lands :
      (form : FormProps) (cid : Text) (nullifier : ℕ) (c : ZkCredentials) (p : SnarkProof)
      (signals : List ℕ) (l : Landed show config rpc comment_labels hash (success ledger))
      (id : Option ℕ)
      → form.dao_id < 2 ^ 64
      → form.proposal_id < 2 ^ 64
      → FitsParent form.parent_id
      → ipfs_cid cid ≡ true
      → nullifier < bn254_modulus
      → form.eligible_root < bn254_modulus
      → c.commitment < bn254_modulus
      → FitsProof p
      → (is_infinity1 p.pi_a || is_infinity2 p.pi_b || is_infinity1 p.pi_c) ≡ false
      → config.strip_request_bodies ≡ false
      → read_id to_number l.value ≡ ok id
      → (u v t : U256Parts) × (u256_value u ≡ nullifier)
        × (u256_value v ≡ form.eligible_root)
        × (u256_value t ≡ c.commitment)
        × (comment_validated show to_number config rpc
              (comment_body form cid nullifier c (p, signals))
            ≡ record {
              sent = comment_operation (encoded_args form cid u v t p) ∷ [];
              response = record { status = 200; body = added id hash };
            })
  comment_body_lands form cid nullifier c p signals l id d q a i n r m f finite kept read =
      let (u, u_value, u_runs) = field_value nullifier n in
      let (v, v_value, v_runs) = field_value form.eligible_root r in
      let (t, t_value, t_runs) = field_value c.commitment m in
      (
        u,
        v,
        t,
        u_value,
        v_value,
        t_value,
        validated_sends (comment_body form cid nullifier c (p, signals))
            (encoded_args form cid u v t p) l id kept
            (schema-comment_body form cid nullifier c p signals i n r m f finite)
            (comment_args-comment_body form cid nullifier c p signals u v t u_runs v_runs t_runs
              (proof_encodes p f finite) d q a)
            read,
      )
