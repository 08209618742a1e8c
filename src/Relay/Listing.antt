-- ===== src/Relay/Listing.antt =====
-- backend/src/routes/comments.ts: GET /comments/:daoId/:proposalId and GET /comment/:daoId/:proposalId/:commentId, which
-- read a simulation. What scValToNative makes of a value is a parameter, which may throw.
use zkvote.Prelude.{
  ℕ, ◌^◌, String, codes, Bool, true, false, Option, none, some, List, [], ◌∷◌, Result, ok, err,
  ◌>>=◌, map, ltb, ◌==◌, if◌then◌else◌,
}
use zkvote.Hex.{Text}
use zkvote.Decimal.{decimal}
use zkvote.ParseInt.{ℤ, pos, negsuc, parse_int}
use zkvote.Indexer.Routes.{or_text, at_most}
use zkvote.Relay.{SimResult, simulated, not_simulated}
use zkvote.Relay.Reads.{Reader, ReadAnswer, json, refused}

-- A comment as scValToNative gives it: an option that is none is null, and a missing member is undefined.
pub data NativeId : Type 0 where
  undefined : NativeId
  null_id : NativeId
  id_of : ℕ → NativeId

pub record NativeComment : Type 0 where
  pub id : ℕ
  pub dao_id : ℕ
  pub proposal_id : ℕ
  pub author : Option Text
  pub nullifier : Option ℕ
  pub content_cid : Text
  pub parent_id : NativeId
  pub created_at : ℕ
  pub updated_at : ℕ
  pub revision_cids : Option (List Text)
  pub deleted : Bool
  pub deleted_by : ℕ

-- A member of a JSON answer.
pub data JsonValue : Type 0 where
  json_null : JsonValue
  json_number : ℕ → JsonValue
  json_text : String → JsonValue

pub record ListedComment : Type 0 where
  pub id : ℕ
  pub dao_id : ℕ
  pub proposal_id : ℕ
  pub author : Option Text
  -- `none` also where the answer has no such member
  pub nullifier : Option Text
  pub content_cid : Text
  pub parent_id : Option ℕ
  pub created_at : ℕ
  pub updated_at : ℕ
  pub revision_cids : List Text
  pub deleted : Bool
  pub deleted_by : JsonValue
  pub is_anonymous : Bool

-- `c.author || null`
abbrev pub or_null : Option Text → Option Text
or_null none = none
or_null (some []) = none
or_null (some (c ∷ s)) = some (c ∷ s)

abbrev pub is_missing : Option Text → Bool
is_missing none = true
is_missing (some s) = false

-- `c.nullifier ? c.nullifier.toString() : null`
abbrev pub shown_nullifier : Option ℕ → Option Text
shown_nullifier none = none
shown_nullifier (some n) = if n == 0 then none else some (decimal n)

-- `c.parent_id !== undefined ? Number(c.parent_id) : null`, where `Number(null)` is 0.
abbrev pub shown_parent : NativeId → Option ℕ
shown_parent undefined = none
shown_parent null_id = some 0
shown_parent (id_of n) = some n

abbrev pub or_none : Option (List Text) → List Text
or_none none = []
or_none (some cids) = cids

unfoldable pub listed : Option Text → NativeComment → ListedComment
listed nullifier c = record {
  id = c.id;
  dao_id = c.dao_id;
  proposal_id = c.proposal_id;
  author = or_null c.author;
  nullifier = nullifier;
  content_cid = c.content_cid;
  parent_id = shown_parent c.parent_id;
  created_at = c.created_at;
  updated_at = c.updated_at;
  revision_cids = or_none c.revision_cids;
  deleted = c.deleted;
  deleted_by = json_number c.deleted_by;
  is_anonymous = is_missing (or_null c.author);
}

unfoldable pub transformed : NativeComment → ListedComment
unfolding listed
transformed c = listed (shown_nullifier c.nullifier) c

-- `nativeToScVal(n, { type: 'u64' })` throws on NaN and out of range.
unfoldable pub to_u64 : Option ℤ → Result ℕ
to_u64 none = err "invalid u64"
to_u64 (some (negsuc n)) = err "invalid u64"
to_u64 (some (pos n)) = if ltb n (2 ^ 64) then ok n else err "invalid u64"

abbrev pub capped : Option ℤ → Option ℤ
capped none = none
capped (some z) = some (at_most z 100)

-- The arguments of `get_comments`: the DAO, the proposal, the offset and the limit.
unfoldable pub list_args : Text → Text → Option Text → Option Text → Result (List ℕ)
unfolding to_u64
list_args dao_id proposal_id limit offset = do
  dao ← to_u64 (parse_int dao_id)
  proposal ← to_u64 (parse_int proposal_id)
  start ← to_u64 (parse_int (or_text offset (codes "0")))
  count ← to_u64 (capped (parse_int (or_text limit (codes "50"))))
  ok (dao ∷ proposal ∷ start ∷ count ∷ [])

unfoldable pub comment_ids : Text → Text → Text → Result (List ℕ)
unfolding to_u64
comment_ids dao_id proposal_id comment_id = do
  dao ← to_u64 (parse_int dao_id)
  proposal ← to_u64 (parse_int proposal_id)
  comment ← to_u64 (parse_int comment_id)
  ok (dao ∷ proposal ∷ comment ∷ [])

abbrev pub caught_message : {A : Type 0} → Result (ReadAnswer A) → ReadAnswer A
caught_message (ok a) = a
caught_message (err e) = refused 500 e

module _ {V : Type 0} where
  unfoldable pub read_comments :
      (V → Result (List NativeComment)) → SimResult V → Result (ReadAnswer (List ListedComment))
  unfolding transformed
  read_comments to_native (not_simulated e) = ok (refused 400 "Failed to get comments")
  read_comments to_native (simulated none) = ok (json [])
  read_comments to_native (simulated (some v)) =
      to_native v >>= λ comments. ok (json (map transformed comments))

  -- `ask` is the RPC server, asked with the arguments; `total` of the answer is the length of the list.
  unfoldable pub get_comments :
      (V → Result (List NativeComment))
      → (List ℕ → Reader V)
      → Text
      → Text
      → Option Text
      → Option Text
      → ReadAnswer (List ListedComment)
  unfolding list_args read_comments
  get_comments to_native ask dao_id proposal_id limit offset = caught_message (
      list_args dao_id proposal_id limit offset >>= λ args. (ask args).get_account >>= λ account.
      (ask args).simulate_transaction >>= λ sim_result. read_comments to_native sim_result)

  -- The answer for one comment has no nullifier.
  unfoldable pub read_comment :
      (V → Result NativeComment) → SimResult V → Result (ReadAnswer ListedComment)
  unfolding listed
  read_comment to_native (not_simulated e) = ok (refused 404 "Comment not found")
  read_comment to_native (simulated none) = ok (refused 404 "Comment not found")
  read_comment to_native (simulated (some v)) = to_native v >>= λ c. ok (json (listed none c))

  unfoldable pub get_comment :
      (V → Result NativeComment)
      → (List ℕ → Reader V)
      → Text
      → Text
      → Text
      → ReadAnswer ListedComment
  unfolding comment_ids read_comment
  get_comment to_native ask dao_id proposal_id comment_id = caught_message (
      comment_ids dao_id proposal_id comment_id >>= λ args. (ask args).get_account >>= λ account.
      (ask args).simulate_transaction >>= λ sim_result. read_comment to_native sim_result)
