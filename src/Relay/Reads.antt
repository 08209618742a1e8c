-- ===== src/Relay/Reads.antt =====
-- backend/src/routes/voting.ts: GET /proposal/:daoId/:proposalId and GET /root/:daoId, which read a simulation.
use zkvote.Prelude.{ℕ, String, Bool, Option, none, some, List, [], ◌∷◌, Result, ok, err, ◌>>=◌}
use zkvote.Hex.{Text}
use zkvote.Stellar.{ScVal, sc_val_to_u256_hex}
use zkvote.Relay.{SimResult, simulated, not_simulated}

-- An element of a contract's vector.
pub data Element : Type 0 where
  u64_val : ℕ → Element
  bool_val : Bool → Element
  other_val : Element

-- A returned value: a vector, which may be null, or a value of another type.
pub data RetVal : Type 0 where
  vec : Option (List Element) → RetVal
  other : RetVal

-- The answers of the RPC server to one request, after the arguments were encoded.
pub record Reader (V : Type 0) : Type 0 where
  pub get_account : Result (Unit {0})
  pub simulate_transaction : Result (SimResult V)

pub record ProposalResults : Type 0 where
  pub dao_id : ℕ
  pub proposal_id : ℕ
  pub yes_votes : ℕ
  pub no_votes : ℕ
  pub closed : Bool

pub data ReadAnswer (A : Type 0) : Type 0 where
  json : A → ReadAnswer A
  refused : ℕ → String → ReadAnswer A

abbrev pub as_u64 : Element → Result ℕ
as_u64 (u64_val n) = ok n
as_u64 (bool_val b) = err "u64 not set"
as_u64 other_val = err "u64 not set"

abbrev pub as_bool : Element → Result Bool
as_bool (u64_val n) = err "b not set"
as_bool (bool_val b) = ok b
as_bool other_val = err "b not set"

abbrev pub caught : {A : Type 0} → String → Result (ReadAnswer A) → ReadAnswer A
caught message (ok a) = a
caught message (err e) = refused 500 message

-- `resultScVal.vec()` throws on a value of another type.
unfoldable pub parse_results : ℕ → ℕ → RetVal → Result (ReadAnswer ProposalResults)
parse_results dao_id proposal_id other = err "vec not set"
parse_results dao_id proposal_id (vec none) = ok (refused 500 "Invalid result format")
parse_results dao_id proposal_id (vec (some [])) = ok (refused 500 "Invalid result format")
parse_results dao_id proposal_id (vec (some (a ∷ []))) = ok (refused 500 "Invalid result format")
parse_results dao_id proposal_id (vec (some (a ∷ b ∷ []))) =
    ok (refused 500 "Invalid result format")
parse_results dao_id proposal_id (vec (some (a ∷ b ∷ c ∷ rest))) = do
  yes_votes ← as_u64 a
  no_votes ← as_u64 b
  closed ← as_bool c
  ok (
      json (record {
        dao_id = dao_id;
        proposal_id = proposal_id;
        yes_votes = yes_votes;
        no_votes = no_votes;
        closed = closed;
      }))

unfoldable pub read_proposal : ℕ → ℕ → SimResult RetVal → Result (ReadAnswer ProposalResults)
unfolding parse_results
read_proposal dao_id proposal_id (not_simulated e) = ok (refused 404 "Proposal not found")
read_proposal dao_id proposal_id (simulated none) = ok (refused 500 "No result returned")
read_proposal dao_id proposal_id (simulated (some v)) = parse_results dao_id proposal_id v

-- The ids are `parseInt` of the path's parameters; `none` is NaN, which nativeToScVal refuses.
unfoldable pub get_proposal : Option ℕ → Option ℕ → Reader RetVal → ReadAnswer ProposalResults
unfolding read_proposal
get_proposal (some dao_id) (some proposal_id) reader = caught "Failed to fetch proposal results" (
    reader.get_account >>= λ account.
    reader.simulate_transaction >>= λ sim_result. read_proposal dao_id proposal_id sim_result)
get_proposal none proposal_id reader = refused 500 "Failed to fetch proposal results"
get_proposal (some dao_id) none reader = refused 500 "Failed to fetch proposal results"

unfoldable pub read_root : ℕ → SimResult ScVal → Result (ReadAnswer (ℕ × Text))
read_root dao_id (not_simulated e) = ok (refused 404 "DAO not found or tree not initialized")
read_root dao_id (simulated none) = ok (refused 500 "No result returned")
read_root dao_id (simulated (some v)) = sc_val_to_u256_hex v >>= λ root. ok (json (dao_id, root))

unfoldable pub get_root : Option ℕ → Reader ScVal → ReadAnswer (ℕ × Text)
unfolding read_root
get_root (some dao_id) reader = caught "Failed to fetch Merkle root" (
    reader.get_account >>= λ account.
    reader.simulate_transaction >>= λ sim_result. read_root dao_id sim_result)
get_root none reader = refused 500 "Failed to fetch Merkle root"
