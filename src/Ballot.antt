-- ===== src/Ballot.antt =====
-- frontend/src/components/VoteModal.tsx: casting a vote. The wallet, the contracts that are read, snarkjs and
-- Poseidon are parameters, and so is what each attempt to reach the relayer brings.
pub mod Casting
pub mod Request
pub mod Nullifier
pub mod Replies
use zkvote.Prelude.{
  ℕ, zero, suc, String, Bool, true, false, not, ◌||◌, Option, none, some, List, [], ◌∷◌, Result, ok,
  err, ◌>>=◌, if◌then◌else◌,
}
use Prim.Native.String.{◌++◌ as text_append}
use zkvote.Hex.{Text}
use zkvote.Zkproof.{SnarkProof, to_hex_be, format_proof_for_soroban, calculate_nullifier}
use zkvote.Relay.{includes}
use zkvote.Relay.Vote.{VoteRequest}
use zkvote.Client.{
  RelayerState, Attempt, FetchError, backing_off, too_many_requests, abort_error, last_error,
  no_error, FetchResult, response, threw, Fetched, relayer_fetch,
}
use zkvote.Browser.{ZkCredentials, Registration, Storage, get_zk_credentials, store_zk_credentials}

-- Decimal texts of field elements stand as their numbers.
pub record ProofInput : Type 0 where
  pub root : ℕ
  pub nullifier : ℕ
  pub dao_id : ℕ
  pub proposal_id : ℕ
  pub vote_choice : ℕ
  pub commitment : ℕ
  pub secret : ℕ
  pub salt : ℕ
  pub path_elements : List ℕ
  pub path_indices : List ℕ

-- The circuit's signals: the input without the commitment.
pub record CircuitInput : Type 0 where
  pub root : ℕ
  pub nullifier : ℕ
  pub dao_id : ℕ
  pub proposal_id : ℕ
  pub vote_choice : ℕ
  pub secret : ℕ
  pub salt : ℕ
  pub path_elements : List ℕ
  pub path_indices : List ℕ

abbrev pub circuit_input : ProofInput → CircuitInput
circuit_input i = record {
  root = i.root;
  nullifier = i.nullifier;
  dao_id = i.dao_id;
  proposal_id = i.proposal_id;
  vote_choice = i.vote_choice;
  secret = i.secret;
  salt = i.salt;
  path_elements = i.path_elements;
  path_indices = i.path_indices;
}

pub data VoteMode : Type 0 where
  fixed : VoteMode
  trailing : VoteMode

pub data VoteStep : Type 0 where
  select : VoteStep
  generating : VoteStep
  submitting : VoteStep
  success : VoteStep
  error : VoteStep

-- An answer of the relayer: `response.ok`, and the body as JSON with its member `error`.
pub record Reply : Type 0 where
  pub is_ok : Bool
  pub json : Result (Option String)

pub record World : Type 0 where
  -- the wallet's credentials for a DAO, if a wallet is connected
  pub kit : Option (ℕ → Result ZkCredentials)
  pub get_leaf_index : ℕ → ℕ → Result ℕ
  pub current_root : ℕ → Result ℕ
  pub get_merkle_path : ℕ → ℕ → Result (List ℕ × List ℕ)
  pub poseidon : List ℕ → ℕ
  pub full_prove : CircuitInput → Result (SnarkProof × List ℕ)
  pub verify : SnarkProof → List ℕ → Result Bool
  pub post : VoteRequest → ℕ → Attempt Reply

pub record Props : Type 0 where
  pub proposal_id : ℕ
  pub eligible_root : ℕ
  pub vote_mode : VoteMode
  pub dao_id : ℕ
  pub public_key : Text

-- What the handler leaves: the last step and error of the dialog, the storage, the connection's state, and the
-- body that it posted, if any, with the number of requests.
pub record Cast : Type 0 where
  pub step : VoteStep
  pub message : Option String
  pub storage : Storage
  pub relayer : RelayerState
  pub posted : Option (VoteRequest × ℕ)

-- lib/zkproof.ts: a failure is passed on with a prefix.
abbrev pub proof_failure : Result (SnarkProof × List ℕ) → Result (SnarkProof × List ℕ)
proof_failure (ok r) = ok r
proof_failure (err e) = err (text_append "Vote proof generation failed: " e)

unfoldable pub generate_vote_proof : World → ProofInput → Result (SnarkProof × List ℕ)
generate_vote_proof w input = proof_failure (w.full_prove (circuit_input input))

abbrev pub or_false : Result Bool → Bool
or_false (ok b) = b
or_false (err e) = false

unfoldable pub verify_proof_locally : World → SnarkProof → List ℕ → Bool
verify_proof_locally w proof signals = or_false (w.verify proof signals)

-- The body of the request; `toHexBE` of the handler is that of lib/zkproof.ts.
unfoldable pub vote_body : ℕ → ℕ → Bool → ℕ → ℕ → SnarkProof → VoteRequest
vote_body dao_id proposal_id choice nullifier root proof = record {
  dao_id = dao_id;
  proposal_id = proposal_id;
  choice = choice;
  nullifier = to_hex_be nullifier;
  root = to_hex_be root;
  proof = format_proof_for_soroban proof;
}

-- Credentials and leaf index that are stored, or that the wallet gives; the latter are stored at `now`.
unfoldable pub found_leaf :
    Text → ℕ → Props → Storage → ZkCredentials → Result ℕ → Result (ZkCredentials × ℕ) × Storage
found_leaf prefix now props storage c (err e) = (err e, storage)
found_leaf prefix now props storage c (ok leaf_index) = (
  ok (c, leaf_index),
  store_zk_credentials prefix now props.dao_id props.public_key c leaf_index storage,
)

unfoldable pub generated :
    World → Text → ℕ → Props → Storage → Result ZkCredentials → Result (ZkCredentials × ℕ) × Storage
unfolding found_leaf
generated w prefix now props storage (err e) = (err e, storage)
generated w prefix now props storage (ok c) =
    found_leaf prefix now props storage c (w.get_leaf_index props.dao_id c.commitment)

unfoldable pub regenerate :
    World
    → Text
    → ℕ
    → Props
    → Storage
    → Option (ℕ → Result ZkCredentials)
    → Result (ZkCredentials × ℕ) × Storage
unfolding generated
regenerate w prefix now props storage none =
    (err "You must register for voting first. Please click 'Register for Voting' button.", storage)
regenerate w prefix now props storage (some generate) =
    generated w prefix now props storage (generate props.dao_id)

unfoldable pub cached_or_regenerated :
    World → Text → ℕ → Props → Option Registration × Storage → Result (ZkCredentials × ℕ) × Storage
unfolding regenerate
cached_or_regenerated w prefix now props (some r, storage) =
    (ok (r.credentials, r.leaf_index), storage)
cached_or_regenerated w prefix now props (none, storage) =
    regenerate w prefix now props storage w.kit

abbrev pub root_for : VoteMode → ℕ → Result ℕ → Result ℕ
root_for fixed eligible current = ok eligible
root_for trailing eligible current = current

unfoldable pub select_root : World → Props → Result ℕ
select_root w props = root_for props.vote_mode props.eligible_root (w.current_root props.dao_id)

unfoldable pub verified : World → ℕ → ℕ → Bool → ℕ → ℕ → SnarkProof × List ℕ → Result VoteRequest
unfolding vote_body verify_proof_locally
verified w dao_id proposal_id choice nullifier root (proof, signals) =
    if verify_proof_locally w proof signals
    then ok (vote_body dao_id proposal_id choice nullifier root proof)
    else err "Proof verification failed locally! This indicates a bug in proof generation."

abbrev pub proof_input : World → Props → Bool → ZkCredentials → ℕ → List ℕ × List ℕ → ProofInput
proof_input w props choice c root path = record {
  root = root;
  nullifier = calculate_nullifier w.poseidon c.secret props.dao_id props.proposal_id;
  dao_id = props.dao_id;
  proposal_id = props.proposal_id;
  vote_choice = if choice then 1 else 0;
  commitment = c.commitment;
  secret = c.secret;
  salt = c.salt;
  path_elements = path.0;
  path_indices = path.1;
}

-- From the credentials to the body: root, Merkle path, nullifier, proof, local verification.
unfoldable pub prepare : World → Props → Bool → ZkCredentials × ℕ → Result VoteRequest
unfolding select_root generate_vote_proof verified
prepare w props choice (c, leaf_index) =
    (select_root w props >>= λ root. w.get_merkle_path leaf_index props.dao_id >>= λ path.
    generate_vote_proof w (proof_input w props choice c root path) >>= λ proven.
    verified w props.dao_id props.proposal_id choice
      (calculate_nullifier w.poseidon c.secret props.dao_id props.proposal_id) root proven)
