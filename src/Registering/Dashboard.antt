-- ===== src/Registering/Dashboard.antt =====
-- DAODashboard.tsx: its handler for registering, and the check of the status.
use Prim.Native.String.{◌++◌ as text_append}
use zkvote.Prelude.{
  ℕ, String, Bool, true, false, not, ◌&&◌, Option, none, some, [], ◌==◌, str_eq, codes, ◌++◌,
  if◌then◌else◌,
}
use zkvote.Hex.{Text}
use zkvote.Decimal.{decimal}
use zkvote.Browser.{
  ZkCredentials, Registration, Storage, get_zk_credentials, store_zk_credentials, remove_item,
}
use zkvote.Registering.{
  Thrown, Try, ◌then◌, is_user_rejection, Chain, Enrolled, enrol, value, raised,
}

-- The state of the dashboard that registering concerns.
pub record Dashboard : Type 0 where
  pub registering : Bool
  pub is_registered : Bool
  pub has_unregistered_credentials : Bool
  pub status : Option String
  pub error : Option String

-- What is left: the state, the storage, and the notification: the hash, the commitment and the leaf index.
pub record After : Type 0 where
  pub state : Dashboard
  pub storage : Storage
  pub notified : Option (String × ℕ × ℕ)

abbrev pub or_empty : Option Text → Text
or_empty none = []
or_empty (some s) = s

abbrev pub cached_for : Text → ℕ → ℕ → Option Text → Storage → Option Registration × Storage
cached_for prefix now dao_id none storage = (none, storage)
cached_for prefix now dao_id (some key) storage = get_zk_credentials prefix now dao_id key storage

-- Credentials that were found unregistered are used again, if they are still stored.
unfoldable pub credentials_for :
    (ℕ → Try ZkCredentials) → ℕ → Bool → Option Registration → Try ZkCredentials
credentials_for generate dao_id unregistered none = generate dao_id
credentials_for generate dao_id unregistered (some r) =
    if unregistered then value r.credentials else generate dao_id

abbrev pub wrap : Thrown → Thrown
wrap e = record {
  code_is_rejection = false;
  message = text_append "Transaction signing failed: " e.message;
}

-- `if (txHash && !alreadyRegistered)`: an empty hash is falsy.
abbrev pub to_notify : Enrolled → Option String → Option (String × ℕ × ℕ)
to_notify e none = none
to_notify e (some hash) =
    if not (str_eq hash "") && not e.already_registered
    then some (hash, e.credentials.commitment, e.leaf_index)
    else none

-- The end of the dashboard's handler, with the storage that the lookup left; `at` is the time of storing.
unfoldable pub enrolled_dashboard :
    Text → ℕ → ℕ → Option Text → Dashboard → Storage → Try Enrolled → After
enrolled_dashboard prefix at dao_id public_key state storage (value e) = record {
  state = record {
    registering = false;
    is_registered = true;
    has_unregistered_credentials = false;
    status =
        some (if e.already_registered then "Credentials recovered!" else "Registration complete!");
    error = none;
  };
  storage =
      store_zk_credentials prefix at dao_id (or_empty public_key) e.credentials e.leaf_index
        storage;
  notified = to_notify e e.tx_hash;
}
enrolled_dashboard prefix at dao_id public_key state storage (raised e) = record {
  state = record state {
    registering = false;
    status = none;
    error = if is_user_rejection e then none else some e.message;
  };
  storage = storage;
  notified = none;
}

unfoldable pub with_cached :
    Chain
    → (ℕ → Try ZkCredentials)
    → Text
    → ℕ
    → ℕ
    → Option Text
    → Dashboard
    → Option Registration × Storage
    → After
unfolding enrolled_dashboard credentials_for enrol
with_cached chain generate prefix at dao_id public_key state (cached, storage) =
    enrolled_dashboard prefix at dao_id public_key state storage (
      credentials_for generate dao_id state.has_unregistered_credentials cached then λ c.
      enrol chain wrap dao_id (or_empty public_key) c)

abbrev pub no_kit : Thrown
no_kit = record { code_is_rejection = false; message = "Wallet kit not available" }

-- Without a wallet nothing is looked up.
abbrev pub with_kit :
    Chain
    → Text
    → ℕ
    → ℕ
    → ℕ
    → Option Text
    → Dashboard
    → Storage
    → Option (ℕ → Try ZkCredentials)
    → After
with_kit chain prefix now at dao_id public_key state storage none =
    enrolled_dashboard prefix at dao_id public_key state storage (raised no_kit)
with_kit chain prefix now at dao_id public_key state storage (some generate) =
    with_cached chain generate prefix at dao_id public_key state
      (cached_for prefix now dao_id public_key storage)

-- `handleRegisterForVoting` of the dashboard, which looks up at `now` and stores at `at`.
unfoldable pub register_on_dashboard :
    Chain → Text → ℕ → ℕ → ℕ → Option Text → Dashboard → Storage → After
unfolding with_cached enrolled_dashboard
register_on_dashboard chain prefix now at dao_id public_key state storage =
    if state.registering
    then record { state = state; storage = storage; notified = none }
    else with_kit chain prefix now at dao_id public_key state storage chain.kit

-- The dashboard when the leaf index that the contract gives is known, or was not read.
abbrev pub compared : Dashboard → ℕ → Try ℕ → Dashboard
compared state leaf_index (value on_chain) =
    if on_chain == leaf_index
    then record state { is_registered = true; has_unregistered_credentials = false }
    else record state { is_registered = false; has_unregistered_credentials = false }
compared state leaf_index (raised e) = record state {
  is_registered = false;
  has_unregistered_credentials = true;
}

abbrev pub legacy_key : ℕ → Text → Text
legacy_key dao_id public_key =
    codes "voting_registration_" ++ (decimal dao_id ++ (codes "_" ++ public_key))

-- A key of an earlier version is removed when the leaf index differs.
abbrev pub legacy_removed : ℕ → Option Text → ℕ → Try ℕ → Storage → Storage
legacy_removed dao_id none leaf_index on_chain storage = storage
legacy_removed dao_id (some key) leaf_index (raised e) storage = storage
legacy_removed dao_id (some key) leaf_index (value on_chain) storage =
    if on_chain == leaf_index then storage else remove_item (legacy_key dao_id key) storage

abbrev pub checked :
    Chain → ℕ → Option Text → Dashboard → Option Registration × Storage → Dashboard × Storage
checked chain dao_id public_key state (none, storage) =
    (record state { is_registered = false; has_unregistered_credentials = false }, storage)
checked chain dao_id public_key state (some r, storage) =
    let on_chain = chain.get_leaf_index dao_id r.credentials.commitment in
    (
      compared state r.leaf_index on_chain,
      legacy_removed dao_id public_key r.leaf_index on_chain storage,
    )

unfoldable pub check_registration_status :
    Chain → Text → ℕ → ℕ → Option Text → Dashboard → Storage → Dashboard × Storage
check_registration_status chain prefix now dao_id public_key state storage =
    if state.registering
    then (state, storage)
    else checked chain dao_id public_key state (cached_for prefix now dao_id public_key storage)
