-- ===== src/Registering.antt =====
-- Registering for voting: handleRegisterForVoting of frontend/src/components/DAODashboard.tsx and of ProposalPage.tsx,
-- checkRegistrationStatus of the former, and what they use of lib/utils.ts. The wallet and the contracts are
-- parameters.
pub mod Dashboard
pub mod Page
pub mod Stored
pub mod Votes
use Prim.Native.String.{◌++◌ as text_append}
use zkvote.Prelude.{
  ℕ, String, Bool, true, false, not, ◌&&◌, ◌||◌, Option, none, some, List, [], ◌∷◌, ◌==◌, str_eq,
  codes, ◌++◌, if◌then◌else◌,
}
use zkvote.Hex.{Text}
use zkvote.Decimal.{decimal}
use zkvote.Relay.{includes}
use zkvote.Browser.{
  ZkCredentials, credentials_of, Registration, Storage, get_zk_credentials, store_zk_credentials,
  remove_item,
}

-- What is thrown: whether `code` is -4, and the message.
pub record Thrown : Type 0 where
  pub code_is_rejection : Bool
  pub message : String

pub data Try (A : Type 0) : Type 0 where
  value : A → Try A
  raised : Thrown → Try A

infixl 5 ◌then◌
abbrev pub ◌then◌ : {A B : Type 0} → Try A → (A → Try B) → Try B
value a then f = f a
raised e then f = raised e

-- lib/utils.ts

unfoldable pub is_user_rejection : Thrown → Bool
is_user_rejection e =
    e.code_is_rejection
    || includes e.message "User rejected"
    || includes e.message "user rejected"
    || includes e.message "declined"
    || includes e.message "cancelled"
    || includes e.message "canceled"

-- A result of the SDK: the members that are there and are texts.
pub record TxResult : Type 0 where
  pub hash : Option String
  pub send_response_hash : Option String
  pub get_response_tx_hash : Option String

abbrev pub or_else : Option String → Option String → Option String
or_else (some s) b = some s
or_else none b = b

-- `none` is a result that is no object.
unfoldable pub extract_tx_hash : Option TxResult → Option String
extract_tx_hash none = none
extract_tx_hash (some r) = or_else r.hash (or_else r.send_response_hash r.get_response_tx_hash)

-- generateDeterministicZKCredentials of lib/zk.ts with the wallet's answer to the message for a DAO, which may be
-- an error that is thrown on.
unfoldable pub signed_credentials :
    (Text → List ℕ) → (List ℕ → ℕ) → (ℕ → Try Text) → ℕ → Try ZkCredentials
signed_credentials sha256 poseidon sign_message dao_id =
    sign_message dao_id then λ signed_message. value (credentials_of sha256 poseidon signed_message)

-- What the calls of one run of a handler bring. `kit` makes credentials for a DAO, as `signed_credentials` does with
-- the wallet that is connected, if any; `register` builds the transaction for a DAO, a commitment and a caller; `sign_and_send` signs it and sends it.
pub record Chain : Type 0 where
  pub kit : Option (ℕ → Try ZkCredentials)
  pub register : ℕ → ℕ → Text → Try (Unit {0})
  pub sign_and_send : ℕ → ℕ → Text → Try (Option TxResult)
  pub get_leaf_index : ℕ → ℕ → Try ℕ

unfoldable pub is_commitment_exists_error : Thrown → Bool
is_commitment_exists_error e = includes e.message "#5" || includes e.message "Error(Contract, #5)"

-- After signing: the hash of the transaction, if any, and whether the commitment was there before. `wrapped` is
-- what is thrown for any other error.
abbrev pub signed : (Thrown → Thrown) → Try (Option TxResult) → Try (Option String × Bool)
signed wrapped (value r) = value (extract_tx_hash r, false)
signed wrapped (raised e) =
    if is_commitment_exists_error e then value (none, true) else raised (wrapped e)

-- What the steps give: the credentials, their leaf index, the hash and whether the commitment was there before.
pub record Enrolled : Type 0 where
  pub credentials : ZkCredentials
  pub leaf_index : ℕ
  pub tx_hash : Option String
  pub already_registered : Bool

unfoldable pub enrol : Chain → (Thrown → Thrown) → ℕ → Text → ZkCredentials → Try Enrolled
enrol chain wrapped dao_id caller c = chain.register dao_id c.commitment caller then λ tx.
    signed wrapped (chain.sign_and_send dao_id c.commitment caller) then λ sent.
    chain.get_leaf_index dao_id c.commitment then λ leaf_index. value (record {
      credentials = c;
      leaf_index = leaf_index;
      tx_hash = sent.0;
      already_registered = sent.1;
    })
