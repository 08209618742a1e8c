-- ===== src/Registering/Page.antt =====
-- ProposalPage.tsx: its handler for registering.
use zkvote.Prelude.{ℕ, String, Bool, true, false, Option, none, some, if◌then◌else◌}
use zkvote.Hex.{Text}
use zkvote.Browser.{ZkCredentials, Storage, store_zk_credentials}
use zkvote.Registering.{Try, ◌then◌, is_user_rejection, Chain, Enrolled, enrol, value, raised}

pub record Page : Type 0 where
  pub registering : Bool
  pub is_registered : Bool
  pub status : Option String
  pub action_error : Option String

unfoldable pub enrolled_page : Text → ℕ → ℕ → Text → Page → Storage → Try Enrolled → Page × Storage
enrolled_page prefix at dao_id public_key page storage (value e) = (
  record { registering = false; is_registered = true; status = none; action_error = none },
  store_zk_credentials prefix at dao_id public_key e.credentials e.leaf_index storage,
)
enrolled_page prefix at dao_id public_key page storage (raised e) = (
  record page {
    registering = false;
    status = none;
    action_error = if is_user_rejection e then none else some e.message;
  },
  storage,
)

abbrev pub register_as :
    Chain
    → Text
    → ℕ
    → Page
    → Storage
    → Option Text
    → Option (ℕ → Try ZkCredentials)
    → Option ℕ
    → Page × Storage
register_as chain prefix at page storage (some key) (some generate) (some dao_id) =
    enrolled_page prefix at dao_id key page storage
      (generate dao_id then λ c. enrol chain (λ e. e) dao_id key c)
register_as chain prefix at page storage _ _ _ = (page, storage)

-- `handleRegisterForVoting` of the page, where any of the account, the wallet and the DAO's id may be missing.
unfoldable pub register_on_page :
    Chain → Text → ℕ → Option ℕ → Option Text → Page → Storage → Page × Storage
unfolding enrolled_page enrol
register_on_page chain prefix at dao_id public_key page storage =
    if page.registering
    then (page, storage)
    else register_as chain prefix at page storage public_key chain.kit dao_id
