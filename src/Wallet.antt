-- ===== src/Wallet.antt =====
-- frontend/src/hooks/useWallet.ts: the connection to a wallet. The wallets of the kit, what they answer and the
-- configured network are parameters.
pub mod Sessions
use zkvote.Prelude.{
  ℕ, String, Bool, true, false, not, ◌&&◌, ◌||◌, Option, none, some, List, [], ◌∷◌, Result, ok, err,
  str_eq, codes, if◌then◌else◌,
}
use zkvote.Hex.{Text}
use zkvote.Slug.{to_lower_case}
use zkvote.Validation.{starts_with}
use zkvote.Browser.{
  Item, other, registration, anonymous_comments, Storage, get_item, set_item, remove_item,
  remove_all,
}

pub data WalletNetwork : Type 0 where
  public : WalletNetwork
  testnet : WalletNetwork
  futurenet : WalletNetwork

unfoldable pub infer_wallet_network : String → Option WalletNetwork
infer_wallet_network passphrase =
    if str_eq passphrase "Public Global Stellar Network ; September 2015"
    then some public
    else if str_eq passphrase "Test SDF Network ; September 2015"
    then some testnet
    else if str_eq passphrase "Test SDF Future Network ; October 2022"
    then some futurenet
    else none

abbrev pub or_futurenet : Option WalletNetwork → WalletNetwork
or_futurenet none = futurenet
or_futurenet (some n) = n

-- The kit of the module: its network and the id of its wallet.
pub record Kit : Type 0 where
  pub network : WalletNetwork
  pub wallet_id : Text

-- `kit` tells whether the state has the kit.
pub record WalletState : Type 0 where
  pub public_key : Option Text
  pub is_connected : Bool
  pub is_initializing : Bool
  pub kit : Bool

-- The hook's state, the module's kit, the storage, and whether an automatic reconnection waits for the wallet.
pub record Session : Type 0 where
  pub wallet : WalletState
  pub global_kit : Option Kit
  pub storage : Storage
  pub reconnecting : Bool

abbrev pub initial_wallet : WalletState
initial_wallet = record {
  public_key = none;
  is_connected = false;
  is_initializing = true;
  kit = false;
}

-- A page that was just loaded.
abbrev pub loaded : Storage → Session
loaded storage = record {
  wallet = initial_wallet;
  global_kit = none;
  storage = storage;
  reconnecting = false;
}

abbrev pub selected_wallet_key : Text
selected_wallet_key = codes "selectedWalletId"

abbrev pub text_of : Option Item → Option Text
text_of (some (other text)) = some text
text_of (some (registration r)) = none
text_of (some (anonymous_comments records)) = none
text_of none = none

unfoldable pub selected_wallet : Storage → Option Text
selected_wallet storage = text_of (get_item selected_wallet_key storage)

abbrev pub connected_to : Text → WalletState
connected_to address = record {
  public_key = some address;
  is_connected = true;
  is_initializing = false;
  kit = true;
}

abbrev pub or_new : Option Kit → String → Text → Kit
or_new (some kit) passphrase freighter = kit
or_new none passphrase freighter = record {
  network = or_futurenet (infer_wallet_network passphrase);
  wallet_id = freighter;
}

-- `supported` tells which ids `setWallet` of the kit takes; it throws on the others.
module _ (supported : Text → Bool) where
  -- `checkConnection` up to the question for the address.
  abbrev pub check_connection : Kit → Option Text → Session → Session
  check_connection kit none s = record s { wallet = record s.wallet { is_initializing = false } }
  check_connection kit (some []) s = record s {
    wallet = record s.wallet { is_initializing = false };
  }
  check_connection kit (some (c ∷ id)) s =
      if supported (c ∷ id)
      then record s { global_kit = some (record kit { wallet_id = c ∷ id }); reconnecting = true }
      else record s {
        wallet = record s.wallet { is_initializing = false };
        storage = remove_item selected_wallet_key s.storage;
      }

  -- The effect of the hook, with the network's passphrase and the id of Freighter.
  unfoldable pub mount : String → Text → Session → Session
  unfolding infer_wallet_network selected_wallet
  mount passphrase freighter s =
      let kit = or_new s.global_kit passphrase freighter in
      check_connection kit (selected_wallet s.storage)
        (record s { wallet = record s.wallet { kit = true }; global_kit = some kit })

  -- The wallet's answer to the automatic reconnection; an empty address changes no state.
  abbrev pub reconnected : Result Text → Session → Session
  reconnected (ok []) s = record s { reconnecting = false }
  reconnected (ok (c ∷ address)) s = record s {
    wallet = connected_to (c ∷ address);
    reconnecting = false;
  }
  reconnected (err e) s = record s {
    wallet = record s.wallet { is_initializing = false };
    storage = remove_item selected_wallet_key s.storage;
    reconnecting = false;
  }

  unfoldable pub answer_reconnection : Result Text → Session → Session
  answer_reconnection r s = if s.reconnecting then reconnected r s else s

  abbrev pub addressed : Text → Result Text → Session → Session
  addressed id (err e) s = s
  addressed id (ok address) s = record s {
    wallet = connected_to address;
    storage = set_item selected_wallet_key (other id) s.storage;
  }

  abbrev pub select : Text → Result Text → Option Kit → Session → Session
  select id r none s = s
  select id r (some kit) s =
      if supported id
      then addressed id r (record s { global_kit = some (record kit { wallet_id = id }) })
      else s

  -- `connect`, when the user picks the wallet `id` in the modal and it answers `r`. An error is thrown on.
  unfoldable pub connect : Text → Result Text → Session → Session
  connect id r s = select id r s.global_kit s

-- `key.includes(part)`
abbrev pub contains : Text → Text → Bool
contains part [] = starts_with [] part
contains part (c ∷ s) = starts_with (c ∷ s) part || contains part s

unfoldable pub is_wallet_key : Text → Bool
unfolding starts_with to_lower_case
is_wallet_key key =
    starts_with key (codes "SWK")
    || contains (codes "stellar") (to_lower_case key)
    || contains (codes "wallet") (to_lower_case key)
    || contains (codes "freighter") (to_lower_case key)
    || contains (codes "albedo") (to_lower_case key)
    || contains (codes "xbull") (to_lower_case key)

unfoldable pub wallet_keys : Storage → List Text
unfolding is_wallet_key
wallet_keys [] = []
wallet_keys ((k, v) ∷ storage) =
    let rest = wallet_keys storage in if is_wallet_key k then k ∷ rest else rest

abbrev pub is_kit : Option Kit → Bool
is_kit none = false
is_kit (some kit) = true

unfoldable pub disconnect : Session → Session
unfolding wallet_keys remove_all
disconnect s =
    let storage = remove_item selected_wallet_key s.storage in
    record s {
      wallet = record {
        public_key = none;
        is_connected = false;
        is_initializing = false;
        kit = is_kit s.global_kit;
      };
      storage = remove_all (wallet_keys storage) storage;
    }
