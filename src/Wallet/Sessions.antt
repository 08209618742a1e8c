-- ===== src/Wallet/Sessions.antt =====
-- useWallet.ts: sequences of the hook's steps, with the wallet's answers at any time.
use zkvote.Prelude.{
  ℕ, ◌≡◌, refl, sym, ap, ◌∙◌, String, Bool, true, false, not, ◌&&◌, Option, none, some, List, [],
  ◌∷◌, Result, ok, err, if_elim, arith, any, same_text, same_text_refl, if_true, if◌then◌else◌,
}
use zkvote.Hex.{Text}
use zkvote.Browser.{Item, Storage, get_item, remove_item}
use zkvote.Browser.Keys.{get_item-remove_item}
use zkvote.Browser.Caches.{get_item-remove_all}
use zkvote.Wallet.{
  Kit, Session, loaded, initial_wallet, selected_wallet_key, selected_wallet, text_of, connected_to,
  or_new, check_connection, mount, reconnected, answer_reconnection, addressed, select, connect,
  wallet_keys, is_kit, disconnect,
}

pub data Step : Type 0 where
  mounts : String → Text → Step
  answers : Result Text → Step
  connects : Text → Result Text → Step
  disconnects : Step

module _ (supported : Text → Bool) where
  unfoldable pub step : Step → Session → Session
  step (mounts passphrase freighter) s = mount supported passphrase freighter s
  step (answers r) s = answer_reconnection supported r s
  step (connects id r) s = connect supported id r s
  step disconnects s = disconnect s

  unfoldable pub run : List Step → Session → Session
  run [] s = s
  run (x ∷ steps) s = run steps (step x s)

abbrev pub has_address : Option Text → Bool
has_address none = false
has_address (some a) = true

-- Connected exactly with an address, and not still initializing; with the kit exactly if the module has it, which is
-- so while a reconnection waits.
pub record IsConsistent (s : Session) : Type 0 where
  pub address : s.wallet.is_connected ≡ has_address s.wallet.public_key
  pub started : (s.wallet.is_connected && s.wallet.is_initializing) ≡ false
  pub kit : s.wallet.kit ≡ is_kit s.global_kit
  pub waits : (s.reconnecting && not (is_kit s.global_kit)) ≡ false

and_false : (b : Bool) → (b && false) ≡ false
and_false true = refl
and_false false = refl

none_either : (b : Bool) → ◌≡◌ {A = Option Item} (if b then none else none) none
none_either true = refl
none_either false = refl

and_false_right : (b c : Bool) → (b && not c) ≡ false → b ≡ true → c ≡ true
and_false_right b c h e = ground (arith, h, e)

module _ (supported : Text → Bool) where
  check_connection-IsConsistent :
      (kit : Kit) (id : Option Text) (s : Session)
      → s.global_kit ≡ some kit
      → IsConsistent s
      → IsConsistent (check_connection supported kit id s)
  check_connection-IsConsistent kit none s has k = record {
    address = k.address;
    started = and_false s.wallet.is_connected;
    kit = k.kit;
    waits = k.waits;
  }
  check_connection-IsConsistent kit (some []) s has k = record {
    address = k.address;
    started = and_false s.wallet.is_connected;
    kit = k.kit;
    waits = k.waits;
  }
  check_connection-IsConsistent kit (some (c ∷ id)) s has k =
      if_elim {A = Session} (supported (c ∷ id)) (λ r. IsConsistent r) _ _
        (λ known. record {
          address = k.address;
          started = k.started;
          kit = k.kit ∙ ap is_kit has;
          waits = refl;
        })
        (λ unknown. record {
          address = k.address;
          started = and_false s.wallet.is_connected;
          kit = k.kit;
          waits = k.waits;
        })

  mount-IsConsistent :
      (passphrase : String) (freighter : Text) (s : Session)
      → IsConsistent s
      → IsConsistent (mount supported passphrase freighter s)
  unfolding mount
  mount-IsConsistent passphrase freighter s k =
      check_connection-IsConsistent (or_new s.global_kit passphrase freighter)
        (selected_wallet s.storage)
        (record s {
          wallet = record s.wallet { kit = true };
          global_kit = some (or_new s.global_kit passphrase freighter);
        })
        refl
        (record {
          address = k.address;
          started = k.started;
          kit = refl;
          waits = and_false s.reconnecting;
        })

  reconnected-IsConsistent :
      (r : Result Text) (s : Session)
      → s.reconnecting ≡ true
      → IsConsistent s
      → IsConsistent (reconnected supported r s)
  reconnected-IsConsistent (ok []) s waiting k = record {
    address = k.address;
    started = k.started;
    kit = k.kit;
    waits = refl;
  }
  reconnected-IsConsistent (ok (c ∷ a)) s waiting k = record {
    address = refl;
    started = refl;
    kit = sym (and_false_right s.reconnecting (is_kit s.global_kit) k.waits waiting);
    waits = refl;
  }
  reconnected-IsConsistent (err e) s waiting k = record {
    address = k.address;
    started = and_false s.wallet.is_connected;
    kit = k.kit;
    waits = refl;
  }

  answer_reconnection-IsConsistent :
      (r : Result Text) (s : Session)
      → IsConsistent s
      → IsConsistent (answer_reconnection supported r s)
  unfolding answer_reconnection
  answer_reconnection-IsConsistent r s k =
      if_elim {A = Session} s.reconnecting (λ x. IsConsistent x) _ _
        (λ waiting. reconnected-IsConsistent r s waiting k) (λ idle. k)

  addressed-IsConsistent :
      (id : Text) (r : Result Text) (kit kit' : Kit) (s : Session)
      → s.global_kit ≡ some kit
      → IsConsistent s
      → IsConsistent (addressed supported id r (record s { global_kit = some kit' }))
  addressed-IsConsistent id (err e) kit kit' s has k = record {
    address = k.address;
    started = k.started;
    kit = k.kit ∙ ap is_kit has;
    waits = and_false s.reconnecting;
  }
  addressed-IsConsistent id (ok address) kit kit' s has k = record {
    address = refl;
    started = refl;
    kit = refl;
    waits = and_false s.reconnecting;
  }

  select-IsConsistent :
      (id : Text) (r : Result Text) (kit : Option Kit) (s : Session)
      → s.global_kit ≡ kit
      → IsConsistent s
      → IsConsistent (select supported id r kit s)
  select-IsConsistent id r none s has k = k
  select-IsConsistent id r (some kit) s has k =
      if_elim {A = Session} (supported id) (λ x. IsConsistent x) _ _
        (λ known. addressed-IsConsistent id r kit (record kit { wallet_id = id }) s has k)
        (λ unknown. k)

  disconnect-IsConsistent : (s : Session) → IsConsistent s → IsConsistent (disconnect s)
  unfolding disconnect
  disconnect-IsConsistent s k = record {
    address = refl;
    started = refl;
    kit = refl;
    waits = k.waits;
  }

  step-IsConsistent : (x : Step) (s : Session) → IsConsistent s → IsConsistent (step supported x s)
  unfolding step connect
  step-IsConsistent (mounts passphrase freighter) s k = mount-IsConsistent passphrase freighter s k
  step-IsConsistent (answers r) s k = answer_reconnection-IsConsistent r s k
  step-IsConsistent (connects id r) s k = select-IsConsistent id r s.global_kit s refl k
  step-IsConsistent disconnects s k = disconnect-IsConsistent s k

  steps-IsConsistent :
      (steps : List Step) (s : Session) → IsConsistent s → IsConsistent (run supported steps s)
  unfolding run
  steps-IsConsistent [] s k = k
  steps-IsConsistent (x ∷ steps) s k =
      steps-IsConsistent steps (step supported x s) (step-IsConsistent x s k)

  -- From a page that was just loaded, through any mounts, connections, disconnections and answers of the wallet: the
  -- hook shows an address exactly when it is connected, is not initializing then, and has the kit exactly if the module
  -- has it, which is so while a reconnection waits.
  pub run-IsConsistent :
      (steps : List Step) (storage : Storage) → IsConsistent (run supported steps (loaded storage))
  run-IsConsistent steps storage =
      steps-IsConsistent steps (loaded storage)
        (record { address = refl; started = refl; kit = refl; waits = refl })

selected_wallet-disconnect : (s : Session) → selected_wallet (disconnect s).storage ≡ none
unfolding selected_wallet disconnect
selected_wallet-disconnect s =
    let kept = remove_item selected_wallet_key s.storage in
    let gone : get_item selected_wallet_key kept ≡ none =
      get_item-remove_item selected_wallet_key selected_wallet_key s.storage
      ∙ if_true {A = Option Item} (same_text selected_wallet_key selected_wallet_key) none
          (get_item selected_wallet_key s.storage) (same_text_refl selected_wallet_key) in
    ap text_of (
      get_item-remove_all selected_wallet_key (wallet_keys kept) kept
      ∙ (ap (λ o. if any (λ k. same_text k selected_wallet_key) (wallet_keys kept) then none else o)
            gone
          ∙ none_either (any (λ k. same_text k selected_wallet_key) (wallet_keys kept))))

-- After a disconnection, at any time, a page that is loaded anew with the storage that is left does not reconnect: it is
-- not initializing, not connected, and asks no wallet.
pub disconnect-lasts :
    (supported : Text → Bool) (passphrase : String) (freighter : Text) (s : Session)
    → ((mount supported passphrase freighter (loaded (disconnect s).storage)).wallet
        ≡ record initial_wallet { is_initializing = false; kit = true })
      × ((mount supported passphrase freighter (loaded (disconnect s).storage)).reconnecting
          ≡ false)
unfolding mount
disconnect-lasts supported passphrase freighter s =
    let none_selected = selected_wallet-disconnect s in
    (rw none_selected refl, rw none_selected refl)

-- An automatic reconnection that was waiting when the user disconnected connects the page when the wallet answers with an
-- address, and the storage then has no wallet.
pub disconnect-undone :
    (supported : Text → Bool) (s : Session) (c : ℕ) (address : Text)
    → s.reconnecting ≡ true
    → ((answer_reconnection supported (ok (c ∷ address)) (disconnect s)).wallet
        ≡ connected_to (c ∷ address))
      × (selected_wallet (answer_reconnection supported (ok (c ∷ address)) (disconnect s)).storage
          ≡ none)
unfolding answer_reconnection
disconnect-undone supported s c address waiting =
    let waits : (disconnect s).reconnecting ≡ true = unfold disconnect in waiting in
    (rw waits refl, rw waits (selected_wallet-disconnect s))
