-- ===== src/Examples/Wallets.antt =====
-- The connection to a wallet at concrete inputs.
use zkvote.Prelude.{◌≡◌, refl, codes, Bool, true, false, none, List, [], ◌∷◌, ok}
use zkvote.Hex.{Text}
use zkvote.Browser.{other, Storage, get_item}
use zkvote.Wallet.{
  Session, initial_wallet, connected_to, loaded, selected_wallet_key, selected_wallet, mount,
  disconnect, answer_reconnection, is_wallet_key,
}
use zkvote.Wallet.Sessions.{
  Step, mounts, answers, connects, disconnects, run, IsConsistent, run-IsConsistent,
  disconnect-lasts, disconnect-undone,
}

abbrev supported : Text → Bool
supported id = true

abbrev visited : Storage
visited = (selected_wallet_key, other (codes "albedo")) ∷ (codes "theme", other (codes "dark")) ∷ []

abbrev freighter : Text
freighter = codes "freighter"

abbrev steps : List Step
steps =
    mounts "Test SDF Network ; September 2015" freighter
    ∷ disconnects
    ∷ answers (ok (codes "GABC"))
    ∷ connects (codes "xbull") (ok (codes "GDEF"))
    ∷ []

run-IsConsistent_example : IsConsistent (run supported steps (loaded visited))
run-IsConsistent_example = run-IsConsistent supported steps visited

abbrev waiting : Session
waiting = mount supported "Test SDF Network ; September 2015" freighter (loaded visited)

is_waiting : waiting.reconnecting ≡ true
unfolding mount selected_wallet get_item
is_waiting = refl

disconnect-lasts_example :
    ((mount supported "" freighter (loaded (disconnect waiting).storage)).wallet
      ≡ record initial_wallet { is_initializing = false; kit = true })
    × ((mount supported "" freighter (loaded (disconnect waiting).storage)).reconnecting ≡ false)
disconnect-lasts_example = disconnect-lasts supported "" freighter waiting

disconnect-undone_example :
    ((answer_reconnection supported (ok (codes "GABC")) (disconnect waiting)).wallet
      ≡ connected_to (codes "GABC"))
    × (selected_wallet
          (answer_reconnection supported (ok (codes "GABC")) (disconnect waiting)).storage
        ≡ none)
disconnect-undone_example = disconnect-undone supported waiting b'G' (codes "ABC") is_waiting

xbull_key : is_wallet_key (codes "last-xBull-session") ≡ true
unfolding is_wallet_key
xbull_key = refl
