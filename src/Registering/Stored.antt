-- ===== src/Registering/Stored.antt =====
-- DAODashboard.tsx, ProposalPage.tsx and lib/zk.ts together: what a registration leaves in the browser.
use zkvote.Prelude.{
  ℕ, ◌+◌, ◌≤◌, ◌≡◌, refl, sym, ap, ◌∙◌, subst, true, false, ◌&&◌, Option, none, some, ◌==◌, if_elim,
  if_false, arith, same_text, same_text_refl, if◌then◌else◌,
}
use zkvote.Hex.{Text}
use zkvote.Browser.{
  ZkCredentials, Registration, Storage, get_zk_credentials, store_zk_credentials, is_expired,
  credential_cache_ttl_ms,
}
use zkvote.Browser.Credentials.{get_zk_credentials-store_zk_credentials}
use zkvote.Registering.{Thrown, Try, value, raised, ◌then◌, Chain, signed, Enrolled, enrol}
use zkvote.Registering.Dashboard.{
  Dashboard, After, cached_for, credentials_for, wrap, enrolled_dashboard, with_cached, with_kit,
  no_kit, register_on_dashboard, checked, check_registration_status, or_empty,
}
use zkvote.Registering.Page.{Page, enrolled_page, register_as, register_on_page}

-- Credentials of a member of the contract's tree, of which something holds, stored with their leaf index.
pub record Kept (Good : ZkCredentials → Type 0) (chain : Chain) (prefix : Text) (at dao_id : ℕ)
    (key : Text) (storage : Storage) : Type 0 where
  pub credentials : ZkCredentials
  pub leaf_index : ℕ
  pub before : Storage
  pub good : Good credentials
  pub in_tree : chain.get_leaf_index dao_id credentials.commitment ≡ value leaf_index
  pub is_stored : storage ≡ store_zk_credentials prefix at dao_id key credentials leaf_index before

bind-value :
    {A B : Type 0} (r : Try A) (f : A → Try B) (b : B)
    → (r then f) ≡ value b
    → (a : A) × (r ≡ value a) × (f a ≡ value b)
bind-value (value a) f b h = (a, refl, h)
bind-value (raised e) f b h = absurd (ground (arith, h))

pub value_injective : {A : Type 0} (a b : A) → ◌≡◌ {A = Try A} (value a) (value b) → a ≡ b
value_injective a b e = ground (arith, e)

enrol-in_tree :
    (Good : ZkCredentials → Type 0) (chain : Chain) (wrapped : Thrown → Thrown) (dao_id : ℕ)
    (caller : Text) (c : ZkCredentials) (e : Enrolled)
    → Good c
    → enrol chain wrapped dao_id caller c ≡ value e
    → (chain.get_leaf_index dao_id e.credentials.commitment ≡ value e.leaf_index)
      × Good e.credentials
unfolding enrol
enrol-in_tree Good chain wrapped dao_id caller c e good h =
    let (tx, built, h1) = bind-value (chain.register dao_id c.commitment caller) _ e h in
    let (sent, signs, h2) =
      bind-value (signed wrapped (chain.sign_and_send dao_id c.commitment caller)) _ e h1 in
    let (leaf_index, read, h3) = bind-value (chain.get_leaf_index dao_id c.commitment) _ e h2 in
    subst
      (λ x.
        (chain.get_leaf_index dao_id x.credentials.commitment ≡ value x.leaf_index)
        × Good x.credentials)
      (value_injective _ e h3) (read, good)

-- Whatever the steps give is in the tree.
abbrev AllInTree : (ZkCredentials → Type 0) → Chain → ℕ → Try Enrolled → Type 0
AllInTree Good chain dao_id r =
    (e : Enrolled)
    → r ≡ value e
    → (chain.get_leaf_index dao_id e.credentials.commitment ≡ value e.leaf_index)
      × Good e.credentials

raised-AllInTree :
    (Good : ZkCredentials → Type 0) (chain : Chain) (dao_id : ℕ) (t : Thrown)
    → AllInTree Good chain dao_id (raised t)
raised-AllInTree Good chain dao_id t e h = absurd (ground (arith, h))

then_enrol-AllInTree :
    (Good : ZkCredentials → Type 0) (chain : Chain) (wrapped : Thrown → Thrown) (dao_id : ℕ)
    (caller : Text) (r : Try ZkCredentials)
    → ((c : ZkCredentials) → r ≡ value c → Good c)
    → AllInTree Good chain dao_id (r then λ c. enrol chain wrapped dao_id caller c)
then_enrol-AllInTree Good chain wrapped dao_id caller r good e h =
    let (c, has, runs) = bind-value r _ e h in
    enrol-in_tree Good chain wrapped dao_id caller c e (good c has) runs

enrolled_dashboard-Kept :
    (Good : ZkCredentials → Type 0) (chain : Chain) (prefix : Text) (at dao_id : ℕ)
    (public_key : Option Text) (state : Dashboard) (storage : Storage) (r : Try Enrolled)
    → AllInTree Good chain dao_id r
    → state.is_registered ≡ false
    → (enrolled_dashboard prefix at dao_id public_key state storage r).state.is_registered ≡ true
    → Kept Good chain prefix at dao_id
        (or_empty public_key)
        (enrolled_dashboard prefix at dao_id public_key state storage r).storage
unfolding enrolled_dashboard
enrolled_dashboard-Kept Good chain prefix at dao_id public_key state storage (raised e) all fresh
      h =
    absurd (ground (arith, sym fresh ∙ h))
enrolled_dashboard-Kept Good chain prefix at dao_id public_key state storage (value e) all fresh h =
    record {
      credentials = e.credentials;
      leaf_index = e.leaf_index;
      before = storage;
      good = (all e refl).1;
      in_tree = (all e refl).0;
      is_stored = refl;
    }

enrolled_page-Kept :
    (Good : ZkCredentials → Type 0) (chain : Chain) (prefix : Text) (at dao_id : ℕ) (key : Text)
    (page : Page) (storage : Storage) (r : Try Enrolled)
    → AllInTree Good chain dao_id r
    → page.is_registered ≡ false
    → (enrolled_page prefix at dao_id key page storage r).0.is_registered ≡ true
    → Kept Good chain prefix at dao_id key (enrolled_page prefix at dao_id key page storage r).1
unfolding enrolled_page
enrolled_page-Kept Good chain prefix at dao_id key page storage (raised e) all fresh h =
    absurd (ground (arith, sym fresh ∙ h))
enrolled_page-Kept Good chain prefix at dao_id key page storage (value e) all fresh h = record {
  credentials = e.credentials;
  leaf_index = e.leaf_index;
  before = storage;
  good = (all e refl).1;
  in_tree = (all e refl).0;
  is_stored = refl;
}

-- What the dashboard's handler goes on with: new credentials of the wallet, or those found in the storage.
abbrev pub AllGood :
    (ZkCredentials → Type 0) → Chain → Text → ℕ → ℕ → Option Text → Dashboard → Storage → Type 0
AllGood Good chain prefix now dao_id public_key state storage =
    (generate : ℕ → Try ZkCredentials) (c : ZkCredentials)
    → chain.kit ≡ some generate
    → credentials_for generate dao_id state.has_unregistered_credentials
        (cached_for prefix now dao_id public_key storage).0
      ≡ value c
    → Good c

module _ (Good : ZkCredentials → Type 0) (chain : Chain) (prefix : Text) (now at dao_id : ℕ) where
  with_kit-Kept :
      (public_key : Option Text) (state : Dashboard) (storage : Storage)
      (kit : Option (ℕ → Try ZkCredentials))
      → AllGood Good chain prefix now dao_id public_key state storage
      → chain.kit ≡ kit
      → state.is_registered ≡ false
      → (with_kit chain prefix now at dao_id public_key state storage kit).state.is_registered
        ≡ true
      → Kept Good chain prefix at dao_id
          (or_empty public_key)
          (with_kit chain prefix now at dao_id public_key state storage kit).storage
  unfolding with_cached
  with_kit-Kept public_key state storage none good is fresh h =
      enrolled_dashboard-Kept Good chain prefix at dao_id public_key state storage (raised no_kit)
        (raised-AllInTree Good chain dao_id no_kit) fresh h
  with_kit-Kept public_key state storage (some generate) good is fresh h =
      let found = cached_for prefix now dao_id public_key storage in
      enrolled_dashboard-Kept Good chain prefix at dao_id public_key state found.1 _
        (then_enrol-AllInTree Good chain wrap dao_id (or_empty public_key)
          (credentials_for generate dao_id state.has_unregistered_credentials found.0)
          (λ c. good generate c is))
        fresh h

  pub register_on_dashboard-Kept :
      (public_key : Option Text) (state : Dashboard) (storage : Storage)
      → AllGood Good chain prefix now dao_id public_key state storage
      → state.is_registered ≡ false
      → (register_on_dashboard chain prefix now at dao_id public_key state
          storage).state.is_registered
        ≡ true
      → Kept Good chain prefix at dao_id
          (or_empty public_key)
          (register_on_dashboard chain prefix now at dao_id public_key state storage).storage
  unfolding register_on_dashboard
  register_on_dashboard-Kept public_key state storage good fresh =
      if_elim {A = After} state.registering
        (λ r.
          r.state.is_registered ≡ true
          → Kept Good chain prefix at dao_id (or_empty public_key) r.storage)
        _ _ (λ busy h. absurd (ground (arith, sym fresh ∙ h)))
        (λ idle h. with_kit-Kept public_key state storage chain.kit good refl fresh h)

register_as-Kept :
    (Good : ZkCredentials → Type 0) (chain : Chain) (prefix : Text) (at : ℕ) (page : Page)
    (storage : Storage) (key : Text) (kit : Option (ℕ → Try ZkCredentials)) (d : ℕ)
    → ((generate : ℕ → Try ZkCredentials) (c : ZkCredentials)
        → kit ≡ some generate
        → generate d ≡ value c
        → Good c)
    → page.is_registered ≡ false
    → (register_as chain prefix at page storage (some key) kit (some d)).0.is_registered ≡ true
    → Kept Good chain prefix at d key
        (register_as chain prefix at page storage (some key) kit (some d)).1
register_as-Kept Good chain prefix at page storage key none d good fresh h =
    absurd (ground (arith, sym fresh ∙ h))
register_as-Kept Good chain prefix at page storage key (some generate) d good fresh h =
    enrolled_page-Kept Good chain prefix at d key page storage
      (generate d then λ c. enrol chain (λ e. e) d key c)
      (then_enrol-AllInTree Good chain (λ e. e) d key (generate d) (λ c. good generate c refl))
      fresh h

pub register_on_page-Kept :
    (Good : ZkCredentials → Type 0) (chain : Chain) (prefix : Text) (at d : ℕ) (key : Text)
    (page : Page) (storage : Storage)
    → ((generate : ℕ → Try ZkCredentials) (c : ZkCredentials)
        → chain.kit ≡ some generate
        → generate d ≡ value c
        → Good c)
    → page.is_registered ≡ false
    → (register_on_page chain prefix at (some d) (some key) page storage).0.is_registered ≡ true
    → Kept Good chain prefix at d key
        (register_on_page chain prefix at (some d) (some key) page storage).1
unfolding register_on_page
register_on_page-Kept Good chain prefix at d key page storage good fresh =
    if_elim {A = Page × Storage} page.registering
      (λ r. r.0.is_registered ≡ true → Kept Good chain prefix at d key r.1) _ _
      (λ busy h. absurd (ground (arith, sym fresh ∙ h)))
      (λ idle h. register_as-Kept Good chain prefix at page storage key chain.kit d good fresh h)

fresh_enough :
    (t at : ℕ) (c : ZkCredentials) (leaf_index : ℕ)
    → t ≤ at + credential_cache_ttl_ms
    → is_expired t (record { credentials = c; leaf_index = leaf_index; registered_at = at }) ≡ false
fresh_enough t at c leaf_index h = ground (arith, h)

-- Within six hours the lookup gives what was stored.
pub get-Kept :
    (Good : ZkCredentials → Type 0) (chain : Chain) (prefix : Text) (t at dao_id : ℕ) (key : Text)
    (storage : Storage) (k : Kept Good chain prefix at dao_id key storage)
    → t ≤ at + credential_cache_ttl_ms
    → get_zk_credentials prefix t dao_id key storage ≡ (
      some (record { credentials = k.credentials; leaf_index = k.leaf_index; registered_at = at }),
      (get_zk_credentials prefix t dao_id key storage).1,
    )
get-Kept Good chain prefix t at dao_id key storage k h =
    let r : Registration = record {
      credentials = k.credentials;
      leaf_index = k.leaf_index;
      registered_at = at;
    } in
    let same : (dao_id == dao_id && same_text key key) ≡ true =
      ground (arith, same_text_refl key) in
    let first : (get_zk_credentials prefix t dao_id key storage).0 ≡ some r =
      ap (λ s. (get_zk_credentials prefix t dao_id key s).0) k.is_stored
      ∙ (get_zk_credentials-store_zk_credentials prefix t at dao_id dao_id key key k.credentials
            k.leaf_index k.before
          ∙ rw (same, fresh_enough t at k.credentials k.leaf_index h) refl) in
    ap (λ o. (o, (get_zk_credentials prefix t dao_id key storage).1)) first

-- The status is checked against the leaf that the contract gives by then.
pub checked-Kept :
    (Good : ZkCredentials → Type 0) (chain later : Chain) (prefix : Text) (t at dao_id : ℕ)
    (key : Text) (storage : Storage) (state : Dashboard)
    → ((commitment leaf_index : ℕ)
        → chain.get_leaf_index dao_id commitment ≡ value leaf_index
        → later.get_leaf_index dao_id commitment ≡ value leaf_index)
    → Kept Good chain prefix at dao_id key storage
    → state.registering ≡ false
    → t ≤ at + credential_cache_ttl_ms
    → check_registration_status later prefix t dao_id (some key) state storage ≡ (
      record state { is_registered = true; has_unregistered_credentials = false },
      (get_zk_credentials prefix t dao_id key storage).1,
    )
unfolding check_registration_status
checked-Kept Good chain later prefix t at dao_id key storage state steady k idle soon =
    let same : (k.leaf_index == k.leaf_index) ≡ true = ground arith in
    if_false state.registering _ _ idle
    ∙ (ap (checked later dao_id (some key) state)
          (get-Kept Good chain prefix t at dao_id key storage k soon)
        ∙ rw (steady k.credentials.commitment k.leaf_index k.in_tree, same) refl)
