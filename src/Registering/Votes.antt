-- ===== src/Registering/Votes.antt =====
-- DAODashboard.tsx, ProposalPage.tsx and VoteModal.tsx together: voting after a registration, and registering after
-- a refusal.
use zkvote.Prelude.{
  ℕ, ◌+◌, ◌≤◌, ◌≡◌, refl, sym, ap, ◌∙◌, subst, Bool, true, false, Option, none, some, List, arith,
}
use zkvote.Hex.{Text}
use zkvote.Relay.Vote.{VoteRequest}
use zkvote.Client.{RelayerState}
use zkvote.Browser.{
  ZkCredentials, credentials_of, Registration, Storage, get_zk_credentials, credential_cache_ttl_ms,
}
use zkvote.Ballot.{World, Props}
use zkvote.Ballot.Casting.{handle_vote}
use zkvote.Ballot.Nullifier.{IsBallot, handle_vote-IsBallot}
use zkvote.Zkproof.{calculate_commitment}
use zkvote.Registering.{Try, value, raised, ◌then◌, Chain, signed_credentials}
use zkvote.Registering.Dashboard.{
  Dashboard, credentials_for, check_registration_status, register_on_dashboard,
}
use zkvote.Registering.Stored.{
  Kept, value_injective, get-Kept, checked-Kept, register_on_dashboard-Kept,
}

-- Made from a secret and a salt.
abbrev pub IsBound : (List ℕ → ℕ) → ZkCredentials → Type 0
IsBound poseidon c = c.commitment ≡ calculate_commitment poseidon c.secret c.salt

-- A vote for the secret of the stored registration, whose commitment is that of the secret and the stored salt, and was
-- at the stored leaf of the contract's tree.
pub record IsMembersBallot (chain : Chain) (w : World) (props : Props) (prefix : Text) (at t : ℕ)
    (storage : Storage) (choice : Bool) (body : VoteRequest) : Type 0 where
  pub credentials : ZkCredentials
  pub leaf_index : ℕ
  pub is_stored :
      (get_zk_credentials prefix t props.dao_id props.public_key storage).0
      ≡ some (record { credentials = credentials; leaf_index = leaf_index; registered_at = at })
  pub is_bound : IsBound w.poseidon credentials
  pub in_tree : chain.get_leaf_index props.dao_id credentials.commitment ≡ value leaf_index
  pub is_ballot : IsBallot w props choice credentials.secret body

signed_credentials-IsBound :
    (sha256 : Text → List ℕ) (poseidon : List ℕ → ℕ) (m : Try Text) (c : ZkCredentials)
    → (m then λ signed_message. value (credentials_of sha256 poseidon signed_message)) ≡ value c
    → IsBound poseidon c
unfolding credentials_of calculate_commitment
signed_credentials-IsBound sha256 poseidon (raised e) c h = absurd (ground (arith, h))
signed_credentials-IsBound sha256 poseidon (value m) c h =
    subst (IsBound poseidon) (value_injective _ c h) refl

kit_same :
    (f g : ℕ → Try ZkCredentials)
    → ◌≡◌ {A = Option (ℕ → Try ZkCredentials)} (some f) (some g)
    → f ≡ g
kit_same f g e = cc

-- What the handler goes on with: the stored credentials, or new ones.
credentials_for-IsBound :
    (poseidon : List ℕ → ℕ) (generate : ℕ → Try ZkCredentials) (dao_id : ℕ) (unregistered : Bool)
    (o : Option Registration) (c : ZkCredentials)
    → ((r : Registration) → o ≡ some r → IsBound poseidon r.credentials)
    → ((d : ZkCredentials) → generate dao_id ≡ value d → IsBound poseidon d)
    → credentials_for generate dao_id unregistered o ≡ value c
    → IsBound poseidon c
unfolding credentials_for
credentials_for-IsBound poseidon generate dao_id unregistered none c found made h = made c h
credentials_for-IsBound poseidon generate dao_id false (some r) c found made h = made c h
credentials_for-IsBound poseidon generate dao_id true (some r) c found made h =
    subst (IsBound poseidon) (value_injective r.credentials c h) (found r refl)

module _ (chain : Chain) (w : World) (props : Props) (prefix : Text) (at t later : ℕ)
    (choice : Bool) (relayer : RelayerState) (body : VoteRequest) (sent : ℕ) where
  Kept-votes :
      (storage : Storage)
      → Kept (IsBound w.poseidon) chain prefix at props.dao_id props.public_key storage
      → t ≤ at + credential_cache_ttl_ms
      → (handle_vote w props prefix t later choice storage relayer).posted ≡ some (body, sent)
      → IsMembersBallot chain w props prefix at t storage choice body
  Kept-votes storage k soon h =
      let r : Registration = record {
        credentials = k.credentials;
        leaf_index = k.leaf_index;
        registered_at = at;
      } in
      let got =
        get-Kept (IsBound w.poseidon) chain prefix t at props.dao_id props.public_key storage k
          soon in
      record {
        credentials = k.credentials;
        leaf_index = k.leaf_index;
        is_stored = ap (λ s. s.0) got;
        is_bound = k.good;
        in_tree = k.in_tree;
        is_ballot =
            handle_vote-IsBallot w props prefix t later choice storage
              (get_zk_credentials prefix t props.dao_id props.public_key storage).1 relayer r body
              sent got h;
      }

  module _ (sha256 : Text → List ℕ) (sign_message : ℕ → Try Text)
      (signs : chain.kit ≡ some (signed_credentials sha256 w.poseidon sign_message)) where
    -- Conditions: the wallet makes credentials from a signature, and a registration that the storage holds before has a
    -- commitment made from its secret and salt. A dashboard that was not registered and is so after its handler leaves
    -- a storage from which, for six hours, the voting dialog for the same DAO and account takes the secret for what it
    -- posts: a vote of the dialog's proposal and choice, for the stored secret, with a proof that the browser has
    -- verified. The stored commitment is Poseidon of that secret and the stored salt, and the contract gave the stored
    -- leaf for it when it was registered.
    pub register_on_dashboard-votes :
        (now : ℕ) (state : Dashboard) (storage : Storage)
        → ((r : Registration)
            → (get_zk_credentials prefix now props.dao_id props.public_key storage).0 ≡ some r
            → IsBound w.poseidon r.credentials)
        → state.is_registered ≡ false
        → (register_on_dashboard chain prefix now at props.dao_id
            (some props.public_key)
            state
            storage).state.is_registered
          ≡ true
        → t ≤ at + credential_cache_ttl_ms
        → (handle_vote w props prefix t later choice
            (register_on_dashboard chain prefix now at props.dao_id
              (some props.public_key)
              state
              storage).storage
            relayer).posted
          ≡ some (body, sent)
        → IsMembersBallot chain w props prefix at t
            (register_on_dashboard chain prefix now at props.dao_id
              (some props.public_key)
              state
              storage).storage
            choice
            body
    unfolding signed_credentials
    register_on_dashboard-votes now state storage found fresh done soon h =
        Kept-votes
          (register_on_dashboard chain prefix now at props.dao_id (some props.public_key) state
            storage).storage
          (register_on_dashboard-Kept (IsBound w.poseidon) chain prefix now at props.dao_id
            (some props.public_key) state storage
            (λ generate c is h'.
              credentials_for-IsBound w.poseidon generate props.dao_id
                state.has_unregistered_credentials
                (get_zk_credentials prefix now props.dao_id props.public_key storage).0 c found
                (subst
                  (λ (g : ℕ → Try ZkCredentials).
                    (d : ZkCredentials) → g props.dao_id ≡ value d → IsBound w.poseidon d)
                  (kit_same (signed_credentials sha256 w.poseidon sign_message) generate
                    (sym signs ∙ is))
                  (signed_credentials-IsBound sha256 w.poseidon (sign_message props.dao_id)))
                h')
            fresh done)
          soon h

-- After a dashboard that was not registered has registered an account, a check of its status within six hours, while
-- no handler runs, finds the account registered, whatever the status was before the check, if the contract still
-- answers at the check and gives every commitment the leaf that it gave at the registration.
pub check_registration_status-register :
    (chain later : Chain) (prefix : Text) (now at t dao_id : ℕ) (key : Text)
    (state later_state : Dashboard) (storage : Storage)
    → ((commitment leaf_index : ℕ)
        → chain.get_leaf_index dao_id commitment ≡ value leaf_index
        → later.get_leaf_index dao_id commitment ≡ value leaf_index)
    → state.is_registered ≡ false
    → (register_on_dashboard chain prefix now at dao_id
        (some key)
        state
        storage).state.is_registered
      ≡ true
    → later_state.registering ≡ false
    → t ≤ at + credential_cache_ttl_ms
    → (check_registration_status later prefix t dao_id
        (some key)
        later_state
        (register_on_dashboard chain prefix now at dao_id (some key) state storage).storage).0
      ≡ record later_state { is_registered = true; has_unregistered_credentials = false }
check_registration_status-register chain later prefix now at t dao_id key state later_state storage
      steady fresh done idle soon =
    ap (λ r. r.0)
      (checked-Kept (λ c. Unit {0}) chain later prefix t at dao_id key
        (register_on_dashboard chain prefix now at dao_id (some key) state storage).storage
        later_state steady
        (register_on_dashboard-Kept (λ c. Unit {0}) chain prefix now at dao_id (some key) state
          storage (λ generate c is h. tt) fresh done)
        idle soon)
