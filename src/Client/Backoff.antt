-- ===== src/Client/Backoff.antt =====
-- lib/api.ts: the state of the connection through any calls.
use zkvote.Prelude.{
  ℕ, zero, suc, ◌+◌, ◌≤◌, ◌≡◌, refl, ◌∙◌, String, Bool, true, false, not, Option, none, some, List,
  [], ◌∷◌, ◌++◌, if_elim, arith, Bool-cases, inl, inr,
}
use zkvote.Client.{
  RelayerState, initial_state, mark_success, mark_failure, disconnects, force_reconnect,
  FetchAnswer, responded, aborted, rate_limited, failed, Attempt, Fetched, after_attempt,
  fetch_rounds, relayer_fetch,
}

-- What a listener believes.
abbrev pub last_told : List Bool → Bool
last_told [] = true
last_told (b ∷ []) = b
last_told (b ∷ c ∷ notices) = last_told (c ∷ notices)

last_told-append : (notices : List Bool) (b : Bool) → last_told (notices ++ (b ∷ [])) ≡ b
last_told-append [] b = refl
last_told-append (a ∷ []) b = refl
last_told-append (a ∷ c ∷ notices) b = last_told-append (c ∷ notices) b

-- The listeners know the state, and the backoff ends at most 30 s after the last check.
pub record IsSound (s : RelayerState) : Type 0 where
  pub informed : last_told s.notices ≡ s.connected
  pub bounded : s.backoff_until ≤ s.last_checked + 30000

mark_success-IsSound : (now : ℕ) (s : RelayerState) → IsSound s → IsSound (mark_success now s)
unfolding mark_success
mark_success-IsSound now s h = record {
  informed =
      if_elim {A = List Bool} (not s.connected) (λ notices. last_told notices ≡ true) _ _
        (λ e. last_told-append s.notices true) (λ e. h.informed ∙ ground arith);
  bounded = omega arith;
}

mark_failure-IsSound : (now : ℕ) (s : RelayerState) → IsSound s → IsSound (mark_failure now s)
unfolding mark_failure
mark_failure-IsSound now s h = record {
  informed = elim (Bool-cases (disconnects s)) [
    | inl e ↦ rw e (last_told-append s.notices false)
    | inr e ↦ rw e h.informed
  ];
  bounded = omega arith;
}

module _ {R : Type 0} where
  after_attempt-IsSound :
      (rounds attempt at : ℕ) (s : RelayerState) (e : Option String) (answer : FetchAnswer R)
      (next : ℕ → RelayerState → Option String → Fetched R)
      → ((now : ℕ) (s : RelayerState) (e : Option String)
          → IsSound s
          → IsSound (next now s e).state)
      → IsSound s
      → IsSound (after_attempt rounds attempt at s e answer next).state
  unfolding after_attempt
  after_attempt-IsSound rounds attempt at s e (responded r) next k h = mark_success-IsSound at s h
  after_attempt-IsSound rounds attempt at s e aborted next k h = h
  after_attempt-IsSound zero attempt at s e (rate_limited a) next k h = mark_failure-IsSound at s h
  after_attempt-IsSound (suc rounds) attempt at s e (rate_limited a) next k h =
      k _ _ e (mark_failure-IsSound at s h)
  after_attempt-IsSound zero attempt at s e (failed m) next k h =
      k at _ (some m) (mark_failure-IsSound at s h)
  after_attempt-IsSound (suc rounds) attempt at s e (failed m) next k h =
      k _ _ (some m) (mark_failure-IsSound at s h)

  fetch_rounds-IsSound :
      (fetch : ℕ → Attempt R) (rounds attempt now : ℕ) (s : RelayerState) (e : Option String)
      → IsSound s
      → IsSound (fetch_rounds fetch rounds attempt now s e).state
  unfolding fetch_rounds
  fetch_rounds-IsSound fetch zero attempt now s e h = h
  fetch_rounds-IsSound fetch (suc rounds) attempt now s e h =
      after_attempt-IsSound rounds attempt (now + (fetch attempt).took) s e (fetch attempt).answer
        (fetch_rounds fetch rounds (suc attempt)) (fetch_rounds-IsSound fetch rounds (suc attempt))
        h

  relayer_fetch-IsSound :
      (fetch : ℕ → Attempt R) (max_retries : ℕ) (skip : Bool) (now : ℕ) (s : RelayerState)
      → IsSound s
      → IsSound (relayer_fetch fetch max_retries skip now s).state
  unfolding relayer_fetch
  relayer_fetch-IsSound fetch max_retries skip now s h =
      if_elim {A = Fetched R} _ (λ f. IsSound f.state) _ _ (λ e. h)
        (λ e. fetch_rounds-IsSound fetch max_retries 0 now s none h)

-- What the page does with the connection.
pub data Use (R : Type 0) : Type 0 where
  request : (ℕ → Attempt R) → ℕ → Bool → ℕ → Use R
  reconnect : Use R

unfoldable pub use_relayer : {R : Type 0} → List (Use R) → RelayerState → RelayerState
use_relayer [] s = s
use_relayer (request fetch max_retries skip now ∷ uses) s =
    use_relayer uses (relayer_fetch fetch max_retries skip now s).state
use_relayer (reconnect ∷ uses) s = use_relayer uses (force_reconnect s)

use_relayer-IsSound_from :
    {R : Type 0} (uses : List (Use R)) (s : RelayerState) → IsSound s → IsSound (use_relayer uses s)
unfolding use_relayer force_reconnect
use_relayer-IsSound_from [] s h = h
use_relayer-IsSound_from (request fetch max_retries skip now ∷ uses) s h =
    use_relayer-IsSound_from uses _ (relayer_fetch-IsSound fetch max_retries skip now s h)
use_relayer-IsSound_from (reconnect ∷ uses) s h =
    use_relayer-IsSound_from uses _ (record { informed = h.informed; bounded = omega arith })

-- From the start, through any requests at any times with any answers, and any forced reconnections, what the
-- listeners were told last is whether the relayer counts as connected, and the backoff ends at most 30 seconds
-- after the last check.
pub use_relayer-IsSound :
    {R : Type 0} (uses : List (Use R)) → IsSound (use_relayer uses initial_state)
use_relayer-IsSound uses =
    use_relayer-IsSound_from uses initial_state (record { informed = refl; bounded = omega arith })
