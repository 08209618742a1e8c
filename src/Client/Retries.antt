-- ===== src/Client/Retries.antt =====
-- lib/api.ts: what a request ends with.
use zkvote.Prelude.{
  lt→ltb, ltb, ℕ, zero, suc, ◌+◌, ◌≤◌, ◌<◌, ◌≡◌, refl, ap, sym, subst, String, Bool, true, false,
  not, ◌&&◌, Option, none, some, if_true, if_false, arith,
}
use zkvote.Client.{
  RelayerState, mark_success, mark_failure, backoff_ms, is_in_backoff, FetchAnswer, responded,
  aborted, rate_limited, failed, Attempt, backing_off, last_error, response, threw, Fetched,
  after_attempt, fetch_rounds, relayer_fetch, retry_delay,
}

abbrev pub IsRetried : {R : Type 0} → FetchAnswer R → Type 0
IsRetried (rate_limited retry_after) = Unit
IsRetried (failed m) = Unit
IsRetried (responded r) = ⊥
IsRetried aborted = ⊥

pub record Answered {R : Type 0} (r : R) (sent : ℕ) (f : Fetched R) : Type 0 where
  pub result : f.result ≡ response r
  pub requests : f.sent ≡ sent
  pub connected : f.state.connected ≡ true
  pub no_failures : f.state.consecutive_failures ≡ 0
  pub no_backoff : f.state.backoff_until ≡ 0

pub record Failed {R : Type 0} (e : String) (sent count : ℕ) (f : Fetched R) : Type 0 where
  pub result : f.result ≡ threw (last_error e)
  pub requests : f.sent ≡ sent
  pub failures : f.state.consecutive_failures ≡ count
  pub backoff : f.state.backoff_until ≡ f.now + backoff_ms count

module _ {R : Type 0} where
  after_attempt_retried :
      (rounds attempt at : ℕ) (s : RelayerState) (e : Option String) (answer : FetchAnswer R)
      (next : ℕ → RelayerState → Option String → Fetched R) (P : Fetched R → Type 0)
      → IsRetried answer
      → ((now : ℕ) (s : RelayerState) (e : Option String) → P (next now s e))
      → P (after_attempt (suc rounds) attempt at s e answer next)
  unfolding after_attempt
  after_attempt_retried rounds attempt at s e (rate_limited a) next P h k = k _ _ _
  after_attempt_retried rounds attempt at s e (failed m) next P h k = k _ _ _
  after_attempt_retried rounds attempt at s e (responded r) next P h k = absurd h
  after_attempt_retried rounds attempt at s e aborted next P h k = absurd h

module _ {R : Type 0} (fetch : ℕ → Attempt R) where
  fetch_rounds_finds :
      (k rounds attempt now : ℕ) (s : RelayerState) (e : Option String) (r : R)
      → k < rounds
      → ((j : ℕ) → j < k → IsRetried (fetch (attempt + j)).answer)
      → (fetch (attempt + k)).answer ≡ responded r
      → Answered r (suc (attempt + k)) (fetch_rounds fetch rounds attempt now s e)
  unfolding fetch_rounds after_attempt mark_success
  fetch_rounds_finds k zero attempt now s e r l before h = absurd (omega arith)
  fetch_rounds_finds zero (suc rounds) attempt now s e r l before h =
      let z : attempt + 0 ≡ attempt = omega arith in
      let h' : (fetch attempt).answer ≡ responded r =
        subst (λ i. (fetch i).answer ≡ responded r) z h in
      rw (h', z)
        (record {
          result = refl;
          requests = refl;
          connected = refl;
          no_failures = refl;
          no_backoff = refl;
        })
  fetch_rounds_finds (suc k) (suc zero) attempt now s e r l before h = absurd (omega arith)
  fetch_rounds_finds (suc k) (suc (suc rounds)) attempt now s e r l before h =
      let z : attempt + 0 ≡ attempt = omega arith in
      let shift : (j : ℕ) → attempt + suc j ≡ suc attempt + j = λ j. omega arith in
      after_attempt_retried rounds attempt _ s e (fetch attempt).answer
        (fetch_rounds fetch (suc rounds) (suc attempt)) (Answered r (suc (attempt + suc k)))
        (subst (λ i. IsRetried (fetch i).answer) z (before 0 (omega arith)))
        (λ now' s' e'.
          subst (λ i. Answered r (suc i) (fetch_rounds fetch (suc rounds) (suc attempt) now' s' e'))
            (sym (shift k))
            (fetch_rounds_finds k (suc rounds) (suc attempt) now' s' e' r (omega arith)
              (λ j i.
                subst (λ i. IsRetried (fetch i).answer) (shift j) (before (suc j) (omega arith)))
              (subst (λ i. (fetch i).answer ≡ responded r) (shift k) h)))

  recounted :
      {p q c d : ℕ} (e : String) (f : Fetched R) → p ≡ q → c ≡ d → Failed e p c f → Failed e q d f
  recounted {p} {q} {c} {d} e f i j h =
      subst (λ n. Failed e n d f) i (subst (λ n. Failed e p n f) j h)

  -- Every round ends with an error that is retried.
  fetch_rounds_fails :
      (n attempt now : ℕ) (s : RelayerState) (e : Option String) (m : ℕ → String)
      → ((j : ℕ) → j ≤ n → (fetch (attempt + j)).answer ≡ failed (m j))
      → Failed
          (m n)
          (suc (attempt + n))
          (s.consecutive_failures + suc n)
          (fetch_rounds fetch (suc n) attempt now s e)
  unfolding fetch_rounds after_attempt mark_failure
  fetch_rounds_fails zero attempt now s e m h =
      let z : attempt + 0 ≡ attempt = omega arith in
      let h' : (fetch attempt).answer ≡ failed (m 0) =
        subst (λ i. (fetch i).answer ≡ failed (m 0)) z (h 0 (omega arith)) in
      rw (h', z) (record { result = refl; requests = refl; failures = refl; backoff = refl })
  fetch_rounds_fails (suc n) attempt now s e m h =
      let z : attempt + 0 ≡ attempt = omega arith in
      let shift : (j : ℕ) → attempt + suc j ≡ suc attempt + j = λ j. omega arith in
      let h' : (fetch attempt).answer ≡ failed (m 0) =
        subst (λ i. (fetch i).answer ≡ failed (m 0)) z (h 0 (omega arith)) in
      let at : ℕ = now + (fetch attempt).took in
      let state : RelayerState = mark_failure at s in
      rw h' (
        recounted (m (suc n))
          (fetch_rounds fetch (suc n) (suc attempt) (at + retry_delay attempt) state (some (m 0)))
          (ap suc (sym (shift n))) (omega arith)
          (fetch_rounds_fails n (suc attempt) (at + retry_delay attempt) state (some (m 0))
            (λ j. m (suc j))
            (λ j i.
              subst (λ i. (fetch i).answer ≡ failed (m (suc j))) (shift j)
                (h (suc j) (omega arith)))))

-- A request that is not held back answers with the first response that is no 429, after one request for each
-- attempt up to it, if that is among the allowed attempts and those before it were rate limited or failed
-- without an abort. The relayer then counts as connected, with no failures and no backoff.
pub relayer_fetch_finds :
    {R : Type 0} (fetch : ℕ → Attempt R) (k max_retries : ℕ) (skip : Bool) (now : ℕ)
    (s : RelayerState) (r : R)
    → (not skip && is_in_backoff now s) ≡ false
    → k < max_retries
    → ((j : ℕ) → j < k → IsRetried (fetch j).answer)
    → (fetch k).answer ≡ responded r
    → Answered r (suc k) (relayer_fetch fetch max_retries skip now s)
unfolding relayer_fetch
relayer_fetch_finds {R} fetch k max_retries skip now s r free l before h =
    let z : (j : ℕ) → j ≡ 0 + j = λ j. omega arith in
    subst (Answered r (suc k)) (sym (if_false {A = Fetched R} _ _ _ free)) (
      subst (λ i. Answered r (suc i) (fetch_rounds fetch max_retries 0 now s none)) (sym (z k))
        (fetch_rounds_finds fetch k max_retries 0 now s none r l
          (λ j i. subst (λ i. IsRetried (fetch i).answer) (z j) (before j i))
          (subst (λ i. (fetch i).answer ≡ responded r) (z k) h)))

-- When each of the allowed attempts of a request that is not held back fails with an error other than an abort,
-- it throws the last error after that many requests, and counts each of them as a failure; and until the backoff
-- for that count of failures has passed, a request that does not skip it is refused with nothing sent and the
-- state unchanged.
pub relayer_fetch_fails :
    {R : Type 0} (fetch fetch' : ℕ → Attempt R) (n max_retries : ℕ) (skip : Bool) (now later : ℕ)
    (s : RelayerState) (m : ℕ → String)
    → (not skip && is_in_backoff now s) ≡ false
    → ((j : ℕ) → j ≤ n → (fetch j).answer ≡ failed (m j))
    → later
      < (relayer_fetch fetch (suc n) skip now s).now + backoff_ms (s.consecutive_failures + suc n)
    → Failed (m n) (suc n) (s.consecutive_failures + suc n) (relayer_fetch fetch (suc n) skip now s)
      × (relayer_fetch fetch' max_retries false later (relayer_fetch fetch (suc n) skip now s).state
          ≡ record {
            result = threw backing_off;
            state = (relayer_fetch fetch (suc n) skip now s).state;
            now = later;
            sent = 0;
          })
relayer_fetch_fails {R} fetch fetch' n max_retries skip now later s m free h l = (failing, refused)
  where
    z : (j : ℕ) → j ≡ 0 + j
    z j = omega arith

    failing :
        Failed
          (m n)
          (suc n)
          (s.consecutive_failures + suc n)
          (relayer_fetch fetch (suc n) skip now s)
    failing =
        unfold relayer_fetch in
        subst (Failed (m n) (suc n) (s.consecutive_failures + suc n))
          (sym (if_false {A = Fetched R} _ _ _ free))
          (subst
            (λ i.
              Failed (m n) (suc i) (s.consecutive_failures + suc n)
                (fetch_rounds fetch (suc n) 0 now s none))
            (sym (z n))
            (fetch_rounds_fails fetch n 0 now s none m
              (λ j i. subst (λ i. (fetch i).answer ≡ failed (m j)) (z j) (h j i))))

    refused :
        relayer_fetch fetch' max_retries false later (relayer_fetch fetch (suc n) skip now s).state
        ≡ record {
          result = threw backing_off;
          state = (relayer_fetch fetch (suc n) skip now s).state;
          now = later;
          sent = 0;
        }
    refused =
        unfold relayer_fetch in
        if_true {A = Fetched R}
          (ltb later (relayer_fetch fetch (suc n) skip now s).state.backoff_until) _ _
          (lt→ltb _ _ (subst (λ b. later < b) (sym failing.backoff) l))
