-- ===== src/Relay/Waiting.antt =====
-- The polling loop, the retries and the time limit of backend/src/services/stellar.ts.
use zkvote.Prelude.{
  ℕ, zero, suc, ◌+◌, ◌*◌, ◌⊎◌, ap, sym, subst, ◌≤◌, ◌<◌, ◌≡◌, refl, ◌∙◌, ◌≢◌, String, false, ok,
  err, ltb, arith, inl, inr,
}
use zkvote.Indexer.{TxStatus, success, failed, not_found}
use zkvote.Relay.{
  Async, settles, result_of, time_of, attempt_or, next_poll, delayed, retry, simulate_with_backoff,
  poll_transaction, wait_for_transaction, call_with_timeout, timeout_message,
}

le_cases : (a b : ℕ) → a ≤ b → (a ≡ b) ⊎ (a < b)
le_cases a b l = ground arith

result_of-next_poll_not_found :
    (p rest : Async TxStatus)
    → result_of p ≡ ok not_found
    → result_of (next_poll p rest) ≡ result_of rest
result_of-next_poll_not_found (settles (ok not_found) ms) (settles r n) h = refl
result_of-next_poll_not_found (settles (ok (success l)) ms) rest h = absurd (ground arith)
result_of-next_poll_not_found (settles (ok failed) ms) rest h = absurd (ground arith)
result_of-next_poll_not_found (settles (err e) ms) rest h = absurd (ground arith)

result_of-next_poll_found :
    (p rest : Async TxStatus)
    → result_of p ≢ ok not_found
    → result_of (next_poll p rest) ≡ result_of p
result_of-next_poll_found (settles (ok not_found) ms) rest h = absurd (h refl)
result_of-next_poll_found (settles (ok (success l)) ms) rest h = refl
result_of-next_poll_found (settles (ok failed) ms) rest h = refl
result_of-next_poll_found (settles (err e) ms) rest h = refl

time_of-next_poll :
    (p rest : Async TxStatus)
    → result_of p ≡ ok not_found
    → 1000 + time_of rest ≤ time_of (next_poll p rest)
time_of-next_poll (settles (ok not_found) ms) (settles r n) h = omega arith
time_of-next_poll (settles (ok (success l)) ms) rest h = absurd (ground arith)
time_of-next_poll (settles (ok failed) ms) rest h = absurd (ground arith)
time_of-next_poll (settles (err e) ms) rest h = absurd (ground arith)

poll_finds :
    (n start at : ℕ) (f : ℕ → Async TxStatus)
    → start ≤ at
    → at < start + n
    → ((j : ℕ) → start ≤ j → j < at → result_of (f j) ≡ ok not_found)
    → result_of (f at) ≢ ok not_found
    → result_of (poll_transaction n start f) ≡ result_of (f at)
unfolding poll_transaction
poll_finds zero start at f l l' before found = absurd (omega arith)
poll_finds (suc n) start at f l l' before found = elim (le_cases start at l) [
  | inl e ↦
      subst
        (λ j. result_of (next_poll (f start) (poll_transaction n (suc start) f)) ≡ result_of (f j))
        e
        (result_of-next_poll_found (f start) (poll_transaction n (suc start) f)
          (subst (λ j. result_of (f j) ≢ ok not_found) (sym e) found))
  | inr lt ↦
      result_of-next_poll_not_found (f start) (poll_transaction n (suc start) f)
        (before start (omega arith) lt)
      ∙ poll_finds n (suc start) at f (omega arith) (omega arith)
          (λ j m m'. before j (omega arith) m') found
]

-- If the answers to the first `at` of the 30 attempts are NOT_FOUND, and the next one is anything
-- else, an error too, then that is what the loop settles with.
pub wait_for_transaction_finds :
    (f : ℕ → Async TxStatus) (at : ℕ)
    → at < 30
    → ((j : ℕ) → j < at → result_of (f j) ≡ ok not_found)
    → result_of (f at) ≢ ok not_found
    → result_of (wait_for_transaction f) ≡ result_of (f at)
unfolding wait_for_transaction
wait_for_transaction_finds f at l before found =
    poll_finds 30 0 at f (omega arith) (omega arith) (λ j m m'. before j m') found

time_of-poll :
    (n start : ℕ) (f : ℕ → Async TxStatus)
    → ((j : ℕ) → start ≤ j → j < start + n → result_of (f j) ≡ ok not_found)
    → n * 1000 ≤ time_of (poll_transaction n start f)
unfolding poll_transaction
time_of-poll zero start f h = omega arith
time_of-poll (suc n) start f h =
    let rest = poll_transaction n (suc start) f in
    omega (
      arith,
      time_of-next_poll (f start) rest (h start (omega arith) (omega arith)),
      time_of-poll n (suc start) f (λ j l l'. h j (omega arith) (omega arith)),
    )

call_with_timeout_late {ℓ} :
    {A : Type ℓ} (show : ℕ → String) (limit : ℕ) (p : Async A) (label : String)
    → limit ≤ time_of p
    → call_with_timeout show limit p label ≡ settles (err (timeout_message show limit label)) limit
unfolding call_with_timeout
call_with_timeout_late show limit (settles r ms) label h =
    let late : ltb ms limit ≡ false = ground arith in rw late refl

-- If all 30 answers are NOT_FOUND and the time limit is at most 30 seconds, as it is by default, then
-- the caller gets the time limit's error, and never the one that the loop throws at its end.
pub wait_for_transaction_times_out :
    (show : ℕ → String) (limit : ℕ) (label : String) (f : ℕ → Async TxStatus)
    → limit ≤ 30000
    → ((j : ℕ) → j < 30 → result_of (f j) ≡ ok not_found)
    → call_with_timeout show limit (wait_for_transaction f) label
      ≡ settles (err (timeout_message show limit label)) limit
unfolding wait_for_transaction
wait_for_transaction_times_out show limit label f l h =
    call_with_timeout_late show limit (poll_transaction 30 0 f) label
      (omega (arith, time_of-poll 30 0 f (λ j m m'. h j (omega arith))))

-- An attempt that throws.
abbrev pub Throws {ℓ} : {A : Type ℓ} → Async A → Type ℓ
Throws p = (e : String) × (result_of p ≡ err e)

module _ {ℓ} {A : Type ℓ} where
  result_of-attempt_ok :
      (p : Async A) (wait : ℕ) (rest : String → Async A) (a : A)
      → result_of p ≡ ok a
      → result_of (attempt_or p wait rest) ≡ ok a
  result_of-attempt_ok (settles (ok b) ms) wait rest a h = h
  result_of-attempt_ok (settles (err e) ms) wait rest a h = absurd (ground arith)

  result_of-delayed : (d : ℕ) (p : Async A) → result_of (delayed d p) ≡ result_of p
  result_of-delayed d (settles r ms) = refl

  result_of-attempt_err :
      (p : Async A) (wait : ℕ) (rest : String → Async A) (e : String)
      → result_of p ≡ err e
      → result_of (attempt_or p wait rest) ≡ result_of (rest e)
  result_of-attempt_err (settles (ok b) ms) wait rest e h = absurd (ground arith)
  result_of-attempt_err (settles (err c) ms) wait rest e h =
      let same : c ≡ e = ground arith in
      result_of-delayed (ms + wait) (rest c) ∙ ap (λ x. result_of (rest x)) same

  retry_finds :
      (n start at : ℕ) (f : ℕ → Async A) (last : String) (a : A)
      → start ≤ at
      → at < start + n
      → ((j : ℕ) → start ≤ j → j < at → Throws (f j))
      → result_of (f at) ≡ ok a
      → result_of (retry n start f last) ≡ ok a
  unfolding retry
  retry_finds zero start at f last a l l' before found = absurd (omega arith)
  retry_finds (suc n) start at f last a l l' before found = elim (le_cases start at l) [
    | inl e ↦
        result_of-attempt_ok (f start) (200 * start) (retry n (suc start) f) a
          (subst (λ j. result_of (f j) ≡ ok a) (sym e) found)
    | inr lt ↦
        let (c, thrown) = before start (omega arith) lt in
        result_of-attempt_err (f start) (200 * start) (retry n (suc start) f) c thrown
        ∙ retry_finds n (suc start) at f c a (omega arith) (omega arith)
            (λ j m m'. before j (omega arith) m') found
  ]

  -- The result is the first attempt that does not throw, if one of the attempts does not.
  pub simulate_with_backoff_finds :
      (f : ℕ → Async A) (attempts at : ℕ) (a : A)
      → 1 ≤ at
      → at ≤ attempts
      → ((j : ℕ) → 1 ≤ j → j < at → Throws (f j))
      → result_of (f at) ≡ ok a
      → result_of (simulate_with_backoff f attempts) ≡ ok a
  unfolding simulate_with_backoff
  simulate_with_backoff_finds f attempts at a l l' before found =
      retry_finds attempts 1 at f "null" a l (omega arith) before found
