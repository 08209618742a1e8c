-- ===== src/Relay.antt =====
-- What the routes of the relayer share (backend/src/services/stellar.ts, backend/src/config.ts): calls
-- of the Soroban RPC server with a time limit, with retries, and in a polling loop, and the sequence
-- by which a transaction is simulated, sent and awaited. A call is what it settles with and after how
-- many milliseconds; one request's answers of the server are a parameter.
pub mod Waiting
pub mod Vote
pub mod VoteLaws
pub mod VoteAccepted
pub mod Comments
pub mod CommentLaws
pub mod Guards
pub mod Reads
pub mod Listing
pub mod GuardLaws
use Prim.Native.String.{◌++◌ as text_append}
use text.Mathlib.Text.{find?}
use zkvote.Prelude.{
  ℕ, zero, suc, ◌+◌, ◌*◌, ◌^◌, ◌<◌, ◌≡◌, refl, arith, String, Bool, true, false, Option, none, some,
  List, [], ◌∷◌, Result, ok, err, ltb, if◌then◌else◌,
}
use zkvote.Hex.{Text}
use zkvote.Stellar.{ScVal}
use zkvote.Indexer.{TxStatus, success, failed, not_found}

-- A promise: what it settles with, and after how many milliseconds.
pub data Async {ℓ} (A : Type ℓ) : Type ℓ where
  settles : Result A → ℕ → Async A

module _ {ℓ} {A : Type ℓ} where
  abbrev pub result_of : Async A → Result A
  result_of (settles r ms) = r

  abbrev pub time_of : Async A → ℕ
  time_of (settles r ms) = ms

  abbrev pub delayed : ℕ → Async A → Async A
  delayed d (settles r ms) = settles r (d + ms)

  -- The wait after a failed attempt, and what follows on its error.
  abbrev pub attempt_or : Async A → ℕ → (String → Async A) → Async A
  attempt_or (settles (ok a) ms) wait rest = settles (ok a) ms
  attempt_or (settles (err e) ms) wait rest = delayed (ms + wait) (rest e)

  -- The attempts that are left, the number of the next one, and the last error.
  unfoldable pub retry : ℕ → ℕ → (ℕ → Async A) → String → Async A
  retry zero i f last = settles (err last) 0
  retry (suc n) i f last = attempt_or (f i) (200 * i) (retry n (suc i) f)

  -- The text stands for the null that is thrown if there are no attempts.
  unfoldable pub simulate_with_backoff : (ℕ → Async A) → ℕ → Async A
  unfolding retry
  simulate_with_backoff simulate_fn attempts = retry attempts 1 simulate_fn "null"

-- A round of the loop: only the answer NOT_FOUND goes on, after a second.
abbrev pub next_poll : Async TxStatus → Async TxStatus → Async TxStatus
next_poll (settles (ok not_found) ms) rest = delayed (ms + 1000) rest
next_poll (settles (ok (success ledger)) ms) rest = settles (ok (success ledger)) ms
next_poll (settles (ok failed) ms) rest = settles (ok failed) ms
next_poll (settles (err e) ms) rest = settles (err e) ms

-- The attempts that are left, and the number of those made.
unfoldable pub poll_transaction : ℕ → ℕ → (ℕ → Async TxStatus) → Async TxStatus
poll_transaction zero attempts f = settles (err "Transaction not found after timeout") 0
poll_transaction (suc n) attempts f = next_poll (f attempts) (poll_transaction n (suc attempts) f)

unfoldable pub wait_for_transaction : (ℕ → Async TxStatus) → Async TxStatus
wait_for_transaction get_transaction = poll_transaction 30 0 get_transaction

-- `message.includes(part)`
abbrev pub includes : String → String → Bool
includes message part = elim (find? message part) [ none ↦ false | some at ↦ true ]

abbrev pub timeout_message : (ℕ → String) → ℕ → String → String
timeout_message show limit label =
    text_append "Timeout: " (text_append label (text_append " (" (text_append (show limit) "ms)")))

-- The timer is set first, so it wins a tie.
unfoldable pub call_with_timeout {ℓ} : {A : Type ℓ} → (ℕ → String) → ℕ → Async A → String → Async A
call_with_timeout show limit (settles r ms) label =
    if ltb ms limit then settles r ms else settles (err (timeout_message show limit label)) limit

-- The arguments of a contract call, as `nativeToScVal` is told to encode them.
pub data Arg : Type 0 where
  u64 : ℕ → Arg
  flag : Bool → Arg
  content : Text → Arg
  maybe_id : Option ℕ → Arg
  sc_val : ScVal → Arg
  address : Text → Arg

-- `nativeToScVal(n, { type: 'u64' })` of a number that is not negative; what the SDK throws out of range has a text
-- that is not modelled.
unfoldable pub u64_arg : ℕ → Result Arg
u64_arg n = if ltb n (2 ^ 64) then ok (u64 n) else err "invalid u64"

-- `nativeToScVal` of a BigInt or of null; an integer of the SDK has at most 256 bits.
unfoldable pub parent_arg : Option ℕ → Result Arg
parent_arg none = ok (maybe_id none)
parent_arg (some n) = if ltb n (2 ^ 256) then ok (maybe_id (some n)) else err "invalid integer"

pub u64_arg-eq-ok : (n : ℕ) → n < 2 ^ 64 → u64_arg n ≡ ok (u64 n)
unfolding u64_arg
u64_arg-eq-ok n h = ground (arith, h)

abbrev pub FitsParent : Option ℕ → Type 0
FitsParent none = Unit {0}
FitsParent (some n) = n < 2 ^ 256

pub parent_arg-eq-ok : (p : Option ℕ) → FitsParent p → parent_arg p ≡ ok (maybe_id p)
unfolding parent_arg
parent_arg-eq-ok none h = refl
parent_arg-eq-ok (some n) h = ground (arith, h)

pub record Operation : Type 0 where
  pub method : String
  pub args : List Arg

-- `simulated` has the value that the call returns; `not_simulated` the text of the error, if any.
pub data SimResult (V : Type 0) : Type 0 where
  simulated : Option V → SimResult V
  not_simulated : Option String → SimResult V

pub data SendResult : Type 0 where
  rejected : SendResult
  accepted : String → SendResult

-- The server's answers to the calls of one request; the attempts of a simulation count from 1, those
-- of the polling loop from 0.
pub record Rpc (V : Type 0) : Type 0 where
  pub get_account : Async (Unit {0})
  pub simulate : ℕ → Async (SimResult V)
  pub send : Async SendResult
  pub get_transaction : ℕ → Async TxStatus

pub record Config : Type 0 where
  pub rpc_timeout_ms : ℕ
  pub relayer_auth_token : Option Text
  -- `none` for the wildcard
  pub cors_origins : Option (List Text)
  pub strip_request_bodies : Bool
  pub generic_errors : Bool
  pub test_mode : Bool

-- The labels of the calls with a time limit.
pub record Labels : Type 0 where
  pub simulate : String
  pub send : String
  pub wait : String

-- How the sequence ends: an error is thrown, or the simulation fails, or the server rejects the
-- transaction, or it is awaited. `X` is what is read from the simulation's value.
pub data Ending (X : Type 0) : Type 0 where
  threw : String → Ending X
  simulation_failed : Option String → Ending X
  send_failed : Ending X
  settled : X → String → TxStatus → Ending X

-- What was given to `sendTransaction`, and how it ended.
pub record Submission (X : Type 0) : Type 0 where
  pub sent : List Operation
  pub ending : Ending X

module _ (show : ℕ → String) {V X : Type 0} (config : Config) (rpc : Rpc V) (labels : Labels)
    (op : Operation) where
  unfoldable pub after_wait : X → String → Result TxStatus → Ending X
  after_wait x hash (err e) = threw e
  after_wait x hash (ok status) = settled x hash status

  unfoldable pub after_send : X → Result SendResult → Ending X
  unfolding after_wait
  after_send x (err e) = threw e
  after_send x (ok rejected) = send_failed
  after_send x (ok (accepted hash)) = after_wait x hash (
      result_of (
        call_with_timeout show config.rpc_timeout_ms (wait_for_transaction rpc.get_transaction)
          labels.wait))

  unfoldable pub after_read : Result X → Submission X
  after_read (err e) = record { sent = []; ending = threw e }
  after_read (ok x) = record {
    sent = op ∷ [];
    ending =
        after_send x
          (result_of (call_with_timeout show config.rpc_timeout_ms rpc.send labels.send));
  }

  unfoldable pub after_simulation : (Option V → Result X) → Result (SimResult V) → Submission X
  after_simulation read (err e) = record { sent = []; ending = threw e }
  after_simulation read (ok (not_simulated e)) = record { sent = []; ending = simulation_failed e }
  after_simulation read (ok (simulated v)) = after_read (read v)

  unfoldable pub after_account : (Option V → Result X) → Result (Unit {0}) → Submission X
  after_account read (err e) = record { sent = []; ending = threw e }
  after_account read (ok account) = after_simulation read (
      result_of (
        call_with_timeout show config.rpc_timeout_ms (simulate_with_backoff rpc.simulate 3)
          labels.simulate))

  -- From `getAccount` to the end of `waitForTransaction`.
  unfoldable pub submit : (Option V → Result X) → Submission X
  submit read = after_account read (result_of rpc.get_account)
