-- ===== src/Client.antt =====
-- frontend/src/lib/api.ts: requests to the relayer with retries, and the state that backs off. The network is a
-- parameter: what the attempt of each number brings, and how long it takes. Times are in milliseconds.
pub mod Backoff
pub mod Retries
use zkvote.Prelude.{
  ℕ, zero, suc, ◌+◌, ◌-◌, ◌*◌, ◌^◌, min, String, Bool, true, false, not, ◌&&◌, Option, none, some,
  List, [], ◌∷◌, ◌++◌, ltb, leb, ◌==◌, if◌then◌else◌,
}

pub record RelayerState : Type 0 where
  pub connected : Bool
  pub last_checked : ℕ
  pub consecutive_failures : ℕ
  pub backoff_until : ℕ
  -- what a listener that subscribed at the start has been told since
  pub notices : List Bool

abbrev pub initial_state : RelayerState
initial_state = record {
  connected = true;
  last_checked = 0;
  consecutive_failures = 0;
  backoff_until = 0;
  notices = [];
}

unfoldable pub mark_success : ℕ → RelayerState → RelayerState
mark_success now s = record {
  connected = true;
  last_checked = now;
  consecutive_failures = 0;
  backoff_until = 0;
  notices = if not s.connected then s.notices ++ (true ∷ []) else s.notices;
}

abbrev pub backoff_ms : ℕ → ℕ
backoff_ms failures = min (1000 * 2 ^ (failures - 1)) 30000

-- After 3 failures in a row the relayer counts as disconnected.
abbrev pub disconnects : RelayerState → Bool
disconnects s = leb 3 (s.consecutive_failures + 1) && s.connected

unfoldable pub mark_failure : ℕ → RelayerState → RelayerState
mark_failure now s = record {
  connected = if disconnects s then false else s.connected;
  last_checked = now;
  consecutive_failures = s.consecutive_failures + 1;
  backoff_until = now + backoff_ms (s.consecutive_failures + 1);
  notices = if disconnects s then s.notices ++ (false ∷ []) else s.notices;
}

abbrev pub is_in_backoff : ℕ → RelayerState → Bool
is_in_backoff now s = ltb now s.backoff_until

unfoldable pub get_relayer_status : ℕ → RelayerState → Bool × ℕ
get_relayer_status now s = (s.connected, s.backoff_until - now)

-- `forceReconnect`
unfoldable pub force_reconnect : RelayerState → RelayerState
force_reconnect s = record {
  connected = s.connected;
  last_checked = s.last_checked;
  consecutive_failures = 0;
  backoff_until = 0;
  notices = s.notices;
}

-- A "Retry-After" header that is there and not empty: its number of seconds, or a text that is none.
pub data RetryAfter : Type 0 where
  missing : RetryAfter
  seconds : ℕ → RetryAfter
  not_a_number : RetryAfter

-- What one `fetch` brings: an answer with status 429, another answer, an abort by the caller's signal, or another
-- error, a time-out included.
pub data FetchAnswer (R : Type 0) : Type 0 where
  rate_limited : RetryAfter → FetchAnswer R
  responded : R → FetchAnswer R
  aborted : FetchAnswer R
  failed : String → FetchAnswer R

pub record Attempt (R : Type 0) : Type 0 where
  pub took : ℕ
  pub answer : FetchAnswer R

pub data FetchError : Type 0 where
  backing_off : FetchError
  too_many_requests : FetchError
  abort_error : FetchError
  last_error : String → FetchError
  -- "Failed to fetch from relayer"
  no_error : FetchError

pub data FetchResult (R : Type 0) : Type 0 where
  response : R → FetchResult R
  threw : FetchError → FetchResult R

pub record Fetched (R : Type 0) : Type 0 where
  pub result : FetchResult R
  pub state : RelayerState
  pub now : ℕ
  -- how many requests were sent
  pub sent : ℕ

-- `setTimeout` takes a delay that is no number for 0.
unfoldable pub rate_limit_delay : RetryAfter → ℕ → ℕ
rate_limit_delay missing attempt = min (1000 * 2 ^ (attempt + 1)) 30000
rate_limit_delay (seconds n) attempt = min (n * 1000) 30000
rate_limit_delay not_a_number attempt = 0

unfoldable pub retry_delay : ℕ → ℕ
retry_delay attempt = min (500 * 2 ^ attempt) 4000

abbrev pub thrown : Option String → FetchError
thrown none = no_error
thrown (some e) = last_error e

-- After an attempt: `rounds` more are allowed, and `next` runs them from a time, a state and the last error.
unfoldable pub after_attempt :
    {R : Type 0}
    → ℕ
    → ℕ
    → ℕ
    → RelayerState
    → Option String
    → FetchAnswer R
    → (ℕ → RelayerState → Option String → Fetched R)
    → Fetched R
unfolding mark_success mark_failure rate_limit_delay retry_delay
after_attempt rounds attempt at s e (responded r) next = record {
  result = response r;
  state = mark_success at s;
  now = at;
  sent = suc attempt;
}
after_attempt rounds attempt at s e aborted next = record {
  result = threw abort_error;
  state = s;
  now = at;
  sent = suc attempt;
}
after_attempt zero attempt at s e (rate_limited retry_after) next = record {
  result = threw too_many_requests;
  state = mark_failure at s;
  now = at;
  sent = suc attempt;
}
after_attempt (suc rounds) attempt at s e (rate_limited retry_after) next =
    next (at + rate_limit_delay retry_after attempt) (mark_failure at s) e
after_attempt zero attempt at s e (failed m) next = next at (mark_failure at s) (some m)
after_attempt (suc rounds) attempt at s e (failed m) next =
    next (at + retry_delay attempt) (mark_failure at s) (some m)

module _ {R : Type 0} (fetch : ℕ → Attempt R) where
  -- The rounds that remain, from the number of the next attempt.
  unfoldable pub fetch_rounds : ℕ → ℕ → ℕ → RelayerState → Option String → Fetched R
  unfolding after_attempt
  fetch_rounds zero attempt now s e = record {
    result = threw (thrown e);
    state = s;
    now = now;
    sent = attempt;
  }
  fetch_rounds (suc rounds) attempt now s e =
      after_attempt rounds attempt (now + (fetch attempt).took) s e (fetch attempt).answer
        (fetch_rounds rounds (suc attempt))

  unfoldable pub relayer_fetch : ℕ → Bool → ℕ → RelayerState → Fetched R
  unfolding fetch_rounds
  relayer_fetch max_retries skip_backoff now s =
      if not skip_backoff && is_in_backoff now s
      then record { result = threw backing_off; state = s; now = now; sent = 0 }
      else fetch_rounds max_retries 0 now s none

-- `response.ok` of GET /health, in one attempt that ignores the backoff.
abbrev pub is_healthy : FetchResult Bool → Bool
is_healthy (response is_ok) = is_ok
is_healthy (threw e) = false

unfoldable pub check_relayer_health : (ℕ → Attempt Bool) → ℕ → RelayerState → Bool × RelayerState
unfolding relayer_fetch
check_relayer_health fetch now s =
    let f = relayer_fetch fetch 1 true now s in (is_healthy f.result, f.state)

pub data EventType : Type 0 where
  proposal_created : EventType
  vote_cast : EventType
  member_added : EventType
  member_revoked : EventType
  member_left : EventType
  voter_registered : EventType
  voter_removed : EventType
  vk_updated : EventType
  tree_init : EventType
  dao_create : EventType
  admin_transfer : EventType
  membership_mode_changed : EventType
  proposal_mode_changed : EventType
  profile_updated : EventType

unfoldable pub event_name : EventType → String
event_name proposal_created = "proposal_created"
event_name vote_cast = "vote_cast"
event_name member_added = "member_added"
event_name member_revoked = "member_revoked"
event_name member_left = "member_left"
event_name voter_registered = "voter_registered"
event_name voter_removed = "voter_removed"
event_name vk_updated = "vk_updated"
event_name tree_init = "tree_init"
event_name dao_create = "dao_create"
event_name admin_transfer = "admin_transfer"
event_name membership_mode_changed = "membership_mode_changed"
event_name proposal_mode_changed = "proposal_mode_changed"
event_name profile_updated = "profile_updated"

-- One attempt to post the notification; an error is only logged.
unfoldable pub notify_event : {R : Type 0} → (ℕ → Attempt R) → ℕ → RelayerState → RelayerState
unfolding relayer_fetch
notify_event fetch now s = (relayer_fetch fetch 1 false now s).state
