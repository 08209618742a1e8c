-- ===== src/Ballot/Casting.antt =====
-- VoteModal.tsx: from the prepared body to the last step of the dialog, and the whole handler.
use zkvote.Prelude.{
  ℕ, String, Bool, false, ◌||◌, Option, none, some, Result, ok, err, ◌>>=◌, if◌then◌else◌,
}
use zkvote.Hex.{Text}
use zkvote.Relay.{includes}
use zkvote.Relay.Vote.{VoteRequest}
use zkvote.Client.{
  RelayerState, FetchError, backing_off, too_many_requests, abort_error, last_error, no_error,
  FetchResult, response, threw, relayer_fetch,
}
use zkvote.Browser.{ZkCredentials, Storage, get_zk_credentials}
use zkvote.Ballot.{
  VoteMode, Reply, World, Props, Cast, cached_or_regenerated, prepare, fixed, trailing, success,
  error,
}

-- The message of an answer that is not `ok`.
abbrev pub refusal : Option String → String
refusal none = "Failed to submit vote through relay"
refusal (some e) =
    if includes e "already voted" || includes e "UnreachableCodeReached"
    then "You have already voted on this proposal. Each member can only vote once per proposal."
    else e

abbrev pub fetch_message : FetchError → String
fetch_message backing_off = "Relayer temporarily unavailable (backing off)"
fetch_message too_many_requests = "Rate limited (429) - too many requests"
fetch_message abort_error = "The operation was aborted."
fetch_message (last_error e) = e
fetch_message no_error = "Failed to fetch from relayer"

unfoldable pub read_reply : FetchResult Reply → Result (Unit {0})
read_reply (threw e) = err (fetch_message e)
read_reply (response r) =
    if r.is_ok then (r.json >>= λ e. ok tt) else (r.json >>= λ e. err (refusal e))

abbrev pub proof_advice : VoteMode → String
proof_advice fixed =
    "Cannot vote on this proposal. You joined the DAO after this proposal was created. Only members who were present when the proposal was created can vote on it (snapshot voting)."
proof_advice trailing =
    "Proof generation failed. This may indicate an issue with your voting credentials or the Merkle tree state. Please try registering for voting again."

-- The message that the dialog shows for an error.
unfoldable pub shown_error : VoteMode → String → String
shown_error mode e =
    if includes e "Assert Failed" || includes e "Error in template Vote"
    then proof_advice mode
    else e

abbrev pub finished :
    VoteMode → Result (Unit {0}) → Storage → RelayerState → Option (VoteRequest × ℕ) → Cast
finished mode (ok u) storage relayer posted = record {
  step = success;
  message = none;
  storage = storage;
  relayer = relayer;
  posted = posted;
}
finished mode (err e) storage relayer posted = record {
  step = error;
  message = some (shown_error mode e);
  storage = storage;
  relayer = relayer;
  posted = posted;
}

-- The request goes out at `later`, with the default of 3 attempts.
unfoldable pub submit_vote :
    World → VoteMode → ℕ → Storage → RelayerState → Result VoteRequest → Cast
unfolding read_reply shown_error
submit_vote w mode later storage relayer (err e) = finished mode (err e) storage relayer none
submit_vote w mode later storage relayer (ok body) =
    let f = relayer_fetch (w.post body) 3 false later relayer in
    finished mode (read_reply f.result) storage f.state (some (body, f.sent))

unfoldable pub after_credentials :
    World → Props → ℕ → Bool → RelayerState → Result (ZkCredentials × ℕ) × Storage → Cast
unfolding prepare submit_vote
after_credentials w props later choice relayer (r, storage) =
    submit_vote w props.vote_mode later storage relayer (r >>= prepare w props choice)

-- `handleVote`, started at `now`.
unfoldable pub handle_vote : World → Props → Text → ℕ → ℕ → Bool → Storage → RelayerState → Cast
unfolding cached_or_regenerated after_credentials
handle_vote w props prefix now later choice storage relayer =
    after_credentials w props later choice relayer (
      cached_or_regenerated w prefix now props
        (get_zk_credentials prefix now props.dao_id props.public_key storage))
