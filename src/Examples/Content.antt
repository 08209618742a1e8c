-- ===== src/Examples/Content.antt =====
-- The content cache at concrete inputs.
use zkvote.Prelude.{ℕ, zero, suc, ◌≡◌, refl, true, false, some, none, List, [], ◌∷◌, ok, err, arith}
use zkvote.Hex.{Text}
use zkvote.Ipfs.{
  object, scalar, HttpResponse, Network, Pinata, raw, wrapped, FetchResult, is_valid_cid,
  get_cached_content, cached_or_deleted, fetch_content, url_of, read_response, answer_fetched,
  get_ipfs,
}
use zkvote.Ipfs.Cache.{Use, get, set, use_cache, use_log, use_cache-refines-log}
use zkvote.Ipfs.Answers.{get_ipfs_again}

abbrev ones : ℕ → Text
ones zero = []
ones (suc n) = b'1' ∷ ones n

abbrev cid : Text
cid = b'Q' ∷ b'm' ∷ ones 44

abbrev page : FetchResult
page = record { content = scalar true "hello"; content_type = "text/plain" }

abbrev page_response : HttpResponse
page_response = record {
  is_ok = true;
  status_line = "200 OK";
  content_type = some "text/plain";
  is_json = false;
  json = err "no JSON";
  text = ok (scalar true "hello");
}

abbrev page_net : Network
page_net = record { create_access_link = λ c. err "no link"; fetch = λ url. ok page_response }

abbrev down : Network
down = record { create_access_link = λ c. err "down"; fetch = λ url. err "down" }

abbrev gateway : Pinata
gateway = record { gateway_url = "https://gateway.pinata.cloud"; is_dedicated_gateway = false }

get_ipfs_again_example :
    (get_ipfs true page_net (some gateway) 0 5 cid []).0 ≡ answer_fetched page
    × (get_ipfs true down none 900 901 cid (get_ipfs true page_net (some gateway) 0 5 cid []).1).0
      ≡ raw (scalar true "hello")
unfolding is_valid_cid get_cached_content cached_or_deleted fetch_content url_of read_response
get_ipfs_again_example =
    get_ipfs_again page_net down (some gateway) none 0 5 900 901 cid [] [] page refl refl refl refl
      (omega arith)

first_answer : answer_fetched page ≡ wrapped (scalar true "hello") "text/plain"
unfolding answer_fetched
first_answer = refl

abbrev calls : List (ℕ × Use)
calls =
    (10, get cid)
    ∷ (20, set cid (object "a"))
    ∷ (30, get cid)
    ∷ (40, set cid (object "b"))
    ∷ (50, get cid)
    ∷ (900040, get cid)
    ∷ (900042, get cid)
    ∷ []

use_cache-refines-log_example : use_cache calls [] ≡ use_log calls []
use_cache-refines-log_example = use_cache-refines-log calls 0 (omega arith)

calls_answers : use_log calls [] ≡ none ∷ some (object "a") ∷ some (object "b") ∷ none ∷ none ∷ []
unfolding use_log
calls_answers = refl
