-- ===== src/Ipfs.antt =====
-- backend/src/services/ipfs.ts and backend/src/routes/ipfs.ts: content by its CID, through a cache with a
-- time to live. The network and Pinata's signed links are a parameter. A clock reading is in
-- milliseconds.
pub mod Keys
pub mod Cache
pub mod Answers
use zkvote.Prelude.{
  same_text, ℕ, ◌+◌, ◌-◌, ◌*◌, String, Bool, true, false, not, ◌&&◌, ◌||◌, Option, none, some, List,
  [], ◌∷◌, Result, ok, err, ◌>>=◌, ltb, leb, ◌==◌, if◌then◌else◌, length,
}
use zkvote.Hex.{Text}
use zkvote.Validation.{starts_with}

-- A value as `response.json()` or `response.text()` gives it: an object or array, null, or any other
-- value with whether it is truthy.
pub data Data : Type 0 where
  object : String → Data
  null : Data
  scalar : Bool → String → Data

abbrev pub is_truthy : Data → Bool
is_truthy (object text) = true
is_truthy null = false
is_truthy (scalar truthy text) = truthy

-- `typeof data === 'object'`
abbrev pub is_object : Data → Bool
is_object (object text) = true
is_object null = true
is_object (scalar truthy text) = false

abbrev pub ipfs_cache_ttl : ℕ
ipfs_cache_ttl = 15 * 60 * 1000

pub record CachedContent : Type 0 where
  pub content : Data
  pub timestamp : ℕ

-- The map in the order of insertion; a key that is set again keeps its place.
abbrev pub Cache : Type 0
Cache = List (Text × CachedContent)

abbrev pub find : Text → Cache → Option CachedContent
find cid [] = none
find cid ((k, v) ∷ entries) = if same_text k cid then some v else find cid entries

abbrev pub remove : Text → Cache → Cache
remove cid [] = []
remove cid ((k, v) ∷ entries) =
    if same_text k cid then remove cid entries else (k, v) ∷ remove cid entries

abbrev pub put : Text → CachedContent → Cache → Cache
put cid v [] = (cid, v) ∷ []
put cid v ((k, w) ∷ entries) =
    if same_text k cid then (k, v) ∷ entries else (k, w) ∷ put cid v entries

unfoldable pub cached_or_deleted : ℕ → Text → Option CachedContent → Cache → Option Data × Cache
cached_or_deleted now cid none cache = (none, remove cid cache)
cached_or_deleted now cid (some cached) cache =
    if ltb (now - cached.timestamp) ipfs_cache_ttl
    then (some cached.content, cache)
    else (none, remove cid cache)

unfoldable pub get_cached_content : ℕ → Text → Cache → Option Data × Cache
unfolding cached_or_deleted
get_cached_content now cid cache = cached_or_deleted now cid (find cid cache) cache

-- The loop that cleans up.
unfoldable pub drop_old : ℕ → Cache → Cache
drop_old now [] = []
drop_old now ((k, v) ∷ entries) =
    let rest = drop_old now entries in
    if ltb ipfs_cache_ttl (now - v.timestamp) then rest else (k, v) ∷ rest

unfoldable pub set_cached_content : ℕ → Text → Data → Cache → Cache
unfolding drop_old
set_cached_content now cid content cache =
    let cache' = put cid (record { content = content; timestamp = now }) cache in
    if ltb 1000 (length cache') then drop_old now cache' else cache'

-- `cid.startsWith`; the empty text is falsy, and no valid CID.
unfoldable pub is_valid_cid : Text → Bool
unfolding starts_with
is_valid_cid cid =
    (starts_with cid (b'Q' ∷ b'm' ∷ []) && length cid == 46)
    || ((starts_with cid (b'b' ∷ b'a' ∷ b'f' ∷ b'y' ∷ [])
          || starts_with cid (b'b' ∷ b'a' ∷ b'f' ∷ b'k' ∷ []))
        && leb 50 (length cid))

-- A signed link, or the gateway's URL with the CID.
pub data Url : Type 0 where
  signed : String → Url
  public_url : String → Text → Url

pub record HttpResponse : Type 0 where
  pub is_ok : Bool
  pub status_line : String
  pub content_type : Option String
  -- whether the content type includes "application/json"
  pub is_json : Bool
  pub json : Result Data
  pub text : Result Data

pub record Network : Type 0 where
  pub create_access_link : Text → Result String
  pub fetch : Url → Result HttpResponse

-- The state of the module, once `initPinata` has run.
pub record Pinata : Type 0 where
  pub gateway_url : String
  pub is_dedicated_gateway : Bool

pub record FetchResult : Type 0 where
  pub content : Data
  pub content_type : String

abbrev pub link_error : Result String → Result Url
link_error (ok url) = ok (signed url)
link_error (err e) = err "Failed to create signed URL"

unfoldable pub url_of : Network → Pinata → Text → Result Url
url_of net pinata cid =
    if pinata.is_dedicated_gateway
    then link_error (net.create_access_link cid)
    else ok (public_url pinata.gateway_url cid)

-- A missing content type is taken for JSON.
unfoldable pub read_response : HttpResponse → Option String → Result FetchResult
read_response response none =
    response.json >>= λ d. ok (record { content = d; content_type = "application/json" })
read_response response (some type) =
    (if response.is_json then response.json else response.text) >>= λ d.
    ok (record { content = d; content_type = type })

unfoldable pub fetch_content : Network → Option Pinata → Text → Result FetchResult
unfolding url_of read_response
fetch_content net none cid = err "Pinata client not initialized"
fetch_content net (some pinata) cid =
    if not (is_valid_cid cid)
    then err "Invalid CID format"
    else (url_of net pinata cid >>= λ url. net.fetch url >>= λ response.
        if not response.is_ok
        then err "Failed to fetch from IPFS"
        else read_response response response.content_type)

pub data Answer : Type 0 where
  failure : ℕ → String → Answer
  raw : Data → Answer
  -- `{ content, contentType }`
  wrapped : Data → String → Answer

unfoldable pub answer_fetched : FetchResult → Answer
answer_fetched r = if is_object r.content then raw r.content else wrapped r.content r.content_type

-- After a miss: `later` is the time at which the content is stored.
unfoldable pub fetch_and_cache : ℕ → Text → Result FetchResult → Cache → Answer × Cache
unfolding answer_fetched
fetch_and_cache later cid (err e) cache = (failure 500 "Failed to fetch content from IPFS", cache)
fetch_and_cache later cid (ok r) cache =
    (answer_fetched r, set_cached_content later cid r.content cache)

-- What the cache answered decides; a cached value that is falsy is fetched again.
unfoldable pub answer_cached : ℕ → Text → Result FetchResult → Option Data × Cache → Answer × Cache
unfolding fetch_and_cache
answer_cached later cid fetched (none, cache) = fetch_and_cache later cid fetched cache
answer_cached later cid fetched (some d, cache) =
    if is_truthy d then (raw d, cache) else fetch_and_cache later cid fetched cache

-- The handler of GET /ipfs/:cid, called at `now`.
unfoldable pub get_ipfs : Bool → Network → Option Pinata → ℕ → ℕ → Text → Cache → Answer × Cache
unfolding answer_cached
get_ipfs ipfs_enabled net pinata now later cid cache =
    if not ipfs_enabled
    then (failure 503 "IPFS service not configured", cache)
    else if not (is_valid_cid cid)
    then (failure 400 "Invalid CID format", cache)
    else answer_cached later cid (fetch_content net pinata cid) (get_cached_content now cid cache)
