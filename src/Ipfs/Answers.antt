-- ===== src/Ipfs/Answers.antt =====
-- routes/ipfs.ts: what a content is answered as, at first and from the cache.
use zkvote.Prelude.{
  same_text, same_text_refl, ℕ, ◌-◌, ◌<◌, ◌≡◌, refl, ap, ◌∙◌, true, false, not, Option, none, some,
  [], ◌∷◌, ok, ltb, if_true, if_false, if_elim, arith, length,
}
use zkvote.Hex.{Text}
use zkvote.Ipfs.{
  Data, is_truthy, CachedContent, Cache, find, put, ipfs_cache_ttl, get_cached_content,
  cached_or_deleted, drop_old, set_cached_content, is_valid_cid, Network, Pinata, FetchResult,
  fetch_content, Answer, raw, answer_fetched, fetch_and_cache, answer_cached, get_ipfs,
}
use zkvote.Ipfs.Keys.{find-put}

find-drop_old_young :
    (now : ℕ) (j : Text) (v : CachedContent) (cache : Cache)
    → ltb ipfs_cache_ttl (now - v.timestamp) ≡ false
    → find j cache ≡ some v
    → find j (drop_old now cache) ≡ some v
unfolding drop_old
find-drop_old_young now j v [] young h = h
find-drop_old_young now j v ((k, w) ∷ cache) young h =
    ground (arith, find-drop_old_young now j v cache)

find-set_cached_content :
    (now : ℕ) (cid : Text) (content : Data) (cache : Cache)
    → find cid (set_cached_content now cid content cache)
      ≡ some (record { content = content; timestamp = now })
unfolding set_cached_content
find-set_cached_content now cid content cache =
    let v : CachedContent = record { content = content; timestamp = now } in
    let there : find cid (put cid v cache) ≡ some v =
      find-put cid cid v cache ∙ if_true (same_text cid cid) _ _ (same_text_refl cid) in
    if_elim {A = Cache} (ltb 1000 (length (put cid v cache))) (λ c. find cid c ≡ some v) _ _
      (λ h. find-drop_old_young now cid v (put cid v cache) (ground arith) there) (λ h. there)

get_cached-set_cached_content :
    (now later : ℕ) (cid : Text) (content : Data) (cache : Cache)
    → now - later < ipfs_cache_ttl
    → get_cached_content now cid (set_cached_content later cid content cache)
      ≡ (some content, set_cached_content later cid content cache)
unfolding get_cached_content cached_or_deleted
get_cached-set_cached_content now later cid content cache l =
    rw (find-set_cached_content later cid content cache)
      (if_true {A = Option Data × Cache} (ltb (now - later) ipfs_cache_ttl) _ _ (ground arith))

get_ipfs_valid :
    (net : Network) (pinata : Option Pinata) (now later : ℕ) (cid : Text) (cache : Cache)
    → is_valid_cid cid ≡ true
    → get_ipfs true net pinata now later cid cache
      ≡ answer_cached later cid (fetch_content net pinata cid) (get_cached_content now cid cache)
unfolding get_ipfs
get_ipfs_valid net pinata now later cid cache valid =
    if_false {A = Answer × Cache} (not (is_valid_cid cid)) _ _ (ap not valid)

-- A second request for a content that was fetched and cached less than the time to live before is answered
-- with the content alone, whatever the network would say now: an object or array as at first, and a text
-- that is not empty without the wrapper `{ content, contentType }` of the first answer.
-- Conditions: IPFS is configured, the CID is valid, the first request finds nothing in the cache, its fetch
-- succeeds, and the content is truthy.
pub get_ipfs_again :
    (net net' : Network) (pinata pinata' : Option Pinata) (now later now' later' : ℕ) (cid : Text)
    (cache missed : Cache) (r : FetchResult)
    → is_valid_cid cid ≡ true
    → get_cached_content now cid cache ≡ (none, missed)
    → fetch_content net pinata cid ≡ ok r
    → is_truthy r.content ≡ true
    → now' - later < ipfs_cache_ttl
    → (get_ipfs true net pinata now later cid cache).0 ≡ answer_fetched r
      × (get_ipfs true net' pinata' now' later' cid
          (get_ipfs true net pinata now later cid cache).1).0
        ≡ raw r.content
get_ipfs_again net net' pinata pinata' now later now' later' cid cache missed r valid miss fetched
      truthy l =
    let first : get_ipfs true net pinata now later cid cache
        ≡ (answer_fetched r, set_cached_content later cid r.content missed) =
      rw (get_ipfs_valid net pinata now later cid cache valid, miss, fetched)
        (unfold answer_cached fetch_and_cache in refl) in
    let known : get_cached_content now' cid (set_cached_content later cid r.content missed)
        ≡ (some r.content, set_cached_content later cid r.content missed) =
      get_cached-set_cached_content now' later cid r.content missed l in
    (
      ap (λ s. s.0) first,
      rw first (
          rw (get_ipfs_valid net' pinata' now' later' cid _ valid, known)
            (unfold answer_cached in
              ap (λ s. s.0) (if_true {A = Answer × Cache} (is_truthy r.content) _ _ truthy))),
    )
