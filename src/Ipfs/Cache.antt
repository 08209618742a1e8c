-- ===== src/Ipfs/Cache.antt =====
-- routes/ipfs.ts: the cache against a log of everything that was ever stored.
use zkvote.Prelude.{
  same_text, same_text_eq, ℕ, ◌≤◌, ◌≡◌, refl, sym, ap, ap₂, ◌∙◌, ◌⊎◌, inl, inr, subst, Bool, true,
  false, Option, none, some, List, [], ◌∷◌, ltb, if◌then◌else◌, if_true, if_false, if_elim,
  Bool-cases, arith, length,
}
use zkvote.Hex.{Text}
use zkvote.Ipfs.{
  Data, CachedContent, Cache, find, remove, put, get_cached_content, cached_or_deleted, drop_old,
  set_cached_content,
}
use zkvote.Ipfs.Keys.{
  is_fresh, Forgets, HasDistinctKeys, find-put, find-remove, find-drop_old,
  HasDistinctKeys-drop_old, HasDistinctKeys-put, HasDistinctKeys-remove,
}

-- The abstract view: each stored content with its time, the latest first. Nothing is ever removed.
abbrev pub Log : Type 0
Log = List (Text × CachedContent)

abbrev pub fresh : ℕ → Option CachedContent → Option Data
fresh now none = none
fresh now (some v) = if is_fresh now v then some v.content else none

-- The latest content that was stored for the CID, if it is not too old.
abbrev pub recall : ℕ → Text → Log → Option Data
recall now cid log = fresh now (find cid log)

-- A call of the cache at a time.
pub data Use : Type 0 where
  get : Text → Use
  set : Text → Data → Use

unfoldable pub use_cache : List (ℕ × Use) → Cache → List (Option Data)
use_cache [] cache = []
use_cache ((now, get cid) ∷ uses) cache =
    let step = get_cached_content now cid cache in let rest = use_cache uses step.1 in step.0 ∷ rest
use_cache ((now, set cid content) ∷ uses) cache =
    use_cache uses (set_cached_content now cid content cache)

unfoldable pub use_log : List (ℕ × Use) → Log → List (Option Data)
use_log [] log = []
use_log ((now, get cid) ∷ uses) log = recall now cid log ∷ use_log uses log
use_log ((now, set cid content) ∷ uses) log =
    use_log uses ((cid, record { content = content; timestamp = now }) ∷ log)

-- The times do not go back.
abbrev pub InOrder : ℕ → List (ℕ × Use) → Type 0
InOrder start [] = Unit
InOrder start ((now, u) ∷ uses) = (start ≤ now) × InOrder now uses

-- The cache and the log agree on a CID, or the cache has forgotten what is too old.
abbrev Agrees : ℕ → Option CachedContent → Option CachedContent → Type 0
Agrees now o none = o ≡ none
Agrees now o (some v) = (o ≡ some v) ⊎ ((o ≡ none) × (is_fresh now v ≡ false))

Refines : ℕ → Cache → Log → Type 0
Refines now cache log = (cid : Text) → Agrees now (find cid cache) (find cid log)

still_old :
    (now now' : ℕ) (v : CachedContent)
    → now ≤ now'
    → is_fresh now v ≡ false
    → is_fresh now' v ≡ false
still_old now now' v l h = ground arith

Agrees-later :
    (now now' : ℕ) (o p : Option CachedContent) → now ≤ now' → Agrees now o p → Agrees now' o p
Agrees-later now now' o none l h = h
Agrees-later now now' o (some v) l (inl e) = inl e
Agrees-later now now' o (some v) l (inr (e, old)) = inr (e, still_old now now' v l old)

Agrees-forget :
    (now : ℕ) (q o p : Option CachedContent) → Forgets now q o → Agrees now o p → Agrees now q p
Agrees-forget now q o none (inl e) h = e ∙ h
Agrees-forget now q o none (inr (e, (v, f, old))) h = absurd (ground arith)
Agrees-forget now q o (some w) (inl e) (inl h) = inl (e ∙ h)
Agrees-forget now q o (some w) (inl e) (inr (h, old)) = inr (e ∙ h, old)
Agrees-forget now q o (some w) (inr (e, (v, f, old))) (inl h) =
    let same : v ≡ w = ground arith in inr (e, subst (λ x. is_fresh now x ≡ false) same old)
Agrees-forget now q o (some w) (inr (e, (v, f, old))) (inr (h, old')) = inr (e, old')

answers_agree : (now : ℕ) (o p : Option CachedContent) → Agrees now o p → fresh now o ≡ fresh now p
answers_agree now o none h = ap (fresh now) h
answers_agree now o (some v) (inl e) = ap (fresh now) e
answers_agree now o (some v) (inr (e, old)) =
    ap (fresh now) e ∙ sym (if_false (is_fresh now v) _ _ old)

Refines-forget :
    (now : ℕ) (cache cache' : Cache) (log : Log)
    → Refines now cache log
    → ((j : Text) → Forgets now (find j cache') (find j cache))
    → Refines now cache' log
unfolding Refines
Refines-forget now cache cache' log r f j =
    Agrees-forget now (find j cache') (find j cache) (find j log) (f j) (r j)

remove_old :
    (now : ℕ) (cid : Text) (cache : Cache) (o : Option CachedContent)
    → o ≡ find cid cache
    → fresh now o ≡ none
    → (j : Text) → Forgets now (find j (remove cid cache)) (find j cache)
remove_old now cid cache o is gone j = elim (Bool-cases (same_text cid j)) [
  | inl same ↦
      let e : cid ≡ j = same_text_eq cid j same in
      let removed : find j (remove cid cache) ≡ none =
        find-remove j cid cache ∙ if_true (same_text cid j) _ _ same in
      forgotten (find j cache) (find j (remove cid cache)) removed
        (ap (fresh now) (subst (λ i. find i cache ≡ o) e (sym is)) ∙ gone)
  | inr other ↦ inl (find-remove j cid cache ∙ if_false (same_text cid j) _ _ other)
]
  where
    forgotten : (p q : Option CachedContent) → q ≡ none → fresh now p ≡ none → Forgets now q p
    forgotten none q h k = inl h
    forgotten (some v) q h k = inr (h, (v, refl, ground (arith, k)))

recall_agrees :
    (now : ℕ) (cid : Text) (o : Option CachedContent) (cache : Cache) (log : Log)
    → o ≡ find cid cache
    → Refines now cache log
    → fresh now o ≡ recall now cid log
unfolding Refines
recall_agrees now cid o cache log is r =
    ap (fresh now) is ∙ answers_agree now (find cid cache) (find cid log) (r cid)

record Step (now : ℕ) (cid : Text) (cache' : Cache) (answer : Option Data) (log : Log)
    : Type 0 where
  same_answer : answer ≡ recall now cid log
  refines : Refines now cache' log
  distinct : HasDistinctKeys cache'

get-Step :
    (now : ℕ) (cid : Text) (o : Option CachedContent) (cache : Cache) (log : Log)
    → o ≡ find cid cache
    → Refines now cache log
    → HasDistinctKeys cache
    → Step now cid (cached_or_deleted now cid o cache).1 (cached_or_deleted now cid o cache).0 log
unfolding cached_or_deleted
get-Step now cid none cache log is r d = record {
  same_answer = recall_agrees now cid none cache log is r;
  refines =
      Refines-forget now cache (remove cid cache) log r (remove_old now cid cache none is refl);
  distinct = HasDistinctKeys-remove cid cache d;
}
get-Step now cid (some v) cache log is r d =
    if_elim {A = Option Data × Cache} (is_fresh now v) (λ s. Step now cid s.1 s.0 log) _ _
      (λ h. record {
        same_answer =
            sym (if_true (is_fresh now v) _ _ h) ∙ recall_agrees now cid (some v) cache log is r;
        refines = r;
        distinct = d;
      })
      (λ h. record {
        same_answer =
            sym (if_false (is_fresh now v) _ _ h) ∙ recall_agrees now cid (some v) cache log is r;
        refines =
            Refines-forget now cache (remove cid cache) log r
              (remove_old now cid cache (some v) is (if_false (is_fresh now v) _ _ h));
        distinct = HasDistinctKeys-remove cid cache d;
      })

Refines-later :
    (now now' : ℕ) (cache : Cache) (log : Log)
    → now ≤ now'
    → Refines now cache log
    → Refines now' cache log
unfolding Refines
Refines-later now now' cache log l r j = Agrees-later now now' (find j cache) (find j log) l (r j)

Agrees-if :
    (now : ℕ) (b : Bool) (v : CachedContent) (o p : Option CachedContent)
    → Agrees now o p
    → Agrees now (if b then some v else o) (if b then some v else p)
Agrees-if now true v o p h = inl refl
Agrees-if now false v o p h = h

Refines-put :
    (now : ℕ) (cid : Text) (v : CachedContent) (cache : Cache) (log : Log)
    → Refines now cache log
    → Refines now (put cid v cache) ((cid, v) ∷ log)
unfolding Refines
Refines-put now cid v cache log r j =
    subst (λ o. Agrees now o (find j ((cid, v) ∷ log))) (sym (find-put j cid v cache))
      (Agrees-if now (same_text cid j) v (find j cache) (find j log) (r j))

set_step :
    (now : ℕ) (cid : Text) (content : Data) (cache : Cache) (log : Log)
    → Refines now cache log
    → HasDistinctKeys cache
    → Refines now
        (set_cached_content now cid content cache)
        ((cid, record { content = content; timestamp = now }) ∷ log)
      × HasDistinctKeys (set_cached_content now cid content cache)
unfolding set_cached_content
set_step now cid content cache log r d =
    let v : CachedContent = record { content = content; timestamp = now } in
    let cache' = put cid v cache in
    let r' = Refines-put now cid v cache log r in
    let d' = HasDistinctKeys-put cid v cache d in
    if_elim {A = Cache} (ltb 1000 (length cache'))
      (λ c. Refines now c ((cid, v) ∷ log) × HasDistinctKeys c) _ _
      (λ h. (
        Refines-forget now cache' (drop_old now cache') ((cid, v) ∷ log) r'
            (λ j. find-drop_old now j cache' d'),
        HasDistinctKeys-drop_old now cache' d',
      ))
      (λ h. (r', d'))

uses_agree :
    (uses : List (ℕ × Use)) (start : ℕ) (cache : Cache) (log : Log)
    → InOrder start uses
    → Refines start cache log
    → HasDistinctKeys cache
    → use_cache uses cache ≡ use_log uses log
unfolding use_cache use_log
uses_agree [] start cache log t r d = refl
uses_agree ((now, get cid) ∷ uses) start cache log (l, t) r d =
    let step : Step now cid (get_cached_content now cid cache).1
        (get_cached_content now cid cache).0 log =
      unfold get_cached_content in
      get-Step now cid (find cid cache) cache log refl (Refines-later start now cache log l r) d in
    ap₂ (λ answer answers. answer ∷ answers) step.same_answer
      (uses_agree uses now (get_cached_content now cid cache).1 log t step.refines step.distinct)
uses_agree ((now, set cid content) ∷ uses) start cache log (l, t) r d =
    let (r', d') = set_step now cid content cache log (Refines-later start now cache log l r) d in
    uses_agree uses now (set_cached_content now cid content cache)
      ((cid, record { content = content; timestamp = now }) ∷ log) t r' d'

-- From an empty cache, through any calls whose times do not go back, the cache answers each `get` as the
-- log of everything that was stored: with the content stored last for the CID, if that is less than the
-- time to live ago, and else with nothing. The cleaning up of a cache of more than 1000 entries is never
-- seen.
pub use_cache-refines-log :
    (uses : List (ℕ × Use)) (start : ℕ) → InOrder start uses → use_cache uses [] ≡ use_log uses []
unfolding Refines HasDistinctKeys
use_cache-refines-log uses start t = uses_agree uses start [] [] t (λ j. refl) tt
