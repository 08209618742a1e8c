-- ===== src/Ipfs/Keys.antt =====
-- routes/ipfs.ts: lookups in the cache after each change of the map.
use zkvote.Prelude.{
  same_text, same_text_eq, same_text_iff, ℕ, ◌-◌, ◌≡◌, refl, ◌⊎◌, inl, inr, subst, Bool, false,
  Option, none, some, [], ◌∷◌, ltb, if◌then◌else◌, Bool-cases, arith,
}
use zkvote.Hex.{Text}
use zkvote.Ipfs.{CachedContent, Cache, find, remove, put, ipfs_cache_ttl, drop_old}

abbrev pub is_fresh : ℕ → CachedContent → Bool
is_fresh now v = ltb (now - v.timestamp) ipfs_cache_ttl

pub find-put :
    (j k : Text) (v : CachedContent) (cache : Cache)
    → find j (put k v cache) ≡ (if same_text k j then some v else find j cache)
find-put j k v [] = refl
find-put j k v ((i, w) ∷ cache) =
    ground (arith, same_text_iff k j, same_text_iff i k, same_text_iff i j, find-put j k v cache)

pub find-remove :
    (j k : Text) (cache : Cache)
    → find j (remove k cache) ≡ (if same_text k j then none else find j cache)
find-remove j k [] = ground arith
find-remove j k ((i, w) ∷ cache) =
    ground (arith, same_text_iff k j, same_text_iff i k, same_text_iff i j, find-remove j k cache)

unfoldable pub HasDistinctKeys : Cache → Type 0
HasDistinctKeys [] = Unit
HasDistinctKeys ((k, v) ∷ cache) = (find k cache ≡ none) × HasDistinctKeys cache

find-drop_old-none :
    (now : ℕ) (j : Text) (cache : Cache) → find j cache ≡ none → find j (drop_old now cache) ≡ none
unfolding drop_old
find-drop_old-none now j [] h = refl
find-drop_old-none now j ((k, v) ∷ cache) h = ground (arith, find-drop_old-none now j cache)

-- A lookup that has lost nothing but what is too old.
abbrev pub Forgets : ℕ → Option CachedContent → Option CachedContent → Type 0
Forgets now q o =
    (q ≡ o) ⊎ ((q ≡ none) × ((v : CachedContent) × (o ≡ some v) × (is_fresh now v ≡ false)))

pub find-drop_old :
    (now : ℕ) (j : Text) (cache : Cache)
    → HasDistinctKeys cache
    → Forgets now (find j (drop_old now cache)) (find j cache)
unfolding drop_old HasDistinctKeys
find-drop_old now j [] h = inl refl
find-drop_old now j ((k, v) ∷ cache) (fresh_key, h) =
    elim (Bool-cases (ltb ipfs_cache_ttl (now - v.timestamp))) [
      | inl old ↦ elim (Bool-cases (same_text k j)) [
        | inl same ↦
            let e : k ≡ j = same_text_eq k j same in
            rw old (
              rw same (
                inr (
                  find-drop_old-none now j cache (subst (λ i. find i cache ≡ none) e fresh_key),
                  (v, refl, ground (arith, old)),
                )))
        | inr other ↦ rw old (rw other (find-drop_old now j cache h))
      ]
      | inr young ↦ elim (Bool-cases (same_text k j)) [
        | inl same ↦ rw young (rw same (inl refl))
        | inr other ↦ rw young (rw other (find-drop_old now j cache h))
      ]
    ]

pub HasDistinctKeys-drop_old :
    (now : ℕ) (cache : Cache) → HasDistinctKeys cache → HasDistinctKeys (drop_old now cache)
unfolding drop_old HasDistinctKeys
HasDistinctKeys-drop_old now [] h = h
HasDistinctKeys-drop_old now ((k, v) ∷ cache) (fresh_key, h) =
    elim (Bool-cases (ltb ipfs_cache_ttl (now - v.timestamp))) [
      | inl old ↦ rw old (HasDistinctKeys-drop_old now cache h)
      | inr young ↦
          rw young (find-drop_old-none now k cache fresh_key, HasDistinctKeys-drop_old now cache h)
    ]

pub HasDistinctKeys-put :
    (k : Text) (v : CachedContent) (cache : Cache)
    → HasDistinctKeys cache
    → HasDistinctKeys (put k v cache)
unfolding HasDistinctKeys
HasDistinctKeys-put k v [] h = (refl, h)
HasDistinctKeys-put k v ((i, w) ∷ cache) (fresh_key, h) = elim (Bool-cases (same_text i k)) [
  | inl same ↦ rw same (fresh_key, h)
  | inr other ↦ rw other (
    ground (arith, find-put i k v cache, same_text_iff k i, same_text_iff i k, fresh_key, other),
    HasDistinctKeys-put k v cache h,
  )
]

pub HasDistinctKeys-remove :
    (k : Text) (cache : Cache) → HasDistinctKeys cache → HasDistinctKeys (remove k cache)
unfolding HasDistinctKeys
HasDistinctKeys-remove k [] h = h
HasDistinctKeys-remove k ((i, w) ∷ cache) (fresh_key, h) = elim (Bool-cases (same_text i k)) [
  | inl same ↦ rw same (HasDistinctKeys-remove k cache h)
  | inr other ↦
      rw other (ground (arith, find-remove i k cache, fresh_key), HasDistinctKeys-remove k cache h)
]
