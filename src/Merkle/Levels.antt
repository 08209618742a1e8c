-- ===== src/Merkle/Levels.antt =====
-- merkletree.ts: the levels that the code hashes, against the complete tree padded by zero leaves.
use zkvote.Prelude.{
  ℕ, zero, suc, ◌+◌, ◌-◌, ◌*◌, ◌/◌, ◌<◌, ◌≤◌, ◌≡◌, refl, ap, ◌∙◌, List, [], ◌∷◌, append-nil, arith,
  length, get_or,
}
use zkvote.Merkle.{zeros_from, get_zero_hashes, hash_pairs, next_level, tree_depth}

module _ (hash : ℕ → ℕ → ℕ) where
  -- The hash of an empty subtree.
  unfoldable pub zero_hash : ℕ → ℕ
  zero_hash zero = 0
  zero_hash (suc level) = hash (zero_hash level) (zero_hash level)

  -- The node number `i` of a level of the complete tree over the leaves, padded by zeros.
  unfoldable pub node : List ℕ → ℕ → ℕ → ℕ
  node leaves zero i = get_or leaves i 0
  node leaves (suc level) i = hash (node leaves level (2 * i)) (node leaves level (2 * i + 1))

  zeros_from-get :
      (rounds i k level : ℕ)
      → i < rounds
      → suc (level + i) ≡ k
      → get_or (zeros_from hash rounds (zero_hash level)) i 0 ≡ zero_hash k
  unfolding zeros_from zero_hash
  zeros_from-get zero i k level h e = elim h [ ]
  zeros_from-get (suc rounds) zero k level h e = let e' : k ≡ suc level = omega arith in rw e'
  zeros_from-get (suc rounds) (suc i) k level h e =
      zeros_from-get rounds i k (suc level) (omega arith) (omega arith)

  pub get_zero_hashes-get :
      (i : ℕ) → i ≤ tree_depth → get_or (get_zero_hashes hash) i 0 ≡ zero_hash i
  unfolding get_zero_hashes zero_hash
  get_zero_hashes-get zero h = refl
  get_zero_hashes-get (suc i) h = zeros_from-get tree_depth i (suc i) 0 (omega arith) (omega arith)

  length-hash_pairs : (z : ℕ) (xs : List ℕ) → length (hash_pairs hash z xs) ≡ (length xs + 1) / 2
  unfolding hash_pairs
  length-hash_pairs z [] = omega arith
  length-hash_pairs z (x ∷ []) = omega arith
  length-hash_pairs z (x ∷ y ∷ xs) = omega (arith, length-hash_pairs z xs)

  -- The padding loop makes no round.
  next_level-eq-hash_pairs :
      (zeros : List ℕ) (level : ℕ) (xs : List ℕ)
      → next_level hash zeros level xs ≡ hash_pairs hash (get_or zeros level 0) xs
  unfolding next_level
  next_level-eq-hash_pairs zeros level xs =
      let z = get_or zeros level 0 in
      let none_left : (length xs + 1) / 2 - length (hash_pairs hash z xs) ≡ 0 =
        omega (arith, length-hash_pairs z xs) in
      rw none_left (append-nil _)

  hash_pairs-get :
      (z i : ℕ) (xs : List ℕ)
      → get_or (hash_pairs hash z xs) i (hash z z)
        ≡ hash (get_or xs (2 * i) z) (get_or xs (2 * i + 1) z)
  unfolding hash_pairs
  hash_pairs-get z i [] = refl
  hash_pairs-get z zero (x ∷ []) = refl
  hash_pairs-get z (suc i) (x ∷ []) =
      let e : 2 * suc i ≡ suc (suc (2 * i)) = omega arith in
      let e' : 2 * suc i + 1 ≡ suc (suc (2 * i + 1)) = omega arith in rw (e', e)
  hash_pairs-get z zero (x ∷ y ∷ xs) = refl
  hash_pairs-get z (suc i) (x ∷ y ∷ xs) =
      let e : 2 * suc i ≡ suc (suc (2 * i)) = omega arith in
      let e' : 2 * suc i + 1 ≡ suc (suc (2 * i + 1)) = omega arith in
      rw (e', e) (hash_pairs-get z i xs)

  -- `xs` holds the nodes of a level from the left; the nodes that it leaves out are empty.
  abbrev pub IsLevel : List ℕ → ℕ → List ℕ → Type 0
  IsLevel leaves level xs = (i : ℕ) → get_or xs i (zero_hash level) ≡ node leaves level i

  pub IsLevel-leaves : (leaves : List ℕ) → IsLevel leaves 0 leaves
  unfolding zero_hash node
  IsLevel-leaves leaves i = refl

  pub IsLevel-next_level :
      (leaves : List ℕ) (level : ℕ) (xs : List ℕ)
      → level ≤ tree_depth
      → IsLevel leaves level xs
      → IsLevel leaves (suc level) (next_level hash (get_zero_hashes hash) level xs)
  unfolding zero_hash node
  IsLevel-next_level leaves level xs h at i = rw (
    next_level-eq-hash_pairs (get_zero_hashes hash) level xs,
    get_zero_hashes-get level h,
    hash_pairs-get (zero_hash level) i xs,
    at (2 * i),
    at (2 * i + 1),
  )

  pub length-next_level :
      (zeros : List ℕ) (level : ℕ) (xs : List ℕ)
      → length (next_level hash zeros level xs) ≡ (length xs + 1) / 2
  length-next_level zeros level xs =
      ap length (next_level-eq-hash_pairs zeros level xs)
      ∙ length-hash_pairs (get_or zeros level 0) xs
