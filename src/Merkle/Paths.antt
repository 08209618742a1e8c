-- ===== src/Merkle/Paths.antt =====
-- merkletree.ts: the path of a leaf, against the nodes of the complete tree.
use zkvote.Prelude.{
  ℕ, zero, suc, ◌+◌, ◌-◌, ◌*◌, ◌/◌, ◌%◌, ◌^◌, ◌<◌, ◌≤◌, ◌≡◌, refl, ap, inl, inr, some, List, [],
  ◌∷◌, arith, length, get_or, get_elem?, map, ◌==◌, if◌then◌else◌, Bool-cases,
}
use native.Mathlib.Nat.{pow-suc, pow-zero}
use zkvote.Merkle.{
  get_zero_hashes, next_level, tree_depth, sibling_of, path_from, compute_merkle_path,
}
use zkvote.Merkle.Levels.{
  zero_hash, node, IsLevel, IsLevel-leaves, IsLevel-next_level, length-next_level,
  get_zero_hashes-get,
}

abbrev pub neighbour : ℕ → ℕ
neighbour i = if i % 2 == 0 then i + 1 else i - 1

abbrev pub side : ℕ → ℕ
side i = if i % 2 == 0 then 0 else 1

-- The sides of a node and of its ancestors: the binary digits of its number.
pub sides : ℕ → ℕ → List ℕ
sides zero i = []
sides (suc rounds) i = side i ∷ sides rounds (i / 2)

get_elem?-get_or : (xs : List ℕ) (i d : ℕ) → i < length xs → get_elem? xs i ≡ some (get_or xs i d)
get_elem?-get_or [] i d h = elim h [ ]
get_elem?-get_or (x ∷ xs) zero d h = refl
get_elem?-get_or (x ∷ xs) (suc i) d h = get_elem?-get_or xs i d (omega arith)

get_or_past : (xs : List ℕ) (i d : ℕ) → length xs ≤ i → get_or xs i d ≡ d
get_or_past [] i d h = refl
get_or_past (x ∷ xs) zero d h = absurd (omega arith)
get_or_past (x ∷ xs) (suc i) d h = get_or_past xs i d (omega arith)

module _ (hash : ℕ → ℕ → ℕ) where
  -- The siblings of a node and of its ancestors, in the complete tree.
  pub siblings : List ℕ → ℕ → ℕ → ℕ → List ℕ
  siblings leaves zero level i = []
  siblings leaves (suc rounds) level i =
      node hash leaves level (neighbour i) ∷ siblings leaves rounds (suc level) (i / 2)

  -- How the circuit checks a path.
  pub climb : List ℕ → List ℕ → ℕ → ℕ
  climb [] indices current = current
  climb (element ∷ elements) [] current = current
  climb (element ∷ elements) (index ∷ indices) current =
      climb elements indices (if index == 0 then hash current element else hash element current)

  sibling_of-eq-node :
      (leaves : List ℕ) (level : ℕ) (xs : List ℕ) (i : ℕ)
      → level ≤ tree_depth
      → IsLevel hash leaves level xs
      → i < length xs
      → sibling_of hash (get_zero_hashes hash) level xs i
        ≡ some (node hash leaves level (neighbour i))
  unfolding sibling_of
  sibling_of-eq-node leaves level xs i h at lt = ground (
    arith,
    get_zero_hashes-get hash level h,
    get_elem?-get_or xs (i + 1) (zero_hash hash level),
    get_elem?-get_or xs (i - 1) (zero_hash hash level),
    get_or_past xs (i + 1) (zero_hash hash level),
    at (i + 1),
    at (i - 1),
  )

  path_from-eq-siblings :
      (leaves : List ℕ) (rounds level : ℕ) (xs : List ℕ) (i : ℕ)
      → level + rounds ≡ tree_depth
      → IsLevel hash leaves level xs
      → i < length xs
      → path_from hash (get_zero_hashes hash) rounds level xs i ≡ record {
        path_elements = map some (siblings leaves rounds level i);
        path_indices = sides rounds i;
      }
  unfolding path_from siblings sides
  path_from-eq-siblings leaves zero level xs i e at lt = refl
  path_from-eq-siblings leaves (suc rounds) level xs i e at lt =
      let z = get_zero_hashes hash in
      let ih =
        path_from-eq-siblings leaves rounds (suc level) (next_level hash z level xs) (i / 2)
          (omega arith) (IsLevel-next_level hash leaves level xs (omega arith) at)
          (omega (arith, length-next_level hash z level xs)) in
      let e' : level + 1 ≡ suc level = omega arith in
      rw (e', ih, sibling_of-eq-node leaves level xs i (omega arith) at lt)

  climb_step :
      (leaves : List ℕ) (level i : ℕ)
      → (if side i == 0
          then hash (node hash leaves level i) (node hash leaves level (neighbour i))
          else hash (node hash leaves level (neighbour i)) (node hash leaves level i))
        ≡ node hash leaves (suc level) (i / 2)
  unfolding node
  climb_step leaves level i = elim (Bool-cases (i % 2 == 0)) [
    | inl even ↦ let e : 2 * (i / 2) ≡ i = ground arith in rw (even, e)
    | inr odd ↦
        let e : 2 * (i / 2) + 1 ≡ i = ground arith in
        let e' : 2 * (i / 2) ≡ i - 1 = ground arith in rw (odd, e, e')
  ]

  climb-siblings :
      (leaves : List ℕ) (rounds level top i : ℕ)
      → level + rounds ≡ top
      → i < 2 ^ rounds
      → climb (siblings leaves rounds level i) (sides rounds i) (node hash leaves level i)
        ≡ node hash leaves top 0
  unfolding climb siblings sides
  climb-siblings leaves zero level top i e lt =
      let z : i ≡ 0 = omega (arith, pow-zero 2) in let e' : level ≡ top = omega arith in rw (z, e')
  climb-siblings leaves (suc rounds) level top i e lt = rw (climb_step leaves level i) (
      climb-siblings leaves rounds (suc level) top (i / 2) (omega arith)
        (omega (arith, pow-suc 2 rounds)))

  -- For a leaf of a tree within the capacity, whatever count is passed: there are 18 path elements, none
  -- is undefined, they are the siblings of the leaf's ancestors in the complete tree padded by zero
  -- leaves, the indices are the binary digits of the leaf's number, and the path leads from the leaf
  -- to the root.
  pub compute_merkle_path_climbs :
      (leaves : List ℕ) (leaf_index total_leaves : ℕ)
      → leaf_index < length leaves
      → length leaves ≤ 2 ^ 18
      → (elements : List ℕ) × ((compute_merkle_path hash leaf_index total_leaves
            leaves).path_elements
          ≡ map some elements)
        × (elements ≡ siblings leaves 18 0 leaf_index)
        × ((compute_merkle_path hash leaf_index total_leaves leaves).path_indices
            ≡ sides 18 leaf_index)
        × (climb elements (sides 18 leaf_index) (get_or leaves leaf_index 0)
            ≡ node hash leaves 18 0)
  unfolding compute_merkle_path
  compute_merkle_path_climbs leaves leaf_index total_leaves lt fits =
      let path =
        path_from-eq-siblings leaves 18 0 leaves leaf_index refl (IsLevel-leaves hash leaves) lt in
      let root = climb-siblings leaves 18 0 18 leaf_index refl (omega arith) in
      (
        siblings leaves 18 0 leaf_index,
        ap (λ p. p.path_elements) path,
        refl,
        ap (λ p. p.path_indices) path,
        unfold node in root,
      )
