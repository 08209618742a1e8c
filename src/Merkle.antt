-- ===== src/Merkle.antt =====
-- frontend/src/lib/merkletree.ts: the Merkle path of a leaf, from all leaves. A decimal text of a
-- field element stands as its number. `hash` is circomlibjs's Poseidon of two elements, a parameter;
-- the caches of Poseidon and of the zero hashes do not change results and are left out.
pub mod Levels
pub mod Paths
use zkvote.Prelude.{
  ℕ, zero, suc, ◌+◌, ◌-◌, ◌*◌, ◌/◌, ◌%◌, Bool, Option, none, some, List, [], ◌∷◌, ◌++◌, ltb, ◌==◌,
  if◌then◌else◌, length, get_or, get_elem?, take, replicate, map,
}

abbrev pub tree_depth : ℕ
tree_depth = 18

pub record MerklePath : Type 0 where
  -- `none` where the code reads past the end of a level (`undefined`)
  pub path_elements : List (Option ℕ)
  pub path_indices : List ℕ

module _ (hash : ℕ → ℕ → ℕ) where
  -- The loop of `getZeroHashes`, from the last hash pushed.
  unfoldable pub zeros_from : ℕ → ℕ → List ℕ
  zeros_from zero prev = []
  zeros_from (suc rounds) prev = hash prev prev ∷ zeros_from rounds (hash prev prev)

  unfoldable pub get_zero_hashes : List ℕ
  unfolding zeros_from
  get_zero_hashes = 0 ∷ zeros_from tree_depth 0

  -- One round of hashing: `for (let i = 0; i < currentLevel.length; i += 2)`.
  unfoldable pub hash_pairs : ℕ → List ℕ → List ℕ
  hash_pairs zero_hash [] = []
  hash_pairs zero_hash (left ∷ []) = hash left zero_hash ∷ []
  hash_pairs zero_hash (left ∷ right ∷ rest) = hash left right ∷ hash_pairs zero_hash rest

  -- `while (nextLevel.length < Math.ceil(currentLevel.length / 2)) nextLevel.push(zero)`
  unfoldable pub pad_level : ℕ → ℕ → List ℕ → List ℕ
  pad_level wanted zero_hash next_level =
      next_level ++ replicate (wanted - length next_level) zero_hash

  unfoldable pub next_level : List ℕ → ℕ → List ℕ → List ℕ
  unfolding hash_pairs pad_level
  next_level zeros level current_level =
      pad_level ((length current_level + 1) / 2) (get_or zeros (level + 1) 0)
        (hash_pairs (get_or zeros level 0) current_level)

  unfoldable pub sibling_of : List ℕ → ℕ → List ℕ → ℕ → Option ℕ
  sibling_of zeros level current_level current_index =
      if current_index % 2 == 0
      then (if ltb (current_index + 1) (length current_level)
          then get_elem? current_level (current_index + 1)
          else some (get_or zeros level 0))
      else get_elem? current_level (current_index - 1)

  -- The loop over the levels; `rounds` are left, beginning at `level`.
  unfoldable pub path_from : List ℕ → ℕ → ℕ → List ℕ → ℕ → MerklePath
  path_from zeros zero level current_level current_index = record {
    path_elements = [];
    path_indices = [];
  }
  path_from zeros (suc rounds) level current_level current_index =
      let rest =
        path_from zeros rounds (level + 1) (next_level zeros level current_level)
          (current_index / 2) in
      record {
        path_elements = sibling_of zeros level current_level current_index ∷ rest.path_elements;
        path_indices = (if current_index % 2 == 0 then 0 else 1) ∷ rest.path_indices;
      }

  unfoldable pub compute_merkle_path : ℕ → ℕ → List ℕ → MerklePath
  compute_merkle_path leaf_index total_leaves leaves =
      path_from get_zero_hashes tree_depth 0 leaves leaf_index

  -- `zeros.slice(0, TREE_DEPTH)`: each of these elements is there.
  unfoldable pub get_path_for_first_leaf : MerklePath
  unfolding get_zero_hashes
  get_path_for_first_leaf = record {
    path_elements = map some (take tree_depth get_zero_hashes);
    path_indices = replicate tree_depth 0;
  }
