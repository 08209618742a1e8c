-- ===== src/Examples/Trees.antt =====
-- Examples for Merkle paths, with a hash that is easy to follow.
use zkvote.Prelude.{ℕ, ◌+◌, ◌*◌, ◌≡◌, some, List, [], ◌∷◌, arith, map, get_or}
use zkvote.Merkle.{compute_merkle_path}
use zkvote.Merkle.Levels.{node}
use zkvote.Merkle.Paths.{siblings, climb, sides, compute_merkle_path_climbs}

abbrev hash : ℕ → ℕ → ℕ
hash a b = a + 2 * b + 1

abbrev leaves : List ℕ
leaves = 5 ∷ 6 ∷ 7 ∷ []

climbs_example :
    (elements : List ℕ) × ((compute_merkle_path hash 2 3 leaves).path_elements ≡ map some elements)
    × (elements ≡ siblings hash leaves 18 0 2)
    × ((compute_merkle_path hash 2 3 leaves).path_indices ≡ sides 18 2)
    × (climb hash elements (sides 18 2) (get_or leaves 2 0) ≡ node hash leaves 18 0)
climbs_example = compute_merkle_path_climbs hash leaves 2 3 (omega arith) (omega arith)
