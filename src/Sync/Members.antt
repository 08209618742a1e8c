-- ===== src/Sync/Members.antt =====
-- sync.ts: the loop over the pages of a DAO's members.
use zkvote.Prelude.{
  ℕ, zero, suc, ◌+◌, ◌*◌, ◌≤◌, ◌<◌, ◌≡◌, refl, sym, ap, ◌∙◌, subst, String, Bool, true, ◌||◌,
  Option, some, List, [], ◌∷◌, ◌++◌, Result, ok, ◌==◌, str_eq, eq_iff, min, if_true, if_false,
  arith, inl, inr, Bool-cases, length, take, drop, any-append, take-append-drop, drop-drop,
  length-take, length-drop, take_full,
}
use zkvote.Sync.{
  has, add_member, add_members, take_page, get_pages, Caches, set_entry, get_entry,
  sync_dao_membership, cached_members,
}

add_members-append :
    (xs ys members : List String)
    → add_members (xs ++ ys) members ≡ add_members ys (add_members xs members)
add_members-append [] ys members = refl
add_members-append (x ∷ xs) ys members = add_members-append xs ys (add_member x members)

-- A page from an offset of a list of members, as the contract gives it.
abbrev pub paged : List String → ℕ → Result (List String)
paged all offset = ok (take 50 (drop offset all))

length-page :
    (all : List String) (offset : ℕ)
    → length (take 50 (drop offset all)) ≡ min 50 (length (drop offset all))
length-page all offset = length-take 50 (drop offset all)

nil_of_length : (xs : List String) → length xs ≡ 0 → xs ≡ []
nil_of_length [] h = refl
nil_of_length (x ∷ xs) h = absurd (omega arith)

length-rest :
    (all : List String) (offset : ℕ)
    → offset ≤ length all
    → length (drop offset all) + offset ≡ length all
length-rest all offset l = let e = length-drop offset all in omega arith

take_page_all :
    (again : ℕ → List String → Option (Result (List String))) (all : List String) (offset : ℕ)
    (members p : List String)
    → p ≡ take 50 (drop offset all)
    → (length p ≡ 50
        → again (offset + length p) (add_members p members)
          ≡ some (ok (add_members (drop (offset + length p) all) (add_members p members))))
    → take_page again offset members (ok p) ≡ some (ok (add_members (drop offset all) members))
unfolding take_page
take_page_all again all offset members [] is ih =
    let size : length (drop offset all) ≡ 0 = omega (arith, ap length is, length-page all offset) in
    rw (nil_of_length (drop offset all) size) refl
take_page_all again all offset members (a ∷ more) is ih =
    let p = a ∷ more in
    let size : length p ≡ min 50 (length (drop offset all)) =
      ap length is ∙ length-page all offset in
    elim (Bool-cases (length p == 50)) [
      | inl full ↦
          let fifty : length p ≡ 50 = ground (arith, full) in
          let whole : p ++ drop (offset + length p) all ≡ drop offset all =
            ap (λ q. q ++ drop (offset + length p) all) is
            ∙ ap (λ q. take 50 (drop offset all) ++ q)
                (sym (drop-drop 50 offset (offset + length p) all (omega (arith, fifty))))
            ∙ take-append-drop 50 (drop offset all) in
          if_true (length p == 50) _ _ full
          ∙ ih fifty
          ∙ ap (λ ms. some (ok ms))
              (sym (add_members-append p (drop (offset + length p) all) members)
                ∙ ap (λ q. add_members q members) whole)
      | inr partial ↦
          let short : length (drop offset all) ≤ 50 = ground (arith, partial, size) in
          if_false (length p == 50) _ _ partial
          ∙ ap (λ q. some (ok (add_members q members))) (is ∙ take_full 50 (drop offset all) short)
    ]

get_pages_from :
    (fuel : ℕ) (all : List String) (offset : ℕ) (members : List String)
    → length all < offset + fuel * 50
    → offset ≤ length all
    → get_pages fuel (paged all) offset members ≡ some (ok (add_members (drop offset all) members))
unfolding get_pages
get_pages_from zero all offset members h l = absurd (omega arith)
get_pages_from (suc fuel) all offset members h l =
    let p = take 50 (drop offset all) in
    take_page_all (get_pages fuel (paged all)) all offset members p refl (λ full.
      get_pages_from fuel all (offset + length p) (add_members p members) (omega (arith, full))
        (omega (arith, length-page all offset, length-rest all offset l)))

has_itself :
    (x y : String) (members : List String)
    → has y members ≡ true
    → has x members ≡ (has x members || str_eq y x)
has_itself x y members old = elim (Bool-cases (str_eq y x)) [
  | inl e ↦
      let same : y ≡ x = ground (arith, eq_iff y x) in
      let there : has x members ≡ true = subst (λ z. has z members ≡ true) same old in
      ground (arith, there)
  | inr e ↦ ground (arith, e)
]

has-add_member :
    (x y : String) (members : List String)
    → has x (add_member y members) ≡ (has x members || str_eq y x)
has-add_member x y members = elim (Bool-cases (has y members)) [
  | inl old ↦ ap (has x) (if_true (has y members) _ _ old) ∙ has_itself x y members old
  | inr fresh ↦
      ap (has x) (if_false (has y members) _ _ fresh)
      ∙ any-append (λ m. str_eq m x) members (y ∷ [])
      ∙ ground arith
]

or_assoc : (a b c : Bool) → ((a || b) || c) ≡ (a || (b || c))
or_assoc a b c = ground arith

has-add_members :
    (x : String) (xs members : List String)
    → has x (add_members xs members) ≡ (has x members || has x xs)
has-add_members x [] members = ground arith
has-add_members x (y ∷ xs) members =
    has-add_members x xs (add_member y members)
    ∙ ap (λ b. b || has x xs) (has-add_member x y members)
    ∙ or_assoc (has x members) (str_eq y x) (has x xs)

get_entry-set_entry :
    {A : Type 0} (k : ℕ) (a : A) (entries : List (ℕ × A))
    → get_entry k (set_entry k a entries) ≡ some a
get_entry-set_entry k a [] = ground arith
get_entry-set_entry k a ((j, b) ∷ entries) = ground (arith, get_entry-set_entry k a entries)

-- If `get_members` lists the addresses of a DAO in pages of 50, and they do not change meanwhile, the loop ends, within
-- one round for each 50 addresses and one more, and the cache then holds for the DAO exactly the addresses that are
-- listed. The membership contract also lists the addresses that were revoked or that left.
pub sync_dao_membership_complete :
    (fuel : ℕ) (get_members : ℕ → ℕ → Result (List String)) (dao_id : ℕ) (all : List String)
    (caches : Caches)
    → get_members dao_id ≡ paged all
    → length all < fuel * 50
    → (caches' : Caches) × (members : List String) × (sync_dao_membership fuel true get_members
          dao_id caches
        ≡ some caches')
      × (get_entry dao_id caches'.members ≡ some members)
      × ((user : String) → has user members ≡ has user all)
unfolding sync_dao_membership
sync_dao_membership_complete fuel get_members dao_id all caches is enough =
    let members = add_members all [] in
    let pages : get_pages fuel (get_members dao_id) 0 [] ≡ some (ok members) =
      ap (λ f. get_pages fuel f 0 []) is
      ∙ get_pages_from fuel all 0 [] (omega arith) (omega arith) in
    (
      record caches { members = set_entry dao_id members caches.members },
      members,
      ap (λ o. cached_members dao_id o caches) pages,
      get_entry-set_entry dao_id members caches.members,
      (λ user. has-add_members user all []),
    )
