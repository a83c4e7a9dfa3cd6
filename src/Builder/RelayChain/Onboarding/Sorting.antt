-- ===== src/Builder/RelayChain/Onboarding/Sorting.antt =====
-- The list of parachain ids.
use fudge.Prelude.{
  ℕ, ◌+◌, ◌≤◌, ◌==◌, List, [], ◌∷◌, ◌++◌, ◌≡◌, refl, arith, if◌then◌else◌, contains, All, ltb, max,
  Bool-cases, inl, inr,
}
use fudge.Builder.RelayChain.Onboarding.{insert_sorted, sort, add_parachain}

-- Each id is at most the next.
abbrev pub IsSorted : List ℕ → Type 0
IsSorted [] = Unit {0}
IsSorted (x ∷ xs) = All (λ y. x ≤ y) xs × IsSorted xs

All-le : (a b : ℕ) (xs : List ℕ) → a ≤ b → All (λ y. b ≤ y) xs → All (λ y. a ≤ y) xs
All-le a b [] h p = tt
All-le a b (x ∷ xs) h p = (omega arith, All-le a b xs h p.1)

insert_sorted-All :
    (x a : ℕ) (xs : List ℕ) → x ≤ a → All (λ y. x ≤ y) xs → All (λ y. x ≤ y) (insert_sorted a xs)
insert_sorted-All x a [] h p = (h, tt)
insert_sorted-All x a (y ∷ ys) h p = ground (arith, insert_sorted-All x a ys h p.1)

insert_sorted-IsSorted : (a : ℕ) (xs : List ℕ) → IsSorted xs → IsSorted (insert_sorted a xs)
insert_sorted-IsSorted a [] s = (tt, tt)
insert_sorted-IsSorted a (x ∷ xs) s =
    ground (arith, All-le a x xs, insert_sorted-IsSorted a xs s.1, insert_sorted-All x a xs)

pub sort-IsSorted : (xs : List ℕ) → IsSorted (sort xs)
unfolding sort
sort-IsSorted [] = tt
sort-IsSorted (x ∷ xs) = insert_sorted-IsSorted x (sort xs) (sort-IsSorted xs)

-- How often an id is listed.
abbrev pub count : ℕ → List ℕ → ℕ
count a [] = 0
count a (x ∷ xs) = (if a == x then 1 else 0) + count a xs

count-insert_sorted :
    (a b : ℕ) (xs : List ℕ) → count a (insert_sorted b xs) ≡ (if a == b then 1 else 0) + count a xs
count-insert_sorted a b [] = refl
count-insert_sorted a b (x ∷ xs) = ground (arith, count-insert_sorted a b xs)

count-sort : (a : ℕ) (xs : List ℕ) → count a (sort xs) ≡ count a xs
unfolding sort
count-sort a [] = refl
count-sort a (x ∷ xs) = omega (arith, count-insert_sorted a x (sort xs), count-sort a xs)

count-snoc :
    (a b : ℕ) (xs : List ℕ) → count a (xs ++ (b ∷ [])) ≡ count a xs + (if a == b then 1 else 0)
count-snoc a b [] = ground arith
count-snoc a b (x ∷ xs) = ground (arith, count-snoc a b xs)

contains-count : (a : ℕ) (xs : List ℕ) → contains a xs ≡ ltb 0 (count a xs)
unfolding contains
contains-count a [] = refl
contains-count a (x ∷ xs) = ground (arith, contains-count a xs)

-- Adding an id to a sorted list gives a sorted list that has the id at least once, and just once if it
-- did before or was not there, and every other id as often as before; an id that is listed is not
-- added again.
pub add_parachain_lem :
    (id : ℕ) (paras : List ℕ)
    → IsSorted paras
    → IsSorted (add_parachain id paras)
      × ((a : ℕ)
          → count a (add_parachain id paras)
            ≡ (if a == id then max 1 (count a paras) else count a paras))
unfolding add_parachain
add_parachain_lem id paras s = elim (Bool-cases (contains id paras)) [
  | inl old ↦ (ground arith, λ a. ground (arith, contains-count id paras))
  | inr new ↦ (
    ground (arith, sort-IsSorted (paras ++ (id ∷ []))),
    λ a.
        ground (
          arith,
          contains-count id paras,
          count-sort a (paras ++ (id ∷ [])),
          count-snoc a id paras,
        ),
  )
]
