-- ===== src/Provider/State/Refusing.antt =====
-- What an insertion that fails leaves of the genesis storage.
use mathlib.Core.Path.{subst}
use fudge.Prelude.{
  Bool, Bool-cases, Option-cases, true, false, none, some, [], ◌∷◌, ◌++◌, ◌≡◌, ◌⊎◌, refl, sym, ap,
  ◌∙◌, arith, inl, inr, Result, ok, err, panic, Leaves, Leaves-any, Leaves-continue, Leaves-weaken,
}
use fudge.Node.{Bytes}
use fudge.Provider.State.{
  Error, same_key, Entries, look, StorageChild, Storage, StateProvider, extend, insert_child,
  insert_children, insert_storage,
}
use fudge.Provider.State.Children.{
  same_key_refl, same_key_eq, HasDistinctKeys, joined, insert_child_lem, round,
}
use fudge.Provider.State.Merging.{or_else, last_of, insert_storage_top}

-- What holds however an action ends, along with what it leaves.
Leaves-with :
    {S E A : Type 0} (P : S → Type 0) (Q : A → S → Type 0) (F : S → Type 0) (m : Result E A × S)
    → P m.1
    → Leaves Q F m
    → Leaves (λ a s. P s × Q a s) (λ s. P s × F s) m
Leaves-with P Q F (ok a, s) p l = (p, l)
Leaves-with P Q F (err e, s) p l = (p, l)
Leaves-with P Q F (panic, s) p l = (p, l)

module _ {V : Type 0} where
  look_first :
      (k j : Bytes) (v : V) (xs ys : Entries V)
      → look k (xs ++ ((j, v) ∷ ys)) ≡ none
      → (look k (xs ++ ((j, v) ∷ [])) ≡ none) × (same_key j k ≡ false)
  look_first k j v [] ys e = elim (Bool-cases (same_key j k)) [
    | inl q ↦ absurd (ground (arith, q, e))
    | inr q ↦ (rw (q) refl, q)
  ]
  look_first k j v ((i, x) ∷ xs) ys e = elim (Bool-cases (same_key i k)) [
    | inl q ↦ absurd (ground (arith, q, e))
    | inr q ↦ let (a, b) = look_first k j v xs ys (ground (arith, q, e)) in (rw (q) a, b)
  ]

module _ {Info : Type 0} (try_update : Info → Info → Bool × Info) where
  abbrev Children : Type 0
  Children = Entries (StorageChild Info)

  -- The children read as before with these joined.
  abbrev pub Joins : Children → Children → Children → Type 0
  Joins others m m' = (j : Bytes) → look j m' ≡ joined try_update (look j others) (look j m)

  -- A first part of the children is in, the last of them one whose information is refused.
  abbrev pub Refused : Children → Children → Children → Type 0
  Refused others m m' =
      (before after : Children) × (k : Bytes) × (other map : StorageChild Info) × (others
        ≡ before ++ ((k, other) ∷ after))
      × (look k m ≡ some map)
      × ((try_update map.child_info other.child_info).0 ≡ false)
      × Joins (before ++ ((k, other) ∷ [])) m m'

  insert_child_cases :
      (k : Bytes) (other : StorageChild Info) (s : StateProvider Info)
      → ((insert_child try_update k other s).0 ≡ ok tt)
        ⊎ ((map : StorageChild Info) × (look k s.pseudo_genesis.children_default ≡ some map)
            × ((try_update map.child_info other.child_info).0 ≡ false))
  unfolding insert_child
  insert_child_cases k other s = elim (Option-cases (look k s.pseudo_genesis.children_default)) [
    | inl q ↦ inl (ground (arith, q))
    | inr (map, q) ↦ elim (Bool-cases (try_update map.child_info other.child_info).0) [
      | inl fits ↦ inl (ground (arith, q, fits))
      | inr refused ↦ inr (map, q, refused)
    ]
  ]

  insert_child-Refused :
      (k : Bytes) (other : StorageChild Info) (others : Children) (s : StateProvider Info)
      → ((map : StorageChild Info) × (look k s.pseudo_genesis.children_default ≡ some map)
          × ((try_update map.child_info other.child_info).0 ≡ false))
      → Refused
          ((k, other) ∷ others)
          s.pseudo_genesis.children_default
          (insert_child try_update k other s).1.pseudo_genesis.children_default
  insert_child-Refused k other others s (map, found, refused) = (
    [],
    others,
    k,
    other,
    map,
    refl,
    found,
    refused,
    λ j.
        insert_child_lem try_update k j other s
        ∙ round try_update k j other [] s.pseudo_genesis.children_default refl,
  )

  -- What a later child that is refused leaves, seen from before the child that was taken.
  Refused-insert_child :
      (k : Bytes) (other : StorageChild Info) (others m' : Children) (s : StateProvider Info)
      → look k others ≡ none
      → Refused others (insert_child try_update k other s).1.pseudo_genesis.children_default m'
      → Refused ((k, other) ∷ others) s.pseudo_genesis.children_default m'
  Refused-insert_child k other others m' s absent
        (before, after, k', other', map, e, found, refused, reads) =
      let (absent', differs) =
        look_first k k' other' before after (subst (λ l. look k l ≡ none) e absent) in
      (
        (k, other) ∷ before,
        after,
        k',
        other',
        map,
        ap (λ l. (k, other) ∷ l) e,
        found_before k' map (Bool-cases (same_key k k')) differs found,
        refused,
        λ j.
            reads j
            ∙ ap (λ x. joined try_update (look j (before ++ ((k', other') ∷ []))) x)
                (insert_child_lem try_update k j other s)
            ∙ round try_update k j other (before ++ ((k', other') ∷ []))
                s.pseudo_genesis.children_default absent',
      )
    where
      found_before :
          (k' : Bytes) (map : StorageChild Info)
          → (same_key k k' ≡ true) ⊎ (same_key k k' ≡ false)
          → same_key k' k ≡ false
          → look k' (insert_child try_update k other s).1.pseudo_genesis.children_default ≡ some map
          → look k' s.pseudo_genesis.children_default ≡ some map
      found_before k' map (inl q) differs found =
          let same = subst (λ x. same_key x k ≡ true) (same_key_eq k k' q) (same_key_refl k) in cc
      found_before k' map (inr q) differs found =
          let unmoved : look k'
                (insert_child try_update k other s).1.pseudo_genesis.children_default
              ≡ look k' s.pseudo_genesis.children_default =
            insert_child_lem try_update k k' other s ∙ rw (q) refl in
          sym unmoved ∙ found

  taken :
      (F : StateProvider Info → Type 0) (m : Result Error (Unit {0}) × StateProvider Info)
      → m.0 ≡ ok tt
      → Leaves (λ _ u. u ≡ m.1) F m
  taken F (ok _, u) e = refl
  taken F (err x, u) e = cc
  taken F (panic, u) e = cc

  insert_children-Refused :
      (others : Children) (s : StateProvider Info)
      → HasDistinctKeys others
      → Leaves
          (λ _ u. Joins others s.pseudo_genesis.children_default u.pseudo_genesis.children_default)
          (λ u. Refused others s.pseudo_genesis.children_default u.pseudo_genesis.children_default)
          (insert_children try_update others s)
  unfolding insert_children
  insert_children-Refused [] s d = λ j. refl
  insert_children-Refused ((k, other) ∷ others) s d =
      let m = insert_child try_update k other s in
      Leaves-continue {A = Unit {0}} (λ _ u. u ≡ m.1) _ _ m (λ _. insert_children try_update others)
        (elim (insert_child_cases k other s) [
          | inl e ↦ taken _ m e
          | inr refused ↦
              Leaves-any _ _ m (λ _. refl) (insert_child-Refused k other others s refused)
        ])
        (λ _ u e.
          subst
            (λ u.
              Leaves
                (λ _ u.
                  Joins ((k, other) ∷ others) s.pseudo_genesis.children_default
                    u.pseudo_genesis.children_default)
                (λ u.
                  Refused ((k, other) ∷ others) s.pseudo_genesis.children_default
                    u.pseudo_genesis.children_default)
                (insert_children try_update others u))
            (sym e)
            (Leaves-weaken _ _ _ _ (insert_children try_update others m.1)
              (insert_children-Refused others m.1 d.1)
              (λ _ u p j.
                p j
                ∙ ap (λ x. joined try_update (look j others) x)
                    (insert_child_lem try_update k j other s)
                ∙ round try_update k j other others s.pseudo_genesis.children_default d.0)
              (λ u r.
                Refused-insert_child k other others u.pseudo_genesis.children_default s d.0 r)))

  abbrev pub TopIn : Storage Info → StateProvider Info → StateProvider Info → Type 0
  TopIn storage s u =
      (k : Bytes)
      → look k u.pseudo_genesis.top ≡ or_else (last_of k storage.top) (look k s.pseudo_genesis.top)

  -- However `insert_storage` ends, every key reads at the top as the last value that is inserted for it, or as
  -- before where there is none. Where the children that are inserted have keys of their own and it succeeds, the
  -- children read as before with the inserted ones joined; where it fails, a first part of the inserted ones is
  -- joined all the same, and the last of them is one that was there and does not take the new information.
  pub insert_storage-Refused :
      (storage : Storage Info) (s : StateProvider Info)
      → HasDistinctKeys storage.children_default
      → Leaves
          (λ _ u.
            TopIn storage s u
            × Joins storage.children_default s.pseudo_genesis.children_default
                u.pseudo_genesis.children_default)
          (λ u.
            TopIn storage s u
            × Refused storage.children_default s.pseudo_genesis.children_default
                u.pseudo_genesis.children_default)
          (insert_storage try_update storage s)
  unfolding insert_storage
  insert_storage-Refused storage s d =
      Leaves-with (TopIn storage s) _ _ (insert_storage try_update storage s)
        (λ k. insert_storage_top try_update storage s k)
        (insert_children-Refused storage.children_default
          (record {
            pseudo_genesis = record {
              top = extend s.pseudo_genesis.top storage.top;
              children_default = s.pseudo_genesis.children_default;
            };
          })
          d)
