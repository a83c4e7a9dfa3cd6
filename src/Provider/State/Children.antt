-- ===== src/Provider/State/Children.antt =====
-- What an insertion leaves of the children of the genesis storage.
use mathlib.Core.Path.{subst}
use fudge.Prelude.{
  ◌==◌, ==_iff, ==_refl, Bool, Bool-cases, true, Option, none, some, [], ◌∷◌, ◌≡◌, refl, ap, ◌∙◌,
  arith, inl, inr, if◌then◌else◌, Yields, Yields-any, Yields-and, Yields-weaken, Yields-continue,
  Option-cases,
}
use fudge.Node.{Bytes}
use fudge.Provider.State.{
  same_key, Entries, look, extend, StorageChild, Storage, StateProvider, insert_child,
  insert_children, insert_storage,
}
use fudge.Provider.State.Merging.{or_else, last_of, insert_storage_top}

pub same_key_refl : (k : Bytes) → same_key k k ≡ true
same_key_refl [] = refl
same_key_refl (x ∷ k) = rw (==_refl x) (same_key_refl k)

pub same_key_eq : (j k : Bytes) → same_key j k ≡ true → j ≡ k
same_key_eq [] [] e = refl
same_key_eq [] (y ∷ k) e = cc
same_key_eq (x ∷ j) [] e = cc
same_key_eq (x ∷ j) (y ∷ k) e = elim (Bool-cases (x == y)) [
  | inl q ↦ cc ((==_iff x y).0 q, same_key_eq j k (ground (arith, q, e)))
  | inr q ↦ absurd (ground (arith, q, e))
]

-- No key stands twice, as in a `BTreeMap`.
abbrev pub HasDistinctKeys : {V : Type 0} → Entries V → Type 0
HasDistinctKeys [] = Unit {0}
HasDistinctKeys ((k, v) ∷ m) = (look k m ≡ none) × HasDistinctKeys m

module _ {Info : Type 0} (try_update : Info → Info → Bool × Info) where
  -- A child that is inserted where there may be one.
  abbrev pub join : StorageChild Info → Option (StorageChild Info) → StorageChild Info
  join other none = other
  join other (some map) = record {
    data_ = extend map.data_ other.data_;
    child_info = (try_update map.child_info other.child_info).1;
  }

  abbrev pub joined :
      Option (StorageChild Info) → Option (StorageChild Info) → Option (StorageChild Info)
  joined none old = old
  joined (some other) old = some (join other old)

  abbrev Children : Type 0
  Children = Entries (StorageChild Info)

  pub insert_child_lem :
      (k j : Bytes) (other : StorageChild Info) (s : StateProvider Info)
      → look j (insert_child try_update k other s).1.pseudo_genesis.children_default ≡ (
          if same_key k j
          then some (join other (look k s.pseudo_genesis.children_default))
          else look j s.pseudo_genesis.children_default)
  unfolding insert_child
  insert_child_lem k j other s = elim (Option-cases (look k s.pseudo_genesis.children_default)) [
    | inl q ↦ ground (arith, q)
    | inr (map, q) ↦ ground (arith, q)
  ]

  -- One round of the loop, and then the rest.
  pub round :
      (k j : Bytes) (other : StorageChild Info) (others m : Entries (StorageChild Info))
      → look k others ≡ none
      → joined (look j others) (if same_key k j then some (join other (look k m)) else look j m)
        ≡ joined (look j ((k, other) ∷ others)) (look j m)
  round k j other others m absent = elim (Bool-cases (same_key k j)) [
    | inr q ↦ rw (q) refl
    | inl q ↦
        let same = same_key_eq k j q in
        let gone : look j others ≡ none = subst (λ x. look x others ≡ none) same absent in
        rw (q, gone) (ap (λ x. some (join other (look x m))) same)
  ]

  insert_children-joined :
      (others : Entries (StorageChild Info)) (s : StateProvider Info)
      → HasDistinctKeys others
      → Yields
          (λ _ s'.
            (j : Bytes)
            → look j s'.pseudo_genesis.children_default
              ≡ joined (look j others) (look j s.pseudo_genesis.children_default))
          (insert_children try_update others s)
  unfolding insert_children
  insert_children-joined [] s d = λ j. refl
  insert_children-joined ((k, other) ∷ others) s d =
      let m = insert_child try_update k other s in
      Yields-continue {A = Unit {0}} (λ _ u. u ≡ m.1) _ m (λ _. insert_children try_update others)
        (Yields-any (λ _ u. u ≡ m.1) m (λ _. refl))
        (λ _ u e.
          Yields-weaken _ _ (insert_children try_update others u)
            (insert_children-joined others u d.1)
            (λ _ s' p j.
              p j
              ∙ ap (λ u. joined (look j others) (look j u.pseudo_genesis.children_default)) e
              ∙ ap (λ x. joined (look j others) x) (insert_child_lem k j other s)
              ∙ round k j other others s.pseudo_genesis.children_default d.0))

  -- Where `insert_storage` succeeds, and the children that are inserted have keys of their own: every key
  -- reads at the top as the last value that is inserted for it, or as before where there is none; and a child
  -- that is inserted stands as given where there was none, and where there was one the entries are added to
  -- its own and its information is updated; the other children are as before.
  pub insert_storage-joined :
      (storage : Storage Info) (s : StateProvider Info)
      → HasDistinctKeys storage.children_default
      → Yields
          (λ _ s'.
            ((k : Bytes)
              → look k s'.pseudo_genesis.top
                ≡ or_else (last_of k storage.top) (look k s.pseudo_genesis.top))
            × ((j : Bytes)
                → look j s'.pseudo_genesis.children_default
                  ≡ joined
                      (look j storage.children_default)
                      (look j s.pseudo_genesis.children_default)))
          (insert_storage try_update storage s)
  unfolding insert_storage
  insert_storage-joined storage s d =
      let m = insert_storage try_update storage s in
      Yields-and _ _ m
        (Yields-any
          (λ _ s'.
            (k : Bytes)
            → look k s'.pseudo_genesis.top
              ≡ or_else (last_of k storage.top) (look k s.pseudo_genesis.top))
          m (λ _ k. insert_storage_top try_update storage s k))
        (insert_children-joined storage.children_default
          (record {
            pseudo_genesis = record {
              top = extend s.pseudo_genesis.top storage.top;
              children_default = s.pseudo_genesis.children_default;
            };
          })
          d)
