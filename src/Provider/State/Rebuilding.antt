-- ===== src/Provider/State/Rebuilding.antt =====
-- From a storage to a provider and back.
use mathlib.Core.Path.{subst}
use fudge.Prelude.{
  Bool, Bool-cases, true, false, Option, none, some, [], ◌∷◌, Result, ok, err, panic, ◌≡◌, refl,
  ◌∙◌, arith, inl, inr, All, Yields,
}
use fudge.Node.{Bytes}
use fudge.Provider.Backend.{Databases, Open}
use fudge.Provider.State.{
  same_key, Entries, look, put_child, StorageChild, Storage, StateProvider, insert_child,
  insert_children, insert_storage, extend,
}
use fudge.Provider.State.Merging.{or_else, last_of}
use fudge.Provider.State.Children.{
  HasDistinctKeys, joined, insert_storage-joined, same_key_refl, same_key_eq,
}
use fudge.Provider.State.Opening.{
  inserted, empty_storage, with_in_mem_db, from_storage, build_storage,
}

-- A key that is not among the entries, against each of theirs.
apart :
    {V : Type 0} (k j : Bytes) (v : V) (m : Entries V)
    → look k ((j, v) ∷ m) ≡ none
    → same_key k j ≡ false
apart k j v m e = elim (Bool-cases (same_key k j)) [
  | inr q ↦ q
  | inl q ↦
      let same : same_key j k ≡ true =
        subst (λ x. same_key x k ≡ true) (same_key_eq k j q) (same_key_refl k) in
      absurd (ground (arith, same, e))
]

look_later :
    {V : Type 0} (k j : Bytes) (v : V) (m : Entries V)
    → look k ((j, v) ∷ m) ≡ none
    → look k m ≡ none
look_later k j v m e = ground (arith, e)

-- Entries that are new to a map are so after another new one, if that has a key of its own.
still_new :
    {V : Type 0} (k : Bytes) (v : V) (m others : Entries V)
    → look k others ≡ none
    → All (λ x. look x.0 m ≡ none) others
    → All (λ x. look x.0 ((k, v) ∷ m) ≡ none) others
still_new k v m [] e a = tt
still_new k v m ((j, u) ∷ others) e a =
    (rw (apart k j u others e) a.0, still_new k v m others (look_later k j u others e) a.1)

abbrev fresh : (Info : Type 0) → StateProvider Info
fresh Info = record { pseudo_genesis = empty_storage Info }

module _ {Info : Type 0} (try_update : Info → Info → Bool × Info) where
  insert_child_new :
      (k : Bytes) (other : StorageChild Info) (s : StateProvider Info)
      → look k s.pseudo_genesis.children_default ≡ none
      → insert_child try_update k other s ≡ put_child try_update k other s
  unfolding insert_child
  insert_child_new k other s q = ground (arith, q)

  -- Children under keys that are new are just put in.
  insert_children_new :
      (others : Entries (StorageChild Info)) (s : StateProvider Info)
      → HasDistinctKeys others
      → All (λ x. look x.0 s.pseudo_genesis.children_default ≡ none) others
      → (insert_children try_update others s).0 ≡ ok tt
  unfolding insert_children
  insert_children_new [] s d a = refl
  insert_children_new ((k, other) ∷ others) s d a = rw (insert_child_new k other s a.0) (
      insert_children_new others (put_child try_update k other s).1 d.1
        (still_new k other s.pseudo_genesis.children_default others d.0 a.1))

  everything_new :
      {V : Type 0} (others : Entries V) → All (λ (x : Bytes × V). look {V = V} x.0 [] ≡ none) others
  everything_new [] = tt
  everything_new (x ∷ xs) = (refl, everything_new xs)

  insert_storage_empty :
      (storage : Storage Info)
      → HasDistinctKeys storage.children_default
      → (insert_storage try_update storage (fresh Info)).0 ≡ ok tt
  unfolding insert_storage
  insert_storage_empty storage d =
      insert_children_new storage.children_default _ d (everything_new storage.children_default)

  joined-none : (x : Option (StorageChild Info)) → joined try_update x none ≡ x
  joined-none none = refl
  joined-none (some other) = refl

or_else-none : {V : Type 0} (x : Option V) → or_else x none ≡ x
or_else-none none = refl
or_else-none (some v) = refl

succeeded :
    {S E A : Type 0} (Q : A → S → Type 0) (m : Result E A × S) (a : A)
    → Yields Q m
    → m.0 ≡ ok a
    → Q a m.1
succeeded Q (ok x, s) a y e = let same : x ≡ a = cc in subst (λ x. Q x s) same y
succeeded Q (err x, s) a y e = cc
succeeded Q (panic, s) a y e = cc

module _ {d : Databases} (open_ : Open d) {Info : Type 0}
    (try_update : Info → Info → Bool × Info) where
  opens_with :
      (storage : Storage Info) (provider : StateProvider Info) (backend : d.Backend) (w : d.World)
      → (insert_storage try_update storage provider).0 ≡ ok tt
      → inserted open_ try_update storage (backend, provider) w
        ≡ (ok (backend, (insert_storage try_update storage provider).1), w)
  unfolding insert_storage
  opens_with storage provider backend w e = ground (arith, e)

  -- Where the database in memory opens, and the children of a storage have keys of their own, a provider is
  -- made from the storage without an error, and what it builds reads as that storage: at the top every key
  -- as the last value that stands for it, and the children as given.
  pub from_storage-build_storage :
      (key : Bytes) (storage : Storage Info) (backend : d.Backend) (w w' : d.World)
      → with_in_mem_db open_ Info w
        ≡ (ok (backend, record { pseudo_genesis = empty_storage Info }), w')
      → HasDistinctKeys storage.children_default
      → (provider : StateProvider Info) × (built : Storage Info) × (from_storage open_ try_update
            key storage w
          ≡ (ok (backend, provider), w'))
        × (build_storage provider ≡ ok built)
        × ((k : Bytes) → look k built.top ≡ last_of k storage.top)
        × ((j : Bytes) → look j built.children_default ≡ look j storage.children_default)
  unfolding from_storage build_storage insert_storage insert_children extend
  from_storage-build_storage key storage backend w w' opens distinct =
      let ends = insert_storage_empty try_update storage distinct in
      let (top_, children_) =
        succeeded _ (insert_storage try_update storage (fresh Info)) tt
          (insert_storage-joined try_update storage (fresh Info) distinct) ends in
      (
        (insert_storage try_update storage (fresh Info)).1,
        (insert_storage try_update storage (fresh Info)).1.pseudo_genesis,
        rw (opens) (opens_with storage (fresh Info) backend w' ends),
        refl,
        λ k. top_ k ∙ or_else-none (last_of k storage.top),
        λ j. children_ j ∙ joined-none try_update (look j storage.children_default),
      )
