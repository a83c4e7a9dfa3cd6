-- ===== src/Provider/State/Merging.antt =====
-- Where an entry of the genesis storage comes from.
use fudge.Prelude.{
  Bool, true, false, Option, none, some, [], ◌∷◌, Result, ok, err, panic, ◌≡◌, refl, ap, ◌∙◌, arith,
  if◌then◌else◌, Leaves, Leaves-any, Leaves-continue,
}
use fudge.Node.{Bytes}
use fudge.Provider.State.{
  same_key, Entries, look, extend, StorageChild, Storage, StateProvider, insert_child,
  insert_children, insert_storage,
}

abbrev pub or_else : {V : Type 0} → Option V → Option V → Option V
or_else none b = b
or_else (some a) b = some a

-- The last value that a list has for a key.
abbrev pub last_of : {V : Type 0} → Bytes → Entries V → Option V
last_of k [] = none
last_of k ((j, v) ∷ kvs) = or_else (last_of k kvs) (if same_key j k then some v else none)

or_else-if :
    {V : Type 0} (o p : Option V) (b : Bool) (v : V)
    → or_else o (if b then some v else p) ≡ or_else (or_else o (if b then some v else none)) p
or_else-if none p true v = refl
or_else-if none p false v = refl
or_else-if (some a) p b v = refl

look-extend :
    {V : Type 0} (k : Bytes) (m kvs : Entries V)
    → look k (extend m kvs) ≡ or_else (last_of k kvs) (look k m)
unfolding extend
look-extend k m [] = refl
look-extend k m ((j, v) ∷ kvs) =
    look-extend k ((j, v) ∷ m) kvs ∙ or_else-if (last_of k kvs) (look k m) (same_key j k) v

module _ {Info : Type 0} (try_update : Info → Info → Bool × Info) where
  insert_child_top :
      (k : Bytes) (other : StorageChild Info) (s : StateProvider Info)
      → (insert_child try_update k other s).1.pseudo_genesis.top ≡ s.pseudo_genesis.top
  unfolding insert_child
  insert_child_top k other s = ground arith

  insert_children_top :
      (others : Entries (StorageChild Info)) (s s₀ : StateProvider Info)
      → s.pseudo_genesis.top ≡ s₀.pseudo_genesis.top
      → Leaves
          (λ _ u. u.pseudo_genesis.top ≡ s₀.pseudo_genesis.top)
          (λ u. u.pseudo_genesis.top ≡ s₀.pseudo_genesis.top)
          (insert_children try_update others s)
  unfolding insert_children
  insert_children_top [] s s₀ e = e
  insert_children_top ((k, other) ∷ others) s s₀ e =
      let P = λ (u : StateProvider Info). u.pseudo_genesis.top ≡ s₀.pseudo_genesis.top in
      Leaves-continue (λ _. P) (λ _. P) P (insert_child try_update k other s) _
        (Leaves-any (λ _. P) P (insert_child try_update k other s)
          (λ _. insert_child_top k other s ∙ e) (insert_child_top k other s ∙ e))
        (λ _ u p. insert_children_top others u s₀ p)

  ends : {S E A : Type 0} (P : S → Type 0) (m : Result E A × S) → Leaves (λ _. P) P m → P m.1
  ends P (ok a, s) l = l
  ends P (err e, s) l = l
  ends P (panic, s) l = l

  -- Of every key, `insert_storage` leaves at the top the last value that the inserted storage has for it,
  -- and where it has none the value of before; this holds too where it fails on the children.
  pub insert_storage_top :
      (storage : Storage Info) (s : StateProvider Info) (k : Bytes)
      → look k (insert_storage try_update storage s).1.pseudo_genesis.top
        ≡ or_else (last_of k storage.top) (look k s.pseudo_genesis.top)
  unfolding insert_storage
  insert_storage_top storage s k =
      let s₁ : StateProvider Info = record s {
        pseudo_genesis = record s.pseudo_genesis { top = extend s.pseudo_genesis.top storage.top };
      } in
      ap (λ m. look k m)
        (ends (λ u. u.pseudo_genesis.top ≡ s₁.pseudo_genesis.top)
          (insert_children try_update storage.children_default s₁)
          (insert_children_top storage.children_default s₁ s₁ refl))
      ∙ look-extend k s.pseudo_genesis.top storage.top
