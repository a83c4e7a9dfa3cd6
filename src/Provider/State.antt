-- ===== src/Provider/State.antt =====
-- core/src/provider/state.rs: the genesis storage that a `StateProvider` gathers. A `BTreeMap` is the list
-- of its entries, the latest first where a key was written again.
use fudge.Prelude.{
  InnerError, ◌==◌, ◌&&◌, Bool, true, false, Option, none, some, List, [], ◌∷◌, Result, ok, err,
  Action, ◌>>=◌, ◌>>◌, pure, modify, if◌then◌else◌,
}
use fudge.Node.{Bytes}
pub mod Merging
pub mod Opening
pub mod Children
pub mod Rebuilding
pub mod Refusing

pub data Error : Type 0 where
  incompatible_child_info_update : Error
  db_backend_creation : InnerError → Error

abbrev pub same_key : Bytes → Bytes → Bool
same_key [] [] = true
same_key [] (_ ∷ _) = false
same_key (_ ∷ _) [] = false
same_key (x ∷ xs) (y ∷ ys) = x == y && same_key xs ys

abbrev pub Entries : Type 0 → Type 0
Entries V = List (Bytes × V)

abbrev pub look : {V : Type 0} → Bytes → Entries V → Option V
look k [] = none
look k ((j, v) ∷ m) = if same_key j k then some v else look k m

-- `extend`
unfoldable pub extend : {V : Type 0} → Entries V → Entries V → Entries V
extend m [] = m
extend m ((k, v) ∷ kvs) = extend ((k, v) ∷ m) kvs

-- `StorageChild`, over the `ChildInfo` of Substrate
pub record StorageChild (Info : Type 0) : Type 0 where
  pub data_ : Entries Bytes
  pub child_info : Info

-- `sp_storage::Storage`
pub record Storage (Info : Type 0) : Type 0 where
  pub top : Entries Bytes
  pub children_default : Entries (StorageChild Info)

-- The provider, less its handle of the backend.
pub record StateProvider (Info : Type 0) : Type 0 where
  pub pseudo_genesis : Storage Info

-- `try_update` of `ChildInfo` gives the information as it leaves it, and whether it was compatible.
module _ {Info : Type 0} (try_update : Info → Info → Bool × Info) where
  abbrev pub put_child : Bytes → StorageChild Info → Action (StateProvider Info) Error (Unit {0})
  put_child k child s = (
    ok tt,
    record s {
      pseudo_genesis = record s.pseudo_genesis {
        children_default = (k, child) ∷ s.pseudo_genesis.children_default;
      };
    },
  )

  -- A child that is there takes the new entries, and then the information, which may not fit.
  abbrev pub merge_child :
      Bytes → StorageChild Info → StorageChild Info → Action (StateProvider Info) Error (Unit {0})
  merge_child k other map = do
    let (fits, info) = try_update map.child_info other.child_info
    put_child k (record { data_ = extend map.data_ other.data_; child_info = info })
    λ s. (if fits then ok tt else err incompatible_child_info_update, s)

  unfoldable pub insert_child :
      Bytes → StorageChild Info → Action (StateProvider Info) Error (Unit {0})
  unfolding extend
  insert_child k other s = elim (look k s.pseudo_genesis.children_default) [
    | none ↦ put_child k other s
    | some map ↦ merge_child k other map s
  ]

  unfoldable pub insert_children :
      Entries (StorageChild Info) → Action (StateProvider Info) Error (Unit {0})
  unfolding insert_child
  insert_children [] = pure tt
  insert_children ((k, other) ∷ others) = do insert_child k other; insert_children others

  unfoldable pub insert_storage : Storage Info → Action (StateProvider Info) Error (Unit {0})
  unfolding insert_children
  insert_storage storage = do
    modify (λ s. record s {
      pseudo_genesis = record s.pseudo_genesis { top = extend s.pseudo_genesis.top storage.top };
    })
    insert_children storage.children_default
