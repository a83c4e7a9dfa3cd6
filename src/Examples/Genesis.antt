-- ===== src/Examples/Genesis.antt =====
-- A genesis storage that is written twice.
use fudge.Prelude.{err, Leaves, ◌==◌, Bool, ok, refl, ◌+◌, [], ◌∷◌, ◌≡◌, ℕ}
use fudge.Provider.State.{
  incompatible_child_info_update, Storage, StateProvider, look, insert_storage,
}
use fudge.Provider.State.Merging.{last_of}
use fudge.Provider.State.Refusing.{TopIn, Joins, Refused, insert_storage-Refused}
use fudge.Provider.State.Opening.{empty_storage, with_in_mem_db, from_storage, build_storage}
use fudge.Provider.State.Rebuilding.{from_storage-build_storage}
use fudge.Provider.Backend.{Databases, Open}
use fudge.Node.{Bytes}

abbrev provider : StateProvider ℕ
provider = record {
  pseudo_genesis = record {
    top = (1 ∷ [], 5 ∷ []) ∷ (2 ∷ [], 6 ∷ []) ∷ [];
    children_default = (3 ∷ [], record { data_ = []; child_info = 0 }) ∷ [];
  };
}

-- A storage with an entry for the top and one for the child that is there.
abbrev added : Storage ℕ
added = record {
  top = (1 ∷ [], 7 ∷ []) ∷ [];
  children_default = (3 ∷ [], record { data_ = (4 ∷ [], 8 ∷ []) ∷ []; child_info = 1 }) ∷ [];
}

-- Only information that is the same fits.
abbrev try_ : ℕ → ℕ → Bool × ℕ
try_ a b = (a == b, a)

insert_storage-Refused_example :
    Leaves
      (λ _ u.
        TopIn try_ added provider u
        × Joins try_ added.children_default provider.pseudo_genesis.children_default
            u.pseudo_genesis.children_default)
      (λ u.
        TopIn try_ added provider u
        × Refused try_ added.children_default provider.pseudo_genesis.children_default
            u.pseudo_genesis.children_default)
      (insert_storage try_ added provider)
insert_storage-Refused_example = insert_storage-Refused try_ added provider (refl, tt)

refuses : (insert_storage try_ added provider).0 ≡ err incompatible_child_info_update
unfolding insert_storage
refuses = refl

abbrev databases : Databases
databases = record {
  World = ℕ;
  Backend = ℕ;
  KeyValueDb = Unit {0};
  PathBuf = ℕ;
  BlocksPruning = ℕ;
  keep_all = 0;
  PruningMode = ℕ;
  archive_all = 1;
  mem_db = tt;
}

abbrev opens : Open databases
opens settings delay w = (ok (delay + w), w + 1)

opened :
    with_in_mem_db {d = databases} opens ℕ 0
    ≡ (ok (4096, record { pseudo_genesis = empty_storage ℕ }), 1)
unfolding with_in_mem_db
opened = refl

from_storage-build_storage_example :
    (p : StateProvider ℕ) × (built : Storage ℕ) × (from_storage {d = databases} opens try_ [] added
        0
      ≡ (ok (4096, p), 1))
    × (build_storage p ≡ ok built)
    × ((k : Bytes) → look k built.top ≡ last_of k added.top)
    × ((j : Bytes) → look j built.children_default ≡ look j added.children_default)
from_storage-build_storage_example =
    from_storage-build_storage opens try_ [] added 4096 0 1 opened (refl, tt)
