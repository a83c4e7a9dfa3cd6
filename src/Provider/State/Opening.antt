-- ===== src/Provider/State/Opening.antt =====
-- core/src/provider/state.rs: how a `StateProvider` comes by its database and its first storage.
use fudge.Prelude.{
  ℕ, true, Option, none, some, [], ◌∷◌, Result, ok, err, panic, InnerError, Bool, Action, ◌>>=◌,
  pure, map_err,
}
use fudge.Node.{Bytes}
use fudge.Provider.Backend.{Databases, DatabaseSettings, custom_source, rocks_db_source, Open}
use fudge.Provider.State.{Error, db_backend_creation, Storage, StateProvider, insert_storage}

abbrev canonicalization_delay_default : ℕ
canonicalization_delay_default = 4096

pub data DbOpen (d : Databases) : Type 0 where
  full_config : DatabaseSettings d → DbOpen d
  sparse_config : d.PathBuf → d.PruningMode → DbOpen d
  default_config : d.PathBuf → DbOpen d

abbrev pub empty_storage : (Info : Type 0) → Storage Info
empty_storage Info = record { top = []; children_default = [] }

abbrev rocks : {d : Databases} → Option d.PruningMode → d.PathBuf → DatabaseSettings d
rocks {d} state_pruning path = record {
  trie_cache_maximum_size = none;
  state_pruning = state_pruning;
  source = rocks_db_source path 1024;
  blocks_pruning = d.keep_all;
}

abbrev settings_of : {d : Databases} → DbOpen d → DatabaseSettings d
settings_of (full_config settings) = settings
settings_of (sparse_config path state_pruning) = rocks (some state_pruning) path
settings_of (default_config path) = rocks none path

-- The handle of the backend, and the provider.
abbrev pub Opened : Databases → Type 0 → Type 0
Opened d Info = d.Backend × StateProvider Info

module _ {d : Databases} (open_ : Open d) (Info : Type 0) where
  abbrev open_with : DatabaseSettings d → Action d.World Error (Opened d Info)
  open_with settings = do
    backend ← map_err db_backend_creation (open_ settings canonicalization_delay_default)
    pure (backend, record { pseudo_genesis = empty_storage Info })

  unfoldable pub from_db : DbOpen d → Action d.World Error (Opened d Info)
  from_db open_db = open_with (settings_of open_db)

  unfoldable pub with_in_mem_db : Action d.World Error (Opened d Info)
  with_in_mem_db = open_with (record {
    trie_cache_maximum_size = none;
    state_pruning = some d.archive_all;
    source = custom_source d.mem_db true;
    blocks_pruning = d.keep_all;
  })

module _ {d : Databases} (open_ : Open d) {Info : Type 0}
    (try_update : Info → Info → Bool × Info) where
  abbrev pub inserted : Storage Info → Opened d Info → Action d.World Error (Opened d Info)
  unfolding insert_storage
  inserted storage (backend, provider) w =
      let (r, provider') = insert_storage try_update storage provider in
      elim r [ ok _ ↦ (ok (backend, provider'), w) | err e ↦ (err e, w) | panic ↦ (panic, w) ]

  abbrev pub code_storage : Bytes → Option Bytes → Storage Info
  code_storage key none = empty_storage Info
  code_storage key (some code) = record { top = (key, code) ∷ []; children_default = [] }

  -- `key` is the well-known key of the runtime's code.
  unfoldable pub empty_default : Bytes → Option Bytes → Action d.World Error (Opened d Info)
  unfolding with_in_mem_db
  empty_default key code = with_in_mem_db open_ Info >>= inserted (code_storage key code)

  unfoldable pub from_storage : Bytes → Storage Info → Action d.World Error (Opened d Info)
  unfolding empty_default
  from_storage key storage = empty_default key none >>= inserted storage

-- `BuildStorage::build_storage`
unfoldable pub build_storage :
    {Info : Type 0} → StateProvider Info → Result InnerError (Storage Info)
build_storage s = ok s.pseudo_genesis
