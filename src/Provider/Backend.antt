-- ===== src/Provider/Backend.antt =====
-- core/src/provider/backend.rs: the databases that a client may stand on, one in memory and one on disk, with
-- their settings. `PhantomData` is left out.
use fudge.Prelude.{ℕ, Bool, true, Option, none, some, InnerError, Action}
pub mod Settings

-- What `sc_client_db` gives. `open` is `Backend::new`, in the world of the databases.
pub record Databases : Type 1 where
  pub World : Type 0
  pub Backend : Type 0
  pub KeyValueDb : Type 0
  pub PathBuf : Type 0
  pub BlocksPruning : Type 0
  pub keep_all : BlocksPruning
  pub PruningMode : Type 0
  pub archive_all : PruningMode
  -- `sp_database::MemDb::new()`
  pub mem_db : KeyValueDb

abbrev canonicalization_delay_default : ℕ
canonicalization_delay_default = 4096

abbrev rocks_db_cache_size : ℕ
rocks_db_cache_size = 1024

-- `DatabaseSource`
pub data DatabaseSource (d : Databases) : Type 0 where
  custom_source : d.KeyValueDb → Bool → DatabaseSource d
  rocks_db_source : d.PathBuf → ℕ → DatabaseSource d
  parity_db_source : d.PathBuf → DatabaseSource d

pub record DatabaseSettings (d : Databases) : Type 0 where
  pub trie_cache_maximum_size : Option ℕ
  pub state_pruning : Option d.PruningMode
  pub source : DatabaseSource d
  pub blocks_pruning : d.BlocksPruning

-- `sc_client_db::Backend::new`
abbrev pub Open : Databases → Type 0
Open d = DatabaseSettings d → ℕ → Action d.World InnerError d.Backend

pub record MemDb (d : Databases) : Type 0 where
  pub blocks_pruning : d.BlocksPruning
  pub trie_cache : Option ℕ
  pub state_pruning : Option d.PruningMode
  pub require_create_flag : Bool
  pub canonicalization_delay : ℕ

pub data DiskDatabaseType : Type 0 where
  rocks_db : ℕ → DiskDatabaseType
  parity_db : DiskDatabaseType

pub record DiskDb (d : Databases) : Type 0 where
  pub path : d.PathBuf
  pub blocks_pruning : d.BlocksPruning
  pub trie_cache : Option ℕ
  pub state_pruning : Option d.PruningMode
  pub database_type : DiskDatabaseType
  pub canonicalization_delay : ℕ

module _ {d : Databases} where
  -- The methods of `MemDb`
  unfoldable pub new_mem : MemDb d
  new_mem = record {
    blocks_pruning = d.keep_all;
    trie_cache = none;
    state_pruning = some d.archive_all;
    require_create_flag = true;
    canonicalization_delay = canonicalization_delay_default;
  }

  unfoldable pub mem_blocks_pruning : d.BlocksPruning → MemDb d → MemDb d
  mem_blocks_pruning pruning s = record s { blocks_pruning = pruning }

  unfoldable pub mem_trie_cache : ℕ → MemDb d → MemDb d
  mem_trie_cache size s = record s { trie_cache = some size }

  unfoldable pub mem_no_trie_cache : MemDb d → MemDb d
  mem_no_trie_cache s = record s { trie_cache = none }

  unfoldable pub mem_state_pruning : d.PruningMode → MemDb d → MemDb d
  mem_state_pruning pruning s = record s { state_pruning = some pruning }

  unfoldable pub mem_no_state_pruning : MemDb d → MemDb d
  mem_no_state_pruning s = record s { state_pruning = none }

  unfoldable pub mem_create_flag : Bool → MemDb d → MemDb d
  mem_create_flag create s = record s { require_create_flag = create }

  unfoldable pub mem_canonicalization_delay : ℕ → MemDb d → MemDb d
  mem_canonicalization_delay delay s = record s { canonicalization_delay = delay }

  -- `MemDb::provide`, a database of its own at every call
  unfoldable pub provide_mem : Open d → MemDb d → Action d.World InnerError d.Backend
  provide_mem open_ s =
      open_
        (record {
          trie_cache_maximum_size = s.trie_cache;
          state_pruning = s.state_pruning;
          source = custom_source d.mem_db s.require_create_flag;
          blocks_pruning = s.blocks_pruning;
        })
        s.canonicalization_delay

  -- The methods of `DiskDb`
  unfoldable pub new_disk : d.PathBuf → DiskDb d
  new_disk path = record {
    path = path;
    blocks_pruning = d.keep_all;
    trie_cache = none;
    state_pruning = some d.archive_all;
    database_type = rocks_db rocks_db_cache_size;
    canonicalization_delay = canonicalization_delay_default;
  }

  unfoldable pub disk_blocks_pruning : d.BlocksPruning → DiskDb d → DiskDb d
  disk_blocks_pruning pruning s = record s { blocks_pruning = pruning }

  unfoldable pub disk_trie_cache : ℕ → DiskDb d → DiskDb d
  disk_trie_cache size s = record s { trie_cache = some size }

  unfoldable pub disk_no_trie_cache : DiskDb d → DiskDb d
  disk_no_trie_cache s = record s { trie_cache = none }

  unfoldable pub disk_state_pruning : d.PruningMode → DiskDb d → DiskDb d
  disk_state_pruning pruning s = record s { state_pruning = some pruning }

  unfoldable pub disk_no_state_pruning : DiskDb d → DiskDb d
  disk_no_state_pruning s = record s { state_pruning = none }

  unfoldable pub disk_database_type : DiskDatabaseType → DiskDb d → DiskDb d
  disk_database_type database_type s = record s { database_type = database_type }

  unfoldable pub disk_canonicalization_delay : ℕ → DiskDb d → DiskDb d
  disk_canonicalization_delay delay s = record s { canonicalization_delay = delay }

  abbrev source_of : d.PathBuf → DiskDatabaseType → DatabaseSource d
  source_of path (rocks_db cache_size) = rocks_db_source path cache_size
  source_of path parity_db = parity_db_source path

  -- `DiskDb::provide`
  unfoldable pub provide_disk : Open d → DiskDb d → Action d.World InnerError d.Backend
  provide_disk open_ s =
      open_
        (record {
          trie_cache_maximum_size = s.trie_cache;
          state_pruning = s.state_pruning;
          source = source_of s.path s.database_type;
          blocks_pruning = s.blocks_pruning;
        })
        s.canonicalization_delay
