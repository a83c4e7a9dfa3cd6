-- ===== src/Provider/Initiator.antt =====
-- core/src/provider/initiator.rs and core/src/provider/mod.rs: what sets up the client, the backend and the pool
-- of a builder. Logging, `Arc`s and `PhantomData` are left out.
use fudge.Prelude.{
  ℕ, Bool, true, false, not, Option, none, some, InnerError, ok, modify, Action, ◌>>=◌, ◌>>◌, pure,
  gets, map_err,
}
use fudge.Provider.Backend.{Databases, MemDb, new_mem}
pub mod Settings

-- `HeapAllocStrategy`, as far as it is made here
pub data HeapAllocStrategy : Type 0 where
  static_pages : ℕ → HeapAllocStrategy

-- What the builder of a `WasmExecutor` is told.
pub record ExecutorSettings : Type 0 where
  pub max_runtime_instances : ℕ
  pub runtime_cache_size : ℕ
  pub onchain_heap_alloc_strategy : HeapAllocStrategy
  pub offchain_heap_alloc_strategy : HeapAllocStrategy

-- What `sc_service`, `sc_executor` and `sc_transaction_pool` give, in a world that holds what is set up.
pub record Services : Type 1 where
  pub World : Type 0
  pub Handle : Type 0
  pub TaskManager : Type 0
  pub Executor : Type 0
  pub Backend : Type 0
  pub Client : Type 0
  pub Pool : Type 0
  pub Genesis : Type 0
  pub genesis_default : Genesis
  pub ClientConfig : Type 0
  pub client_config_default : ClientConfig
  pub no_genesis : ClientConfig → Bool
  pub ExecutionExtensions : Type 0
  -- `ExecutionExtensions::new(None, Arc::new(exec))`
  pub new_extensions : Executor → ExecutionExtensions
  pub Options : Type 0
  pub options_default : Options
  pub RevalidationType : Type 0
  pub full : RevalidationType
  pub new_task_manager : Handle → Action World InnerError TaskManager
  pub CallExecutor : Type 0
  pub new_call_executor :
      Backend → Executor → ClientConfig → ExecutionExtensions → Action World InnerError CallExecutor
  pub GenesisBlockBuilder : Type 0
  pub new_genesis_block_builder :
      Genesis → Bool → Backend → Executor → Action World InnerError GenesisBlockBuilder
  pub UsageInfo : Type 0
  pub usage_info : Client → World → UsageInfo
  -- `FullPool::with_revalidation_type`, over a new chain API of the client and spawners of the tasks
  pub new_pool :
      Options → Bool → Client → RevalidationType → TaskManager → UsageInfo → World → Pool × World
  pub Configuration : Type 0
  pub Keystore : Type 0
  pub new_full_parts :
      Configuration → Executor → Action World InnerError (Client × Backend × Keystore × TaskManager)
  -- `WasmExecutor::builder()`, and `build()` after what it was told
  pub build_executor : ExecutorSettings → Executor

pub data Error : Type 0 where
  task_manager_creation backend_provider call_executor_creation genesis_block_builder_creation
        client_provider full_parts_creation :
      InnerError → Error

module _ (v : Services) where
  pub record PoolConfig : Type 0 where
    pub is_validator : Bool
    pub options : v.Options
    pub revalidation : v.RevalidationType

  -- `BackendProvider::provide` and `ClientProvider::provide`
  abbrev pub BackendProvider : Type 0
  BackendProvider = Action v.World InnerError v.Backend

  abbrev pub ClientProvider : Type 0
  ClientProvider =
      v.ClientConfig
      → v.GenesisBlockBuilder
      → v.Backend
      → v.CallExecutor
      → v.TaskManager
      → Action v.World InnerError v.Client

  -- `Init`
  pub record Init : Type 0 where
    pub backend : BackendProvider
    pub client : ClientProvider
    pub genesis : v.Genesis
    pub handle : v.Handle
    pub exec : v.Executor
    pub pool_config : PoolConfig
    pub client_config : v.ClientConfig
    pub execution_extensions : v.ExecutionExtensions

  abbrev pub Parts : Type 0
  Parts = v.Client × v.Backend × v.Pool × v.Executor × v.TaskManager

  -- `FromConfiguration`; its receiver acts on the world.
  pub record FromConfiguration : Type 0 where
    pub exec : v.Executor
    pub config : v.Configuration
    pub keystore_receiver : v.Keystore → v.World → v.World
    pub pool_config : PoolConfig

unfoldable pub build_wasm_executor : (v : Services) → v.Executor
build_wasm_executor v =
    let heap_alloc_strategy = static_pages 1024 in
    v.build_executor (record {
      max_runtime_instances = 8;
      runtime_cache_size = 2;
      onchain_heap_alloc_strategy = heap_alloc_strategy;
      offchain_heap_alloc_strategy = heap_alloc_strategy;
    })

module _ {v : Services} where
  abbrev pub default_pool_config : PoolConfig v
  default_pool_config = record {
    is_validator = true;
    options = v.options_default;
    revalidation = v.full;
  }

  unfoldable pub new_init : BackendProvider v → ClientProvider v → v.Executor → v.Handle → Init v
  new_init backend client exec handle = record {
    backend = backend;
    client = client;
    genesis = v.genesis_default;
    handle = handle;
    exec = exec;
    pool_config = default_pool_config;
    client_config = v.client_config_default;
    execution_extensions = v.new_extensions exec;
  }

  -- `default_with`, of the default client's provider
  unfoldable pub default_with : ClientProvider v → v.Handle → BackendProvider v → Init v
  unfolding new_init build_wasm_executor
  default_with client handle backend = new_init backend client (build_wasm_executor v) handle

  -- `default`, of the same; `provide` is `MemDb::provide`
  unfoldable pub default :
      {d : Databases} → (MemDb d → BackendProvider v) → ClientProvider v → v.Handle → Init v
  unfolding new_init build_wasm_executor new_mem
  default provide client handle = new_init (provide new_mem) client (build_wasm_executor v) handle

  unfoldable pub with_exec_extensions : v.ExecutionExtensions → Init v → Init v
  with_exec_extensions extensions s = record s { execution_extensions = extensions }

  unfoldable pub with_genesis : v.Genesis → Init v → Init v
  with_genesis genesis s = record s { genesis = genesis }

  unfoldable pub with_config : v.ClientConfig → Init v → Init v
  with_config config s = record s { client_config = config }

  unfoldable pub with_pool_config : PoolConfig v → Init v → Init v
  with_pool_config pool_config s = record s { pool_config = pool_config }

  -- The pool, over what the client then says of its chain.
  abbrev pub make_pool : PoolConfig v → v.Client → v.TaskManager → Action v.World Error v.Pool
  make_pool p client task_manager w =
      let (pool, w') =
        v.new_pool p.options p.is_validator client p.revalidation task_manager
          (v.usage_info client w) w in
      (ok pool, w')

  -- `Init::init`
  unfoldable pub init : Init v → Action v.World Error (Parts v)
  init s = do
    task_manager ← map_err task_manager_creation (v.new_task_manager s.handle)
    backend ← map_err backend_provider s.backend
    call_executor ←
        map_err call_executor_creation
          (v.new_call_executor backend s.exec s.client_config s.execution_extensions)
    genesis_block_builder ←
        map_err genesis_block_builder_creation (
          v.new_genesis_block_builder s.genesis (not (v.no_genesis s.client_config)) backend s.exec)
    client ←
        map_err client_provider
          (s.client s.client_config genesis_block_builder backend call_executor task_manager)
    pool ← make_pool s.pool_config client task_manager
    pure (client, backend, pool, s.exec, task_manager)

  unfoldable pub new_from_configuration : v.Executor → v.Configuration → FromConfiguration v
  new_from_configuration exec config = record {
    exec = exec;
    config = config;
    keystore_receiver = λ _ w. w;
    pool_config = default_pool_config;
  }

  unfoldable pub set_pool_config : PoolConfig v → FromConfiguration v → FromConfiguration v
  set_pool_config pool_config s = record s { pool_config = pool_config }

  unfoldable pub with_keystore_receiver :
      (v.Keystore → v.World → v.World) → FromConfiguration v → FromConfiguration v
  with_keystore_receiver receiver s = record s { keystore_receiver = receiver }

  -- `FromConfiguration::init`
  unfoldable pub init_from_configuration : FromConfiguration v → Action v.World Error (Parts v)
  init_from_configuration s = do
    (client, backend, keystore, task_manager) ←
        map_err full_parts_creation (v.new_full_parts s.config s.exec)
    pool ← make_pool s.pool_config client task_manager
    modify (λ w. s.keystore_receiver keystore w)
    pure (client, backend, pool, s.exec, task_manager)

-- `Error` of core/src/provider/mod.rs
pub data ClientError : Type 0 where
  full_client_creation : InnerError → ClientError

module _ (v : Services) where
  -- `DefaultClient::provide`, over `TFullClient::new`
  unfoldable pub provide_client :
      (v.Backend
        → v.CallExecutor
        → v.TaskManager
        → v.GenesisBlockBuilder
        → v.ClientConfig
        → Action v.World InnerError v.Client)
      → v.ClientConfig
      → v.GenesisBlockBuilder
      → v.Backend
      → v.CallExecutor
      → v.TaskManager
      → Action v.World ClientError v.Client
  provide_client new_full_client config genesis_block_builder backend exec spawn_handle =
      map_err full_client_creation
        (new_full_client backend exec spawn_handle genesis_block_builder config)
