-- ===== src/Builder/Core.antt =====
-- core/src/builder/core.rs: the builder that the three chain builders share. `client`, `backend`,
-- `pool` and `task_manager` are handles of the one world of the node.
use fudge.Prelude.{
  ℕ, ◌+◌, ◌==◌, Bool, true, false, Option, none, some, List, [], ◌∷◌, ◌++◌, Result, ok, err, panic,
  InnerError, Action, recast, ◌>>=◌, ◌>>◌, pure, throw, gets, modify, or_throw, map_err, zoom, asks,
  lift, if◌then◌else◌, foldl,
}
use fudge.Node.{
  Node, BlockId, hash, number, ImportResult, imported, already_in_chain, known_bad, unknown_parent,
  missing_state, ChainEvent, new_best_block, finalized, BlockImportParams, Exec, Changes,
}
use fudge.Provider.Externalities.{ExternalitiesProvider, new, execute_with, execute_with_mut}
use fudge.Provider.Externalities
pub mod State
pub mod Blocks
pub mod Reads
pub mod Import
pub mod Heights
pub mod Taking
pub mod Revert
pub mod Database
pub mod Running
pub mod Commits
pub mod Rewrites
pub mod Agreeing

pub data Error (n : Node) : Type 0 where
  latest_header_retrieval : InnerError → Error n
  latest_header_not_found : Error n
  header_retrieval : BlockId n.Hash → InnerError → Error n
  header_not_found : BlockId n.Hash → Error n
  latest_code_not_found : Error n
  state_retrieval : BlockId n.Hash → InnerError → Error n
  block_indexed_body_retrieval : BlockId n.Hash → InnerError → Error n
  justifications_retrieval : BlockId n.Hash → InnerError → Error n
  backend_operation_start : BlockId n.Hash → InnerError → Error n
  backend_state_operation_start : BlockId n.Hash → InnerError → Error n
  backend_operation_reversal : InnerError → Error n
  backend_operation_commit : BlockId n.Hash → InnerError → Error n
  state_not_available : BlockId n.Hash → InnerError → Error n
  block_hash_retrieval : BlockId n.Hash → InnerError → Error n
  block_hash_not_found : BlockId n.Hash → Error n
  block_number_retrieval : BlockId n.Hash → InnerError → Error n
  block_number_not_found : BlockId n.Hash → Error n
  externalities_execution : Option (BlockId n.Hash) → Externalities.Error → Error n
  storage_update : Option (BlockId n.Hash) → InnerError → Error n
  db_storage_update : Option (BlockId n.Hash) → InnerError → Error n
  transaction_index_update : Option (BlockId n.Hash) → InnerError → Error n
  block_data_set : Option (BlockId n.Hash) → InnerError → Error n
  extrinsic_submission : InnerError → Error n
  factory_initialization : InnerError → Error n
  block_proposal : InnerError → Error n
  block_importing : InnerError → Error n
  runtime_version_retrieval : InnerError → Error n

pub data Operation : Type 0 where
  commit dry_run : Operation

pub data PoolState : Type 0 where
  empty : PoolState
  busy : ℕ → PoolState

-- `core/src/lib.rs`: a key and the value to set, or none to delete.
pub record StoragePair : Type 0 where
  pub key : List ℕ
  pub value : Option (List ℕ)

pub record TransitionCache : Type 0 where
  pub auxilliary : List StoragePair

pub record Builder (n : Node) : Type 0 where
  pub world : n.World
  pub executor : n.Executor
  pub cache : TransitionCache

module _ (n : Node) where
  -- `Builder::new`
  unfoldable pub new_builder : n.World → n.Executor → Builder n
  new_builder world executor = record {
    world = world;
    executor = executor;
    cache = record { auxilliary = [] };
  }

  -- A call of the node, with its error cast.
  abbrev pub call :
      {A : Type 0}
      → (InnerError → Error n)
      → Action n.World InnerError A
      → Action (Builder n) (Error n) A
  call cast m = map_err cast (zoom (λ b. b.world) (λ b w. record b { world = w }) m)

  -- The same for a call that reads the world only.
  abbrev pub read :
      {A : Type 0}
      → (InnerError → Error n)
      → (n.World → Result InnerError A)
      → Action (Builder n) (Error n) A
  read cast f b = (recast cast (f b.world), b)

  -- And for one on a value at hand.
  abbrev pub cast_err :
      {A : Type 0} → (InnerError → Error n) → Result InnerError A → Action (Builder n) (Error n) A
  cast_err cast r b = (recast cast r, b)

  unfoldable pub latest_block : Builder n → n.Hash
  latest_block b = n.best_hash b.world

  unfoldable pub latest_header : Action (Builder n) (Error n) n.Header
  unfolding latest_block
  latest_header b =
      (do
        header ← read latest_header_retrieval (n.header_at (latest_block b))
        or_throw header latest_header_not_found)
        b

  unfoldable pub get_block_hash : BlockId n.Hash → Action (Builder n) (Error n) n.Hash
  get_block_hash (hash h) = pure h
  get_block_hash (number i) = do
    h ← read (block_hash_retrieval (number i)) (n.hash_at i)
    or_throw h (block_hash_not_found (number i))

  unfoldable pub get_block_header : BlockId n.Hash → Action (Builder n) (Error n) n.Header
  unfolding get_block_hash
  get_block_header at = do
    block_hash ← get_block_hash at
    header ← read (header_retrieval at) (n.header_at block_hash)
    or_throw header (header_not_found at)

  unfoldable pub check_best_hash_and_revert : ℕ → Action (Builder n) (Error n) (Unit {0})
  check_best_hash_and_revert i b =
      if n.hash_eq (n.best_hash b.world) (n.finalized_hash b.world)
      then call backend_operation_reversal (n.revert i true) b
      else (ok tt, b)
