-- ===== src/Node.antt =====
-- What the builders take from Substrate: the types, the database behind `backend`, the client and
-- the transaction pool behind their `Arc`s, as one world that the calls read and change, and the
-- runtime's executor. Nothing of it is in this repository, so it is a parameter of the model.
use fudge.Prelude.{ℕ, Bool, Option, List, InnerError, Result, Action}

-- Encoded data: headers as `HeadData`, blocks as `BlockData`, runtimes as `ValidationCode`.
abbrev pub Bytes : Type 0
Bytes = List ℕ

-- `sp_runtime::generic::BlockId`
pub data BlockId (Hash : Type 0) : Type 0 where
  hash : Hash → BlockId Hash
  number : ℕ → BlockId Hash

-- `sc_consensus::ImportResult`; `imported` leaves out its auxiliary data, which is not read.
pub data ImportResult : Type 0 where
  imported already_in_chain known_bad unknown_parent missing_state : ImportResult

-- The events that the pool is told of, with their tree routes.
pub data ChainEvent (Hash : Type 0) : Type 0 where
  new_best_block : Hash → Option (List Hash) → ChainEvent Hash
  finalized : Hash → List Hash → ChainEvent Hash

pub data BlockOrigin : Type 0 where
  own network_initial_sync : BlockOrigin

-- `ForkChoiceStrategy::Custom(…)`
pub data ForkChoiceStrategy : Type 0 where
  custom : Bool → ForkChoiceStrategy

-- The fields of `BlockImportParams` that the builders set.
pub record BlockImportParams (Header Extrinsic : Type 0) : Type 0 where
  pub origin : BlockOrigin
  pub header : Header
  pub body : Option (List Extrinsic)
  pub finalized : Bool
  pub import_existing : Bool
  pub fork_choice : Option ForkChoiceStrategy

-- `StorageChanges::into_inner`
pub record Inner (MainSc ChildSc Tx Hash TxIndex : Type 0) : Type 0 where
  pub main_sc : MainSc
  pub child_sc : ChildSc
  pub tx : Tx
  pub root : Hash
  pub tx_index : TxIndex

pub record Node : Type 1 where
  pub Hash : Type 0
  pub Header : Type 0
  pub Extrinsic : Type 0
  pub Block : Type 0
  pub StorageProof : Type 0
  -- blocks and headers
  pub hash_eq : Hash → Hash → Bool
  pub hash_of : Header → Hash
  pub number_of : Header → ℕ
  pub set_state_root : Hash → Header → Header
  pub header_of : Block → Header
  pub deconstruct : Block → Header × List Extrinsic
  pub new_params : BlockOrigin → Header → BlockImportParams Header Extrinsic
  -- a state of the database, the changes laid over it, and what they come to
  pub State : Type 0
  pub Overlay : Type 0
  pub StateVersion : Type 0
  pub MainSc : Type 0
  pub ChildSc : Type 0
  pub Tx : Type 0
  pub TxIndex : Type 0
  pub overlay_default : Overlay
  pub storage_root : State → StateVersion → Overlay → Overlay
  pub storage_start_transaction : Overlay → Overlay
  pub storage_commit_transaction : Overlay → Result (Unit {0}) Overlay
  pub drain_storage_changes :
      State
      → StateVersion
      → Overlay
      → Result InnerError (Inner MainSc ChildSc Tx Hash TxIndex × Overlay)
  pub get_raw_code : State → Overlay → Option Bytes
  -- the world behind client, backend and pool
  pub World : Type 0
  pub best_hash : World → Hash
  pub finalized_hash : World → Hash
  pub best_number : World → ℕ
  pub header_at : Hash → World → Result InnerError (Option Header)
  pub hash_at : ℕ → World → Result InnerError (Option Hash)
  pub block_number_from_id : BlockId Hash → World → Result InnerError (Option ℕ)
  pub state_at : Hash → World → Result InnerError State
  pub IndexedBody : Type 0
  pub Justifications : Type 0
  pub body_at : Hash → World → Result InnerError (Option (List Extrinsic))
  pub block_indexed_body : Hash → World → Result InnerError (Option IndexedBody)
  pub justifications : Hash → World → Result InnerError (Option Justifications)
  pub ImportOperation : Type 0
  pub NewBlockState : Type 0
  pub final : NewBlockState
  pub begin_operation : Action World InnerError ImportOperation
  pub begin_state_operation : Hash → ImportOperation → Action World InnerError ImportOperation
  pub update_db_storage : Tx → ImportOperation → Result InnerError ImportOperation
  pub update_storage : MainSc → ChildSc → ImportOperation → Result InnerError ImportOperation
  pub update_transaction_index : TxIndex → ImportOperation → Result InnerError ImportOperation
  pub set_block_data :
      Header
      → Option (List Extrinsic)
      → Option IndexedBody
      → Option Justifications
      → NewBlockState
      → ImportOperation
      → Result InnerError ImportOperation
  pub commit_operation : ImportOperation → Action World InnerError (Unit {0})
  pub revert : ℕ → Bool → Action World InnerError (Unit {0})
  -- the genesis header
  pub Digest : Type 0
  pub new_header : ℕ → Hash → Hash → Hash → Digest → Header
  pub empty_trie_root : StateVersion → Hash
  pub default_hash : Hash
  pub default_digest : Digest
  -- the executor
  pub Executor : Type 0
  pub RuntimeVersion : Type 0
  pub code_digest : Bytes → Bytes
  pub runtime_version : Executor → Bytes → Bytes → Result InnerError RuntimeVersion
  pub state_version_of : RuntimeVersion → StateVersion
  -- the pool, block authorship and import
  pub InherentData : Type 0
  pub Proposer : Type 0
  -- `CreateInherentDataProviders`' providers, and what they put together
  pub InherentProviders : Type 0
  pub create_inherent_data : InherentProviders → Action World InnerError InherentData
  pub submit_one : BlockId Hash → Extrinsic → Action World InnerError Hash
  pub ready : World → List Hash
  pub maintain : ChainEvent Hash → World → World
  pub init_proposer : Header → Action World InnerError Proposer
  pub propose :
      InherentData → Digest → ℕ → ℕ → Proposer → Action World InnerError (Block × StorageProof)
  pub import_params : BlockImportParams Header Extrinsic → Action World InnerError ImportResult

-- A closure under externalities: it reads the state under the overlay, changes the overlay, and
-- returns a value or panics.
abbrev pub Closure : Node → Type 0 → Type 0
Closure n R = n.State → n.Overlay → Option R × n.Overlay

-- The closure given to `with_state`, which may ask the client too.
abbrev pub Exec : Node → Type 0 → Type 0
Exec n R = n.World → Closure n R

abbrev pub Changes : Node → Type 0
Changes n = Inner n.MainSc n.ChildSc n.Tx n.Hash n.TxIndex

-- The `CIDP` and the `DP` that a builder is set up with; both are asked within a state.
pub record Setup (n : Node) : Type 0 where
  pub create_inherent_data_providers : n.Hash → Exec n (Result InnerError n.InherentProviders)
  pub create_digest : n.Header → n.InherentData → Exec n (Result InnerError n.Digest)
