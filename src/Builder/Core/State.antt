-- ===== src/Builder/Core/State.antt =====
-- core/src/builder/core.rs: running closures over a state of the chain, and writing their changes
-- back into the block that the state belongs to. An import operation that the source changes in
-- place is passed on and returned.
use fudge.Prelude.{
  ◌==◌, Option, none, some, [], Result, Action, recast, ◌>>=◌, ◌>>◌, pure, or_throw, if◌then◌else◌,
}
use fudge.Node.{Node, BlockId, hash, number, Exec, Changes, Bytes}
use fudge.Provider.Externalities.{ExternalitiesProvider, new, execute_with, execute_with_mut}
use fudge.Builder.Core.{
  Error, state_retrieval, block_indexed_body_retrieval, justifications_retrieval,
  backend_operation_start, backend_state_operation_start, backend_operation_commit,
  state_not_available, block_number_retrieval, block_number_not_found, externalities_execution,
  storage_update, db_storage_update, transaction_index_update, block_data_set,
  runtime_version_retrieval, latest_code_not_found, Operation, commit, dry_run, Builder, call, read,
  cast_err, get_block_hash, get_block_header, check_best_hash_and_revert,
}

module _ (n : Node) where
  -- The block that is meant, the latest one by default, and its state.
  unfoldable pub open_state :
      Option (BlockId n.Hash) → Action (Builder n) (Error n) (n.Hash × n.State)
  unfolding get_block_hash
  open_state at b =
      (do
        block_hash ← elim at [ some id ↦ get_block_hash n id | none ↦ pure (n.best_hash b.world) ]
        state ← read n (state_not_available (hash block_hash)) (n.state_at block_hash)
        pure (block_hash, state))
        b

  -- A provider over the state, run once; what it returns, and its errors cast.
  abbrev pub run_ext : {E R : Type 0} → n.State → Action (ExternalitiesProvider n) E R → Result E R
  run_ext state m = (m (new n state)).0

  -- `with_state(Operation::DryRun, at, exec)`
  unfoldable pub with_dry_run :
      {R : Type 0} → Option (BlockId n.Hash) → Exec n R → Action (Builder n) (Error n) R
  unfolding open_state execute_with
  with_dry_run at exec = do
    (_, state) ← open_state at
    λ b. (run_ext state (execute_with n (exec b.world)), b)

  abbrev pub read_code : Exec n (Option Bytes)
  read_code w s o = (some (n.get_raw_code s o), o)

  unfoldable pub latest_code : Action (Builder n) (Error n) Bytes
  unfolding with_dry_run
  latest_code = do code ← with_dry_run none read_code; or_throw code latest_code_not_found

  unfoldable pub state_version : Action (Builder n) (Error n) n.StateVersion
  unfolding latest_code
  state_version b =
      (do
        wasm ← latest_code
        version ←
            cast_err n runtime_version_retrieval
              (n.runtime_version b.executor wasm (n.code_digest wasm))
        pure (n.state_version_of version))
        b

  -- The closure run for its changes, under the runtime's state version.
  unfoldable pub execute_for_changes :
      {R : Type 0}
      → Option (BlockId n.Hash)
      → n.State
      → Exec n R
      → Action (Builder n) (Error n) (R × Changes n)
  unfolding state_version execute_with_mut
  execute_for_changes at state exec = do
    version ← state_version
    λ b. (
      recast (externalities_execution at)
          (run_ext state (execute_with_mut n (exec b.world) version)),
      b,
    )

  -- The three updates that both ways of writing changes make, in the source's order.
  unfoldable pub update_op :
      Option (BlockId n.Hash)
      → Changes n
      → n.ImportOperation
      → Action (Builder n) (Error n) n.ImportOperation
  update_op at c op = do
    op ← cast_err n (db_storage_update at) (n.update_db_storage c.tx op)
    op ← cast_err n (storage_update at) (n.update_storage c.main_sc c.child_sc op)
    cast_err n (transaction_index_update at) (n.update_transaction_index c.tx_index op)

  -- The genesis block over the changed state.
  abbrev pub genesis_header : n.Hash → n.StateVersion → n.Header
  genesis_header root version =
      n.new_header 0 (n.empty_trie_root version) root n.default_hash n.default_digest

  unfoldable pub mutate_genesis :
      {R : Type 0}
      → n.State
      → Exec n R
      → n.ImportOperation
      → Action (Builder n) (Error n) (R × n.ImportOperation)
  unfolding execute_for_changes update_op
  mutate_genesis state exec op = do
    (r, changes) ← execute_for_changes (some (number 0)) state exec
    op ← update_op none changes op
    version ← state_version
    op ←
        cast_err n (block_data_set none)
          (n.set_block_data (genesis_header changes.root version) (some []) none none n.final op)
    pure (r, op)

  unfoldable pub mutate_normal :
      Changes n
      → BlockId n.Hash
      → n.ImportOperation
      → Action (Builder n) (Error n) n.ImportOperation
  unfolding get_block_header update_op
  mutate_normal changes at op = do
    header ← get_block_header n at
    op ← update_op (some at) changes op
    body ← read n (state_retrieval at) (n.body_at (n.hash_of header))
    indexed_body ←
        read n (block_indexed_body_retrieval at) (n.block_indexed_body (n.hash_of header))
    justifications ← read n (justifications_retrieval at) (n.justifications (n.hash_of header))
    cast_err n (block_data_set (some at)) (
        n.set_block_data (n.set_state_root changes.root header) body indexed_body justifications
          n.final op)

  unfoldable pub commit_storage_changes :
      Changes n → BlockId n.Hash → Action (Builder n) (Error n) (Unit {0})
  unfolding get_block_header check_best_hash_and_revert mutate_normal
  commit_storage_changes changes at = do
    op ← call n (backend_operation_start at) n.begin_operation
    header ← get_block_header n at
    op ← call n (backend_state_operation_start at) (n.begin_state_operation (n.hash_of header) op)
    check_best_hash_and_revert n (n.number_of header)
    op ← mutate_normal changes at op
    call n (backend_operation_commit at) (n.commit_operation op)

  abbrev pub mutate_latest :
      {R : Type 0}
      → n.Hash
      → n.State
      → Exec n R
      → n.ImportOperation
      → Action (Builder n) (Error n) (R × n.ImportOperation)
  mutate_latest block_hash state exec op = do
    check_best_hash_and_revert n 1
    (r, changes) ← execute_for_changes (some (hash block_hash)) state exec
    op ← mutate_normal changes (hash block_hash) op
    pure (r, op)

  -- `with_state(Operation::Commit, at, exec)`
  unfoldable pub with_commit :
      {R : Type 0} → Option (BlockId n.Hash) → Exec n R → Action (Builder n) (Error n) R
  unfolding open_state check_best_hash_and_revert mutate_genesis mutate_normal execute_for_changes
  with_commit at exec = do
    (block_hash, state) ← open_state at
    op ← call n (backend_operation_start (hash block_hash)) n.begin_operation
    op ←
        call n (backend_state_operation_start (hash block_hash))
          (n.begin_state_operation block_hash op)
    i ← read n (block_number_retrieval (hash block_hash)) (n.block_number_from_id (hash block_hash))
    i ← or_throw i (block_number_not_found (hash block_hash))
    (r, op) ←
        if i == 0 then mutate_genesis state exec op else mutate_latest block_hash state exec op
    call n (backend_operation_commit (hash block_hash)) (n.commit_operation op)
    pure r

  unfoldable pub with_state :
      {R : Type 0} → Operation → Option (BlockId n.Hash) → Exec n R → Action (Builder n) (Error n) R
  unfolding with_commit with_dry_run
  with_state commit at exec = with_commit at exec
  with_state dry_run at exec = with_dry_run at exec
