-- ===== src/Builder/Parachain/Chain.antt =====
-- core/src/builder/parachain.rs: `ParachainBuilder`.
use fudge.Prelude.{
  ℕ, true, false, Option, none, some, List, [], ◌∷◌, ◌++◌, Result, ok, err, panic, Action, ◌>>=◌,
  ◌>>◌, pure, modify, map_err, zoom,
}
use fudge.Node.{
  Node, Setup, Exec, BlockId, BlockImportParams, own, network_initial_sync, custom, Bytes,
}
use fudge.Builder.Core
use fudge.Builder.Core.{
  Builder, new_builder, PoolState, StoragePair, latest_header, Operation, commit, dry_run,
}
use fudge.Builder.Core.State.{with_state, latest_code}
use fudge.Builder.Core.Blocks
use fudge.Builder.Common
use fudge.Builder.Common.{Casts, propose_block}
use fudge.Builder.Parachain.{
  Primitives, Cumulus, Error, core_builder, inherent_data_providers_creation,
  inherent_data_creation, digest_creation, next_block_lock_poisoned, next_import_lock_poisoned,
  BlockStorage, Mutex, FudgeCollator, lock_storage, put_storage, default_storage, set_next_block,
  set_next_import,
}

pub record ParachainBuilder (n : Node) : Type 0 where
  pub id : ℕ
  pub builder : Builder n
  pub setup : Setup n
  pub block_storage : Mutex n
  pub imports : List (n.Block × n.StorageProof)

module _ (n : Node) where
  abbrev pub casts : Casts n (Error n)
  casts = record {
    core_builder = core_builder;
    inherent_data_providers_creation = inherent_data_providers_creation;
    inherent_data_creation = inherent_data_creation;
    digest_creation = digest_creation;
  }

  abbrev pub on_builder :
      {A : Type 0} → Action (Builder n) (Error n) A → Action (ParachainBuilder n) (Error n) A
  on_builder m = zoom (λ s. s.builder) (λ s b. record s { builder = b }) m

  abbrev pub on_core :
      {A : Type 0} → Action (Builder n) (Core.Error n) A → Action (ParachainBuilder n) (Error n) A
  on_core m = on_builder (map_err core_builder m)

  -- `ParachainBuilder::new`, of what the initiator and the setup gave
  unfoldable pub new_parachain : ℕ → n.World → n.Executor → Setup n → ParachainBuilder n
  unfolding new_builder
  new_parachain id world executor setup = record {
    id = id;
    builder = new_builder n world executor;
    setup = setup;
    block_storage = record { storage = default_storage n; poisoned = false };
    imports = [];
  }

  -- The collator holds the same handles: what it does to them happens to the builder's.
  unfoldable pub collator : ParachainBuilder n → FudgeCollator n
  collator s = record { world = s.builder.world; block_storage = s.block_storage }

  abbrev pub put_collator : ParachainBuilder n → FudgeCollator n → ParachainBuilder n
  put_collator s c = record s {
    builder = record s.builder { world = c.world };
    block_storage = c.block_storage;
  }

  abbrev pub shared :
      {E A : Type 0} → Action (FudgeCollator n) E A → Action (ParachainBuilder n) E A
  shared m =
      zoom (λ s. record { world = s.builder.world; block_storage = s.block_storage }) put_collator m

  unfoldable pub append_extrinsic : n.Extrinsic → Action (ParachainBuilder n) (Error n) n.Hash
  unfolding Blocks.append_extrinsic
  append_extrinsic xt = on_core (Blocks.append_extrinsic n xt)

  unfoldable pub append_extrinsics :
      List n.Extrinsic → Action (ParachainBuilder n) (Error n) (List n.Hash)
  unfolding append_extrinsic
  append_extrinsics xts = Common.append_extrinsics append_extrinsic xts

  unfoldable pub append_transition : StoragePair → ParachainBuilder n → ParachainBuilder n
  unfolding Blocks.append_transition
  append_transition aux s = record s { builder = Blocks.append_transition n aux s.builder }

  unfoldable pub append_transitions : List StoragePair → ParachainBuilder n → ParachainBuilder n
  unfolding append_transition
  append_transitions [] s = s
  append_transitions (aux ∷ auxs) s = append_transitions auxs (append_transition aux s)

  unfoldable pub pool_state : ParachainBuilder n → PoolState
  pool_state s = Blocks.pool_state n s.builder

  unfoldable pub import_block_with_params :
      BlockImportParams n.Header n.Extrinsic → Action (ParachainBuilder n) (Error n) (Unit {0})
  import_block_with_params params = on_core (Blocks.import_block n params)

  -- The built block is imported at once, neither final nor best, so that its collation can be asked.
  abbrev pub build_params : n.Block → BlockImportParams n.Header n.Extrinsic
  build_params block =
      let (header, body) = n.deconstruct block in
      record (n.new_params own header) { body = some body; fork_choice = some (custom false) }

  unfoldable pub build_block : Action (ParachainBuilder n) (Error n) (Unit {0})
  unfolding import_block_with_params
  build_block s =
      (do
        (block, proof) ← on_builder (propose_block n casts s.setup)
        import_block_with_params (build_params block)
        storage ← shared (lock_storage n next_block_lock_poisoned)
        shared (put_storage n (set_next_block n (some (block, proof)) storage)))
        s

  abbrev pub import_params : n.Block → BlockImportParams n.Header n.Extrinsic
  import_params block =
      let (header, body) = n.deconstruct block in
      record (n.new_params network_initial_sync header) {
        body = some body;
        finalized = true;
        import_existing = true;
        fork_choice = some (custom true);
      }

  -- A panic while the lock is held poisons it.
  abbrev pub poison :
      {E A : Type 0} → Result E A × ParachainBuilder n → Result E A × ParachainBuilder n
  poison (ok a, s) = (ok a, s)
  poison (err e, s) = (err e, s)
  poison (panic, s) =
      (panic, record s { block_storage = record s.block_storage { poisoned = true } })

  abbrev pub holding :
      {E A : Type 0} → Action (ParachainBuilder n) E A → Action (ParachainBuilder n) E A
  holding m s = poison (m s)

  -- What is done with the block to import, the lock held.
  abbrev pub import_next :
      BlockStorage n → n.Block × n.StorageProof → Action (ParachainBuilder n) (Error n) (Unit {0})
  import_next storage (block, proof) = do
    import_block_with_params (import_params block)
    modify (λ s. record s { imports = s.imports ++ ((block, proof) ∷ []) })
    shared (put_storage n (set_next_import n none storage))

  unfoldable pub import_block : Action (ParachainBuilder n) (Error n) (Unit {0})
  unfolding import_block_with_params
  import_block = do
    storage ← shared (lock_storage n next_import_lock_poisoned)
    holding (elim storage.next_import [ none ↦ pure tt | some b ↦ import_next storage b ])

  unfoldable pub head :
      {t : Primitives} (c : Cumulus t n) → Action (ParachainBuilder n) (Error n) Bytes
  unfolding latest_header
  head c = do header ← on_core (latest_header n); pure (c.encode_header header)

  unfoldable pub code : Action (ParachainBuilder n) (Error n) Bytes
  unfolding latest_code
  code = on_core (latest_code n)

  unfoldable pub with_state_of :
      {R : Type 0} → Option (BlockId n.Hash) → Exec n R → Action (ParachainBuilder n) (Error n) R
  with_state_of at exec = on_core (with_state n dry_run at exec)

  unfoldable pub with_mut_state :
      {R : Type 0} → Option (BlockId n.Hash) → Exec n R → Action (ParachainBuilder n) (Error n) R
  with_mut_state at exec = on_core (with_state n commit at exec)

-- A parachain block for a relay chain to include, with the code to run it.
pub record FudgeParaBuild : Type 0 where
  pub parent_head : Bytes
  pub block : Bytes
  pub code : Bytes

module _ (n : Node) {t : Primitives} (c : Cumulus t n) where
  unfoldable pub next_build : Action (ParachainBuilder n) (Error n) (Option (FudgeParaBuild))
  unfolding latest_header code
  next_build = do
    storage ← shared n (lock_storage n next_block_lock_poisoned)
    latest ← on_core n (latest_header n)
    code ← code n
    elim storage.next_block [
      | none ↦ pure none
      | some (block, _) ↦ pure (
          some (record {
            parent_head = c.encode_header latest;
            block = c.encode_block block;
            code = code;
          }))
    ]
