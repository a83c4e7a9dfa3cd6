-- ===== src/Builder/StandAlone.antt =====
-- core/src/builder/stand_alone.rs: the builder of a chain on its own.
use fudge.Prelude.{
  ℕ, Bool, true, false, Option, none, some, List, [], ◌∷◌, ◌++◌, Result, ok, err, panic, InnerError,
  Action, ◌>>=◌, ◌>>◌, pure, throw, or_throw, assert, modify, map_err, zoom, is_none, recast,
}
use fudge.Node.{Node, Setup, Exec, BlockId, BlockImportParams, network_initial_sync, custom}
use fudge.Builder.Core
use fudge.Builder.Core.{Builder, new_builder, PoolState, StoragePair, Operation, commit, dry_run}
use fudge.Builder.Core.State.{with_state}
use fudge.Builder.Core.Blocks
use fudge.Builder.Common
use fudge.Builder.Common.{Casts, propose_block}
pub mod Cycle
pub mod Runs
pub mod Listing

pub data Error (n : Node) : Type 0 where
  core_builder : Core.Error n → Error n
  initiator inherent_data_providers_creation inherent_data_creation digest_creation :
      InnerError → Error n
  next_block_not_found : Error n

pub record StandAloneBuilder (n : Node) : Type 0 where
  pub builder : Builder n
  pub setup : Setup n
  pub next : Option (n.Block × n.StorageProof)
  pub imports : List (n.Block × n.StorageProof)

module _ (n : Node) where
  abbrev casts : Casts n (Error n)
  casts = record {
    core_builder = core_builder;
    inherent_data_providers_creation = inherent_data_providers_creation;
    inherent_data_creation = inherent_data_creation;
    digest_creation = digest_creation;
  }

  abbrev pub on_builder :
      {A : Type 0} → Action (Builder n) (Error n) A → Action (StandAloneBuilder n) (Error n) A
  on_builder m = zoom (λ s. s.builder) (λ s b. record s { builder = b }) m

  abbrev pub on_core :
      {A : Type 0} → Action (Builder n) (Core.Error n) A → Action (StandAloneBuilder n) (Error n) A
  on_core m = on_builder (map_err core_builder m)

  -- `StandAloneBuilder::new`, of what the initiator and the setup gave
  unfoldable pub new_stand_alone : n.World → n.Executor → Setup n → StandAloneBuilder n
  unfolding new_builder
  new_stand_alone world executor setup = record {
    builder = new_builder n world executor;
    setup = setup;
    next = none;
    imports = [];
  }

  unfoldable pub append_extrinsic : n.Extrinsic → Action (StandAloneBuilder n) (Error n) n.Hash
  unfolding Blocks.append_extrinsic
  append_extrinsic xt = on_core (Blocks.append_extrinsic n xt)

  unfoldable pub append_extrinsics :
      List n.Extrinsic → Action (StandAloneBuilder n) (Error n) (List n.Hash)
  unfolding append_extrinsic
  append_extrinsics xts = Common.append_extrinsics append_extrinsic xts

  unfoldable pub append_transition : StoragePair → StandAloneBuilder n → StandAloneBuilder n
  unfolding Blocks.append_transition
  append_transition aux s = record s { builder = Blocks.append_transition n aux s.builder }

  unfoldable pub append_transitions : List StoragePair → StandAloneBuilder n → StandAloneBuilder n
  unfolding append_transition
  append_transitions [] s = s
  append_transitions (aux ∷ auxs) s = append_transitions auxs (append_transition aux s)

  unfoldable pub pool_state : StandAloneBuilder n → PoolState
  pool_state s = Blocks.pool_state n s.builder

  unfoldable pub build_block : Action (StandAloneBuilder n) (Error n) n.Block
  build_block s =
      (do
        assert (λ s. is_none s.next)
        (block, proof) ← on_builder (propose_block n casts s.setup)
        modify (λ s. record s { next = some (block, proof) })
        pure block)
        s

  -- `self.next.take()`
  abbrev take_next : Action (StandAloneBuilder n) (Error n) (n.Block × n.StorageProof)
  take_next s = elim s.next [
    | none ↦ (err next_block_not_found, s)
    | some b ↦ (ok b, record s { next = none })
  ]

  abbrev pub block_params : n.Block → BlockImportParams n.Header n.Extrinsic
  block_params block =
      let (header, body) = n.deconstruct block in
      record (n.new_params network_initial_sync header) {
        body = some body;
        finalized = true;
        fork_choice = some (custom true);
      }

  unfoldable pub import_block : Action (StandAloneBuilder n) (Error n) (Unit {0})
  import_block = do
    (block, proof) ← take_next
    on_core (Blocks.import_block n (block_params block))
    modify (λ s. record s { imports = s.imports ++ ((block, proof) ∷ []) })

  unfoldable pub with_state_of :
      {R : Type 0} → Option (BlockId n.Hash) → Exec n R → Action (StandAloneBuilder n) (Error n) R
  unfolding with_state
  with_state_of at exec = on_core (with_state n dry_run at exec)

  unfoldable pub with_mut_state :
      {R : Type 0} → Option (BlockId n.Hash) → Exec n R → Action (StandAloneBuilder n) (Error n) R
  with_mut_state at exec = do assert (λ s. is_none s.next); on_core (with_state n commit at exec)
