-- ===== src/Builder/RelayChain/Chain.antt =====
-- core/src/builder/relay_chain.rs: `RelaychainBuilder`.
pub mod Importing
pub mod Outside
pub mod Stored
pub mod Runs
pub mod Items
pub mod Calls
pub mod Turning
use fudge.Prelude.{
  ℕ, true, Option, none, some, List, [], ◌∷◌, ◌++◌, Result, ok, err, panic, InnerError, Action,
  ◌>>=◌, ◌>>◌, pure, gets, modify, lift, assert, is_none,
}
use fudge.Node.{Node, Setup, Bytes, BlockImportParams, network_initial_sync, custom}
use fudge.Builder.Core.{new_builder, PoolState, StoragePair}
use fudge.Builder.Core.Blocks
use fudge.Builder.Common
use fudge.Builder.Common.{propose_block}
use fudge.Builder.Parachain.{Primitives}
use fudge.Builder.RelayChain.{
  Error, next_block_not_found, RuntimeTypes, Runtime, CollationBuilder, RelaychainBuilder, casts,
  on_builder, on_core,
}
use fudge.Builder.RelayChain.Onboarding.{on_storage, FudgeParaChain, onboard_storage, head_storage}
use fudge.Builder.RelayChain.Collations.{with_mut_state, collect_collations, force_enact_collations}

module _ (n : Node) where
  abbrev pub block_params : n.Block → BlockImportParams n.Header n.Extrinsic
  block_params block =
      let (header, body) = n.deconstruct block in
      record (n.new_params network_initial_sync header) {
        body = some body;
        finalized = true;
        fork_choice = some (custom true);
      }

module _ {t : Primitives} {n : Node} {G : Type 0} where
  -- `RelaychainBuilder::new`, of what the initiator and the setup gave
  unfoldable pub new_relaychain : n.World → n.Executor → Setup n → G → RelaychainBuilder t n G
  unfolding new_builder
  new_relaychain world executor setup outside = record {
    builder = new_builder n world executor;
    setup = setup;
    next = none;
    imports = [];
    parachains = [];
    collations = [];
    outside = outside;
  }

  unfoldable pub append_extrinsic : n.Extrinsic → Action (RelaychainBuilder t n G) (Error n) n.Hash
  unfolding Blocks.append_extrinsic
  append_extrinsic xt = on_core (Blocks.append_extrinsic n xt)

  unfoldable pub append_extrinsics :
      List n.Extrinsic → Action (RelaychainBuilder t n G) (Error n) (List n.Hash)
  unfolding append_extrinsic
  append_extrinsics xts = Common.append_extrinsics append_extrinsic xts

  unfoldable pub append_transition : StoragePair → RelaychainBuilder t n G → RelaychainBuilder t n G
  unfolding Blocks.append_transition
  append_transition aux s = record s { builder = Blocks.append_transition n aux s.builder }

  unfoldable pub append_transitions :
      List StoragePair → RelaychainBuilder t n G → RelaychainBuilder t n G
  unfolding append_transition
  append_transitions [] s = s
  append_transitions (aux ∷ auxs) s = append_transitions auxs (append_transition aux s)

  unfoldable pub pool_state : RelaychainBuilder t n G → PoolState
  pool_state s = Blocks.pool_state n s.builder

module _ {t : Primitives} {n : Node} {y : RuntimeTypes} (r : Runtime t n y) {G : Type 0} where
  unfoldable pub update_para_head :
      ℕ → Bytes → Action (RelaychainBuilder t n G) (Error n) (Unit {0})
  unfolding with_mut_state head_storage
  update_para_head id head = do
    written ← with_mut_state none (on_storage n (λ w s. head_storage r s id head))
    lift written

  unfoldable pub onboard_para :
      FudgeParaChain → CollationBuilder t G → Action (RelaychainBuilder t n G) (Error n) (Unit {0})
  unfolding with_mut_state onboard_storage
  onboard_para para collator = do
    onboarded ← with_mut_state none (on_storage n (λ w s. onboard_storage r s para))
    lift onboarded
    modify (λ s. record s { parachains = s.parachains ++ ((para.id, collator) ∷ []) })

  unfoldable pub build_block : Action (RelaychainBuilder t n G) (Error n) n.Block
  build_block s =
      (do
        assert (λ s. is_none s.next)
        (block, proof) ← on_builder (propose_block n (casts n) s.setup)
        modify (λ s. record s { next = some (block, proof) })
        pure block)
        s

  -- `self.next.take()`
  abbrev pub take_next : Action (RelaychainBuilder t n G) (Error n) (n.Block × n.StorageProof)
  take_next s = elim s.next [
    | none ↦ (err next_block_not_found, s)
    | some b ↦ (ok b, record s { next = none })
  ]

  unfoldable pub import_block : Action (RelaychainBuilder t n G) (Error n) (Unit {0})
  import_block = do
    (block, proof) ← take_next
    on_core (Blocks.import_block n (block_params n block))
    modify (λ s. record s { imports = s.imports ++ ((block, proof) ∷ []) })
    force_enact_collations r
    collect_collations r (n.header_of block)
