-- ===== src/Builder/RelayChain/Chain/Calls.antt =====
-- Any sequence of calls of the relay chain's builder.
use fudge.Prelude.{
  ℕ, none, Option, List, [], ◌∷◌, lift, assert, is_none, Holds, Holds-any, Holds-end,
  Holds-continue, Holds-then,
}
use fudge.Node.{Node, Bytes, BlockId, Exec, Setup}
use fudge.Builder.Core.{StoragePair}
use fudge.Builder.Common.{propose_block}
use fudge.Builder.Common.Turns.{run, run_keeps}
use fudge.Builder.Parachain.{Primitives}
use fudge.Builder.RelayChain.{
  casts, on_builder, RuntimeTypes, Runtime, CollationBuilder, RelaychainBuilder,
}
use fudge.Builder.RelayChain.Onboarding.{FudgeParaChain}
use fudge.Builder.RelayChain.Collations.{with_state_of, with_mut_state}
use fudge.Builder.RelayChain.Collations.Keeping.{with_mut_state_lem}
use fudge.Builder.RelayChain.Chain.{
  new_relaychain, append_extrinsic, append_transition, update_para_head, onboard_para, build_block,
  import_block,
}
use fudge.Builder.RelayChain.Chain.Runs.{IsSound, Collects-parachains, import_block-IsSound}

-- A call of the builder; the closures of the two that run one return anything.
pub data Call (t : Primitives) (n : Node) (G : Type 0) : Type 1 where
  onboards : FudgeParaChain → CollationBuilder t G → Call t n G
  updates_head : ℕ → Bytes → Call t n G
  appends : n.Extrinsic → Call t n G
  transitions : StoragePair → Call t n G
  builds imports_ : Call t n G
  reads changes : {R : Type 0} → Option (BlockId n.Hash) → Exec n R → Call t n G

module _ {t : Primitives} {n : Node} {y : RuntimeTypes} (r : Runtime t n y) {G : Type 0} where
  -- The builder that a call leaves, however it ends.
  unfoldable pub apply : Call t n G → RelaychainBuilder t n G → RelaychainBuilder t n G
  unfolding append_transition
  apply (onboards para collator) s = (onboard_para r para collator s).1
  apply (updates_head id head) s = (update_para_head r id head s).1
  apply (appends xt) s = (append_extrinsic xt s).1
  apply (transitions aux) s = append_transition aux s
  apply builds s = (build_block r s).1
  apply imports_ s = (import_block r s).1
  apply (reads at exec) s = (with_state_of at exec s).1
  apply (changes at exec) s = (with_mut_state at exec s).1

  with_mut_state-IsSound :
      {R : Type 0} (at : Option (BlockId n.Hash)) (exec : Exec n R) (s : RelaychainBuilder t n G)
      → IsSound s
      → Holds IsSound (with_mut_state at exec s)
  with_mut_state-IsSound at exec s k = with_mut_state_lem r IsSound at exec s k (λ s b k. k)

  apply-IsSound : (c : Call t n G) (s : RelaychainBuilder t n G) → IsSound s → IsSound (apply c s)
  unfolding apply onboard_para update_para_head append_extrinsic build_block with_state_of
  apply-IsSound (onboards para collator) s k = Holds-end IsSound (onboard_para r para collator s) (
      Holds-continue IsSound (with_mut_state none _ s) _ (with_mut_state-IsSound none _ s k)
        (λ e s₁ k₁. Holds-then IsSound (lift e s₁) _ k₁ (λ _ s₂ k₂.
          Collects-parachains s₂.parachains ((para.id, collator) ∷ []) s₂.imports s₂.collations
            k₂)))
  apply-IsSound (updates_head id head) s k = Holds-end IsSound (update_para_head r id head s) (
      Holds-continue IsSound (with_mut_state none _ s) lift (with_mut_state-IsSound none _ s k)
        (λ e s₁ k₁. Holds-any IsSound (e, s₁) k₁))
  apply-IsSound (appends xt) s k = k
  apply-IsSound (transitions aux) s k = k
  apply-IsSound builds s k = Holds-end IsSound (build_block r s) (
      Holds-then IsSound (assert (λ s. is_none s.next) s) _ k (λ _ s₁ k₁.
        Holds-then IsSound (on_builder (propose_block n (casts n) s.setup) s₁) _ k₁
          (λ b s₂ k₂. k₂)))
  apply-IsSound imports_ s k = Holds-end IsSound (import_block r s) (import_block-IsSound r s k)
  apply-IsSound (reads at exec) s k = k
  apply-IsSound (changes at exec) s k =
      Holds-end IsSound (with_mut_state at exec s) (with_mut_state-IsSound at exec s k)

  -- Whatever calls a new builder gets, failing and panicking ones included: every collation that it holds
  -- is of a parachain that has a collator on board and was collected at the header of a block among its
  -- imports, and no two of the collations are of one parachain.
  pub run-IsSound :
      (world : n.World) (executor : n.Executor) (setup : Setup n) (outside : G)
      (cs : List (Call t n G))
      → IsSound (run apply cs (new_relaychain world executor setup outside))
  unfolding new_relaychain
  run-IsSound world executor setup outside cs =
      run_keeps apply IsSound apply-IsSound cs (new_relaychain world executor setup outside)
        (tt, tt)
