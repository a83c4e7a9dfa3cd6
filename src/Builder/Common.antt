-- ===== src/Builder/Common.antt =====
-- What the chain builders of core/src/builder/{stand_alone,parachain,relay_chain}.rs have in
-- common, over the error type of each: submitting a list of extrinsics, and proposing a block.
use fudge.Prelude.{
  ℕ, List, [], ◌∷◌, ◌++◌, Option, none, foldl, Result, InnerError, Action, ◌>>=◌, ◌>>◌, pure,
  map_err, lift, recast, zoom, ok, err, panic, continue, ◌≡◌, refl, append_assoc, fun_ext, ap, ◌∙◌,
  arith,
}
use fudge.Node.{Node, Setup, Exec}
use fudge.Builder.Core
use fudge.Builder.Core.{Builder, Operation, dry_run, latest_header}
use fudge.Builder.Core.State.{with_state}
use fudge.Builder.Core.Blocks.{build_block}
pub mod Extrinsics
pub mod Turns

module _ {S E X H : Type 0} (append_extrinsic : X → Action S E H) where
  abbrev and_then : Action S E (List H) → X → Action S E (List H)
  and_then m xt = do
    hashes ← m
    block_hash ← append_extrinsic xt
    pure (hashes ++ (block_hash ∷ []))

  -- The fold of `append_extrinsics`.
  unfoldable pub append_extrinsics : List X → Action S E (List H)
  append_extrinsics xts = foldl and_then (pure []) xts

  -- One submission after the other, stopping at the first that fails.
  abbrev pub submit_each : List X → Action S E (List H)
  submit_each [] = pure []
  submit_each (xt ∷ xts) = do
    block_hash ← append_extrinsic xt
    hashes ← submit_each xts
    pure (block_hash ∷ hashes)

-- How an error of each step is passed on.
pub record Casts (n : Node) (E : Type 0) : Type 0 where
  pub core_builder : Core.Error n → E
  pub inherent_data_providers_creation : InnerError → E
  pub inherent_data_creation : InnerError → E
  pub digest_creation : InnerError → E

module _ (n : Node) {E : Type 0} (casts : Casts n E) where
  -- A method of the core builder.
  abbrev pub on_core : {A : Type 0} → Action (Builder n) (Core.Error n) A → Action (Builder n) E A
  on_core m = map_err casts.core_builder m

  abbrev on_world :
      {A : Type 0} → (InnerError → E) → Action n.World InnerError A → Action (Builder n) E A
  on_world cast m = map_err cast (zoom (λ b. b.world) (λ b w. record b { world = w }) m)

  -- `self.with_state(|| …map_err(cast))??`
  abbrev asked :
      {A : Type 0} → (InnerError → E) → Exec n (Result InnerError A) → Action (Builder n) E A
  asked cast exec = do r ← on_core (with_state n dry_run none exec); lift (recast cast r)

  -- From the inherent data to the proposal.
  unfoldable pub propose_block : Setup n → Action (Builder n) E (n.Block × n.StorageProof)
  unfolding with_state latest_header build_block
  propose_block setup b =
      (do
        provider ←
            asked casts.inherent_data_providers_creation
              (setup.create_inherent_data_providers (n.best_hash b.world))
        inherents ← on_world casts.inherent_data_creation (n.create_inherent_data provider)
        parent ← on_core (latest_header n)
        digest ← asked casts.digest_creation (setup.create_digest parent inherents)
        on_core (build_block n inherents digest 60 6_000_000))
        b
