-- ===== src/Builder/Companion/Using.antt =====
-- Sequences of calls on a companion.
pub mod Serving
pub mod Rounds
pub mod Onboarding
pub mod Evolving
pub mod Dispatching
pub mod Creating
use mathlib.Core.List.{Sublist}
use mathlib.Core.List.Sublist
use fudge.Prelude.{
  ℕ, ◌==◌, none, List, [], ◌∷◌, ◌++◌, Bool-cases, inl, inr, ◌≡◌, refl, ap, Result, Action,
  InnerError, map_err, lift, recast, Holds, Holds-any, Holds-end, Holds-continue, Holds-then,
}
use fudge.Node.{Bytes, Node}
use fudge.Builder.Parachain.{Primitives}
use fudge.Builder.Parachain.Chain.{head, code, with_state_of}
use fudge.Builder.Parachain.Chain as ParaOps
use fudge.Builder.Parachain.Moves.{
  builds, imports, appends, mutates, apply, run, built_in, in_order,
}
use fudge.Builder.Parachain.Moves as Moves
use fudge.Builder.Parachain.Reading.{head_same, code_same, with_state_of_same}
use fudge.Builder.Parachain.Stages.{run-in_order}
use fudge.Builder.RelayChain.{RuntimeTypes, RelaychainBuilder}
use fudge.Builder.RelayChain
use fudge.Builder.RelayChain.Collations
use fudge.Builder.RelayChain.Collations.Keeping.{with_mut_state_lem}
use fudge.Builder.RelayChain.Chain as RelayOps
use fudge.Builder.RelayChain.Chain.Outside.{
  build_block-Out, import_block-Out, update_para_head-Out, onboard_para-Out,
}
use fudge.Builder.Companion.Generated.{
  Member, Companion, Chain, relay, para, BuilderError, Closures, on_para, on_relay, member_collator,
  dispatch, onboard_each, new, append_to, append_extrinsic, append_extrinsics, extrinsic_decode,
  with_state, with_mut_state, evolve_one, evolve_each, evolve,
}
use fudge.Builder.Companion.Reaching.{
  Sees, InReach, Reaches, member_collator-Keeps, on_para-InReach,
}

module _ {t : Primitives} {n : Node} {y : RuntimeTypes} {G : Type 0} (c : Companion t n y G) where
  -- A call on a companion.
  pub data Use : Type 1 where
    submits : Chain → List Bytes → Use
    reads writes : {R : Type 0} → Chain → Closures c R → Use
    evolves : Use

  -- What it leaves, however it ends.
  unfoldable pub use_once : Use → RelaychainBuilder t n G → RelaychainBuilder t n G
  unfolding append_extrinsics with_state with_mut_state evolve
  use_once (submits chain xts) s = (append_extrinsics c chain xts s).1
  use_once (reads chain exec) s = (with_state c chain exec s).1
  use_once (writes chain exec) s = (with_mut_state c chain exec s).1
  use_once evolves s = (evolve c s).1

  unfoldable pub use_all : List Use → RelaychainBuilder t n G → RelaychainBuilder t n G
  unfolding use_once
  use_all [] s = s
  use_all (u ∷ us) s = use_all us (use_once u s)
