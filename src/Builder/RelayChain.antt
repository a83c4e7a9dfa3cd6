-- ===== src/Builder/RelayChain.antt =====
-- core/src/builder/relay_chain.rs: the relay chain's builder. It onboards parachains by writing the
-- storage of the runtime's `Paras` pallet, collects a collation of each parachain at every block it
-- imports, and enacts the collations at the next import by writing the storage again.
use fudge.Prelude.{
  ℕ, Bool, true, false, Option, none, some, List, Result, ok, err, panic, InnerError, Action, ◌≡◌,
  ◌≢◌, ◌↔◌, map_err, zoom,
}
use fudge.Node.{Node, BlockId, Bytes, Setup, Exec}
use fudge.Builder.Core
use fudge.Builder.Core.{Builder}
use fudge.Builder.Common.{Casts}
use fudge.Builder.Parachain.{Primitives, Collation}
use fudge.Builder.Parachain.Collator.{CollationJudgement}
pub mod Onboarding
pub mod Collations
pub mod Chain
pub mod Interface

pub data Error (n : Node) : Type 0 where
  core_builder : Core.Error n → Error n
  initiator parachain_judge_error : InnerError → Error n
  persisted_validation_data_retrieval validation_code_hash_retrieval : InnerError → Error n
  persisted_validation_data_not_found validation_code_hash_not_found : Error n
  inherent_data_providers_creation inherent_data_creation digest_creation : InnerError → Error n
  candidate_pending_availability_decoding parachain_core_index_creation : InnerError → Error n
  parachain_not_onboarded parachain_not_found next_block_not_found : Error n
  parachain_mutation para_lifecycles_mutation parachain_inherent_data_creation : Error n
  parachain_collation : ℕ → InnerError → Error n

pub data OccupiedCoreAssumption : Type 0 where
  included timed_out free : OccupiedCoreAssumption

-- `CandidateCommitments`
pub record CandidateCommitments (t : Primitives) : Type 0 where
  pub upward_messages : t.UpwardMessages
  pub horizontal_messages : t.HorizontalMessages
  pub new_validation_code : Option Bytes
  pub head_data : Bytes
  pub processed_downward_messages : ℕ
  pub hrmp_watermark : ℕ

-- The relay chain's own types: the hash of a runtime, the lifecycle of a parachain and the
-- candidate that awaits availability.
pub record RuntimeTypes : Type 1 where
  pub ValidationCodeHash : Type 0
  pub ParaLifecycle : Type 0
  pub CandidatePendingAvailability : Type 0

-- `CandidateDescriptor`, less the constants (a zero signature, collator key and erasure root).
pub record CandidateDescriptor (n : Node) (y : RuntimeTypes) : Type 0 where
  pub para_id : ℕ
  pub relay_parent : n.Hash
  pub persisted_validation_data_hash : n.Hash
  pub pov_hash : n.Hash
  pub para_head : n.Hash
  pub validation_code_hash : y.ValidationCodeHash

-- Less the fields that hold a default: the candidate's hash, the votes, the backers and the group.
pub record FudgeCandidatePendingAvailability (n : Node) (y : RuntimeTypes) : Type 0 where
  pub core : ℕ
  pub descriptor : CandidateDescriptor n y
  pub relay_parent_number : ℕ
  pub backed_in_number : ℕ

-- The storage items of module `types`, each under its prefix: those of the pallet `Paras`, and two
-- of `ParaInclusion`.
pub data Key (y : RuntimeTypes) : Type 0 where
  para_lifecycles heads current_code_hash : ℕ → Key y
  parachains : Key y
  code_by_hash code_by_hash_refs : y.ValidationCodeHash → Key y
  past_code_hash : ℕ → ℕ → Key y
  pending_availability pending_availability_commitments : ℕ → Key y

abbrev pub Val : (t : Primitives) (y : RuntimeTypes) → Key y → Type 0
Val t y (para_lifecycles _) = y.ParaLifecycle
Val t y (heads _) = Bytes
Val t y (current_code_hash _) = y.ValidationCodeHash
Val t y parachains = List ℕ
Val t y (code_by_hash _) = Bytes
Val t y (code_by_hash_refs _) = ℕ
Val t y (past_code_hash _ _) = y.ValidationCodeHash
Val t y (pending_availability _) = y.CandidatePendingAvailability
Val t y (pending_availability_commitments _) = CandidateCommitments t

-- The runtime: its storage, where a read of an item gives what was last put under its key, and the
-- calls into it. `enact` is the runtime's own `persisted_validation_data` for an included core, which
-- enacts the pending candidate.
pub record Runtime (t : Primitives) (n : Node) (y : RuntimeTypes) : Type 0 where
  pub get : (k : Key y) → n.State → n.Overlay → Option (Val t y k)
  pub put : (k : Key y) → Val t y k → n.Overlay → n.Overlay
  pub get-put_self :
      (k : Key y) (v : Val t y k) (s : n.State) (o : n.Overlay) → get k s (put k v o) ≡ some v
  pub get-put_ne :
      (j k : Key y) (v : Val t y k) (s : n.State) (o : n.Overlay)
      → j ≢ k
      → get j s (put k v o) ≡ get j s o
  pub block_number : n.State → n.Overlay → ℕ
  pub code_hash : Bytes → y.ValidationCodeHash
  pub zero_code_hash : y.ValidationCodeHash
  pub code_hash_eq : y.ValidationCodeHash → y.ValidationCodeHash → Bool
  pub code_hash_eq_iff : (a b : y.ValidationCodeHash) → (code_hash_eq a b ≡ true) ↔ (a ≡ b)
  pub parachain : y.ParaLifecycle
  pub persisted_validation_data :
      n.Hash
      → ℕ
      → OccupiedCoreAssumption
      → n.World
      → Result InnerError (Option t.PersistedValidationData)
  pub validation_code_hash :
      n.Hash
      → ℕ
      → OccupiedCoreAssumption
      → n.World
      → Result InnerError (Option y.ValidationCodeHash)
  pub enact : ℕ → n.State → n.Overlay → Option t.PersistedValidationData × n.Overlay
  pub validation_data_hash : t.PersistedValidationData → n.Hash
  pub pov_hash : Bytes → n.Hash
  pub head_data_hash : Bytes → n.Hash
  pub recode :
      FudgeCandidatePendingAvailability n y → Result InnerError y.CandidatePendingAvailability

-- `dyn CollationBuilder`, acting on whatever world `G` the parachains live in.
pub record CollationBuilder (t : Primitives) (G : Type 0) : Type 0 where
  pub collation : t.PersistedValidationData → Action G InnerError (Option (Collation t))
  pub judge : CollationJudgement → Action G InnerError (Unit {0})

-- A collation of a parachain, and the header of the block at whose import it was collected.
pub record Collected (t : Primitives) (n : Node) : Type 0 where
  pub id : ℕ
  pub collation : Collation t
  pub generation_parent : n.Header

-- The builder, with the world that its boxed collators reach.
pub record RelaychainBuilder (t : Primitives) (n : Node) (G : Type 0) : Type 0 where
  pub builder : Builder n
  pub setup : Setup n
  pub next : Option (n.Block × n.StorageProof)
  pub imports : List (n.Block × n.StorageProof)
  pub parachains : List (ℕ × CollationBuilder t G)
  pub collations : List (Collected t n)
  pub outside : G

abbrev pub casts : (n : Node) → Casts n (Error n)
casts n = record {
  core_builder = core_builder;
  inherent_data_providers_creation = inherent_data_providers_creation;
  inherent_data_creation = inherent_data_creation;
  digest_creation = digest_creation;
}

module _ {t : Primitives} {n : Node} {G : Type 0} where
  abbrev pub on_builder :
      {A : Type 0} → Action (Builder n) (Error n) A → Action (RelaychainBuilder t n G) (Error n) A
  on_builder m = zoom (λ s. s.builder) (λ s b. record s { builder = b }) m

  abbrev pub on_core :
      {A : Type 0}
      → Action (Builder n) (Core.Error n) A
      → Action (RelaychainBuilder t n G) (Error n) A
  on_core m = on_builder (map_err core_builder m)

  -- A call of a boxed collator.
  abbrev pub on_outside :
      {A : Type 0}
      → (InnerError → Error n)
      → Action G InnerError A
      → Action (RelaychainBuilder t n G) (Error n) A
  on_outside cast m = map_err cast (zoom (λ s. s.outside) (λ s g. record s { outside = g }) m)
