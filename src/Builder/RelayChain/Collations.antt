-- ===== src/Builder/RelayChain/Collations.antt =====
-- core/src/builder/relay_chain.rs: `collect_collations` and `force_enact_collations`.
pub mod Keeping
pub mod Approvals
pub mod Enacting
use fudge.Prelude.{
  ℕ, suc, ◌==◌, ltb, ◌^◌, Bool, true, false, ◌||◌, Option, none, some, List, [], ◌∷◌, ◌++◌, Result,
  ok, err, panic, InnerError, Action, ◌>>=◌, ◌>>◌, pure, throw, or_throw, gets, modify, lift,
  recast, map_err, assert, is_none, if◌then◌else◌,
}
use fudge.Node.{Node, Bytes, Exec, BlockId}
use fudge.Builder.Core
use fudge.Builder.Core.{Builder, Operation, commit, dry_run}
use fudge.Builder.Core.State.{with_state}
use fudge.Builder.Parachain.{Primitives, Collation}
use fudge.Builder.Parachain.Collator.{CollationJudgement, approved, rejected}
use fudge.Builder.RelayChain.{
  Error, core_builder, parachain_judge_error, persisted_validation_data_retrieval,
  persisted_validation_data_not_found, validation_code_hash_retrieval,
  validation_code_hash_not_found, candidate_pending_availability_decoding,
  parachain_core_index_creation, parachain_not_onboarded, parachain_not_found, parachain_collation,
  OccupiedCoreAssumption, included, timed_out, CandidateCommitments, RuntimeTypes,
  CandidateDescriptor, FudgeCandidatePendingAvailability, Key, parachains, pending_availability,
  pending_availability_commitments, Val, Runtime, CollationBuilder, Collected, RelaychainBuilder,
  on_core, on_outside,
}
use fudge.Builder.RelayChain.Onboarding.{on_storage, get_or_default}

abbrev pub one_on : Option ℕ → Option ℕ
one_on none = none
one_on (some i) = some (suc i)

-- `iter().position(…)`
unfoldable pub position : ℕ → List ℕ → Option ℕ
position id [] = none
position id (x ∷ xs) = if x == id then some 0 else one_on (position id xs)

-- `try_into` from usize to the u32 of a core index
abbrev pub core_index : ℕ → Result InnerError ℕ
core_index i =
    if ltb i (2 ^ 32) then ok i else err "out of range integral type conversion attempted"

module _ {t : Primitives} {n : Node} {y : RuntimeTypes} (r : Runtime t n y) where
  -- The calls of the runtime's API that the closures make, asked of the client.
  unfoldable pub persisted_validation_data :
      n.Hash → ℕ → OccupiedCoreAssumption → n.World → Result (Error n) t.PersistedValidationData
  persisted_validation_data parent id assumption w =
      elim (r.persisted_validation_data parent id assumption w) [
        | ok (some pvd) ↦ ok pvd
        | ok none ↦ err persisted_validation_data_not_found
        | err e ↦ err (persisted_validation_data_retrieval e)
        | panic ↦ panic
      ]

  unfoldable pub validation_code_hash :
      n.Hash → ℕ → OccupiedCoreAssumption → n.World → Result (Error n) y.ValidationCodeHash
  validation_code_hash parent id assumption w =
      elim (r.validation_code_hash parent id assumption w) [
        | ok (some h) ↦ ok h
        | ok none ↦ err validation_code_hash_not_found
        | err e ↦ err (validation_code_hash_retrieval e)
        | panic ↦ panic
      ]

  abbrev pub commitments_of : Collation t → CandidateCommitments t
  commitments_of c = record {
    upward_messages = c.upward_messages;
    horizontal_messages = c.horizontal_messages;
    new_validation_code = c.new_validation_code;
    head_data = c.head_data;
    processed_downward_messages = c.processed_downward_messages;
    hrmp_watermark = c.hrmp_watermark;
  }

  abbrev pub describe :
      n.Hash
      → Collected t n
      → t.PersistedValidationData
      → y.ValidationCodeHash
      → CandidateDescriptor n y
  describe parent c pvd code_hash = record {
    para_id = c.id;
    relay_parent = parent;
    persisted_validation_data_hash = r.validation_data_hash pvd;
    pov_hash = r.pov_hash c.collation.proof_of_validity;
    para_head = r.head_data_hash c.collation.head_data;
    validation_code_hash = code_hash;
  }

  abbrev write : (k : Key y) → Val t y k → Action n.Overlay (Error n) (Unit {0})
  write k v o = (ok tt, r.put k v o)

  abbrev enact : ℕ → n.State → Action n.Overlay (Error n) (Option t.PersistedValidationData)
  enact id s o = let (pvd, o') = r.enact id s o in (ok pvd, o')

  -- The closure of `force_enact_collations` for one collation.
  unfoldable pub enact_storage :
      n.Hash
      → ℕ
      → Collected t n
      → t.PersistedValidationData
      → n.World
      → n.State
      → Action n.Overlay (Error n) (Unit {0})
  unfolding validation_code_hash position
  enact_storage parent parent_number c pvd w s = do
    let commitments = commitments_of c.collation
    write (pending_availability_commitments c.id) commitments
    code_hash ← lift (validation_code_hash parent c.id timed_out w)
    let descriptor = describe parent c pvd code_hash
    paras ← gets (λ o. get_or_default [] (r.get parachains s o))
    i ← or_throw (position c.id paras) parachain_not_onboarded
    core ← lift (recast parachain_core_index_creation (core_index i))
    cpa ← lift (
        recast candidate_pending_availability_decoding (
          r.recode (record {
            core = core;
            descriptor = descriptor;
            relay_parent_number = parent_number;
            backed_in_number = n.number_of c.generation_parent;
          })))
    write (pending_availability c.id) cpa
    enacted ← enact c.id s
    or_throw enacted persisted_validation_data_not_found
    pure tt

module _ {t : Primitives} {n : Node} where
  -- `collations.iter().any(…)`
  unfoldable pub collected_for : ℕ → List (Collected t n) → Bool
  collected_for id [] = false
  collected_for id (c ∷ cs) = c.id == id || collected_for id cs

  -- A collation is kept unless the parachain already has one.
  unfoldable pub keep_collation :
      ℕ → n.Header → Option (Collation t) → List (Collected t n) → List (Collected t n)
  unfolding collected_for
  keep_collation id parent_head none cs = cs
  keep_collation id parent_head (some c) cs =
      if collected_for id cs
      then cs
      else cs ++ (record { id = id; collation = c; generation_parent = parent_head } ∷ [])

module _ {t : Primitives} {n : Node} {G : Type 0} where
  unfoldable pub with_state_of :
      {R : Type 0}
      → Option (BlockId n.Hash)
      → Exec n R
      → Action (RelaychainBuilder t n G) (Error n) R
  with_state_of at exec = on_core (with_state n dry_run at exec)

  unfoldable pub with_mut_state :
      {R : Type 0}
      → Option (BlockId n.Hash)
      → Exec n R
      → Action (RelaychainBuilder t n G) (Error n) R
  with_mut_state at exec = do assert (λ s. is_none s.next); on_core (with_state n commit at exec)

module _ {t : Primitives} {G : Type 0} where
  -- The collator that is boxed under an id. The source looks up its position and then the collator at
  -- that position, which is always there: its second error, `ParachainNotFound`, does not occur.
  unfoldable pub collator_of : ℕ → List (ℕ × CollationBuilder t G) → Option (CollationBuilder t G)
  collator_of id [] = none
  collator_of id ((i, para) ∷ paras) = if i == id then some para else collator_of id paras

module _ {t : Primitives} {n : Node} {y : RuntimeTypes} (r : Runtime t n y) {G : Type 0} where
  -- `self.with_state(|| persisted_validation_data(…))??`
  abbrev pub validation_data :
      n.Hash → ℕ → Action (RelaychainBuilder t n G) (Error n) t.PersistedValidationData
  validation_data parent id = do
    pvd ←
        with_state_of none
          (on_storage n (λ w s. lift (persisted_validation_data r parent id timed_out w)))
    lift pvd

  unfoldable pub collect_each :
      n.Hash
      → n.Header
      → List (ℕ × CollationBuilder t G)
      → Action (RelaychainBuilder t n G) (Error n) (Unit {0})
  unfolding with_state_of persisted_validation_data
  collect_each parent parent_head [] = pure tt
  collect_each parent parent_head ((id, para) ∷ paras) = do
    pvd ← validation_data parent id
    para_collation ← on_outside (parachain_collation id) (para.collation pvd)
    modify
        (λ s. record s { collations = keep_collation id parent_head para_collation s.collations })
    collect_each parent parent_head paras

  unfoldable pub collect_collations :
      n.Header → Action (RelaychainBuilder t n G) (Error n) (Unit {0})
  unfolding collect_each
  collect_collations parent_head s =
      collect_each (n.best_hash s.builder.world) parent_head s.parachains s

  unfoldable pub enact_each :
      n.Hash → ℕ → List (Collected t n) → Action (RelaychainBuilder t n G) (Error n) (Unit {0})
  unfolding with_mut_state enact_storage collator_of
  enact_each parent parent_number [] = pure tt
  enact_each parent parent_number (c ∷ cs) = do
    pvd ← validation_data parent c.id
    enacted ← with_mut_state none (on_storage n (enact_storage r parent parent_number c pvd))
    lift enacted
    paras ← gets (λ s. s.parachains)
    collator ← or_throw (collator_of c.id paras) parachain_not_onboarded
    on_outside parachain_judge_error (collator.judge approved)
    enact_each parent parent_number cs

  unfoldable pub force_enact_collations : Action (RelaychainBuilder t n G) (Error n) (Unit {0})
  unfolding enact_each
  force_enact_collations s =
      (do
        enact_each (n.best_hash s.builder.world) (n.best_number s.builder.world) s.collations
        modify (λ s. record s { collations = [] }))
        s
