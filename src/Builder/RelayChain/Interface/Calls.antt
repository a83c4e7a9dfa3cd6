-- ===== src/Builder/RelayChain/Interface/Calls.antt =====
-- core/src/builder/relay_chain.rs: the methods of `FudgeRelayChainProcessInterface` that ask the runtime, the
-- backend or a stream of notifications, and `InherentBuilder`, which gives the interface to Cumulus.
use fudge.Prelude.{
  ℕ, Bool, Option, none, some, List, [], ◌∷◌, Result, ok, err, panic, InnerError, recast, map,
  if◌then◌else◌,
}
use fudge.Node.{Node, Bytes}
use fudge.Builder.Parachain.{Primitives}
use fudge.Builder.RelayChain.{
  Error, parachain_inherent_data_creation, OccupiedCoreAssumption, timed_out, RuntimeTypes, Runtime,
}
use fudge.Builder.RelayChain.Collations as Collations
use fudge.Builder.RelayChain.Interface.{
  RelayChainError, blockchain, api_error, generic_error, state_machine_error,
}

-- The runtime's interface `ParachainHost`, as far as it is only asked here, reads of a state, and notifications.
pub record Host (t : Primitives) (n : Node) : Type 1 where
  pub DownwardMessages : Type 0
  pub HrmpMessages : Type 0
  pub CandidateReceipt : Type 0
  pub dmq_contents : n.Hash → ℕ → n.World → Result InnerError DownwardMessages
  pub inbound_hrmp_channels_contents : n.Hash → ℕ → n.World → Result InnerError HrmpMessages
  pub persisted_validation_data :
      n.Hash
      → ℕ
      → OccupiedCoreAssumption
      → n.World
      → Result InnerError (Option t.PersistedValidationData)
  pub candidate_pending_availability :
      n.Hash → ℕ → n.World → Result InnerError (Option CandidateReceipt)
  pub session_index_for_child : n.Hash → n.World → Result InnerError ℕ
  pub Validators : Type 0
  pub validators : n.Hash → n.World → Result InnerError Validators
  pub storage : n.State → Bytes → Result InnerError (Option Bytes)
  pub prove_read : n.State → List Bytes → Result InnerError n.StorageProof

-- `BlockImportNotification`, of what the streams read.
pub record Notification (n : Node) : Type 0 where
  pub header : n.Header
  pub is_new_best : Bool

module _ {t : Primitives} {n : Node} (o : Host t n) where
  unfoldable pub retrieve_dmq_contents :
      ℕ → n.Hash → n.World → Result (RelayChainError n) o.DownwardMessages
  retrieve_dmq_contents para_id relay_parent w =
      recast api_error (o.dmq_contents relay_parent para_id w)

  unfoldable pub retrieve_all_inbound_hrmp_channel_contents :
      ℕ → n.Hash → n.World → Result (RelayChainError n) o.HrmpMessages
  retrieve_all_inbound_hrmp_channel_contents para_id relay_parent w =
      recast api_error (o.inbound_hrmp_channels_contents relay_parent para_id w)

  unfoldable pub persisted_validation_data :
      n.Hash
      → ℕ
      → OccupiedCoreAssumption
      → n.World
      → Result (RelayChainError n) (Option t.PersistedValidationData)
  persisted_validation_data hash para_id assumption w =
      recast api_error (o.persisted_validation_data hash para_id assumption w)

  unfoldable pub candidate_pending_availability :
      n.Hash → ℕ → n.World → Result (RelayChainError n) (Option o.CandidateReceipt)
  candidate_pending_availability hash para_id w =
      recast api_error (o.candidate_pending_availability hash para_id w)

  unfoldable pub session_index_for_child : n.Hash → n.World → Result (RelayChainError n) ℕ
  session_index_for_child hash w = recast api_error (o.session_index_for_child hash w)

  unfoldable pub validators : n.Hash → n.World → Result (RelayChainError n) o.Validators
  validators hash w = recast api_error (o.validators hash w)

  unfoldable pub get_storage_by_key :
      n.Hash → Bytes → n.World → Result (RelayChainError n) (Option Bytes)
  get_storage_by_key relay_parent key w = elim (n.state_at relay_parent w) [
    | ok state ↦ recast generic_error (o.storage state key)
    | err e ↦ err (blockchain e)
    | panic ↦ panic
  ]

  unfoldable pub prove_read :
      n.Hash → List Bytes → n.World → Result (RelayChainError n) n.StorageProof
  prove_read relay_parent relevant_keys w = elim (n.state_at relay_parent w) [
    | ok state ↦ recast state_machine_error (o.prove_read state relevant_keys)
    | err e ↦ err (blockchain e)
    | panic ↦ panic
  ]

module _ (n : Node) where
  unfoldable pub best_block_hash : n.World → Result (RelayChainError n) n.Hash
  best_block_hash w = ok (n.best_hash w)

  unfoldable pub finalized_block_hash : n.World → Result (RelayChainError n) n.Hash
  finalized_block_hash w = ok (n.finalized_hash w)

  -- A stream is the list of what it gives. Imports and finality give headers in the same way.
  unfoldable pub import_notification_stream : List (Notification n) → List n.Header
  import_notification_stream notifications = map (λ x. x.header) notifications

  unfoldable pub finality_notification_stream : List (Notification n) → List n.Header
  finality_notification_stream notifications = map (λ x. x.header) notifications

  unfoldable pub new_best_notification_stream : List (Notification n) → List n.Header
  new_best_notification_stream [] = []
  new_best_notification_stream (x ∷ xs) =
      if x.is_new_best
      then x.header ∷ new_best_notification_stream xs
      else new_best_notification_stream xs

module _ {t : Primitives} {n : Node} {y : RuntimeTypes} (r : Runtime t n y) {D : Type 0} where
  abbrev created : Option D → Result (Error n) D
  created none = err parachain_inherent_data_creation
  created (some d) = ok d

  -- `InherentBuilder::parachain_inherent`, of the parachain `id`. `create_at` is that of Cumulus, with an interface
  -- to the same chain; the overseer's handle and the network are made up and not read.
  unfoldable pub parachain_inherent :
      ℕ
      → (n.Hash → t.PersistedValidationData → ℕ → n.World → Option D)
      → n.World
      → Result (Error n) D
  unfolding Collations.persisted_validation_data
  parachain_inherent id create_at w =
      let parent = n.best_hash w in
      elim (Collations.persisted_validation_data r parent id timed_out w) [
        | ok pvd ↦ created (create_at parent pvd id w)
        | err e ↦ err e
        | panic ↦ panic
      ]
