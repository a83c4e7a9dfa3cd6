-- ===== src/Builder/RelayChain/Interface.antt =====
-- core/src/builder/relay_chain.rs: `FudgeRelayChainProcessInterface`, where it does more than pass a call
-- on to the client. A stream of import notifications that is raced against a timer is the list of what the
-- polls answer, in order.
use fudge.Prelude.{
  ℕ, Bool, true, false, Option, none, some, List, [], ◌∷◌, Result, ok, err, panic, InnerError,
  recast, if◌then◌else◌,
}
use fudge.Node.{Node, BlockId, hash, number}
pub mod Waiting
pub mod Calls

-- `sp_blockchain::BlockStatus`
pub data BlockStatus : Type 0 where
  in_chain unknown : BlockStatus

pub data RelayChainError (n : Node) : Type 0 where
  blockchain : InnerError → RelayChainError n
  wait_timeout : n.Hash → RelayChainError n
  import_listener_closed : n.Hash → RelayChainError n
  api_error generic_error state_machine_error : InnerError → RelayChainError n

-- What a poll of timer and listener answers.
pub data Poll (n : Node) : Type 0 where
  timeout : Poll n
  notified : n.Hash → Poll n
  closed : Poll n

pub data BlockCheckStatus (n : Node) : Type 0 where
  in_chain : BlockCheckStatus n
  unknown : List (Poll n) → BlockCheckStatus n

module _ (n : Node) where
  unfoldable pub header : BlockId n.Hash → n.World → Result (RelayChainError n) (Option n.Header)
  header (hash h) w = recast blockchain (n.header_at h w)
  header (number i) w = elim (n.hash_at i w) [
    | ok (some h) ↦ recast blockchain (n.header_at h w)
    | ok none ↦ ok none
    | err e ↦ err (blockchain e)
    | panic ↦ panic
  ]

  -- The loop of `wait_for_block`; none while it still waits.
  unfoldable pub wait_loop : n.Hash → List (Poll n) → Option (Result (RelayChainError n) (Unit {0}))
  wait_loop h [] = none
  wait_loop h (timeout ∷ polls) = some (err (wait_timeout h))
  wait_loop h (closed ∷ polls) = some (err (import_listener_closed h))
  wait_loop h (notified k ∷ polls) = if n.hash_eq k h then some (ok tt) else wait_loop h polls

  module _ (status : n.Hash → n.World → Result InnerError BlockStatus) where
    unfoldable pub check_block_in_chain :
        n.Hash → List (Poll n) → n.World → Result (RelayChainError n) (BlockCheckStatus n)
    check_block_in_chain h listener w = elim (status h w) [
      | ok BlockStatus.in_chain ↦ ok in_chain
      | ok BlockStatus.unknown ↦ ok (unknown listener)
      | err e ↦ err (blockchain e)
      | panic ↦ panic
    ]

    unfoldable pub wait_for_block :
        n.Hash → List (Poll n) → n.World → Option (Result (RelayChainError n) (Unit {0}))
    unfolding check_block_in_chain wait_loop
    wait_for_block h listener w = elim (check_block_in_chain h listener w) [
      | ok in_chain ↦ some (ok tt)
      | ok (unknown polls) ↦ wait_loop h polls
      | err e ↦ some (err e)
      | panic ↦ some panic
    ]
