-- ===== src/Examples/Waits.antt =====
-- Waiting for a block of the small node.
use fudge.Prelude.{ℕ, none, some, List, [], ◌∷◌, Result, ok, InnerError, ◌≡◌, ◌≢◌, ◌↔◌, refl}
use fudge.Builder.RelayChain.Interface.{
  BlockStatus, Poll, timeout, notified, closed, wait_for_block,
}
use fudge.Builder.RelayChain.Interface.Waiting.{Heard, wait_for_block-Heard, wait_for_block_ends}
use fudge.Examples.Storage.{look}
use fudge.Examples.Toy.{World, toy, world}

abbrev status : ℕ → World → Result InnerError BlockStatus
status h w = elim (look h w.headers) [
  | none ↦ ok BlockStatus.unknown
  | some _ ↦ ok BlockStatus.in_chain
]

abbrev polls : List (Poll toy)
polls = notified 4 ∷ notified 5 ∷ timeout ∷ []

wait_for_block-Heard_example :
    (wait_for_block toy status 5 polls world ≡ some (ok tt)) ↔ Heard toy 5 polls
wait_for_block-Heard_example = wait_for_block-Heard toy 5 status polls world refl

wait_for_block_ends_example :
    wait_for_block toy status 6 (notified 4 ∷ timeout ∷ closed ∷ []) world ≢ none
wait_for_block_ends_example = wait_for_block_ends toy 6 status (notified 4 ∷ []) (closed ∷ []) world
