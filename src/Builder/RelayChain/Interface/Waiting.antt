-- ===== src/Builder/RelayChain/Interface/Waiting.antt =====
-- When waiting for a block ends, and how.
use fudge.Prelude.{
  true, false, none, some, List, [], ◌∷◌, ◌++◌, Result, ok, InnerError, ◌≡◌, ◌≢◌, ◌↔◌, refl, ap,
  arith, Bool-cases, inl, inr, All,
}
use fudge.Node.{Node}
use fudge.Builder.RelayChain.Interface.{
  BlockStatus, Poll, timeout, notified, closed, wait_loop, check_block_in_chain, wait_for_block,
}

module _ (n : Node) (h : n.Hash) where
  -- A notification of another block.
  abbrev pub Other : Poll n → Type 0
  Other timeout = ⊥
  Other (notified k) = n.hash_eq k h ≡ false
  Other closed = ⊥

  -- The block is notified after notifications of other blocks only.
  abbrev pub Heard : List (Poll n) → Type 0
  Heard polls =
      (before : List (Poll n)) × (k : n.Hash) × (after : List (Poll n)) × (polls
        ≡ before ++ (notified k ∷ after))
      × All Other before
      × (n.hash_eq k h ≡ true)

  wait_loop-Heard : (polls : List (Poll n)) → wait_loop n h polls ≡ some (ok tt) → Heard polls
  unfolding wait_loop
  wait_loop-Heard [] e = absurd (cc)
  wait_loop-Heard (timeout ∷ polls) e = absurd (cc)
  wait_loop-Heard (closed ∷ polls) e = absurd (cc)
  wait_loop-Heard (notified k ∷ polls) e = elim (Bool-cases (n.hash_eq k h)) [
    | inl q ↦ ([], k, polls, refl, tt, q)
    | inr q ↦
        let (before, j, after, p, others, same) = wait_loop-Heard polls (ground (arith, q, e)) in
        (notified k ∷ before, j, after, ap (λ l. notified k ∷ l) p, (q, others), same)
  ]

  Heard-wait_loop :
      (before : List (Poll n)) (k : n.Hash) (after : List (Poll n))
      → All Other before
      → n.hash_eq k h ≡ true
      → wait_loop n h (before ++ (notified k ∷ after)) ≡ some (ok tt)
  unfolding wait_loop
  Heard-wait_loop [] k after others q = ground arith
  Heard-wait_loop (timeout ∷ before) k after others q = absurd others.0
  Heard-wait_loop (closed ∷ before) k after others q = absurd others.0
  Heard-wait_loop (notified j ∷ before) k after others q =
      rw (others.0) (Heard-wait_loop before k after others.1 q)

  module _ (status : n.Hash → n.World → Result InnerError BlockStatus) (polls : List (Poll n))
      (w : n.World) where
    unknown_waits :
        status h w ≡ ok BlockStatus.unknown
        → wait_for_block n status h polls w ≡ wait_loop n h polls
    unfolding wait_for_block check_block_in_chain
    unknown_waits e = ground arith

    -- For a block that is not in the chain yet, the wait succeeds just where its import is notified before
    -- the time is up and before the listener is closed, whatever else is notified until then.
    pub wait_for_block-Heard :
        status h w ≡ ok BlockStatus.unknown
        → (wait_for_block n status h polls w ≡ some (ok tt)) ↔ Heard polls
    wait_for_block-Heard e = rw (unknown_waits e) (
      wait_loop-Heard polls,
      λ (before, k, after, p, others, q). rw (p) (Heard-wait_loop before k after others q),
    )

  wait_loop_ends :
      (before after : List (Poll n)) → wait_loop n h (before ++ (timeout ∷ after)) ≢ none
  unfolding wait_loop
  wait_loop_ends [] after e = cc
  wait_loop_ends (timeout ∷ before) after e = cc
  wait_loop_ends (closed ∷ before) after e = cc
  wait_loop_ends (notified k ∷ before) after e = ground (arith, wait_loop_ends before after)

  -- Once the timer has fired, the wait is over, whatever was notified before.
  pub wait_for_block_ends :
      (status : n.Hash → n.World → Result InnerError BlockStatus) (before after : List (Poll n))
      (w : n.World)
      → wait_for_block n status h (before ++ (timeout ∷ after)) w ≢ none
  unfolding wait_for_block check_block_in_chain
  wait_for_block_ends status before after w = ground (arith, wait_loop_ends before after)
