-- ===== src/Builder/Core/Reads.antt =====
-- Dry runs, and the ways to name a block.
use fudge.Prelude.{ℕ, Option, none, some, ok, panic, ◌≡◌, arith}
use fudge.Node.{Node, BlockId, hash, number, Exec}
use fudge.Builder.Core.{Operation, dry_run, Builder}
use fudge.Builder.Core.State.{open_state, with_dry_run, with_commit, with_state}
use fudge.Provider.Externalities.{execute_with}

module _ (n : Node) where
  open_state_state : (at : Option (BlockId n.Hash)) (b : Builder n) → (open_state n at b).1 ≡ b
  unfolding open_state
  open_state_state none b = ground arith
  open_state_state (some (hash h)) b = ground arith
  open_state_state (some (number i)) b = ground arith

  -- A dry run leaves the builder and its chain as they were, whatever the closure does and however
  -- the call ends.
  pub with_state-dry_run_state :
      {R : Type 0} (at : Option (BlockId n.Hash)) (exec : Exec n R) (b : Builder n)
      → (with_state n dry_run at exec b).1 ≡ b
  unfolding with_state
  with_state-dry_run_state at exec b = ground arith

  -- Where the latest block's state is at hand, a dry run there returns what the closure returns on that
  -- state under no changes, and panics where the closure does.
  pub with_state-dry_run_latest :
      {R : Type 0} (exec : Exec n R) (s : n.State) (b : Builder n)
      → n.state_at (n.best_hash b.world) b.world ≡ ok s
      → with_state n dry_run none exec b
        ≡ (elim (exec b.world s n.overlay_default).0 [ none ↦ panic | some r ↦ ok r ], b)
  unfolding with_state open_state execute_with
  with_state-dry_run_latest exec s b e = ground arith

  -- Where the client knows the hash of a number, a block that is named by the number is the block
  -- of that hash, for dry runs and for commits.
  pub with_state-number :
      {R : Type 0} (op : Operation) (i : ℕ) (h : n.Hash) (exec : Exec n R) (b : Builder n)
      → n.hash_at i b.world ≡ ok (some h)
      → with_state n op (some (number i)) exec b ≡ with_state n op (some (hash h)) exec b
  unfolding with_state with_commit with_dry_run
  with_state-number op i h exec b e = ground arith

  -- No block name is the name of the latest block.
  pub with_state-none :
      {R : Type 0} (op : Operation) (exec : Exec n R) (b : Builder n)
      → with_state n op none exec b ≡ with_state n op (some (hash (n.best_hash b.world))) exec b
  unfolding with_state with_commit with_dry_run open_state
  with_state-none op exec b = ground arith
