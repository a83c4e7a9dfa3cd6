-- ===== src/Builder/Core/Agreeing.antt =====
-- What a dry run has to do with the commit of the same closure.
use fudge.Prelude.{Option, none, some, ok, ◌≡◌, sym, ap, ◌∙◌, arith, Leaves, Leaves-weaken}
use fudge.Node.{Node, BlockId, hash, number, Exec}
use fudge.Builder.Core.{Builder, commit, dry_run}
use fudge.Builder.Core.State.{open_state, with_state}
use fudge.Builder.Core.Reads.{with_state-none, with_state-number}
use fudge.Builder.Core.Database.{Database}
use fudge.Builder.Core.Running.{Ran}
use fudge.Builder.Core.Commits.{IsMeant, Latest, with_state-commit_any_reads}
use fudge.Provider.Externalities.{execute_with}

module _ (n : Node) where
  -- The closure returns the same in every world, and whether or not a transaction has been started on a state
  -- that nothing has been written to.
  abbrev pub IsBlind : {R : Type 0} → Exec n R → Type 0
  IsBlind exec =
      (w w' : n.World) (s : n.State) (version : n.StateVersion)
      → (exec w s (n.storage_start_transaction (n.storage_root s version n.overlay_default))).0
        ≡ (exec w' s n.overlay_default).0

  dry_run_hash :
      {R : Type 0} (h : n.Hash) (exec : Exec n R) (s : n.State) (r : R) (b : Builder n)
      → n.state_at h b.world ≡ ok s
      → (exec b.world s n.overlay_default).0 ≡ some r
      → with_state n dry_run (some (hash h)) exec b ≡ (ok r, b)
  unfolding with_state open_state execute_with
  dry_run_hash h exec s r b e ran = ground (arith, e, ran)

module _ {n : Node} {V : Type 0} (d : Database n V) where
  dry_run_meant :
      {R : Type 0} (at : Option (BlockId n.Hash)) (h : n.Hash) (exec : Exec n R) (s : n.State)
      (r : R) (b : Builder n)
      → IsMeant d at h b
      → n.state_at h b.world ≡ ok s
      → (exec b.world s n.overlay_default).0 ≡ some r
      → with_state n dry_run at exec b ≡ (ok r, b)
  dry_run_meant none h exec s r b m e ran =
      with_state-none n dry_run exec b
      ∙ dry_run_hash n (n.best_hash b.world) exec s r b (rw (m) e) ran
  dry_run_meant (some (hash k)) h exec s r b m e ran = dry_run_hash n k exec s r b (rw (m) e) ran
  dry_run_meant (some (number i)) h exec s r b m e ran =
      with_state-number n dry_run i h exec b m ∙ dry_run_hash n h exec s r b e ran

  -- A dry run foretells the commit, over a database that keeps what is written to it: on any block whose state is at hand, where the commit of a closure succeeds,
  -- the dry run of the closure on the builder as it was before succeeds too, with the value that the commit returns.
  -- The closure sees neither the world nor whether a transaction has been started.
  pub with_state-dry_run_commit :
      {R : Type 0} (at : Option (BlockId n.Hash)) (h : n.Hash) (exec : Exec n R) (s : n.State)
      (b : Builder n)
      → IsBlind n exec
      → IsMeant d at h b
      → n.state_at h b.world ≡ ok s
      → Leaves
          (λ r _. with_state n dry_run at exec b ≡ (ok r, b))
          (λ _. Unit {0})
          (with_state n commit at exec b)
  with_state-dry_run_commit at h exec s b blind m e =
      Leaves-weaken (λ r b'. (v : V) × Ran d exec s r v × Latest d v b'.world) _ (λ _. Unit {0})
        (λ _. Unit {0}) (with_state n commit at exec b)
        (with_state-commit_any_reads d at h exec s b m e)
        (λ r b' (v, ran, _).
          dry_run_meant at h exec s r b m e
            (sym (blind ran.world b.world s ran.version) ∙ ap (λ x. x.0) ran.ran))
        (λ _ _. tt)
