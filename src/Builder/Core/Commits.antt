-- ===== src/Builder/Core/Commits.antt =====
-- What a commit leaves in the chain, over a database that keeps what is written to it.
use mathlib.Core.Path.{subst}
use fudge.Prelude.{
  ℕ, ◌==◌, Option, none, some, [], Result, ok, err, panic, InnerError, recast, or_throw, ◌≡◌, refl,
  sym, if◌then◌else◌, Bool-cases, inl, inr, Leaves, Leaves-continue,
}
use fudge.Node.{Node, BlockId, hash, number, Exec}
use fudge.Builder.Core.{
  Error, Builder, commit, call, read, check_best_hash_and_revert, backend_operation_commit,
  block_data_set, backend_operation_start, backend_state_operation_start, block_number_retrieval,
  block_number_not_found,
}
use fudge.Builder.Core.State.{
  open_state, genesis_header, state_version, mutate_genesis, mutate_latest, with_commit, with_state,
}
use fudge.Builder.Core.Reads.{with_state-none, with_state-number}
use fudge.Builder.Core.Database.{Database, anything, Gives, Gives-recast, bind-Gives}
use fudge.Builder.Core.Running.{Ran, execute_for_changes_lem, mutate_normal_lem, update_op_lem}

module _ {n : Node} {V : Type 0} (d : Database n V) where
  open d use {view}

  -- What both ways to change the state give: the closure's value, and an operation that is ready to be
  -- committed.
  abbrev Changed : {R : Type 0} → Exec n R → n.State → R × n.ImportOperation → Type 0
  Changed exec s x = (v : V) × Ran d exec s x.0 v × d.Sealed x.1 v

  mutate_latest_lem :
      {R : Type 0} (h : n.Hash) (s : n.State) (exec : Exec n R) (op : n.ImportOperation)
      (b : Builder n)
      → Gives (Changed exec s) (mutate_latest n h s exec op b)
  mutate_latest_lem h s exec op b =
      bind-Gives (λ _. Unit {0}) (Changed exec s) (check_best_hash_and_revert n 1 b) _
        (anything (check_best_hash_and_revert n 1 b))
        (λ _ b₁ _.
          bind-Gives (λ x. (v : V) × Ran d exec s x.0 v × d.Makes x.1 v) (Changed exec s) _ _
            (execute_for_changes_lem d (some (hash h)) s exec b₁)
            (λ (r, c) b₂ (v, ran, m).
              bind-Gives (λ op'. d.Sealed op' v) (Changed exec s) _ _
                (mutate_normal_lem d c v (hash h) op b₂ m) (λ op' b₃ k. (v, ran, k))))

  mutate_genesis_lem :
      {R : Type 0} (s : n.State) (exec : Exec n R) (op : n.ImportOperation) (b : Builder n)
      → Gives (Changed exec s) (mutate_genesis n s exec op b)
  unfolding mutate_genesis
  mutate_genesis_lem s exec op b =
      bind-Gives (λ x. (v : V) × Ran d exec s x.0 v × d.Makes x.1 v) (Changed exec s) _ _
        (execute_for_changes_lem d (some (number 0)) s exec b)
        (λ (r, c) b₁ (v, ran, m).
          bind-Gives (λ o. d.Carries o c.root v) (Changed exec s) _ _
            (update_op_lem d none c v op b₁ m)
            (λ op₂ b₂ k.
              bind-Gives (λ _. Unit {0}) (Changed exec s) _ _ (anything (state_version n b₂))
                (λ version b₃ _.
                  bind-Gives (λ op'. d.Sealed op' v) (Changed exec s) _ _
                    (Gives-recast (λ op'. d.Sealed op' v) (block_data_set none)
                      (n.set_block_data (genesis_header n c.root version) (some []) none none
                        n.final op₂)
                      b₃
                      (λ op' e.
                        d.seal _ (some []) none none v op₂ op'
                          (subst (λ r. d.Carries op₂ r v)
                            (sym (
                              d.root-new 0 (n.empty_trie_root version) c.root n.default_hash
                                n.default_digest))
                            k)
                          e))
                    (λ op' b₄ k'. (v, ran, k')))))

  -- The latest state reads so.
  abbrev pub Latest : V → n.World → Type 0
  Latest v w =
      (s : n.State) × (n.state_at (n.best_hash w) w ≡ ok s) × (view s n.overlay_default ≡ v)

  pub commit_call :
      (at : BlockId n.Hash) (op : n.ImportOperation) (v : V) (b : Builder n)
      → d.Sealed op v
      → Leaves
          (λ _ b'. Latest v b'.world)
          (λ _. Unit {0})
          (call n (backend_operation_commit at) (n.commit_operation op) b)
  commit_call at op v b k = after (n.commit_operation op b.world) refl
    where
      after :
          (m : Result InnerError (Unit {0}) × n.World)
          → n.commit_operation op b.world ≡ m
          → Leaves {E = Error n}
              (λ _ b'. Latest v b'.world)
              (λ _. Unit {0})
              (recast (backend_operation_commit at) m.0, record b { world = m.1 })
      after (ok u, w) e = d.committed op v b.world w k e
      after (err x, w) e = tt
      after (panic, w) e = tt

  change_lem :
      {R : Type 0} (i : ℕ) (h : n.Hash) (s : n.State) (exec : Exec n R) (op : n.ImportOperation)
      (b : Builder n)
      → Gives
          (Changed exec s)
          ((if i == 0 then mutate_genesis n s exec op else mutate_latest n h s exec op) b)
  change_lem i h s exec op b = elim (Bool-cases (i == 0)) [
    | inl q ↦ rw (q) (mutate_genesis_lem s exec op b)
    | inr q ↦ rw (q) (mutate_latest_lem h s exec op b)
  ]

  -- A commit on the block of a hash.
  commit_hash :
      {R : Type 0} (h : n.Hash) (exec : Exec n R) (s : n.State) (b : Builder n)
      → n.state_at h b.world ≡ ok s
      → Leaves
          (λ r b'. (v : V) × Ran d exec s r v × Latest v b'.world)
          (λ _. Unit {0})
          (with_state n commit (some (hash h)) exec b)
  unfolding with_state with_commit open_state
  commit_hash {R} h exec s b e =
      let F = λ (_ : Builder n). Unit {0} in
      let Q = λ (r : R) (b' : Builder n). (v : V) × Ran d exec s r v × Latest v b'.world in
      rw (e) (
        Leaves-continue (λ _ _. Unit {0}) Q F _ _
          (anything (call n (backend_operation_start (hash h)) n.begin_operation b))
          (λ op b₁ _.
            Leaves-continue (λ _ _. Unit {0}) Q F _ _
              (anything
                (call n (backend_state_operation_start (hash h)) (n.begin_state_operation h op) b₁))
              (λ op b₂ _.
                Leaves-continue (λ _ _. Unit {0}) Q F _ _
                  (anything
                    (read n (block_number_retrieval (hash h)) (n.block_number_from_id (hash h)) b₂))
                  (λ found b₃ _.
                    Leaves-continue (λ _ _. Unit {0}) Q F _ _
                      (anything (or_throw found (block_number_not_found (hash h)) b₃))
                      (λ i b₄ _.
                        Leaves-continue (λ x _. Changed exec s x) Q F _ _
                          (change_lem i h s exec op b₄)
                          (λ (r, op') b₅ (v, ran, k).
                            Leaves-continue (λ _ b'. Latest v b'.world) Q F _ _
                              (commit_call (hash h) op' v b₅ k) (λ _ b₆ l. (v, ran, l))))))))

  -- The block of the hash is meant.
  abbrev pub IsMeant : Option (BlockId n.Hash) → n.Hash → Builder n → Type 0
  IsMeant none h b = n.best_hash b.world ≡ h
  IsMeant (some (hash k)) h b = k ≡ h
  IsMeant (some (number i)) h b = n.hash_at i b.world ≡ ok (some h)

  -- Over a database that keeps what is written to it, a commit on any block, the latest or one named by hash
  -- or number, whose state is at hand, that succeeds has run the closure on the state of that block, returns
  -- its value, and leaves a best block whose state reads as the closure left it. The block that is meant need
  -- not have been the best one.
  pub with_state-commit_any_reads :
      {R : Type 0} (at : Option (BlockId n.Hash)) (h : n.Hash) (exec : Exec n R) (s : n.State)
      (b : Builder n)
      → IsMeant at h b
      → n.state_at h b.world ≡ ok s
      → Leaves
          (λ r b'. (v : V) × Ran d exec s r v × Latest v b'.world)
          (λ _. Unit {0})
          (with_state n commit at exec b)
  with_state-commit_any_reads none h exec s b m e =
      rw (with_state-none n commit exec b) (commit_hash (n.best_hash b.world) exec s b (rw (m) e))
  with_state-commit_any_reads (some (hash k)) h exec s b m e = commit_hash k exec s b (rw (m) e)
  with_state-commit_any_reads (some (number i)) h exec s b m e =
      rw (with_state-number n commit i h exec b m) (commit_hash h exec s b e)

  -- The same on the latest block.
  pub with_state-commit_reads :
      {R : Type 0} (exec : Exec n R) (s : n.State) (b : Builder n)
      → n.state_at (n.best_hash b.world) b.world ≡ ok s
      → Leaves
          (λ r b'. (v : V) × Ran d exec s r v × Latest v b'.world)
          (λ _. Unit {0})
          (with_state n commit none exec b)
  with_state-commit_reads exec s b e =
      with_state-commit_any_reads none (n.best_hash b.world) exec s b refl e
