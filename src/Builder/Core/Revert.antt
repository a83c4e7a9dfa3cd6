-- ===== src/Builder/Core/Revert.antt =====
-- How far writing changes back takes the chain back first, and what a failure leaves behind.
use fudge.Prelude.{
  ℕ, ◌==◌, Option, none, some, ok, or_throw, ◌>>=◌, ◌>>◌, pure, ◌≡◌, refl, ap, ◌∙◌, inr,
  if◌then◌else◌,
}
use fudge.Node.{Node, BlockId, hash, Exec, Changes}
use fudge.Builder.Core.{
  Error, Builder, commit, call, read, check_best_hash_and_revert, get_block_header,
  backend_operation_start, backend_state_operation_start, backend_operation_commit,
  block_number_retrieval, block_number_not_found,
}
use fudge.Builder.Core.Taking.{
  TakenBack, Fails, call-Ends, call-Standing, check_best_hash_and_revert_lem, later, commit-Ends,
  open_latest, number_of_best, change_Ends,
}
use fudge.Builder.Core.State.{
  open_state, mutate_normal, mutate_genesis, mutate_latest, with_commit, with_state,
  commit_storage_changes,
}
use fudge.Builder.Core.Heights.{
  Ends, Ends-any, Ends-continue, Standing, Heights, mutate_normal_same,
}

module _ (n : Node) (l : Heights n) where
  -- A commit from where the number of its block is known.
  finish_commit :
      {R : Type 0} (w : n.World) (h : n.Hash) (s : n.State) (exec : Exec n R)
      (op : n.ImportOperation) (b : Builder n) (found : Option ℕ)
      → Standing n w b.world
      → ((i : ℕ) → found ≡ some i → n.best_number w ≡ i)
      → Ends {E = Error n}
          (λ _ _. Unit {0})
          (Fails n l 1 w)
          ((do
            i ← or_throw found (block_number_not_found (hash h))
            (r, op) ← if i == 0 then mutate_genesis n s exec op else mutate_latest n h s exec op
            call n (backend_operation_commit (hash h)) (n.commit_operation op)
            pure r)
            b)
  finish_commit w h s exec op b none st known = inr (refl, st.2)
  finish_commit w h s exec op b (some i) st known =
      Ends-continue (λ _ u. TakenBack n l 1 w u) _ (Fails n l 1 w)
        ((if i == 0 then mutate_genesis n s exec op else mutate_latest n h s exec op) b) _
        (change_Ends n l w i h s exec op b st (known i refl))
        (λ (r, op') u taken.
          Ends-continue (λ _ _. Unit {0}) _ (Fails n l 1 w)
            (call n (backend_operation_commit (hash h)) (n.commit_operation op') u) _
            (commit-Ends n l 1 w (hash h) op' u taken) (λ _ _ _. tt))

  -- A commit on the latest block is not atomic. Over a database that takes back as many blocks as it is asked for,
  -- and whichever error it ends with: where the best block was final, the chain is one block lower, or at genesis
  -- still; where it was not, the chain is as high as before. Only an error of a kind that the revert or a step
  -- before it gives can have left the chain as high as it was all the same: one of the closure, of the update of the
  -- operation or of the final commit has not.
  pub with_state-commit_reverted :
      {R : Type 0} (exec : Exec n R) (b : Builder n)
      → Ends (λ _ _. Unit {0}) (Fails n l 1 b.world) (with_state n commit none exec b)
  unfolding with_state with_commit
  with_state-commit_reverted exec b =
      let w = b.world in
      let F = Fails n l 1 w in
      Ends-continue (λ x u. (u ≡ b) × (x.0 ≡ n.best_hash w)) _ F (open_state n none b) _
        (open_latest n l b)
        (λ (h, s) b₁ (e₁, latest).
          Ends-continue (λ _ u. Standing n w u.world) _ F
            (call n (backend_operation_start (hash h)) n.begin_operation b₁) _
            (call-Standing n l 1 w _ n.begin_operation b₁ (λ _. refl) l.begun
              (rw (e₁) (refl, refl, refl)))
            (λ op₁ b₂ st₂.
              Ends-continue (λ _ u. Standing n w u.world) _ F
                (call n (backend_state_operation_start (hash h)) (n.begin_state_operation h op₁) b₂)
                _
                (call-Standing n l 1 w _ (n.begin_state_operation h op₁) b₂ (λ _. refl)
                  (l.state_begun h op₁) st₂)
                (λ op₂ b₃ st₃.
                  Ends-continue
                    (λ found u. (u ≡ b₃) × ((i : ℕ) → found ≡ some i → n.best_number w ≡ i)) _ F
                    (read n (block_number_retrieval (hash h)) (n.block_number_from_id (hash h)) b₃)
                    _ (number_of_best n l w h b₃ st₃ latest)
                    (λ found b₄ (e₄, known).
                      finish_commit w h s exec op₂ b₄ found (rw (e₄) st₃) known))))

  -- The builder once the operation on the backend has been started.
  abbrev pub started : Builder n → Builder n
  started b = record b { world = (n.begin_operation b.world).1 }

  start_Ends :
      (k : ℕ) (at : BlockId n.Hash) (b : Builder n)
      → Ends
          (λ _ u. u ≡ started b)
          (Fails n l k b.world)
          (call n (backend_operation_start at) n.begin_operation b)
  start_Ends k at b =
      let r = n.begin_operation b.world in
      call-Ends n l (λ w'. w' ≡ r.1) (λ _ w'. w' ≡ r.1) (λ u. u ≡ started b) (Fails n l k b.world)
        (backend_operation_start at) b r
        (Ends-any (λ _ w'. w' ≡ r.1) (λ _ w'. w' ≡ r.1) r (λ _. refl) (λ _. refl))
        (λ w' e. ap (λ w. record b { world = w }) e)
        (λ x w' e. inr (refl, ap n.best_number e ∙ (l.begun b.world).2))

  -- From the header of the block that is written to.
  rewrite_Ends :
      (w : n.World) (changes : Changes n) (at : BlockId n.Hash) (header : n.Header)
      (op : n.ImportOperation) (b : Builder n)
      → Standing n w b.world
      → Ends
          (λ _ _. Unit {0})
          (Fails n l (n.number_of header) w)
          ((do
            op ←
                call n
                  (backend_state_operation_start at)
                  (n.begin_state_operation (n.hash_of header) op)
            check_best_hash_and_revert n (n.number_of header)
            op ← mutate_normal n changes at op
            call n (backend_operation_commit at) (n.commit_operation op))
            b)
  rewrite_Ends w changes at header op b st =
      let k = n.number_of header in
      Ends-continue (λ _ u. Standing n w u.world) _ (Fails n l k w)
        (call n (backend_state_operation_start at) (n.begin_state_operation (n.hash_of header) op)
          b)
        _
        (call-Standing n l k w _ (n.begin_state_operation (n.hash_of header) op) b (λ _. refl)
          (l.state_begun (n.hash_of header) op) st)
        (λ op₁ b₁ st₁.
          Ends-continue (λ _ u. TakenBack n l k w u) _ (Fails n l k w)
            (check_best_hash_and_revert n k b₁) _ (check_best_hash_and_revert_lem n l k w b₁ st₁)
            (λ _ b₂ taken.
              later n l k w b₂ _ (mutate_normal n changes at op₁ b₂) _ taken
                (mutate_normal_same n changes at op₁ b₂)
                (λ op₂. commit-Ends n l k w at op₂ b₂ taken)))

  -- Over a database that takes back as many blocks as it is asked for, where the header of the block that is written
  -- to is found, and whichever error `commit_storage_changes` ends with: where the best block was final, the chain is
  -- lower by the number in that header, or at genesis where this is less; where it was not, the chain is as high as
  -- before. Only an error of a kind that the revert or a step before it gives can have left the chain as high as it
  -- was all the same.
  pub commit_storage_changes_reverts :
      (changes : Changes n) (at : BlockId n.Hash) (b : Builder n) (header : n.Header)
      → get_block_header n at (started b) ≡ (ok header, started b)
      → Ends
          (λ _ _. Unit {0})
          (Fails n l (n.number_of header) b.world)
          (commit_storage_changes n changes at b)
  unfolding commit_storage_changes
  commit_storage_changes_reverts changes at b header heads =
      Ends-continue (λ _ u. u ≡ started b) _ (Fails n l (n.number_of header) b.world)
        (call n (backend_operation_start at) n.begin_operation b) _
        (start_Ends (n.number_of header) at b)
        (λ op₁ b₁ e₁.
          rw (e₁, heads) (rewrite_Ends b.world changes at header op₁ (started b) (l.begun b.world)))
