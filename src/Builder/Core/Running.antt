-- ===== src/Builder/Core/Running.antt =====
-- The steps of a commit, over such a database: running the closure, and updating the operation.
use mathlib.Core.Path.{subst}
use fudge.Prelude.{Option, some, ok, ◌≡◌, Option-cases, refl, ap, sym, ◌∙◌, arith, inl, inr}
use fudge.Node.{Node, BlockId, Exec, Changes}
use fudge.Provider.Externalities.{execute_with_mut}
use fudge.Builder.Core.{
  Builder, read, get_block_header, state_retrieval, block_indexed_body_retrieval,
  justifications_retrieval,
}
use fudge.Builder.Core.State.{run_ext, state_version, execute_for_changes, update_op, mutate_normal}
use fudge.Builder.Core.Database.{Database, anything, Gives, Gives-recast, Result-cases, bind-Gives}

module _ {n : Node} {V : Type 0} (d : Database n V) where
  open d use {view}

  -- The closure ran over the state, returned the value, and left the storage reading so.
  pub record Ran {R : Type 0} (exec : Exec n R) (s : n.State) (r : R) (v : V) : Type 0 where
    pub world : n.World
    pub version : n.StateVersion
    pub after : n.Overlay
    pub closed : n.Overlay
    pub ran :
        exec world s (n.storage_start_transaction (n.storage_root s version n.overlay_default))
        ≡ (some r, after)
    pub closes : n.storage_commit_transaction after ≡ ok closed
    pub reads : v ≡ view s closed

  pub update_op_lem :
      (at : Option (BlockId n.Hash)) (c : Changes n) (v : V) (op : n.ImportOperation)
      (b : Builder n)
      → d.Makes c v
      → Gives (λ op'. d.Carries op' c.root v) (update_op n at c op b)
  unfolding update_op
  update_op_lem at c v op b m =
      bind-Gives (λ o. d.Carries o c.root v) (λ o. d.Carries o c.root v) _ _
        (Gives-recast (λ o. d.Carries o c.root v) _ (n.update_db_storage c.tx op) b
          (λ o e. d.put_changes c v op o m e))
        (λ o₁ b₁ k₁.
          bind-Gives (λ o. d.Carries o c.root v) (λ o. d.Carries o c.root v) _ _
            (Gives-recast (λ o. d.Carries o c.root v) _ (n.update_storage c.main_sc c.child_sc o₁)
              b₁ (λ o e. d.keep_storage c c.root v o₁ o k₁ e))
            (λ o₂ b₂ k₂.
              Gives-recast (λ o. d.Carries o c.root v) _ (n.update_transaction_index c.tx_index o₂)
                b₂ (λ o e. d.keep_index c c.root v o₂ o k₂ e)))

  start : n.State → n.StateVersion → n.Overlay
  start s version = n.storage_start_transaction (n.storage_root s version n.overlay_default)

  run_ext_lem :
      {R : Type 0} (exec : Exec n R) (s : n.State) (w : n.World) (version : n.StateVersion)
      (x : R × Changes n)
      → run_ext n s (execute_with_mut n (exec w) version) ≡ ok x
      → (v : V) × Ran exec s x.0 v × d.Makes x.1 v
  unfolding execute_with_mut
  run_ext_lem exec s w version (r, c) e =
      let o : n.Overlay =
        n.storage_start_transaction (n.storage_root s version n.overlay_default) in
      elim (Option-cases (exec w s o).0) [
        | inl q ↦ absurd (ground (arith, q, e))
        | inr (r', q) ↦ elim (Result-cases (n.storage_commit_transaction (exec w s o).1)) [
          | inl q₂ ↦ absurd (ground (arith, q, q₂, e))
          | inr (inl (x, q₂)) ↦ absurd (ground (arith, q, q₂, e))
          | inr (inr (o₂, q₂)) ↦ elim (Result-cases (n.drain_storage_changes s version o₂)) [
            | inl q₃ ↦ absurd (ground (arith, q, q₂, q₃, e))
            | inr (inl (x, q₃)) ↦ absurd (ground (arith, q, q₂, q₃, e))
            | inr (inr ((c', o'), q₃)) ↦
                let same_r : r' ≡ r = ground (arith, q, q₂, q₃, e) in
                let same_c : c' ≡ c = ground (arith, q, q₂, q₃, e) in
                (
                  view s o₂,
                  record {
                    world = w;
                    version = version;
                    after = (exec w s o).1;
                    closed = o₂;
                    ran = ap (λ z. (z, (exec w s o).1)) (q ∙ ap some same_r);
                    closes = q₂;
                    reads = refl;
                  },
                  subst (λ c. d.Makes c (view s o₂)) same_c (d.drained s version o₂ o' c' q₃),
                )
          ]
        ]
      ]

  pub execute_for_changes_lem :
      {R : Type 0} (at : Option (BlockId n.Hash)) (s : n.State) (exec : Exec n R) (b : Builder n)
      → Gives (λ x. (v : V) × Ran exec s x.0 v × d.Makes x.1 v) (execute_for_changes n at s exec b)
  unfolding execute_for_changes
  execute_for_changes_lem at s exec b =
      bind-Gives (λ _. Unit {0}) (λ x. (v : V) × Ran exec s x.0 v × d.Makes x.1 v)
        (state_version n b) _ (anything (state_version n b))
        (λ version b₁ _.
          Gives-recast (λ x. (v : V) × Ran exec s x.0 v × d.Makes x.1 v) _
            (run_ext n s (execute_with_mut n (exec b₁.world) version)) b₁
            (λ x e. run_ext_lem exec s b₁.world version x e))

  pub mutate_normal_lem :
      (c : Changes n) (v : V) (at : BlockId n.Hash) (op : n.ImportOperation) (b : Builder n)
      → d.Makes c v
      → Gives (λ op'. d.Sealed op' v) (mutate_normal n c at op b)
  unfolding mutate_normal
  mutate_normal_lem c v at op b m =
      let Q = λ (op' : n.ImportOperation). d.Sealed op' v in
      bind-Gives (λ _. Unit {0}) Q (get_block_header n at b) _ (anything (get_block_header n at b))
        (λ header b₁ _.
          bind-Gives (λ o. d.Carries o c.root v) Q (update_op n (some at) c op b₁) _
            (update_op_lem (some at) c v op b₁ m)
            (λ op₂ b₂ k.
              bind-Gives (λ _. Unit {0}) Q _ _
                (anything (read n (state_retrieval at) (n.body_at (n.hash_of header)) b₂))
                (λ body b₃ _.
                  bind-Gives (λ _. Unit {0}) Q _ _
                    (anything (
                      read n (block_indexed_body_retrieval at)
                        (n.block_indexed_body (n.hash_of header)) b₃))
                    (λ indexed b₄ _.
                      bind-Gives (λ _. Unit {0}) Q _ _
                        (anything (
                          read n (justifications_retrieval at) (n.justifications (n.hash_of header))
                            b₄))
                        (λ just b₅ _. Gives-recast Q _ _ b₅ (λ op' e.
                          d.seal _ body indexed just v op₂ op'
                            (subst (λ r. d.Carries op₂ r v) (sym (d.root-set c.root header)) k)
                            e))))))
