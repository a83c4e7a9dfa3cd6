-- ===== src/Builder/Core/Taking.antt =====
-- The steps by which changes are written back, by how high they leave the chain.
use mathlib.Core.Path.{subst}
use fudge.Prelude.{
  ℕ, ◌==◌, ==_iff, true, ◌-◌, Option, none, some, Result, ok, err, panic, InnerError, Action,
  continue, recast, ◌≡◌, refl, sym, ap, ◌∙◌, ◌⊎◌, inl, inr, Bool-cases, if◌then◌else◌,
}
use fudge.Node.{Node, BlockId, hash, Exec}
use fudge.Builder.Core.{
  Error, Builder, call, read, check_best_hash_and_revert, backend_operation_reversal,
  backend_operation_commit, state_not_available, block_number_retrieval,
}
use fudge.Builder.Core.State.{
  open_state, execute_for_changes, mutate_normal, mutate_genesis, mutate_latest,
}
use fudge.Builder.Core.Heights.{
  Ends, Ends-any, Ends-continue, Standing, Heights, height_without, early, execute_for_changes_same,
  mutate_normal_same, mutate_genesis_same,
}

module _ (n : Node) (l : Heights n) where
  -- So many blocks have been taken back, where the best one was final.
  abbrev pub TakenBack : ℕ → n.World → Builder n → Type 0
  TakenBack k w u = n.best_number u.world ≡ height_without n k w

  -- What an error leaves: the chain with so many blocks taken back, or an error of an early step and the chain
  -- as high as it was.
  abbrev pub Fails : ℕ → n.World → Error n → Builder n → Type 0
  Fails k w e u = TakenBack k w u ⊎ ((early n e ≡ true) × (n.best_number u.world ≡ n.best_number w))

  Standing-height :
      (k : ℕ) (w w' : n.World) → Standing n w w' → height_without n k w' ≡ height_without n k w
  Standing-height k w w' (h, f, i) = rw (h, f, i) refl

  Standing-trans : (w w₁ w₂ : n.World) → Standing n w w₁ → Standing n w₁ w₂ → Standing n w w₂
  Standing-trans w w₁ w₂ (h, f, i) (h', f', i') = (h' ∙ h, f' ∙ f, i' ∙ i)

  -- A call of the node, by what it leaves of the world.
  pub call-Ends :
      {A : Type 0} (Q : n.World → Type 0) (P : InnerError → n.World → Type 0)
      (Q' : Builder n → Type 0) (F : Error n → Builder n → Type 0) (cast : InnerError → Error n)
      (b : Builder n) (r : Result InnerError A × n.World)
      → Ends (λ _ w. Q w) P r
      → ((w : n.World) → Q w → Q' (record b { world = w }))
      → ((x : InnerError) (w : n.World) → P x w → F (cast x) (record b { world = w }))
      → Ends (λ _ u. Q' u) F (recast cast r.0, record b { world = r.1 })
  call-Ends Q P Q' F cast b (ok a, w) e g f = g w e
  call-Ends Q P Q' F cast b (err x, w) e g f = f x w e
  call-Ends Q P Q' F cast b (panic, w) e g f = tt

  -- A call that leaves the chain standing, before the revert.
  pub call-Standing :
      {A : Type 0} (k : ℕ) (w : n.World) (cast : InnerError → Error n)
      (m : Action n.World InnerError A) (b : Builder n)
      → ((x : InnerError) → early n (cast x) ≡ true)
      → ((w : n.World) → Standing n w (m w).1)
      → Standing n w b.world
      → Ends (λ _ u. Standing n w u.world) (Fails k w) (call n cast m b)
  call-Standing k w cast m b is_early stands st =
      let st' = Standing-trans w b.world (m b.world).1 st (stands b.world) in
      call-Ends (Standing n w) (λ _ w'. Standing n w w') (λ u. Standing n w u.world) (Fails k w)
        cast b (m b.world)
        (Ends-any (λ _ w'. Standing n w w') (λ _ w'. Standing n w w') (m b.world) (λ _. st')
          (λ _. st'))
        (λ w' st. st) (λ x w' st. inr (is_early x, st.2))

  pub check_best_hash_and_revert_lem :
      (k : ℕ) (w : n.World) (b : Builder n)
      → Standing n w b.world
      → Ends (λ _ u. TakenBack k w u) (Fails k w) (check_best_hash_and_revert n k b)
  unfolding check_best_hash_and_revert
  check_best_hash_and_revert_lem k w b st =
      elim (Bool-cases (n.hash_eq (n.best_hash b.world) (n.finalized_hash b.world))) [
        | inl final_ ↦
            let taken : height_without n k b.world ≡ n.best_number b.world - k = rw (final_) refl in
            rw (final_) (
              call-Ends (λ w'. n.best_number w' ≡ n.best_number b.world - k)
                (λ _ w'. n.best_number w' ≡ n.best_number b.world) (TakenBack k w) (Fails k w)
                backend_operation_reversal b (n.revert k true b.world) (l.reverted k b.world)
                (λ w' e. e ∙ sym taken ∙ Standing-height k w b.world st)
                (λ x w' e. inr (refl, e ∙ st.2)))
        | inr open_ ↦
            let kept : height_without n k b.world ≡ n.best_number b.world = rw (open_) refl in
            rw (open_) (sym kept ∙ Standing-height k w b.world st)
      ]

  -- A step that leaves the builder, once the blocks have been taken back.
  pub later :
      {A B : Type 0} (k : ℕ) (w : n.World) (b : Builder n) (Q : B → Builder n → Type 0)
      (m : Result (Error n) A × Builder n) (f : A → Action (Builder n) (Error n) B)
      → TakenBack k w b
      → m.1 ≡ b
      → ((a : A) → Ends Q (Fails k w) (f a b))
      → Ends Q (Fails k w) (continue f m)
  later k w b Q m f taken same g =
      Ends-continue (λ _ u. u ≡ b) Q (Fails k w) m f
        (Ends-any (λ _ u. u ≡ b) (Fails k w) m (λ _. same)
          (λ _. inl (ap (λ u. n.best_number u.world) same ∙ taken)))
        (λ a u e. subst (λ u. Ends Q (Fails k w) (f a u)) (sym e) (g a))

  -- The end of both ways to write: the operation is committed.
  pub commit-Ends :
      (k : ℕ) (w : n.World) (at : BlockId n.Hash) (op : n.ImportOperation) (b : Builder n)
      → TakenBack k w b
      → Ends
          (λ _ _. Unit {0})
          (Fails k w)
          (call n (backend_operation_commit at) (n.commit_operation op) b)
  commit-Ends k w at op b taken =
      call-Ends (λ _. Unit {0}) (λ _ w'. n.best_number w' ≡ n.best_number b.world) (λ _. Unit {0})
        (Fails k w) (backend_operation_commit at) b (n.commit_operation op b.world)
        (l.refused op b.world) (λ _ _. tt) (λ x w' e. inl (e ∙ taken))

  mutate_latest-Ends :
      {R : Type 0} (w : n.World) (h : n.Hash) (s : n.State) (exec : Exec n R)
      (op : n.ImportOperation) (b : Builder n)
      → Standing n w b.world
      → Ends (λ _ u. TakenBack 1 w u) (Fails 1 w) (mutate_latest n h s exec op b)
  mutate_latest-Ends w h s exec op b st =
      Ends-continue (λ _ u. TakenBack 1 w u) _ (Fails 1 w) (check_best_hash_and_revert n 1 b) _
        (check_best_hash_and_revert_lem 1 w b st)
        (λ _ u taken.
          later 1 w u _ (execute_for_changes n (some (hash h)) s exec u) _ taken
            (execute_for_changes_same n (some (hash h)) s exec u)
            (λ (r, c).
              later 1 w u _ (mutate_normal n c (hash h) op u) _ taken
                (mutate_normal_same n c (hash h) op u) (λ _. taken)))

  -- At genesis there is nothing to take back.
  mutate_genesis-Ends :
      {R : Type 0} (w : n.World) (s : n.State) (exec : Exec n R) (op : n.ImportOperation)
      (b : Builder n)
      → TakenBack 1 w b
      → Ends (λ _ u. TakenBack 1 w u) (Fails 1 w) (mutate_genesis n s exec op b)
  mutate_genesis-Ends w s exec op b taken =
      Ends-any (λ _ u. TakenBack 1 w u) (Fails 1 w) (mutate_genesis n s exec op b)
        (λ _. ap (λ u. n.best_number u.world) (mutate_genesis_same n s exec op b) ∙ taken)
        (λ _. inl (ap (λ u. n.best_number u.world) (mutate_genesis_same n s exec op b) ∙ taken))

  pub open_latest :
      (b : Builder n)
      → Ends (λ x u. (u ≡ b) × (x.0 ≡ n.best_hash b.world)) (Fails 1 b.world) (open_state n none b)
  unfolding open_state
  open_latest b = after (n.state_at (n.best_hash b.world) b.world)
    where
      after :
          (r : Result InnerError n.State)
          → Ends {A = n.Hash × n.State}
              (λ x u. (u ≡ b) × (x.0 ≡ n.best_hash b.world))
              (Fails 1 b.world)
              (continue
                (λ s u. (ok (n.best_hash b.world, s), u))
                (recast (state_not_available (hash (n.best_hash b.world))) r, b))
      after (ok s) = (refl, refl)
      after (err x) = inr (refl, refl)
      after panic = tt

  -- The number that the database knows of the best block is its height.
  pub number_of_best :
      (w : n.World) (h : n.Hash) (b : Builder n)
      → Standing n w b.world
      → h ≡ n.best_hash w
      → Ends
          (λ found u. (u ≡ b) × ((i : ℕ) → found ≡ some i → n.best_number w ≡ i))
          (Fails 1 w)
          (read n (block_number_retrieval (hash h)) (n.block_number_from_id (hash h)) b)
  number_of_best w h b st latest = after (n.block_number_from_id (hash h) b.world) refl
    where
      after :
          (r : Result InnerError (Option ℕ))
          → n.block_number_from_id (hash h) b.world ≡ r
          → Ends
              (λ found u. (u ≡ b) × ((i : ℕ) → found ≡ some i → n.best_number w ≡ i))
              (Fails 1 w)
              (recast (block_number_retrieval (hash h)) r, b)
      after (ok found) q = (
        refl,
        λ i e.
            sym st.2
            ∙ l.numbered b.world i (
                ap (λ h. n.block_number_from_id (hash h) b.world) (st.0 ∙ sym latest)
                ∙ q
                ∙ ap ok e),
      )
      after (err x) q = inr (refl, st.2)
      after panic q = tt

  genesis_TakenBack :
      (w : n.World) (b : Builder n) → Standing n w b.world → n.best_number w ≡ 0 → TakenBack 1 w b
  genesis_TakenBack w b st zero_ =
      elim (Bool-cases (n.hash_eq (n.best_hash w) (n.finalized_hash w))) [
        | inl q ↦ rw (q, st.2, zero_) refl
        | inr q ↦ rw (q, st.2) refl
      ]

  pub change_Ends :
      {R : Type 0} (w : n.World) (i : ℕ) (h : n.Hash) (s : n.State) (exec : Exec n R)
      (op : n.ImportOperation) (b : Builder n)
      → Standing n w b.world
      → n.best_number w ≡ i
      → Ends
          (λ _ u. TakenBack 1 w u)
          (Fails 1 w)
          ((if i == 0 then mutate_genesis n s exec op else mutate_latest n h s exec op) b)
  change_Ends w i h s exec op b st e = elim (Bool-cases (i == 0)) [
    | inl q ↦
        rw (q) (mutate_genesis-Ends w s exec op b (genesis_TakenBack w b st (e ∙ (==_iff i 0).0 q)))
    | inr q ↦ rw (q) (mutate_latest-Ends w h s exec op b st)
  ]
