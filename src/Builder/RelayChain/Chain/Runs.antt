-- ===== src/Builder/RelayChain/Chain/Runs.antt =====
-- What the calls of the relay chain's builder leave of the collations at hand.
use mathlib.Core.Path.{subst}
use fudge.Prelude.{
  ℕ, ◌==◌, ◌>>◌, Bool-cases, Option-cases, false, Option, none, some, List, [], ◌∷◌, ◌++◌, ◌≡◌,
  refl, sym, ◌⊎◌, inl, inr, arith, All, All-map, All-snoc, lift, or_throw, Holds, Holds-continue,
  Holds-then, Leaves-weaken,
}
use fudge.Node.{Node}
use fudge.Builder.Core.Blocks
use fudge.Builder.Parachain.{Primitives, Collation}
use fudge.Builder.Parachain.Collator.{approved}
use fudge.Builder.RelayChain.{
  on_core, on_outside, parachain_collation, parachain_judge_error, parachain_not_onboarded,
  RuntimeTypes, Runtime, CollationBuilder, Collected, RelaychainBuilder,
}
use fudge.Builder.RelayChain.Collations.{
  collator_of, collected_for, keep_collation, with_mut_state, collect_each, enact_each,
  validation_data, force_enact_collations, collect_collations,
}
use fudge.Builder.RelayChain.Collations.Keeping.{
  collected_for-append, or_throw_lem, validation_data_lem, with_mut_state_lem,
}
use fudge.Builder.RelayChain.Chain.{block_params, import_block}

module _ {t : Primitives} {G : Type 0} where
  -- There is a collator on board under the id.
  abbrev pub IsOnBoard : List (ℕ × CollationBuilder t G) → ℕ → Type 0
  IsOnBoard ps id = (p : CollationBuilder t G) × (collator_of id ps ≡ some p)

  collator_of-append :
      (id : ℕ) (ps qs : List (ℕ × CollationBuilder t G)) (p : CollationBuilder t G)
      → collator_of id ps ≡ some p
      → collator_of id (ps ++ qs) ≡ some p
  unfolding collator_of
  collator_of-append id [] qs p e = cc
  collator_of-append id ((i, x) ∷ ps) qs p e = ground (arith, e, collator_of-append id ps qs p)

  IsOnBoard-next :
      (i id : ℕ) (q : CollationBuilder t G) (ps : List (ℕ × CollationBuilder t G))
      → IsOnBoard ps id
      → IsOnBoard ((i, q) ∷ ps) id
  unfolding collator_of
  IsOnBoard-next i id q ps (p, e) = elim (Bool-cases (i == id)) [
    | inl same ↦ (q, rw (same) refl)
    | inr other ↦ (p, rw (other) e)
  ]

  All-IsOnBoard : (ps : List (ℕ × CollationBuilder t G)) → All (λ x. IsOnBoard ps x.0) ps
  unfolding collator_of
  All-IsOnBoard [] = tt
  All-IsOnBoard ((i, q) ∷ ps) =
      ((q, ground arith), All-map _ _ ps (λ x b. IsOnBoard-next i x.0 q ps b) (All-IsOnBoard ps))

module _ (n : Node) where
  -- The header is that of one of the imported blocks.
  abbrev pub IsImported : List (n.Block × n.StorageProof) → n.Header → Type 0
  IsImported [] h = ⊥
  IsImported (b ∷ bs) h = (n.header_of b.0 ≡ h) ⊎ IsImported bs h

  IsImported-append :
      (bs cs : List (n.Block × n.StorageProof)) (h : n.Header)
      → IsImported bs h
      → IsImported (bs ++ cs) h
  IsImported-append [] cs h i = absurd i
  IsImported-append (b ∷ bs) cs h (inl e) = inl e
  IsImported-append (b ∷ bs) cs h (inr i) = inr (IsImported-append bs cs h i)

  IsImported-last :
      (bs : List (n.Block × n.StorageProof)) (b : n.Block × n.StorageProof)
      → IsImported (bs ++ (b ∷ [])) (n.header_of b.0)
  IsImported-last [] b = inl refl
  IsImported-last (c ∷ bs) b = inr (IsImported-last bs b)

module _ {t : Primitives} {n : Node} where
  -- No two collations are of one parachain.
  abbrev pub Distinct : List (Collected t n) → Type 0
  Distinct [] = Unit {0}
  Distinct (c ∷ cs) = (collected_for c.id cs ≡ false) × Distinct cs

  Distinct-snoc :
      (cs : List (Collected t n)) (c : Collected t n)
      → Distinct cs
      → collected_for c.id cs ≡ false
      → Distinct (cs ++ (c ∷ []))
  unfolding collected_for
  Distinct-snoc [] c d q = (refl, tt)
  Distinct-snoc (x ∷ xs) c d q =
      (ground (arith, collected_for-append x.id xs c), Distinct-snoc xs c d.1 (ground arith))

  keep_collation-All :
      (P : Collected t n → Type 0) (id : ℕ) (h : n.Header) (c : Option (Collation t))
      (cs : List (Collected t n))
      → All P cs
      → Distinct cs
      → ((x : Collation t) → P (record { id = id; collation = x; generation_parent = h }))
      → All P (keep_collation id h c cs) × Distinct (keep_collation id h c cs)
  unfolding keep_collation
  keep_collation-All P id h none cs a d p = (a, d)
  keep_collation-All P id h (some x) cs a d p = elim (Bool-cases (collected_for id cs)) [
    | inl q ↦ rw (q) (a, d)
    | inr q ↦ rw (q) (All-snoc P cs _ a (p x), Distinct-snoc cs _ d q)
  ]

module _ {t : Primitives} {n : Node} {G : Type 0} where
  -- Every collation at hand is of one of the parachains and was collected at one of the imports, and no two
  -- are of one parachain.
  abbrev pub Collects :
      List (ℕ × CollationBuilder t G)
      → List (n.Block × n.StorageProof)
      → List (Collected t n)
      → Type 0
  Collects ps bs cs =
      All (λ c. IsOnBoard ps c.id × IsImported n bs c.generation_parent) cs × Distinct cs

  abbrev pub On :
      List (ℕ × CollationBuilder t G)
      → List (n.Block × n.StorageProof)
      → RelaychainBuilder t n G
      → Type 0
  On ps bs s = (s.parachains ≡ ps) × (s.imports ≡ bs) × Collects ps bs s.collations

  abbrev pub IsSound : RelaychainBuilder t n G → Type 0
  IsSound s = Collects s.parachains s.imports s.collations

  On-IsSound :
      (ps : List (ℕ × CollationBuilder t G)) (bs : List (n.Block × n.StorageProof))
      (s : RelaychainBuilder t n G)
      → On ps bs s
      → IsSound s
  On-IsSound ps bs s (e, e', k) =
      subst (λ x. Collects x s.imports s.collations) (sym e)
        (subst (λ x. Collects ps x s.collations) (sym e') k)

  pub Collects-parachains :
      (ps qs : List (ℕ × CollationBuilder t G)) (bs : List (n.Block × n.StorageProof))
      (cs : List (Collected t n))
      → Collects ps bs cs
      → Collects (ps ++ qs) bs cs
  Collects-parachains ps qs bs cs (a, d) =
      (All-map _ _ cs (λ c ((p, e), i). ((p, collator_of-append c.id ps qs p e), i)) a, d)

  Collects-imports :
      (ps : List (ℕ × CollationBuilder t G)) (bs as_ : List (n.Block × n.StorageProof))
      (cs : List (Collected t n))
      → Collects ps bs cs
      → Collects ps (bs ++ as_) cs
  Collects-imports ps bs as_ cs (a, d) =
      (All-map _ _ cs (λ c (b, i). (b, IsImported-append n bs as_ c.generation_parent i)) a, d)

module _ {t : Primitives} {n : Node} {y : RuntimeTypes} (r : Runtime t n y) {G : Type 0}
    (ps : List (ℕ × CollationBuilder t G)) (bs : List (n.Block × n.StorageProof)) where
  collect_each-On :
      (parent : n.Hash) (h : n.Header) (paras : List (ℕ × CollationBuilder t G))
      (s : RelaychainBuilder t n G)
      → IsImported n bs h
      → All (λ x. IsOnBoard ps x.0) paras
      → On ps bs s
      → Holds (On ps bs) (collect_each r parent h paras s)
  unfolding collect_each
  collect_each-On parent h [] s i all_ k = k
  collect_each-On parent h ((id, para) ∷ paras) s i all_ k =
      Holds-continue (On ps bs) (validation_data r parent id s) _
        (validation_data_lem r (On ps bs) parent id s (λ b. k))
        (λ pvd s₁ k₁.
          Holds-then (On ps bs) (on_outside (parachain_collation id) (para.collation pvd) s₁) _ k₁
            (λ c s₂ (e, e', (a, d)).
              collect_each-On parent h paras _ i all_.1
                (e, e', keep_collation-All _ id h c s₂.collations a d (λ x. (all_.0, i)))))

  enact_each-On :
      (parent : n.Hash) (number : ℕ) (cs : List (Collected t n)) (s : RelaychainBuilder t n G)
      → On ps bs s
      → Holds (On ps bs) (enact_each r parent number cs s)
  unfolding enact_each
  enact_each-On parent number [] s k = k
  enact_each-On parent number (c ∷ cs) s k =
      Holds-continue (On ps bs) (validation_data r parent c.id s) _
        (validation_data_lem r (On ps bs) parent c.id s (λ b. k))
        (λ pvd s₁ k₁.
          Holds-continue (On ps bs) (with_mut_state none _ s₁) _
            (with_mut_state_lem r (On ps bs) none _ s₁ k₁ (λ s b k. k))
            (λ e s₂ k₂. Holds-then (On ps bs) (lift e s₂) _ k₂ (λ _ s₃ k₃.
              Holds-continue (On ps bs)
                (or_throw (collator_of c.id s₃.parachains) parachain_not_onboarded s₃) _
                (or_throw_lem r (On ps bs) (collator_of c.id s₃.parachains) parachain_not_onboarded
                  s₃ k₃)
                (λ p s₄ k₄.
                  Holds-then (On ps bs) (on_outside parachain_judge_error (p.judge approved) s₄) _
                    k₄ (λ _ s₅ k₅. enact_each-On parent number cs s₅ k₅)))))

  -- Enacting and then collecting at a header that is imported.
  after_import-On :
      (h : n.Header) (s : RelaychainBuilder t n G)
      → IsImported n bs h
      → On ps bs s
      → Holds (On ps bs) ((force_enact_collations r >> collect_collations r h) s)
  unfolding force_enact_collations collect_collations
  after_import-On h s i k =
      Holds-continue (On ps bs) (force_enact_collations r s) (λ _. collect_collations r h)
        (Holds-continue (On ps bs)
          (enact_each r (n.best_hash s.builder.world) (n.best_number s.builder.world) s.collations
            s)
          _ (enact_each-On _ _ s.collations s k) (λ _ s₁ (e, e', _). (e, e', (tt, tt))))
        (λ _ s₂ k₂.
          collect_each-On (n.best_hash s₂.builder.world) h s₂.parachains s₂ i
            (subst (λ x. All (λ p. IsOnBoard ps p.0) x) (sym k₂.0) (All-IsOnBoard ps)) k₂)

module _ {t : Primitives} {n : Node} {y : RuntimeTypes} (r : Runtime t n y) {G : Type 0} where
  pub import_block-IsSound :
      (s : RelaychainBuilder t n G) → IsSound s → Holds IsSound (import_block r s)
  unfolding import_block
  import_block-IsSound s k = elim (Option-cases s.next) [
    | inl none_ ↦ rw none_ k
    | inr ((block, proof), waits) ↦ rw waits (
        Holds-then IsSound
          (on_core (Blocks.import_block n (block_params n block)) (record s { next = none })) _ k
          (λ _ s₁ k₁.
            let bs = s₁.imports ++ ((block, proof) ∷ []) in
            let P = On s₁.parachains bs in
            Leaves-weaken (λ _. P) (λ _. IsSound) P IsSound
              ((force_enact_collations r >> collect_collations r (n.header_of block))
                (record s₁ { imports = bs }))
              (after_import-On r s₁.parachains bs (n.header_of block) (record s₁ { imports = bs })
                (IsImported-last n s₁.imports (block, proof))
                (refl, refl, Collects-imports s₁.parachains s₁.imports _ s₁.collations k₁))
              (λ _ s₂ p. On-IsSound s₁.parachains bs s₂ p)
              (λ s₂ p. On-IsSound s₁.parachains bs s₂ p)))
  ]
