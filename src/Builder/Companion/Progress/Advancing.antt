-- ===== src/Builder/Companion/Progress/Advancing.antt =====
-- What an evolving companion does for each of its parachains.
use fudge.Prelude.{
  ℕ, some, List, ◌≡◌, ap, sym, ◌∙◌, inl, inr, Result, ok, err, panic, recast, ◌>>◌, Holds-Yields,
  Yields, Yields-any, Yields-continue, Yields-recast, Yields-weaken,
}
use mathlib.Core.Path.{subst}
use fudge.Node.{Node}
use fudge.Builder.Parachain
use fudge.Builder.Parachain.{Primitives}
use fudge.Builder.Parachain.Chain.{ParachainBuilder, head, build_block, import_block}
use fudge.Builder.Parachain.Moves.{Built}
use fudge.Builder.Parachain.Reading.{head_same}
use fudge.Builder.RelayChain.{RuntimeTypes, CollationBuilder, RelaychainBuilder}
use fudge.Builder.RelayChain.Collations.{collected_for, collator_of}
use fudge.Builder.RelayChain.Chain as RelayOps
use fudge.Builder.RelayChain.Chain.Outside.{AllKeep, Out}
use fudge.Builder.Companion.Generated.{
  Member, Companion, BuilderError, member_collator, on_para, on_relay, evolve_one,
}
use fudge.Builder.Companion.Using.Rounds.{builds_relay, updates_relay}
use fudge.Builder.Companion.Progress.{
  Waiting, Approved, Imported, build_block-Waiting, import_block-Imported,
}
use fudge.Builder.Companion.Progress.Collating.{Boarded, AllKeep-Boarded}
use fudge.Builder.Companion.Progress.Importing.{
  Rest, At, Halfway, build_block-Rest, import_block-Halfway, import_block-Approved,
}

module _ {t : Primitives} {n : Node} {y : RuntimeTypes} {G : Type 0} (c : Companion t n y G)
    (m : Member t G) (law : (u : ParachainBuilder m.node) (g : G) → m.get (m.put u g) ≡ u)
    (paras : List (ℕ × CollationBuilder t G)) (boarded : Boarded m paras) (id : ℕ)
    (found : collator_of id paras ≡ some (member_collator m)) (done : List (Built m.node)) where
  -- A call of the parachain's builder, by what it leaves of the builder.
  on_para-Yields :
      {A : Type 0} (Q : ParachainBuilder m.node → Type 0) (s : RelaychainBuilder t n G)
      (r : Result (Parachain.Error m.node) A × ParachainBuilder m.node)
      → Yields (λ _. Q) r
      → s.parachains ≡ paras
      → Yields {E = BuilderError}
          (λ _ s'. Q (m.get s'.outside) × (s'.parachains ≡ paras))
          (
            recast (λ e. BuilderError.parachain (m.text e)) r.0,
            record s { outside = m.put r.1 s.outside },
          )
  on_para-Yields Q s (ok a, u) q e = (subst Q (sym (law u s.outside)) q, e)
  on_para-Yields Q s (err x, u) q e = tt
  on_para-Yields Q s (panic, u) q e = tt

  -- So many blocks are imported.
  abbrev Stands : RelaychainBuilder t n G → Type 0
  Stands s = Out (λ g. (m.get g).imports ≡ done) (λ ps. ps ≡ paras) s

  stand :
      (ps : List (ℕ × CollationBuilder t G))
      → ps ≡ paras
      → AllKeep (λ g. (m.get g).imports ≡ done) ps
  stand ps e =
      subst (AllKeep (λ g. (m.get g).imports ≡ done)) (sym e)
        (AllKeep-Boarded m (λ u. u.imports ≡ done) (λ u i. i) paras boarded)

  -- One block more is, and none is under way.
  abbrev pub Advanced : RelaychainBuilder t n G → Type 0
  Advanced s =
      ((b : Built m.node) × Imported m.node b done (m.get s.outside)) × (s.parachains ≡ paras)

  Halfway-Rest :
      (b : Built m.node) (s u : RelaychainBuilder t n G)
      → Rest c.runtime s u
      → Halfway c.runtime m law paras boarded id found b done s
      → Halfway c.runtime m law paras boarded id found b done u
  Halfway-Rest b s u rest (inl a, e) =
      (inl (subst (λ g. Approved m.node b done (m.get g)) (sym rest.0) a), rest.1 ∙ e)
  Halfway-Rest b s u rest (inr k, e) = (
    inr (
      subst (λ g. Waiting m.node b done (m.get g)) (sym rest.0) k.0,
      ap (λ cs. collected_for id cs) rest.2 ∙ k.1,
    ),
    rest.1 ∙ e,
  )

  -- From the parachain's block on.
  second_half :
      (b : Built m.node) (s : RelaychainBuilder t n G)
      → Waiting m.node b done (m.get s.outside) × (s.parachains ≡ paras)
      → Yields
          (λ _. Advanced)
          ((do
            on_relay c (RelayOps.import_block c.runtime)
            on_relay c (RelayOps.build_block c.runtime)
            on_relay c (RelayOps.import_block c.runtime)
            on_para m (import_block m.node))
            s)
  second_half b s (w, e) =
      Yields-continue (λ _. Halfway c.runtime m law paras boarded id found b done) (λ _. Advanced)
        (on_relay c (RelayOps.import_block c.runtime) s) _
        (Yields-recast _ _ (RelayOps.import_block c.runtime s)
          (import_block-Halfway c.runtime m law paras boarded id found b done s (inl w, e)))
        (λ _ s₁ k₁.
          Yields-continue (λ _. Halfway c.runtime m law paras boarded id found b done)
            (λ _. Advanced) (on_relay c (RelayOps.build_block c.runtime) s₁) _
            (Yields-recast _ _ (RelayOps.build_block c.runtime s₁) (
              Yields-weaken (λ _. Rest c.runtime s₁) _ (RelayOps.build_block c.runtime s₁)
                (Holds-Yields (Rest c.runtime s₁) (RelayOps.build_block c.runtime s₁)
                  (build_block-Rest c.runtime s₁))
                (λ _ u rest. Halfway-Rest b s₁ u rest k₁)))
            (λ _ s₂ k₂.
              Yields-continue
                (λ _. At c.runtime m law paras boarded id found b done (Approved m.node b done))
                (λ _. Advanced) (on_relay c (RelayOps.import_block c.runtime) s₂) _
                (Yields-recast _ _ (RelayOps.import_block c.runtime s₂)
                  (import_block-Approved c.runtime m law paras boarded id found b done s₂ k₂))
                (λ _ s₃ k₃.
                  Yields-weaken _ (λ _. Advanced) (on_para m (import_block m.node) s₃)
                    (on_para-Yields (Imported m.node b done) s₃
                      (import_block m.node (m.get s₃.outside))
                      (import_block-Imported m.node b done (m.get s₃.outside) k₃.0) k₃.1)
                    (λ _ s₄ k₄. ((b, k₄.0), k₄.1)))))

  -- The parachain's own block.
  builds_para :
      (s : RelaychainBuilder t n G)
      → Stands s
      → Yields
          (λ _ u.
            (b : Built m.node) × Waiting m.node b done (m.get u.outside) × (u.parachains ≡ paras))
          (on_para m (build_block m.node) s)
  builds_para s k =
      Yields-weaken _ _ (on_para m (build_block m.node) s)
        (on_para-Yields (λ u. (b : Built m.node) × Waiting m.node b done u) s
          (build_block m.node (m.get s.outside))
          (subst
            (λ done.
              Yields (λ _ u. (b : Built m.node) × Waiting m.node b done u)
                (build_block m.node (m.get s.outside)))
            k.0 (build_block-Waiting m.node (m.get s.outside)))
          k.1)
        (λ _ u ((b, w), e). (b, w, e))

  -- Where a round for a parachain that is on board succeeds, one block more is imported there.
  pub evolve_one-Advanced :
      (s : RelaychainBuilder t n G) → Stands s → Yields (λ _. Advanced) (evolve_one c m s)
  unfolding evolve_one
  evolve_one-Advanced s k =
      Yields-continue (λ _. Stands) (λ _. Advanced) (on_para m (head m.node m.cumulus) s) _
        (on_para-Yields (λ u. u.imports ≡ done) s (head m.node m.cumulus (m.get s.outside))
          (Yields-any _ (head m.node m.cumulus (m.get s.outside))
            (λ _. ap (λ u. u.imports) (head_same m.node m.cumulus (m.get s.outside)) ∙ k.0))
          k.1)
        (λ para_head s₁ k₁.
          Yields-continue (λ _. Stands) (λ _. Advanced)
            (on_relay c (RelayOps.update_para_head c.runtime (m.get s₁.outside).id para_head) s₁) _
            (Holds-Yields Stands _ (
              updates_relay c (λ g. (m.get g).imports ≡ done) (λ ps. ps ≡ paras) stand
                (m.get s₁.outside).id para_head s₁ k₁))
            (λ _ s₂ k₂.
              Yields-continue (λ _. Stands) (λ _. Advanced)
                (on_relay c (RelayOps.build_block c.runtime) s₂) _
                (Holds-Yields Stands (on_relay c (RelayOps.build_block c.runtime) s₂)
                  (builds_relay c (λ g. (m.get g).imports ≡ done) (λ ps. ps ≡ paras) stand s₂ k₂))
                (λ _ s₃ k₃.
                  Yields-continue
                    (λ _ u.
                      (b : Built m.node) × Waiting m.node b done (m.get u.outside)
                      × (u.parachains ≡ paras))
                    (λ _. Advanced) (on_para m (build_block m.node) s₃) _ (builds_para s₃ k₃)
                    (λ _ s₄ (b, w, e). second_half b s₄ (w, e)))))
