-- ===== src/Builder/Companion/Progress/Importing.antt =====
-- How the relay chain's imports get a waiting block on.
use fudge.Prelude.{
  ℕ, Option-cases, none, some, List, ◌≡◌, refl, ap, sym, ◌∙◌, inl, inr, ◌⊎◌, ◌>>◌, assert, is_none,
  Leaves-Yields, Holds, Holds-then, Holds-Yields, Yields, Yields-any, Yields-continue, Yields-and,
  Yields-weaken,
}
use mathlib.Core.Path.{subst}
use fudge.Node.{Node}
use fudge.Builder.Core.Blocks
use fudge.Builder.Common.{propose_block}
use fudge.Builder.Parachain.{Primitives}
use fudge.Builder.Parachain.Chain.{ParachainBuilder}
use fudge.Builder.Parachain.Moves.{Built}
use fudge.Builder.RelayChain.{
  RuntimeTypes, Runtime, CollationBuilder, RelaychainBuilder, on_core, on_builder, casts,
}
use fudge.Builder.RelayChain.Collations.{
  collected_for, collator_of, force_enact_collations, collect_collations,
}
use fudge.Builder.RelayChain.Collations.Approvals.{approvals, Told, force_enact_collations-Told}
use fudge.Builder.RelayChain.Chain.{block_params, build_block, import_block}
use fudge.Builder.RelayChain.Chain.Outside.{
  AllKeep, Out, import_block-Out, force_enact_collations-Out, collect_collations-Out,
}
use fudge.Builder.Companion.Generated.{Member, member_collator}
use fudge.Builder.Companion.Progress.{Waiting, Approved, Due}
use fudge.Builder.Companion.Progress.Collating.{Boarded, all_Due, all_Approved, approvals-Approved}
use fudge.Builder.Companion.Progress.Collecting.{Marked, collect_each-Marked}

module _ {t : Primitives} {n : Node} {y : RuntimeTypes} (r : Runtime t n y) {G : Type 0} where
  -- What the relay chain's own part of a call leaves alone.
  abbrev pub Rest : RelaychainBuilder t n G → RelaychainBuilder t n G → Type 0
  Rest s u = (u.outside ≡ s.outside) × (u.parachains ≡ s.parachains) × (u.collations ≡ s.collations)

  pub build_block-Rest : (s : RelaychainBuilder t n G) → Holds (Rest s) (build_block r s)
  unfolding build_block
  build_block-Rest s =
      Holds-then (Rest s) (assert (λ s. is_none s.next) s) _ (refl, refl, refl)
        (λ _ s₁ k₁.
          Holds-then (Rest s) (on_builder (propose_block n (casts n) s.setup) s₁) _ k₁
            (λ b s₂ k₂. k₂))

  -- An import, by its end.
  import_block-end :
      (Q : RelaychainBuilder t n G → Type 0) (s : RelaychainBuilder t n G)
      → ((h : n.Header) (u : RelaychainBuilder t n G)
          → Rest s u
          → Yields (λ _. Q) ((force_enact_collations r >> collect_collations r h) u))
      → Yields (λ _. Q) (import_block r s)
  unfolding import_block
  import_block-end Q s f = elim (Option-cases s.next) [
    | inl none_ ↦ rw none_ tt
    | inr ((block, proof), waits) ↦ rw waits (
        Yields-continue (λ _. Rest s) (λ _. Q)
          (on_core (Blocks.import_block n (block_params n block)) (record s { next = none })) _
          (Yields-any (λ _. Rest s)
            (on_core (Blocks.import_block n (block_params n block)) (record s { next = none }))
            (λ _. (refl, refl, refl)))
          (λ _ s₁ k₁. f (n.header_of block) _ k₁))
  ]

  module _ (m : Member t G) (law : (u : ParachainBuilder m.node) (g : G) → m.get (m.put u g) ≡ u)
      (paras : List (ℕ × CollationBuilder t G)) (boarded : Boarded m paras) (id : ℕ)
      (found : collator_of id paras ≡ some (member_collator m)) (b : Built m.node)
      (done : List (Built m.node)) where
    -- The onboarded parachains, and where the block is.
    abbrev pub At : (ParachainBuilder m.node → Type 0) → RelaychainBuilder t n G → Type 0
    At P s = Out (λ g. P (m.get g)) (λ ps. ps ≡ paras) s

    moved :
        (P : ParachainBuilder m.node → Type 0) (s u : RelaychainBuilder t n G)
        → Rest s u
        → At P s
        → At P u
    moved P s u rest k = (subst (λ g. P (m.get g)) (sym rest.0) k.0, rest.1 ∙ k.1)

    due :
        (ps : List (ℕ × CollationBuilder t G))
        → ps ≡ paras
        → AllKeep (λ g. Due m.node b done (m.get g)) ps
    due ps e =
        subst (AllKeep (λ g. Due m.node b done (m.get g))) (sym e)
          (all_Due m law b done paras boarded id found)

    approving :
        (ps : List (ℕ × CollationBuilder t G))
        → ps ≡ paras
        → AllKeep (λ g. Approved m.node b done (m.get g)) ps
    approving ps e =
        subst (AllKeep (λ g. Approved m.node b done (m.get g))) (sym e)
          (all_Approved m law b done paras boarded id found)

    -- It is approved, or waits and has been collated.
    abbrev pub Halfway : RelaychainBuilder t n G → Type 0
    Halfway s =
        (Approved m.node b done (m.get s.outside) ⊎ Marked r m law b done id s)
        × (s.parachains ≡ paras)

    collects-Approved :
        (h : n.Header) (s : RelaychainBuilder t n G)
        → At (Approved m.node b done) s
        → Yields (λ _. At (Approved m.node b done)) (collect_collations r h s)
    collects-Approved h s k =
        Holds-Yields (At (Approved m.node b done)) (collect_collations r h s) (
          collect_collations-Out r (λ g. Approved m.node b done (m.get g)) (λ ps. ps ≡ paras)
            approving h s k)

    collects :
        (h : n.Header) (s : RelaychainBuilder t n G)
        → At (Due m.node b done) s
        → Yields (λ _. Halfway) (collect_collations r h s)
    unfolding collect_collations
    collects h s (inr a, e) =
        Yields-weaken (λ _. At (Approved m.node b done)) (λ _. Halfway) (collect_collations r h s)
          (collects-Approved h s (a, e)) (λ _ s₁ k. (inl k.0, k.1))
    collects h s (inl w, e) =
        Yields-weaken (λ _ u. Marked r m law b done id u × At (Due m.node b done) u) (λ _. Halfway)
          (collect_collations r h s)
          (Yields-and (λ _. Marked r m law b done id) (λ _. At (Due m.node b done))
            (collect_collations r h s)
            (collect_each-Marked r m law b done id _ h s.parachains s
              (subst (Boarded m) (sym e) boarded) (ap (λ ps. collator_of id ps) e ∙ found) w)
            (Holds-Yields (At (Due m.node b done)) (collect_collations r h s) (
              collect_collations-Out r (λ g. Due m.node b done (m.get g)) (λ ps. ps ≡ paras) due h s
                (inl w, e))))
          (λ _ u k. (inr k.0, k.1.1))

    -- The first import after the block was built.
    pub import_block-Halfway :
        (s : RelaychainBuilder t n G)
        → At (Due m.node b done) s
        → Yields (λ _. Halfway) (import_block r s)
    import_block-Halfway s k = import_block-end Halfway s (λ h u rest.
        Yields-continue (λ _. At (Due m.node b done)) (λ _. Halfway) (force_enact_collations r u) _
          (Holds-Yields (At (Due m.node b done)) (force_enact_collations r u) (
            force_enact_collations-Out r (λ g. Due m.node b done (m.get g)) (λ ps. ps ≡ paras) due u
              (moved (Due m.node b done) s u rest k)))
          (λ _ s₁ k₁. collects h s₁ k₁))

    -- Enacting the collations that have been collected.
    enacts :
        (u : RelaychainBuilder t n G)
        → Marked r m law b done id u
        → u.parachains ≡ paras
        → Yields (λ _. At (Approved m.node b done)) (force_enact_collations r u)
    enacts u marked e =
        Yields-weaken
          (λ _ v.
            (v.outside ≡ approvals u.parachains u.collations u.outside) × At (Due m.node b done) v)
          (λ _. At (Approved m.node b done)) (force_enact_collations r u)
          (Yields-and (λ _ v. v.outside ≡ approvals u.parachains u.collations u.outside)
            (λ _. At (Due m.node b done)) (force_enact_collations r u)
            (Leaves-Yields _ (Told u.parachains u.collations u.outside) (force_enact_collations r u)
              (force_enact_collations-Told r u))
            (Holds-Yields (At (Due m.node b done)) (force_enact_collations r u) (
              force_enact_collations-Out r (λ g. Due m.node b done (m.get g)) (λ ps. ps ≡ paras) due
                u (inl marked.0, e))))
          (λ _ v k. (
            subst (λ g. Approved m.node b done (m.get g))
                (sym (k.0 ∙ ap (λ ps. approvals ps u.collations u.outside) e))
                (approvals-Approved m law b done paras boarded id found u.collations u.outside
                  (inl marked.0) (λ _. marked.1)),
            k.1.1,
          ))

    -- The second one.
    pub import_block-Approved :
        (s : RelaychainBuilder t n G)
        → Halfway s
        → Yields (λ _. At (Approved m.node b done)) (import_block r s)
    import_block-Approved s (inl a, e) =
        Holds-Yields (At (Approved m.node b done)) (import_block r s) (
          import_block-Out r (λ g. Approved m.node b done (m.get g)) (λ ps. ps ≡ paras) approving s
            (a, e))
    import_block-Approved s (inr marked, e) =
        import_block-end (At (Approved m.node b done)) s (λ h u rest.
          Yields-continue (λ _. At (Approved m.node b done)) (λ _. At (Approved m.node b done))
            (force_enact_collations r u) _
            (enacts u
              (
                subst (λ g. Waiting m.node b done (m.get g)) (sym rest.0) marked.0,
                ap (λ cs. collected_for id cs) rest.2 ∙ marked.1,
              )
              (rest.1 ∙ e))
            (λ _ s₁ k₁. collects-Approved h s₁ k₁))
