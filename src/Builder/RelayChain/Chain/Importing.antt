-- ===== src/Builder/RelayChain/Chain/Importing.antt =====
-- What the relay chain's import of a block leaves.
use fudge.Prelude.{
  none, some, [], ◌∷◌, ◌++◌, ◌≡◌, refl, ap, ◌∙◌, ◌>>◌, Leaves, Leaves-weaken, Leaves-any,
  Leaves-continue,
}
use fudge.Node.{Node}
use fudge.Builder.Core.Blocks
use fudge.Builder.Parachain.{Primitives}
use fudge.Builder.RelayChain.{on_core, RuntimeTypes, Runtime, RelaychainBuilder}
use fudge.Builder.RelayChain.Collations.{force_enact_collations, collect_collations}
use fudge.Builder.RelayChain.Collations.Keeping.{
  Kept, Collecting, force_enact_collations-Kept, collect_collations-Collecting,
}
use fudge.Builder.RelayChain.Chain.{block_params, import_block}

module _ {t : Primitives} {n : Node} {G : Type 0} where
  -- A builder without its next block, with one more block imported.
  abbrev pub with_import :
      n.Block × n.StorageProof → RelaychainBuilder t n G → RelaychainBuilder t n G
  with_import b s = record s { next = none; imports = s.imports ++ (b ∷ []) }

  -- What a failed import leaves: there is no next block any more.
  abbrev pub Lost : RelaychainBuilder t n G → RelaychainBuilder t n G → Type 0
  Lost s s' = (s'.next ≡ none) × (s'.parachains ≡ s.parachains)

module _ {t : Primitives} {n : Node} {y : RuntimeTypes} (r : Runtime t n y) {G : Type 0} where
  -- Enacting and collecting, from a builder that has just imported the block.
  after_import :
      (s s₁ : RelaychainBuilder t n G) (h : n.Header)
      → s.next ≡ none
      → Kept s s₁
      → Leaves
          (λ _. Collecting s h)
          (Lost s)
          ((force_enact_collations r >> collect_collations r h) s₁)
  after_import s s₁ h e k =
      Leaves-continue (λ _ s'. Kept s s' × (s'.collations ≡ [])) (λ _. Collecting s h) (Lost s)
        (force_enact_collations r s₁) (λ _. collect_collations r h)
        (Leaves-weaken _ _ (Kept s) (Lost s) (force_enact_collations r s₁)
          (force_enact_collations-Kept r s s₁ k) (λ _ _ p. p) (λ s' p. (p.0 ∙ e, p.2)))
        (λ _ s₂ k₂.
          Leaves-weaken _ _ (Collecting s h) (Lost s) (collect_collations r h s₂)
            (collect_collations-Collecting r h s s₂ (k₂.0, rw (k₂.1) tt)) (λ _ _ p. p)
            (λ s' p. (p.0.0 ∙ e, p.0.2)))

  -- An import of a waiting block leaves no block waiting and the onboarded parachains as before,
  -- however it ends. Where it succeeds, the block with its proof is the last of the imports, and
  -- every collation at hand carries the header of the imported block, no two being of one
  -- parachain.
  pub import_block-Leaves :
      (s : RelaychainBuilder t n G) (b : n.Block × n.StorageProof)
      → s.next ≡ some b
      → Leaves (λ _. Collecting (with_import b s) (n.header_of b.0)) (Lost s) (import_block r s)
  unfolding import_block
  import_block-Leaves s (block, proof) e = rw (e) (
      Leaves-continue
        (λ _ s'. (s'.next ≡ none) × (s'.imports ≡ s.imports) × (s'.parachains ≡ s.parachains)) _
        (Lost s) (on_core (Blocks.import_block n (block_params n block)) (record s { next = none }))
        _
        (Leaves-any _ _
          (on_core (Blocks.import_block n (block_params n block)) (record s { next = none }))
          (λ _. (refl, refl, refl)) (refl, refl))
        (λ _ s₁ k₁.
          after_import (with_import (block, proof) s) _ (n.header_of block) refl
            (k₁.0, ap (λ l. l ++ ((block, proof) ∷ [])) k₁.1, k₁.2)))
