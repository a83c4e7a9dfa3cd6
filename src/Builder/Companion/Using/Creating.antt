-- ===== src/Builder/Companion/Using/Creating.antt =====
-- What creating a companion leaves of the relay chain.
use fudge.Prelude.{
  ℕ, none, some, List, [], ◌∷◌, ◌++◌, append_assoc, ◌≡◌, refl, sym, ap, ◌∙◌, Leaves-Yields, Yields,
  Yields-any, Yields-continue, Yields-recast, Yields-weaken, assert, is_none, lift,
}
use mathlib.Core.List.{append-nil}
use fudge.Node.{Node}
use fudge.Builder.Common.{propose_block}
use fudge.Builder.Parachain.{Primitives}
use fudge.Builder.Parachain.Chain.{head, code}
use fudge.Builder.RelayChain.{
  RuntimeTypes, Runtime, CollationBuilder, RelaychainBuilder, on_builder, casts,
}
use fudge.Builder.RelayChain.Onboarding.{FudgeParaChain, on_storage, onboard_storage}
use fudge.Builder.RelayChain.Collations.{with_mut_state}
use fudge.Builder.RelayChain.Collations.Keeping.{with_mut_state_lem}
use fudge.Builder.RelayChain.Chain.{onboard_para, build_block, import_block}
use fudge.Builder.RelayChain.Chain.Importing.{import_block-Leaves}
use fudge.Builder.Companion.Generated.{
  Member, Companion, on_para, on_relay, member_collator, onboard, onboard_each, new,
}

module _ {t : Primitives} {n : Node} {G : Type 0} where
  -- The parachains on board, what waits to be imported and what has been.
  abbrev Has :
      List (ℕ × CollationBuilder t G) → RelaychainBuilder t n G → RelaychainBuilder t n G → Type 0
  Has ps s u = (u.parachains ≡ ps) × (u.next ≡ s.next) × (u.imports ≡ s.imports)

module _ {t : Primitives} {G : Type 0} where
  -- The collators of parachains, each under its parachain's id.
  abbrev pub boxed : List (Member t G) → List (ℕ × CollationBuilder t G)
  boxed [] = []
  boxed (m ∷ ms) = (m.id, member_collator m) ∷ boxed ms

module _ {t : Primitives} {n : Node} {y : RuntimeTypes} (r : Runtime t n y) {G : Type 0} where
  onboard_para-Has :
      (para : FudgeParaChain) (collator : CollationBuilder t G)
      (ps : List (ℕ × CollationBuilder t G)) (s u : RelaychainBuilder t n G)
      → Has ps s u
      → Yields (λ _. Has (ps ++ ((para.id, collator) ∷ [])) s) (onboard_para r para collator u)
  unfolding onboard_para
  onboard_para-Has para collator ps s u k =
      Yields-continue (λ _. Has ps s) _
        (with_mut_state none (on_storage n (λ w o. onboard_storage r o para)) u) _
        (Leaves-Yields _ (Has ps s)
          (with_mut_state none (on_storage n (λ w o. onboard_storage r o para)) u)
          (with_mut_state_lem r (Has ps s) none _ u k (λ s b k. k)))
        (λ e s₁ k₁.
          Yields-continue (λ _. Has ps s) _ (lift e s₁) _
            (Yields-any (λ _. Has ps s) (lift e s₁) (λ _. k₁))
            (λ _ s₂ k₂. (ap (λ l. l ++ ((para.id, collator) ∷ [])) k₂.0, k₂.1, k₂.2)))

  build_block-waits :
      (s : RelaychainBuilder t n G)
      → Yields
          (λ _ u.
            (b : n.Block × n.StorageProof) × (u.next ≡ some b)
            × (u.parachains ≡ s.parachains)
            × (u.imports ≡ s.imports))
          (build_block r s)
  unfolding build_block
  build_block-waits s =
      Yields-continue (λ _ u. (u.parachains ≡ s.parachains) × (u.imports ≡ s.imports)) _
        (assert (λ s. is_none s.next) s) _
        (Yields-any _ (assert (λ s. is_none s.next) s) (λ _. (refl, refl)))
        (λ _ s₁ k₁.
          Yields-continue (λ _ u. (u.parachains ≡ s.parachains) × (u.imports ≡ s.imports)) _
            (on_builder (propose_block n (casts n) s.setup) s₁) _
            (Yields-any _ (on_builder (propose_block n (casts n) s.setup) s₁) (λ _. k₁))
            (λ b s₂ k₂. (b, refl, k₂.0, k₂.1)))

module _ {t : Primitives} {n : Node} {y : RuntimeTypes} {G : Type 0} (c : Companion t n y G) where
  onboard-Has :
      (m : Member t G) (ps : List (ℕ × CollationBuilder t G)) (s u : RelaychainBuilder t n G)
      → Has ps s u
      → Yields (λ _. Has (ps ++ ((m.id, member_collator m) ∷ [])) s) (onboard c m u)
  onboard-Has m ps s u k =
      Yields-continue (λ _. Has ps s) _ (on_para m (head m.node m.cumulus) u) _
        (Yields-any (λ _. Has ps s) (on_para m (head m.node m.cumulus) u) (λ _. k))
        (λ head_ s₁ k₁.
          Yields-continue (λ _. Has ps s) _ (on_para m (code m.node) s₁) _
            (Yields-any (λ _. Has ps s) (on_para m (code m.node) s₁) (λ _. k₁))
            (λ code_ s₂ k₂.
              Yields-recast _ _
                (onboard_para c.runtime (record { id = m.id; head = head_; code = code_ })
                  (member_collator m) s₂)
                (onboard_para-Has c.runtime (record { id = m.id; head = head_; code = code_ })
                  (member_collator m) ps s s₂ k₂)))

  onboard_each-Has :
      (ms : List (Member t G)) (ps : List (ℕ × CollationBuilder t G))
      (s u : RelaychainBuilder t n G)
      → Has ps s u
      → Yields (λ _. Has (ps ++ boxed ms) s) (onboard_each c ms u)
  unfolding onboard_each
  onboard_each-Has [] ps s u k = (k.0 ∙ sym (append-nil ps), k.1, k.2)
  onboard_each-Has (m ∷ ms) ps s u k =
      Yields-continue (λ _. Has (ps ++ ((m.id, member_collator m) ∷ [])) s) _ (onboard c m u) _
        (onboard-Has m ps s u k)
        (λ _ s₁ k₁.
          Yields-weaken (λ _. Has ((ps ++ ((m.id, member_collator m) ∷ [])) ++ boxed ms) s) _
            (onboard_each c ms s₁)
            (onboard_each-Has ms (ps ++ ((m.id, member_collator m) ∷ [])) s s₁ k₁)
            (λ _ s₂ k₂.
              (k₂.0 ∙ append_assoc ps ((m.id, member_collator m) ∷ []) (boxed ms), k₂.1, k₂.2)))

  -- Where a companion is created, the relay chain has all its parachains on board, each under the id of its
  -- attribute with its own collator, in their order behind those that were there; it has imported one block more,
  -- and none waits.
  pub new-boxed :
      (s : RelaychainBuilder t n G)
      → Yields
          (λ _ u.
            (b : n.Block × n.StorageProof) × (u.parachains ≡ s.parachains ++ boxed c.members)
            × (u.imports ≡ s.imports ++ (b ∷ []))
            × (u.next ≡ none))
          (new c s)
  unfolding new
  new-boxed s =
      Yields-continue (λ _. Has (s.parachains ++ boxed c.members) s) _ (onboard_each c c.members s)
        _ (onboard_each-Has c.members s.parachains s s (refl, refl, refl))
        (λ _ s₁ k₁.
          Yields-continue
            (λ _ u.
              (b : n.Block × n.StorageProof) × (u.next ≡ some b)
              × (u.parachains ≡ s₁.parachains)
              × (u.imports ≡ s₁.imports))
            _ (on_relay c (build_block c.runtime) s₁) _
            (Yields-recast _ _ (build_block c.runtime s₁) (build_block-waits c.runtime s₁))
            (λ _ s₂ (b, waits, ps, is). Yields-recast _ _ (import_block c.runtime s₂) (
              Yields-weaken _ _ (import_block c.runtime s₂)
                (Leaves-Yields _ _ (import_block c.runtime s₂)
                  (import_block-Leaves c.runtime s₂ b waits))
                (λ _ s₃ k₃.
                  (b, k₃.0.2 ∙ ps ∙ k₁.0, k₃.0.1 ∙ ap (λ l. l ++ (b ∷ [])) (is ∙ k₁.2), k₃.0.0)))))
