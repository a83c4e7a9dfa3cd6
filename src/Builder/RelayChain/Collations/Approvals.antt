-- ===== src/Builder/RelayChain/Collations/Approvals.antt =====
-- What the collators are told while the collations are enacted.
use fudge.Prelude.{
  ℕ, Option, none, some, List, [], ◌∷◌, ◌++◌, ◌≡◌, refl, ap, ◌∙◌, sym, Result, Action, lift,
  or_throw, continue, ◌>>◌, Leaves, Leaves-any, Leaves-continue, Leaves-weaken,
}
use fudge.Node.{Node}
use fudge.Builder.Parachain.{Primitives}
use fudge.Builder.Parachain.Collator.{approved}
use fudge.Builder.RelayChain.{
  RuntimeTypes, Runtime, CollationBuilder, Collected, RelaychainBuilder, Error, on_outside,
  parachain_judge_error, parachain_not_onboarded,
}
use fudge.Builder.RelayChain.Collations.{
  collator_of, with_mut_state, validation_data, enact_each, force_enact_collations,
}
use fudge.Builder.RelayChain.Collations.Keeping.{
  KeptBy, any-end, validation_data_lem, with_mut_state_lem,
}

-- A collator that is told of its approval, where there is one.
abbrev pub approve_one : {t : Primitives} {G : Type 0} → Option (CollationBuilder t G) → G → G
approve_one none g = g
approve_one (some p) g = (p.judge approved g).1

module _ {t : Primitives} {n : Node} {G : Type 0} (paras : List (ℕ × CollationBuilder t G)) where
  -- The world of the collators after the approval of each collation by its parachain's collator.
  unfoldable pub approvals : List (Collected t n) → G → G
  unfolding collator_of
  approvals [] g = g
  approvals (c ∷ cs) g = approvals cs (approve_one (collator_of c.id paras) g)

  -- The collators have been told of a first part of the collations, and of nothing else.
  abbrev pub Told : List (Collected t n) → G → RelaychainBuilder t n G → Type 0
  Told cs g s =
      (xs : List (Collected t n)) × (ys : List (Collected t n)) × (cs ≡ xs ++ ys)
      × (s.outside ≡ approvals xs g)

  abbrev At : G → RelaychainBuilder t n G → Type 0
  At g s = (s.parachains ≡ paras) × (s.outside ≡ g)

  Told-none :
      (cs : List (Collected t n)) (g : G) (s : RelaychainBuilder t n G) → At g s → Told cs g s
  unfolding approvals
  Told-none cs g s k = ([], cs, refl, k.1)

  step :
      {A B : Type 0} (cs : List (Collected t n)) (g : G) (Q : B → RelaychainBuilder t n G → Type 0)
      (m : Result (Error n) A × RelaychainBuilder t n G)
      (f : A → Action (RelaychainBuilder t n G) (Error n) B)
      → KeptBy (At g) m
      → ((a : A) (s : RelaychainBuilder t n G) → At g s → Leaves Q (Told cs g) (f a s))
      → Leaves Q (Told cs g) (continue f m)
  step cs g Q m f p k =
      Leaves-continue (λ _. At g) Q (Told cs g) m f
        (Leaves-weaken (λ _. At g) (λ _. At g) (At g) (Told cs g) m p (λ _ _ a. a)
          (λ s a. Told-none cs g s a))
        k

module _ {t : Primitives} {n : Node} {y : RuntimeTypes} (r : Runtime t n y) {G : Type 0} where
  -- From the state that the enactment of `c` left on.
  approve_then :
      (paras : List (ℕ × CollationBuilder t G)) (c : Collected t n) (cs : List (Collected t n))
      (g : G) (rest : Action (RelaychainBuilder t n G) (Error n) (Unit {0}))
      (s : RelaychainBuilder t n G) (o : Option (CollationBuilder t G))
      → At paras g s
      → collator_of c.id paras ≡ o
      → ((g' : G) (s' : RelaychainBuilder t n G)
          → At paras g' s'
          → Leaves (λ _ u. u.outside ≡ approvals paras cs g') (Told paras cs g') (rest s'))
      → Leaves
          (λ _ u. u.outside ≡ approvals paras (c ∷ cs) g)
          (Told paras (c ∷ cs) g)
          (continue
            (λ p. on_outside parachain_judge_error (p.judge approved) >> rest)
            (or_throw o parachain_not_onboarded s))
  unfolding approvals
  approve_then paras c cs g rest s none k q ih = Told-none paras (c ∷ cs) g s k
  approve_then paras c cs g rest s (some p) k q ih =
      let g' : G = (p.judge approved g).1 in
      let m = on_outside parachain_judge_error (p.judge approved) s in
      let told : m.1.outside ≡ g' = ap (λ x. (p.judge approved x).1) k.1 in
      let same : approve_one (collator_of c.id paras) g ≡ g' = ap (λ o. approve_one o g) q in
      Leaves-continue (λ _. At paras g') _ (Told paras (c ∷ cs) g) m (λ _. rest)
        (Leaves-any (λ _. At paras g') (Told paras (c ∷ cs) g) m (λ _. (k.0, told))
          (c ∷ [], cs, refl, told ∙ sym same))
        (λ _ s₁ k₁.
          Leaves-weaken _ _ (Told paras cs g') (Told paras (c ∷ cs) g) (rest s₁) (ih g' s₁ k₁)
            (λ _ _ e. e ∙ ap (λ x. approvals paras cs x) (sym same))
            (λ u (xs, ys, e, o).
              (c ∷ xs, ys, ap (λ l. c ∷ l) e, o ∙ ap (λ x. approvals paras xs x) (sym same))))

  enact_each-Told :
      (paras : List (ℕ × CollationBuilder t G)) (parent : n.Hash) (number : ℕ)
      (cs : List (Collected t n)) (g : G) (s : RelaychainBuilder t n G)
      → At paras g s
      → Leaves
          (λ _ s'. s'.outside ≡ approvals paras cs g)
          (Told paras cs g)
          (enact_each r parent number cs s)
  unfolding enact_each approvals
  enact_each-Told paras parent number [] g s k = k.1
  enact_each-Told paras parent number (c ∷ cs) g s k =
      let Q =
        λ (_ : Unit {0}) (s' : RelaychainBuilder t n G). s'.outside ≡ approvals paras (c ∷ cs) g in
      step paras (c ∷ cs) g Q (validation_data r parent c.id s) _
        (validation_data_lem r (At paras g) parent c.id s (λ b. k))
        (λ pvd s₁ k₁.
          step paras (c ∷ cs) g Q (with_mut_state none _ s₁) _
            (with_mut_state_lem r (At paras g) none _ s₁ k₁ (λ s b k. k))
            (λ e s₂ k₂.
              step paras (c ∷ cs) g Q (lift e s₂) _ (any-end (At paras g) (lift e s₂) k₂)
                (λ _ s₃ k₃.
                  approve_then paras c cs g (enact_each r parent number cs) s₃
                    (collator_of c.id s₃.parachains) k₃ (ap (λ l. collator_of c.id l) (sym k₃.0))
                    (λ g' s' a. enact_each-Told paras parent number cs g' s' a))))

  -- Enacting tells a collator of its approval for each collation in the order they were collected, where the
  -- enactment succeeds; where it stops, for a first part of the collations in that order. Nothing else
  -- reaches the collators.
  pub force_enact_collations-Told :
      (s : RelaychainBuilder t n G)
      → Leaves
          (λ _ s'. s'.outside ≡ approvals s.parachains s.collations s.outside)
          (Told s.parachains s.collations s.outside)
          (force_enact_collations r s)
  unfolding force_enact_collations
  force_enact_collations-Told s =
      Leaves-continue (λ _ s'. s'.outside ≡ approvals s.parachains s.collations s.outside) _ _
        (enact_each r (n.best_hash s.builder.world) (n.best_number s.builder.world) s.collations s)
        _ (enact_each-Told s.parachains _ _ s.collations s.outside s (refl, refl)) (λ _ s₁ k₁. k₁)
