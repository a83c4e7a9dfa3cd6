-- ===== src/Builder/RelayChain/Chain/Outside.antt =====
-- What the relay chain's calls do to the world that its collators reach.
use fudge.Prelude.{
  ℕ, ◌==◌, Option-cases, continue, ◌>>◌, Option, none, some, List, [], ◌∷◌, ◌++◌, Bool-cases, inl,
  inr, Action, assert, is_none, or_throw, lift, Holds, Holds-any, Holds-continue, Holds-then,
}
use fudge.Node.{Node, Bytes}
use fudge.Builder.Core.Blocks
use fudge.Builder.Common.{propose_block}
use fudge.Builder.Parachain.{Primitives}
use fudge.Builder.Parachain.Collator.{approved}
use fudge.Builder.RelayChain.{
  Error, casts, on_builder, on_core, on_outside, parachain_collation, parachain_judge_error,
  parachain_not_onboarded, RuntimeTypes, Runtime, CollationBuilder, Collected, RelaychainBuilder,
}
use fudge.Builder.RelayChain.Onboarding.{FudgeParaChain}
use fudge.Builder.RelayChain.Collations.{
  collator_of, with_mut_state, collect_each, enact_each, validation_data, force_enact_collations,
  collect_collations,
}
use fudge.Builder.RelayChain.Collations.Approvals.{approve_one}
use fudge.Builder.RelayChain.Collations.Keeping.{validation_data_lem, with_mut_state_lem}
use fudge.Builder.RelayChain.Chain.{
  update_para_head, onboard_para, build_block, block_params, import_block,
}

module _ {ν} {t : Primitives} {G : Type 0} (P : G → Type ν) where
  -- A collator that keeps `P`, whatever it is asked.
  abbrev pub Keeps : CollationBuilder t G → Type ν
  Keeps p =
      ((d : t.PersistedValidationData) (g : G) → P g → P (p.collation d g).1)
      × ((g : G) → P g → P (p.judge approved g).1)

  abbrev pub AllKeep : List (ℕ × CollationBuilder t G) → Type ν
  AllKeep [] = Unit {ν}
  AllKeep ((id, p) ∷ ps) = Keeps p × AllKeep ps

  pub AllKeep-snoc :
      (ps : List (ℕ × CollationBuilder t G)) (id : ℕ) (p : CollationBuilder t G)
      → AllKeep ps
      → Keeps p
      → AllKeep (ps ++ ((id, p) ∷ []))
  AllKeep-snoc [] id p all_ k = (k, tt)
  AllKeep-snoc ((i, q) ∷ ps) id p all_ k = (all_.0, AllKeep-snoc ps id p all_.1 k)

  -- What holds where a collator is found.
  abbrev pub Found : Option (CollationBuilder t G) → Type ν
  Found none = Unit {ν}
  Found (some p) = Keeps p

  pub Found-Keeps :
      (o : Option (CollationBuilder t G)) (g : G) → Found o → P g → P (approve_one o g)
  Found-Keeps none g f p = p
  Found-Keeps (some c) g f p = f.1 g p

  pub collator_of-Found :
      (id : ℕ) (ps : List (ℕ × CollationBuilder t G)) → AllKeep ps → Found (collator_of id ps)
  unfolding collator_of
  collator_of-Found id [] all_ = tt
  collator_of-Found id ((i, q) ∷ ps) all_ = elim (Bool-cases (i == id)) [
    | inl found ↦ rw found all_.0
    | inr next ↦ rw next (collator_of-Found id ps all_.1)
  ]

module _ {ν} {t : Primitives} {n : Node} {G : Type 0} (P : G → Type ν)
    (D : List (ℕ × CollationBuilder t G) → Type ν) where
  -- `P` holds of the world, and `D` of the onboarded collators.
  abbrev pub Out : RelaychainBuilder t n G → Type ν
  Out s = P s.outside × D s.parachains

  asks_judge :
      (p : CollationBuilder t G) (s : RelaychainBuilder t n G)
      → Keeps P p
      → Out s
      → Holds Out (on_outside parachain_judge_error (p.judge approved) s)
  asks_judge p s k (h, all_) =
      Holds-any Out (on_outside parachain_judge_error (p.judge approved) s) (k.1 s.outside h, all_)

module _ {ν} {t : Primitives} {n : Node} {y : RuntimeTypes} (r : Runtime t n y) {G : Type 0}
    (P : G → Type ν) (D : List (ℕ × CollationBuilder t G) → Type ν)
    (d : (ps : List (ℕ × CollationBuilder t G)) → D ps → AllKeep P ps) where
  collect_each-Out :
      (parent : n.Hash) (h : n.Header) (paras : List (ℕ × CollationBuilder t G))
      (s : RelaychainBuilder t n G)
      → AllKeep P paras
      → Out P D s
      → Holds (Out P D) (collect_each r parent h paras s)
  unfolding collect_each
  collect_each-Out parent h [] s all_ k = k
  collect_each-Out parent h ((id, para) ∷ paras) s all_ k =
      Holds-continue (Out P D) (validation_data r parent id s) _
        (validation_data_lem r (Out P D) parent id s (λ b. k))
        (λ pvd s₁ k₁.
          Holds-then (Out P D) (on_outside (parachain_collation id) (para.collation pvd) s₁) _
            (all_.0.0 pvd s₁.outside k₁.0, k₁.1)
            (λ c s₂ k₂. collect_each-Out parent h paras _ all_.1 k₂))

  judge_then :
      (o : Option (CollationBuilder t G))
      (rest : Action (RelaychainBuilder t n G) (Error n) (Unit {0})) (s : RelaychainBuilder t n G)
      → Found P o
      → Out P D s
      → ((s₁ : RelaychainBuilder t n G) → Out P D s₁ → Holds (Out P D) (rest s₁))
      → Holds (Out P D) (
          continue
            (λ p. on_outside parachain_judge_error (p.judge approved) >> rest)
            (or_throw o parachain_not_onboarded s))
  judge_then none rest s f k ih = k
  judge_then (some p) rest s f k ih =
      Holds-continue (Out P D) (on_outside parachain_judge_error (p.judge approved) s) (λ _. rest)
        (asks_judge P D p s f k) (λ _. ih)

  enact_each-Out :
      (parent : n.Hash) (number : ℕ) (cs : List (Collected t n)) (s : RelaychainBuilder t n G)
      → Out P D s
      → Holds (Out P D) (enact_each r parent number cs s)
  unfolding enact_each
  enact_each-Out parent number [] s k = k
  enact_each-Out parent number (c ∷ cs) s k =
      Holds-continue (Out P D) (validation_data r parent c.id s) _
        (validation_data_lem r (Out P D) parent c.id s (λ b. k))
        (λ pvd s₁ k₁.
          Holds-continue (Out P D) (with_mut_state none _ s₁) _
            (with_mut_state_lem r (Out P D) none _ s₁ k₁ (λ s b k. k))
            (λ e s₂ k₂. Holds-then (Out P D) (lift e s₂) _ k₂ (λ _ s₃ k₃.
              judge_then (collator_of c.id s₃.parachains) (enact_each r parent number cs) s₃
                (collator_of-Found P c.id s₃.parachains (d s₃.parachains k₃.1)) k₃
                (λ s₄ k₄. enact_each-Out parent number cs s₄ k₄))))

  pub force_enact_collations-Out :
      (s : RelaychainBuilder t n G) → Out P D s → Holds (Out P D) (force_enact_collations r s)
  unfolding force_enact_collations
  force_enact_collations-Out s k =
      Holds-continue (Out P D)
        (enact_each r (n.best_hash s.builder.world) (n.best_number s.builder.world) s.collations s)
        _ (enact_each-Out _ _ s.collations s k) (λ _ s₁ k₁. k₁)

  pub collect_collations-Out :
      (h : n.Header) (s : RelaychainBuilder t n G)
      → Out P D s
      → Holds (Out P D) (collect_collations r h s)
  unfolding collect_collations
  collect_collations-Out h s k = collect_each-Out _ h s.parachains s (d s.parachains k.1) k

  pub import_block-Out :
      (s : RelaychainBuilder t n G) → Out P D s → Holds (Out P D) (import_block r s)
  unfolding import_block
  import_block-Out s k = elim (Option-cases s.next) [
    | inl none_ ↦ rw none_ k
    | inr ((block, proof), waits) ↦ rw waits (
        Holds-then (Out P D)
          (on_core (Blocks.import_block n (block_params n block)) (record s { next = none })) _ k
          (λ _ s₁ k₁.
            Holds-continue (Out P D)
              (force_enact_collations r
                (record s₁ { imports = s₁.imports ++ ((block, proof) ∷ []) }))
              _ (force_enact_collations-Out _ k₁)
              (λ _ s₂ k₂. collect_collations-Out (n.header_of block) s₂ k₂)))
  ]

  pub build_block-Out :
      (s : RelaychainBuilder t n G) → Out P D s → Holds (Out P D) (build_block r s)
  unfolding build_block
  build_block-Out s k = Holds-then (Out P D) (assert (λ s. is_none s.next) s) _ k (λ _ s₁ k₁.
      Holds-then (Out P D) (on_builder (propose_block n (casts n) s.setup) s₁) _ k₁ (λ b s₂ k₂. k₂))

  pub update_para_head-Out :
      (id : ℕ) (head : Bytes) (s : RelaychainBuilder t n G)
      → Out P D s
      → Holds (Out P D) (update_para_head r id head s)
  unfolding update_para_head
  update_para_head-Out id head s k =
      Holds-continue (Out P D) (with_mut_state none _ s) lift
        (with_mut_state_lem r (Out P D) none _ s k (λ s b k. k))
        (λ e s₁ k₁. Holds-any (Out P D) (e, s₁) k₁)

  pub onboard_para-Out :
      (para : FudgeParaChain) (collator : CollationBuilder t G) (s : RelaychainBuilder t n G)
      → ((ps : List (ℕ × CollationBuilder t G)) → D ps → D (ps ++ ((para.id, collator) ∷ [])))
      → Out P D s
      → Holds (Out P D) (onboard_para r para collator s)
  unfolding onboard_para
  onboard_para-Out para collator s keeps k =
      Holds-continue (Out P D) (with_mut_state none _ s) _
        (with_mut_state_lem r (Out P D) none _ s k (λ s b k. k))
        (λ e s₁ k₁.
          Holds-then (Out P D) (lift e s₁) _ k₁ (λ _ s₂ k₂. (k₂.0, keeps s₂.parachains k₂.1)))
