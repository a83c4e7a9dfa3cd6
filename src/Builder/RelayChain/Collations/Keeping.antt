-- ===== src/Builder/RelayChain/Collations/Keeping.antt =====
-- The collations that a relay chain collects.
use fudge.Prelude.{
  ℕ, ◌==◌, false, ◌||◌, Option, none, some, List, [], ◌∷◌, ◌++◌, ◌≡◌, refl, arith, Bool-cases, inl,
  inr, Result, Action, assert, is_none, or_throw, lift, continue, Leaves, Leaves-any,
  Leaves-continue,
}
use fudge.Node.{Node, BlockId, Exec}
use fudge.Builder.Core.{Builder, commit}
use fudge.Builder.Core.State.{with_state}
use fudge.Builder.Parachain.Collator.{approved}
use fudge.Builder.Parachain.{Primitives, Collation}
use fudge.Builder.RelayChain.{
  on_core, RuntimeTypes, Runtime, CollationBuilder, Collected, RelaychainBuilder, Error, on_outside,
  parachain_collation, parachain_judge_error, parachain_not_onboarded,
}
use fudge.Builder.RelayChain.Collations.{
  collator_of, with_state_of, with_mut_state, collected_for, keep_collation, collect_each,
  enact_each, validation_data, force_enact_collations, collect_collations,
}

module _ {t : Primitives} {n : Node} where
  -- Every collation was collected with the header, and no two are of one parachain.
  abbrev pub Fresh : n.Header → List (Collected t n) → Type 0
  Fresh h [] = Unit {0}
  Fresh h (c ∷ cs) = (c.generation_parent ≡ h) × (collected_for c.id cs ≡ false) × Fresh h cs

  pub collected_for-append :
      (id : ℕ) (cs : List (Collected t n)) (c : Collected t n)
      → collected_for id (cs ++ (c ∷ [])) ≡ (collected_for id cs || (c.id == id))
  unfolding collected_for
  collected_for-append id [] c = ground arith
  collected_for-append id (x ∷ xs) c = ground (arith, collected_for-append id xs c)

  Fresh-append :
      (h : n.Header) (cs : List (Collected t n)) (c : Collected t n)
      → Fresh h cs
      → c.generation_parent ≡ h
      → collected_for c.id cs ≡ false
      → Fresh h (cs ++ (c ∷ []))
  unfolding collected_for
  Fresh-append h [] c f e q = (e, refl, tt)
  Fresh-append h (x ∷ xs) c f e q = (
    f.0,
    ground (arith, collected_for-append x.id xs c),
    Fresh-append h xs c f.2 e (ground arith),
  )

  -- Keeping a further collation of any parachain, or none, keeps this.
  pub keep_collation-Fresh :
      (id : ℕ) (h : n.Header) (c : Option (Collation t)) (cs : List (Collected t n))
      → Fresh h cs
      → Fresh h (keep_collation id h c cs)
  unfolding keep_collation
  keep_collation-Fresh id h none cs f = f
  keep_collation-Fresh id h (some c) cs f = elim (Bool-cases (collected_for id cs)) [
    | inl q ↦ rw (q) f
    | inr q ↦ rw (q) (Fresh-append h cs _ f refl q)
  ]

module _ {t : Primitives} {n : Node} {G : Type 0} where
  -- The fields of the builder that collecting and enacting leave alone.
  abbrev pub Kept : RelaychainBuilder t n G → RelaychainBuilder t n G → Type 0
  Kept s s' = (s'.next ≡ s.next) × (s'.imports ≡ s.imports) × (s'.parachains ≡ s.parachains)

  abbrev pub Collecting : RelaychainBuilder t n G → n.Header → RelaychainBuilder t n G → Type 0
  Collecting s h s' = Kept s s' × Fresh h s'.collations

module _ {ν} {t : Primitives} {n : Node} {G : Type 0} (P : RelaychainBuilder t n G → Type ν) where
  abbrev pub KeptBy : {A : Type 0} → Result (Error n) A × RelaychainBuilder t n G → Type ν
  KeptBy {A} m = Leaves {A = A} (λ _. P) P m

  pub any-end : {A : Type 0} (m : Result (Error n) A × RelaychainBuilder t n G) → P m.1 → KeptBy m
  any-end m p = Leaves-any (λ _. P) P m (λ _. p) p

  and_then :
      {A B : Type 0} (m : Result (Error n) A × RelaychainBuilder t n G)
      (f : A → Action (RelaychainBuilder t n G) (Error n) B)
      → KeptBy m
      → ((a : A) (s : RelaychainBuilder t n G) → P s → KeptBy (f a s))
      → KeptBy (continue f m)
  and_then m f p g = Leaves-continue (λ _. P) (λ _. P) P m f p g

module _ {t : Primitives} {n : Node} {y : RuntimeTypes} (r : Runtime t n y) {G : Type 0} where
  pub validation_data_lem {ν} :
      (P : RelaychainBuilder t n G → Type ν) (parent : n.Hash) (id : ℕ)
      (s : RelaychainBuilder t n G)
      → ((b : Builder n) → P (record s { builder = b }))
      → KeptBy P (validation_data r parent id s)
  unfolding with_state_of
  validation_data_lem P parent id s p =
      and_then P (with_state_of none _ s) lift (any-end P (with_state_of none _ s) (p _))
        (λ v s₁ k. any-end P (v, s₁) k)

  -- A walk over the boxed collators keeps the collations so, even where it stops at an error.
  collect_each-Collecting :
      (parent : n.Hash) (h : n.Header) (paras : List (ℕ × CollationBuilder t G))
      (s₀ s : RelaychainBuilder t n G)
      → Collecting s₀ h s
      → KeptBy (Collecting s₀ h) (collect_each r parent h paras s)
  unfolding collect_each
  collect_each-Collecting parent h [] s₀ s k = k
  collect_each-Collecting parent h ((id, para) ∷ paras) s₀ s k =
      and_then (Collecting s₀ h) (validation_data r parent id s) _
        (validation_data_lem (Collecting s₀ h) parent id s (λ b. k))
        (λ pvd s₁ k₁.
          and_then (Collecting s₀ h) (on_outside (parachain_collation id) (para.collation pvd) s₁) _
            (any-end (Collecting s₀ h) _ k₁)
            (λ c s₂ k₂.
              collect_each-Collecting parent h paras s₀ _
                (k₂.0, keep_collation-Fresh id h c s₂.collations k₂.1)))

  pub collect_collations-Collecting :
      (h : n.Header) (s₀ s : RelaychainBuilder t n G)
      → Collecting s₀ h s
      → Leaves (λ _. Collecting s₀ h) (Collecting s₀ h) (collect_collations r h s)
  unfolding collect_collations
  collect_collations-Collecting h s₀ s k = collect_each-Collecting _ h s.parachains s₀ s k

  pub or_throw_lem {ν} :
      {A : Type 0} (P : RelaychainBuilder t n G → Type ν) (a : Option A) (e : Error n)
      (s : RelaychainBuilder t n G)
      → P s
      → KeptBy P (or_throw a e s)
  or_throw_lem P none e s k = k
  or_throw_lem P (some a) e s k = k

  pub with_mut_state_lem {ν} :
      {R : Type 0} (P : RelaychainBuilder t n G → Type ν) (at : Option (BlockId n.Hash))
      (exec : Exec n R) (s : RelaychainBuilder t n G)
      → P s
      → ((s : RelaychainBuilder t n G) (b : Builder n) → P s → P (record s { builder = b }))
      → KeptBy P (with_mut_state at exec s)
  unfolding with_mut_state
  with_mut_state_lem P at exec s k p =
      and_then P (assert (λ s. is_none s.next) s) (λ _. on_core (with_state n commit at exec))
        (any-end P (assert (λ s. is_none s.next) s) k)
        (λ _ s₁ k₁. any-end P (on_core (with_state n commit at exec) s₁) (p s₁ _ k₁))

  enact_each-Kept :
      (parent : n.Hash) (number : ℕ) (cs : List (Collected t n)) (s₀ s : RelaychainBuilder t n G)
      → Kept s₀ s
      → KeptBy (Kept s₀) (enact_each r parent number cs s)
  unfolding enact_each
  enact_each-Kept parent number [] s₀ s k = k
  enact_each-Kept parent number (c ∷ cs) s₀ s k =
      and_then (Kept s₀) (validation_data r parent c.id s) _
        (validation_data_lem (Kept s₀) parent c.id s (λ b. k))
        (λ pvd s₁ k₁.
          and_then (Kept s₀) (with_mut_state none _ s₁) _
            (with_mut_state_lem (Kept s₀) none _ s₁ k₁ (λ s b k. k))
            (λ e s₂ k₂.
              and_then (Kept s₀) (lift e s₂) _ (any-end (Kept s₀) (lift e s₂) k₂) (λ _ s₃ k₃.
                and_then (Kept s₀)
                  (or_throw (collator_of c.id s₃.parachains) parachain_not_onboarded s₃) _
                  (or_throw_lem (Kept s₀) (collator_of c.id s₃.parachains) parachain_not_onboarded
                    s₃ k₃)
                  (λ p s₄ k₄.
                    and_then (Kept s₀) (on_outside parachain_judge_error (p.judge approved) s₄) _
                      (any-end (Kept s₀) _ k₄)
                      (λ _ s₅ k₅. enact_each-Kept parent number cs s₀ s₅ k₅)))))

  -- Enacting leaves the next block, the imported blocks and the onboarded parachains alone, and where it
  -- succeeds there is no collation left.
  pub force_enact_collations-Kept :
      (s₀ s : RelaychainBuilder t n G)
      → Kept s₀ s
      → Leaves (λ _ s'. Kept s₀ s' × (s'.collations ≡ [])) (Kept s₀) (force_enact_collations r s)
  unfolding force_enact_collations
  force_enact_collations-Kept s₀ s k =
      Leaves-continue (λ _. Kept s₀) _ _
        (enact_each r (n.best_hash s.builder.world) (n.best_number s.builder.world) s.collations s)
        _ (enact_each-Kept _ _ s.collations s₀ s k) (λ _ s₁ k₁. (k₁, refl))
