-- ===== src/Builder/Companion/Progress/Collecting.antt =====
-- How the relay chain's collection finds the collation of a block that waits.
use mathlib.Core.Path.{subst}
use fudge.Prelude.{
  ℕ, ◌==◌, ==_iff, true, false, Option, none, some, List, [], ◌∷◌, Bool-cases, ◌≡◌, refl, sym,
  arith, recast, if◌then◌else◌, inl, inr, ok, err, panic, InnerError, ◌≢◌, Result, Holds-Yields,
  Yields, Yields-any, Yields-continue,
}
use fudge.Node.{Node}
use fudge.Builder.Parachain.{Primitives, Collation}
use fudge.Builder.Parachain.Chain.{ParachainBuilder, shared}
use fudge.Builder.Parachain.Collator.{collation}
use fudge.Builder.Parachain.Moves.{Built}
use fudge.Builder.RelayChain.{
  RuntimeTypes, Runtime, CollationBuilder, RelaychainBuilder, Collected, on_outside,
  parachain_collation, Error,
}
use fudge.Builder.RelayChain.Collations.{
  collected_for, keep_collation, collator_of, collect_each, validation_data,
}
use fudge.Builder.RelayChain.Collations.Keeping.{validation_data_lem, collected_for-append}
use fudge.Builder.Companion.Generated.{Member, member_collator}
use fudge.Builder.Companion.Progress.{Waiting, collation-Waiting}
use fudge.Builder.Companion.Progress.Collating.{Boarded, boarded-get}

recast-none :
    {E F A : Type 0} (f : E → F) (r : Result E (Option A)) → recast f r ≡ ok none → r ≡ ok none
recast-none f (ok none) e = refl
recast-none f (ok (some a)) e = cc
recast-none f (err x) e = cc
recast-none f panic e = cc

module _ {t : Primitives} {n : Node} where
  -- Once a parachain has a collation, it keeps it.
  keep_collation-stays :
      (id i : ℕ) (h : n.Header) (o : Option (Collation t)) (cs : List (Collected t n))
      → collected_for id cs ≡ true
      → collected_for id (keep_collation i h o cs) ≡ true
  unfolding keep_collation
  keep_collation-stays id i h none cs e = e
  keep_collation-stays id i h (some c) cs e = elim (Bool-cases (collected_for i cs)) [
    | inl q ↦ rw q e
    | inr q ↦
        rw (q, collected_for-append id cs (record { id = i; collation = c; generation_parent = h }))
          (ground (arith, e))
  ]

  -- A collation that is offered is there afterwards.
  keep_collation-found :
      (id : ℕ) (h : n.Header) (c : Collation t) (cs : List (Collected t n))
      → collected_for id (keep_collation id h (some c) cs) ≡ true
  unfolding keep_collation
  keep_collation-found id h c cs = elim (Bool-cases (collected_for id cs)) [
    | inl q ↦ rw (q, q) refl
    | inr q ↦
        rw
          (q, collected_for-append id cs (record { id = id; collation = c; generation_parent = h }))
          (ground arith)
  ]

module _ {t : Primitives} {n : Node} {y : RuntimeTypes} (r : Runtime t n y) {G : Type 0}
    (m : Member t G) (law : (u : ParachainBuilder m.node) (g : G) → m.get (m.put u g) ≡ u)
    (b : Built m.node) (done : List (Built m.node)) (id : ℕ) where
  -- The block waits.
  abbrev Waits : RelaychainBuilder t n G → Type 0
  Waits s = Waiting m.node b done (m.get s.outside)

  -- It waits, and its collation has been collected.
  abbrev pub Marked : RelaychainBuilder t n G → Type 0
  Marked s = Waiting m.node b done (m.get s.outside) × (collected_for id s.collations ≡ true)

  -- The rest of a collection.
  stays :
      (parent : n.Hash) (h : n.Header) (paras : List (ℕ × CollationBuilder t G))
      (s : RelaychainBuilder t n G)
      → Boarded m paras
      → Marked s
      → Yields (λ _. Marked) (collect_each r parent h paras s)
  unfolding collect_each
  stays parent h [] s bs k = k
  stays parent h ((i, p) ∷ paras) s (on_board, bs) marked =
      Yields-continue (λ _. Marked) (λ _. Marked) (validation_data r parent i s) _
        (Holds-Yields Marked _ (validation_data_lem r Marked parent i s (λ b. marked)))
        (λ pvd s₁ m₁.
          Yields-continue (λ _. Marked) (λ _. Marked)
            (on_outside (parachain_collation i) (p.collation pvd) s₁) _
            (Yields-any (λ _. Marked) (on_outside (parachain_collation i) (p.collation pvd) s₁)
              (λ _. (
                subst (Waiting m.node b done) (sym (boarded-get m p on_board pvd s₁.outside)) m₁.0,
                m₁.1,
              )))
            (λ o s₂ m₂.
              stays parent h paras _ bs (m₂.0, keep_collation-stays id i h o s₂.collations m₂.1)))

  -- The step of a collection that asks this parachain.
  finds :
      (i : ℕ) (h : n.Header) (o : Result InnerError (Option (Collation t)) × G)
      (s : RelaychainBuilder t n G)
      → (i == id) ≡ true
      → Waiting m.node b done (m.get o.1)
      → o.0 ≢ ok none
      → Yields {E = Error n}
          (λ c u. Marked (record u { collations = keep_collation i h c u.collations }))
          (recast (parachain_collation i) o.0, record s { outside = o.1 })
  finds i h (ok none, g) s q w some_ = elim (some_ refl) [ ]
  finds i h (ok (some c), g) s q w some_ = (
    w,
    subst (λ j. collected_for j (keep_collation i h (some c) s.collations) ≡ true)
        ((==_iff i id).0 q) (keep_collation-found i h c s.collations),
  )
  finds i h (err e, g) s q w some_ = tt
  finds i h (panic, g) s q w some_ = tt

  offered :
      (d : t.PersistedValidationData) (g : G)
      → Waiting m.node b done (m.get g)
      → ((member_collator m).collation d g).0 ≢ ok none
  unfolding member_collator
  offered d g w e =
      collation-Waiting m.node b done m.cumulus d (m.get g) w
        (recast-none m.collator_text (shared m.node (collation m.node m.cumulus d) (m.get g)).0 e)

  first_found :
      (i : ℕ) (p : CollationBuilder t G) (paras : List (ℕ × CollationBuilder t G))
      → (i == id) ≡ true
      → collator_of id ((i, p) ∷ paras) ≡ some (member_collator m)
      → p ≡ member_collator m
  unfolding collator_of
  first_found i p paras q e =
      let found : some p ≡ some (member_collator m) =
        subst (λ x. (if x then some p else collator_of id paras) ≡ some (member_collator m)) q e in
      cc

  later_found :
      (i : ℕ) (p : CollationBuilder t G) (paras : List (ℕ × CollationBuilder t G))
      → (i == id) ≡ false
      → collator_of id ((i, p) ∷ paras) ≡ some (member_collator m)
      → collator_of id paras ≡ some (member_collator m)
  unfolding collator_of
  later_found i p paras q e =
      subst (λ x. (if x then some p else collator_of id paras) ≡ some (member_collator m)) q e

  -- A collection of all onboarded parachains, where the block waits.
  pub collect_each-Marked :
      (parent : n.Hash) (h : n.Header) (paras : List (ℕ × CollationBuilder t G))
      (s : RelaychainBuilder t n G)
      → Boarded m paras
      → collator_of id paras ≡ some (member_collator m)
      → Waits s
      → Yields (λ _. Marked) (collect_each r parent h paras s)
  unfolding collect_each collator_of
  collect_each-Marked parent h [] s bs e w = cc
  collect_each-Marked parent h ((i, p) ∷ paras) s (on_board, bs) e w =
      Yields-continue (λ _. Waits) (λ _. Marked) (validation_data r parent i s) _
        (Holds-Yields Waits _ (validation_data_lem r Waits parent i s (λ b. w)))
        (λ pvd s₁ w₁. elim (Bool-cases (i == id)) [
          | inl q ↦
              let same : p ≡ member_collator m = first_found i p paras q e in
              Yields-continue
                (λ c u. Marked (record u { collations = keep_collation i h c u.collations }))
                (λ _. Marked) (on_outside (parachain_collation i) (p.collation pvd) s₁) _
                (finds i h (p.collation pvd s₁.outside) s₁ q
                  (subst (Waiting m.node b done) (sym (boarded-get m p on_board pvd s₁.outside)) w₁)
                  (subst (λ p. (p.collation pvd s₁.outside).0 ≢ ok none) (sym same)
                    (offered pvd s₁.outside w₁)))
                (λ o s₂ m₂. stays parent h paras _ bs m₂)
          | inr q ↦
              Yields-continue (λ _. Waits) (λ _. Marked)
                (on_outside (parachain_collation i) (p.collation pvd) s₁) _
                (Yields-any (λ _. Waits) (on_outside (parachain_collation i) (p.collation pvd) s₁)
                  (λ _.
                    subst (Waiting m.node b done) (sym (boarded-get m p on_board pvd s₁.outside))
                      w₁))
                (λ o s₂ w₂. collect_each-Marked parent h paras _ bs (later_found i p paras q e) w₂)
        ])
