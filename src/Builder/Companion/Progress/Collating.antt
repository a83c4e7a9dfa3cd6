-- ===== src/Builder/Companion/Progress/Collating.antt =====
-- How the relay chain's imports collect a waiting block's collation and approve of it.
use mathlib.Core.Path.{subst}
use fudge.Prelude.{
  ℕ, ◌==◌, ==_iff, true, some, List, [], ◌∷◌, Bool-cases, ◌≡◌, ap, sym, ◌∙◌, arith, inl, inr,
}
use fudge.Node.{Node}
use fudge.Builder.Parachain.{Primitives}
use fudge.Builder.Parachain.Collator.{approved, judge}
use fudge.Builder.Parachain.Chain.{ParachainBuilder, shared, put_collator}
use fudge.Builder.Parachain.Moves.{Built}
use fudge.Builder.Parachain.Reading.{collation_same}
use fudge.Builder.RelayChain.{CollationBuilder, Collected}
use fudge.Builder.RelayChain.Collations.{collected_for, collator_of}
use fudge.Builder.RelayChain.Collations.Approvals.{approve_one, approvals}
use fudge.Builder.RelayChain.Chain.Outside.{Keeps, AllKeep, Found-Keeps, collator_of-Found}
use fudge.Builder.Companion.Generated.{Member, member_collator}
use fudge.Builder.Companion.Reaching.{Sees, own, other}
use fudge.Builder.Companion.Progress.{
  Waiting, Approved, Due, approve-Waiting, approve-Approved, approve-Due,
}

module _ {t : Primitives} {G : Type 0} (m : Member t G) where
  -- The onboarded collators are those of parachains that are seen from this one.
  abbrev pub Boarded : List (ℕ × CollationBuilder t G) → Type 1
  Boarded [] = Unit {1}
  Boarded ((id, p) ∷ ps) = ((k : Member t G) × Sees m k × (p ≡ member_collator k)) × Boarded ps

  -- Asking for a collation leaves every builder as it was.
  pub collation-get :
      (k : Member t G) (sees : Sees m k) (d : t.PersistedValidationData) (g : G)
      → m.get ((member_collator k).collation d g).1 ≡ m.get g
  unfolding member_collator
  collation-get k (own _ law) d g =
      law _ g
      ∙ ap (λ c. put_collator m.node (m.get g) c)
          (collation_same m.node m.cumulus d
            (record { world = (m.get g).builder.world; block_storage = (m.get g).block_storage }))
  collation-get k (other _ _ apart) d g = apart _ g

  pub boarded-get :
      (p : CollationBuilder t G) (on_board : (k : Member t G) × Sees m k × (p ≡ member_collator k))
      (d : t.PersistedValidationData) (g : G)
      → m.get (p.collation d g).1 ≡ m.get g
  boarded-get p (k, sees, e) d g = ap (λ p. m.get (p.collation d g).1) e ∙ collation-get k sees d g

  module _ (P : ParachainBuilder m.node → Type 0)
      (h : (u : ParachainBuilder m.node)
        → P u
        → P (shared m.node (judge m.node approved) u).1) where
    pub member_collator-Keeps :
        (k : Member t G) (sees : Sees m k) → Keeps (λ g. P (m.get g)) (member_collator k)
    unfolding member_collator
    member_collator-Keeps k (own _ law) = (
      λ d g p. subst P (sym (collation-get m (own m law) d g)) p,
      λ g p. subst P (sym (law _ g)) (h (m.get g) p),
    )
    member_collator-Keeps k (other _ _ apart) =
        (λ d g p. subst P (sym (apart _ g)) p, λ g p. subst P (sym (apart _ g)) p)

    pub AllKeep-Boarded :
        (ps : List (ℕ × CollationBuilder t G)) → Boarded ps → AllKeep (λ g. P (m.get g)) ps
    AllKeep-Boarded [] bs = tt
    AllKeep-Boarded ((id, p) ∷ ps) ((k, sees, e), bs) = (
      subst (λ p. Keeps (λ g. P (m.get g)) p) (sym e) (member_collator-Keeps k sees),
      AllKeep-Boarded ps bs,
    )

module _ {t : Primitives} {G : Type 0} (P : G → Type 0)
    (paras : List (ℕ × CollationBuilder t G)) where
  approve_one-Keeps :
      (id : ℕ) (g : G) → AllKeep P paras → P g → P (approve_one (collator_of id paras) g)
  approve_one-Keeps id g all_ p =
      Found-Keeps P (collator_of id paras) g (collator_of-Found P id paras all_) p

  -- Approvals keep what all collators keep.
  pub approvals-Keeps :
      {n : Node} (cs : List (Collected t n)) (g : G)
      → AllKeep P paras
      → P g
      → P (approvals paras cs g)
  unfolding approvals
  approvals-Keeps [] g all_ p = p
  approvals-Keeps (c ∷ cs) g all_ p = approvals-Keeps cs _ all_ (approve_one-Keeps c.id g all_ p)

module _ {t : Primitives} {G : Type 0} (m : Member t G)
    (law : (u : ParachainBuilder m.node) (g : G) → m.get (m.put u g) ≡ u) (b : Built m.node)
    (done : List (Built m.node)) (paras : List (ℕ × CollationBuilder t G))
    (boarded : Boarded m paras) (id : ℕ)
    (found : collator_of id paras ≡ some (member_collator m)) where
  pub all_Due : AllKeep (λ g. Due m.node b done (m.get g)) paras
  all_Due = AllKeep-Boarded m (Due m.node b done) (approve-Due m.node b done) paras boarded

  pub all_Approved : AllKeep (λ g. Approved m.node b done (m.get g)) paras
  all_Approved =
      AllKeep-Boarded m (Approved m.node b done) (approve-Approved m.node b done) paras boarded

  approve_own :
      (g : G)
      → Waiting m.node b done (m.get g)
      → Approved m.node b done (m.get (approve_one (collator_of id paras) g))
  unfolding member_collator
  approve_own g w =
      rw found
        (subst (Approved m.node b done) (sym (law _ g)) (approve-Waiting m.node b done (m.get g) w))

  -- Once all collations are approved, one of them for this parachain, the block that waits is approved.
  pub approvals-Approved :
      {n : Node} (cs : List (Collected t n)) (g : G)
      → Due m.node b done (m.get g)
      → (Waiting m.node b done (m.get g) → collected_for id cs ≡ true)
      → Approved m.node b done (m.get (approvals paras cs g))
  unfolding collected_for approvals
  approvals-Approved cs g (inr a) some_ =
      approvals-Keeps (λ g. Approved m.node b done (m.get g)) paras cs g all_Approved a
  approvals-Approved [] g (inl w) some_ = ground (arith, some_ w)
  approvals-Approved (c ∷ cs) g (inl w) some_ = elim (Bool-cases (c.id == id)) [
    | inl e ↦
        approvals-Keeps (λ g. Approved m.node b done (m.get g)) paras cs _ all_Approved
          (subst (λ i. Approved m.node b done (m.get (approve_one (collator_of i paras) g)))
            (sym ((==_iff c.id id).0 e)) (approve_own g w))
    | inr e ↦
        approvals-Approved cs _
          (approve_one-Keeps (λ g. Due m.node b done (m.get g)) paras c.id g all_Due (inl w))
          (λ _. ground (arith, e, some_ w))
  ]
