-- ===== src/Builder/Companion/Progress/Rounds.antt =====
-- What a companion that evolves does for each of its parachains.
use fudge.Prelude.{
  ℕ, some, List, [], ◌∷◌, ◌++◌, ◌≡◌, refl, sym, Holds, Holds-continue, Holds-Yields, Yields,
  Yields-continue, Yields-weaken,
}
use mathlib.Core.Path.{subst}
use fudge.Node.{Node}
use fudge.Builder.Parachain.{Primitives}
use fudge.Builder.Parachain.Chain.{ParachainBuilder, shared}
use fudge.Builder.Parachain.Collator.{judge, approved}
use fudge.Builder.Parachain.Moves.{Built}
use fudge.Builder.RelayChain.{RuntimeTypes, CollationBuilder, RelaychainBuilder}
use fudge.Builder.RelayChain.Collations.{collator_of}
use fudge.Builder.RelayChain.Chain.Outside.{AllKeep, Out}
use fudge.Builder.Companion.Generated.{
  Member, Companion, member_collator, evolve_one, evolve_each, evolve,
}
use fudge.Builder.Companion.Reaching.{Apart}
use fudge.Builder.Companion.Using.Rounds.{evolve_one-Out}
use fudge.Builder.Companion.Progress.{Imported, approve-Imported}
use fudge.Builder.Companion.Progress.Collating.{Boarded, AllKeep-Boarded}
use fudge.Builder.Companion.Progress.Advancing.{Advanced, evolve_one-Advanced}

module _ {t : Primitives} {G : Type 0} (m : Member t G) where
  -- The builders of these parachains have places apart from this one's.
  abbrev pub AllApart : List (Member t G) → Type 0
  AllApart [] = Unit {0}
  AllApart (k ∷ ks) = Apart m k × AllApart ks

module _ {t : Primitives} {n : Node} {y : RuntimeTypes} {G : Type 0} (c : Companion t n y G)
    (m : Member t G) (law : (u : ParachainBuilder m.node) (g : G) → m.get (m.put u g) ≡ u)
    (paras : List (ℕ × CollationBuilder t G)) (boarded : Boarded m paras) where
  module _ (P : ParachainBuilder m.node → Type 0)
      (h : (u : ParachainBuilder m.node)
        → P u
        → P (shared m.node (judge m.node approved) u).1) where
    -- What is kept of the parachain's builder, with the parachains on board.
    abbrev Keeping : RelaychainBuilder t n G → Type 0
    Keeping s = Out (λ g. P (m.get g)) (λ ps. ps ≡ paras) s

    -- The round of another parachain keeps what judgements keep.
    other_round :
        (o : Member t G) (s : RelaychainBuilder t n G)
        → Apart m o
        → Keeping s
        → Holds Keeping (evolve_one c o s)
    other_round o s apart k =
        evolve_one-Out c (λ g. P (m.get g)) (λ ps. ps ≡ paras)
          (λ ps e. subst (AllKeep (λ g. P (m.get g))) (sym e) (AllKeep-Boarded m P h paras boarded))
          o (λ u g made p. subst P (sym (apart u g)) p) s k

    other_rounds :
        (ks : List (Member t G)) (s : RelaychainBuilder t n G)
        → AllApart m ks
        → Keeping s
        → Holds Keeping (evolve_each c ks s)
    unfolding evolve_each
    other_rounds [] s apart k = k
    other_rounds (o ∷ ks) s apart k =
        Holds-continue Keeping (evolve_one c o s) _ (other_round o s apart.0 k)
          (λ _ s₁ k₁. other_rounds ks s₁ apart.1 k₁)

  -- All rounds, this parachain's among them.
  through :
      (before after : List (Member t G)) (id : ℕ) (done : List (Built m.node))
      (s : RelaychainBuilder t n G)
      → AllApart m before
      → AllApart m after
      → collator_of id paras ≡ some (member_collator m)
      → ((m.get s.outside).imports ≡ done) × (s.parachains ≡ paras)
      → Yields
          (λ _ s'.
            ((b : Built m.node) × Imported m.node b done (m.get s'.outside))
            × (s'.parachains ≡ paras))
          (evolve_each c (before ++ (m ∷ after)) s)
  unfolding evolve_each
  through [] after id done s apart apart' found k =
      Yields-continue (λ _. Advanced c m law paras boarded id found done) _ (evolve_one c m s) _
        (evolve_one-Advanced c m law paras boarded id found done s k)
        (λ _ s₁ k₁.
          Yields-weaken
            (λ _.
              Out (λ g. (b : Built m.node) × Imported m.node b done (m.get g)) (λ ps. ps ≡ paras))
            _ (evolve_each c after s₁)
            (Holds-Yields _ (evolve_each c after s₁) (
              other_rounds (λ u. (b : Built m.node) × Imported m.node b done u)
                (λ u i. (i.0, approve-Imported m.node i.0 done u i.1)) after s₁ apart' k₁))
            (λ _ s₂ k₂. k₂))
  through (o ∷ before) after id done s apart apart' found k =
      Yields-continue (λ _. Out (λ g. (m.get g).imports ≡ done) (λ ps. ps ≡ paras)) _
        (evolve_one c o s) _
        (Holds-Yields (Out (λ g. (m.get g).imports ≡ done) (λ ps. ps ≡ paras)) (evolve_one c o s)
          (other_round (λ u. u.imports ≡ done) (λ u i. i) o s apart.0 k))
        (λ _ s₁ k₁. through before after id done s₁ apart.1 apart' found k₁)

module _ {t : Primitives} {n : Node} {y : RuntimeTypes} {G : Type 0} (c : Companion t n y G) where
  -- An evolution that succeeds moves every parachain on board on by one block: that block, the last of the
  -- imports, follows all that had been imported there before, and none is left to collate or to import; what is on
  -- board stays. The parachain stands anywhere among the companion's, the builders of the others have places of
  -- their own, and what is on board are collators of the companion's parachains.
  pub evolve-Imported :
      (m : Member t G) (before after : List (Member t G)) (id : ℕ)
      (paras : List (ℕ × CollationBuilder t G)) (s : RelaychainBuilder t n G)
      → c.members ≡ before ++ (m ∷ after)
      → ((u : ParachainBuilder m.node) (g : G) → m.get (m.put u g) ≡ u)
      → AllApart m before
      → AllApart m after
      → Boarded m paras
      → collator_of id paras ≡ some (member_collator m)
      → s.parachains ≡ paras
      → Yields
          (λ _ s'.
            ((b : Built m.node) × Imported m.node b (m.get s.outside).imports (m.get s'.outside))
            × (s'.parachains ≡ paras))
          (evolve c s)
  unfolding evolve
  evolve-Imported m before after id paras s e law apart apart' boarded found on_board = rw e (
      through c m law paras boarded before after id (m.get s.outside).imports s apart apart' found
        (refl, on_board))
