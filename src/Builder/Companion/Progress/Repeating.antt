-- ===== src/Builder/Companion/Progress/Repeating.antt =====
-- A companion that is created and then evolves any number of times.
use fudge.Prelude.{
  ℕ, ◌==◌, ==_refl, false, zero, suc, some, List, [], ◌∷◌, ◌++◌, append_assoc, length, ◌≡◌, arith,
  refl, ap, sym, ◌∙◌, Action, ◌>>◌, pure, Yields, Yields-continue, Yields-weaken, Holds-Yields,
  Yields-and,
}
use mathlib.Core.List.{append-nil}
use mathlib.Core.Path.{subst}
use fudge.Node.{Node}
use fudge.Builder.Parachain.{Primitives}
use fudge.Builder.Parachain.Chain.{ParachainBuilder}
use fudge.Builder.Parachain.Moves.{Built}
use fudge.Builder.RelayChain.{RuntimeTypes, CollationBuilder, RelaychainBuilder}
use fudge.Builder.RelayChain.Chain.Outside.{Out, AllKeep}
use fudge.Builder.RelayChain.Collations.{collator_of}
use fudge.Builder.Companion.Generated.{
  Member, Companion, BuilderError, member_collator, new, evolve,
}
use fudge.Builder.Companion.Reaching.{Sees, AllSee, own, other}
use fudge.Builder.Companion.Using.Creating.{boxed, new-boxed}
use fudge.Builder.Companion.Using.Dispatching.{NoneHas}
use fudge.Builder.Companion.Using.Onboarding.{AllSettled, new-Kept}
use fudge.Builder.Companion.Progress.{Imported}
use fudge.Builder.Companion.Progress.Collating.{Boarded, member_collator-Keeps}
use fudge.Builder.Companion.Progress.Rounds.{AllApart, evolve-Imported}

module _ {t : Primitives} {n : Node} {y : RuntimeTypes} {G : Type 0} (c : Companion t n y G) where
  -- So many evolutions, up to the first that fails.
  abbrev pub evolve_times : ℕ → Action (RelaychainBuilder t n G) BuilderError (Unit {0})
  evolve_times zero = pure tt
  evolve_times (suc k) = do evolve c; evolve_times k

-- So many blocks more are imported, and none is under way after the last of them.
abbrev pub Grown : (n : Node) → ℕ → List (Built n) → ParachainBuilder n → Type 0
Grown n k done u =
    (bs : List (Built n)) × (b : Built n) × (length bs ≡ k) × Imported n b (done ++ bs) u

module _ {t : Primitives} {n : Node} {y : RuntimeTypes} {G : Type 0} (c : Companion t n y G)
    (m : Member t G) (before after : List (Member t G)) (e : c.members ≡ before ++ (m ∷ after))
    (law : (u : ParachainBuilder m.node) (g : G) → m.get (m.put u g) ≡ u)
    (apart : AllApart m before) (apart' : AllApart m after) where
  module _ (id : ℕ) (paras : List (ℕ × CollationBuilder t G)) (boarded : Boarded m paras)
      (found : collator_of id paras ≡ some (member_collator m)) where
    grow :
        (k : ℕ) (done : List (Built m.node)) (b : Built m.node) (u : ParachainBuilder m.node)
        → Grown m.node k (done ++ (b ∷ [])) u
        → Grown m.node (suc k) done u
    grow k done b u (bs, b', l, i) = (
      b ∷ bs,
      b',
      ap suc l,
      subst (λ l. Imported m.node b' l u) (append_assoc done (b ∷ []) bs) i,
    )

    -- What is left of the builder by an evolution.
    abbrev Moved : List (Built m.node) → RelaychainBuilder t n G → Type 0
    Moved done s =
        ((b : Built m.node) × Imported m.node b done (m.get s.outside)) × (s.parachains ≡ paras)

    evolve-Moved :
        (done : List (Built m.node)) (s : RelaychainBuilder t n G)
        → (m.get s.outside).imports ≡ done
        → s.parachains ≡ paras
        → Yields (λ _. Moved done) (evolve c s)
    evolve-Moved done s i on_board =
        subst (λ done. Yields (λ _. Moved done) (evolve c s)) i
          (evolve-Imported c m before after id paras s e law apart apart' boarded found on_board)

    -- Evolutions on what is on board: each that succeeds adds its block.
    pub evolve_times-Grown :
        (k : ℕ) (done : List (Built m.node)) (s : RelaychainBuilder t n G)
        → (m.get s.outside).imports ≡ done
        → s.parachains ≡ paras
        → Yields (λ _ s'. Grown m.node k done (m.get s'.outside)) (evolve_times c (suc k) s)
    evolve_times-Grown zero done s i on_board =
        Yields-continue (λ _. Moved done) _ (evolve c s) _ (evolve-Moved done s i on_board)
          (λ _ s₁ k₁. (
            [],
            k₁.0.0,
            refl,
            subst (λ l. Imported m.node k₁.0.0 l (m.get s₁.outside)) (sym (append-nil done)) k₁.0.1,
          ))
    evolve_times-Grown (suc k) done s i on_board =
        Yields-continue (λ _. Moved done) _ (evolve c s) _ (evolve-Moved done s i on_board)
          (λ _ s₁ k₁.
            Yields-weaken (λ _ s'. Grown m.node k (done ++ (k₁.0.0 ∷ [])) (m.get s'.outside)) _
              (evolve_times c (suc k) s₁)
              (evolve_times-Grown k (done ++ (k₁.0.0 ∷ [])) s₁ k₁.0.1.2 k₁.1)
              (λ _ s' g. grow k done k₁.0.0 (m.get s'.outside) g))

module _ {t : Primitives} {G : Type 0} (m : Member t G) where
  see_others : (ks : List (Member t G)) → AllApart m ks → AllSee m ks
  see_others [] apart = tt
  see_others (k ∷ ks) apart = (other m k apart.0, see_others ks apart.1)

  see_all :
      ((u : ParachainBuilder m.node) (g : G) → m.get (m.put u g) ≡ u)
      → (before after : List (Member t G)) → AllApart m before
      → AllApart m after
      → AllSee m (before ++ (m ∷ after))
  see_all law [] after apart apart' = (own m law, see_others after apart')
  see_all law (k ∷ ks) after apart apart' = (other m k apart.0, see_all law ks after apart.1 apart')

  board : (ks : List (Member t G)) → AllSee m ks → Boarded m (boxed ks)
  board [] sees = tt
  board (k ∷ ks) sees = ((k, sees.0, refl), board ks sees.1)

  found_boxed :
      (ks after : List (Member t G))
      → NoneHas m.id ks
      → collator_of m.id (boxed (ks ++ (m ∷ after))) ≡ some (member_collator m)
  unfolding collator_of
  found_boxed [] after none_ = rw (==_refl m.id) refl
  found_boxed (k ∷ ks) after none_ =
      let differs : (k.id == m.id) ≡ false = ground (arith, none_.0) in
      rw differs (found_boxed ks after none_.1)

  -- Imports stay where a collator is asked or told, and where a builder is put back.
  settle :
      (done : List (Built m.node)) (ks : List (Member t G))
      → AllSee m ks
      → AllSettled (λ g. (m.get g).imports ≡ done) ks
  settle done [] sees = tt
  settle done (k ∷ ks) sees = (
    (member_collator-Keeps m (λ u. u.imports ≡ done) (λ u i. i) k sees.0, put_back k sees.0),
    settle done ks sees.1,
  )
    where
      put_back :
          (k : Member t G)
          → Sees m k
          → (u : ParachainBuilder k.node) (g : G) → u ≡ k.get g
          → (m.get g).imports ≡ done
          → (m.get (k.put u g)).imports ≡ done
      put_back _ (own _ law) u g same i = ap (λ u. u.imports) (law u g ∙ same) ∙ i
      put_back k (other _ _ apart) u g same i = ap (λ u. u.imports) (apart u g) ∙ i

module _ {t : Primitives} {n : Node} {y : RuntimeTypes} {G : Type 0} (c : Companion t n y G) where
  abbrev Boxed : RelaychainBuilder t n G → Type 0
  Boxed u = u.parachains ≡ boxed c.members

  -- Creating a companion imports nothing for its parachains, and gets them all on board.
  imports-new :
      (m : Member t G) (s : RelaychainBuilder t n G)
      → AllSee m c.members
      → s.parachains ≡ []
      → Yields
          (λ _ u.
            ((m.get u.outside).imports ≡ (m.get s.outside).imports)
            × (u.parachains ≡ boxed c.members))
          (new c s)
  imports-new m s sees empty =
      let P : G → Type 0 = λ g. (m.get g).imports ≡ (m.get s.outside).imports in
      let kept =
        new-Kept c P s (settle m (m.get s.outside).imports c.members sees) (refl, rw empty tt) in
      Yields-weaken (λ _ u. Out P (AllKeep P) u × Boxed u) _ (new c s)
        (Yields-and (λ _ u. Out P (AllKeep P) u) (λ _. Boxed) (new c s)
          (Holds-Yields (Out P (AllKeep P)) (new c s) kept)
          (Yields-weaken _ (λ _. Boxed) (new c s) (new-boxed c s)
            (λ _ u b. b.1 ∙ ap (λ ps. ps ++ boxed c.members) empty)))
        (λ _ u k. (k.0.0, k.1))

  -- A companion that is created over a relay chain without parachains and then evolves any number of times, at
  -- least once, each step a success: every parachain has imported just as many blocks as there were evolutions,
  -- behind those that it had, and no block is left to collate or to import. The parachain stands anywhere among the
  -- companion's, none before it has its id, and the builders of the others have places of their own.
  pub new-evolve_times :
      (m : Member t G) (before after : List (Member t G)) (k : ℕ) (s : RelaychainBuilder t n G)
      → c.members ≡ before ++ (m ∷ after)
      → ((u : ParachainBuilder m.node) (g : G) → m.get (m.put u g) ≡ u)
      → AllApart m before
      → AllApart m after
      → NoneHas m.id before
      → s.parachains ≡ []
      → Yields
          (λ _ s'. Grown m.node k (m.get s.outside).imports (m.get s'.outside))
          ((do new c; evolve_times c (suc k)) s)
  new-evolve_times m before after k s e law apart apart' none_ empty =
      let done = (m.get s.outside).imports in
      let sees = see_all m law before after apart apart' in
      let sees' = subst (AllSee m) (sym e) sees in
      Yields-continue (λ _ u. ((m.get u.outside).imports ≡ done) × (u.parachains ≡ boxed c.members))
        _ (new c s) _ (imports-new m s sees' empty)
        (λ _ s₁ k₁.
          evolve_times-Grown c m before after e law apart apart' m.id
            (boxed (before ++ (m ∷ after))) (board m (before ++ (m ∷ after)) sees)
            (found_boxed m before after none_) k done s₁ k₁.0 (k₁.1 ∙ ap boxed e))
