-- ===== src/Builder/Companion/Using/Evolving.antt =====
-- What creating and evolving a companion, and any sequence of calls on it, do to its parachains.
use mathlib.Core.List.{Sublist}
use mathlib.Core.List.Sublist
use fudge.Prelude.{List, [], ◌∷◌, ◌++◌, inl, ◌≡◌, refl, Holds, Holds-end, Holds-continue}
use fudge.Node.{Node}
use fudge.Builder.Parachain.{Primitives}
use fudge.Builder.Parachain.Moves.{
  builds, imports, appends, mutates, apply, run, built_in, in_order,
}
use fudge.Builder.Parachain.Moves as Moves
use fudge.Builder.Parachain.Stages.{run-in_order}
use fudge.Builder.RelayChain.{RuntimeTypes, RelaychainBuilder}
use fudge.Builder.RelayChain.Chain.Outside.{AllKeep}
use fudge.Builder.Companion.Generated.{
  Member, Companion, new, append_extrinsics, with_state, with_mut_state, evolve_one, evolve_each,
  evolve,
}
use fudge.Builder.Companion.Reaching.{AllSee, InReach, Reaches, member_collator-Keeps, put-Reaches}
use fudge.Builder.Companion.Using.{Use, submits, reads, writes, evolves, use_once, use_all}
use fudge.Builder.Companion.Using.Rounds.{evolve_one-Out}
use fudge.Builder.Companion.Using.Onboarding.{AllSettled, new-Kept}
use fudge.Builder.Companion.Using.Serving.{
  append_extrinsics-InReach, with_state-InReach, with_mut_state-InReach,
}

module _ {t : Primitives} {n : Node} {y : RuntimeTypes} {G : Type 0} (c : Companion t n y G)
    (m : Member t G) (g₀ : G) where
  evolve_each-InReach :
      (ks : List (Member t G)) (s : RelaychainBuilder t n G)
      → AllSee m ks
      → InReach m g₀ s
      → Holds (InReach m g₀) (evolve_each c ks s)
  unfolding evolve_each
  evolve_each-InReach [] s sees r = r
  evolve_each-InReach (k ∷ ks) s sees r =
      Holds-continue (InReach m g₀) (evolve_one c k s) _
        (evolve_one-Out c (Reaches m g₀) (AllKeep (Reaches m g₀)) (λ _ k. k) k
          (λ u g made. put-Reaches m k sees.0 g₀ g u made) s r)
        (λ _ s₁ r₁. evolve_each-InReach ks s₁ sees.1 r₁)

  see-Settled : (ks : List (Member t G)) → AllSee m ks → AllSettled (Reaches m g₀) ks
  see-Settled [] sees = tt
  see-Settled (k ∷ ks) sees = (
    (
      member_collator-Keeps m k sees.0 g₀,
      λ u g same reached. put-Reaches m k sees.0 g₀ g u (inl same) reached,
    ),
    see-Settled ks sees.1,
  )

  use_all-InReach :
      (us : List (Use c)) (s : RelaychainBuilder t n G)
      → AllSee m c.members
      → InReach m g₀ s
      → InReach m g₀ (use_all c us s)
  unfolding use_all use_once evolve
  use_all-InReach [] s sees r = r
  use_all-InReach (submits chain xts ∷ us) s sees r = use_all-InReach us _ sees (
      Holds-end (InReach m g₀) (append_extrinsics c chain xts s)
        (append_extrinsics-InReach c m g₀ chain xts s sees r))
  use_all-InReach (reads chain exec ∷ us) s sees r = use_all-InReach us _ sees (
      Holds-end (InReach m g₀) (with_state c chain exec s)
        (with_state-InReach c m g₀ chain exec s sees r))
  use_all-InReach (writes chain exec ∷ us) s sees r = use_all-InReach us _ sees (
      Holds-end (InReach m g₀) (with_mut_state c chain exec s)
        (with_mut_state-InReach c m g₀ chain exec s sees r))
  use_all-InReach (evolves ∷ us) s sees r = use_all-InReach us _ sees (
      Holds-end (InReach m g₀) (evolve_each c c.members s) (evolve_each-InReach c.members s sees r))

module _ {t : Primitives} {n : Node} {y : RuntimeTypes} {G : Type 0} (c : Companion t n y G) where
  -- From a relay chain's builder that has no parachain yet, and whatever calls follow the creation of the
  -- companion, failing and panicking ones included: what the companion does to the builder of a parachain is a
  -- sequence of that builder's own calls and of judgements on its collator, and so its blocks stay in the order
  -- in which they were built, none twice for one build and none made up. The other parachains' builders have
  -- places of their own.
  pub use_all-Reaches :
      (m : Member t G) (us : List (Use c)) (s : RelaychainBuilder t n G)
      → s.parachains ≡ []
      → AllSee m c.members
      → (cs : List (Moves.Call m.node)) × (m.get (use_all c us (new c s).1).outside
          ≡ run m.node cs (m.get s.outside))
        × Sublist
            (in_order m.node (m.get (use_all c us (new c s).1).outside))
            (in_order m.node (m.get s.outside) ++ built_in m.node cs (m.get s.outside))
  unfolding run new
  use_all-Reaches m us s none_ sees =
      let created = Holds-end (InReach m s.outside) (new c s) (
        new-Kept c (Reaches m s.outside) s (see-Settled c m s.outside c.members sees)
          (([], refl), rw none_ tt)) in
      let ((cs, e), _) = use_all-InReach c m s.outside us (new c s).1 sees created in
      (
        cs,
        e,
        rw e (
            run-in_order m.node cs (m.get s.outside) (in_order m.node (m.get s.outside))
              (Sublist.refl (in_order m.node (m.get s.outside)))),
      )
