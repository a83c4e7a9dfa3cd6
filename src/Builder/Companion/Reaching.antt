-- ===== src/Builder/Companion/Reaching.antt =====
-- How the calls of a companion reach its parachains.
use fudge.Prelude.{
  List, [], ◌∷◌, ◌++◌, ◌≡◌, refl, ap, sym, ◌∙◌, inl, inr, ◌⊎◌, Action, Holds, Holds-any,
}
use fudge.Node.{Node}
use fudge.Builder.Parachain
use fudge.Builder.Parachain.{Primitives}
use fudge.Builder.Parachain.Chain.{ParachainBuilder, put_collator}
use fudge.Builder.Parachain.Collator.{approved}
use fudge.Builder.Parachain.Moves.{Call, apply, run, judges}
use fudge.Builder.Parachain.Reading.{collation_same}
use fudge.Builder.RelayChain.{RelaychainBuilder}
use fudge.Builder.RelayChain.Chain.Outside.{Keeps, AllKeep, Out}
use fudge.Builder.Companion.Generated.{Member, member_collator, on_para}

module _ (n : Node) where
  -- A builder that is left as it was, or went through one of its calls.
  abbrev pub Made : ParachainBuilder n → ParachainBuilder n → Type 1
  Made s u = (u ≡ s) ⊎ ((c : Call n) × (u ≡ apply n c s))

  run-append :
      (cs ds : List (Call n)) (s : ParachainBuilder n) → run n (cs ++ ds) s ≡ run n ds (run n cs s)
  unfolding run
  run-append [] ds s = refl
  run-append (c ∷ cs) ds s = run-append cs ds (apply n c s)

module _ {t : Primitives} {G : Type 0} where
  -- The builder of one parachain does not change where another's is put.
  abbrev pub Apart : Member t G → Member t G → Type 0
  Apart m k = (b : ParachainBuilder k.node) (g : G) → m.get (k.put b g) ≡ m.get g

  -- The place of a parachain's builder, seen from a further parachain of the companion: their own, or apart.
  pub data Sees : Member t G → Member t G → Type 1 where
    own :
        (m : Member t G)
        → ((b : ParachainBuilder m.node) (g : G) → m.get (m.put b g) ≡ b)
        → Sees m m
    other : (m k : Member t G) → Apart m k → Sees m k

  abbrev pub AllSee : Member t G → List (Member t G) → Type 1
  AllSee m [] = Unit {1}
  AllSee m (k ∷ ks) = Sees m k × AllSee m ks

  -- One parachain's builder, after any number of its calls.
  abbrev pub Reaches : Member t G → G → G → Type 1
  Reaches m g g' = (cs : List (Call m.node)) × (m.get g' ≡ run m.node cs (m.get g))

  pub put-Reaches :
      (m k : Member t G) (sees : Sees m k) (g₀ g : G) (b : ParachainBuilder k.node)
      → Made k.node (k.get g) b
      → Reaches m g₀ g
      → Reaches m g₀ (k.put b g)
  unfolding run
  put-Reaches m _ (own _ law) g₀ g b (inl same) (cs, e) = (cs, law b g ∙ same ∙ e)
  put-Reaches m _ (own _ law) g₀ g b (inr (c, made)) (cs, e) = (
    cs ++ (c ∷ []),
    law b g ∙ made ∙ ap (λ s. apply m.node c s) e ∙ sym (run-append m.node cs (c ∷ []) (m.get g₀)),
  )
  put-Reaches m k (other _ _ apart) g₀ g b made (cs, e) = (cs, apart b g ∙ e)

  -- A boxed collator only takes its builder through a judgement, or leaves it.
  pub member_collator-Keeps :
      (m k : Member t G) (sees : Sees m k) (g₀ : G) → Keeps (Reaches m g₀) (member_collator k)
  unfolding member_collator apply
  member_collator-Keeps m k sees g₀ = (
    λ d g reached.
        put-Reaches m k sees g₀ g _
          (inl (
            ap (λ c. put_collator k.node (k.get g) c)
              (collation_same k.node k.cumulus d (record {
                world = (k.get g).builder.world;
                block_storage = (k.get g).block_storage;
              }))))
          reached,
    λ g reached. put-Reaches m k sees g₀ g _ (inr (judges approved, refl)) reached,
  )

module _ {t : Primitives} {n : Node} {G : Type 0} where
  -- The relay chain's builder, with every parachain's builder within reach of its calls.
  abbrev pub InReach : Member t G → G → RelaychainBuilder t n G → Type 1
  InReach m g₀ s = Out (Reaches m g₀) (AllKeep (Reaches m g₀)) s

  pub on_para-InReach :
      {A : Type 0} (m k : Member t G) (sees : Sees m k) (g₀ : G)
      (a : Action (ParachainBuilder k.node) (Parachain.Error k.node) A)
      (s : RelaychainBuilder t n G)
      → Made k.node (k.get s.outside) (a (k.get s.outside)).1
      → InReach m g₀ s
      → Holds (InReach m g₀) (on_para k a s)
  on_para-InReach m k sees g₀ a s made (reached, all_) =
      Holds-any (InReach m g₀) (on_para k a s)
        (put-Reaches m k sees g₀ s.outside _ made reached, all_)
