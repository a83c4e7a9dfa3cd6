-- ===== src/Builder/Companion/Using/Onboarding.antt =====
-- What creating a companion keeps of its parachains' builders.
use fudge.Prelude.{List, [], ◌∷◌, ◌≡◌, Action, Holds, Holds-any, Holds-continue}
use fudge.Node.{Node}
use fudge.Builder.Parachain
use fudge.Builder.Parachain.{Primitives}
use fudge.Builder.Parachain.Chain.{ParachainBuilder, head, code}
use fudge.Builder.Parachain.Reading.{head_same, code_same}
use fudge.Builder.RelayChain.{RuntimeTypes, RelaychainBuilder}
use fudge.Builder.RelayChain.Chain as RelayOps
use fudge.Builder.RelayChain.Chain.{onboard_para}
use fudge.Builder.RelayChain.Chain.Outside.{Keeps, AllKeep, AllKeep-snoc, Out, onboard_para-Out}
use fudge.Builder.Companion.Generated.{
  Member, Companion, on_para, on_relay, member_collator, onboard, onboard_each, new,
}
use fudge.Builder.Companion.Using.Rounds.{on_relay-Out, builds_relay, imports_relay}

module _ {ν} {t : Primitives} {G : Type 0} (P : G → Type ν) where
  -- A parachain whose collator keeps `P`, and whose builder may be put back where it was.
  abbrev pub Settled : Member t G → Type ν
  Settled k =
      Keeps P (member_collator k)
      × ((u : ParachainBuilder k.node) (g : G) → u ≡ k.get g → P g → P (k.put u g))

  abbrev pub AllSettled : List (Member t G) → Type ν
  AllSettled [] = Unit {ν}
  AllSettled (k ∷ ks) = Settled k × AllSettled ks

module _ {ν} {t : Primitives} {n : Node} {y : RuntimeTypes} {G : Type 0} (c : Companion t n y G)
    (P : G → Type ν) where
  abbrev Kept : RelaychainBuilder t n G → Type ν
  Kept s = Out P (AllKeep P) s

  on_para-Kept :
      {A : Type 0} (k : Member t G)
      (a : Action (ParachainBuilder k.node) (Parachain.Error k.node) A)
      (s : RelaychainBuilder t n G)
      → Settled P k
      → (a (k.get s.outside)).1 ≡ k.get s.outside
      → Kept s
      → Holds Kept (on_para k a s)
  on_para-Kept k a s settled same (p, all_) =
      Holds-any Kept (on_para k a s) (settled.1 _ s.outside same p, all_)

  onboard-Kept :
      (k : Member t G) (s : RelaychainBuilder t n G)
      → Settled P k
      → Kept s
      → Holds Kept (onboard c k s)
  onboard-Kept k s settled r =
      Holds-continue Kept (on_para k (head k.node k.cumulus) s) _
        (on_para-Kept k (head k.node k.cumulus) s settled
          (head_same k.node k.cumulus (k.get s.outside)) r)
        (λ para_head s₁ r₁.
          Holds-continue Kept (on_para k (code k.node) s₁) _
            (on_para-Kept k (code k.node) s₁ settled (code_same k.node (k.get s₁.outside)) r₁)
            (λ code_ s₂ r₂.
              on_relay-Out c P (AllKeep P) (λ _ k. k)
                (onboard_para c.runtime (record { id = k.id; head = para_head; code = code_ })
                  (member_collator k))
                s₂
                (onboard_para-Out c.runtime P (AllKeep P) (λ _ k. k) _ (member_collator k) s₂
                  (λ ps all_. AllKeep-snoc P ps k.id (member_collator k) all_ settled.0) r₂)))

  onboard_each-Kept :
      (ks : List (Member t G)) (s : RelaychainBuilder t n G)
      → AllSettled P ks
      → Kept s
      → Holds Kept (onboard_each c ks s)
  unfolding onboard_each
  onboard_each-Kept [] s settled r = r
  onboard_each-Kept (k ∷ ks) s settled r =
      Holds-continue Kept (onboard c k s) _ (onboard-Kept k s settled.0 r)
        (λ _ s₁ r₁. onboard_each-Kept ks s₁ settled.1 r₁)

  -- Creating a companion keeps what its collators keep.
  pub new-Kept :
      (s : RelaychainBuilder t n G) → AllSettled P c.members → Kept s → Holds Kept (new c s)
  unfolding new
  new-Kept s settled r =
      Holds-continue Kept (onboard_each c c.members s) _ (onboard_each-Kept c.members s settled r)
        (λ _ s₁ r₁.
          Holds-continue Kept (on_relay c (RelayOps.build_block c.runtime) s₁) _
            (builds_relay c P (AllKeep P) (λ _ k. k) s₁ r₁)
            (λ _ s₂ r₂. imports_relay c P (AllKeep P) (λ _ k. k) s₂ r₂))
