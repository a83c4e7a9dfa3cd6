-- ===== src/Builder/Companion/Using/Rounds.antt =====
-- What one round of evolving a companion keeps.
use fudge.Prelude.{List, inl, inr, Action, ℕ, Holds-any, refl, Holds, Holds-end, Holds-continue}
use fudge.Node.{Node, Bytes}
use fudge.Builder.Parachain
use fudge.Builder.Parachain.{Primitives}
use fudge.Builder.Parachain.Chain.{ParachainBuilder, head, code, with_state_of}
use fudge.Builder.Parachain.Chain as ParaOps
use fudge.Builder.Parachain.Moves.{builds, imports, apply}
use fudge.Builder.Parachain.Reading.{head_same}
use fudge.Builder.RelayChain.{Error, CollationBuilder, RuntimeTypes, RelaychainBuilder}
use fudge.Builder.RelayChain.Chain as RelayOps
use fudge.Builder.RelayChain.Chain.Outside.{
  Out, AllKeep, build_block-Out, import_block-Out, update_para_head-Out,
}
use fudge.Builder.Companion.Generated.{Member, Companion, on_para, on_relay, evolve_one}
use fudge.Builder.Companion.Reaching.{Made}

module _ {ν} {t : Primitives} {n : Node} {y : RuntimeTypes} {G : Type 0} (c : Companion t n y G)
    (P : G → Type ν) (D : List (ℕ × CollationBuilder t G) → Type ν)
    (d : (ps : List (ℕ × CollationBuilder t G)) → D ps → AllKeep P ps) where
  pub on_relay-Out :
      {A : Type 0} (a : Action (RelaychainBuilder t n G) (Error n) A) (s : RelaychainBuilder t n G)
      → Holds (Out P D) (a s)
      → Holds (Out P D) (on_relay c a s)
  on_relay-Out a s h = Holds-any (Out P D) (on_relay c a s) (Holds-end (Out P D) (a s) h)

  pub builds_relay :
      (s : RelaychainBuilder t n G)
      → Out P D s
      → Holds (Out P D) (on_relay c (RelayOps.build_block c.runtime) s)
  builds_relay s r =
      on_relay-Out (RelayOps.build_block c.runtime) s (build_block-Out c.runtime P D d s r)

  pub imports_relay :
      (s : RelaychainBuilder t n G)
      → Out P D s
      → Holds (Out P D) (on_relay c (RelayOps.import_block c.runtime) s)
  imports_relay s r =
      on_relay-Out (RelayOps.import_block c.runtime) s (import_block-Out c.runtime P D d s r)

  pub updates_relay :
      (id : ℕ) (para_head : Bytes) (s : RelaychainBuilder t n G)
      → Out P D s
      → Holds (Out P D) (on_relay c (RelayOps.update_para_head c.runtime id para_head) s)
  updates_relay id para_head s r =
      on_relay-Out (RelayOps.update_para_head c.runtime id para_head) s
        (update_para_head-Out c.runtime P D d id para_head s r)

  module _ (k : Member t G)
      (step : (u : ParachainBuilder k.node) (g : G)
        → Made k.node (k.get g) u
        → P g
        → P (k.put u g)) where
    on_para-Out :
        {A : Type 0} (a : Action (ParachainBuilder k.node) (Parachain.Error k.node) A)
        (s : RelaychainBuilder t n G)
        → Made k.node (k.get s.outside) (a (k.get s.outside)).1
        → Out P D s
        → Holds (Out P D) (on_para k a s)
    on_para-Out a s made r = Holds-any (Out P D) (on_para k a s) (step _ s.outside made r.0, r.1)

    -- A round for one parachain keeps what the calls on its builder and all collators keep.
    pub evolve_one-Out :
        (s : RelaychainBuilder t n G) → Out P D s → Holds (Out P D) (evolve_one c k s)
    unfolding evolve_one apply
    evolve_one-Out s r =
        Holds-continue (Out P D) (on_para k (head k.node k.cumulus) s) _
          (on_para-Out (head k.node k.cumulus) s
            (inl (head_same k.node k.cumulus (k.get s.outside))) r)
          (λ para_head s₁ r₁.
            Holds-continue (Out P D)
              (on_relay c (RelayOps.update_para_head c.runtime (k.get s₁.outside).id para_head) s₁)
              _ (updates_relay _ para_head s₁ r₁)
              (λ _ s₂ r₂.
                Holds-continue (Out P D) (on_relay c (RelayOps.build_block c.runtime) s₂) _
                  (builds_relay s₂ r₂)
                  (λ _ s₃ r₃.
                    Holds-continue (Out P D) (on_para k (ParaOps.build_block k.node) s₃) _
                      (on_para-Out (ParaOps.build_block k.node) s₃ (inr (builds, refl)) r₃)
                      (λ _ s₄ r₄.
                        Holds-continue (Out P D) (on_relay c (RelayOps.import_block c.runtime) s₄) _
                          (imports_relay s₄ r₄)
                          (λ _ s₅ r₅.
                            Holds-continue (Out P D)
                              (on_relay c (RelayOps.build_block c.runtime) s₅) _
                              (builds_relay s₅ r₅)
                              (λ _ s₆ r₆.
                                Holds-continue (Out P D)
                                  (on_relay c (RelayOps.import_block c.runtime) s₆) _
                                  (imports_relay s₆ r₆)
                                  (λ _ s₇ r₇.
                                    on_para-Out (ParaOps.import_block k.node) s₇
                                      (inr (imports, refl)) r₇)))))))
