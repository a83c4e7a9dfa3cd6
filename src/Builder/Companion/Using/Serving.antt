-- ===== src/Builder/Companion/Using/Serving.antt =====
-- What the calls of a companion for one of its chains do to its parachains.
use fudge.Prelude.{
  ℕ, ◌==◌, none, List, [], ◌∷◌, Bool-cases, inl, inr, refl, Action, lift, recast, Holds, Holds-any,
  Holds-end, Holds-continue, Holds-then,
}
use fudge.Node.{Bytes, Node}
use fudge.Builder.Parachain.{Primitives}
use fudge.Builder.Parachain.Chain.{head, code, with_state_of}
use fudge.Builder.Parachain.Chain as ParaOps
use fudge.Builder.Parachain.Moves.{appends, mutates, apply}
use fudge.Builder.Parachain.Reading.{with_state_of_same}
use fudge.Builder.RelayChain.{RuntimeTypes, RelaychainBuilder}
use fudge.Builder.RelayChain
use fudge.Builder.RelayChain.Collations
use fudge.Builder.RelayChain.Collations.Keeping.{with_mut_state_lem}
use fudge.Builder.RelayChain.Chain as RelayOps
use fudge.Builder.Companion.Generated.{
  Member, Companion, Chain, relay, para, BuilderError, Closures, on_para, on_relay, dispatch,
  append_to, append_extrinsic, append_extrinsics, extrinsic_decode, with_state, with_mut_state,
}
use fudge.Builder.Companion.Reaching.{AllSee, Sees, InReach, on_para-InReach}

module _ {t : Primitives} {n : Node} {y : RuntimeTypes} {G : Type 0} (c : Companion t n y G)
    (m : Member t G) (g₀ : G) where
  pub on_relay-InReach :
      {A : Type 0} (a : Action (RelaychainBuilder t n G) (RelayChain.Error n) A)
      (s : RelaychainBuilder t n G)
      → Holds (InReach m g₀) (a s)
      → Holds (InReach m g₀) (on_relay c a s)
  on_relay-InReach a s h =
      Holds-any (InReach m g₀) (on_relay c a s) (Holds-end (InReach m g₀) (a s) h)

  pub dispatch-InReach :
      {A : Type 0} (call : Member t G → Action (RelaychainBuilder t n G) BuilderError A) (id : ℕ)
      (ms : List (Member t G)) (s : RelaychainBuilder t n G)
      → AllSee m ms
      → ((k : Member t G) → Sees m k → Holds (InReach m g₀) (call k s))
      → InReach m g₀ s
      → Holds (InReach m g₀) (dispatch call id ms s)
  unfolding dispatch
  dispatch-InReach call id [] s sees h r = r
  dispatch-InReach call id (k ∷ ks) s sees h r = elim (Bool-cases (id == k.id)) [
    | inl e ↦ rw e (h k sees.0)
    | inr e ↦ rw e (dispatch-InReach call id ks s sees.1 h r)
  ]

  pub append_extrinsic-InReach :
      (chain : Chain) (xt : Bytes) (s : RelaychainBuilder t n G)
      → AllSee m c.members
      → InReach m g₀ s
      → Holds (InReach m g₀) (append_extrinsic c chain xt s)
  unfolding append_extrinsic RelayOps.append_extrinsic apply
  append_extrinsic-InReach relay xt s sees r =
      Holds-then (InReach m g₀) (lift (recast extrinsic_decode (c.decode xt)) s) _ r (λ x s₁ r₁.
        Holds-then (InReach m g₀) (on_relay c (RelayOps.append_extrinsic x) s₁) _ r₁
          (λ _ s₂ r₂. r₂))
  append_extrinsic-InReach (para id) xt s sees r =
      dispatch-InReach (append_to c xt) id c.members s sees
        (λ k see.
          Holds-then (InReach m g₀) (lift (recast extrinsic_decode (k.decode xt)) s) _ r (λ x s₁ r₁.
            Holds-continue (InReach m g₀) (on_para k (ParaOps.append_extrinsic k.node x) s₁) _
              (on_para-InReach m k see g₀ (ParaOps.append_extrinsic k.node x) s₁
                (inr (appends x, refl)) r₁)
              (λ _ s₂ r₂. r₂)))
        r

  pub append_extrinsics-InReach :
      (chain : Chain) (xts : List Bytes) (s : RelaychainBuilder t n G)
      → AllSee m c.members
      → InReach m g₀ s
      → Holds (InReach m g₀) (append_extrinsics c chain xts s)
  unfolding append_extrinsics
  append_extrinsics-InReach chain [] s sees r = r
  append_extrinsics-InReach chain (xt ∷ xts) s sees r =
      Holds-continue (InReach m g₀) (append_extrinsic c chain xt s) _
        (append_extrinsic-InReach chain xt s sees r)
        (λ _ s₁ r₁. append_extrinsics-InReach chain xts s₁ sees r₁)

  pub with_state-InReach :
      {R : Type 0} (chain : Chain) (exec : Closures c R) (s : RelaychainBuilder t n G)
      → AllSee m c.members
      → InReach m g₀ s
      → Holds (InReach m g₀) (with_state c chain exec s)
  unfolding with_state Collations.with_state_of
  with_state-InReach relay exec s sees r =
      Holds-any (InReach m g₀) (on_relay c (Collations.with_state_of none exec.on_relay_chain) s) r
  with_state-InReach (para id) exec s sees r =
      dispatch-InReach _ id c.members s sees
        (λ k see.
          on_para-InReach m k see g₀ (with_state_of k.node none (exec.on_member k)) s
            (inl (with_state_of_same k.node none (exec.on_member k) (k.get s.outside))) r)
        r

  pub with_mut_state-InReach :
      {R : Type 0} (chain : Chain) (exec : Closures c R) (s : RelaychainBuilder t n G)
      → AllSee m c.members
      → InReach m g₀ s
      → Holds (InReach m g₀) (with_mut_state c chain exec s)
  unfolding with_mut_state apply
  with_mut_state-InReach relay exec s sees r =
      on_relay-InReach (Collations.with_mut_state none exec.on_relay_chain) s
        (with_mut_state_lem c.runtime (InReach m g₀) none exec.on_relay_chain s r (λ s b r. r))
  with_mut_state-InReach (para id) exec s sees r =
      dispatch-InReach _ id c.members s sees
        (λ k see.
          on_para-InReach m k see g₀ (ParaOps.with_mut_state k.node none (exec.on_member k)) s
            (inr (mutates none (exec.on_member k), refl)) r)
        r
