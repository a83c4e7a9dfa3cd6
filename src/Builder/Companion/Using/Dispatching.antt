-- ===== src/Builder/Companion/Using/Dispatching.antt =====
-- Which of a companion's chains a call reaches, and when an evolution cannot start.
use fudge.Builder.Parachain.Reading.{head_same}
use mathlib.Core.Path.{subst}
use fudge.Prelude.{
  continue, sym, ℕ, ◌==◌, true, false, none, some, List, [], ◌∷◌, Bool-cases, inl, inr, ◌≡◌, ◌≢◌,
  refl, ap, ◌∙◌, ok, err, panic, Result, Action, lift, recast, Holds, Holds-any, Holds-then,
  Holds-end,
}
use fudge.Node.{Node, Bytes}
use fudge.Builder.Parachain.{Primitives}
use fudge.Builder.Parachain.Chain as ParaOps
use fudge.Builder.RelayChain.{RuntimeTypes, RelaychainBuilder}
use fudge.Builder.RelayChain.Collations
use fudge.Builder.RelayChain.Chain as RelayOps
use fudge.Builder.Companion.Generated.{
  Member, Companion, para, BuilderError, parachain_not_found, extrinsic_decode, Closures, on_para,
  on_relay, dispatch, append_to, append_extrinsic, append_extrinsics, with_state, with_mut_state,
  evolve_one, evolve_each, evolve,
}
use fudge.Builder.Companion.Reaching.{Apart}

module _ {t : Primitives} {G : Type 0} where
  -- No parachain has the id.
  abbrev pub NoneHas : ℕ → List (Member t G) → Type 0
  NoneHas id [] = Unit {0}
  NoneHas id (k ∷ ks) = ((id == k.id) ≡ false) × NoneHas id ks

  -- Those that have the id have places apart from a parachain's.
  abbrev pub ElseApart : Member t G → ℕ → List (Member t G) → Type 0
  ElseApart m id [] = Unit {0}
  ElseApart m id (k ∷ ks) = ((id == k.id) ≡ true → Apart m k) × ElseApart m id ks

module _ {t : Primitives} {n : Node} {G : Type 0} where
  dispatch-NoneHas :
      {A : Type 0} (call : Member t G → Action (RelaychainBuilder t n G) BuilderError A) (id : ℕ)
      (ms : List (Member t G)) (s : RelaychainBuilder t n G)
      → NoneHas id ms
      → dispatch call id ms s ≡ (err (parachain_not_found id), s)
  unfolding dispatch
  dispatch-NoneHas call id [] s none_ = refl
  dispatch-NoneHas call id (k ∷ ks) s none_ = rw (none_.0) (dispatch-NoneHas call id ks s none_.1)

  -- What a call for one parachain leaves alone: another parachain's builder, and the relay chain's.
  abbrev pub Untouched : Member t G → RelaychainBuilder t n G → RelaychainBuilder t n G → Type 0
  Untouched m s u = (m.get u.outside ≡ m.get s.outside) × (u ≡ record s { outside = u.outside })

  dispatch-Untouched :
      {A : Type 0} (call : Member t G → Action (RelaychainBuilder t n G) BuilderError A)
      (m : Member t G) (id : ℕ) (ms : List (Member t G)) (s : RelaychainBuilder t n G)
      → ElseApart m id ms
      → ((k : Member t G) → Apart m k → Holds (Untouched m s) (call k s))
      → Holds (Untouched m s) (dispatch call id ms s)
  unfolding dispatch
  dispatch-Untouched call m id [] s apart h = (refl, refl)
  dispatch-Untouched call m id (k ∷ ks) s apart h = elim (Bool-cases (id == k.id)) [
    | inl e ↦ rw e (h k (apart.0 e))
    | inr e ↦ rw e (dispatch-Untouched call m id ks s apart.1 h)
  ]

module _ {t : Primitives} {n : Node} {y : RuntimeTypes} {G : Type 0} (c : Companion t n y G) where
  -- Calls for a parachain that the companion does not have fail with its id and change nothing: an extrinsic, and
  -- a closure on its state, to read or to write.
  pub calls-NoneHas :
      {R : Type 0} (id : ℕ) (xt : Bytes) (exec : Closures c R) (s : RelaychainBuilder t n G)
      → NoneHas id c.members
      → (append_extrinsic c (para id) xt s ≡ (err (parachain_not_found id), s))
        × (with_state c (para id) exec s ≡ (err (parachain_not_found id), s))
        × (with_mut_state c (para id) exec s ≡ (err (parachain_not_found id), s))
  unfolding append_extrinsic with_state with_mut_state
  calls-NoneHas id xt exec s none_ = (
    dispatch-NoneHas (append_to c xt) id c.members s none_,
    dispatch-NoneHas _ id c.members s none_,
    dispatch-NoneHas _ id c.members s none_,
  )

  append_to-Untouched :
      (m k : Member t G) (xt : Bytes) (s : RelaychainBuilder t n G)
      → Apart m k
      → Holds (Untouched m s) (append_to c xt k s)
  append_to-Untouched m k xt s apart =
      Holds-then (Untouched m s) (lift (recast extrinsic_decode (k.decode xt)) s) _ (refl, refl)
        (λ x s₁ k₁.
          Holds-then (Untouched m s) (on_para k (ParaOps.append_extrinsic k.node x) s₁) _
            (
              apart _ s₁.outside ∙ k₁.0,
              ap {A = RelaychainBuilder t n G}
                  (λ u. record u {
                    outside =
                        k.put (ParaOps.append_extrinsic k.node x (k.get s₁.outside)).1 s₁.outside;
                  })
                  k₁.1,
            )
            (λ _ s₂ k₂. k₂))

  append_extrinsics-Untouched :
      (m : Member t G) (id : ℕ) (xts : List Bytes) (s₀ s : RelaychainBuilder t n G)
      → ElseApart m id c.members
      → Untouched m s₀ s
      → Holds (Untouched m s₀) (append_extrinsics c (para id) xts s)
  unfolding append_extrinsics append_extrinsic
  append_extrinsics-Untouched m id [] s₀ s apart k = k
  append_extrinsics-Untouched m id (xt ∷ xts) s₀ s apart k =
      let m₁ = dispatch (append_to c xt) id c.members s in
      let k₁ = Holds-end (Untouched m s) m₁ (
        dispatch-Untouched (append_to c xt) m id c.members s apart
          (λ k a. append_to-Untouched m k xt s a)) in
      Holds-then (Untouched m s₀) m₁ _
        (
          k₁.0 ∙ k.0,
          k₁.1 ∙ ap {A = RelaychainBuilder t n G} (λ u. record u { outside = m₁.1.outside }) k.1,
        )
        (λ _ s₁ k₁. append_extrinsics-Untouched m id xts s₀ s₁ apart k₁)

  -- Calls for one parachain, failing and panicking ones included, leave the relay chain's builder and the builders
  -- of the other parachains as they were: extrinsics, and a closure that writes to its state.
  pub calls-Untouched :
      {R : Type 0} (m : Member t G) (id : ℕ) (xts : List Bytes) (exec : Closures c R)
      (s : RelaychainBuilder t n G)
      → ElseApart m id c.members
      → Holds (Untouched m s) (append_extrinsics c (para id) xts s)
        × Holds (Untouched m s) (with_mut_state c (para id) exec s)
  unfolding with_mut_state
  calls-Untouched m id xts exec s apart = (
    append_extrinsics-Untouched m id xts s s apart (refl, refl),
    dispatch-Untouched _ m id c.members s apart (λ k a.
        Holds-any (Untouched m s)
          (on_para k (ParaOps.with_mut_state k.node none (exec.on_member k)) s)
          (a _ s.outside, refl)),
  )

  update_para_head-waiting :
      (id : ℕ) (head : Bytes) (s : RelaychainBuilder t n G) (b : n.Block × n.StorageProof)
      → s.next ≡ some b
      → on_relay c (RelayOps.update_para_head c.runtime id head) s ≡ (panic, s)
  unfolding RelayOps.update_para_head Collations.with_mut_state
  update_para_head-waiting id head s b waits = rw waits refl

  -- What a call leaves that does not succeed and changes nothing.
  abbrev Unmoved :
      RelaychainBuilder t n G → Result BuilderError (Unit {0}) × RelaychainBuilder t n G → Type 0
  Unmoved s r = (r.0 ≢ ok tt) × (r.1 ≡ s)

  continue-Unmoved :
      {A : Type 0} (s : RelaychainBuilder t n G)
      (r : Result BuilderError A × RelaychainBuilder t n G)
      (f : A → Action (RelaychainBuilder t n G) BuilderError (Unit {0}))
      → r.1 ≡ s
      → ((a : A) → Unmoved s (f a s))
      → Unmoved s (continue f r)
  continue-Unmoved s (ok a, u) f e g = subst (λ u. Unmoved s (f a u)) (sym e) (g a)
  continue-Unmoved s (err x, u) f e g = ((λ q. cc), e)
  continue-Unmoved s (panic, u) f e g = ((λ q. cc), e)

  evolve_one-waiting :
      (m : Member t G) (s : RelaychainBuilder t n G) (b : n.Block × n.StorageProof)
      → ((g : G) → m.put (m.get g) g ≡ g)
      → s.next ≡ some b
      → Unmoved s (evolve_one c m s)
  unfolding evolve_one
  evolve_one-waiting m s b law waits =
      continue-Unmoved s (on_para m (ParaOps.head m.node m.cumulus) s) _
        (ap {A = G} (λ g. record s { outside = g })
          (ap (λ u. m.put u s.outside) (head_same m.node m.cumulus (m.get s.outside))
            ∙ law s.outside))
        (λ para_head.
          rw (update_para_head-waiting (m.get s.outside).id para_head s b waits) ((λ q. cc), refl))

  -- A companion with a parachain or more, whose relay chain has a block that is not imported yet, as an evolution leaves it that fails after
  -- it built one, does not evolve: the call fails or panics, and the relay chain's builder and all the parachains'
  -- are as before, so that none of them has built a block and the relay chain's still waits. To put the builder of
  -- the first parachain back where it was changes nothing.
  pub evolve-waiting :
      (m : Member t G) (ms : List (Member t G)) (s : RelaychainBuilder t n G)
      (b : n.Block × n.StorageProof)
      → c.members ≡ m ∷ ms
      → ((g : G) → m.put (m.get g) g ≡ g)
      → s.next ≡ some b
      → ((evolve c s).0 ≢ ok tt) × ((evolve c s).1 ≡ s)
  unfolding evolve evolve_each
  evolve-waiting m ms s b e law waits =
      rw e (stops (evolve_one c m s) (evolve_each c ms) (evolve_one-waiting m s b law waits))
    where
      stops :
          (r : Result BuilderError (Unit {0}) × RelaychainBuilder t n G)
          (rest : Action (RelaychainBuilder t n G) BuilderError (Unit {0}))
          → Unmoved s r
          → Unmoved s (continue (λ _. rest) r)
      stops (ok _, u) rest (never, e) = absurd (never refl)
      stops (err x, u) rest (never, e) = ((λ q. cc), e)
      stops (panic, u) rest (never, e) = ((λ q. cc), e)
