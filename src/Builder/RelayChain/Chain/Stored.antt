-- ===== src/Builder/RelayChain/Chain/Stored.antt =====
-- What the relay chain's builder writes into the storage, as the best block then reads.
use fudge.Prelude.{
  none, some, Option, Result, ok, err, panic, Action, recast, assert, is_none, ◌≡◌, refl, sym, ap,
  ◌∙◌, Yields, Yields-any, Yields-continue, Yields-weaken,
}
use fudge.Node.{Node}
use fudge.Builder.Core
use fudge.Builder.Core.{Builder, commit}
use fudge.Builder.Core.State.{with_state}
use fudge.Builder.Core.Database.{Database}
use fudge.Builder.Core.Running.{Ran}
use fudge.Builder.Core.Commits.{Latest, with_state-commit_reads}
use fudge.Builder.Parachain.{Primitives}
use fudge.Builder.RelayChain.{
  Error, core_builder, on_core, RuntimeTypes, Runtime, Key, Val, RelaychainBuilder,
}
use fudge.Builder.RelayChain.Onboarding.{on_storage, returned}
use fudge.Builder.RelayChain.Collations.{with_mut_state}

returned-some : {E A : Type 0} (x e : Result E A) → returned x ≡ some e → x ≡ e
returned-some (ok a) e q = cc
returned-some (err x) e q = cc
returned-some panic e q = cc

-- The runtime's items are read from what the database keeps, and computing a root, opening a transaction
-- and closing it leave what they read as.
pub record Reading {t : Primitives} {n : Node} {y : RuntimeTypes} {V : Type 0} (r : Runtime t n y)
    (d : Database n V) : Type 0 where
  pub read : (k : Key y) → V → Option (Val t y k)
  pub reads : (k : Key y) (s : n.State) (o : n.Overlay) → r.get k s o ≡ read k (d.view s o)
  pub rooted :
      (k : Key y) (s : n.State) (v : n.StateVersion) (o : n.Overlay)
      → r.get k s (n.storage_root s v o) ≡ r.get k s o
  pub started :
      (k : Key y) (s : n.State) (o : n.Overlay)
      → r.get k s (n.storage_start_transaction o) ≡ r.get k s o
  pub closed :
      (k : Key y) (s : n.State) (o o' : n.Overlay)
      → n.storage_commit_transaction o ≡ ok o'
      → r.get k s o' ≡ r.get k s o

module _ {t : Primitives} {n : Node} {y : RuntimeTypes} {V : Type 0} (r : Runtime t n y)
    (d : Database n V) (reading : Reading r d) {G : Type 0} where
  open reading use {read, reads, rooted, started, closed}

  -- The best block's state is at hand and reads, item by item, as given.
  abbrev pub Best : ((k : Key y) → Option (Val t y k)) → RelaychainBuilder t n G → Type 0
  Best f s =
      (st : n.State) × (n.state_at (n.best_hash s.builder.world) s.builder.world ≡ ok st)
      × ((k : Key y) → r.get k st n.overlay_default ≡ f k)

  -- The action ran on an overlay that reads as the state, and the best block reads as it left it.
  abbrev pub Wrote :
      (n.World → n.State → Action n.Overlay (Error n) (Unit {0}))
      → n.State
      → Result (Error n) (Unit {0})
      → RelaychainBuilder t n G
      → Type 0
  Wrote m st e s' =
      (w : n.World) × (o : n.Overlay) × ((k : Key y) → r.get k st o ≡ r.get k st n.overlay_default)
      × ((m w st o).0 ≡ e)
      × Best (λ k. r.get k st (m w st o).1) s'

  Ran-Wrote :
      (m : n.World → n.State → Action n.Overlay (Error n) (Unit {0})) (st : n.State)
      (e : Result (Error n) (Unit {0})) (v : V) (s' : RelaychainBuilder t n G)
      → Ran d (on_storage n m) st e v
      → Latest d v s'.builder.world
      → Wrote m st e s'
  Ran-Wrote m st e v s' ran (st', found, view_) =
      let o = n.storage_start_transaction (n.storage_root st ran.version n.overlay_default) in
      (
        ran.world,
        o,
        λ k. started k st _ ∙ rooted k st ran.version n.overlay_default,
        returned-some (m ran.world st o).0 e (ap (λ x. x.0) ran.ran),
        (
          st',
          found,
          λ k.
              reads k st' n.overlay_default
              ∙ ap (λ u. read k u) (view_ ∙ ran.reads)
              ∙ sym (reads k st ran.closed)
              ∙ closed k st ran.after ran.closed ran.closes
              ∙ ap (λ x. r.get k st x) (sym (ap (λ x. x.1) ran.ran)),
        ),
      )

  on_core-Yields :
      {A : Type 0} (Q : A → Builder n → Type 0) (a : Action (Builder n) (Core.Error n) A)
      (s : RelaychainBuilder t n G)
      → Yields Q (a s.builder)
      → Yields (λ x s'. Q x s'.builder × (s'.parachains ≡ s.parachains)) (on_core a s)
  on_core-Yields {A} Q a s h = over (a s.builder) h
    where
      over :
          (m : Result (Core.Error n) A × Builder n)
          → Yields Q m
          → Yields
              (λ x s'. Q x s'.builder × (s'.parachains ≡ s.parachains))
              (recast core_builder m.0, record s { builder = m.1 })
      over (ok x, b) q = (q, refl)
      over (err x, b) q = tt
      over (panic, b) q = tt

  -- A change of the storage of the latest block that is not refused by the chain.
  pub with_mut_state-Wrote :
      (m : n.World → n.State → Action n.Overlay (Error n) (Unit {0})) (st : n.State)
      (s : RelaychainBuilder t n G)
      → n.state_at (n.best_hash s.builder.world) s.builder.world ≡ ok st
      → Yields
          (λ e s'. Wrote m st e s' × (s'.parachains ≡ s.parachains))
          (with_mut_state none (on_storage n m) s)
  unfolding with_mut_state
  with_mut_state-Wrote m st s e =
      let Q = λ (x : Result (Error n) (Unit {0})) (s' : RelaychainBuilder t n G).
        Wrote m st x s' × (s'.parachains ≡ s.parachains) in
      Yields-continue {A = Unit {0}} (λ _ s'. s' ≡ s) Q (assert (λ s. is_none s.next) s) _
        (Yields-any (λ _ s'. s' ≡ s) (assert (λ s. is_none s.next) s) (λ _. refl))
        (λ _ s₁ e₁. rw (e₁) (
          Yields-weaken _ Q (on_core (with_state n commit none (on_storage n m)) s)
            (on_core-Yields (λ x b. (v : V) × Ran d (on_storage n m) st x v × Latest d v b.world)
              (with_state n commit none (on_storage n m)) s
              (with_state-commit_reads d (on_storage n m) st s.builder e))
            (λ x s' ((v, ran, l), same). (Ran-Wrote m st x v s' ran l, same))))
