-- ===== src/Builder/RelayChain/Chain/Items.antt =====
-- What onboarding, new heads and refused enactments leave in the best block's state.
use fudge.Prelude.{
  ℕ, ◌==◌, ◌≢◌, none, some, [], ◌∷◌, ◌++◌, Result, ok, lift, ◌≡◌, ap, ◌∙◌, contains, false,
  if◌then◌else◌, Yields, Yields-any, Yields-continue, Yields-weaken,
}
use fudge.Node.{Node, Bytes}
use fudge.Builder.Core.Database.{Database}
use fudge.Builder.Parachain.{Primitives}
use fudge.Builder.RelayChain.{
  Error, RuntimeTypes, Runtime, Key, heads, para_lifecycles, parachains,
  pending_availability_commitments, Collected, CollationBuilder, RelaychainBuilder,
}
use fudge.Builder.RelayChain.Onboarding.{
  on_storage, FudgeParaChain, add_parachain, get_or_default, onboard_storage, head_storage,
}
use fudge.Builder.RelayChain.Onboarding.Storage.{onboard_storage_lem}
use fudge.Builder.RelayChain.Collations.{with_mut_state, enact_storage, commitments_of}
use fudge.Builder.RelayChain.Collations.Enacting.{enact_storage_unknown}
use fudge.Builder.RelayChain.Chain.{onboard_para, update_para_head}
use fudge.Builder.RelayChain.Chain.Stored.{Reading, Wrote, with_mut_state-Wrote}

module _ {t : Primitives} {n : Node} {y : RuntimeTypes} {V : Type 0} (r : Runtime t n y)
    (d : Database n V) (reading : Reading r d) {G : Type 0} where
  -- The best block reads as the state with the parachain on board.
  abbrev pub Onboards : FudgeParaChain → n.State → RelaychainBuilder t n G → Type 0
  Onboards para st s =
      (st' : n.State) × (n.state_at (n.best_hash s.builder.world) s.builder.world ≡ ok st')
      × (r.get parachains st' n.overlay_default
          ≡ some
              (add_parachain para.id (get_or_default [] (r.get parachains st n.overlay_default))))
      × ((a : ℕ)
          → r.get (heads a) st' n.overlay_default
            ≡ (if a == para.id then some para.head else r.get (heads a) st n.overlay_default))
      × ((a : ℕ)
          → r.get (para_lifecycles a) st' n.overlay_default ≡ (
              if a == para.id
              then some r.parachain
              else r.get (para_lifecycles a) st n.overlay_default))

  Wrote-Onboards :
      (para : FudgeParaChain) (st : n.State) (e : Result (Error n) (Unit {0}))
      (s' : RelaychainBuilder t n G)
      → Wrote r d reading (λ w s. onboard_storage r s para) st e s'
      → Onboards para st s'
  Wrote-Onboards para st e s' (w, o, same, _, (st', found, now)) =
      let (_, paras, heads_, lifecycles) = onboard_storage_lem r st para o in
      (
        st',
        found,
        now parachains
            ∙ paras
            ∙ ap (λ x. some (add_parachain para.id (get_or_default [] x))) (same parachains),
        λ a.
            now (heads a)
            ∙ heads_ a
            ∙ ap (λ x. if a == para.id then some para.head else x) (same (heads a)),
        λ a.
            now (para_lifecycles a)
            ∙ lifecycles a
            ∙ ap (λ x. if a == para.id then some r.parachain else x) (same (para_lifecycles a)),
      )

  -- Over a database that keeps what is written to it, from which the runtime reads its items, and with the
  -- state of the latest block at hand: where `onboard_para` succeeds, the best block's state has the
  -- parachain in its list of parachains, its head as given and its lifecycle as that of a parachain, has
  -- the heads and lifecycles of all others as they were, and the collator is the last that is on board.
  pub onboard_para-Onboards :
      (para : FudgeParaChain) (collator : CollationBuilder t G) (st : n.State)
      (s : RelaychainBuilder t n G)
      → n.state_at (n.best_hash s.builder.world) s.builder.world ≡ ok st
      → Yields
          (λ _ s'.
            Onboards para st s' × (s'.parachains ≡ s.parachains ++ ((para.id, collator) ∷ [])))
          (onboard_para r para collator s)
  unfolding onboard_para
  onboard_para-Onboards para collator st s e =
      let m = λ (w : n.World) (s : n.State). onboard_storage {n = n} r s para in
      let P =
        λ (s' : RelaychainBuilder t n G). Onboards para st s' × (s'.parachains ≡ s.parachains) in
      let Q = λ (_ : Unit {0}) (s' : RelaychainBuilder t n G).
        Onboards para st s' × (s'.parachains ≡ s.parachains ++ ((para.id, collator) ∷ [])) in
      Yields-continue {A = Result (Error n) (Unit {0})} (λ _. P) Q
        (with_mut_state none (on_storage n m) s) _
        (Yields-weaken _ (λ _. P) (with_mut_state none (on_storage n m) s)
          (with_mut_state-Wrote r d reading m st s e)
          (λ x s' (wrote, same). (Wrote-Onboards para st x s' wrote, same)))
        (λ x s₁ p.
          Yields-continue {A = Unit {0}} (λ _. P) Q (lift x s₁) _
            (Yields-any (λ _. P) (lift x s₁) (λ _. p))
            (λ _ s₂ (k, same). (k, ap (λ l. l ++ ((para.id, collator) ∷ [])) same)))

  -- Over a database that keeps what is written to it, from which the runtime reads its items, and with the state
  -- of the latest block at hand: where `update_para_head` succeeds, the best block's state has the given head
  -- for the parachain and every other item as it was, and the parachains on board stay.
  pub update_para_head-reads :
      (id : ℕ) (head : Bytes) (st : n.State) (s : RelaychainBuilder t n G)
      → n.state_at (n.best_hash s.builder.world) s.builder.world ≡ ok st
      → Yields
          (λ _ s'.
            ((st' : n.State) × (n.state_at (n.best_hash s'.builder.world) s'.builder.world ≡ ok st')
              × (r.get (heads id) st' n.overlay_default ≡ some head)
              × ((k : Key y)
                  → k ≢ heads id
                  → r.get k st' n.overlay_default ≡ r.get k st n.overlay_default))
            × (s'.parachains ≡ s.parachains))
          (update_para_head r id head s)
  unfolding update_para_head head_storage
  update_para_head-reads id head st s e =
      let m = λ (w : n.World) (s : n.State). head_storage {n = n} r s id head in
      Yields-continue {A = Result (Error n) (Unit {0})}
        (λ x s'. Wrote r d reading m st x s' × (s'.parachains ≡ s.parachains)) _
        (with_mut_state none (on_storage n m) s) _ (with_mut_state-Wrote r d reading m st s e)
        (λ x s₁ ((w, o, same, _, (st', found, now)), kept). Yields-any _ (lift x s₁) (λ _. (
          (
            st',
            found,
            now (heads id) ∙ r.get-put_self (heads id) head st o,
            λ k d. now k ∙ r.get-put_ne k (heads id) head st o d ∙ same k,
          ),
          kept,
        )))

  -- Over a database that keeps what is written to it, from which the runtime reads its items, and with the state
  -- of the latest block at hand: where that state does not have the parachain of a collation, the change by which
  -- `force_enact_collations` enacts the collation gives an error, and where it is committed all the same, the best
  -- block's state has the collation's commitments as pending, and every other item as it was.
  pub enact_unknown-reads :
      (parent : n.Hash) (number : ℕ) (c : Collected t n) (pvd : t.PersistedValidationData)
      (st : n.State) (s : RelaychainBuilder t n G)
      → n.state_at (n.best_hash s.builder.world) s.builder.world ≡ ok st
      → contains c.id (get_or_default [] (r.get parachains st n.overlay_default)) ≡ false
      → Yields
          (λ e s'.
            (e ≢ ok tt)
            × ((st' : n.State) × (n.state_at (n.best_hash s'.builder.world) s'.builder.world
                  ≡ ok st')
                × (r.get (pending_availability_commitments c.id) st' n.overlay_default
                    ≡ some (commitments_of r c.collation))
                × ((k : Key y)
                    → k ≢ pending_availability_commitments c.id
                    → r.get k st' n.overlay_default ≡ r.get k st n.overlay_default)))
          (with_mut_state none (on_storage n (enact_storage r parent number c pvd)) s)
  enact_unknown-reads parent number c pvd st s e absent =
      let m = enact_storage r parent number c pvd in
      Yields-weaken _ _ (with_mut_state none (on_storage n m) s)
        (with_mut_state-Wrote r d reading m st s e)
        (λ x s' ((w, o, same, result, (st', found, now)), _).
          let gone = ap (λ l. contains c.id (get_or_default [] l)) (same parachains) ∙ absent in
          let (fails, left) = enact_storage_unknown r parent number c pvd w st o gone in
          let key : Key y = pending_availability_commitments c.id in
          let kept = λ (k : Key y). now k ∙ ap (λ u. r.get k st u) left in
          (
            λ q. fails (result ∙ q),
            (
              st',
              found,
              kept key ∙ r.get-put_self key (commitments_of r c.collation) st o,
              λ k d. kept k ∙ r.get-put_ne k key (commitments_of r c.collation) st o d ∙ same k,
            ),
          ))
