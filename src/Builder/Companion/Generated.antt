-- ===== src/Builder/Companion/Generated.antt =====
-- core/src/builder/companion/src/expand/mod.rs: the code that the macro writes for a definition, with `ParaId` and
-- `Chain` of fudge/src/lib.rs. The fields of the struct that are no builders are stored and never read, and
-- tracing spans are left out.
use fudge.Prelude.{
  ℕ, ◌==◌, InnerError, Result, Action, List, [], ◌∷◌, none, ◌>>=◌, ◌>>◌, pure, throw, gets, lift,
  recast, map_err, zoom, if◌then◌else◌,
}
use fudge.Node.{Node, Bytes, Exec}
use fudge.Builder.Parachain
use fudge.Builder.Parachain.{Primitives, Cumulus, Boxed, FudgeCollator}
use fudge.Builder.Parachain.Collator
use fudge.Builder.Parachain.Chain.{ParachainBuilder, shared}
use fudge.Builder.Parachain.Chain as ParaOps
use fudge.Builder.RelayChain
use fudge.Builder.RelayChain.{RuntimeTypes, Runtime, CollationBuilder, RelaychainBuilder}
use fudge.Builder.RelayChain.Collations
use fudge.Builder.RelayChain.Chain as RelayOps

pub data BuilderError : Type 0 where
  standalone parachain relaychain extrinsic_decode : InnerError → BuilderError
  parachain_not_found : ℕ → BuilderError

-- `primitives::Chain`
pub data Chain : Type 0 where
  relay : Chain
  para : ℕ → Chain

-- A parachain of the companion: the id given in its attribute, its builder among the companion's, what
-- decodes its extrinsics, and the text of its errors.
pub record Member (t : Primitives) (G : Type 0) : Type 1 where
  pub node : Node
  pub id : ℕ
  pub cumulus : Cumulus t node
  pub get : G → ParachainBuilder node
  pub put : ParachainBuilder node → G → G
  pub decode : Bytes → Result InnerError node.Extrinsic
  pub text : Parachain.Error node → InnerError
  pub collator_text : Boxed node → InnerError

-- The companion, whose builders are the relay chain's with `G` as the place of the parachains'.
pub record Companion (t : Primitives) (n : Node) (y : RuntimeTypes) (G : Type 0) : Type 1 where
  pub runtime : Runtime t n y
  pub decode : Bytes → Result InnerError n.Extrinsic
  pub text : RelayChain.Error n → InnerError
  pub members : List (Member t G)

module _ {t : Primitives} {G : Type 0} (m : Member t G) where
  -- A call of the collator, which acts on the handles that it shares with its builder.
  abbrev pub on_collator :
      {A : Type 0} → Action (FudgeCollator m.node) (Boxed m.node) A → Action G InnerError A
  on_collator a = zoom m.get (λ g s. m.put s g) (map_err m.collator_text (shared m.node a))

  -- The boxed `collator()` of a parachain
  unfoldable pub member_collator : CollationBuilder t G
  unfolding Collator.collation Collator.judge
  member_collator = record {
    collation =
        λ validation_data. on_collator (Collator.collation m.node m.cumulus validation_data);
    judge = λ judgement. on_collator (Collator.judge m.node judgement);
  }

module _ {t : Primitives} {n : Node} {G : Type 0} where
  -- A call of a parachain's builder.
  abbrev pub on_para :
      {A : Type 0}
      → (m : Member t G) → Action (ParachainBuilder m.node) (Parachain.Error m.node) A
      → Action (RelaychainBuilder t n G) BuilderError A
  on_para m a =
      map_err (λ e. parachain (m.text e))
        (zoom (λ s. m.get s.outside) (λ s b. record s { outside = m.put b s.outside }) a)

  -- The arms of a match on the id of a parachain: the first one that has the id is taken.
  unfoldable pub dispatch :
      {A : Type 0}
      → (Member t G → Action (RelaychainBuilder t n G) BuilderError A)
      → ℕ
      → List (Member t G)
      → Action (RelaychainBuilder t n G) BuilderError A
  dispatch call id [] = throw (parachain_not_found id)
  dispatch call id (m ∷ ms) = if id == m.id then call m else dispatch call id ms

module _ {t : Primitives} {n : Node} {y : RuntimeTypes} {G : Type 0} (c : Companion t n y G) where
  -- A call of the relay chain's builder.
  abbrev pub on_relay :
      {A : Type 0}
      → Action (RelaychainBuilder t n G) (RelayChain.Error n) A
      → Action (RelaychainBuilder t n G) BuilderError A
  on_relay a = map_err (λ e. relaychain (c.text e)) a

  abbrev pub onboard : Member t G → Action (RelaychainBuilder t n G) BuilderError (Unit {0})
  onboard m = do
    head ← on_para m (ParaOps.head m.node m.cumulus)
    code ← on_para m (ParaOps.code m.node)
    on_relay (
        RelayOps.onboard_para c.runtime (record { id = m.id; head = head; code = code })
          (member_collator m))

  unfoldable pub onboard_each :
      List (Member t G) → Action (RelaychainBuilder t n G) BuilderError (Unit {0})
  onboard_each [] = pure tt
  onboard_each (m ∷ ms) = do onboard m; onboard_each ms

  -- `new`, of the builders that it is given
  unfoldable pub new : Action (RelaychainBuilder t n G) BuilderError (Unit {0})
  unfolding onboard_each
  new = do
    onboard_each c.members
    on_relay (RelayOps.build_block c.runtime)
    on_relay (RelayOps.import_block c.runtime)

  abbrev pub append_to :
      Bytes → Member t G → Action (RelaychainBuilder t n G) BuilderError (Unit {0})
  append_to xt m = do
    xt ← lift (recast extrinsic_decode (m.decode xt))
    on_para m (ParaOps.append_extrinsic m.node xt)
    pure tt

  unfoldable pub append_extrinsic :
      Chain → Bytes → Action (RelaychainBuilder t n G) BuilderError (Unit {0})
  unfolding dispatch
  append_extrinsic relay xt = do
    xt ← lift (recast extrinsic_decode (c.decode xt))
    on_relay (RelayOps.append_extrinsic xt)
    pure tt
  append_extrinsic (para id) xt = dispatch (append_to xt) id c.members

  unfoldable pub append_extrinsics :
      Chain → List Bytes → Action (RelaychainBuilder t n G) BuilderError (Unit {0})
  unfolding append_extrinsic
  append_extrinsics chain [] = pure tt
  append_extrinsics chain (xt ∷ xts) = do append_extrinsic chain xt; append_extrinsics chain xts

  -- A closure for whichever chain is meant: it runs on the state of the relay chain, or of a member.
  pub record Closures (R : Type 0) : Type 1 where
    pub on_relay_chain : Exec n R
    pub on_member : (m : Member t G) → Exec m.node R

  unfoldable pub with_state :
      {R : Type 0} → Chain → Closures R → Action (RelaychainBuilder t n G) BuilderError R
  unfolding dispatch
  with_state relay exec = on_relay (Collations.with_state_of none exec.on_relay_chain)
  with_state (para id) exec =
      dispatch (λ m. on_para m (ParaOps.with_state_of m.node none (exec.on_member m))) id c.members

  unfoldable pub with_mut_state :
      {R : Type 0} → Chain → Closures R → Action (RelaychainBuilder t n G) BuilderError R
  unfolding dispatch
  with_mut_state relay exec = on_relay (Collations.with_mut_state none exec.on_relay_chain)
  with_mut_state (para id) exec =
      dispatch (λ m. on_para m (ParaOps.with_mut_state m.node none (exec.on_member m))) id c.members

  -- What `evolve` does for one parachain.
  unfoldable pub evolve_one : Member t G → Action (RelaychainBuilder t n G) BuilderError (Unit {0})
  evolve_one m = do
    para_head ← on_para m (ParaOps.head m.node m.cumulus)
    id ← gets (λ s. (m.get s.outside).id)
    on_relay (RelayOps.update_para_head c.runtime id para_head)
    on_relay (RelayOps.build_block c.runtime)
    on_para m (ParaOps.build_block m.node)
    on_relay (RelayOps.import_block c.runtime)
    on_relay (RelayOps.build_block c.runtime)
    on_relay (RelayOps.import_block c.runtime)
    on_para m (ParaOps.import_block m.node)

  unfoldable pub evolve_each :
      List (Member t G) → Action (RelaychainBuilder t n G) BuilderError (Unit {0})
  unfolding evolve_one
  evolve_each [] = pure tt
  evolve_each (m ∷ ms) = do evolve_one m; evolve_each ms

  unfoldable pub evolve : Action (RelaychainBuilder t n G) BuilderError (Unit {0})
  unfolding evolve_each
  evolve = evolve_each c.members
