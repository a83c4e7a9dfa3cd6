-- ===== src/Builder/RelayChain/Chain/Turning.antt =====
-- How the calls of the relay chain's builder move its blocks on.
use mathlib.Core.List.{Sublist}
use mathlib.Core.List.Sublist
use fudge.Prelude.{
  Option, none, some, List, [], ◌∷◌, ◌++◌, Option-cases, inl, inr, Result, ok, ◌≡◌, refl, arith,
  continue, Action, ◌>>◌, modify, lift, Holds, Holds-any, Holds-end, Holds-continue, Holds-then,
  Leaves-weaken, Leaves-continue,
}
use fudge.Node.{Node, BlockId, Exec, Setup}
use fudge.Builder.Core.Blocks
use fudge.Builder.Common.{propose_block}
use fudge.Builder.Common.Turns.{
  in_order, left, built_turn, imported_turn, Turns, stays, run, built_in, run_in_order,
}
use fudge.Builder.Parachain.{Primitives}
use fudge.Builder.RelayChain.{
  Error, casts, on_builder, on_core, RuntimeTypes, Runtime, RelaychainBuilder,
}
use fudge.Builder.RelayChain.Collations.{
  with_state_of, with_mut_state, force_enact_collations, collect_collations,
}
use fudge.Builder.RelayChain.Collations.Keeping.{
  with_mut_state_lem, Kept, Collecting, force_enact_collations-Kept, collect_collations-Collecting,
}
use fudge.Builder.RelayChain.Chain.{
  new_relaychain, append_extrinsic, update_para_head, onboard_para, build_block, block_params,
  import_block,
}
use fudge.Builder.RelayChain.Chain.Calls.{
  Call, onboards, updates_head, appends, transitions, builds, imports_, reads, changes, apply,
}

abbrev Built : Node → Type 0
Built n = n.Block × n.StorageProof

module _ {t : Primitives} {n : Node} {y : RuntimeTypes} (r : Runtime t n y) {G : Type 0} where
  unfoldable pub built_by : Call t n G → RelaychainBuilder t n G → List (Built n)
  built_by builds s = left (λ s. s.imports) (λ s. s.next) (build_block r s)
  built_by _ s = []

  abbrev Moves : RelaychainBuilder t n G → RelaychainBuilder t n G → List (Built n) → Type 0
  Moves s u bs = Turns (λ s. s.imports) (λ s. s.next) s u bs

  -- The blocks are where they were.
  abbrev Same : RelaychainBuilder t n G → RelaychainBuilder t n G → Type 0
  Same s u = (u.imports ≡ s.imports) × (u.next ≡ s.next)

  Same-Moves :
      {A : Type 0} (s : RelaychainBuilder t n G) (m : Result (Error n) A × RelaychainBuilder t n G)
      → Holds (Same s) m
      → Moves s m.1 []
  Same-Moves s m h = let same = Holds-end (Same s) m h in stays same.0 same.1 refl

  with_mut_state-Same :
      {R : Type 0} (at : Option (BlockId n.Hash)) (exec : Exec n R) (s : RelaychainBuilder t n G)
      → Holds (Same s) (with_mut_state at exec s)
  with_mut_state-Same at exec s = with_mut_state_lem r (Same s) at exec s (refl, refl) (λ s b k. k)

  abbrev keep_next : Built n → RelaychainBuilder t n G → RelaychainBuilder t n G
  keep_next b s = record s { next = some b }

  build_block_open :
      (s : RelaychainBuilder t n G)
      → s.next ≡ none
      → build_block r s
        ≡ continue
            (λ b u. (ok b.0, keep_next b u))
            (on_builder (propose_block n (casts n) s.setup) s)
  unfolding build_block
  build_block_open s e = ground arith

  build_block-Moves :
      (s : RelaychainBuilder t n G) → Moves s (build_block r s).1 (built_by builds s)
  unfolding build_block built_by
  build_block-Moves s = elim (Option-cases s.next) [
    | inl e ↦ rw (build_block_open s e) (
        built_turn (λ s. s.imports) (λ s. s.next) keep_next (λ b. b.0) s
          (on_builder (propose_block n (casts n) s.setup) s) (λ _ _. (refl, refl)) e refl refl)
    | inr (b, e) ↦ stays (ground arith) (ground arith) (ground arith)
  ]

  -- The end of `import_block`, after the core's import.
  abbrev keep_import : Built n → Unit {0} → Action (RelaychainBuilder t n G) (Error n) (Unit {0})
  keep_import b _ = do
    modify (λ s. record s { imports = s.imports ++ (b ∷ []) })
    force_enact_collations r
    collect_collations r (n.header_of b.0)

  -- Enacting and collecting leave the blocks where they are.
  enact_collect-Same :
      (h : n.Header) (s : RelaychainBuilder t n G)
      → Holds (Same s) ((force_enact_collations r >> collect_collations r h) s)
  enact_collect-Same h s =
      Leaves-continue (λ _ u. Kept s u × (u.collations ≡ [])) (λ _. Same s) (Same s)
        (force_enact_collations r s) (λ _. collect_collations r h)
        (Leaves-weaken _ _ (Kept s) (Same s) (force_enact_collations r s)
          (force_enact_collations-Kept r s s (refl, refl, refl)) (λ _ _ k. k) (λ u k. (k.1, k.0)))
        (λ _ s₁ k₁.
          Leaves-weaken _ _ (Collecting s h) (Same s) (collect_collations r h s₁)
            (collect_collations-Collecting r h s s₁ (k₁.0, rw (k₁.1) tt)) (λ _ u k. (k.0.1, k.0.0))
            (λ u k. (k.0.1, k.0.0)))

  keep_import-imports :
      (b : Built n) (s : RelaychainBuilder t n G)
      → ((keep_import b tt s).1.imports ≡ s.imports ++ (b ∷ []))
        × ((keep_import b tt s).1.next ≡ s.next)
  keep_import-imports b s =
      let with_block : RelaychainBuilder t n G = record s { imports = s.imports ++ (b ∷ []) } in
      Holds-end (Same with_block)
        ((force_enact_collations r >> collect_collations r (n.header_of b.0)) with_block)
        (enact_collect-Same (n.header_of b.0) with_block)

  import_block_open :
      (s : RelaychainBuilder t n G) (b : Built n)
      → s.next ≡ some b
      → import_block r s
        ≡ continue
            (keep_import b)
            (on_core (Blocks.import_block n (block_params n b.0)) (record s { next = none }))
  unfolding import_block
  import_block_open s b e = ground arith

  import_block-Moves : (s : RelaychainBuilder t n G) → Moves s (import_block r s).1 []
  unfolding import_block
  import_block-Moves s = elim (Option-cases s.next) [
    | inl e ↦ stays (ground arith) (ground arith) refl
    | inr (b, e) ↦ rw (import_block_open s b e) (
        imported_turn (λ s. s.imports) (λ s. s.next) (keep_import b) s b
          (on_core (Blocks.import_block n (block_params n b.0)) (record s { next = none }))
          (keep_import-imports b) e refl refl)
  ]

  apply-Moves :
      (c : Call t n G) (s : RelaychainBuilder t n G) → Moves s (apply r c s) (built_by c s)
  unfolding apply built_by onboard_para update_para_head append_extrinsic with_state_of
  apply-Moves (onboards para collator) s = Same-Moves s (onboard_para r para collator s) (
      Holds-continue (Same s) (with_mut_state none _ s) _ (with_mut_state-Same none _ s)
        (λ e s₁ k₁. Holds-then (Same s) (lift e s₁) _ k₁ (λ _ s₂ k₂. k₂)))
  apply-Moves (updates_head id head) s = Same-Moves s (update_para_head r id head s) (
      Holds-continue (Same s) (with_mut_state none _ s) lift (with_mut_state-Same none _ s)
        (λ e s₁ k₁. Holds-any (Same s) (e, s₁) k₁))
  apply-Moves (appends xt) s = stays refl refl refl
  apply-Moves (transitions aux) s = stays refl refl refl
  apply-Moves builds s = build_block-Moves s
  apply-Moves imports_ s = import_block-Moves s
  apply-Moves (reads at exec) s = stays refl refl refl
  apply-Moves (changes at exec) s =
      Same-Moves s (with_mut_state at exec s) (with_mut_state-Same at exec s)

  -- Over any sequence of calls of a new relay chain builder, failing and panicking ones included, enactments and
  -- collations among what fails: the blocks that are imported and the one that waits, in this order, are among those
  -- that have been built, in the order they were built.
  pub in_order-run :
      (world : n.World) (executor : n.Executor) (setup : Setup n) (outside : G)
      (cs : List (Call t n G))
      → let s = new_relaychain world executor setup outside in
        let u = run (apply r) cs s in
        Sublist (in_order u.imports u.next) (built_in (apply r) built_by cs s)
  unfolding new_relaychain
  in_order-run world executor setup outside cs =
      run_in_order (apply r) (λ s. s.imports) (λ s. s.next) built_by apply-Moves cs
        (new_relaychain world executor setup outside) [] (Sublist.refl [])
