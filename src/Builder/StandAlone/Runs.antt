-- ===== src/Builder/StandAlone/Runs.antt =====
-- Any sequence of calls of the stand-alone builder.
use mathlib.Core.List.{Sublist}
use mathlib.Core.List.Sublist
use fudge.Prelude.{
  Option, none, some, List, [], ◌∷◌, ◌++◌, Option-cases, inl, inr, ok, panic, ◌≡◌, refl, ap, ◌∙◌,
  arith, continue, Action, modify,
}
use fudge.Node.{Node, BlockId, Exec, Setup}
use fudge.Builder.Core.{StoragePair}
use fudge.Builder.Core.Blocks
use fudge.Builder.Common.{propose_block}
use fudge.Builder.Common.Turns.{
  in_order, left, built_turn, imported_turn, Turns, stays, run, built_in, run_in_order,
}
use fudge.Builder.StandAlone.{
  Error, StandAloneBuilder, casts, on_builder, on_core, block_params, new_stand_alone,
  append_extrinsic, append_transition, build_block, import_block, with_state_of, with_mut_state,
}

-- A call of the builder; the closures of the two that run one return anything.
pub data Call (n : Node) : Type 1 where
  appends : n.Extrinsic → Call n
  transitions : StoragePair → Call n
  builds imports_ : Call n
  reads changes : {R : Type 0} → Option (BlockId n.Hash) → Exec n R → Call n

module _ (n : Node) where
  abbrev pub Built : Type 0
  Built = n.Block × n.StorageProof

  -- The builder that a call leaves, however it ends.
  unfoldable pub apply : Call n → StandAloneBuilder n → StandAloneBuilder n
  unfolding append_transition
  apply (appends xt) s = (append_extrinsic n xt s).1
  apply (transitions aux) s = append_transition n aux s
  apply builds s = (build_block n s).1
  apply imports_ s = (import_block n s).1
  apply (reads at exec) s = (with_state_of n at exec s).1
  apply (changes at exec) s = (with_mut_state n at exec s).1

  unfoldable pub built_by : Call n → StandAloneBuilder n → List Built
  built_by builds s = left (λ s. s.imports) (λ s. s.next) (build_block n s)
  built_by _ s = []

  abbrev Moves : StandAloneBuilder n → StandAloneBuilder n → List Built → Type 0
  Moves s u bs = Turns (λ s. s.imports) (λ s. s.next) s u bs

  abbrev keep_next : Built → StandAloneBuilder n → StandAloneBuilder n
  keep_next b s = record s { next = some b }

  build_block_open :
      (s : StandAloneBuilder n)
      → s.next ≡ none
      → build_block n s
        ≡ continue
            (λ b u. (ok b.0, keep_next b u))
            (on_builder n (propose_block n (casts n) s.setup) s)
  unfolding build_block
  build_block_open s e = ground arith

  build_block-Moves : (s : StandAloneBuilder n) → Moves s (build_block n s).1 (built_by builds s)
  unfolding build_block built_by
  build_block-Moves s = elim (Option-cases s.next) [
    | inl e ↦ rw (build_block_open s e) (
        built_turn (λ s. s.imports) (λ s. s.next) keep_next (λ b. b.0) s
          (on_builder n (propose_block n (casts n) s.setup) s) (λ _ _. (refl, refl)) e refl refl)
    | inr (b, e) ↦ stays (ground arith) (ground arith) (ground arith)
  ]

  -- The end of `import_block`, after the core's import.
  abbrev keep_import : Built → Unit {0} → Action (StandAloneBuilder n) (Error n) (Unit {0})
  keep_import b _ = modify (λ s. record s { imports = s.imports ++ (b ∷ []) })

  import_block_open :
      (s : StandAloneBuilder n) (b : Built)
      → s.next ≡ some b
      → import_block n s
        ≡ continue
            (keep_import b)
            (on_core n (Blocks.import_block n (block_params n b.0)) (record s { next = none }))
  unfolding import_block
  import_block_open s b e = ground arith

  import_block-Moves : (s : StandAloneBuilder n) → Moves s (import_block n s).1 []
  unfolding import_block
  import_block-Moves s = elim (Option-cases s.next) [
    | inl e ↦ stays (ground arith) (ground arith) refl
    | inr (b, e) ↦ rw (import_block_open s b e) (
        imported_turn (λ s. s.imports) (λ s. s.next) (keep_import b) s b
          (on_core n (Blocks.import_block n (block_params n b.0)) (record s { next = none }))
          (λ _. (refl, refl)) e refl refl)
  ]

  apply-Moves : (c : Call n) (s : StandAloneBuilder n) → Moves s (apply c s) (built_by c s)
  unfolding apply built_by append_extrinsic with_state_of with_mut_state
  apply-Moves (appends xt) s = stays refl refl refl
  apply-Moves (transitions aux) s = stays refl refl refl
  apply-Moves builds s = build_block-Moves s
  apply-Moves imports_ s = import_block-Moves s
  apply-Moves (reads at exec) s = stays refl refl refl
  apply-Moves (changes at exec) s = elim (Option-cases s.next) [
    | inl e ↦ stays (ground arith) (ground arith) refl
    | inr (b, e) ↦ stays (ground arith) (ground arith) refl
  ]

  -- Over any sequence of calls of a new stand-alone builder, failing and panicking ones included, the blocks that
  -- are imported and the one that waits, in this order, are among those that have been built, in the order they
  -- were built: no block is imported twice for one build, none overtakes an older one, and none is made up.
  pub run-built_in :
      (world : n.World) (executor : n.Executor) (setup : Setup n) (cs : List (Call n))
      → let s = new_stand_alone n world executor setup in
        let u = run apply cs s in Sublist (in_order u.imports u.next) (built_in apply built_by cs s)
  unfolding new_stand_alone
  run-built_in world executor setup cs =
      run_in_order apply (λ s. s.imports) (λ s. s.next) built_by apply-Moves cs
        (new_stand_alone n world executor setup) [] (Sublist.refl [])

  build_block_waiting :
      (s : StandAloneBuilder n) (b : Built) → s.next ≡ some b → build_block n s ≡ (panic, s)
  unfolding build_block
  build_block_waiting s b e = ground arith

  with_mut_state_waiting :
      {R : Type 0} (at : Option (BlockId n.Hash)) (exec : Exec n R) (s : StandAloneBuilder n)
      (b : Built)
      → s.next ≡ some b
      → with_mut_state n at exec s ≡ (panic, s)
  unfolding with_mut_state
  with_mut_state_waiting at exec s b e = ground arith

  -- No call imports.
  abbrev pub ImportsNone : List (Call n) → Type 0
  ImportsNone [] = Unit {0}
  ImportsNone (imports_ ∷ cs) = ⊥
  ImportsNone (builds ∷ cs) = ImportsNone cs
  ImportsNone (appends xt ∷ cs) = ImportsNone cs
  ImportsNone (transitions aux ∷ cs) = ImportsNone cs
  ImportsNone (reads at exec ∷ cs) = ImportsNone cs
  ImportsNone (changes at exec ∷ cs) = ImportsNone cs

  -- The calls but those that build a block or change a state.
  abbrev pub milder : List (Call n) → List (Call n)
  milder [] = []
  milder (imports_ ∷ cs) = imports_ ∷ milder cs
  milder (builds ∷ cs) = milder cs
  milder (appends xt ∷ cs) = appends xt ∷ milder cs
  milder (transitions aux ∷ cs) = transitions aux ∷ milder cs
  milder (reads at exec ∷ cs) = reads at exec ∷ milder cs
  milder (changes at exec ∷ cs) = milder cs

  -- What a run from a builder with a waiting block comes to.
  abbrev pub Waits : Built → List (Call n) → StandAloneBuilder n → Type 0
  Waits b cs s =
      (run apply cs s ≡ run apply (milder cs) s)
      × ((run apply cs s).next ≡ some b)
      × ((run apply cs s).imports ≡ s.imports)
      × (built_in apply built_by cs s ≡ [])

  -- A call that comes to nothing.
  idle :
      (c : Call n) (cs : List (Call n)) (s : StandAloneBuilder n) (b : Built)
      → apply c s ≡ s
      → built_by c s ≡ []
      → Waits b cs s
      → (run apply (c ∷ cs) s ≡ run apply (milder cs) s)
        × ((run apply (c ∷ cs) s).next ≡ some b)
        × ((run apply (c ∷ cs) s).imports ≡ s.imports)
        × (built_in apply built_by (c ∷ cs) s ≡ [])
  idle c cs s b same none_ (e, next, imports, built_) = (
    ap (run apply cs) same ∙ e,
    ap (λ u. (run apply cs u).next) same ∙ next,
    ap (λ u. (run apply cs u).imports) same ∙ imports,
    ap (λ l. l ++ built_in apply built_by cs (apply c s)) none_
        ∙ ap (λ u. built_in apply built_by cs u) same
        ∙ built_,
  )

  -- While a block waits, and over any calls none of which imports it, the calls that would build another block or
  -- change a state come to nothing: the builder, its chain included, ends as if they had not been made, no block is
  -- built, the same block waits, and the imports are as they were.
  pub run-milder :
      (cs : List (Call n)) (s : StandAloneBuilder n) (b : n.Block × n.StorageProof)
      → s.next ≡ some b
      → ImportsNone cs
      → Waits b cs s
  unfolding apply built_by append_extrinsic append_transition with_state_of
  run-milder [] s b waits none_ = (refl, waits, refl, refl)
  run-milder (imports_ ∷ cs) s b waits none_ = absurd none_
  run-milder (appends xt ∷ cs) s b waits none_ = run-milder cs (apply (appends xt) s) b waits none_
  run-milder (transitions aux ∷ cs) s b waits none_ =
      run-milder cs (apply (transitions aux) s) b waits none_
  run-milder (reads at exec ∷ cs) s b waits none_ =
      run-milder cs (apply (reads at exec) s) b waits none_
  run-milder (builds ∷ cs) s b waits none_ =
      let stuck = build_block_waiting s b waits in
      idle builds cs s b (ap (λ r. r.1) stuck)
        (ap (λ r. left (λ s. s.imports) (λ s. s.next) r) stuck) (run-milder cs s b waits none_)
  run-milder (changes at exec ∷ cs) s b waits none_ =
      idle (changes at exec) cs s b (ap (λ r. r.1) (with_mut_state_waiting at exec s b waits)) refl
        (run-milder cs s b waits none_)
