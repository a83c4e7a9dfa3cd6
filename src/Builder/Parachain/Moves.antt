-- ===== src/Builder/Parachain/Moves.antt =====
-- How each call of builder and collator, failing and panicking ones included, moves a parachain's blocks on.
use fudge.Prelude.{
  false, Option, none, some, List, [], ◌∷◌, ◌++◌, Result, ok, err, panic, Action, continue, ◌>>=◌,
  ◌≡◌, refl, arith, Bool-cases, Option-cases, inl, inr,
}
use fudge.Node.{Node, Exec, BlockId}
use fudge.Builder.Common.{propose_block}
use fudge.Builder.Parachain.{
  Error, BlockStorage, lock_storage, put_storage, set_next_block, set_next_import,
  next_block_lock_poisoned,
}
use fudge.Builder.Parachain.Collator.{judge, CollationJudgement, approved, rejected}
use fudge.Builder.Parachain.Chain.{
  ParachainBuilder, casts, on_builder, shared, build_block, build_params, import_block,
  import_params, poison, import_block_with_params, append_extrinsic, with_mut_state,
}

module _ (n : Node) where
  abbrev pub Built : Type 0
  Built = n.Block × n.StorageProof

  abbrev pub to_list : Option Built → List Built
  to_list none = []
  to_list (some b) = b ∷ []

  -- Where the blocks are: those imported, oldest first, the one to import, and the one to collate.
  abbrev pub in_order : ParachainBuilder n → List Built
  in_order s =
      s.imports
      ++ (to_list s.block_storage.storage.next_import ++ to_list s.block_storage.storage.next_block)

  -- A call on the builder, or a judgement passed on its collator.
  pub data Call : Type 1 where
    builds imports : Call
    judges : CollationJudgement → Call
    appends : n.Extrinsic → Call
    mutates : {R : Type 0} → Option (BlockId n.Hash) → Exec n R → Call

  unfoldable pub apply : Call → ParachainBuilder n → ParachainBuilder n
  apply builds s = (build_block n s).1
  apply imports s = (import_block n s).1
  apply (judges j) s = (shared n (judge n j) s).1
  apply (appends xt) s = (append_extrinsic n xt s).1
  apply (mutates at exec) s = (with_mut_state n at exec s).1

  -- What a call of `build_block` that succeeds leaves to be collated.
  abbrev pub left : {A : Type 0} → Result (Error n) A × ParachainBuilder n → List Built
  left (ok _, s) = to_list s.block_storage.storage.next_block
  left (err _, s) = []
  left (panic, s) = []

  unfoldable pub built_by : Call → ParachainBuilder n → List Built
  built_by builds s = left (build_block n s)
  built_by _ s = []

  unfoldable pub run : List Call → ParachainBuilder n → ParachainBuilder n
  run [] s = s
  run (c ∷ cs) s = run cs (apply c s)

  -- The blocks built in a sequence of calls, oldest first.
  unfoldable pub built_in : List Call → ParachainBuilder n → List Built
  unfolding built_by apply
  built_in [] s = []
  built_in (c ∷ cs) s = built_by c s ++ built_in cs (apply c s)

  -- What is kept of a builder: the two places of its storage, and its imports.
  abbrev pub Same : ParachainBuilder n → ParachainBuilder n → Type 0
  Same s u = (u.block_storage.storage ≡ s.block_storage.storage) × (u.imports ≡ s.imports)

  -- How a call moves the blocks on, and what it built.
  pub data Move (s u : ParachainBuilder n) (bs : List Built) : Type 0 where
    stay : Same s u → bs ≡ [] → Move s u bs
    built :
        (b : Built)
        → u.block_storage.storage ≡ set_next_block n (some b) s.block_storage.storage
        → u.imports ≡ s.imports
        → bs ≡ b ∷ []
        → Move s u bs
    approves :
        (b : Built)
        → s.block_storage.storage.next_block ≡ some b
        → u.block_storage.storage ≡ record { next_block = none; next_import = some b }
        → u.imports ≡ s.imports
        → bs ≡ []
        → Move s u bs
    rejects :
        u.block_storage.storage ≡ set_next_block n none s.block_storage.storage
        → u.imports ≡ s.imports
        → bs ≡ []
        → Move s u bs
    imported :
        (b : Built)
        → s.block_storage.storage.next_import ≡ some b
        → u.block_storage.storage ≡ set_next_import n none s.block_storage.storage
        → u.imports ≡ s.imports ++ (b ∷ [])
        → bs ≡ []
        → Move s u bs

  -- The end of `build_block`, after the import.
  abbrev pub store_built : Built → Action (ParachainBuilder n) (Error n) (Unit {0})
  store_built b = shared n (lock_storage n next_block_lock_poisoned) >>= λ storage.
      shared n (put_storage n (set_next_block n (some b) storage))

  store_built-Move :
      (s u : ParachainBuilder n) (b : Built)
      → Same s u
      → Move s (store_built b u).1 (left (store_built b u))
  store_built-Move s u b same = elim (Bool-cases u.block_storage.poisoned) [
    | inl e ↦ stay (ground arith) (ground arith)
    | inr e ↦ built b (ground arith) (ground arith) (ground arith)
  ]

  after_import :
      (s : ParachainBuilder n) (b : Built) (r : Result (Error n) (Unit {0}) × ParachainBuilder n)
      → Same s r.1
      → Move s (continue (λ _. store_built b) r).1 (left (continue (λ _. store_built b) r))
  after_import s b (ok _, u) same = store_built-Move s u b same
  after_import s b (err _, u) same = stay same refl
  after_import s b (panic, u) same = stay same refl

  after_proposal :
      (s : ParachainBuilder n) (r : Result (Error n) Built × ParachainBuilder n)
      → Same s r.1
      → let k =
          λ (b : Built). import_block_with_params n (build_params n b.0) >>= λ _. store_built b in
        Move s (continue k r).1 (left (continue k r))
  unfolding import_block_with_params
  after_proposal s (ok b, u) same =
      after_import s b (import_block_with_params n (build_params n b.0) u) same
  after_proposal s (err _, u) same = stay same refl
  after_proposal s (panic, u) same = stay same refl

  build_block-Move : (s : ParachainBuilder n) → Move s (build_block n s).1 (left (build_block n s))
  unfolding build_block
  build_block-Move s =
      after_proposal s (on_builder n (propose_block n (casts n) s.setup) s) (refl, refl)

  -- The end of `import_block`, after the import.
  abbrev pub store_import :
      BlockStorage n → Built → Action (ParachainBuilder n) (Error n) (Unit {0})
  store_import storage b s =
      shared n (put_storage n (set_next_import n none storage))
        (record s { imports = s.imports ++ (b ∷ []) })

  after_final_import :
      (s : ParachainBuilder n) (b : Built) (r : Result (Error n) (Unit {0}) × ParachainBuilder n)
      → s.block_storage.storage.next_import ≡ some b
      → Same s r.1
      → Move s (poison n (continue (λ _. store_import s.block_storage.storage b) r)).1 []
  after_final_import s b (ok _, u) e same = imported b e (ground arith) (ground arith) refl
  after_final_import s b (err _, u) e same = stay same refl
  after_final_import s b (panic, u) e same = stay same refl

  pub import_block_open :
      (s : ParachainBuilder n) (b : Built)
      → s.block_storage.poisoned ≡ false
      → s.block_storage.storage.next_import ≡ some b
      → import_block n s
        ≡ poison n (
            continue
              (λ _. store_import s.block_storage.storage b)
              (import_block_with_params n (import_params n b.0) s))
  unfolding import_block
  import_block_open s b e waits = ground arith

  import_block-Move : (s : ParachainBuilder n) → Move s (import_block n s).1 []
  unfolding import_block import_block_with_params
  import_block-Move s = elim (Bool-cases s.block_storage.poisoned) [
    | inl e ↦ stay (ground arith, ground arith) refl
    | inr e ↦ elim (Option-cases s.block_storage.storage.next_import) [
      | inl none_ ↦ stay (ground arith, ground arith) refl
      | inr (b, waits) ↦ rw (import_block_open s b e waits) (
          after_final_import s b (import_block_with_params n (import_params n b.0) s) waits
            (refl, refl))
    ]
  ]

  judge-Move :
      (j : CollationJudgement) (s : ParachainBuilder n) → Move s (shared n (judge n j) s).1 []
  unfolding judge
  judge-Move approved s = elim (Bool-cases s.block_storage.poisoned) [
    | inl e ↦ stay (ground arith, ground arith) refl
    | inr e ↦ elim (Option-cases s.block_storage.storage.next_block) [
      | inl none_ ↦ stay (ground arith, ground arith) refl
      | inr (b, waits) ↦ approves b waits (ground arith) (ground arith) refl
    ]
  ]
  judge-Move rejected s = elim (Bool-cases s.block_storage.poisoned) [
    | inl e ↦ stay (ground arith, ground arith) refl
    | inr e ↦ rejects (ground arith) (ground arith) refl
  ]

  pub apply-Move : (c : Call) (s : ParachainBuilder n) → Move s (apply c s) (built_by c s)
  unfolding apply built_by append_extrinsic with_mut_state
  apply-Move builds s = build_block-Move s
  apply-Move imports s = import_block-Move s
  apply-Move (judges j) s = judge-Move j s
  apply-Move (appends xt) s = stay (refl, refl) refl
  apply-Move (mutates at exec) s = stay (refl, refl) refl
