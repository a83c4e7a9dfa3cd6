-- ===== src/Builder/Core/Blocks.antt =====
-- core/src/builder/core.rs: the extrinsics and transitions that are kept for the next block, and
-- building and importing blocks.
use fudge.Prelude.{
  Bool, true, false, ℕ, ◌+◌, ◌==◌, none, [], ◌∷◌, ◌++◌, Action, ◌>>=◌, if◌then◌else◌, foldl, modify,
}
use fudge.Node.{
  Node, hash, ImportResult, imported, already_in_chain, known_bad, unknown_parent, missing_state,
  new_best_block, finalized, BlockImportParams,
}
use fudge.Builder.Core.{
  Error, extrinsic_submission, factory_initialization, block_proposal, block_importing, PoolState,
  empty, busy, StoragePair, Builder, call, latest_block, get_block_header,
}

module _ (n : Node) where
  unfoldable pub append_transition : StoragePair → Builder n → Builder n
  append_transition trans b = record b {
    cache = record { auxilliary = b.cache.auxilliary ++ (trans ∷ []) };
  }

  unfoldable pub append_extrinsic : n.Extrinsic → Action (Builder n) (Error n) n.Hash
  append_extrinsic ext b =
      call n extrinsic_submission (n.submit_one (hash (n.best_hash b.world)) ext) b

  unfoldable pub pool_state : Builder n → PoolState
  pool_state b =
      let num_xts = foldl (λ sum _. sum + 1) 0 (n.ready b.world) in
      if num_xts == 0 then empty else busy num_xts

  unfoldable pub build_block :
      n.InherentData → n.Digest → ℕ → ℕ → Action (Builder n) (Error n) (n.Block × n.StorageProof)
  unfolding latest_block get_block_header
  build_block inherents digest time limit b =
      (do
        header ← get_block_header n (hash (latest_block n b))
        proposer ← call n factory_initialization (n.init_proposer header)
        call n block_proposal (n.propose inherents digest time limit proposer))
        b

  -- `ret.is_ok()`
  abbrev pub is_imported : ImportResult → Bool
  is_imported imported = true
  is_imported already_in_chain = false
  is_imported known_bad = false
  is_imported unknown_parent = false
  is_imported missing_state = false

  abbrev pub maintain_pool : n.Hash → Builder n → Builder n
  maintain_pool prev_hash b =
      let best_hash = n.best_hash b.world in
      let w = n.maintain (new_best_block best_hash none) b.world in
      record b { world = n.maintain (finalized best_hash (prev_hash ∷ [])) w }

  unfoldable pub import_block :
      BlockImportParams n.Header n.Extrinsic → Action (Builder n) (Error n) (Unit {0})
  unfolding latest_block
  import_block params b =
      (do
        ret ← call n block_importing (n.import_params params)
        modify (λ b'. if is_imported ret then maintain_pool (latest_block n b) b' else b'))
        b
