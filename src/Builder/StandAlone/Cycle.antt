-- ===== src/Builder/StandAlone/Cycle.antt =====
-- Building and importing in turn.
use fudge.Prelude.{none, some, [], ◌∷◌, ◌++◌, ok, err, ◌≡◌, arith, ◌>>◌}
use fudge.Node.{Node}
use fudge.Builder.Core
use fudge.Builder.Core.{Builder}
use fudge.Builder.Core.Blocks
use fudge.Builder.Common.{propose_block}
use fudge.Builder.StandAlone.{
  StandAloneBuilder, core_builder, next_block_not_found, casts, build_block, import_block,
  block_params,
}

module _ (n : Node) (s : StandAloneBuilder n) where
  module _ (block : n.Block) (proof : n.StorageProof) (b : Builder n) where
    -- With no block waiting, building a block and importing it, where the proposal and the core's
    -- import succeed, leaves none waiting again, and the block with its proof is the last of the
    -- imports.
    build_block-import_block :
        (b' : Builder n)
        → s.next ≡ none
        → propose_block n (casts n) s.setup s.builder ≡ (ok (block, proof), b)
        → Blocks.import_block n (block_params n block) b ≡ (ok tt, b')
        → (build_block n >> import_block n) s ≡ (
          ok tt,
          record s { builder = b'; next = none; imports = s.imports ++ ((block, proof) ∷ []) },
        )
    unfolding build_block import_block
    build_block-import_block b' e₁ e₂ e₃ = ground arith

    -- A block whose import fails is lost: it is not in the imports, and another attempt finds none.
    pub import_block_lost :
        (x : Core.Error n)
        → s.next ≡ some (block, proof)
        → Blocks.import_block n (block_params n block) s.builder ≡ (err x, b)
        → (import_block n s ≡ (err (core_builder x), record s { builder = b; next = none }))
          × (import_block n (record s { builder = b; next = none })
              ≡ (err next_block_not_found, record s { builder = b; next = none }))
    unfolding import_block
    import_block_lost x e₁ e₂ = ground arith
