-- ===== src/Builder/Core/Import.antt =====
-- What importing a block comes to.
use fudge.Prelude.{none, [], ◌∷◌, ok, err, InnerError, ◌≡◌, arith}
use fudge.Node.{Node, imported, BlockImportParams, new_best_block, finalized}
use fudge.Builder.Core.{Builder, block_importing}
use fudge.Builder.Core.Blocks.{import_block}

module _ (n : Node) (params : BlockImportParams n.Header n.Extrinsic) (b : Builder n)
    (w : n.World) where
  -- An imported block: the pool is told of the new best block, then that it is final with the old best
  -- block as its route.
  pub import_block_imported :
      n.import_params params b.world ≡ (ok imported, w)
      → import_block n params b ≡ (
        ok tt,
        record b {
          world =
              n.maintain
                (finalized (n.best_hash w) (n.best_hash b.world ∷ []))
                (n.maintain (new_best_block (n.best_hash w) none) w);
        },
      )
  unfolding import_block
  import_block_imported e = ground arith

  -- Only an error of the client is one of the builder.
  pub import_block_err :
      (x : InnerError)
      → n.import_params params b.world ≡ (err x, w)
      → import_block n params b ≡ (err (block_importing x), record b { world = w })
  unfolding import_block
  import_block_err x e = ground arith
