-- ===== src/Builder/StandAlone/Listing.antt =====
-- Which blocks a stand-alone builder lists among its imports.
use fudge.Prelude.{
  some, List, [], ◌∷◌, ◌++◌, Result, ok, err, panic, InnerError, ◌≡◌, ◌≢◌, ◌↔◌, refl, ap, ◌∙◌,
  arith,
}
use fudge.Node.{Node, ImportResult}
use fudge.Builder.Core.Blocks
use fudge.Builder.StandAlone.{StandAloneBuilder, block_params, import_block}

snoc_longer : {B : Type 0} (xs : List B) (b : B) → xs ≢ xs ++ (b ∷ [])
snoc_longer [] b e = cc
snoc_longer (x ∷ xs) b e = snoc_longer xs b cc

module _ (n : Node) where
  -- A waiting block is listed among the imports where, and only where, the client gives an answer for it, whichever
  -- of the five it is: a block that the client has turned down is listed as one that it has imported.
  pub import_block_listed :
      (s : StandAloneBuilder n) (block : n.Block) (proof : n.StorageProof)
      → s.next ≡ some (block, proof)
      → ((import_block n s).1.imports ≡ s.imports ++ ((block, proof) ∷ []))
        ↔ ((r : ImportResult) × ((n.import_params (block_params n block) s.builder.world).0 ≡ ok r))
  unfolding import_block Blocks.import_block
  import_block_listed s block proof waits =
      by_answer (n.import_params (block_params n block) s.builder.world) refl
    where
      by_answer :
          (m : Result InnerError ImportResult × n.World)
          → n.import_params (block_params n block) s.builder.world ≡ m
          → ((import_block n s).1.imports ≡ s.imports ++ ((block, proof) ∷ [])) ↔ (
              (r : ImportResult) × ((n.import_params (block_params n block) s.builder.world).0
                ≡ ok r))
      by_answer (ok r, w) e = ((λ _. (r, ap (λ m. m.0) e)), (λ _. ground (arith, waits, e)))
      by_answer (err x, w) e =
          let unlisted : s.imports ≡ (import_block n s).1.imports = ground (arith, waits, e) in
          (
            (λ p. absurd (snoc_longer s.imports (block, proof) (unlisted ∙ p))),
            (λ (r, q). absurd (ground (arith, e, q))),
          )
      by_answer (panic, w) e =
          let unlisted : s.imports ≡ (import_block n s).1.imports = ground (arith, waits, e) in
          (
            (λ p. absurd (snoc_longer s.imports (block, proof) (unlisted ∙ p))),
            (λ (r, q). absurd (ground (arith, e, q))),
          )
