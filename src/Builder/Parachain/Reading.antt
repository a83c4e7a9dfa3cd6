-- ===== src/Builder/Parachain/Reading.antt =====
-- The calls of a parachain's builder and collator that only read.
use fudge.Prelude.{Option, ◌≡◌, ap, arith}
use fudge.Node.{Node, Exec, BlockId}
use fudge.Builder.Core.{latest_header}
use fudge.Builder.Core.State.{latest_code, with_dry_run, open_state}
use fudge.Builder.Core.Reads.{with_state-dry_run_state}
use fudge.Builder.Parachain.{Primitives, Cumulus, FudgeCollator}
use fudge.Builder.Parachain.Collator.{fetch_collation_info, create_collation, collation}
use fudge.Builder.Parachain.Chain.{ParachainBuilder, head, code, with_state_of}

module _ {t : Primitives} (n : Node) (c : Cumulus t n) where
  pub head_same : (s : ParachainBuilder n) → (head n c s).1 ≡ s
  unfolding head latest_header
  head_same s = ground arith

  -- A collator that is asked for a collation keeps its handles as they are.
  pub collation_same :
      (d : t.PersistedValidationData) (s : FudgeCollator n) → (collation n c d s).1 ≡ s
  unfolding collation create_collation fetch_collation_info
  collation_same d s = ground arith

module _ (n : Node) where
  pub code_same : (s : ParachainBuilder n) → (code n s).1 ≡ s
  unfolding code latest_code with_dry_run open_state
  code_same s = ground arith

  pub with_state_of_same :
      {R : Type 0} (at : Option (BlockId n.Hash)) (exec : Exec n R) (s : ParachainBuilder n)
      → (with_state_of n at exec s).1 ≡ s
  unfolding with_state_of
  with_state_of_same at exec s =
      ap (λ b. record s { builder = b }) (with_state-dry_run_state n at exec s.builder)
