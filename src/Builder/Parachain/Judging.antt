-- ===== src/Builder/Parachain/Judging.antt =====
-- The collator's part in the life of a block.
use fudge.Prelude.{false, none, some, ok, err, ◌≡◌, arith}
use fudge.Node.{Node}
use fudge.Builder.Parachain.{Primitives, Cumulus, own, FudgeCollator, next_block_not_found}
use fudge.Builder.Parachain.Collator.{create_collation, approve, judge, CollationJudgement}

module _ (n : Node) (s : FudgeCollator n) (clean : s.block_storage.poisoned ≡ false) where
  open s.block_storage use {storage}

  -- A built block that is approved becomes the one to import, in place of any that was; without a built
  -- block approval is refused and changes nothing.
  pub approve_lem : approve n s ≡ elim storage.next_block [
    | none ↦ (err (own next_block_not_found), s)
    | some block ↦ (
      ok tt,
      record s {
        block_storage = record {
          storage = record { next_block = none; next_import = some block };
          poisoned = false;
        };
      },
    )
  ]
  unfolding approve
  approve_lem = ground arith

  -- With the lock clean, after either judgement that succeeds there is nothing to collate.
  create_collation-judge :
      {t : Primitives} (c : Cumulus t n) (j : CollationJudgement) (d : t.PersistedValidationData)
      → (judge n j s).0 ≡ ok tt
      → create_collation n c d (judge n j s).1 ≡ (ok none, (judge n j s).1)
  unfolding judge create_collation
  create_collation-judge c j d e = ground arith
