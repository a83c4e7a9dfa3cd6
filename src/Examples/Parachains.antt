-- ===== src/Examples/Parachains.antt =====
-- A parachain's blocks on the small node.
use mathlib.Core.List.{Sublist}
use mathlib.Core.List.Sublist
use fudge.Prelude.{ℕ, false, none, some, List, [], ◌∷◌, ◌++◌, ok}
use fudge.Builder.Parachain.{Cumulus, FudgeCollator}
use fudge.Builder.Parachain.Collator.{approved, rejected}
use fudge.Builder.Parachain.Chain.{ParachainBuilder}
use fudge.Builder.Parachain.Moves.{
  Built, Call, builds, imports, judges, appends, in_order, run, built_in,
}
use fudge.Builder.Parachain.Stages.{run-in_order}
use fudge.Examples.Storage.{primitives}
use fudge.Examples.Toy.{toy, world, builder, setup}

abbrev pub cumulus : Cumulus primitives toy
cumulus = record {
  CompactProof = ℕ;
  decode_header = λ b. ok (0, 0);
  encode_header = λ h. h.0 ∷ h.1 ∷ [];
  encode_block = λ b. b.0.0 ∷ b.1;
  state_root = λ h. h.1;
  extrinsics = λ b. b.1;
  into_compact_proof = λ p root. ok p;
  encode_block_data = λ h xts p. h.0 ∷ xts;
  CollationInfoV1 = Unit {0};
  api_version = λ h w. ok (some 2);
  collect_before_v2 = λ h w. ok tt;
  into_latest = λ head _. record {
    upward_messages = [];
    horizontal_messages = [];
    new_validation_code = none;
    processed_downward_messages = 0;
    hrmp_watermark = 0;
    head_data = head;
  };
  collect = λ h header w. ok (record {
    upward_messages = [];
    horizontal_messages = [];
    new_validation_code = none;
    processed_downward_messages = 0;
    hrmp_watermark = 0;
    head_data = header.0 ∷ [];
  });
}

abbrev first_block : Built toy
first_block = (((2, 0), []), 9)

abbrev waiting : FudgeCollator toy
waiting = record {
  world = world;
  block_storage = record {
    storage = record { next_block = some first_block; next_import = none };
    poisoned = false;
  };
}

abbrev pub parachain : ParachainBuilder toy
parachain = record {
  id = 2;
  builder = builder;
  setup = setup;
  block_storage = waiting.block_storage;
  imports = [];
}

abbrev calls : List (Call toy)
calls =
    appends 5
    ∷ judges approved
    ∷ imports
    ∷ builds
    ∷ judges rejected
    ∷ builds
    ∷ judges approved
    ∷ imports
    ∷ []

run-in_order_example :
    Sublist
      (in_order toy (run toy calls parachain))
      ((first_block ∷ []) ++ built_in toy calls parachain)
run-in_order_example =
    run-in_order toy calls parachain (first_block ∷ []) (Sublist.refl (first_block ∷ []))
