-- ===== src/Examples/Builders.antt =====
-- The core builder and the stand-alone builder on the small node.
use mathlib.Core.List.{Sublist}
use fudge.Prelude.{
  ◌-◌, ◌==◌, ==_iff, Bool-cases, Option-cases, inl, inr, ◌↔◌, length, ℕ, true, none, some, List, [],
  ◌∷◌, ok, err, ◌≡◌, refl,
}
use fudge.Node.{Node, ImportResult, hash, Exec, Changes}
use fudge.Builder.Core.{
  Builder, commit, state_not_available, backend_operation_commit, block_importing,
  check_best_hash_and_revert, get_block_hash, get_block_header, latest_header, latest_block,
}
use fudge.Builder.Core.State.{
  with_state, with_dry_run, execute_for_changes, state_version, latest_code, open_state,
  commit_storage_changes,
}
use fudge.Builder.Core.Blocks
use fudge.Builder.Core.Revert.{with_state-commit_reverted, commit_storage_changes_reverts}
use fudge.Builder.Common.{append_extrinsics, submit_each, propose_block}
use fudge.Builder.Common.Extrinsics.{append_extrinsics-eq-submit_each}
use fudge.Builder.StandAlone.{
  StandAloneBuilder, block_params, core_builder, next_block_not_found, build_block, import_block,
  with_mut_state, new_stand_alone,
}
use fudge.Builder.StandAlone.Cycle.{import_block_lost}
use fudge.Builder.StandAlone.Listing.{import_block_listed}
use fudge.Builder.Core.Heights.{Ends, Heights}
use fudge.Builder.Core.Taking.{Fails}
use fudge.Builder.StandAlone.Runs.{
  appends, Waits, run-milder, Call, builds, imports_, changes, apply, built_by, run-built_in,
}
use fudge.Builder.Common.Turns.{in_order, run, built_in}
use fudge.Examples.Storage.{no_entries}
use fudge.Examples.Toy.{World, Writing, commit_writing, toy, world, builder, setup}

append_extrinsics-eq-submit_each_example :
    append_extrinsics (Blocks.append_extrinsic toy) (5 ∷ 0 ∷ 6 ∷ []) builder
    ≡ submit_each (Blocks.append_extrinsic toy) (5 ∷ 0 ∷ 6 ∷ []) builder
append_extrinsics-eq-submit_each_example =
    append_extrinsics-eq-submit_each (Blocks.append_extrinsic toy) (5 ∷ 0 ∷ 6 ∷ []) builder

-- A closure that writes the head of parachain 2, and returns the head of the chain.
abbrev write_head : Exec toy ℕ
write_head w s o = (some w.best, record o { in_heads = (2, 8 ∷ []) ∷ o.in_heads })

-- The state of the block below the best one is not kept.
abbrev pruned : World
pruned = record world { states = (1, no_entries) ∷ [] }

abbrev pruned_builder : Builder toy
pruned_builder = record builder { world = pruned }

abbrev shorter : World
shorter = record pruned { best = 0 }

reverted_toy :
    (k : ℕ) (w : World)
    → Ends (λ _ w'. w'.best ≡ w.best - k) (λ _ w'. w'.best ≡ w.best) (toy.revert k true w)
reverted_toy k w = elim (Bool-cases (k == 1)) [
  | inl q ↦ rw (q, (==_iff k 1).0 q) refl
  | inr q ↦ rw (q) refl
]

refused_toy :
    (op : Writing) (w : World)
    → Ends (λ _ _. Unit {0}) (λ _ w'. w'.best ≡ w.best) (commit_writing op w)
refused_toy op w = elim (Option-cases op.header) [ inl q ↦ rw (q) refl | inr (h, q) ↦ rw (q) tt ]

numbered_toy :
    (w : World) (i : ℕ)
    → toy.block_number_from_id (hash (toy.best_hash w)) w ≡ ok (some i)
    → toy.best_number w ≡ i
numbered_toy w i e = cc

abbrev heights : Heights toy
heights = record {
  begun = λ w. (refl, refl, refl);
  state_begun = λ h op w. (refl, refl, refl);
  numbered = numbered_toy;
  reverted = reverted_toy;
  refused = refused_toy;
}

with_state-commit_reverted_example :
    Ends
      (λ _ _. Unit {0})
      (Fails toy heights 1 pruned)
      (with_state toy commit none write_head pruned_builder)
with_state-commit_reverted_example =
    with_state-commit_reverted toy heights write_head pruned_builder

-- The block is taken back, and the state of the one below is then not at hand.
loses_block : with_state toy commit none write_head pruned_builder ≡ (
  err (state_not_available (hash 0) "unknown block"),
  record pruned_builder { world = shorter },
)
unfolding with_state open_state check_best_hash_and_revert execute_for_changes state_version
    latest_code with_dry_run
loses_block = refl

-- A chain of three blocks.
abbrev longer : World
longer = record world {
  best = 2;
  final = 2;
  headers = (2, (2, 0)) ∷ world.headers;
  states = (2, no_entries) ∷ world.states;
}

-- A backend that takes back any number of blocks, and has no space left for a commit.
abbrev full : Node
full = record toy {
  commit_operation = λ _ w. (err "no space left", w);
  revert = λ i _ w. (ok tt, record w { best = w.best - i });
}

abbrev full_heights : Heights full
full_heights = record {
  begun = λ w. (refl, refl, refl);
  state_begun = λ h op w. (refl, refl, refl);
  numbered = numbered_toy;
  reverted = λ k w. refl;
  refused = λ op w. refl;
}

abbrev full_builder : Builder full
full_builder = record { world = longer; executor = tt; cache = record { auxilliary = [] } }

abbrev no_changes : Changes full
no_changes = record {
  main_sc = no_entries;
  child_sc = tt;
  tx = no_entries;
  root = 7;
  tx_index = tt;
}

commit_storage_changes_reverts_example :
    Ends
      (λ _ _. Unit {0})
      (Fails full full_heights 2 longer)
      (commit_storage_changes full no_changes (hash 2) full_builder)
unfolding get_block_header get_block_hash
commit_storage_changes_reverts_example =
    commit_storage_changes_reverts full full_heights no_changes (hash 2) full_builder (2, 0) refl

-- Both blocks are taken back, and the commit then fails.
loses_two : commit_storage_changes full no_changes (hash 2) full_builder ≡ (
  err (backend_operation_commit (hash 2) "no space left"),
  record full_builder { world = record longer { best = 0 } },
)
unfolding get_block_header get_block_hash commit_storage_changes check_best_hash_and_revert
loses_two = refl

abbrev alone : StandAloneBuilder toy
alone = record { builder = builder; setup = setup; next = none; imports = [] }

abbrev built : ((ℕ × ℕ) × List ℕ) × ℕ
built = (((2, 0), []), 9)

-- With a block that the client refuses.
abbrev waiting : StandAloneBuilder toy
waiting = record alone { next = some (((2, 13), []), 9) }

-- With a block whose parent the client does not know.
abbrev unknown : StandAloneBuilder toy
unknown = record alone { next = some (((9, 0), []), 9) }

import_block_listed_example :
    ((import_block toy unknown).1.imports ≡ (((9, 0), []), 9) ∷ [])
    ↔ ((r : ImportResult) × ((toy.import_params (block_params toy ((9, 0), [])) world).0 ≡ ok r))
import_block_listed_example = import_block_listed toy unknown ((9, 0), []) 9 refl

import_block_lost_example :
    (import_block toy waiting ≡ (err (core_builder (block_importing "bad root")), alone))
    × (import_block toy alone ≡ (err next_block_not_found, alone))
unfolding Blocks.import_block
import_block_lost_example =
    import_block_lost toy waiting ((2, 13), []) 9 builder (block_importing "bad root") refl refl

-- A block is built and imported, one more is built, and a third is not built while that one waits.
abbrev calls : List (Call toy)
calls = builds ∷ imports_ ∷ changes none write_head ∷ builds ∷ builds ∷ []

abbrev fresh : StandAloneBuilder toy
fresh = new_stand_alone toy world builder.executor setup

run-built_in_example :
    Sublist
      (in_order (run (apply toy) calls fresh).imports (run (apply toy) calls fresh).next)
      (built_in (apply toy) (built_by toy) calls fresh)
run-built_in_example = run-built_in toy world builder.executor setup calls

-- One block is imported, and one waits.
calls_go :
    length (in_order (run (apply toy) calls fresh).imports (run (apply toy) calls fresh).next) ≡ 2
unfolding build_block import_block with_mut_state propose_block Blocks.import_block
    Blocks.build_block with_state with_dry_run open_state latest_header latest_block
    get_block_header get_block_hash apply new_stand_alone
calls_go = refl

abbrev idling : List (Call toy)
idling = builds ∷ changes none write_head ∷ appends 5 ∷ builds ∷ []

run-milder_example : Waits toy (((2, 13), []), 9) idling waiting
run-milder_example = run-milder toy idling waiting (((2, 13), []), 9) refl tt
