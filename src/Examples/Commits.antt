-- ===== src/Examples/Commits.antt =====
-- A commit on the small node, whose database keeps what is written.
use fudge.Builder.Core.Agreeing.{with_state-dry_run_commit}
use fudge.Prelude.{
  length, ℕ, Option, none, some, [], ◌∷◌, Result, ok, err, panic, String, ◌≡◌, refl, sym, ap, ◌∙◌,
  arith, Leaves,
}
use fudge.Node.{hash, Exec, Changes}
use fudge.Builder.Core.{commit, dry_run, check_best_hash_and_revert}
use fudge.Builder.Core.State.{
  with_state, commit_storage_changes, open_state, execute_for_changes, state_version, latest_code,
  with_dry_run,
}
use fudge.Builder.Core.Database.{Database}
use fudge.Builder.Core.Running.{Ran}
use fudge.Builder.Core.Commits.{Latest, with_state-commit_any_reads}
use fudge.Builder.Core.Rewrites.{commit_storage_changes-reads}
use fudge.Examples.Storage.{Entries, no_entries, over, look}
use fudge.Examples.Toy.{World, Writing, toy, builder, commit_writing, or_unknown}

abbrev written : Result String Writing → Entries
written (ok op) = op.changes
written (err _) = no_entries
written panic = no_entries

abbrev header_of : Result String Writing → Option (ℕ × ℕ)
header_of (ok op) = op.header
header_of (err _) = none
header_of panic = none

abbrev drained_tx : Result String (Changes toy × Entries) → Entries
drained_tx (ok x) = x.0.tx
drained_tx (err _) = no_entries
drained_tx panic = no_entries

pub commit_writing_lem :
    (op : Writing) (v : Entries) (w w' : World)
    → (op.changes ≡ v) × ((h : ℕ × ℕ) × (op.header ≡ some h))
    → commit_writing op w ≡ (ok tt, w')
    → (s : Entries) × (or_unknown (look w'.best w'.states) ≡ ok s) × (over no_entries s ≡ v)
commit_writing_lem op v w w' (c, (h, e)) q = (op.changes, ground (arith, q, e), c)

abbrev pub database : Database toy Entries
database = record {
  view = λ s o. over o s;
  root_of = λ h. h.1;
  Makes = λ c v. c.tx ≡ v;
  Carries = λ op r v. op.changes ≡ v;
  Sealed = λ op v. (op.changes ≡ v) × ((h : ℕ × ℕ) × (op.header ≡ some h));
  root-set = λ r h. refl;
  root-new = λ i e r p d. refl;
  drained = λ s v o o' c e. sym (ap drained_tx e);
  put_changes = λ c v op op' m e. sym (ap written e) ∙ m;
  keep_storage = λ c r v op op' k e. sym (ap written e) ∙ k;
  keep_index = λ c r v op op' k e. sym (ap written e) ∙ k;
  seal = λ h b i j v op op' k e. (sym (ap written e) ∙ k, (h, sym (ap header_of e)));
  committed = λ op v w w' k e. commit_writing_lem op v w w' k e;
}

-- A closure that writes the head of parachain 2.
abbrev write_head : Exec toy ℕ
write_head w s o = (some w.best, record o { in_heads = (2, 8 ∷ []) ∷ o.in_heads })

with_state-commit_any_reads_example :
    Leaves
      (λ r b'. (v : Entries) × Ran database write_head no_entries r v × Latest database v b'.world)
      (λ _. Unit {0})
      (with_state toy commit (some (hash 0)) write_head builder)
with_state-commit_any_reads_example =
    with_state-commit_any_reads database (some (hash 0)) 0 write_head no_entries builder refl refl

abbrev changes : Changes toy
changes = record {
  main_sc = no_entries;
  child_sc = tt;
  tx = record no_entries { in_heads = (2, 8 ∷ []) ∷ [] };
  root = 7;
  tx_index = tt;
}

commit_storage_changes-reads_example :
    Leaves
      (λ _ b'. Latest database (record no_entries { in_heads = (2, 8 ∷ []) ∷ [] }) b'.world)
      (λ _. Unit {0})
      (commit_storage_changes toy changes (hash 0) builder)
commit_storage_changes-reads_example =
    commit_storage_changes-reads database changes
      (record no_entries { in_heads = (2, 8 ∷ []) ∷ [] }) (hash 0) builder refl

-- A closure that returns the heads it finds, and writes another one.
abbrev add_head : Exec toy ℕ
add_head w s o =
    (some (length (over o s).in_heads), record o { in_heads = (2, 8 ∷ []) ∷ o.in_heads })

with_state-dry_run_commit_example :
    Leaves
      (λ r _. with_state toy dry_run (some (hash 0)) add_head builder ≡ (ok r, builder))
      (λ _. Unit {0})
      (with_state toy commit (some (hash 0)) add_head builder)
with_state-dry_run_commit_example =
    with_state-dry_run_commit database (some (hash 0)) 0 add_head no_entries builder
      (λ w w' s v. refl) refl refl

-- The commit of it succeeds, with no head found.
adds_head : (with_state toy commit (some (hash 0)) add_head builder).0 ≡ ok 0
unfolding with_state open_state check_best_hash_and_revert execute_for_changes state_version
    latest_code with_dry_run
adds_head = refl
