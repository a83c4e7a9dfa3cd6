-- ===== src/Examples/Stored.antt =====
-- The relay chain's storage in the database of the small node.
use mathlib.Core.List.{Sublist}
use fudge.Prelude.{
  ℕ, none, some, [], ◌∷◌, List, ok, ◌≡◌, ◌≢◌, ◌↔◌, refl, sym, ap, false, contains, Yields,
}
use fudge.Builder.Core.State.{with_state}
use fudge.Builder.RelayChain.{
  Key, heads, parachains, pending_availability_commitments, RelaychainBuilder, Collected,
}
use fudge.Builder.RelayChain.Onboarding.{on_storage, get_or_default}
use fudge.Builder.RelayChain.Collations.{with_mut_state, enact_storage, commitments_of}
use fudge.Builder.RelayChain.Collations.Enacting.{Enacts, enact_storage-Enacts}
use fudge.Builder.RelayChain.Chain.{new_relaychain, onboard_para, update_para_head}
use fudge.Builder.RelayChain.Chain.Stored.{Reading}
use fudge.Builder.RelayChain.Chain.Items.{
  Onboards, onboard_para-Onboards, update_para_head-reads, enact_unknown-reads,
}
use fudge.Builder.RelayChain.Chain.Runs.{IsSound}
use fudge.Builder.Common.Turns.{in_order, run, built_in}
use fudge.Builder.RelayChain.Chain.Turning.{built_by, in_order-run}
use fudge.Builder.RelayChain.Chain.Calls.{
  Call, onboards, builds, imports_, updates_head, apply, run-IsSound,
}
use fudge.Examples.Storage.{Entries, no_entries, over, get_key, primitives, types}
use fudge.Examples.Toy.{toy, builder, setup}
use fudge.Examples.Commits.{database}
use fudge.Examples.Relay.{runtime, collators, relay, para}

closes_same :
    (k : Key types) (s o o' : Entries)
    → toy.storage_commit_transaction o ≡ ok o'
    → get_key k (over o' s) ≡ get_key k (over o s)
closes_same k s o o' e = let same : o ≡ o' = cc in ap (λ x. get_key k (over x s)) (sym same)

abbrev reading : Reading runtime database
reading = record {
  read = λ k v. get_key k v;
  reads = λ k s o. refl;
  rooted = λ k s v o. refl;
  started = λ k s o. refl;
  closed = closes_same;
}

abbrev relaying : RelaychainBuilder primitives toy ℕ
relaying = record relay { next = none; parachains = [] }

onboard_para-Onboards_example :
    Yields
      (λ _ s.
        Onboards runtime database reading para no_entries s × (s.parachains ≡ (2, collators) ∷ []))
      (onboard_para runtime para collators relaying)
onboard_para-Onboards_example =
    onboard_para-Onboards runtime database reading para collators no_entries relaying refl

onboards_ok : (onboard_para runtime para collators relaying).0 ≡ ok tt
unfolding onboard_para with_state
onboards_ok = refl

update_para_head-reads_example :
    Yields
      (λ _ s.
        ((st : Entries) × (toy.state_at (toy.best_hash s.builder.world) s.builder.world ≡ ok st)
          × (get_key (heads 2) (over no_entries st) ≡ some (4 ∷ []))
          × ((k : Key types)
              → k ≢ heads 2
              → get_key k (over no_entries st) ≡ get_key k (over no_entries no_entries)))
        × (s.parachains ≡ []))
      (update_para_head runtime 2 (4 ∷ []) relaying)
update_para_head-reads_example =
    update_para_head-reads runtime database reading 2 (4 ∷ []) no_entries relaying refl

abbrev collation : Collected primitives toy
collation = record {
  id = 3;
  collation = record {
    upward_messages = [];
    new_validation_code = none;
    processed_downward_messages = 0;
    horizontal_messages = [];
    hrmp_watermark = 0;
    head_data = 5 ∷ [];
    proof_of_validity = [];
  };
  generation_parent = (1, 0);
}

absent : contains 3 (get_or_default [] (get_key parachains (over no_entries no_entries))) ≡ false
unfolding contains
absent = refl

enact_unknown-reads_example :
    Yields
      (λ e s.
        (e ≢ ok tt)
        × ((st : Entries) × (toy.state_at (toy.best_hash s.builder.world) s.builder.world ≡ ok st)
            × (get_key (pending_availability_commitments 3) (over no_entries st)
                ≡ some (commitments_of runtime collation.collation))
            × ((k : Key types)
                → k ≢ pending_availability_commitments 3
                → get_key k (over no_entries st) ≡ get_key k (over no_entries no_entries))))
      (with_mut_state none (on_storage toy (enact_storage runtime 0 0 collation [])) relaying)
enact_unknown-reads_example =
    enact_unknown-reads runtime database reading 0 0 collation [] no_entries relaying refl absent

abbrev with_parachain : Entries
with_parachain = record no_entries { in_parachains = (1 ∷ 3 ∷ []) ∷ [] }

enact_storage-Enacts_example :
    (enact_storage runtime 0 0 collation [] builder.world with_parachain no_entries ≡ (
      ok tt,
      record no_entries {
        in_pending_availability = (3, 1) ∷ [];
        in_pending_availability_commitments = (3, commitments_of runtime collation.collation) ∷ [];
      },
    ))
    ↔ Enacts runtime 0 0 collation [] builder.world with_parachain no_entries (record no_entries {
      in_pending_availability = (3, 1) ∷ [];
      in_pending_availability_commitments = (3, commitments_of runtime collation.collation) ∷ [];
    })
enact_storage-Enacts_example =
    enact_storage-Enacts runtime 0 0 collation [] builder.world with_parachain no_entries _

enacts : (enact_storage runtime 0 0 collation [] builder.world with_parachain no_entries).0 ≡ ok tt
unfolding enact_storage
enacts = refl

abbrev calls : List (Call primitives toy ℕ)
calls = onboards para collators ∷ builds ∷ imports_ ∷ updates_head 2 (4 ∷ []) ∷ builds ∷ []

run-IsSound_example :
    IsSound (run (apply runtime) calls (new_relaychain builder.world builder.executor setup 0))
run-IsSound_example = run-IsSound runtime builder.world builder.executor setup 0 calls

in_order-run_example :
    Sublist
      (in_order
        (run (apply runtime) calls (new_relaychain builder.world builder.executor setup 0)).imports
        (run (apply runtime) calls (new_relaychain builder.world builder.executor setup 0)).next)
      (built_in
        (apply runtime)
        (built_by runtime)
        calls
        (new_relaychain builder.world builder.executor setup 0))
in_order-run_example = in_order-run runtime builder.world builder.executor setup 0 calls
