-- ===== src/Examples/Companions.antt =====
-- A companion of two parachains on the small node.
use mathlib.Core.List.{Sublist}
use fudge.Prelude.{
  ℕ, false, none, some, List, [], ◌∷◌, ◌++◌, ok, err, InnerError, Result, ◌≡◌, ◌≢◌, refl, arith,
  Yields, Holds, ◌>>◌,
}
use fudge.Node.{Bytes}
use fudge.Builder.Parachain.Chain.{ParachainBuilder, new_parachain}
use fudge.Builder.Parachain.Moves.{Built, Call, run, built_in, in_order}
use fudge.Builder.RelayChain.{RelaychainBuilder}
use fudge.Builder.RelayChain.Collations.{force_enact_collations, collect_collations, keep_collation}
use fudge.Builder.Common.{propose_block}
use fudge.Builder.Core.Blocks
use fudge.Builder.Core.State
use fudge.Builder.RelayChain.Chain as RelayOps
use fudge.Builder.Parachain.Chain as ParaOps
use fudge.Builder.Companion.Generated.{
  Member, Companion, para, parachain_not_found, Closures, member_collator, new, append_extrinsic,
  append_extrinsics, with_state, with_mut_state, evolve_one, evolve_each, evolve, onboard_each,
}
use fudge.Builder.Companion.Reaching.{own, other}
use fudge.Builder.Companion.Using.{Use, submits, writes, evolves, use_all}
use fudge.Builder.Companion.Using.Creating.{boxed, new-boxed}
use fudge.Builder.Companion.Using.Evolving.{use_all-Reaches}
use fudge.Builder.Companion.Using.Dispatching.{
  Untouched, calls-NoneHas, calls-Untouched, evolve-waiting,
}
use fudge.Builder.Companion.Progress.Repeating.{Grown, evolve_times, new-evolve_times}
use fudge.Examples.Storage.{no_entries, primitives, types}
use fudge.Examples.Toy.{toy, world, builder, setup}
use fudge.Examples.Parachains.{cumulus, parachain}
use fudge.Examples.Relay.{runtime}

abbrev Builders : Type 0
Builders = ParachainBuilder toy × ParachainBuilder toy

abbrev decode_one : Bytes → Result InnerError ℕ
decode_one [] = err "no bytes"
decode_one (b ∷ bs) = ok b

abbrev centrifuge : Member primitives Builders
centrifuge = record {
  node = toy;
  id = 2;
  cumulus = cumulus;
  get = λ g. g.0;
  put = λ b g. (b, g.1);
  decode = decode_one;
  text = λ e. "parachain";
  collator_text = λ e. "collator";
}

abbrev sibling : Member primitives Builders
sibling = record {
  node = toy;
  id = 3;
  cumulus = cumulus;
  get = λ g. g.1;
  put = λ b g. (g.0, b);
  decode = decode_one;
  text = λ e. "parachain";
  collator_text = λ e. "collator";
}

abbrev companion : Companion primitives toy types Builders
companion = record {
  runtime = runtime;
  decode = decode_one;
  text = λ e. "relay chain";
  members = centrifuge ∷ sibling ∷ [];
}

abbrev idle : ParachainBuilder toy
idle = record parachain {
  block_storage = record {
    storage = record { next_block = none; next_import = none };
    poisoned = false;
  };
}

abbrev polkadot : RelaychainBuilder primitives toy Builders
polkadot = record {
  builder = builder;
  setup = setup;
  next = none;
  imports = [];
  parachains = [];
  collations = [];
  outside = (idle, record idle { id = 3 });
}

abbrev closures : Closures companion ℕ
closures = record { on_relay_chain = λ w s o. (some 1, o); on_member = λ m w s o. (some 2, o) }

-- The same relay chain with both parachains on board.
abbrev boarded : RelaychainBuilder primitives toy Builders
boarded = record polkadot {
  builder = record builder {
    world = record world {
      states = (1, record no_entries { in_parachains = (2 ∷ 3 ∷ []) ∷ [] }) ∷ (0, no_entries) ∷ [];
    };
  };
  parachains = (2, member_collator centrifuge) ∷ (3, member_collator sibling) ∷ [];
}

new-evolve_times_example :
    Yields
      (λ _ s. Grown toy 1 [] s.outside.1)
      ((do new companion; evolve_times companion 2) polkadot)
new-evolve_times_example =
    new-evolve_times companion sibling (centrifuge ∷ []) [] 1 polkadot refl (λ u g. refl)
      ((λ u g. refl), tt) tt (refl, tt) refl

abbrev calls : List (Use companion)
calls = submits (para 2) ((5 ∷ []) ∷ []) ∷ evolves ∷ writes (para 3) closures ∷ evolves ∷ []

use_all-Reaches_example :
    (cs : List (Call toy)) × ((use_all companion calls (new companion polkadot).1).outside.0
      ≡ run toy cs idle)
    × Sublist
        (in_order toy (use_all companion calls (new companion polkadot).1).outside.0)
        (in_order toy idle ++ built_in toy cs idle)
use_all-Reaches_example =
    use_all-Reaches companion centrifuge calls polkadot refl
      (own centrifuge (λ u g. refl), (other centrifuge sibling (λ u g. refl), tt))

new-boxed_example :
    Yields
      (λ _ s.
        (b : Built toy) × (s.parachains ≡ boxed companion.members)
        × (s.imports ≡ b ∷ [])
        × (s.next ≡ none))
      (new companion polkadot)
new-boxed_example = new-boxed companion polkadot

calls-NoneHas_example :
    (append_extrinsic companion (para 4) (5 ∷ []) boarded ≡ (err (parachain_not_found 4), boarded))
    × (with_state companion (para 4) closures boarded ≡ (err (parachain_not_found 4), boarded))
    × (with_mut_state companion (para 4) closures boarded ≡ (err (parachain_not_found 4), boarded))
calls-NoneHas_example = calls-NoneHas companion 4 (5 ∷ []) closures boarded (refl, (refl, tt))

calls-Untouched_example :
    Holds (Untouched sibling boarded) (append_extrinsics companion (para 2) ((5 ∷ []) ∷ []) boarded)
    × Holds (Untouched sibling boarded) (with_mut_state companion (para 2) closures boarded)
calls-Untouched_example =
    calls-Untouched companion sibling 2 ((5 ∷ []) ∷ []) closures boarded
      ((λ e u g. refl), ((λ e. ground (arith, e)), tt))

abbrev interrupted : RelaychainBuilder primitives toy Builders
interrupted = record boarded { next = some (((2, 0), []), 9) }

evolve-waiting_example :
    ((evolve companion interrupted).0 ≢ ok tt) × ((evolve companion interrupted).1 ≡ interrupted)
evolve-waiting_example =
    evolve-waiting companion centrifuge (sibling ∷ []) interrupted (((2, 0), []), 9) refl
      (λ g. refl) refl

-- An evolution of both parachains from the state at hand succeeds.
evolves_boarded : (evolve companion boarded).0 ≡ ok tt
unfolding evolve evolve_each evolve_one ParaOps.head RelayOps.update_para_head State.with_state
    RelayOps.build_block propose_block ParaOps.build_block Blocks.import_block RelayOps.import_block
    force_enact_collations collect_collations member_collator keep_collation ParaOps.import_block
evolves_boarded = refl

-- Creation and two evolutions succeed.
evolves_twice : ((do new companion; evolve_times companion 2) polkadot).0 ≡ ok tt
unfolding new evolve evolve_each evolve_one ParaOps.head RelayOps.update_para_head State.with_state
    RelayOps.build_block propose_block ParaOps.build_block Blocks.import_block RelayOps.import_block
    force_enact_collations collect_collations member_collator keep_collation ParaOps.import_block
    onboard_each ParaOps.code RelayOps.onboard_para
evolves_twice = refl
