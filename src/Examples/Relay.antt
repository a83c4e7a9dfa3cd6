-- ===== src/Examples/Relay.antt =====
-- The relay chain on the small node.
use fudge.Prelude.{
  ℕ, ◌+◌, ◌==◌, ==_iff, none, some, [], ◌∷◌, ok, ◌≡◌, refl, if◌then◌else◌, max, Leaves,
}
use fudge.Builder.RelayChain.{
  Runtime, CollationBuilder, RelaychainBuilder, heads, para_lifecycles, parachains,
}
use fudge.Builder.RelayChain.Onboarding.{FudgeParaChain, onboard_storage, add_parachain, sort}
use fudge.Builder.RelayChain.Onboarding.Sorting.{IsSorted, count, add_parachain_lem}
use fudge.Builder.RelayChain.Onboarding.Storage.{onboard_storage_lem}
use fudge.Builder.RelayChain.Collations.{force_enact_collations}
use fudge.Builder.RelayChain.Collations.Keeping.{Collecting}
use fudge.Builder.RelayChain.Collations.Approvals.{approvals, Told, force_enact_collations-Told}
use fudge.Builder.RelayChain.Chain.{import_block}
use fudge.Builder.RelayChain.Chain.Importing.{with_import, Lost, import_block-Leaves}
use fudge.Examples.Storage.{
  Entries, no_entries, over, get_key, put_key, get_key-put_key_self, get_key-put_key_ne, primitives,
  types,
}
use fudge.Examples.Toy.{toy, builder, setup}

abbrev pub runtime : Runtime primitives toy types
runtime = record {
  get = λ k s o. get_key k (over o s);
  put = put_key;
  get-put_self = λ k v s o. get_key-put_key_self k v s o;
  get-put_ne = λ j k v s o d. get_key-put_key_ne j k v s o d;
  block_number = λ s o. 5;
  code_hash = λ code. elim code [ [] ↦ 0 | b ∷ _ ↦ b ];
  zero_code_hash = 0;
  code_hash_eq = λ a b. a == b;
  code_hash_eq_iff = λ a b. ==_iff a b;
  parachain = 1;
  persisted_validation_data = λ h id a w. ok (some (id ∷ []));
  validation_code_hash = λ h id a w. ok (some 7);
  enact = λ id s o. (some (id ∷ []), o);
  validation_data_hash = λ d. 3;
  pov_hash = λ b. 4;
  head_data_hash = λ b. 5;
  recode = λ c. ok c.core;
}

-- A state with parachain 3 on it.
abbrev state : Entries
state = record no_entries {
  in_parachains = (3 ∷ []) ∷ [];
  in_heads = (3, 9 ∷ []) ∷ [];
  in_current_code_hash = (2, 6) ∷ [];
}

abbrev pub para : FudgeParaChain
para = record { id = 2; head = 1 ∷ []; code = 7 ∷ 7 ∷ [] }

onboard_storage_lem_example :
    ((onboard_storage runtime state para no_entries).0 ≡ ok tt)
    × (get_key parachains (over (onboard_storage runtime state para no_entries).1 state)
        ≡ some (2 ∷ 3 ∷ []))
    × ((a : ℕ)
        → get_key (heads a) (over (onboard_storage runtime state para no_entries).1 state)
          ≡ (if a == 2 then some (1 ∷ []) else get_key (heads a) state))
    × ((a : ℕ)
        → get_key (para_lifecycles a) (over (onboard_storage runtime state para no_entries).1 state)
          ≡ (if a == 2 then some 1 else get_key (para_lifecycles a) state))
unfolding add_parachain sort
onboard_storage_lem_example = onboard_storage_lem runtime state para no_entries

add_parachain_lem_example :
    IsSorted (add_parachain 2 (3 ∷ []))
    × ((a : ℕ)
        → count a (add_parachain 2 (3 ∷ []))
          ≡ (if a == 2 then max 1 (count a (3 ∷ [])) else count a (3 ∷ [])))
add_parachain_lem_example = add_parachain_lem 2 (3 ∷ []) (tt, tt)

-- A collator that counts the calls it gets.
abbrev pub collators : CollationBuilder primitives ℕ
collators = record {
  collation = λ d g. (
    ok (
        some (record {
          upward_messages = [];
          new_validation_code = none;
          processed_downward_messages = 0;
          horizontal_messages = [];
          hrmp_watermark = 0;
          head_data = [];
          proof_of_validity = d;
        })),
    g + 1,
  );
  judge = λ j g. (ok tt, g + 1);
}

abbrev pub relay : RelaychainBuilder primitives toy ℕ
relay = record {
  builder = builder;
  setup = setup;
  next = some (((2, 0), []), 9);
  imports = [];
  parachains = (2, collators) ∷ (3, collators) ∷ [];
  collations = [];
  outside = 0;
}

import_block-Leaves_example :
    Leaves
      (λ _. Collecting (with_import (((2, 0), []), 9) relay) (2, 0))
      (Lost relay)
      (import_block runtime relay)
import_block-Leaves_example = import_block-Leaves runtime relay (((2, 0), []), 9) refl

abbrev pub collected : RelaychainBuilder primitives toy ℕ
collected = record relay {
  next = none;
  collations =
      record {
        id = 3;
        collation = record {
          upward_messages = [];
          new_validation_code = none;
          processed_downward_messages = 0;
          horizontal_messages = [];
          hrmp_watermark = 0;
          head_data = [];
          proof_of_validity = [];
        };
        generation_parent = (1, 0);
      }
      ∷ [];
}

force_enact_collations-Told_example :
    Leaves
      (λ _ s. s.outside ≡ approvals collected.parachains collected.collations 0)
      (Told collected.parachains collected.collations 0)
      (force_enact_collations runtime collected)
force_enact_collations-Told_example = force_enact_collations-Told runtime collected
