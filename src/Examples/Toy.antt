-- ===== src/Examples/Toy.antt =====
-- A small node: a block's hash is its number, a header holds the number and the state's root, a block
-- executes nothing, and the states are those of module `Storage`.
use fudge.Prelude.{
  ℕ, ◌+◌, ◌-◌, ◌==◌, false, Option, none, some, List, [], ◌∷◌, ◌++◌, Map, Result, ok, err,
  InnerError, Action, if◌then◌else◌,
}
use fudge.Node.{
  Node, hash, number, ImportResult, imported, unknown_parent, ChainEvent, new_best_block, finalized,
  BlockImportParams, Setup,
}
use fudge.Builder.Core.{Builder}
use fudge.Examples.Storage.{Entries, no_entries, over, look}

pub record World : Type 0 where
  pub best : ℕ
  pub final : ℕ
  pub headers : Map (ℕ × ℕ)
  pub bodies : Map (List ℕ)
  pub states : Map Entries
  pub pool : List ℕ

pub record Writing : Type 0 where
  pub block : ℕ
  pub changes : Entries
  pub header : Option (ℕ × ℕ)

abbrev pub or_unknown : {A : Type 0} → Option A → Result InnerError A
or_unknown none = err "unknown block"
or_unknown (some a) = ok a

-- The states of the database: an unknown one is empty.
abbrev pub state_of : ℕ → World → Entries
state_of h w = elim (look h w.states) [ none ↦ no_entries | some s ↦ s ]

abbrev pub commit_writing : Writing → Action World InnerError (Unit {0})
commit_writing op w = elim op.header [
  | none ↦ (err "no block data", w)
  | some header ↦ (
    ok tt,
    record w {
      best = header.0;
      final = header.0;
      headers = (header.0, header) ∷ w.headers;
      states = (header.0, op.changes) ∷ w.states;
    },
  )
]

-- The next block takes the state of the one before it.
abbrev pub import_next : BlockImportParams (ℕ × ℕ) ℕ → Action World InnerError ImportResult
import_next p w =
    if p.header.1 == 13
    then (err "bad root", w)
    else if p.header.0 == w.best + 1
    then (
      ok imported,
      record w {
        best = p.header.0;
        headers = (p.header.0, p.header) ∷ w.headers;
        states = (p.header.0, state_of w.best w) ∷ w.states;
        bodies = (p.header.0, elim p.body [ none ↦ [] | some b ↦ b ]) ∷ w.bodies;
        pool = [];
      },
    )
    else (ok unknown_parent, w)

abbrev pub told : ChainEvent ℕ → World → World
told (new_best_block _ _) w = w
told (finalized h _) w = record w { final = h }

abbrev pub toy : Node
toy = record {
  Hash = ℕ;
  Header = ℕ × ℕ;
  Extrinsic = ℕ;
  Block = (ℕ × ℕ) × List ℕ;
  StorageProof = ℕ;
  hash_eq = λ a b. a == b;
  hash_of = λ h. h.0;
  number_of = λ h. h.0;
  set_state_root = λ r h. (h.0, r);
  header_of = λ b. b.0;
  deconstruct = λ b. b;
  new_params = λ o h. record {
    origin = o;
    header = h;
    body = none;
    finalized = false;
    import_existing = false;
    fork_choice = none;
  };
  State = Entries;
  Overlay = Entries;
  StateVersion = ℕ;
  MainSc = Entries;
  ChildSc = Unit {0};
  Tx = Entries;
  TxIndex = Unit {0};
  overlay_default = no_entries;
  storage_root = λ _ _ o. o;
  storage_start_transaction = λ o. o;
  storage_commit_transaction = λ o. ok o;
  drain_storage_changes = λ s v o.
      ok
        (record { main_sc = o; child_sc = tt; tx = over o s; root = 7; tx_index = tt }, no_entries);
  get_raw_code = λ s o. some (1 ∷ []);
  World = World;
  best_hash = λ w. w.best;
  finalized_hash = λ w. w.final;
  best_number = λ w. w.best;
  header_at = λ h w. ok (look h w.headers);
  hash_at = λ i w. ok (if i == w.best then some i else none);
  block_number_from_id = λ id w. elim id [ hash h ↦ ok (some h) | number i ↦ ok (some i) ];
  state_at = λ h w. or_unknown (look h w.states);
  IndexedBody = Unit {0};
  Justifications = Unit {0};
  body_at = λ h w. ok (look h w.bodies);
  block_indexed_body = λ h w. ok none;
  justifications = λ h w. ok none;
  ImportOperation = Writing;
  NewBlockState = Unit {0};
  final = tt;
  begin_operation = λ w. (ok (record { block = 0; changes = no_entries; header = none }), w);
  begin_state_operation = λ h op w. (ok (record op { block = h }), w);
  update_db_storage = λ tx op. ok (record op { changes = tx });
  update_storage = λ _ _ op. ok op;
  update_transaction_index = λ _ op. ok op;
  set_block_data = λ h _ _ _ _ op. ok (record op { header = some h });
  commit_operation = commit_writing;
  revert = λ i _ w.
      if i == 1 then (ok tt, record w { best = w.best - 1 }) else (err "one block at a time", w);
  Digest = ℕ;
  new_header = λ i _ root _ _. (i, root);
  empty_trie_root = λ _. 0;
  default_hash = 0;
  default_digest = 0;
  Executor = Unit {0};
  RuntimeVersion = ℕ;
  code_digest = λ c. c;
  runtime_version = λ _ _ _. ok 1;
  state_version_of = λ v. v;
  InherentData = ℕ;
  Proposer = ℕ × ℕ;
  InherentProviders = ℕ;
  create_inherent_data = λ p w. (ok p, w);
  submit_one = λ _ xt w.
      if xt == 0
      then (err "bad extrinsic", w)
      else (ok xt, record w { pool = w.pool ++ (xt ∷ []) });
  ready = λ w. w.pool;
  maintain = told;
  init_proposer = λ h w. (ok h, w);
  propose = λ _ _ _ _ h w. (ok ((((h.0 + 1), 0), w.pool), 9), w);
  import_params = import_next;
}

-- A chain of a genesis block and one more, the second final.
abbrev pub world : World
world = record {
  best = 1;
  final = 1;
  headers = (0, (0, 0)) ∷ (1, (1, 0)) ∷ [];
  bodies = [];
  states = (0, no_entries) ∷ (1, no_entries) ∷ [];
  pool = [];
}

abbrev pub builder : Builder toy
builder = record { world = world; executor = tt; cache = record { auxilliary = [] } }

abbrev pub setup : Setup toy
setup = record {
  create_inherent_data_providers = λ h w s o. (some (ok 3), o);
  create_digest = λ h d w s o. (some (ok 4), o);
}
