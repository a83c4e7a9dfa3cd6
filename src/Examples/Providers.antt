-- ===== src/Examples/Providers.antt =====
-- Settings of a database and of an initiator, and the digests of two blocks.
use fudge.Prelude.{
  ℕ, ◌+◌, ◌/◌, ◌≤◌, Bool, true, false, Option, none, some, List, [], ◌∷◌, Result, ok, InnerError,
  ◌≡◌, refl, arith,
}
use fudge.Provider.Backend.{Databases, Open}
use fudge.Provider.Initiator.{Services}
use fudge.Inherent.Timestamp.{current_time}
use fudge.Digest.{Consensus, AuraDigest, aura_digest}
use fudge.Digest.Slots.{aura_digest_mono}
use fudge.Examples.Timestamps.{host, provider}

-- A world that counts its databases; a backend is the delay it was opened with.
abbrev databases : Databases
databases = record {
  World = ℕ;
  Backend = ℕ;
  KeyValueDb = Unit {0};
  PathBuf = ℕ;
  BlocksPruning = Bool;
  keep_all = true;
  PruningMode = Bool;
  archive_all = true;
  mem_db = tt;
}

abbrev open_ : Open databases
open_ settings delay w = (ok delay, w + 1)

-- Services where everything is a number.
abbrev services : Services
services = record {
  World = ℕ;
  Handle = ℕ;
  TaskManager = ℕ;
  Executor = ℕ;
  Backend = ℕ;
  Client = ℕ;
  Pool = ℕ;
  Genesis = ℕ;
  genesis_default = 0;
  ClientConfig = Bool;
  client_config_default = false;
  no_genesis = λ c. c;
  ExecutionExtensions = ℕ;
  new_extensions = λ e. e;
  Options = ℕ;
  options_default = 0;
  RevalidationType = ℕ;
  full = 1;
  new_task_manager = λ h w. (ok h, w + 1);
  CallExecutor = ℕ;
  new_call_executor = λ b e c x w. (ok (e + x), w + 1);
  GenesisBlockBuilder = ℕ;
  new_genesis_block_builder = λ g f b e w. (ok g, w + 1);
  UsageInfo = ℕ;
  usage_info = λ c w. c;
  new_pool = λ o v c r t u w. (o, w + 1);
  Configuration = ℕ;
  Keystore = ℕ;
  new_full_parts = λ c e w. (ok (c, e, c, c), w + 1);
  build_executor = λ s. 9;
}

abbrev peek : List ℕ → Result InnerError (Option ℕ)
peek [] = ok none
peek (x ∷ xs) = ok (some x)

peek-put : (x : ℕ) (d d' : List ℕ) → host.put_data x d ≡ ok d' → peek d' ≡ ok (some x)
peek-put x d d' e = let same : (x ∷ d) ≡ d' = cc in cc

abbrev consensus : Consensus host
consensus = record {
  timestamp_inherent_data = peek;
  babe_inherent_data = peek;
  put_data-found = λ x d d' e. peek-put x d d' e;
  from_timestamp = λ x d. x / d;
  from_timestamp_lem = λ x d p. refl;
  DigestItem = ℕ;
  aura_pre_digest = λ s. s;
  babe_pre_digest = λ a s. s;
}

abbrev twelve_seconds : AuraDigest
twelve_seconds = record { slot_duration = 12000 }

aura_digest_mono_example :
    (x : ℕ) × (y : ℕ) × (aura_digest consensus twelve_seconds (current_time host provider ∷ [])
      ≡ ok x)
    × (aura_digest consensus twelve_seconds (current_time host (record provider { ticks = 5 }) ∷ [])
        ≡ ok y)
    × (x ≡ current_time host provider / 12000)
    × (x ≤ y)
aura_digest_mono_example =
    aura_digest_mono consensus twelve_seconds provider 5 [] (current_time host provider ∷ []) []
      (current_time host (record provider { ticks = 5 }) ∷ []) (omega arith) (omega arith) refl refl
