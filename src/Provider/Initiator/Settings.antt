-- ===== src/Provider/Initiator/Settings.antt =====
-- What an `Init` sets up with, after any sequence of settings.
use fudge.Prelude.{last_of, Option, none, some, List, [], ◌∷◌, ◌≡◌, refl, ap}
use fudge.Provider.Initiator.{
  Services, PoolConfig, BackendProvider, ClientProvider, Init, new_init, default_pool_config,
  with_exec_extensions, with_genesis, with_config, with_pool_config, init,
}

module _ (v : Services) where
  -- A call of a `with_*` method.
  pub data Setting : Type 0 where
    exec_extensions : v.ExecutionExtensions → Setting
    genesis : v.Genesis → Setting
    config : v.ClientConfig → Setting
    pool : PoolConfig v → Setting

  unfoldable pub set_init : Setting → Init v → Init v
  unfolding with_exec_extensions with_genesis with_config with_pool_config
  set_init (exec_extensions x) s = with_exec_extensions x s
  set_init (genesis x) s = with_genesis x s
  set_init (config x) s = with_config x s
  set_init (pool x) s = with_pool_config x s

  unfoldable pub set_all : List Setting → Init v → Init v
  unfolding set_init
  set_all [] s = s
  set_all (x ∷ xs) s = set_all xs (set_init x s)

  abbrev pub extensions_of : Setting → Option v.ExecutionExtensions
  extensions_of (exec_extensions x) = some x
  extensions_of _ = none

  abbrev pub genesis_of : Setting → Option v.Genesis
  genesis_of (genesis x) = some x
  genesis_of _ = none

  abbrev pub config_of : Setting → Option v.ClientConfig
  config_of (config x) = some x
  config_of _ = none

  abbrev pub pool_of : Setting → Option (PoolConfig v)
  pool_of (pool x) = some x
  pool_of _ = none

  settled :
      (xs : List Setting) (s : Init v)
      → set_all xs s ≡ record s {
        genesis = last_of genesis_of s.genesis xs;
        pool_config = last_of pool_of s.pool_config xs;
        client_config = last_of config_of s.client_config xs;
        execution_extensions = last_of extensions_of s.execution_extensions xs;
      }
  unfolding set_all set_init with_exec_extensions with_genesis with_config with_pool_config
  settled [] s = refl
  settled (exec_extensions x ∷ xs) s = settled xs (with_exec_extensions x s)
  settled (genesis x ∷ xs) s = settled xs (with_genesis x s)
  settled (config x ∷ xs) s = settled xs (with_config x s)
  settled (pool x ∷ xs) s = settled xs (with_pool_config x s)

  -- After any sequence of settings on a new one, an `Init` sets up with the last of each kind, and with the
  -- default of each kind that was not set; the execution extensions stay those made from the executor where
  -- none were set.
  pub init-set_all :
      (backend : BackendProvider v) (client : ClientProvider v) (exec : v.Executor)
      (handle : v.Handle) (xs : List Setting) (w : v.World)
      → init (set_all xs (new_init backend client exec handle)) w
        ≡ init
            (record {
              backend = backend;
              client = client;
              genesis = last_of genesis_of v.genesis_default xs;
              handle = handle;
              exec = exec;
              pool_config = last_of pool_of default_pool_config xs;
              client_config = last_of config_of v.client_config_default xs;
              execution_extensions = last_of extensions_of (v.new_extensions exec) xs;
            })
            w
  unfolding new_init
  init-set_all backend client exec handle xs w =
      ap (λ s. init s w) (settled xs (new_init backend client exec handle))
