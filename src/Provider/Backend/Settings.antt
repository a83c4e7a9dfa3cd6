-- ===== src/Provider/Backend/Settings.antt =====
-- Which settings a database is opened with, after any sequence of them.
use fudge.Prelude.{last_of, ℕ, Bool, Option, none, some, List, [], ◌∷◌, ◌≡◌, refl, ap, true}
use fudge.Provider.Backend.{
  Databases, MemDb, Open, new_mem, mem_blocks_pruning, mem_trie_cache, mem_no_trie_cache,
  mem_state_pruning, mem_no_state_pruning, mem_create_flag, mem_canonicalization_delay, provide_mem,
  custom_source,
}

module _ (d : Databases) where
  -- A call of a `with_*` or `no_*` method.
  pub data Setting : Type 0 where
    blocks_pruning : d.BlocksPruning → Setting
    trie_cache : ℕ → Setting
    no_trie_cache : Setting
    state_pruning : d.PruningMode → Setting
    no_state_pruning : Setting
    create_flag : Bool → Setting
    canonicalization_delay : ℕ → Setting

  unfoldable pub set_mem : Setting → MemDb d → MemDb d
  unfolding mem_blocks_pruning mem_trie_cache mem_no_trie_cache mem_state_pruning
      mem_no_state_pruning mem_create_flag mem_canonicalization_delay
  set_mem (blocks_pruning p) s = mem_blocks_pruning p s
  set_mem (trie_cache size) s = mem_trie_cache size s
  set_mem no_trie_cache s = mem_no_trie_cache s
  set_mem (state_pruning p) s = mem_state_pruning p s
  set_mem no_state_pruning s = mem_no_state_pruning s
  set_mem (create_flag create) s = mem_create_flag create s
  set_mem (canonicalization_delay delay) s = mem_canonicalization_delay delay s

  unfoldable pub set_all : List Setting → MemDb d → MemDb d
  unfolding set_mem
  set_all [] s = s
  set_all (x ∷ xs) s = set_all xs (set_mem x s)

  abbrev pub blocks_of : Setting → Option d.BlocksPruning
  blocks_of (blocks_pruning p) = some p
  blocks_of _ = none

  abbrev pub cache_of : Setting → Option (Option ℕ)
  cache_of (trie_cache size) = some (some size)
  cache_of no_trie_cache = some none
  cache_of _ = none

  abbrev pub state_of : Setting → Option (Option d.PruningMode)
  state_of (state_pruning p) = some (some p)
  state_of no_state_pruning = some none
  state_of _ = none

  abbrev pub flag_of : Setting → Option Bool
  flag_of (create_flag create) = some create
  flag_of _ = none

  abbrev pub delay_of : Setting → Option ℕ
  delay_of (canonicalization_delay delay) = some delay
  delay_of _ = none

  -- All fields of a database in memory after the settings.
  settled :
      (xs : List Setting) (s : MemDb d)
      → set_all xs s ≡ record {
        blocks_pruning = last_of blocks_of s.blocks_pruning xs;
        trie_cache = last_of cache_of s.trie_cache xs;
        state_pruning = last_of state_of s.state_pruning xs;
        require_create_flag = last_of flag_of s.require_create_flag xs;
        canonicalization_delay = last_of delay_of s.canonicalization_delay xs;
      }
  unfolding set_all mem_blocks_pruning mem_trie_cache mem_no_trie_cache mem_state_pruning
      mem_no_state_pruning mem_create_flag mem_canonicalization_delay set_mem
  settled [] s = refl
  settled (blocks_pruning p ∷ xs) s = settled xs (mem_blocks_pruning p s)
  settled (trie_cache size ∷ xs) s = settled xs (mem_trie_cache size s)
  settled (no_trie_cache ∷ xs) s = settled xs (mem_no_trie_cache s)
  settled (state_pruning p ∷ xs) s = settled xs (mem_state_pruning p s)
  settled (no_state_pruning ∷ xs) s = settled xs (mem_no_state_pruning s)
  settled (create_flag create ∷ xs) s = settled xs (mem_create_flag create s)
  settled (canonicalization_delay delay ∷ xs) s = settled xs (mem_canonicalization_delay delay s)

  -- After any sequence of settings on a new one, a database in memory is opened with the last value of each
  -- setting, where a `no_*` call counts as none, and with the default of each that was not set: all blocks and all
  -- states kept, no trie cache, to be created where missing, and a canonicalization delay of 4096.
  pub provide_mem-set_all :
      (open_ : Open d) (xs : List Setting) (w : d.World)
      → provide_mem open_ (set_all xs new_mem) w
        ≡ open_
            (record {
              trie_cache_maximum_size = last_of cache_of none xs;
              state_pruning = last_of state_of (some d.archive_all) xs;
              source = custom_source d.mem_db (last_of flag_of true xs);
              blocks_pruning = last_of blocks_of d.keep_all xs;
            })
            (last_of delay_of 4096 xs)
            w
  unfolding provide_mem new_mem
  provide_mem-set_all open_ xs w = ap (λ s. provide_mem open_ s w) (settled xs new_mem)
