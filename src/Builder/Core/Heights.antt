-- ===== src/Builder/Core/Heights.antt =====
-- How high the chain stands after changes were to be written back.
use fudge.Prelude.{
  ℕ, Bool, true, false, ◌-◌, Option, none, some, Result, ok, err, panic, Action, continue, or_throw,
  ◌≡◌, refl, ap, arith, ◌∙◌, if◌then◌else◌,
}
use fudge.Node.{Node, BlockId, hash, number, Exec, Changes}
use fudge.Builder.Core.State.{
  with_dry_run, latest_code, state_version, execute_for_changes, update_op, mutate_normal,
  mutate_genesis, read_code,
}
use fudge.Builder.Core.{
  Error, Builder, get_block_header, get_block_hash, cast_err, backend_operation_reversal,
  backend_operation_start, backend_state_operation_start, state_not_available,
  block_number_retrieval, block_number_not_found, latest_code_not_found, runtime_version_retrieval,
}

-- What an action leaves: one predicate of its value and the state where it succeeds, one of its error and the
-- state where it fails, and nothing where it panics.
module _ {S E A : Type 0} where
  abbrev pub Ends : (A → S → Type 0) → (E → S → Type 0) → Result E A × S → Type 0
  Ends Q P (ok a, s) = Q a s
  Ends Q P (err e, s) = P e s
  Ends Q P (panic, s) = Unit {0}

  pub Ends-any :
      (Q : A → S → Type 0) (P : E → S → Type 0) (m : Result E A × S)
      → ((a : A) → Q a m.1)
      → ((e : E) → P e m.1)
      → Ends Q P m
  Ends-any Q P (ok a, s) q p = q a
  Ends-any Q P (err e, s) q p = p e
  Ends-any Q P (panic, s) q p = tt

pub Ends-continue :
    {S E A B : Type 0} (R : A → S → Type 0) (Q : B → S → Type 0) (P : E → S → Type 0)
    (m : Result E A × S) (f : A → Action S E B)
    → Ends R P m
    → ((a : A) (s : S) → R a s → Ends Q P (f a s))
    → Ends Q P (continue f m)
Ends-continue R Q P (ok a, s) f e g = g a s e
Ends-continue R Q P (err x, s) f e g = e
Ends-continue R Q P (panic, s) f e g = tt

module _ (n : Node) where
  -- The same chain, as far as its best and its final block go.
  abbrev pub Standing : n.World → n.World → Type 0
  Standing w w' =
      (n.best_hash w' ≡ n.best_hash w)
      × (n.finalized_hash w' ≡ n.finalized_hash w)
      × (n.best_number w' ≡ n.best_number w)

  -- A database that takes back as many blocks as it is asked for, down to genesis, and none where it refuses;
  -- that leaves the chain standing where an operation is started or refused; and that knows the number of the
  -- best block.
  pub record Heights : Type 0 where
    pub begun : (w : n.World) → Standing w (n.begin_operation w).1
    pub state_begun :
        (h : n.Hash) (op : n.ImportOperation) (w : n.World)
        → Standing w (n.begin_state_operation h op w).1
    pub numbered :
        (w : n.World) (i : ℕ)
        → n.block_number_from_id (hash (n.best_hash w)) w ≡ ok (some i)
        → n.best_number w ≡ i
    pub reverted :
        (k : ℕ) (w : n.World)
        → Ends
            (λ _ w'. n.best_number w' ≡ n.best_number w - k)
            (λ _ w'. n.best_number w' ≡ n.best_number w)
            (n.revert k true w)
    pub refused :
        (op : n.ImportOperation) (w : n.World)
        → Ends
            (λ _ _. Unit {0})
            (λ _ w'. n.best_number w' ≡ n.best_number w)
            (n.commit_operation op w)

  -- Where the chain stands once so many blocks have been taken back, as is done where the best block is final.
  abbrev pub height_without : ℕ → n.World → ℕ
  height_without k w =
      if n.hash_eq (n.best_hash w) (n.finalized_hash w)
      then n.best_number w - k
      else n.best_number w

  -- The steps before the revert, by their errors. The state of the best block is asked for then, and again for
  -- the runtime's version.
  abbrev pub early : Error n → Bool
  early (state_not_available at x) = true
  early (backend_operation_start at x) = true
  early (backend_state_operation_start at x) = true
  early (backend_operation_reversal x) = true
  early (block_number_retrieval at x) = true
  early (block_number_not_found at) = true
  early x = false

module _ (n : Node) where
  -- A step that reads, or that acts on a value at hand, leaves the builder as it is.
  pub then_same :
      {A B : Type 0} (b : Builder n) (m : Result (Error n) A × Builder n)
      (f : A → Action (Builder n) (Error n) B)
      → m.1 ≡ b
      → ((a : A) → (f a b).1 ≡ b)
      → (continue f m).1 ≡ b
  then_same b (ok a, u) f e g = ap (λ u. (f a u).1) e ∙ g a
  then_same b (err x, u) f e g = e
  then_same b (panic, u) f e g = e

  pub with_dry_run_same :
      {R : Type 0} (at : Option (BlockId n.Hash)) (exec : Exec n R) (b : Builder n)
      → (with_dry_run n at exec b).1 ≡ b
  unfolding with_dry_run
  with_dry_run_same at exec b = ground arith

  pub or_throw_same :
      {A : Type 0} (a : Option A) (e : Error n) (b : Builder n) → (or_throw a e b).1 ≡ b
  or_throw_same none e b = refl
  or_throw_same (some a) e b = refl

  pub latest_code_same : (b : Builder n) → (latest_code n b).1 ≡ b
  unfolding latest_code
  latest_code_same b =
      then_same b (with_dry_run n none (read_code n) b) _ (with_dry_run_same none (read_code n) b)
        (λ code. or_throw_same code latest_code_not_found b)

  pub state_version_same : (b : Builder n) → (state_version n b).1 ≡ b
  unfolding state_version
  state_version_same b = then_same b (latest_code n b) _ (latest_code_same b) (λ wasm.
      then_same b
        (cast_err n runtime_version_retrieval
          (n.runtime_version b.executor wasm (n.code_digest wasm)) b)
        _ refl (λ _. refl))

  pub execute_for_changes_same :
      {R : Type 0} (at : Option (BlockId n.Hash)) (s : n.State) (exec : Exec n R) (b : Builder n)
      → (execute_for_changes n at s exec b).1 ≡ b
  unfolding execute_for_changes
  execute_for_changes_same at s exec b =
      then_same b (state_version n b) _ (state_version_same b) (λ _. refl)

  pub get_block_header_same :
      (at : BlockId n.Hash) (b : Builder n) → (get_block_header n at b).1 ≡ b
  unfolding get_block_header get_block_hash
  get_block_header_same (hash h) b = ground arith
  get_block_header_same (number i) b = ground arith

  pub update_op_same :
      (at : Option (BlockId n.Hash)) (c : Changes n) (op : n.ImportOperation) (b : Builder n)
      → (update_op n at c op b).1 ≡ b
  unfolding update_op
  update_op_same at c op b = ground arith

  pub mutate_normal_same :
      (c : Changes n) (at : BlockId n.Hash) (op : n.ImportOperation) (b : Builder n)
      → (mutate_normal n c at op b).1 ≡ b
  unfolding mutate_normal
  mutate_normal_same c at op b =
      then_same b (get_block_header n at b) _ (get_block_header_same at b) (λ header.
        then_same b (update_op n (some at) c op b) _ (update_op_same (some at) c op b)
          (λ op. ground arith))

  pub mutate_genesis_same :
      {R : Type 0} (s : n.State) (exec : Exec n R) (op : n.ImportOperation) (b : Builder n)
      → (mutate_genesis n s exec op b).1 ≡ b
  unfolding mutate_genesis
  mutate_genesis_same s exec op b =
      then_same b (execute_for_changes n (some (number 0)) s exec b) _
        (execute_for_changes_same (some (number 0)) s exec b)
        (λ (r, c).
          then_same b (update_op n none c op b) _ (update_op_same none c op b)
            (λ op. then_same b (state_version n b) _ (state_version_same b) (λ v. ground arith)))
