-- ===== src/Provider/Externalities.antt =====
-- core/src/provider/externalities.rs: running a closure over a state, with the changes it makes
-- kept in an overlay. `set_and_run_with_externalities` makes state and overlay reachable for the
-- closure; here they are its arguments.
use fudge.Prelude.{none, some, Result, ok, err, panic, InnerError, Action, ◌>>=◌, ◌>>◌, pure}
use fudge.Node.{Node, Closure, Changes}

pub data Error : Type 0 where
  storage_transaction_commit : Error
  storage_changes_draining : InnerError → Error
  externalities_set_and_run : Error

pub record ExternalitiesProvider (n : Node) : Type 0 where
  pub overlay : n.Overlay
  pub backend : n.State

module _ (n : Node) where
  abbrev pub new : n.State → ExternalitiesProvider n
  new backend = record { overlay = n.overlay_default; backend = backend }

  -- `set_and_run_with_externalities(&mut ext, execute)`
  abbrev pub set_and_run : {E R : Type 0} → Closure n R → Action (ExternalitiesProvider n) E R
  set_and_run execute p =
      let (r, o) = execute p.backend p.overlay in
      (elim r [ none ↦ panic | some r ↦ ok r ], record p { overlay = o })

  unfoldable pub execute_with : {E R : Type 0} → Closure n R → Action (ExternalitiesProvider n) E R
  execute_with execute = set_and_run execute

  abbrev on_overlay :
      {E : Type 0} → (n.Overlay → n.Overlay) → Action (ExternalitiesProvider n) E (Unit {0})
  on_overlay f p = (ok tt, record p { overlay = f p.overlay })

  abbrev commit_transaction : Action (ExternalitiesProvider n) Error (Unit {0})
  commit_transaction p = elim (n.storage_commit_transaction p.overlay) [
    | ok o ↦ (ok tt, record p { overlay = o })
    | err _ ↦ (err storage_transaction_commit, p)
    | panic ↦ (panic, p)
  ]

  abbrev drain : n.StateVersion → Action (ExternalitiesProvider n) Error (Changes n)
  drain version p = elim (n.drain_storage_changes p.backend version p.overlay) [
    | ok (c, o) ↦ (ok c, record p { overlay = o })
    | err e ↦ (err (storage_changes_draining e), p)
    | panic ↦ (panic, p)
  ]

  unfoldable pub execute_with_mut :
      {R : Type 0}
      → Closure n R
      → n.StateVersion
      → Action (ExternalitiesProvider n) Error (R × Changes n)
  execute_with_mut execute version = do
    λ p. on_overlay (n.storage_root p.backend version) p
    on_overlay n.storage_start_transaction
    r ← set_and_run execute
    commit_transaction
    changes ← drain version
    pure (r, changes)

  -- `catch_unwind`
  abbrev caught : {R : Type 0} → Result Error R → Result Error R
  caught (ok r) = ok r
  caught (err e) = err e
  caught panic = err externalities_set_and_run

  unfoldable pub execute_with_safe :
      {R : Type 0} → Closure n R → Action (ExternalitiesProvider n) Error R
  execute_with_safe f p = let (r, p') = set_and_run f p in (caught r, p')
