-- ===== src/Builder/Parachain/Stages.antt =====
-- The stages that a parachain's blocks go through: built, approved, imported. Builder and collator are
-- driven by any sequence of calls, which may fail or panic.
use mathlib.Core.List.{Sublist, sublist-append_left, sublist-append_right, append-nil}
use mathlib.Core.List.Sublist
use mathlib.Core.Path.{subst}
use fudge.Prelude.{List, [], ◌∷◌, ◌++◌, append_assoc}
use fudge.Node.{Node}
use fudge.Builder.Parachain.Chain.{ParachainBuilder}
use fudge.Builder.Parachain.Moves.{
  Built, to_list, in_order, Call, apply, built_by, run, built_in, Move, stay, built, approves,
  rejects, imported, apply-Move,
}

module _ {A : Type 0} (xs ys zs : List A) {log : List A} (h : Sublist (xs ++ (ys ++ zs)) log) where
  sublist_front : Sublist (xs ++ ys) log
  sublist_front = Sublist.trans (Sublist.append (Sublist.refl xs) (sublist-append_left ys zs)) h

  sublist_ends : Sublist (xs ++ zs) log
  sublist_ends = Sublist.trans (Sublist.append (Sublist.refl xs) (sublist-append_right ys zs)) h

  sublist_snoc : (b : A) → Sublist (xs ++ (ys ++ (b ∷ []))) (log ++ (b ∷ []))
  sublist_snoc b =
      rw (← append_assoc xs ys (b ∷ [])) (Sublist.append sublist_front (Sublist.refl (b ∷ [])))

module _ (n : Node) where
  -- The blocks of a builder, if they were among those of a list and in its order, stay so when the
  -- list gains what the call built.
  Move-in_order :
      (s u : ParachainBuilder n) (bs log : List (Built n))
      → Move n s u bs
      → Sublist (in_order n s) log
      → Sublist (in_order n u) (log ++ bs)
  Move-in_order s u bs log (stay (e, e') none_) h = rw (e, e', none_, append-nil log) h
  Move-in_order s u bs log (built b e e' one) h =
      rw (e, e', one) (sublist_snoc s.imports (to_list n s.block_storage.storage.next_import) _ h b)
  Move-in_order s u bs log (approves b waits e e' none_) h =
      rw (e, e', none_, append-nil log)
        (subst (λ o. Sublist (s.imports ++ to_list n o) log) waits
          (sublist_ends s.imports (to_list n s.block_storage.storage.next_import) _ h))
  Move-in_order s u bs log (rejects e e' none_) h =
      rw (e, e', none_, append-nil log)
        (rw (append-nil (to_list n s.block_storage.storage.next_import))
          (sublist_front s.imports (to_list n s.block_storage.storage.next_import) _ h))
  Move-in_order s u bs log (imported b waits e e' none_) h =
      rw (e, e', none_, append-nil log)
        (rw (append_assoc s.imports (b ∷ []) (to_list n s.block_storage.storage.next_block)) (
          subst
            (λ o.
              Sublist (s.imports ++ (to_list n o ++ to_list n s.block_storage.storage.next_block))
                log)
            waits h))

  -- Over any sequence of calls, failing and panicking ones included, the blocks that are imported,
  -- to be imported and to be collated, in this order, stay among those that were there at the start or
  -- have been built since, in the order they were built: no block is imported twice for one build, none
  -- overtakes an older one, and none is made up.
  pub run-in_order :
      (cs : List (Call n)) (s : ParachainBuilder n) (log : List (Built n))
      → Sublist (in_order n s) log
      → Sublist (in_order n (run n cs s)) (log ++ built_in n cs s)
  unfolding run built_in
  run-in_order [] s log h = rw (append-nil log) h
  run-in_order (c ∷ cs) s log h =
      rw (← append_assoc log (built_by n c s) (built_in n cs (apply n c s))) (
        run-in_order cs (apply n c s) (log ++ built_by n c s)
          (Move-in_order s (apply n c s) (built_by n c s) log (apply-Move n c s) h))
