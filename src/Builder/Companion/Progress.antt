-- ===== src/Builder/Companion/Progress.antt =====
-- How a block of a parachain gets on while a companion evolves: built, collated, approved, imported.
pub mod Collating
pub mod Collecting
pub mod Importing
pub mod Advancing
pub mod Rounds
pub mod Repeating
use fudge.Prelude.{
  ℕ, false, Option, none, some, List, [], ◌∷◌, ◌++◌, ◌≡◌, ◌≢◌, refl, ap, Bool-cases, arith, inl,
  inr, ◌⊎◌, ok, err, panic, Result, continue, Yields, Yields-any, Yields-continue,
}
use fudge.Node.{Node}
use fudge.Builder.Common.{propose_block}
use fudge.Builder.Parachain.{
  Primitives, Cumulus, Error, BlockStorage, lock_storage, put_storage, set_next_block,
  next_block_lock_poisoned,
}
use fudge.Builder.Parachain.Collator.{
  approved, approve, judge, create_collation, collation, fetch_collation_info,
}
use fudge.Builder.Parachain.Chain.{
  ParachainBuilder, shared, casts, on_builder, build_block, build_params, import_block_with_params,
  import_block, import_params, poison,
}
use fudge.Builder.Parachain.Moves.{Built, import_block_open, store_import, store_built}

module _ (n : Node) (b : Built n) (done : List (Built n)) where
  -- The block is to be collated.
  abbrev pub Waiting : ParachainBuilder n → Type 0
  Waiting u =
      (u.block_storage.storage.next_block ≡ some b)
      × (u.block_storage.poisoned ≡ false)
      × (u.imports ≡ done)

  -- It is to be imported, and none is to be collated.
  abbrev pub Approved : ParachainBuilder n → Type 0
  Approved u =
      (u.block_storage.storage.next_block ≡ none)
      × (u.block_storage.storage.next_import ≡ some b)
      × (u.block_storage.poisoned ≡ false)
      × (u.imports ≡ done)

  abbrev pub Due : ParachainBuilder n → Type 0
  Due u = Waiting u ⊎ Approved u

  -- It is the last one imported, and none is under way.
  abbrev pub Imported : ParachainBuilder n → Type 0
  Imported u =
      (u.block_storage.storage.next_block ≡ none)
      × (u.block_storage.storage.next_import ≡ none)
      × (u.imports ≡ done ++ (b ∷ []))

  pub approve-Waiting :
      (u : ParachainBuilder n) → Waiting u → Approved (shared n (judge n approved) u).1
  unfolding judge approve
  approve-Waiting u w = ground arith

  pub approve-Approved :
      (u : ParachainBuilder n) → Approved u → Approved (shared n (judge n approved) u).1
  unfolding judge approve
  approve-Approved u a = ground arith

  pub approve-Due : (u : ParachainBuilder n) → Due u → Due (shared n (judge n approved) u).1
  approve-Due u (inl w) = inr (approve-Waiting u w)
  approve-Due u (inr a) = inr (approve-Approved u a)

  pub approve-Imported :
      (u : ParachainBuilder n) → Imported u → Imported (shared n (judge n approved) u).1
  unfolding judge approve
  approve-Imported u i = ground arith

  -- A block that waits makes a collation, unless asking for it fails.
  pub collation-Waiting :
      {t : Primitives} (c : Cumulus t n) (d : t.PersistedValidationData) (u : ParachainBuilder n)
      → Waiting u
      → (shared n (collation n c d) u).0 ≢ ok none
  unfolding collation create_collation fetch_collation_info
  collation-Waiting c d u w = ground arith

  finish_import :
      (storage : BlockStorage n) (r : Result (Error n) (Unit {0}) × ParachainBuilder n)
      → storage.next_block ≡ none
      → r.1.imports ≡ done
      → Yields (λ _. Imported) (poison n (continue (λ _. store_import n storage b) r))
  finish_import storage (ok _, u) nb i = (nb, refl, ap (λ l. l ++ (b ∷ [])) i)
  finish_import storage (err _, u) nb i = tt
  finish_import storage (panic, u) nb i = tt

  pub import_block-Imported :
      (u : ParachainBuilder n) → Approved u → Yields (λ _. Imported) (import_block n u)
  unfolding import_block_with_params
  import_block-Imported u (nb, ni, p, i) = rw (import_block_open n u b p ni) (
      finish_import u.block_storage.storage (import_block_with_params n (import_params n b.0) u) nb
        i)

module _ (n : Node) where
  store_built-Waiting :
      (b : Built n) (done : List (Built n)) (u : ParachainBuilder n)
      → u.imports ≡ done
      → Yields (λ _ u'. (b : Built n) × Waiting n b done u') (store_built n b u)
  store_built-Waiting b done u i = elim (Bool-cases u.block_storage.poisoned) [
    | inl p ↦ rw p tt
    | inr p ↦ rw p (b, (refl, refl, i))
  ]

  pub build_block-Waiting :
      (u : ParachainBuilder n)
      → Yields (λ _ u'. (b : Built n) × Waiting n b u.imports u') (build_block n u)
  unfolding build_block import_block_with_params
  build_block-Waiting u =
      Yields-continue (λ _ u₁. u₁.imports ≡ u.imports) _
        (on_builder n (propose_block n (casts n) u.setup) u) _
        (Yields-any _ (on_builder n (propose_block n (casts n) u.setup) u) (λ _. refl))
        (λ b u₁ i₁.
          Yields-continue (λ _ u₂. u₂.imports ≡ u.imports) _
            (import_block_with_params n (build_params n b.0) u₁) _
            (Yields-any _ (import_block_with_params n (build_params n b.0) u₁) (λ _. i₁))
            (λ _ u₂ i₂. store_built-Waiting b u.imports u₂ i₂))
