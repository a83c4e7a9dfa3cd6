-- ===== src/Builder/Core/Database.antt =====
-- A database that keeps what is written to it, and what an action gives where it succeeds.
use fudge.Prelude.{
  ℕ, Option, List, Result, ok, err, panic, Action, continue, recast, ◌≡◌, ◌⊎◌, refl, inl, inr,
  Leaves, Leaves-any, Leaves-continue,
}
use fudge.Node.{Node, Changes}

-- A database, with what its states read as. Draining an overlay gives the changes that make up what the
-- state reads as under it; an operation that these are put into carries them through the other updates; set
-- under a header with the changes' root and committed, they are the state of the best block.
pub record Database (n : Node) (V : Type 0) : Type 1 where
  pub view : n.State → n.Overlay → V
  pub root_of : n.Header → n.Hash
  pub Makes : Changes n → V → Type 0
  pub Carries : n.ImportOperation → n.Hash → V → Type 0
  pub Sealed : n.ImportOperation → V → Type 0
  pub root-set : (r : n.Hash) (h : n.Header) → root_of (n.set_state_root r h) ≡ r
  pub root-new : (i : ℕ) (e r p : n.Hash) (d : n.Digest) → root_of (n.new_header i e r p d) ≡ r
  pub drained :
      (s : n.State) (v : n.StateVersion) (o o' : n.Overlay) (c : Changes n)
      → n.drain_storage_changes s v o ≡ ok (c, o')
      → Makes c (view s o)
  pub put_changes :
      (c : Changes n) (v : V) (op op' : n.ImportOperation)
      → Makes c v
      → n.update_db_storage c.tx op ≡ ok op'
      → Carries op' c.root v
  pub keep_storage :
      (c : Changes n) (r : n.Hash) (v : V) (op op' : n.ImportOperation)
      → Carries op r v
      → n.update_storage c.main_sc c.child_sc op ≡ ok op'
      → Carries op' r v
  pub keep_index :
      (c : Changes n) (r : n.Hash) (v : V) (op op' : n.ImportOperation)
      → Carries op r v
      → n.update_transaction_index c.tx_index op ≡ ok op'
      → Carries op' r v
  pub seal :
      (h : n.Header) (b : Option (List n.Extrinsic)) (i : Option n.IndexedBody)
      (j : Option n.Justifications) (v : V) (op op' : n.ImportOperation)
      → Carries op (root_of h) v
      → n.set_block_data h b i j n.final op ≡ ok op'
      → Sealed op' v
  pub committed :
      (op : n.ImportOperation) (v : V) (w w' : n.World)
      → Sealed op v
      → n.commit_operation op w ≡ (ok tt, w')
      → (s : n.State) × (n.state_at (n.best_hash w') w' ≡ ok s) × (view s n.overlay_default ≡ v)

module _ {S E A : Type 0} (P : A → Type 0) where
  abbrev pub Gives : Result E A × S → Type 0
  Gives m = Leaves (λ a _. P a) (λ _. Unit {0}) m

  pub Gives-recast :
      {F : Type 0} (f : F → E) (r : Result F A) (s : S)
      → ((a : A) → r ≡ ok a → P a)
      → Gives (recast f r, s)
  Gives-recast f (ok a) s p = p a refl
  Gives-recast f (err e) s p = tt
  Gives-recast f panic s p = tt

pub Result-cases :
    {E A : Type 0} (r : Result E A)
    → (r ≡ panic) ⊎ (((e : E) × (r ≡ err e)) ⊎ ((a : A) × (r ≡ ok a)))
Result-cases (ok a) = inr (inr (a, refl))
Result-cases (err e) = inr (inl (e, refl))
Result-cases panic = inl refl

module _ {S E A B : Type 0} (P : A → Type 0) (Q : B → Type 0) where
  pub bind-Gives :
      (m : Result E A × S) (f : A → Action S E B)
      → Gives P m
      → ((a : A) (s : S) → P a → Gives Q (f a s))
      → Gives Q (continue f m)
  bind-Gives m f p g = Leaves-continue (λ a _. P a) (λ b _. Q b) (λ _. Unit {0}) m f p g

pub anything : {S E A : Type 0} (m : Result E A × S) → Gives (λ _. Unit {0}) m
anything m = Leaves-any (λ _ _. Unit {0}) (λ _. Unit {0}) m (λ _. tt) tt
