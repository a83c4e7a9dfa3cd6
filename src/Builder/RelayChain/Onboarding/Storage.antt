-- ===== src/Builder/RelayChain/Onboarding/Storage.antt =====
-- What onboarding leaves in the storage.
use fudge.Prelude.{
  ℕ, ◌==◌, Bool, true, false, some, [], Result, ok, Action, ◌≡◌, ◌≢◌, refl, ap, ◌∙◌, arith,
  if◌then◌else◌, Bool-cases, Option-cases, ==_iff, pure, continue, ◌>>◌, inl, inr,
}
use fudge.Node.{Node, Bytes}
use fudge.Builder.Parachain.{Primitives}
use fudge.Builder.RelayChain.{
  Error, RuntimeTypes, Key, para_lifecycles, heads, current_code_hash, parachains, code_by_hash,
  code_by_hash_refs, past_code_hash, pending_availability, pending_availability_commitments,
  Runtime,
}
use fudge.Builder.RelayChain.Onboarding.{
  write, FudgeParaChain, add_parachain, get_or_default, set_code, install_code, onboard_storage,
}

-- The items of code: those that `install_code` may write.
abbrev pub is_code : {y : RuntimeTypes} → Key y → Bool
is_code (para_lifecycles _) = false
is_code (heads _) = false
is_code (current_code_hash _) = true
is_code parachains = false
is_code (code_by_hash _) = true
is_code (code_by_hash_refs _) = true
is_code (past_code_hash _ _) = true
is_code (pending_availability _) = false
is_code (pending_availability_commitments _) = false

-- The parachain that an item is about, where it is about one.
abbrev id_of : {y : RuntimeTypes} → Key y → ℕ
id_of (para_lifecycles id) = id
id_of (heads id) = id
id_of (current_code_hash id) = id
id_of parachains = 0
id_of (code_by_hash _) = 0
id_of (code_by_hash_refs _) = 0
id_of (past_code_hash id _) = id
id_of (pending_availability id) = id
id_of (pending_availability_commitments id) = id

other_id : {a b : ℕ} → (a == b) ≡ false → a ≢ b
other_id {a} {b} q e = ground (arith, q, e)

module _ {t : Primitives} {n : Node} {y : RuntimeTypes} (r : Runtime t n y) (s : n.State) where
  open r use {get, put, get-put_self, get-put_ne}

  set_code_get :
      (id : ℕ) (code : Bytes) (h : y.ValidationCodeHash) (k : Key y) (o : n.Overlay)
      → is_code k ≡ false
      → get k s (set_code r s id code h o).1 ≡ get k s o
  set_code_get id code h k o e =
      get-put_ne k (code_by_hash_refs h) _ s _ (λ q. cc (ap is_code q))
      ∙ get-put_ne k (code_by_hash h) _ s _ (λ q. cc (ap is_code q))
      ∙ get-put_ne k (current_code_hash id) _ s _ (λ q. cc (ap is_code q))

  set_code_current :
      (id : ℕ) (code : Bytes) (h : y.ValidationCodeHash) (o : n.Overlay)
      → get (current_code_hash id) s (set_code r s id code h o).1 ≡ some h
  set_code_current id code h o =
      get-put_ne (current_code_hash id) (code_by_hash_refs h) _ s _ (λ q. cc)
      ∙ get-put_ne (current_code_hash id) (code_by_hash h) _ s _ (λ q. cc)
      ∙ get-put_self (current_code_hash id) h s o

  -- What `install_code` does with the hash `c` of the runtime in use.
  abbrev replace_code : ℕ → Bytes → y.ValidationCodeHash → Action n.Overlay (Error n) (Unit {0})
  replace_code id code c =
      if r.code_hash_eq c (r.code_hash code)
      then pure tt
      else set_code r s id code (r.code_hash code)

  replace_code_get :
      (id : ℕ) (code : Bytes) (c : y.ValidationCodeHash) (k : Key y) (o : n.Overlay)
      → is_code k ≡ false
      → get k s (replace_code id code c o).1 ≡ get k s o
  replace_code_get id code c k o e = elim (Bool-cases (r.code_hash_eq c (r.code_hash code))) [
    | inl q ↦ rw (q) refl
    | inr q ↦ rw (q) (set_code_get id code (r.code_hash code) k o e)
  ]

  replace_code_ok :
      (id : ℕ) (code : Bytes) (c : y.ValidationCodeHash) (o : n.Overlay)
      → (replace_code id code c o).0 ≡ ok tt
  replace_code_ok id code c o = elim (Bool-cases (r.code_hash_eq c (r.code_hash code))) [
    | inl q ↦ rw (q) refl
    | inr q ↦ rw (q) refl
  ]

  install_code_get :
      (id b : ℕ) (code : Bytes) (k : Key y) (o : n.Overlay)
      → is_code k ≡ false
      → get k s (install_code r s id code b o).1 ≡ get k s o
  unfolding install_code
  install_code_get id b code k o e = elim (Option-cases (get (current_code_hash id) s o)) [
    | inl q ↦ rw (q) (replace_code_get id code r.zero_code_hash k o e)
    | inr (c, q) ↦ rw (q) (
        replace_code_get id code c k _ e
        ∙ get-put_ne k (past_code_hash id b) c s o (λ j. cc (ap is_code j)))
  ]

  install_code_ok :
      (id b : ℕ) (code : Bytes) (o : n.Overlay) → (install_code r s id code b o).0 ≡ ok tt
  unfolding install_code
  install_code_ok id b code o = elim (Option-cases (get (current_code_hash id) s o)) [
    | inl q ↦ rw (q) (replace_code_ok id code r.zero_code_hash o)
    | inr (c, q) ↦ rw (q) (replace_code_ok id code c _)
  ]

  -- A hash that is the code's own is in use already.
  replace_code_current :
      (id : ℕ) (code : Bytes) (c : y.ValidationCodeHash) (o : n.Overlay)
      → get (current_code_hash id) s o ≡ some c
      → get (current_code_hash id) s (replace_code id code c o).1 ≡ some (r.code_hash code)
  replace_code_current id code c o e = elim (Bool-cases (r.code_hash_eq c (r.code_hash code))) [
    | inl q ↦ rw (q) (e ∙ ap some ((r.code_hash_eq_iff c (r.code_hash code)).0 q))
    | inr q ↦ rw (q) (set_code_current id code (r.code_hash code) o)
  ]

  install_code_current :
      (id b : ℕ) (code : Bytes) (o : n.Overlay)
      → r.code_hash_eq r.zero_code_hash (r.code_hash code) ≡ false
      → get (current_code_hash id) s (install_code r s id code b o).1 ≡ some (r.code_hash code)
  unfolding install_code
  install_code_current id b code o z = elim (Option-cases (get (current_code_hash id) s o)) [
    | inl q ↦ rw (q, z) (set_code_current id code (r.code_hash code) o)
    | inr (c, q) ↦ rw (q) (
        replace_code_current id code c _
          (get-put_ne (current_code_hash id) (past_code_hash id b) c s o (λ j. cc) ∙ q))
  ]

  -- The overlay that onboarding leaves.
  abbrev onboarded : FudgeParaChain → n.Overlay → n.Overlay
  onboarded para o = put (heads para.id) para.head (
      put (para_lifecycles para.id) r.parachain
        (install_code r s para.id para.code (r.block_number s o)
          (put parachains (add_parachain para.id (get_or_default [] (get parachains s o))) o)).1)

  finish :
      (para : FudgeParaChain) (m : Result (Error n) (Unit {0}) × n.Overlay)
      → m.0 ≡ ok tt
      → continue
          (λ _.
            write r s (para_lifecycles para.id) r.parachain >> write r s (heads para.id) para.head)
          m
        ≡ (ok tt, put (heads para.id) para.head (put (para_lifecycles para.id) r.parachain m.1))
  finish para (x, o) e = rw (e) refl

  onboard_storage-onboarded :
      (para : FudgeParaChain) (o : n.Overlay)
      → onboard_storage r s para o ≡ (ok tt, onboarded para o)
  unfolding onboard_storage
  onboard_storage-onboarded para o =
      finish para _ (install_code_ok para.id (r.block_number s o) para.code _)

  onboarded_heads :
      (para : FudgeParaChain) (a : ℕ) (o : n.Overlay)
      → get (heads a) s (onboarded para o)
        ≡ (if a == para.id then some para.head else get (heads a) s o)
  onboarded_heads para a o = elim (Bool-cases (a == para.id)) [
    | inl q ↦ rw (q) (rw ((==_iff a para.id).0 q) (get-put_self (heads para.id) para.head s _))
    | inr q ↦ rw (q) (
        get-put_ne (heads a) (heads para.id) para.head s _ (λ j. other_id q (ap id_of j))
        ∙ get-put_ne (heads a) (para_lifecycles para.id) r.parachain s _ (λ j. cc)
        ∙ install_code_get para.id (r.block_number s o) para.code (heads a) _ refl
        ∙ get-put_ne (heads a) parachains _ s o (λ j. cc))
  ]

  onboarded_lifecycles :
      (para : FudgeParaChain) (a : ℕ) (o : n.Overlay)
      → get (para_lifecycles a) s (onboarded para o)
        ≡ (if a == para.id then some r.parachain else get (para_lifecycles a) s o)
  onboarded_lifecycles para a o = elim (Bool-cases (a == para.id)) [
    | inl q ↦ rw (q) (
        rw ((==_iff a para.id).0 q) (
          get-put_ne (para_lifecycles para.id) (heads para.id) para.head s _ (λ j. cc)
          ∙ get-put_self (para_lifecycles para.id) r.parachain s _))
    | inr q ↦ rw (q) (
        get-put_ne (para_lifecycles a) (heads para.id) para.head s _ (λ j. cc)
        ∙ get-put_ne (para_lifecycles a) (para_lifecycles para.id) r.parachain s _
            (λ j. other_id q (ap id_of j))
        ∙ install_code_get para.id (r.block_number s o) para.code (para_lifecycles a) _ refl
        ∙ get-put_ne (para_lifecycles a) parachains _ s o (λ j. cc))
  ]

  onboarded_parachains :
      (para : FudgeParaChain) (o : n.Overlay)
      → get parachains s (onboarded para o)
        ≡ some (add_parachain para.id (get_or_default [] (get parachains s o)))
  onboarded_parachains para o =
      get-put_ne parachains (heads para.id) para.head s _ (λ j. cc)
      ∙ get-put_ne parachains (para_lifecycles para.id) r.parachain s _ (λ j. cc)
      ∙ install_code_get para.id (r.block_number s o) para.code parachains _ refl
      ∙ get-put_self parachains _ s o

  -- Writing a parachain into the storage never fails. It leaves the list of parachains with the id
  -- added, and of every id the head and the lifecycle as they were, but for the onboarded one,
  -- which has the given head and is a parachain.
  pub onboard_storage_lem :
      (para : FudgeParaChain) (o : n.Overlay)
      → ((onboard_storage r s para o).0 ≡ ok tt)
        × (get parachains s (onboard_storage r s para o).1
            ≡ some (add_parachain para.id (get_or_default [] (get parachains s o))))
        × ((a : ℕ)
            → get (heads a) s (onboard_storage r s para o).1
              ≡ (if a == para.id then some para.head else get (heads a) s o))
        × ((a : ℕ)
            → get (para_lifecycles a) s (onboard_storage r s para o).1
              ≡ (if a == para.id then some r.parachain else get (para_lifecycles a) s o))
  onboard_storage_lem para o = rw (onboard_storage-onboarded para o) (
    refl,
    onboarded_parachains para o,
    λ a. onboarded_heads para a o,
    λ a. onboarded_lifecycles para a o,
  )

  -- Where the runtime's hash is not the zero hash, onboarding leaves the parachain with this hash as that
  -- of its current code, whether or not it had another before.
  pub onboard_storage-current_code_hash :
      (para : FudgeParaChain) (o : n.Overlay)
      → r.code_hash_eq r.zero_code_hash (r.code_hash para.code) ≡ false
      → get (current_code_hash para.id) s (onboard_storage r s para o).1
        ≡ some (r.code_hash para.code)
  onboard_storage-current_code_hash para o z = rw (onboard_storage-onboarded para o) (
      get-put_ne (current_code_hash para.id) (heads para.id) para.head s _ (λ j. cc)
      ∙ get-put_ne (current_code_hash para.id) (para_lifecycles para.id) r.parachain s _ (λ j. cc)
      ∙ install_code_current para.id (r.block_number s o) para.code _ z)
