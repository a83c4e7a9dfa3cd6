-- ===== src/Builder/RelayChain/Onboarding.antt =====
-- core/src/builder/relay_chain.rs: what `onboard_para` and `update_para_head` write into the
-- storage of the relay chain.
pub mod Sorting
pub mod Storage
use fudge.Prelude.{
  ℕ, ◌==◌, leb, Bool, true, false, not, Option, none, some, List, [], ◌∷◌, ◌++◌, Result, ok, err,
  panic, Action, ◌>>=◌, ◌>>◌, pure, gets, modify, contains, if◌then◌else◌,
}
use fudge.Node.{Node, Bytes, Exec}
use fudge.Builder.Parachain.{Primitives}
use fudge.Builder.RelayChain.{
  Error, RuntimeTypes, Key, para_lifecycles, heads, current_code_hash, parachains, code_by_hash,
  code_by_hash_refs, past_code_hash, Val, Runtime,
}

abbrev pub returned : {E A : Type 0} → Result E A → Option (Result E A)
returned (ok a) = some (ok a)
returned (err e) = some (err e)
returned panic = none

-- The closure of an action on the storage.
abbrev pub on_storage :
    (n : Node) {E A : Type 0} → (n.World → n.State → Action n.Overlay E A) → Exec n (Result E A)
on_storage n m w s o = let (r, o') = m w s o in (returned r, o')

-- `slice::sort` of ids
abbrev pub insert_sorted : ℕ → List ℕ → List ℕ
insert_sorted a [] = a ∷ []
insert_sorted a (x ∷ xs) = if leb a x then a ∷ x ∷ xs else x ∷ insert_sorted a xs

unfoldable pub sort : List ℕ → List ℕ
sort [] = []
sort (x ∷ xs) = insert_sorted x (sort xs)

pub record FudgeParaChain : Type 0 where
  pub id : ℕ
  pub head : Bytes
  pub code : Bytes

-- A value that reads as a default where none is stored.
abbrev pub get_or_default : {A : Type 0} → A → Option A → A
get_or_default d none = d
get_or_default d (some a) = a

unfoldable pub add_parachain : ℕ → List ℕ → List ℕ
unfolding contains sort
add_parachain id paras = if contains id paras then paras else sort (paras ++ (id ∷ []))

-- `CodeByHashRefs::mutate`
abbrev pub first_ref : ℕ → ℕ
first_ref refs = if refs == 0 then 1 else refs

module _ {t : Primitives} {n : Node} {y : RuntimeTypes} (r : Runtime t n y) (s : n.State) where
  open r use {get, put}

  abbrev pub read : (k : Key y) → Action n.Overlay (Error n) (Option (Val t y k))
  read k o = (ok (get k s o), o)

  abbrev pub write : (k : Key y) → Val t y k → Action n.Overlay (Error n) (Unit {0})
  write k v o = (ok tt, put k v o)

  abbrev pub archive :
      ℕ → ℕ → Option y.ValidationCodeHash → Action n.Overlay (Error n) y.ValidationCodeHash
  archive id current_block none = pure r.zero_code_hash
  archive id current_block (some curr) = do write (past_code_hash id current_block) curr; pure curr

  abbrev pub set_code : ℕ → Bytes → y.ValidationCodeHash → Action n.Overlay (Error n) (Unit {0})
  set_code id code code_hash = do
    write (current_code_hash id) code_hash
    write (code_by_hash code_hash) code
    refs ← read (code_by_hash_refs code_hash)
    write (code_by_hash_refs code_hash) (first_ref (get_or_default 0 refs))

  -- The replaced hash is archived, and the new runtime stored, unless it is the one in use.
  unfoldable pub install_code : ℕ → Bytes → ℕ → Action n.Overlay (Error n) (Unit {0})
  install_code id code current_block = do
    let code_hash = r.code_hash code
    curr ← read (current_code_hash id)
    curr_code_hash ← archive id current_block curr
    if r.code_hash_eq curr_code_hash code_hash then pure tt else set_code id code code_hash

  unfoldable pub onboard_storage : FudgeParaChain → Action n.Overlay (Error n) (Unit {0})
  unfolding install_code add_parachain
  onboard_storage para = do
    current_block ← gets (r.block_number s)
    paras ← read parachains
    write parachains (add_parachain para.id (get_or_default [] paras))
    install_code para.id para.code current_block
    write (para_lifecycles para.id) r.parachain
    write (heads para.id) para.head

  unfoldable pub head_storage : ℕ → Bytes → Action n.Overlay (Error n) (Unit {0})
  head_storage id head = write (heads id) head
