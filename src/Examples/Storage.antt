-- ===== src/Examples/Storage.antt =====
-- A storage with a list of entries for each kind of item, the latest first, and primitives that are
-- lists of numbers.
use fudge.Prelude.{
  ℕ, ◌==◌, ◌&&◌, Option, none, some, List, [], ◌∷◌, ◌++◌, Map, ◌≡◌, ◌≢◌, refl, ap, arith,
  if◌then◌else◌,
}
use fudge.Node.{Bytes}
use fudge.Builder.Parachain.{Primitives}
use fudge.Builder.RelayChain.{
  CandidateCommitments, RuntimeTypes, Key, para_lifecycles, heads, current_code_hash, parachains,
  code_by_hash, code_by_hash_refs, past_code_hash, pending_availability,
  pending_availability_commitments, Val,
}

abbrev pub primitives : Primitives
primitives = record {
  Messages = List ℕ;
  UpwardMessages = List ℕ;
  HorizontalMessages = List ℕ;
  bound_upward = some;
  bound_horizontal = some;
  PersistedValidationData = List ℕ;
  parent_head = λ d. d;
}

abbrev pub types : RuntimeTypes
types = record { ValidationCodeHash = ℕ; ParaLifecycle = ℕ; CandidatePendingAvailability = ℕ }

pub record Entries : Type 0 where
  pub in_para_lifecycles : Map ℕ
  pub in_heads : Map Bytes
  pub in_current_code_hash : Map ℕ
  pub in_parachains : List (List ℕ)
  pub in_code_by_hash : Map Bytes
  pub in_code_by_hash_refs : Map ℕ
  pub in_past_code_hash : List ((ℕ × ℕ) × ℕ)
  pub in_pending_availability : Map ℕ
  pub in_pending_availability_commitments : Map (CandidateCommitments primitives)

abbrev pub no_entries : Entries
no_entries = record {
  in_para_lifecycles = [];
  in_heads = [];
  in_current_code_hash = [];
  in_parachains = [];
  in_code_by_hash = [];
  in_code_by_hash_refs = [];
  in_past_code_hash = [];
  in_pending_availability = [];
  in_pending_availability_commitments = [];
}

-- The entries of the first before those of the second.
abbrev pub over : Entries → Entries → Entries
over o s = record {
  in_para_lifecycles = o.in_para_lifecycles ++ s.in_para_lifecycles;
  in_heads = o.in_heads ++ s.in_heads;
  in_current_code_hash = o.in_current_code_hash ++ s.in_current_code_hash;
  in_parachains = o.in_parachains ++ s.in_parachains;
  in_code_by_hash = o.in_code_by_hash ++ s.in_code_by_hash;
  in_code_by_hash_refs = o.in_code_by_hash_refs ++ s.in_code_by_hash_refs;
  in_past_code_hash = o.in_past_code_hash ++ s.in_past_code_hash;
  in_pending_availability = o.in_pending_availability ++ s.in_pending_availability;
  in_pending_availability_commitments =
      o.in_pending_availability_commitments ++ s.in_pending_availability_commitments;
}

-- Reading and writing an entry of one kind.
abbrev pub look : {A : Type 0} → ℕ → Map A → Option A
look k [] = none
look k ((j, v) ∷ m) = if j == k then some v else look k m

abbrev first : List (List ℕ) → Option (List ℕ)
first [] = none
first (x ∷ xs) = some x

abbrev get_pair : ℕ → ℕ → List ((ℕ × ℕ) × ℕ) → Option ℕ
get_pair a b [] = none
get_pair a b (((i, j), v) ∷ m) = if i == a && j == b then some v else get_pair a b m

abbrev pub get_key : (k : Key types) → Entries → Option (Val primitives types k)
get_key (para_lifecycles i) e = look i e.in_para_lifecycles
get_key (heads i) e = look i e.in_heads
get_key (current_code_hash i) e = look i e.in_current_code_hash
get_key parachains e = first e.in_parachains
get_key (code_by_hash i) e = look i e.in_code_by_hash
get_key (code_by_hash_refs i) e = look i e.in_code_by_hash_refs
get_key (past_code_hash i j) e = get_pair i j e.in_past_code_hash
get_key (pending_availability i) e = look i e.in_pending_availability
get_key (pending_availability_commitments i) e = look i e.in_pending_availability_commitments

abbrev pub put_key : (k : Key types) → Val primitives types k → Entries → Entries
put_key (para_lifecycles i) v e = record e { in_para_lifecycles = (i, v) ∷ e.in_para_lifecycles }
put_key (heads i) v e = record e { in_heads = (i, v) ∷ e.in_heads }
put_key (current_code_hash i) v e = record e {
  in_current_code_hash = (i, v) ∷ e.in_current_code_hash;
}
put_key parachains v e = record e { in_parachains = v ∷ e.in_parachains }
put_key (code_by_hash i) v e = record e { in_code_by_hash = (i, v) ∷ e.in_code_by_hash }
put_key (code_by_hash_refs i) v e = record e {
  in_code_by_hash_refs = (i, v) ∷ e.in_code_by_hash_refs;
}
put_key (past_code_hash i j) v e = record e {
  in_past_code_hash = ((i, j), v) ∷ e.in_past_code_hash;
}
put_key (pending_availability i) v e = record e {
  in_pending_availability = (i, v) ∷ e.in_pending_availability;
}
put_key (pending_availability_commitments i) v e = record e {
  in_pending_availability_commitments = (i, v) ∷ e.in_pending_availability_commitments;
}

pub get_key-put_key_self :
    (k : Key types) (v : Val primitives types k) (s o : Entries)
    → get_key k (over (put_key k v o) s) ≡ some v
get_key-put_key_self (para_lifecycles i) v s o = ground arith
get_key-put_key_self (heads i) v s o = ground arith
get_key-put_key_self (current_code_hash i) v s o = ground arith
get_key-put_key_self parachains v s o = refl
get_key-put_key_self (code_by_hash i) v s o = ground arith
get_key-put_key_self (code_by_hash_refs i) v s o = ground arith
get_key-put_key_self (past_code_hash i j) v s o = ground arith
get_key-put_key_self (pending_availability i) v s o = ground arith
get_key-put_key_self (pending_availability_commitments i) v s o = ground arith

pub get_key-put_key_ne :
    (k l : Key types) (v : Val primitives types l) (s o : Entries)
    → k ≢ l
    → get_key k (over (put_key l v o) s) ≡ get_key k (over o s)
get_key-put_key_ne (para_lifecycles i) (para_lifecycles a) v s o d =
    ground (arith, λ (e : i ≡ a). d (ap para_lifecycles e))
get_key-put_key_ne (para_lifecycles i) (heads a) v s o d = refl
get_key-put_key_ne (para_lifecycles i) (current_code_hash a) v s o d = refl
get_key-put_key_ne (para_lifecycles i) parachains v s o d = refl
get_key-put_key_ne (para_lifecycles i) (code_by_hash a) v s o d = refl
get_key-put_key_ne (para_lifecycles i) (code_by_hash_refs a) v s o d = refl
get_key-put_key_ne (para_lifecycles i) (past_code_hash a b) v s o d = refl
get_key-put_key_ne (para_lifecycles i) (pending_availability a) v s o d = refl
get_key-put_key_ne (para_lifecycles i) (pending_availability_commitments a) v s o d = refl
get_key-put_key_ne (heads i) (para_lifecycles a) v s o d = refl
get_key-put_key_ne (heads i) (heads a) v s o d = ground (arith, λ (e : i ≡ a). d (ap heads e))
get_key-put_key_ne (heads i) (current_code_hash a) v s o d = refl
get_key-put_key_ne (heads i) parachains v s o d = refl
get_key-put_key_ne (heads i) (code_by_hash a) v s o d = refl
get_key-put_key_ne (heads i) (code_by_hash_refs a) v s o d = refl
get_key-put_key_ne (heads i) (past_code_hash a b) v s o d = refl
get_key-put_key_ne (heads i) (pending_availability a) v s o d = refl
get_key-put_key_ne (heads i) (pending_availability_commitments a) v s o d = refl
get_key-put_key_ne (current_code_hash i) (para_lifecycles a) v s o d = refl
get_key-put_key_ne (current_code_hash i) (heads a) v s o d = refl
get_key-put_key_ne (current_code_hash i) (current_code_hash a) v s o d =
    ground (arith, λ (e : i ≡ a). d (ap current_code_hash e))
get_key-put_key_ne (current_code_hash i) parachains v s o d = refl
get_key-put_key_ne (current_code_hash i) (code_by_hash a) v s o d = refl
get_key-put_key_ne (current_code_hash i) (code_by_hash_refs a) v s o d = refl
get_key-put_key_ne (current_code_hash i) (past_code_hash a b) v s o d = refl
get_key-put_key_ne (current_code_hash i) (pending_availability a) v s o d = refl
get_key-put_key_ne (current_code_hash i) (pending_availability_commitments a) v s o d = refl
get_key-put_key_ne parachains (para_lifecycles a) v s o d = refl
get_key-put_key_ne parachains (heads a) v s o d = refl
get_key-put_key_ne parachains (current_code_hash a) v s o d = refl
get_key-put_key_ne parachains parachains v s o d = absurd (d refl)
get_key-put_key_ne parachains (code_by_hash a) v s o d = refl
get_key-put_key_ne parachains (code_by_hash_refs a) v s o d = refl
get_key-put_key_ne parachains (past_code_hash a b) v s o d = refl
get_key-put_key_ne parachains (pending_availability a) v s o d = refl
get_key-put_key_ne parachains (pending_availability_commitments a) v s o d = refl
get_key-put_key_ne (code_by_hash i) (para_lifecycles a) v s o d = refl
get_key-put_key_ne (code_by_hash i) (heads a) v s o d = refl
get_key-put_key_ne (code_by_hash i) (current_code_hash a) v s o d = refl
get_key-put_key_ne (code_by_hash i) parachains v s o d = refl
get_key-put_key_ne (code_by_hash i) (code_by_hash a) v s o d =
    ground (arith, λ (e : i ≡ a). d (ap code_by_hash e))
get_key-put_key_ne (code_by_hash i) (code_by_hash_refs a) v s o d = refl
get_key-put_key_ne (code_by_hash i) (past_code_hash a b) v s o d = refl
get_key-put_key_ne (code_by_hash i) (pending_availability a) v s o d = refl
get_key-put_key_ne (code_by_hash i) (pending_availability_commitments a) v s o d = refl
get_key-put_key_ne (code_by_hash_refs i) (para_lifecycles a) v s o d = refl
get_key-put_key_ne (code_by_hash_refs i) (heads a) v s o d = refl
get_key-put_key_ne (code_by_hash_refs i) (current_code_hash a) v s o d = refl
get_key-put_key_ne (code_by_hash_refs i) parachains v s o d = refl
get_key-put_key_ne (code_by_hash_refs i) (code_by_hash a) v s o d = refl
get_key-put_key_ne (code_by_hash_refs i) (code_by_hash_refs a) v s o d =
    ground (arith, λ (e : i ≡ a). d (ap code_by_hash_refs e))
get_key-put_key_ne (code_by_hash_refs i) (past_code_hash a b) v s o d = refl
get_key-put_key_ne (code_by_hash_refs i) (pending_availability a) v s o d = refl
get_key-put_key_ne (code_by_hash_refs i) (pending_availability_commitments a) v s o d = refl
get_key-put_key_ne (past_code_hash i j) (para_lifecycles a) v s o d = refl
get_key-put_key_ne (past_code_hash i j) (heads a) v s o d = refl
get_key-put_key_ne (past_code_hash i j) (current_code_hash a) v s o d = refl
get_key-put_key_ne (past_code_hash i j) parachains v s o d = refl
get_key-put_key_ne (past_code_hash i j) (code_by_hash a) v s o d = refl
get_key-put_key_ne (past_code_hash i j) (code_by_hash_refs a) v s o d = refl
get_key-put_key_ne (past_code_hash i j) (past_code_hash a b) v s o d =
    ground (arith, λ (e : i ≡ a) (e' : j ≡ b). d (cc))
get_key-put_key_ne (past_code_hash i j) (pending_availability a) v s o d = refl
get_key-put_key_ne (past_code_hash i j) (pending_availability_commitments a) v s o d = refl
get_key-put_key_ne (pending_availability i) (para_lifecycles a) v s o d = refl
get_key-put_key_ne (pending_availability i) (heads a) v s o d = refl
get_key-put_key_ne (pending_availability i) (current_code_hash a) v s o d = refl
get_key-put_key_ne (pending_availability i) parachains v s o d = refl
get_key-put_key_ne (pending_availability i) (code_by_hash a) v s o d = refl
get_key-put_key_ne (pending_availability i) (code_by_hash_refs a) v s o d = refl
get_key-put_key_ne (pending_availability i) (past_code_hash a b) v s o d = refl
get_key-put_key_ne (pending_availability i) (pending_availability a) v s o d =
    ground (arith, λ (e : i ≡ a). d (ap pending_availability e))
get_key-put_key_ne (pending_availability i) (pending_availability_commitments a) v s o d = refl
get_key-put_key_ne (pending_availability_commitments i) (para_lifecycles a) v s o d = refl
get_key-put_key_ne (pending_availability_commitments i) (heads a) v s o d = refl
get_key-put_key_ne (pending_availability_commitments i) (current_code_hash a) v s o d = refl
get_key-put_key_ne (pending_availability_commitments i) parachains v s o d = refl
get_key-put_key_ne (pending_availability_commitments i) (code_by_hash a) v s o d = refl
get_key-put_key_ne (pending_availability_commitments i) (code_by_hash_refs a) v s o d = refl
get_key-put_key_ne (pending_availability_commitments i) (past_code_hash a b) v s o d = refl
get_key-put_key_ne (pending_availability_commitments i) (pending_availability a) v s o d = refl
get_key-put_key_ne (pending_availability_commitments i) (pending_availability_commitments a) v s o
      d =
    ground (arith, λ (e : i ≡ a). d (ap pending_availability_commitments e))
