-- ===== src/Builder/RelayChain/Collations/Enacting.antt =====
-- What the closure of `force_enact_collations` puts before the runtime to be enacted.
use fudge.Prelude.{
  ℕ, suc, zero, ltb, ◌^◌, ◌<◌, Bool-cases, Option-cases, contains, false, none, some, List, [], ◌∷◌,
  Option, Result, ok, err, panic, InnerError, ◌≡◌, ◌≢◌, ◌↔◌, refl, ap, arith, inl, inr,
}
use fudge.Node.{Node}
use fudge.Builder.Parachain.{Primitives}
use fudge.Builder.RelayChain.{
  RuntimeTypes, timed_out, parachains, pending_availability, pending_availability_commitments,
  FudgeCandidatePendingAvailability, Runtime, Collected,
}
use fudge.Builder.RelayChain.Onboarding.{get_or_default}
use fudge.Builder.RelayChain.Collations.{position, one_on, commitments_of, describe, enact_storage}

-- The first place of an id in a list.
abbrev pub FirstAt : ℕ → List ℕ → ℕ → Type 0
FirstAt id [] i = ⊥
FirstAt id (x ∷ xs) zero = x ≡ id
FirstAt id (x ∷ xs) (suc i) = (x ≢ id) × FirstAt id xs i

one_on-some : (o : Option ℕ) (i : ℕ) → one_on o ≡ some (suc i) → o ≡ some i
one_on-some none i e = cc
one_on-some (some j) i e = cc

-- One step of the search.
position_next :
    (id x i : ℕ) (xs : List ℕ)
    → x ≢ id
    → position id (x ∷ xs) ≡ some (suc i)
    → position id xs ≡ some i
unfolding position
position_next id x i xs d e = ground (arith, one_on-some (position id xs) i)

position_first : (id x : ℕ) (xs : List ℕ) → position id (x ∷ xs) ≡ some 0 → x ≡ id
unfolding position
position_first id x xs e = elim (Option-cases (position id xs)) [
  | inl q ↦ ground (arith, q, e)
  | inr (i, q) ↦ ground (arith, q, e)
]

position_later : (id x i : ℕ) (xs : List ℕ) → position id (x ∷ xs) ≡ some (suc i) → x ≢ id
unfolding position
position_later id x i xs e q = ground (arith, e, q)

position-FirstAt : (id : ℕ) (xs : List ℕ) (i : ℕ) → position id xs ≡ some i → FirstAt id xs i
position-FirstAt id [] i e = unfold position in cc
position-FirstAt id (x ∷ xs) zero e = position_first id x xs e
position-FirstAt id (x ∷ xs) (suc i) e =
    let d = position_later id x i xs e in
    (d, position-FirstAt id xs i (position_next id x i xs d e))

FirstAt-position : (id : ℕ) (xs : List ℕ) (i : ℕ) → FirstAt id xs i → position id xs ≡ some i
unfolding position
FirstAt-position id [] i f = absurd f
FirstAt-position id (x ∷ xs) zero f = ground arith
FirstAt-position id (x ∷ xs) (suc i) f = ground (arith, FirstAt-position id xs i f.1)

position-none : (id : ℕ) (xs : List ℕ) → contains id xs ≡ false → position id xs ≡ none
unfolding position contains
position-none id [] e = refl
position-none id (x ∷ xs) e = ground (arith, position-none id xs)

-- What a runtime's answer holds, if it answers.
abbrev answer : {A : Type 0} → Result InnerError (Option A) → Option A
answer (ok o) = o
answer (err e) = none
answer panic = none

abbrev done : {A : Type 0} → Result InnerError A → Option A
done (ok a) = some a
done (err e) = none
done panic = none

answer-some :
    {A : Type 0} (x : Result InnerError (Option A)) (a : A) → answer x ≡ some a → x ≡ ok (some a)
answer-some (ok o) a e = ap ok e
answer-some (err x) a e = cc
answer-some panic a e = cc

done-some : {A : Type 0} (x : Result InnerError A) (a : A) → done x ≡ some a → x ≡ ok a
done-some (ok o) a e = ap ok (ground (arith, e))
done-some (err x) a e = cc
done-some panic a e = cc

module _ {t : Primitives} {n : Node} {y : RuntimeTypes} (r : Runtime t n y) (parent : n.Hash)
    (number : ℕ) (c : Collected t n) (pvd : t.PersistedValidationData) (w : n.World)
    (s : n.State) where
  -- The candidate of the collation, backed on a core under the hash of the runtime in use.
  abbrev pub candidate : ℕ → y.ValidationCodeHash → FudgeCandidatePendingAvailability n y
  candidate core code_hash = record {
    core = core;
    descriptor = describe r parent c pvd code_hash;
    relay_parent_number = number;
    backed_in_number = n.number_of c.generation_parent;
  }

  abbrev pub committed : n.Overlay → n.Overlay
  committed o = r.put (pending_availability_commitments c.id) (commitments_of r c.collation) o

  -- The storage that the runtime enacts: commitments and candidate wait for their availability.
  abbrev pub awaiting : y.CandidatePendingAvailability → n.Overlay → n.Overlay
  awaiting cpa o = r.put (pending_availability c.id) cpa (committed o)

  -- The runtime knows a code of the parachain, the parachain is among those stored, at a place that is a core,
  -- the candidate is one of the runtime's, and the runtime enacts it from there.
  abbrev pub Enacts : n.Overlay → n.Overlay → Type 0
  Enacts o o' =
      (code_hash : y.ValidationCodeHash) × (core : ℕ) × (cpa : y.CandidatePendingAvailability)
      × (d : t.PersistedValidationData) × (r.validation_code_hash parent c.id timed_out w
          ≡ ok (some code_hash))
      × FirstAt c.id (get_or_default [] (r.get parachains s o)) core
      × (core < 2 ^ 32)
      × (r.recode (candidate core code_hash) ≡ ok cpa)
      × (r.enact c.id s (awaiting cpa o) ≡ (some d, o'))

  stored_parachains : (o : n.Overlay) → r.get parachains s (committed o) ≡ r.get parachains s o
  stored_parachains o =
      r.get-put_ne parachains (pending_availability_commitments c.id) _ s o (λ j. cc)

  enact_storage-of :
      (o o' : n.Overlay) → Enacts o o' → enact_storage r parent number c pvd w s o ≡ (ok tt, o')
  unfolding enact_storage
  enact_storage-of o o' (h, core, cpa, d, found, first, small, recoded, enacted) =
      let place = FirstAt-position c.id (get_or_default [] (r.get parachains s o)) core first in
      ground (arith, found, stored_parachains o, place, recoded, enacted)

  -- What has to go well, one after another.
  enact_storage-inv :
      (o o' : n.Overlay) → enact_storage r parent number c pvd w s o ≡ (ok tt, o') → Enacts o o'
  unfolding enact_storage
  enact_storage-inv o o' e =
      let paras = get_or_default [] (r.get parachains s o) in
      let stored = stored_parachains o in
      elim (Option-cases (answer (r.validation_code_hash parent c.id timed_out w))) [
        | inl q ↦ absurd (ground (arith, q, e))
        | inr (h, q) ↦
            let found = answer-some (r.validation_code_hash parent c.id timed_out w) h q in
            elim (Option-cases (position c.id paras)) [
              | inl q₁ ↦ absurd (ground (arith, found, stored, q₁, e))
              | inr (core, q₁) ↦ elim (Bool-cases (ltb core (2 ^ 32))) [
                | inr q₂ ↦ absurd (ground (arith, found, stored, q₁, q₂, e))
                | inl q₂ ↦ elim (Option-cases (done (r.recode (candidate core h)))) [
                  | inl q₃ ↦ absurd (ground (arith, found, stored, q₁, q₂, q₃, e))
                  | inr (cpa, q₃) ↦
                      let recoded = done-some (r.recode (candidate core h)) cpa q₃ in
                      elim (Option-cases (r.enact c.id s (awaiting cpa o)).0) [
                        | inl q₄ ↦ absurd (ground (arith, found, stored, q₁, q₂, recoded, q₄, e))
                        | inr (d, q₄) ↦ (
                          h,
                          core,
                          cpa,
                          d,
                          found,
                          position-FirstAt c.id paras core q₁,
                          ground (arith, q₂),
                          recoded,
                          ground (arith, found, stored, q₁, q₂, recoded, q₄, e),
                        )
                      ]
                ]
              ]
            ]
      ]

  -- The closure for one collation succeeds where, and only where, the runtime knows the parachain's code, the
  -- parachain is among the stored ones at a place below 2^32, the candidate is one of the runtime's, and the
  -- runtime enacts it: the candidate is backed on the core of that place, and it waits with its commitments
  -- in the storage that the runtime enacts. The storage is left as the runtime leaves it.
  pub enact_storage-Enacts :
      (o o' : n.Overlay) → (enact_storage r parent number c pvd w s o ≡ (ok tt, o')) ↔ Enacts o o'
  enact_storage-Enacts o o' = (enact_storage-inv o o', enact_storage-of o o')

  -- Where the storage has no such parachain, the closure fails or panics, and its commitments stay written.
  pub enact_storage_unknown :
      (o : n.Overlay)
      → contains c.id (get_or_default [] (r.get parachains s o)) ≡ false
      → ((enact_storage r parent number c pvd w s o).0 ≢ ok tt)
        × ((enact_storage r parent number c pvd w s o).1 ≡ committed o)
  unfolding enact_storage
  enact_storage_unknown o absent =
      let stored = stored_parachains o in
      let q = position-none c.id (get_or_default [] (r.get parachains s o)) absent in
      (λ e. absurd (ground (arith, stored, q, e)), ground (arith, stored, q))
