-- ===== src/Builder/Common/Extrinsics.antt =====
-- The fold of `append_extrinsics` submits one extrinsic after the other.
use mathlib.Core.List.{append-nil}
use fudge.Prelude.{
  List, [], ◌∷◌, ◌++◌, foldl, append_assoc, Result, ok, err, panic, Action, continue, ◌>>=◌, pure,
  ◌≡◌, refl, ◌∙◌, arith,
}
use fudge.Builder.Common.{append_extrinsics, and_then, submit_each}

module _ {S E X H : Type 0} (f : X → Action S E H) where
  abbrev onto : List H → List X → Action S E (List H)
  onto acc xts = submit_each f xts >>= λ hashes. pure (acc ++ hashes)

  fold-nil : (r : Result E (List H) × S) → r ≡ continue (λ acc. onto acc []) r
  fold-nil (ok acc, s) = ground (arith, append-nil acc)
  fold-nil (err e, s) = refl
  fold-nil (panic, s) = refl

  regroup :
      (acc : List H) (h : H) (r : Result E (List H) × S)
      → continue (λ hs. pure ((acc ++ (h ∷ [])) ++ hs)) r
        ≡ continue (λ hs. pure (acc ++ hs)) (continue (λ hs. pure (h ∷ hs)) r)
  regroup acc h (ok hs, s) = ground (arith, append_assoc acc (h ∷ []) hs)
  regroup acc h (err e, s) = refl
  regroup acc h (panic, s) = refl

  after_one :
      (acc : List H) (xts : List X) (r : Result E H × S)
      → continue (λ acc'. onto acc' xts) (continue (λ h. pure (acc ++ (h ∷ []))) r)
        ≡ continue
            (λ hs. pure (acc ++ hs))
            (continue (λ h. submit_each f xts >>= λ hs. pure (h ∷ hs)) r)
  after_one acc xts (ok h, s) = regroup acc h (submit_each f xts s)
  after_one acc xts (err e, s) = refl
  after_one acc xts (panic, s) = refl

  fold-cons :
      (x : X) (xts : List X) (r : Result E (List H) × S)
      → continue (λ acc. onto acc xts) (continue (λ acc. f x >>= λ h. pure (acc ++ (h ∷ []))) r)
        ≡ continue (λ acc. onto acc (x ∷ xts)) r
  fold-cons x xts (ok acc, s) = after_one acc xts (f x s)
  fold-cons x xts (err e, s) = refl
  fold-cons x xts (panic, s) = refl

  fold-eq :
      (xts : List X) (m : Action S E (List H)) (s : S)
      → foldl (and_then f) m xts s ≡ continue (λ acc. onto acc xts) (m s)
  fold-eq [] m s = fold-nil (m s)
  fold-eq (x ∷ xts) m s = fold-eq xts (and_then f m x) s ∙ fold-cons x xts (m s)

  dropped : (r : Result E (List H) × S) → continue (λ hs. pure ([] ++ hs)) r ≡ r
  dropped (ok hs, s) = refl
  dropped (err e, s) = refl
  dropped (panic, s) = refl

  -- `append_extrinsics` submits the extrinsics in order up to the first that is refused, whose error it
  -- returns with the ones before it submitted and none after it; if none is refused it returns the
  -- hashes in order.
  pub append_extrinsics-eq-submit_each :
      (xts : List X) (s : S) → append_extrinsics f xts s ≡ submit_each f xts s
  unfolding append_extrinsics
  append_extrinsics-eq-submit_each xts s = fold-eq xts (pure []) s ∙ dropped (submit_each f xts s)
