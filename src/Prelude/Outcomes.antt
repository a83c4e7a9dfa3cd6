-- ===== src/Prelude/Outcomes.antt =====
-- What an action leaves: one predicate of its value and the state where it succeeds, and one of the
-- state where it fails.
use fudge.Prelude.Results.{Result, ok, err, panic, Action, continue, recast}

module _ {ℓ κ ι ν} {S : Type ℓ} {E : Type κ} {A : Type ι} where
  abbrev pub Leaves : (A → S → Type ν) → (S → Type ν) → Result E A × S → Type ν
  Leaves Q F (ok a, s) = Q a s
  Leaves Q F (err e, s) = F s
  Leaves Q F (panic, s) = F s

  -- What holds of the state however the action ends.
  pub Leaves-any :
      (Q : A → S → Type ν) (F : S → Type ν) (m : Result E A × S)
      → ((a : A) → Q a m.1)
      → F m.1
      → Leaves Q F m
  Leaves-any Q F (ok a, s) q f = q a
  Leaves-any Q F (err e, s) q f = f
  Leaves-any Q F (panic, s) q f = f

pub Leaves-continue {ℓ κ ι μ ν} :
    {S : Type ℓ} {E : Type κ} {A : Type ι} {B : Type μ} (P : A → S → Type ν) (Q : B → S → Type ν)
    (F : S → Type ν) (m : Result E A × S) (f : A → Action S E B)
    → Leaves P F m
    → ((a : A) (s : S) → P a s → Leaves Q F (f a s))
    → Leaves Q F (continue f m)
Leaves-continue P Q F (ok a, s) f p g = g a s p
Leaves-continue P Q F (err e, s) f p g = p
Leaves-continue P Q F (panic, s) f p g = p

pub Leaves-weaken {ℓ κ ι ν} :
    {S : Type ℓ} {E : Type κ} {A : Type ι} (P Q : A → S → Type ν) (F G : S → Type ν)
    (m : Result E A × S)
    → Leaves P F m
    → ((a : A) (s : S) → P a s → Q a s)
    → ((s : S) → F s → G s)
    → Leaves Q G m
Leaves-weaken P Q F G (ok a, s) l p f = p a s l
Leaves-weaken P Q F G (err e, s) l p f = f s l
Leaves-weaken P Q F G (panic, s) l p f = f s l

-- A predicate of the state that holds however an action ends.
module _ {ℓ κ ι ν} {S : Type ℓ} {E : Type κ} {A : Type ι} (P : S → Type ν) where
  abbrev pub Holds : Result E A × S → Type ν
  Holds m = Leaves (λ _. P) P m

  pub Holds-any : (m : Result E A × S) → P m.1 → Holds m
  Holds-any m p = Leaves-any (λ _. P) P m (λ _. p) p

  pub Holds-end : (m : Result E A × S) → Holds m → P m.1
  Holds-end (ok a, s) p = p
  Holds-end (err e, s) p = p
  Holds-end (panic, s) p = p

pub Holds-continue {ℓ κ ι μ ν} :
    {S : Type ℓ} {E : Type κ} {A : Type ι} {B : Type μ} (P : S → Type ν) (m : Result E A × S)
    (f : A → Action S E B)
    → Holds P m
    → ((a : A) (s : S) → P s → Holds P (f a s))
    → Holds P (continue f m)
Holds-continue P m f p g = Leaves-continue (λ _. P) (λ _. P) P m f p g

-- The same, of the state that the first action leaves.
pub Holds-then {ℓ κ ι μ ν} :
    {S : Type ℓ} {E : Type κ} {A : Type ι} {B : Type μ} (P : S → Type ν) (m : Result E A × S)
    (f : A → Action S E B)
    → P m.1
    → ((a : A) (s : S) → P s → Holds P (f a s))
    → Holds P (continue f m)
Holds-then P m f p g = Holds-continue P m f (Holds-any P m p) g

-- What an action leaves where it succeeds, and nothing of where it does not.
module _ {ℓ κ ι} {S : Type ℓ} {E : Type κ} {A : Type ι} where
  abbrev pub Yields : (A → S → Type 0) → Result E A × S → Type 0
  Yields Q m = Leaves Q (λ _. Unit {0}) m

  pub Yields-any : (Q : A → S → Type 0) (m : Result E A × S) → ((a : A) → Q a m.1) → Yields Q m
  Yields-any Q m q = Leaves-any Q (λ _. Unit {0}) m q tt

  pub Yields-weaken :
      (P Q : A → S → Type 0) (m : Result E A × S)
      → Yields P m
      → ((a : A) (s : S) → P a s → Q a s)
      → Yields Q m
  Yields-weaken P Q m y f = Leaves-weaken P Q (λ _. Unit {0}) (λ _. Unit {0}) m y f (λ _ _. tt)

  -- Of an action that leaves `P` however it ends.
  pub Holds-Yields : (P : S → Type 0) (m : Result E A × S) → Holds P m → Yields (λ _. P) m
  Holds-Yields P m h = Yields-any (λ _. P) m (λ _. Holds-end P m h)

  pub Yields-and :
      (P Q : A → S → Type 0) (m : Result E A × S)
      → Yields P m
      → Yields Q m
      → Yields (λ a s. P a s × Q a s) m
  Yields-and P Q (ok a, s) p q = (p, q)
  Yields-and P Q (err e, s) p q = tt
  Yields-and P Q (panic, s) p q = tt

  pub Yields-recast {μ} :
      {F : Type μ} (f : E → F) (Q : A → S → Type 0) (m : Result E A × S)
      → Yields Q m
      → Leaves Q (λ _. Unit {0}) (recast f m.0, m.1)
  Yields-recast f Q (ok a, s) y = y
  Yields-recast f Q (err e, s) y = tt
  Yields-recast f Q (panic, s) y = tt

pub Yields-continue {ℓ κ ι μ} :
    {S : Type ℓ} {E : Type κ} {A : Type ι} {B : Type μ} (P : A → S → Type 0) (Q : B → S → Type 0)
    (m : Result E A × S) (f : A → Action S E B)
    → Yields P m
    → ((a : A) (s : S) → P a s → Yields Q (f a s))
    → Yields Q (continue f m)
Yields-continue P Q m f p g = Leaves-continue P Q (λ _. Unit {0}) m f p g

pub Leaves-Yields {ℓ κ ι} :
    {S : Type ℓ} {E : Type κ} {A : Type ι} (Q : A → S → Type 0) (F : S → Type 0)
    (m : Result E A × S)
    → Leaves Q F m
    → Yields Q m
Leaves-Yields Q F m l = Leaves-weaken Q Q F (λ _. Unit {0}) m l (λ _ _ q. q) (λ _ _. tt)
