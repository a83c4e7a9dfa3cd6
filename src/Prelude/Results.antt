-- ===== src/Prelude/Results.antt =====
-- Rust's `Result`, with a third case for a panic, and methods as actions on a state: what was
-- written before an error or a panic stays written.
use Prim.Native.String.{String}
use mathlib.Core.Bool.{Bool, true, false}
use mathlib.Core.Option.{Option, none, some}

-- A boxed `dyn Error`, by its text.
abbrev pub InnerError : Type 0
InnerError = String

pub data Result {ℓ κ} (E : Type ℓ) (A : Type κ) : Type (ℓ ⊔ κ) where
  ok : A → Result E A
  err : E → Result E A
  panic : Result E A

-- `map_err`
abbrev pub recast {ℓ κ ι} :
    {E : Type ℓ} {F : Type κ} {A : Type ι} → (E → F) → Result E A → Result F A
recast f (ok a) = ok a
recast f (err e) = err (f e)
recast f panic = panic

abbrev pub Action {ℓ κ ι} : Type ℓ → Type κ → Type ι → Type (ℓ ⊔ κ ⊔ ι)
Action S E A = S → Result E A × S

abbrev pub continue {ℓ κ ι μ} :
    {S : Type ℓ} {E : Type κ} {A : Type ι} {B : Type μ}
    → (A → Action S E B)
    → Result E A × S
    → Result E B × S
continue f (ok a, s) = f a s
continue f (err e, s) = (err e, s)
continue f (panic, s) = (panic, s)

infixl 5 ◌>>=◌ ◌>>◌
abbrev pub ◌>>=◌ {ℓ κ ι μ} :
    {S : Type ℓ} {E : Type κ} {A : Type ι} {B : Type μ}
    → Action S E A
    → (A → Action S E B)
    → Action S E B
◌>>=◌ m f s = continue f (m s)

abbrev pub ◌>>◌ {ℓ κ ι μ} :
    {S : Type ℓ} {E : Type κ} {A : Type ι} {B : Type μ} → Action S E A → Action S E B → Action S E B
m >> k = m >>= λ _. k

module _ {ℓ κ ι} {S : Type ℓ} {E : Type κ} {A : Type ι} where
  abbrev pub pure : A → Action S E A
  pure a s = (ok a, s)

  abbrev pub throw : E → Action S E A
  throw e s = (err e, s)

  -- `e?`, for a call that changes nothing
  abbrev pub lift : Result E A → Action S E A
  lift r s = (r, s)

  abbrev pub or_throw : Option A → E → Action S E A
  or_throw none e s = (err e, s)
  or_throw (some a) e s = (ok a, s)

module _ {ℓ κ ι} {S : Type ℓ} {E : Type κ} {A : Type ι} where
  abbrev pub gets : (S → A) → Action S E A
  gets f s = (ok (f s), s)

  -- A call that reads the state and may fail.
  abbrev pub asks : (S → Result E A) → Action S E A
  asks f s = (f s, s)

module _ {ℓ κ} {S : Type ℓ} {E : Type κ} where
  abbrev pub modify : (S → S) → Action S E (Unit {0})
  modify f s = (ok tt, f s)

  -- `assert!`
  abbrev pub assert : (S → Bool) → Action S E (Unit {0})
  assert test s = (elim (test s) [ true ↦ ok tt | false ↦ panic ], s)

abbrev pub map_err {ℓ κ ι μ} :
    {S : Type ℓ} {E : Type κ} {F : Type ι} {A : Type μ} → (E → F) → Action S E A → Action S F A
map_err f m s = let (r, s') = m s in (recast f r, s')

-- A method of the object that a field holds.
abbrev pub zoom {ℓ κ ι μ} :
    {S : Type ℓ} {T : Type κ} {E : Type ι} {A : Type μ}
    → (S → T)
    → (S → T → S)
    → Action T E A
    → Action S E A
zoom get put m s = let (r, t) = m (get s) in (r, put s t)
