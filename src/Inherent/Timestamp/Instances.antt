-- ===== src/Inherent/Timestamp/Instances.antt =====
-- What each operation does to the map of instances.
use fudge.Prelude.{
  ℕ, ◌+◌, ◌^◌, ◌<◌, ◌≡◌, Bool, Option, none, some, Result, InnerError, get, get-insert, arith,
  Option-cases, inl, inr,
}
use fudge.Inherent.Timestamp.{
  CurrTimeProvider, Duration, Globals, force_new, create_instance, update_time,
}

-- Every instance stands under its own id, and every id in use has been handed out.
abbrev pub IsValid : Globals → Type 0
IsValid g =
    (k : ℕ) (p : CurrTimeProvider)
    → get k g.instances ≡ some p
    → (p.instance_id ≡ k) × (k < g.counter)

-- The id that is handed out next is free.
pub next_id_free : (g : Globals) → IsValid g → get g.counter g.instances ≡ none
next_id_free g v = elim (Option-cases (get g.counter g.instances)) [
  | inl e ↦ e
  | inr (p, e) ↦ absurd (omega (arith, v g.counter p e))
]

pub create_instance-IsValid :
    (now : Result InnerError Duration) (delta : Duration) (start : Option Duration) (g : Globals)
    → g.counter + 1 < 2 ^ 64
    → IsValid g
    → IsValid (create_instance now delta start g).1
unfolding create_instance
create_instance-IsValid now delta start g room v k p e = grind (arith, get-insert, v k p, v)

pub force_new-IsValid :
    (now : Result InnerError Duration) (id : ℕ) (delta : Duration) (start : Option Duration)
    (g : Globals)
    → IsValid g
    → IsValid (force_new now id delta start g).1
unfolding force_new
force_new-IsValid now id delta start g v k p e = grind (arith, get-insert, v k p)

pub update_time-IsValid :
    (checks : Bool) (self : CurrTimeProvider) (g : Globals)
    → IsValid g
    → IsValid (update_time checks self g).1
unfolding update_time
update_time-IsValid checks self g v k p e = grind (arith, get-insert, v k p, v)
