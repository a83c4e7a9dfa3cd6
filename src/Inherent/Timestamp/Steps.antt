-- ===== src/Inherent/Timestamp/Steps.antt =====
-- What a call returns, what it leaves in the map, and what any sequence of calls keeps.
use fudge.Prelude.{
  ℕ, zero, suc, ◌+◌, ◌%◌, ◌^◌, ◌≤◌, ◌<◌, ◌≡◌, refl, Bool, true, false, Option, none, some, Result,
  ok, err, panic, InnerError, get, insert, get-insert, arith, Action, ◌∙◌, ◌>>◌, pure,
  if◌then◌else◌, ◌==◌,
}
use fudge.Inherent.Timestamp.{
  CurrTimeProvider, Duration, Globals, Error, instance_not_found, instances_lock_poisoned,
  poison_message, start_or_now, force_new, create_instance, get_instance, update_time, u128_max,
  lock,
}

pub create_instance_lem :
    (now : Result InnerError Duration) (delta s : Duration) (start : Option Duration) (g : Globals)
    → g.poisoned ≡ false
    → start_or_now now start ≡ ok s
    → create_instance now delta start g ≡ (
      ok g.counter,
      record g {
        counter = (g.counter + 1) % 2 ^ 64;
        instances =
            insert g.counter
              (record { instance_id = g.counter; start = s; delta = delta; ticks = 0 })
              g.instances;
      },
    )
unfolding create_instance lock
create_instance_lem now delta s start g clean e = ground arith

pub get_instance_found :
    (id : ℕ) (p : CurrTimeProvider) (g : Globals)
    → g.poisoned ≡ false
    → get id g.instances ≡ some p
    → get_instance id g ≡ (ok p, g)
unfolding get_instance lock
get_instance_found id p g clean e = ground arith

pub get_instance_state : (id : ℕ) (g : Globals) → (get_instance id g).1 ≡ g
unfolding get_instance lock
get_instance_state id g = ground arith

-- With the lock clean and a start at hand (given, or from the clock), `create_instance` succeeds:
-- the id is the counter's old value, `get_instance` of it finds the start, the step and no tick,
-- the counter has moved on, wrapping at 2^64, and every other instance is as it was.
pub get_instance-create_instance :
    (now : Result InnerError Duration) (delta s : Duration) (start : Option Duration) (g : Globals)
    → g.poisoned ≡ false
    → start_or_now now start ≡ ok s
    → let (r, g') = create_instance now delta start g in
      (r ≡ ok g.counter)
      × (g'.counter ≡ (g.counter + 1) % 2 ^ 64)
      × (get_instance g.counter g'
          ≡ (ok (record { instance_id = g.counter; start = s; delta = delta; ticks = 0 }), g'))
      × ((j : ℕ)
          → get j g'.instances ≡ (
              if g.counter == j
              then some (record { instance_id = g.counter; start = s; delta = delta; ticks = 0 })
              else get j g.instances))
unfolding create_instance get_instance lock
get_instance-create_instance now delta s start g clean e =
    (ground arith, ground arith, grind (arith, get-insert), λ j. grind (arith, get-insert))

-- With the lock clean and a start given, `force_new` of an id that is not in use is refused and changes
-- nothing; of an id in use, it puts an instance with that start, that step and no tick in its place.
pub force_new_lem :
    (now : Result InnerError Duration) (id : ℕ) (delta s : Duration) (g : Globals)
    → g.poisoned ≡ false
    → force_new now id delta (some s) g ≡ elim (get id g.instances) [
      | none ↦ (err (instance_not_found id), g)
      | some _ ↦ (
        ok tt,
        record g {
          instances =
              insert id
                (record { instance_id = id; start = s; delta = delta; ticks = 0 })
                g.instances;
        },
      )
    ]
unfolding force_new lock start_or_now
force_new_lem now id delta s g clean = ground arith

-- One tick.
pub update_time_lem :
    (checks : Bool) (self p : CurrTimeProvider) (g : Globals)
    → g.poisoned ≡ false
    → get self.instance_id g.instances ≡ some p
    → p.ticks < u128_max
    → update_time checks self g ≡ (
      ok tt,
      record g {
        instances = insert self.instance_id (record p { ticks = p.ticks + 1 }) g.instances;
      },
    )
unfolding update_time lock
update_time_lem checks self p g clean e room = ground arith

-- `n` calls of `update_time`, one after the other.
abbrev pub update_times : Bool → CurrTimeProvider → ℕ → Action Globals Error (Unit {0})
update_times checks self zero = pure tt
update_times checks self (suc n) = update_time checks self >> update_times checks self n

-- With the lock clean, `n` updates through any handle of an instance that is filed and has room for
-- `n` ticks add `n` ticks to it, and leave the others, the counter and the lock.
pub update_times_lem :
    (checks : Bool) (self p : CurrTimeProvider) (n : ℕ) (g : Globals)
    → g.poisoned ≡ false
    → get self.instance_id g.instances ≡ some p
    → p.ticks + n ≤ u128_max
    → let (r, g') = update_times checks self n g in
      (r ≡ ok tt)
      × (g'.poisoned ≡ false)
      × (g'.counter ≡ g.counter)
      × (get self.instance_id g'.instances ≡ some (record p { ticks = p.ticks + n }))
      × ((j : ℕ)
          → get j g'.instances ≡ (
              if self.instance_id == j
              then some (record p { ticks = p.ticks + n })
              else get j g.instances))
update_times_lem checks self p zero g clean e room =
    (refl, clean, refl, ground arith, λ j. ground arith)
update_times_lem checks self p (suc n) g clean e room =
    rw (update_time_lem checks self p g clean e (omega arith)) (
      let next : CurrTimeProvider = record p { ticks = p.ticks + 1 } in
      let m : Globals = record g { instances = insert self.instance_id next g.instances } in
      let (r, c, k, found, kept) =
        update_times_lem checks self next n m clean (grind (arith, get-insert)) (omega arith) in
      (r, c, k, found ∙ ground arith, λ j. kept j ∙ grind (arith, get-insert)))

update_time_full :
    (self p : CurrTimeProvider) (g : Globals)
    → g.poisoned ≡ false
    → get self.instance_id g.instances ≡ some p
    → p.ticks ≡ u128_max
    → update_time true self g ≡ (panic, record g { poisoned = true })
unfolding update_time lock
update_time_full self p g clean e full = ground arith

-- With the lock clean, an update of an instance at the last tick panics under the lock in a checked
-- build, and from then on every operation reports the poisoned lock; `create_instance`, here with a
-- start given, has used up an id by then.
pub update_time_overflow :
    (self p : CurrTimeProvider) (g : Globals)
    → g.poisoned ≡ false
    → get self.instance_id g.instances ≡ some p
    → p.ticks ≡ u128_max
    → let (r, g') = update_time true self g in
      (r ≡ panic)
      × ((checks : Bool) (q : CurrTimeProvider)
          → update_time checks q g' ≡ (err (instances_lock_poisoned poison_message), g'))
      × ((id : ℕ) → get_instance id g' ≡ (err (instances_lock_poisoned poison_message), g'))
      × ((now : Result InnerError Duration) (id : ℕ) (delta : Duration) (start : Option Duration)
          → force_new now id delta start g' ≡ (err (instances_lock_poisoned poison_message), g'))
      × ((now : Result InnerError Duration) (delta s : Duration)
          → create_instance now delta (some s) g' ≡ (
            err (instances_lock_poisoned poison_message),
            record g' { counter = (g'.counter + 1) % 2 ^ 64 },
          ))
unfolding update_time lock get_instance force_new create_instance start_or_now
update_time_overflow self p g clean e full =
    rw (update_time_full self p g clean e full)
      (refl, λ checks q. refl, λ id. refl, λ now id delta start. refl, λ now delta s. refl)
