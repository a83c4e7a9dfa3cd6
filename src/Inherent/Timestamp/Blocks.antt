-- ===== src/Inherent/Timestamp/Blocks.antt =====
-- Sequences of calls, and the time that the blocks built on an instance see.
use fudge.Prelude.{
  ℕ, ◌+◌, ◌*◌, ◌%◌, ◌^◌, ◌≤◌, ◌<◌, ◌≡◌, Bool, false, Option, some, List, [], ◌∷◌, Result, ok, err,
  panic, InnerError, get, insert, get-insert, arith, length, ◌∙◌, min, ==_refl, ap, sym,
}
use fudge.Inherent.Timestamp.{
  CurrTimeProvider, Duration, Globals, start_or_now, force_new, create_instance, get_instance,
  update_time, u128_max, Inherents, current_time, as_millis, u64_max, provide_inherent_data, put,
}
use fudge.Inherent.Timestamp.Instances.{
  IsValid, create_instance-IsValid, force_new-IsValid, update_time-IsValid,
}
use fudge.Inherent.Timestamp.Steps.{
  get_instance_state, create_instance_lem, get_instance_found, update_time_lem, update_times,
  update_times_lem,
}
use fudge.Inherent.Timestamp.Time.{current_time-eq-min}

-- A call of the provider, with what the system clock answers where it is asked.
pub data Call : Type 0 where
  forces : Result InnerError Duration → ℕ → Duration → Option Duration → Call
  creates : Result InnerError Duration → Duration → Option Duration → Call
  reads : ℕ → Call
  updates : Bool → CurrTimeProvider → Call

unfoldable pub apply : Call → Globals → Globals
apply (forces now id delta start) g = (force_new now id delta start g).1
apply (creates now delta start) g = (create_instance now delta start g).1
apply (reads id) g = (get_instance id g).1
apply (updates checks self) g = (update_time checks self g).1

pub run : List Call → Globals → Globals
run [] g = g
run (c ∷ cs) g = run cs (apply c g)

apply-counter : (c : Call) (g : Globals) → (apply c g).counter ≤ g.counter + 1
unfolding apply force_new create_instance get_instance update_time
apply-counter (forces now id delta start) g = ground arith
apply-counter (creates now delta start) g = ground arith
apply-counter (reads id) g = ground arith
apply-counter (updates checks self) g = ground arith

apply-IsValid : (c : Call) (g : Globals) → g.counter + 1 < 2 ^ 64 → IsValid g → IsValid (apply c g)
unfolding apply
apply-IsValid (forces now id delta start) g room v = force_new-IsValid now id delta start g v
apply-IsValid (creates now delta start) g room v = create_instance-IsValid now delta start g room v
apply-IsValid (reads id) g room v = rw (get_instance_state id g) v
apply-IsValid (updates checks self) g room v = update_time-IsValid checks self g v

-- No sequence of calls, whether they succeed, fail or panic, files an instance under another id
-- than its own or reaches an id that has not been handed out, as long as the u64 counter has room
-- for as many ids as there are calls.
pub run-IsValid :
    (cs : List Call) (g : Globals) → g.counter + length cs < 2 ^ 64 → IsValid g → IsValid (run cs g)
unfolding run
run-IsValid [] g room v = v
run-IsValid (c ∷ cs) g room v =
    run-IsValid cs (apply c g) (omega (arith, apply-counter c g))
      (apply-IsValid c g (omega arith) v)

module _ (host : Inherents) where
  open host use {put_data}

  -- With the lock clean and the instance filed below its last tick, `provide_inherent_data` puts
  -- the time of the handle it is called on, and only then adds a tick to the instance; where the
  -- data is refused it adds none and the error is passed on.
  pub provide_inherent_data_lem :
      (checks : Bool) (self p : CurrTimeProvider) (g : Globals) (d : host.InherentData)
      → g.poisoned ≡ false
      → get self.instance_id g.instances ≡ some p
      → p.ticks < u128_max
      → provide_inherent_data host checks self (g, d) ≡ elim (put_data (current_time host self) d) [
        | ok d' ↦ (
          ok tt,
          (
            record g {
              instances = insert self.instance_id (record p { ticks = p.ticks + 1 }) g.instances;
            },
            d',
          ),
        )
        | err e ↦ (err (put e), (g, d))
        | panic ↦ (panic, (g, d))
      ]
  unfolding provide_inherent_data
  provide_inherent_data_lem checks self p g d clean e room =
      ground (arith, update_time_lem checks self p g clean e room)

  -- With the lock clean and a start at hand, an instance that is created and then updated `n`
  -- times, for an `n` that fits a u128, is read back with a time of its start plus `n` steps, in
  -- milliseconds, or the largest u64 where that is smaller.
  pub current_time-update_times :
      (checks : Bool) (now : Result InnerError Duration) (delta s : Duration)
      (start : Option Duration) (self : CurrTimeProvider) (n : ℕ) (g : Globals)
      → g.poisoned ≡ false
      → start_or_now now start ≡ ok s
      → self.instance_id ≡ g.counter
      → n ≤ u128_max
      → let g₁ = (create_instance now delta start g).1 in
        let g₂ = (update_times checks self n g₁).1 in
        (p : CurrTimeProvider) × (get_instance g.counter g₂ ≡ (ok p, g₂))
        × (current_time host p ≡ min (as_millis s + as_millis delta * n) u64_max)
  current_time-update_times checks now delta s start self n g clean e same room =
      let p : CurrTimeProvider = record {
        instance_id = g.counter;
        start = s;
        delta = delta;
        ticks = 0;
      } in
      let g₁ : Globals = record g {
        counter = (g.counter + 1) % 2 ^ 64;
        instances = insert g.counter p g.instances;
      } in
      let (_, c, _, found, _) =
        update_times_lem checks self p n g₁ clean (rw (same, get-insert, ==_refl)) (omega arith) in
      rw (create_instance_lem now delta s start g clean e) (
        record p { ticks = 0 + n },
        get_instance_found g.counter _ _ c
            (ap (λ i. get i (update_times checks self n g₁).1.instances) (sym same) ∙ found),
        current_time-eq-min host (record p { ticks = 0 + n }) ∙ omega arith,
      )
