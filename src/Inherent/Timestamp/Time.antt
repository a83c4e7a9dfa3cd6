-- ===== src/Inherent/Timestamp/Time.antt =====
-- The time that an instance shows.
use fudge.Prelude.{ℕ, ◌+◌, ◌*◌, ◌≤◌, ◌≡◌, min, arith}
use fudge.Inherent.Timestamp.{CurrTimeProvider, as_millis, u64_max, Inherents, current_time}

module _ (host : Inherents) where
  -- The two saturating steps and the conversion come to one bound: the time is the start plus one
  -- step for each tick, in milliseconds, or the largest u64 where that is smaller.
  pub current_time-eq-min :
      (p : CurrTimeProvider)
      → current_time host p ≡ min (as_millis p.start + as_millis p.delta * p.ticks) u64_max
  unfolding current_time
  current_time-eq-min p = rw host.saturated_into_lem (omega arith)

  -- An instance with more ticks never shows an earlier time.
  pub current_time_mono :
      (p : CurrTimeProvider) (t : ℕ)
      → p.ticks ≤ t
      → current_time host p ≤ current_time host (record p { ticks = t })
  current_time_mono p t h =
      rw (current_time-eq-min p, current_time-eq-min (record p { ticks = t })) (grind (arith))
