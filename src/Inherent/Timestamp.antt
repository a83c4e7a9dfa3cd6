-- ===== src/Inherent/Timestamp.antt =====
-- The time provider of core/src/inherent/timestamp.rs: instances in a global map behind a lock,
-- each with a start, a step and a tick count. `InstanceId` is its number.
use fudge.Prelude.{
  ℕ, ◌+◌, ◌*◌, ◌/◌, ◌%◌, ◌^◌, ◌-◌, min, Bool, true, false, Option, none, some, List, ◌&&◌, not, leb,
  if◌then◌else◌, Map, get, insert, Result, ok, err, panic, InnerError, Action, ◌≡◌, ◌>>=◌, ◌>>◌,
  pure, throw, gets, asks, modify, or_throw, map_err, zoom, lift,
}
use fudge.Node.{Bytes}
pub mod Time
pub mod Instances
pub mod Steps
pub mod Blocks

-- mod Tests

abbrev pub u64_max : ℕ
u64_max = 2 ^ 64 - 1

abbrev pub u128_max : ℕ
u128_max = 2 ^ 128 - 1

-- `std::time::Duration`: whole seconds, and nanoseconds below a second.
pub record Duration : Type 0 where
  pub secs : ℕ
  pub nanos : ℕ

abbrev pub as_millis : Duration → ℕ
as_millis d = d.secs * 1000 + d.nanos / 1000000

pub data Error : Type 0 where
  instances_lock_poisoned current_time_retrieval : InnerError → Error
  instance_not_found : ℕ → Error

pub record CurrTimeProvider : Type 0 where
  pub instance_id : ℕ
  pub start : Duration
  pub delta : Duration
  pub ticks : ℕ

-- `INSTANCES`, its lock's poison flag, and `COUNTER`.
pub record Globals : Type 0 where
  pub instances : Map CurrTimeProvider
  pub poisoned : Bool
  pub counter : ℕ

abbrev pub poison_message : InnerError
poison_message = "poisoned lock: another task failed inside"

-- `storage.lock().map_err(…)?`
unfoldable pub lock : Action Globals Error (Map CurrTimeProvider)
lock g =
    if g.poisoned then (err (instances_lock_poisoned poison_message), g) else (ok g.instances, g)

-- The start that was asked for, or the time since the epoch. `now` is what the system clock
-- answers: an error where it stands before the epoch.
unfoldable pub start_or_now : Result InnerError Duration → Option Duration → Result Error Duration
start_or_now now (some start) = ok start
start_or_now (ok dur) none = ok dur
start_or_now (err e) none = err (current_time_retrieval e)
start_or_now panic none = panic

abbrev store : Map CurrTimeProvider → Action Globals Error (Unit {0})
store m g = (ok tt, record g { instances = m })

unfoldable pub force_new :
    Result InnerError Duration → ℕ → Duration → Option Duration → Action Globals Error (Unit {0})
unfolding lock start_or_now
force_new now instance_id delta start = do
  instances ← lock
  start ← lift (start_or_now now start)
  or_throw (get instance_id instances) (instance_not_found instance_id)
  store (
      insert instance_id
        (record { instance_id = instance_id; start = start; delta = delta; ticks = 0 }) instances)

-- `COUNTER.fetch_add(1, SeqCst)`, which wraps.
abbrev next_id : Action Globals Error ℕ
next_id g = (ok g.counter, record g { counter = (g.counter + 1) % 2 ^ 64 })

unfoldable pub create_instance :
    Result InnerError Duration → Duration → Option Duration → Action Globals Error ℕ
unfolding lock start_or_now
create_instance now delta start = do
  instance_id ← next_id
  start ← lift (start_or_now now start)
  instances ← lock
  store (
      insert instance_id
        (record { instance_id = instance_id; start = start; delta = delta; ticks = 0 }) instances)
  pure instance_id

unfoldable pub get_instance : ℕ → Action Globals Error CurrTimeProvider
unfolding lock
get_instance instance_id = do
  instances ← lock
  or_throw (get instance_id instances) (instance_not_found instance_id)

-- `ticks + 1` on a u128. Where the build checks overflow the addition panics under the lock,
-- which poisons it; elsewhere it wraps.
abbrev add_tick :
    Bool → ℕ → Map CurrTimeProvider → CurrTimeProvider → Action Globals Error (Unit {0})
add_tick checks instance_id instances instance_ g =
    if checks && not (leb (instance_.ticks + 1) u128_max)
    then (panic, record g { poisoned = true })
    else store
        (insert instance_id (record instance_ { ticks = (instance_.ticks + 1) % 2 ^ 128 })
          instances)
        g

unfoldable pub update_time : Bool → CurrTimeProvider → Action Globals Error (Unit {0})
unfolding lock
update_time checks self = do
  instances ← lock
  instance_ ← or_throw (get self.instance_id instances) (instance_not_found self.instance_id)
  add_tick checks self.instance_id instances instance_

-- Multiplication and addition of u128 that stop at the largest value.
abbrev pub saturating_mul : ℕ → ℕ → ℕ
saturating_mul a b = min (a * b) u128_max

abbrev pub saturating_add : ℕ → ℕ → ℕ
saturating_add a b = min (a + b) u128_max

-- What `sp_inherents` and `sp_runtime` give: the store of inherent data, which refuses a second
-- entry of one name, and the conversion to u64.
pub record Inherents : Type 1 where
  pub InherentData : Type 0
  pub put_data : ℕ → InherentData → Result InnerError InherentData
  pub saturated_into : ℕ → ℕ
  pub saturated_into_lem : (n : ℕ) → saturated_into n ≡ min n u64_max

module _ (host : Inherents) where
  open host use {InherentData, put_data, saturated_into}

  unfoldable pub current_time : CurrTimeProvider → ℕ
  current_time self =
      let delta = saturating_mul (as_millis self.delta) self.ticks in
      let timestamp = saturating_add (as_millis self.start) delta in saturated_into timestamp

  -- The error of a provider is that of `put_data`, or the text of its own.
  pub data ProvideError : Type 0 where
    put : InnerError → ProvideError
    application : Error → ProvideError

  abbrev put_time : ℕ → Action (Globals × InherentData) ProvideError (Unit {0})
  put_time t (g, d) = elim (put_data t d) [
    | ok d' ↦ (ok tt, (g, d'))
    | err e ↦ (err (put e), (g, d))
    | panic ↦ (panic, (g, d))
  ]

  unfoldable pub provide_inherent_data :
      Bool → CurrTimeProvider → Action (Globals × InherentData) ProvideError (Unit {0})
  provide_inherent_data checks self = do
    put_time (current_time self)
    zoom (λ s. s.0) (λ s g. (g, s.1)) (map_err application (update_time checks self))

-- `try_handle_error`: an error under another name is not handled, nor is one that does not decode. `is_time` says
-- whether a name is that of timestamps, and `decode` is `InherentError::try_from` under that name.
unfoldable pub try_handle_error :
    {Name InherentError : Type 0}
    → (Name → Bool)
    → (Bytes → Option InherentError)
    → Name
    → Bytes
    → Option (Result InherentError (Unit {0}))
try_handle_error is_time decode identifier error =
    if is_time identifier then elim (decode error) [ none ↦ none | some e ↦ some (err e) ] else none
