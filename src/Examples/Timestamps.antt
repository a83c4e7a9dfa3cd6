-- ===== src/Examples/Timestamps.antt =====
-- The time provider on two instances.
use fudge.Prelude.{
  ℕ, ◌+◌, ◌%◌, ◌^◌, ◌==◌, Option, if◌then◌else◌, InnerError, Bool, true, false, none, some, List,
  [], ◌∷◌, Result, ok, err, panic, min, ◌≡◌, refl, arith, get, insert,
}
use fudge.Inherent.Timestamp.{
  CurrTimeProvider, Duration, Globals, Inherents, current_time, provide_inherent_data, update_time,
  create_instance, get_instance, force_new, start_or_now, u64_max, u128_max,
  instances_lock_poisoned, poison_message,
}
use fudge.Inherent.Timestamp.Instances.{IsValid}
use fudge.Inherent.Timestamp.Steps.{
  get_instance-create_instance, update_times, update_time_overflow,
}
use fudge.Inherent.Timestamp.Blocks.{
  Call, forces, creates, reads, updates, run, run-IsValid, provide_inherent_data_lem,
  current_time-update_times,
}

abbrev pub host : Inherents
host = record {
  InherentData = List ℕ;
  put_data = λ t d. ok (t ∷ d);
  saturated_into = λ n. min n u64_max;
  saturated_into_lem = λ n. refl;
}

abbrev six_seconds : Duration
six_seconds = record { secs = 6; nanos = 0 }

abbrev epoch : Duration
epoch = record { secs = 1000; nanos = 5000000 }

abbrev pub provider : CurrTimeProvider
provider = record { instance_id = 0; start = epoch; delta = six_seconds; ticks = 2 }

abbrev globals : Globals
globals = record { instances = (0, provider) ∷ []; poisoned = false; counter = 1 }

abbrev full : CurrTimeProvider
full = record { instance_id = 0; start = epoch; delta = six_seconds; ticks = u128_max }

abbrev full_globals : Globals
full_globals = record { instances = (0, full) ∷ []; poisoned = false; counter = 1 }

globals-IsValid : IsValid globals
unfolding get
globals-IsValid k p e = grind (arith)

abbrev calls : List Call
calls =
    creates (ok epoch) six_seconds none
    ∷ updates true provider
    ∷ forces (ok epoch) 1 six_seconds (some epoch)
    ∷ reads 1
    ∷ []

run-IsValid_example : IsValid (run calls globals)
run-IsValid_example = run-IsValid calls globals (omega arith) globals-IsValid

provide_inherent_data_lem_example : provide_inherent_data host true provider (globals, []) ≡ (
  ok tt,
  (record globals { instances = (0, record provider { ticks = 3 }) ∷ [] }, 1012005 ∷ []),
)
unfolding get insert current_time
provide_inherent_data_lem_example =
    provide_inherent_data_lem host true provider provider globals [] refl refl (omega arith)

current_time-update_times_example :
    let g₁ = (create_instance (ok epoch) six_seconds none globals).1 in
    let g₂ = (update_times true (record provider { instance_id = 1 }) 4 g₁).1 in
    (p : CurrTimeProvider) × (get_instance 1 g₂ ≡ (ok p, g₂)) × (current_time host p ≡ 1024005)
unfolding get start_or_now
current_time-update_times_example =
    current_time-update_times host true (ok epoch) six_seconds epoch none
      (record provider { instance_id = 1 }) 4 globals refl refl refl (omega arith)

get_instance-create_instance_example :
    let (r, g') = create_instance (ok epoch) six_seconds none globals in
    (r ≡ ok 1)
    × (g'.counter ≡ 2)
    × (get_instance 1 g'
        ≡ (ok (record { instance_id = 1; start = epoch; delta = six_seconds; ticks = 0 }), g'))
    × ((j : ℕ)
        → get j g'.instances ≡ (
            if 1 == j
            then some (record { instance_id = 1; start = epoch; delta = six_seconds; ticks = 0 })
            else get j globals.instances))
unfolding start_or_now
get_instance-create_instance_example =
    get_instance-create_instance (ok epoch) six_seconds epoch none globals refl refl

update_time_overflow_example :
    let (r, g') = update_time true full full_globals in
    (r ≡ panic)
    × ((checks : Bool) (q : CurrTimeProvider)
        → update_time checks q g' ≡ (err (instances_lock_poisoned poison_message), g'))
    × ((id : ℕ) → get_instance id g' ≡ (err (instances_lock_poisoned poison_message), g'))
    × ((now : Result InnerError Duration) (id : ℕ) (delta : Duration) (start : Option Duration)
        → force_new now id delta start g' ≡ (err (instances_lock_poisoned poison_message), g'))
    × ((now : Result InnerError Duration) (delta s : Duration)
        → create_instance now delta (some s) g' ≡ (
          err (instances_lock_poisoned poison_message),
          record g' { counter = (g'.counter + 1) % 2 ^ 64 },
        ))
unfolding get
update_time_overflow_example = update_time_overflow full full full_globals refl refl refl
