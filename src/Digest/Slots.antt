-- ===== src/Digest/Slots.antt =====
-- The slots of a chain whose times come from one instance.
use native.Mathlib.Nat.{div-mul-le_self, le-div_iff_mul-le}
use fudge.Prelude.{ℕ, ◌/◌, ◌<◌, ◌≤◌, ok, ◌≡◌, refl, arith}
use fudge.Inherent.Timestamp.{Inherents, CurrTimeProvider, current_time}
use fudge.Inherent.Timestamp.Time.{current_time_mono}
use fudge.Digest.{Consensus, AuraDigest, aura_digest}

div_mono : (a b d : ℕ) → 0 < d → a ≤ b → a / d ≤ b / d
div_mono a b d p h = (le-div_iff_mul-le p).1 (grind (arith, div-mul-le_self a d))

module _ {host : Inherents} (c : Consensus host) where
  aura_digest_slot :
      (self : AuraDigest) (time : ℕ) (d d' : host.InherentData)
      → 0 < self.slot_duration
      → host.put_data time d ≡ ok d'
      → aura_digest c self d' ≡ ok (c.aura_pre_digest (time / self.slot_duration))
  unfolding aura_digest
  aura_digest_slot self time d d' p e =
      rw (c.put_data-found time d d' e, c.from_timestamp_lem time self.slot_duration p) refl

  -- The inherent data of two blocks hold the times that an instance shows at two numbers of ticks. Then both get
  -- their Aura digest, its slot is the number of whole slot durations in the time, and the later block, that of
  -- more ticks, has no earlier slot.
  pub aura_digest_mono :
      (self : AuraDigest) (q : CurrTimeProvider) (ticks : ℕ) (d d' e e' : host.InherentData)
      → 0 < self.slot_duration
      → q.ticks ≤ ticks
      → host.put_data (current_time host q) d ≡ ok d'
      → host.put_data (current_time host (record q { ticks = ticks })) e ≡ ok e'
      → (x : ℕ) × (y : ℕ) × (aura_digest c self d' ≡ ok (c.aura_pre_digest x))
        × (aura_digest c self e' ≡ ok (c.aura_pre_digest y))
        × (x ≡ current_time host q / self.slot_duration)
        × (x ≤ y)
  aura_digest_mono self q ticks d d' e e' p h a b = (
    current_time host q / self.slot_duration,
    current_time host (record q { ticks = ticks }) / self.slot_duration,
    aura_digest_slot self (current_time host q) d d' p a,
    aura_digest_slot self (current_time host (record q { ticks = ticks })) e e' p b,
    refl,
    div_mono (current_time host q) (current_time host (record q { ticks = ticks }))
        self.slot_duration p (current_time_mono host q ticks h),
  )
