-- ===== src/Digest.antt =====
-- core/src/digest: the digest items that mark a block with its slot, for Aura (aura.rs) and for Babe (babe.rs).
use fudge.Prelude.{
  ℕ, ◌/◌, ◌<◌, Option, none, some, List, [], ◌∷◌, ◌++◌, Result, ok, err, panic, InnerError, recast,
  ◌≡◌,
}
use fudge.Inherent.Timestamp.{Inherents}
pub mod Slots

-- What Substrate gives: what inherent data holds, the slot of a timestamp, and the items that carry a slot. A slot
-- duration is in milliseconds, a timestamp that was put is the one found, and a slot counts whole durations.
pub record Consensus (host : Inherents) : Type 1 where
  pub timestamp_inherent_data : host.InherentData → Result InnerError (Option ℕ)
  pub babe_inherent_data : host.InherentData → Result InnerError (Option ℕ)
  pub put_data-found :
      (time : ℕ) (d d' : host.InherentData)
      → host.put_data time d ≡ ok d'
      → timestamp_inherent_data d' ≡ ok (some time)
  pub from_timestamp : ℕ → ℕ → ℕ
  pub from_timestamp_lem :
      (time duration : ℕ) → 0 < duration → from_timestamp time duration ≡ time / duration
  pub DigestItem : Type 0
  pub aura_pre_digest : ℕ → DigestItem
  -- `PreRuntime(BABE_ENGINE_ID, SecondaryPlain { authority_index, slot }.encode())`
  pub babe_pre_digest : ℕ → ℕ → DigestItem

pub data Error : Type 0 where
  slot_duration_retrieval timestamp_inherent_data_retrieval babe_inherent_data_retrieval :
      InnerError → Error
  timestamp_inherent_data_not_found babe_inherent_data_not_found : Error

-- `.map_err(cast)?.ok_or_else(missing)?`
abbrev pub found :
    {A : Type 0} → (InnerError → Error) → Error → Result InnerError (Option A) → Result Error A
found cast missing (ok none) = err missing
found cast missing (ok (some a)) = ok a
found cast missing (err e) = err (cast e)
found cast missing panic = panic

abbrev pub item : {A B : Type 0} → (A → B) → Result Error A → Result Error B
item f (ok a) = ok (f a)
item f (err e) = err e
item f panic = panic

-- `Digest` of aura.rs
pub record AuraDigest : Type 0 where
  pub slot_duration : ℕ

module _ {host : Inherents} (c : Consensus host) where
  open host use {InherentData}
  open c use {DigestItem}

  -- `Digest::new`, of what `slot_duration(client)` gave
  unfoldable pub new_aura : Result InnerError ℕ → Result Error AuraDigest
  new_aura (ok slot_duration) = ok (record { slot_duration = slot_duration })
  new_aura (err e) = err (slot_duration_retrieval e)
  new_aura panic = panic

  -- `DigestProvider::digest`; neither provider reads the parent.
  unfoldable pub aura_digest : AuraDigest → InherentData → Result Error DigestItem
  aura_digest self inherents =
      item (λ timestamp. c.aura_pre_digest (c.from_timestamp timestamp self.slot_duration))
        (found timestamp_inherent_data_retrieval timestamp_inherent_data_not_found
          (c.timestamp_inherent_data inherents))

  unfoldable pub babe_digest : InherentData → Result Error DigestItem
  babe_digest inherents =
      item (λ slot. c.babe_pre_digest 0 slot)
        (found babe_inherent_data_retrieval babe_inherent_data_not_found
          (c.babe_inherent_data inherents))

  -- `build_digest` and `append_digest`, over a provider's `digest`; a digest is the list of its logs.
  unfoldable pub build_digest :
      (InherentData → Result Error DigestItem) → InherentData → Result Error (List DigestItem)
  build_digest digest inherents = item (λ i. i ∷ []) (digest inherents)

  unfoldable pub append_digest :
      (InherentData → Result Error DigestItem)
      → List DigestItem
      → InherentData
      → Result Error (List DigestItem)
  append_digest digest logs inherents = item (λ i. logs ++ (i ∷ [])) (digest inherents)
