-- ===== src/Inherent/Parachains.antt =====
-- core/src/inherent/para_parachain.rs and relay_parachain.rs: the providers of the inherent data of a parachain
-- and of a relay chain, told apart by their prefixes. Their `try_handle_error` is `todo!()`.
use fudge.Prelude.{List, [], Result, ok, err, panic, InnerError, Action}
use fudge.Builder.Parachain.Chain.{FudgeParaBuild}

-- What Polkadot and Cumulus give: what stands in the inherent data of the two chains.
pub record ParaPrimitives : Type 1 where
  pub ParachainInherentData : Type 0
  pub Header : Type 0
  pub Bitfield : Type 0
  pub BackedCandidate : Type 0
  pub DisputeStatementSet : Type 0

-- `ParachainsInherentData`
pub record ParachainsInherentData (t : ParaPrimitives) : Type 0 where
  pub bitfields : List t.Bitfield
  pub backed_candidates : List t.BackedCandidate
  pub disputes : List t.DisputeStatementSet
  pub parent_header : t.Header

-- `InherentData::put_data` under the name that goes with what is put.
abbrev pub PutData : Type 0 → Type 0 → Type 0
PutData InherentData A = A → InherentData → Result InnerError InherentData

abbrev putting :
    {InherentData A : Type 0}
    → PutData InherentData A
    → A
    → Action InherentData InnerError (Unit {0})
putting put_data a d = elim (put_data a d) [
  | ok d' ↦ (ok tt, d')
  | err e ↦ (err e, d)
  | panic ↦ (panic, d)
]

pub record ParaInherent (t : ParaPrimitives) : Type 0 where
  pub inherent : t.ParachainInherentData

pub record DummyInherent (t : ParaPrimitives) : Type 0 where
  pub parent_head : t.Header

-- `Inherent` of relay_parachain.rs, less its handle of the client, which nothing reads.
pub record RelayInherent (t : ParaPrimitives) : Type 0 where
  pub para_builds : List FudgeParaBuild
  pub backed_candidates : List t.BackedCandidate
  pub parent_head : t.Header

abbrev no_candidates : {t : ParaPrimitives} → t.Header → ParachainsInherentData t
no_candidates parent_head = record {
  bitfields = [];
  backed_candidates = [];
  disputes = [];
  parent_header = parent_head;
}

module _ {InherentData : Type 0} {t : ParaPrimitives} where
  unfoldable pub para_provide_inherent_data :
      PutData InherentData t.ParachainInherentData
      → ParaInherent t
      → Action InherentData InnerError (Unit {0})
  para_provide_inherent_data put_data self = putting put_data self.inherent

  unfoldable pub dummy_provide_inherent_data :
      PutData InherentData (ParachainsInherentData t)
      → DummyInherent t
      → Action InherentData InnerError (Unit {0})
  dummy_provide_inherent_data put_data self = putting put_data (no_candidates self.parent_head)

  -- Builds and candidates are not read.
  unfoldable pub relay_provide_inherent_data :
      PutData InherentData (ParachainsInherentData t)
      → RelayInherent t
      → Action InherentData InnerError (Unit {0})
  relay_provide_inherent_data put_data self = putting put_data (no_candidates self.parent_head)
