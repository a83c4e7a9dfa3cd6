-- ===== src/Builder/Parachain.antt =====
-- core/src/builder/parachain.rs: a parachain's builder, and the collator that shares its chain and
-- its block storage and is driven by the relay chain.
use fudge.Prelude.{
  ℕ, Bool, true, false, Option, none, some, List, Result, ok, err, InnerError, Action,
  if◌then◌else◌,
}
use fudge.Node.{Node, BlockId, Bytes}
use fudge.Builder.Core
pub mod Collator
pub mod Chain
pub mod Judging
pub mod Moves
pub mod Reading
pub mod Stages

-- The primitives of Polkadot that relay chain and parachains share: the messages as a runtime gives
-- them and in the bounded vectors of a collation, and the validation data.
pub record Primitives : Type 1 where
  pub Messages : Type 0
  pub UpwardMessages : Type 0
  pub HorizontalMessages : Type 0
  pub bound_upward : Messages → Option UpwardMessages
  pub bound_horizontal : Messages → Option HorizontalMessages
  pub PersistedValidationData : Type 0
  pub parent_head : PersistedValidationData → Bytes

pub record CollationInfo (t : Primitives) : Type 0 where
  pub upward_messages : t.Messages
  pub horizontal_messages : t.Messages
  pub new_validation_code : Option Bytes
  pub processed_downward_messages : ℕ
  pub hrmp_watermark : ℕ
  pub head_data : Bytes

pub record Collation (t : Primitives) : Type 0 where
  pub upward_messages : t.UpwardMessages
  pub new_validation_code : Option Bytes
  pub processed_downward_messages : ℕ
  pub horizontal_messages : t.HorizontalMessages
  pub hrmp_watermark : ℕ
  pub head_data : Bytes
  -- `MaybeCompressedPoV::Raw(PoV { block_data })`
  pub proof_of_validity : Bytes

-- What the collator takes from Cumulus: the codec, the compact proof and the runtime's interface
-- `CollectCollationInfo`.
pub record Cumulus (t : Primitives) (n : Node) : Type 1 where
  pub CompactProof : Type 0
  pub decode_header : Bytes → Result InnerError n.Header
  pub encode_header : n.Header → Bytes
  pub encode_block : n.Block → Bytes
  pub state_root : n.Header → n.Hash
  pub extrinsics : n.Block → List n.Extrinsic
  pub into_compact_proof : n.StorageProof → n.Hash → Result InnerError CompactProof
  -- `ParachainBlockData::new(…).encode()`
  pub encode_block_data : n.Header → List n.Extrinsic → CompactProof → Bytes
  pub CollationInfoV1 : Type 0
  pub api_version : n.Hash → n.World → Result InnerError (Option ℕ)
  pub collect_before_v2 : n.Hash → n.World → Result InnerError CollationInfoV1
  pub into_latest : Bytes → CollationInfoV1 → CollationInfo t
  pub collect : n.Hash → n.Header → n.World → Result InnerError (CollationInfo t)

-- `CollationInfoCollection` boxes an error of the client or one of this type; it is two constructors.
pub data Error (n : Node) : Type 0 where
  core_builder : Core.Error n → Error n
  initiator : InnerError → Error n
  api_version_retrieval : BlockId n.Hash → InnerError → Error n
  api_version_not_found : BlockId n.Hash → Error n
  collation_info_collection_before_v2 : BlockId n.Hash → InnerError → Error n
  collation_info_collection_inner : BlockId n.Hash → InnerError → Error n
  collation_info_collection : BlockId n.Hash → Error n → Error n
  collation_info_not_found : BlockId n.Hash → Error n
  inherent_data_providers_creation inherent_data_creation digest_creation : InnerError → Error n
  next_block_lock_poisoned : InnerError → Error n
  next_block_not_found : Error n
  next_import_lock_poisoned : InnerError → Error n
  head_data_decoding : InnerError → Error n
  compact_proof_creation : InnerError → Error n
  upward_messaging_casting horizontal_messaging_casting : Error n

-- The boxed errors of a collator: its own, or a text.
pub data Boxed (n : Node) : Type 0 where
  own : Error n → Boxed n
  text : InnerError → Boxed n

pub record BlockStorage (n : Node) : Type 0 where
  pub next_block : Option (n.Block × n.StorageProof)
  pub next_import : Option (n.Block × n.StorageProof)

-- `Mutex<BlockStorage>`: the storage, and whether a holder of the lock has panicked.
pub record Mutex (n : Node) : Type 0 where
  pub storage : BlockStorage n
  pub poisoned : Bool

abbrev pub poison_message : InnerError
poison_message = "poisoned lock: another task failed inside"

module _ (n : Node) where
  abbrev pub default_storage : BlockStorage n
  default_storage = record { next_block = none; next_import = none }

  abbrev pub set_next_block : Option (n.Block × n.StorageProof) → BlockStorage n → BlockStorage n
  set_next_block block s = record s { next_block = block }

  abbrev pub set_next_import : Option (n.Block × n.StorageProof) → BlockStorage n → BlockStorage n
  set_next_import import_ s = record s { next_import = import_ }

-- The handles that builder and collator share.
pub record FudgeCollator (n : Node) : Type 0 where
  pub world : n.World
  pub block_storage : Mutex n

-- `block_storage.lock().map_err(cast)?`
abbrev pub lock_storage :
    (n : Node) {E : Type 0} → (InnerError → E) → Action (FudgeCollator n) E (BlockStorage n)
lock_storage n cast s =
    (if s.block_storage.poisoned then err (cast poison_message) else ok s.block_storage.storage, s)

abbrev pub put_storage :
    (n : Node) {E : Type 0} → BlockStorage n → Action (FudgeCollator n) E (Unit {0})
put_storage n storage s = (
  ok tt,
  record s { block_storage = record { storage = storage; poisoned = s.block_storage.poisoned } },
)
