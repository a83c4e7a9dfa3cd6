-- ===== src/Builder/Parachain/Collator.antt =====
-- core/src/builder/parachain.rs: `FudgeCollator`, which offers the built block as a collation and
-- takes the relay chain's judgement of it.
use fudge.Prelude.{
  Option, none, some, Action, ◌>>=◌, ◌>>◌, pure, or_throw, map_err, asks, lift, recast, ltb,
  if◌then◌else◌,
}
use fudge.Node.{Node, hash, Bytes}
use fudge.Builder.Parachain.{
  Primitives, Cumulus, CollationInfo, Collation, Error, Boxed, own, text, FudgeCollator,
  lock_storage, put_storage, set_next_block, set_next_import, api_version_retrieval,
  api_version_not_found, collation_info_collection_before_v2, collation_info_collection_inner,
  collation_info_collection, collation_info_not_found, next_block_lock_poisoned,
  next_block_not_found, head_data_decoding, compact_proof_creation, upward_messaging_casting,
  horizontal_messaging_casting,
}

pub data CollationJudgement : Type 0 where
  approved rejected : CollationJudgement

module _ {t : Primitives} (n : Node) (c : Cumulus t n) where
  abbrev before_v2 : n.Hash → n.Header → Action (FudgeCollator n) (Error n) (CollationInfo t)
  before_v2 block_hash header = do
    info ← asks (λ s.
        recast (collation_info_collection_before_v2 (hash block_hash))
          (c.collect_before_v2 block_hash s.world))
    pure (c.into_latest (c.encode_header header) info)

  abbrev since_v2 : n.Hash → n.Header → Action (FudgeCollator n) (Error n) (CollationInfo t)
  since_v2 block_hash header = asks (λ s.
      recast (collation_info_collection_inner (hash block_hash))
        (c.collect block_hash header s.world))

  unfoldable pub fetch_collation_info :
      n.Hash → n.Header → Action (FudgeCollator n) (Error n) (Option (CollationInfo t))
  fetch_collation_info block_hash header = do
    api_version ←
        asks
          (λ s. recast (api_version_retrieval (hash block_hash)) (c.api_version block_hash s.world))
    api_version ← or_throw api_version (api_version_not_found (hash block_hash))
    collation_info ←
        if ltb api_version 2 then before_v2 block_hash header else since_v2 block_hash header
    pure (some collation_info)

  -- The collation of a block, once its information is at hand.
  abbrev finish : Bytes → CollationInfo t → Action (FudgeCollator n) (Boxed n) (Collation t)
  finish block_data info = do
    upward ← or_throw (t.bound_upward info.upward_messages) (own upward_messaging_casting)
    horizontal ←
        or_throw (t.bound_horizontal info.horizontal_messages) (own horizontal_messaging_casting)
    pure (record {
      upward_messages = upward;
      new_validation_code = info.new_validation_code;
      processed_downward_messages = info.processed_downward_messages;
      horizontal_messages = horizontal;
      hrmp_watermark = info.hrmp_watermark;
      head_data = info.head_data;
      proof_of_validity = block_data;
    })

  abbrev collate :
      t.PersistedValidationData
      → n.Block
      → n.StorageProof
      → Action (FudgeCollator n) (Boxed n) (Collation t)
  collate validation_data block proof = do
    last_head ←
        lift (
          recast (λ e. own (head_data_decoding e))
            (c.decode_header (t.parent_head validation_data)))
    compact_proof ← lift (
        recast (λ e. own (compact_proof_creation e))
          (c.into_compact_proof proof (c.state_root last_head)))
    let block_data = c.encode_block_data (n.header_of block) (c.extrinsics block) compact_proof
    let block_hash = n.hash_of (n.header_of block)
    info ←
        map_err (λ e. own (collation_info_collection (hash block_hash) e))
          (fetch_collation_info block_hash (n.header_of block))
    info ← or_throw info (own (collation_info_not_found (hash block_hash)))
    finish block_data info

  unfoldable pub create_collation :
      t.PersistedValidationData → Action (FudgeCollator n) (Boxed n) (Option (Collation t))
  unfolding fetch_collation_info
  create_collation validation_data = do
    storage ← lock_storage n text
    elim storage.next_block [
      | none ↦ pure none
      | some (block, proof) ↦ collate validation_data block proof >>= λ r. pure (some r)
    ]

  -- The state of the latest block is only asked to be there.
  unfoldable pub collation :
      t.PersistedValidationData → Action (FudgeCollator n) (Boxed n) (Option (Collation t))
  unfolding create_collation
  collation validation_data = do
    asks (λ s. recast text (n.state_at (n.best_hash s.world) s.world))
    create_collation validation_data

module _ (n : Node) where
  unfoldable pub approve : Action (FudgeCollator n) (Boxed n) (Unit {0})
  approve = do
    storage ← lock_storage n (λ e. own (next_block_lock_poisoned e))
    build ← or_throw storage.next_block (own next_block_not_found)
    put_storage n (set_next_import n (some build) (set_next_block n none storage))

  unfoldable pub reject : Action (FudgeCollator n) (Boxed n) (Unit {0})
  reject = do
    storage ← lock_storage n (λ e. own (next_block_lock_poisoned e))
    put_storage n (set_next_block n none storage)

  unfoldable pub judge : CollationJudgement → Action (FudgeCollator n) (Boxed n) (Unit {0})
  unfolding approve reject
  judge approved = approve
  judge rejected = reject
