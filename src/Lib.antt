-- ===== src/Lib.antt =====
-- FUDGE: building and altering Substrate chains without a network.
--
-- The program is a library of builders. A builder owns a chain: a database, a client and a transaction
-- pool, which Substrate gives. Three kinds of chain share one core: a chain on its own, a parachain, and a
-- relay chain that drives parachains through their collators. Blocks carry a time that comes from
-- instances in a global map.
--
--   Inherent.Timestamp       core/src/inherent/timestamp.rs. `Globals` is INSTANCES with its lock's poison
--                            flag and COUNTER; force_new, create_instance, get_instance, update_time,
--                            current_time, provide_inherent_data and try_handle_error have the source's names.
--   Inherent.Parachains      core/src/inherent/para_parachain.rs and relay_parachain.rs: what their
--                            providers put.
--   Provider.Externalities   core/src/provider/externalities.rs: ExternalitiesProvider, with execute_with,
--                            execute_with_mut and execute_with_safe.
--   Provider.State           core/src/provider/state.rs: insert_storage of StateProvider; State.Opening
--                            has its constructors.
--   Provider.Backend         core/src/provider/backend.rs: MemDb and DiskDb; the prefixes mem_ and disk_ stand
--                            for with_ and tell their methods apart.
--   Provider.Initiator       core/src/provider/initiator.rs, and DefaultClient of provider/mod.rs: Init,
--                            FromConfiguration (whose with_pool_config is set_pool_config here).
--   Digest                   core/src/digest: aura_digest and babe_digest are the two `digest` methods.
--   Builder.Core             core/src/builder/core.rs: Builder. Core.State has with_state, its two modes as
--                            with_commit and with_dry_run, and all that writes changes back; Core.Blocks has
--                            extrinsics, building and importing.
--   Builder.Common           what the three builders repeat: the fold of append_extrinsics, and build_block
--                            up to the proposal (propose_block).
--   Builder.StandAlone       core/src/builder/stand_alone.rs: StandAloneBuilder.
--   Builder.Parachain        core/src/builder/parachain.rs: FudgeCollator in Collator, ParachainBuilder in
--                            Chain. Both reach one world and one BlockStorage (`collator`, `shared`).
--   Builder.RelayChain       core/src/builder/relay_chain.rs: Onboarding has the storage that onboard_para and
--                            update_para_head write, Collations has collect_collations and
--                            force_enact_collations, Chain has RelaychainBuilder's other operations,
--                            Interface has FudgeRelayChainProcessInterface's header and wait_for_block, and
--                            Interface.Calls its other methods and parachain_inherent of InherentBuilder.
--   Builder.Companion        core/src/builder/companion: Parse has the macro's reading of the struct
--                            (CompanionDef, parse_struct, parse_field), Expand what `expand` puts together
--                            before it writes (impl_companion_gen, get_crate_with_name, and the helpers of
--                            parse/parachain.rs in Parse.Helper), Generated the code it writes: new,
--                            append_extrinsic(s), with_state, with_mut_state and evolve, with `dispatch` for
--                            the match on a parachain's id and `evolve_one` for what evolve repeats.
--   Prelude                  results, actions on a state, maps and lists, shared by all.
--   Examples                 a small storage, node and runtime, and the theorems applied on them.
--
-- A method is an action: it takes the state and gives a result with the new state. A result is ok, err or
-- panic, and what was written before an error or a panic stays written. `with_state` of the source takes
-- the mode as an argument; on the chain builders, with_state_of stands for with_state and with_state_at,
-- and with_mut_state for with_mut_state and with_mut_state_at, with the block as an option.
--
-- Substrate, Polkadot and Cumulus are parameters: the record `Node` (Node.antt) for the types, database,
-- client, pool, executor and proposer, `Primitives` and `Cumulus` (Builder/Parachain.antt) for what a
-- collation needs, `Runtime` (Builder/RelayChain.antt) for the relay chain's storage and calls, `Host`
-- (Builder/RelayChain/Interface/Calls.antt) for what the interface asks, `Inherents` (Inherent/Timestamp.antt)
-- for inherent data, `Consensus` (Digest.antt) for slots and digest items, `Databases` and `Services`
-- (Provider) for what is set up, `Syn` (Builder/Companion/Parse.antt) for the tokens of a struct. `Runtime`
-- assumes that an item reads as what was last put under its key, and that equality of code hashes decides;
-- `Inherents` that saturated_into stops at the largest u64; `Consensus` that a timestamp that was put is the
-- one found and that a slot counts whole durations. Nothing is assumed of `Node`, except where a theorem takes
-- a `Database` (Builder/Core/Database.antt): its laws say that the drained changes are those of the overlay,
-- that a backend operation carries them, and that a committed operation makes the state of the best block;
-- and where a theorem takes a `Heights` (Builder/Core/Heights.antt): its laws say that a revert takes back as
-- many blocks as it is asked for, down to genesis, that a revert or a commit that is refused leaves the chain
-- as high as it was, that starting an operation leaves the best and the final block, and that the number found
-- for the best block is its own.
--
-- A companion's parachains are a list of `Member`s, each with its own node. Their builders live in one place `G`
-- beside the relay chain's builder, which reaches them through the boxed collators; a member's `get` and `put`
-- find its builder there. That a builder that was put is the one found, and that other members' are not
-- changed by it, are hypotheses of the theorems that need them.
--
-- Integers are natural numbers: the tick count wraps at 2^128, or panics where overflow is checked, the
-- counter wraps at 2^64, and a core index is checked against 2^32. No fuel is used: every loop is over a
-- list.
--
-- Not modelled: logging; the constructors' calls of the initiator, whose results are arguments; the
-- constant fields of candidates; is_major_syncing and overseer_handle of FudgeRelayChainProcessInterface,
-- which give what a handle answers; try_handle_error of the parachain inherents, which is todo!();
-- assimilate_storage of the state provider; and of the
-- companion macro the tokens that it writes, and in the written code the fields that are no builders.
pub mod Prelude
pub mod Inherent
pub mod Builder
pub mod Node
pub mod Provider
pub mod Digest
pub mod Examples
