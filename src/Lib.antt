-- ===== src/Lib.antt =====
-- A verification library of the Rust SDK of Switchboard On-Demand for Solana: the crates under
-- solana/rust, switchboard-on-demand (the library that programs and oracles use, "on-demand" below),
-- switchboard-on-demand-client ("client" below), and of the Rust part of its Sail SDK, sail/sail-sdk.
--
-- The SDK reads the accounts of the Switchboard program, judges whether their data may be trusted, and
-- builds what is sent to the chain. An account is loaded (Account) as a feed (Feed), an oracle
-- (Oracle) or a queue (Queue). Oracles sign a checksum of a feed's value (Checksum); their signatures
-- are bundled for the secp256k1 program (Secp256k1); the instructions are put into transactions
-- (Transaction) that use lookup tables (Lut), which the client loads and caches (Luts); the client
-- also finds the gateways of a queue's oracles (Gateways), and an oracle's table is kept by
-- instructions of its own (LutInstructions), beside those for oracles, queues and randomness
-- (Instructions). An update (Updates) puts these together: it loads the feeds and their jobs through
-- the caches of its context (Context), asks a gateway for the oracles' answers (Answers), and makes of
-- them the instructions and the tables of a transaction; Submit encodes what is submitted. A client
-- also listens to the program's logs (Events), repeats what fails (Retry), draws randomness
-- (Randomness) and derives keys (Keys). The Sail SDK beside them attests to messages on a confidential
-- machine, checks such reports, and derives the machine's keys (Sail). Decimals and errors are shared
-- (Decimals, Error).
--
-- Which file models which part, by paths from solana/rust:
--   Error        switchboard-on-demand/src/on_demand/error.rs
--   Account      the discriminator test and the cast of switchboard-on-demand/src/client/utils.rs
--                and src/on_demand/accounts/*.rs: parse, new, fetch_zerocopy_account
--   Feed         switchboard-on-demand/src/on_demand/accounts/pull_feed.rs: the records, get_value,
--                value, is_result_vaild, the samples and their timestamps, lower_bound_median
--   Checksum     the same file and switchboard-on-demand-client/src/pull_feed.rs: generate_checksum,
--                generate_checksum_inner, generate_checksum_with_timestamp,
--                generate_combined_checksum
--   Oracle       switchboard-on-demand/src/on_demand/accounts/oracle.rs and on_demand/types.rs
--   Queue        switchboard-on-demand/src/on_demand/accounts/queue.rs
--   Gateways     switchboard-on-demand-client/src/accounts/queue.rs and oracle.rs, and test_gateway of
--                src/gateway.rs: fetch_oracle_accounts, fetch_gateways
--   Secp256k1    switchboard-on-demand-client/src/secp256k1.rs
--   Transaction  switchboard-on-demand/src/client/transaction_builder.rs
--   Lut          switchboard-on-demand-client/src/lut.rs
--   LutInstructions  OracleSyncLut and OracleResetLut of src/on_demand/instructions of the on-demand
--                crate, build_ix of src/utils.rs and find_lut_signer of src/sysvar/address_lookup_table.rs
--   Instructions the other instructions of switchboard-on-demand/src/on_demand/instructions: their
--                parameters and data (Params), their accounts (Accounts), and build_ix, invoke and
--                fetch_luts; State of on_demand/accounts/state.rs; fetch of
--                src/sysvar/address_lookup_table.rs
--   Luts         switchboard-on-demand-client/src/lut_owner.rs and fetch_and_cache_luts of
--                src/pull_feed.rs
--   Luts/Joined  the three fetches of tables that an update joins: all have read the cache before one
--                writes to it, and they end in any order, which is an argument
--   Answers      switchboard-on-demand-client/src/gateway.rs: the requests for signatures and the
--                records of their answers (those by several feeds or by the batch in Batches); fetch
--                of src/crossbar.rs; what src/pull_feed.rs reads of the answers
--   Crossbar     switchboard-on-demand-client/src/crossbar.rs, the other requests
--   Context      switchboard-on-demand-client/src/pull_feed.rs: SbContext, load_data and the cells of
--                the caches; src/recent_slothashes.rs
--   Submit       switchboard-on-demand-client/src/instructions/pull_feed_submit_response_ix.rs,
--                pull_feed_submit_response_consensus.rs and pull_feed_submit_response_many_ix.rs
--                (Many), get_solana_submit_signatures_ix of src/pull_feed.rs
--   Updates      switchboard-on-demand-client/src/pull_feed.rs: fetch_update_ix,
--                fetch_update_consensus_ix
--   Events       switchboard-on-demand/src/client/event_client.rs
--   Retry        the macros retry and blocking_retry of switchboard-on-demand/src/macros.rs
--   Randomness   switchboard-on-demand/src/on_demand/accounts/randomness.rs
--   Keys         keypair_from_base_seed, parse_optional_pubkey, ix_to_tx_v0 and
--                estimate_compute_units of switchboard-on-demand/src/client/utils.rs
--   Sail         sail/sail-sdk/src from the root of the repository: amd_sev_snp_attestation and keys
--   Decimals     switchboard-on-demand/src/decimal.rs
--   Prelude      what these share: sequences, results, byte strings, integers
--
-- A function keeps its Rust name. A method takes the record of its struct; one that changes it returns
-- the new record. A call ends in a value, an error or a panic (Outcome): an index out of range, an
-- unwrap of nothing, and an overflow in a build with overflow checks are panics. Whether a build has
-- these checks is an argument where the arithmetic of the code may overflow; without them
-- the result wraps, which is written out. Keys, hashes, texts and account data are byte strings.
-- Padding and reserved fields of accounts are left out.
--
-- What the code calls and does not contain is a parameter: SHA-256, the cast of bytemuck, the RPC node
-- (its answers, none for its error), rust_decimal, the types, the signing and the compilation of
-- solana-sdk, the decoders of base64, hex, base58 and JSON, what HTTP answers, the derivation of
-- addresses, the websocket. A hypothesis on such a parameter says what its library documents. An
-- update runs in a monad over the context of its caches (Prelude.Exec), which an error or a panic does
-- not undo. It takes the record of a feed of the on-demand crate for that of the client: the fields
-- that it reads are the same. The constant fields of the requests, what is printed for debugging, and
-- the alignment that the cast of the slot hashes asks for are left out. Loops are structural
-- recursion, but for Retry.retry_loop: its fuel is the number of attempts, or one, since each round
-- that goes on uses up an attempt.
--
-- Not modelled: the record of an oracle's statistics, the generated job types, the native
-- binding of Sail, the derivation of program addresses, floating point, the features that choose a
-- network, and the other languages.
pub mod Account
pub mod Answers
pub mod Checksum
pub mod Context
pub mod Crossbar
pub mod Decimals
pub mod Error
pub mod Events
pub mod Feed
pub mod Gateways
pub mod Instructions
pub mod Keys
pub mod Lut
pub mod LutInstructions
pub mod Luts
pub mod Oracle
pub mod Prelude
pub mod Queue
pub mod Randomness
pub mod Retry
pub mod Sail
pub mod Secp256k1
pub mod Submit
pub mod Transaction
pub mod Updates
