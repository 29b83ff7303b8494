-- ===== src/Lib.antt =====
-- A model of the enclave signer's own logic, with its theorems. Paths are from the repository's
-- root.
--
-- The signer runs in an enclave. It keeps keys behind a lifecycle (`EnclaveState`), refuses
-- replayed requests (`NonceReplayGuard`), answers a repeated mint from a cache
-- (`SignedResultCache`), limits how often rights are refilled and headers are submitted
-- (`RefillRateLimit`, `SubmitRateLimiter`), and follows the Bitcoin chain by its headers
-- (`HeaderChain`), against which Merkle proofs of transactions are checked. A release takes these
-- proofs as its source (`validate_source_chain`): the blocks it used are pinned, and the pins are
-- checked again (`assert_unchanged`) just before the key is used. The proof in its calldata has to
-- name the same block, with the records of the relay contract (`verify_btc_relay_agreement`), and
-- the release pays what the burn of the consignment says (`apply_funds_out_binding`). Gas
-- transactions for Ethereum are decoded and held to the operator's pins
-- (`validate_gas_tx_request`). The envelope of the key service is converted from BER to DER
-- (`ber_to_der`). The burn signer (`handle_sign`) puts a release together: the source, an RGB burn
-- with its consignment and Merkle proofs; the destination, a call of the bridge with its pins and
-- deadline (`validate_destination`); the binds of the one to the other; and the signature of the
-- digest of EIP-712 (`digest_of`). Each component that keeps state guards it with its own lock, so
-- that other requests run between the steps of one. A connection (`process_connection`) reads one
-- framed request, whose elements are counted before it is decoded, and commits the replay key of
-- its dispatch once the response is written.
--
-- Files and what they model:
--   Error            enclave/src/error.rs: `EnclaveError` without its messages, the wire codes
--   Spv.Types        enclave/src/networks/rgb/spv/types.rs: `Network`, `SpvError`; the record
--                    `Bitcoin` holds what is used of the `bitcoin` crate
--   Spv.Validation   .../spv/validation.rs: the header rules and the required difficulty
--     Accept         `validate_header_full` against a record of the consensus rules
--     Median         the median time past and its rank
--   Spv.Chain        .../spv/chain.rs: `HeaderChain` and `submit_headers`
--     Links          linked lists of headers and the chain's invariant
--     Stage, Passed  what staging and the checks of a batch establish
--     Commit         what the writes of a batch do
--     Submit         the theorems of `submit_headers`
--     Reads          the theorems of `header_at`, `hash_at` and `confirmations`
--   Spv.Merkle       .../spv/merkle.rs: `verify_merkle_proof`
--     Tree           a block's Merkle tree, defined without the verifier
--     Sound          accepted proofs against that tree
--     Complete       the tree's own paths against the verifier
--   Spv.CrossCheck   .../rgb/spv_crosscheck.rs: `validate_source_chain` and `ChainPins`
--     Sets, Cover    lists of txids as sets; which transactions the proofs are for
--     Proven, Accept, Source   what an accepted proof, set of proofs and source establish
--     Pins, Recheck  what pinning records and what the second check reads
--     Later, Again, Unchanged  the chain after other requests, and the proofs on it
--   State.ReplayGuard   enclave/src/state/replay_guard.rs; Keys, Record and Replay are its proofs
--   State.ResultCache   enclave/src/state/result_cache.rs; Put and Replies are its proofs
--   State.RefillRate    enclave/src/state/refill_rate.rs; Window has its specification
--   State.SubmitRate    enclave/src/server/rate_limit.rs; Budget has its proofs
--   State.Enclave       enclave/src/state/enclave.rs, cloning_session.rs, the credential check of
--                       enclave/src/cloning.rs; Phases, Recovery, Quota and Strength are
--                       its proofs
--   Evm.Rlp          enclave/src/networks/evm/gas_tx.rs: the RLP decoder; Encode defines the
--                    encoding, Length and Frame have lemmas, Canonical and Total the theorems
--   Evm.GasTx        the same file: the gas transaction, its pins from enclave/src/config.rs and
--                    `validate_gas_tx_request`; Accept has the operator's rule as a record
--   Evm.LzOptions    enclave/src/networks/evm/lz_options.rs; Accept has the accepted form
--   Evm.Relay        enclave/src/networks/evm/crosscheck.rs: `verify_btc_relay_agreement`; Agreement
--                    says what it shows
--   Evm.Release      the binds of the same file with burn_destination.rs, enclave/src/networks/rgb/
--                    flow.rs and `apply_funds_out_binding` of enclave/src/server/sign.rs, as
--                    built with the features spv and bfa-mint; Bound says what is paid
--   Evm.Destination  enclave/src/networks/evm/validation.rs: `validate_destination`; Pins and Decoded
--                    have the checks one by one, Accept what is accepted
--   Evm.Signing      enclave/src/networks/evm/signing.rs and the burn id of validation.rs; Words,
--                    Structs and LzStruct read a buffer back, Binding and BurnId say what a hash commits to
--   Rgb.Source       enclave/src/networks/rgb/validation/source.rs and asset_bind.rs, the source side
--                    of enclave/src/networks/rgb/route.rs, `proven_witnesses` of spv_crosscheck.rs;
--                    Bind has its lemmas
--   Sign.Route       enclave/src/networks/route.rs: the pair of source and destination
--   Sign.Burn        `handle_sign` of enclave/src/server/sign.rs with the validators of route.rs and
--                    enclave/src/server/signers.rs, as built with burn-signer and spv; Kept, Steps
--                    and Released say what a signed release has passed
--   Config           enclave/src/config.rs: the relay mode and the pins that signing reads
--   Framing          enclave/src/framing.rs: the frames and the count of elements; Frames and Shape
--                    are its proofs
--   Connection       enclave/src/server/wire.rs: `process_connection`; Commit has its proof
--   Kms.Ber          enclave/src/kms/ber.rs: the conversion from BER to DER; Encoded reads back the
--                    encoder's lengths, Parsed says what a parsed node is, RoundTrip, Chunks and Total
--                    are the theorems
--   Prelude          shared names, lists, results, association lists, byte strings
--   Tests            concrete inputs
--
-- How the code is modelled. A function keeps the source's name; a method takes the state and gives
-- the new state with its answer. A method that takes a lock is one step, since it holds the lock to
-- its end; KMS recovery, which gives the lock up, is the steps between which other requests may
-- come. A panic aborts the process, so a lock is never poisoned. Times are numbers, passed in as
-- the source's `_at` functions do. Machine words keep their wrap-around where the source adds or
-- subtracts (`add32`, `sub32`), saturating operations are written out, and subtraction on ℕ stands
-- where the source saturates or has checked before. Hash maps are association lists, the pins among
-- them, whose order is not kept; the sum of the crate's `Work` wraps at 256 bits (`add_work`);
-- 32-byte hashes and keys are numbers where only equality matters, and byte lists where bytes are
-- read. `Vec::sort` is insertion sort. A loop is a function over the list it runs through. The
-- exceptions are the loops over nested values of the RLP decoder and of the BER parser: their fuel
-- is the length of what is left to read, and one more for indefinite lengths; every value takes a
-- byte at least, so this is enough, and the nesting depth is counted down from the source's own
-- limit. The walk over a request's elements has its length as fuel: each key takes a byte.
--
-- Parameters. The `bitcoin` crate's header parsing, hash, work, proof of work and retarget
-- arithmetic are the fields of `Bitcoin`; the double SHA-256 is a function whose results have 32
-- bytes where a theorem says so; key derivation and the handshake's key pair are the fields of
-- `Keys`; the prefix of a network is a function, as rgb-core has it; Keccak-256 is a function; the
-- type number of a burn, the hash of a destination record and the ABI code of the settlement are
-- the fields of `Codecs`; the ABI code of the two calls is the record `Abi`; the validation of a
-- consignment and the position of a witness are the record `RgbValidator`; the signature is a
-- field of `Signer`; prost's reading of keys, varints and fields is the record `Wire`, and its
-- encoding of a message the record `Codec`; the dispatcher of a connection is any function; what a
-- seed source answers is an argument of recovery. What the steps of one request find, the state,
-- the chain and the clock, is the record `Moments`.
--
-- Not modelled: logging and error messages, sockets, the KMS client, attestation documents,
-- signatures and encryption; the validation of a consignment (enclave/src/networks/rgb/validation/
-- consignment.rs and its neighbours, over the RGB library's types), whose answer is an argument of
-- which nothing is taken to hold; the PSBTs and the mint direction of `handle_sign`; the routing
-- of requests; the parent process and generated code.
pub mod Prelude
pub mod Error
pub mod Config
pub mod Connection
pub mod Framing
pub mod Evm
pub mod Rgb
pub mod Kms
pub mod Spv
pub mod State
pub mod Sign
mod Tests
