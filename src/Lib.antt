-- ===== src/Lib.antt =====
-- The storage boundary, the local group state and the account bundles of openmls_dart.
--
-- The Rust half of the package runs every MLS operation on rows that the caller owns. The caller
-- hands over its rows, the operation runs OpenMLS over an in-memory storage of them, and one batch of
-- changes goes back, which the caller writes in one transaction. Beside the MLS rows the package keeps
-- its own state of each group: the current roster, the past rosters that are retained, and the Commit
-- that is being prepared, with its wire bytes. Account envelopes give an account a bundle of keys, kept
-- in a private form and published in a signed public form.
--
-- Prelude      shared lemmas on lists, results and byte strings. A byte string is a list of numbers.
-- Storage      the storage of an operation.
--   Rows       the HashMap of rust/src/snapshot_storage.rs as an association list.
--   Labels     its labels, GLOBAL_LABELS, is_global_key, build_key.
--   Snapshot   SnapshotStorageProvider: from_entries, kv_*, *_opaque, snapshot_entries, into_updates.
--   Typed      read_val, write_val, delete_val and the list helpers, over serde_json as a parameter.
--   Provider   the methods of its implementation of OpenMLS' StorageProvider trait; Objects gathers the
--              fourteen objects of one value, Lists has the list rows and the epoch key pairs.
--   Batch      rust/src/api/storage.rs: validate_storage_entries, provider_from_entries,
--              batch_from_provider, batch_from_updates.
-- Group        the state of a group.
--   Roster     rust/src/api/group_e2ee.rs: roster leaves, their check and their digest.
--   State      rust/src/local_group_state.rs: LocalGroupState with validate, new, advance and
--              message_roster. A method on `&mut self` gives its result and the state.
--   Retry      its retry rows: write_retry_rows, clear_retry_rows, retry_bytes.
-- Account      rust/src/api/account_envelope.
--   Types      constants, error codes, states, kinds and reasons of types.rs.
--   Cursor     the Cursor of codec.rs, as what remains of its input; Laws reads back what is written,
--              Reads and Steps take a successful reading apart.
--   PrivateBundle, PublicBundle
--              the encoders and parsers of codec.rs.
--   Crypto     crypto.rs: signing over domains, the key self-test, sealing, over a provider.
--   Bundles    mod.rs: generate_key_bundle_v1, create_self_signed_public_bundle_v1,
--              authorize_successor_public_bundle_v1, verify_canonical_public_bundle_v1.
--   Continuity mod.rs: verify_continuity_response_v1, which follows a pinned bundle to a later one.
--   Text, CaseFold
--              the characters of a text with their UTF-8 encoding; the table of unicode17_casefold.rs
--              and the binary search of default_case_fold.
--   Invitation invitation.rs: the header, the envelope and the preview of a context invitation.
--   Sealing    mod.rs: seal_context_invitation_preview_v1 and its opening.
-- Receive      rust/src/native_receive_v1.rs.
--   Frame      the frame header: decode_header, encode_frame_with_max.
--   Preflight  preflight_cbor, by the number of levels that are left.
-- Tests        concrete runs.
--
-- Numbers are natural numbers; where the source checks a width (`checked_add`, `u32::try_from`) the
-- model has the bound written out, and where it casts, the remainder. The binary search of
-- the case folding has fuel, the length of its table, which is enough since every round leaves fewer
-- rows; every other loop is over a list, and the cursor reads fixed lengths. Errors that are message strings in the
-- source are one constructor for each message.
--
-- Parameters: SHA-256, serde_json, the crypto provider of account envelopes (HPKE, Ed25519 and key
-- generation; a call that draws randomness takes its entropy), the normalization of
-- Unicode texts, and the OpenMLS types that the storage trait stores. Not modelled:
-- the MLS protocol, which is the OpenMLS library; zeroization and locks; the payloads of the receive
-- frames of rust/src/native_receive_v1.rs, and its successors, resynchronisation, and the generated bridge.
pub mod Prelude
pub mod Storage
pub mod Group
pub mod Account
pub mod Receive
mod Tests
