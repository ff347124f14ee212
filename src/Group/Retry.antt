-- ===== src/Group/Retry.antt =====
-- The retry rows of a pending Commit: rust/src/local_group_state.rs over the opaque rows of
-- rust/src/snapshot_storage.rs. A method that takes the provider gives its result and the provider.
pub mod Rows
use openmls_dart.Prelude.{
  ℕ, ◌^◌, ◌%◌, ◌*◌, ◌≡◌, Bool, true, false, not, ◌&&◌, ◌||◌, Option, none, some, List, [], ◌∷◌,
  ◌++◌, length, Bytes, ascii, bytes_eq, to_be_bytes, ltb, ◌==◌, if◌then◌else◌, Result, ok, err,
  ◌>>=◌, ◌>>◌, guard, ok_or, is_some,
}
use openmls_dart.Storage.Snapshot.{
  SnapshotStorageProvider, read_opaque, write_opaque, delete_opaque,
}
use openmls_dart.Group.Errors.{
  MlsErrorCode, limit_exceeded, pending_binding_mismatch, pending_commit_missing,
}
use openmls_dart.Group.State.{LocalGroupState, PendingRecord, Checked, validate}

abbrev pub max_wire : ℕ
max_wire = 1024 * 1024

abbrev pub local_prefix : Bytes
local_prefix = ascii "OpenMlsDart/1/"

-- `group.len() as u16` keeps the low sixteen bits.
unfoldable pub key : Bytes → Bytes → Bytes
key group name = local_prefix ++ (name ++ (to_be_bytes 2 (length group % 2 ^ 16) ++ group))

abbrev pub commit_name : Bytes
commit_name = ascii "commit/"

abbrev pub welcome_name : Bytes
welcome_name = ascii "welcome/"

abbrev pub info_name : Bytes
info_name = ascii "info/"

-- `RetryBytes`.
pub record RetryBytes : Type 0 where
  pub commit : Bytes
  pub welcome : Option Bytes
  pub info : Option Bytes

-- `Some(wire)` is written, `None` deletes the row.
unfoldable pub put_wire :
    Bytes → Bytes → Option Bytes → SnapshotStorageProvider → SnapshotStorageProvider
put_wire group name (some wire) storage = write_opaque (key group name) wire storage
put_wire group name none storage = delete_opaque (key group name) storage

unfoldable pub clear_retry_rows :
    LocalGroupState → SnapshotStorageProvider → SnapshotStorageProvider
clear_retry_rows s storage = delete_opaque (key s.group_id info_name) (
    delete_opaque (key s.group_id welcome_name)
      (delete_opaque (key s.group_id commit_name) storage))

-- The three hashes of `validate_retry_rows`.
abbrev pub commit_hash : Option PendingRecord → Option Bytes
commit_hash none = none
commit_hash (some p) = some p.binding.commit_sha256

abbrev pub welcome_hash : Option PendingRecord → Option Bytes
welcome_hash none = none
welcome_hash (some p) = p.binding.welcome_sha256

abbrev pub info_hash : Option PendingRecord → Option Bytes
info_hash none = none
info_hash (some p) = p.binding.group_info_sha256

-- The loop that writes, behind the checks.
abbrev pub written :
    Bytes
    → Bytes
    → Option Bytes
    → Option Bytes
    → SnapshotStorageProvider
    → Checked
    → Checked × SnapshotStorageProvider
written group commit welcome info storage (err e) = (err e, storage)
written group commit welcome info storage (ok _) = (
  ok tt,
  put_wire group info_name info
      (put_wire group welcome_name welcome (put_wire group commit_name (some commit) storage)),
)

module _ (sha256 : Bytes → Bytes) where
  unfoldable pub validate_wire : Option Bytes → Option Bytes → Checked
  validate_wire none none = ok tt
  validate_wire (some w) (some h) = do
    guard (not (length w == 0 || ltb max_wire (length w))) limit_exceeded
    guard (bytes_eq (sha256 w) h) pending_binding_mismatch
  validate_wire none (some h) = err pending_binding_mismatch
  validate_wire (some w) none = err pending_binding_mismatch

  unfoldable pub write_checks : LocalGroupState → Bytes → Option Bytes → Option Bytes → Checked
  write_checks s commit welcome info = do
    validate sha256 s
    pending ← ok_or s.pending pending_commit_missing
    validate_wire (some commit) (some pending.binding.commit_sha256)
    validate_wire welcome pending.binding.welcome_sha256
    validate_wire info pending.binding.group_info_sha256

  unfoldable pub write_retry_rows :
      LocalGroupState
      → Bytes
      → Option Bytes
      → Option Bytes
      → SnapshotStorageProvider
      → Checked × SnapshotStorageProvider
  write_retry_rows s commit welcome info storage =
      written s.group_id commit welcome info storage (write_checks s commit welcome info)

  unfoldable pub validate_retry_rows : LocalGroupState → SnapshotStorageProvider → Checked
  validate_retry_rows s storage = do
    validate_wire (read_opaque (key s.group_id commit_name) storage) (commit_hash s.pending)
    validate_wire (read_opaque (key s.group_id welcome_name) storage) (welcome_hash s.pending)
    validate_wire (read_opaque (key s.group_id info_name) storage) (info_hash s.pending)

  unfoldable pub retry_bytes :
      LocalGroupState → SnapshotStorageProvider → Result MlsErrorCode RetryBytes
  retry_bytes s storage = do
    validate_retry_rows s storage
    guard (is_some s.pending) pending_commit_missing
    commit ← ok_or (read_opaque (key s.group_id commit_name) storage) pending_commit_missing
    ok (record {
      commit = commit;
      welcome = read_opaque (key s.group_id welcome_name) storage;
      info = read_opaque (key s.group_id info_name) storage;
    })
