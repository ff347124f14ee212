-- ===== src/Group/Retry/Rows.antt =====
-- What the retry rows of rust/src/local_group_state.rs hold after they are written and cleared.
use openmls_dart.Prelude.{
  ◌≡◌, ◌⊎◌, inl, inr, refl, ◌∙◌, false, Option, none, some, Bytes, bytes_eq, bytes_eq_refl,
  bytes_eq_comm, if◌then◌else◌, ok, err, Result-cases, Option-cases, >>-eq-ok,
}
use openmls_dart.Storage.Rows.{get-insert, get-remove}
use openmls_dart.Storage.Snapshot.{
  SnapshotStorageProvider, read_opaque, write_opaque, delete_opaque,
}
use openmls_dart.Group.Errors.{MlsErrorCode}
use openmls_dart.Group.State.{LocalGroupState, PendingRecord, validate}
use openmls_dart.Group.Retry.{
  key, commit_name, welcome_name, info_name, put_wire, validate_wire, write_checks,
  write_retry_rows, validate_retry_rows, retry_bytes,
}

read-put_wire :
    (g name : Bytes) (wire : Option Bytes) (j : Bytes) (p : SnapshotStorageProvider)
    → read_opaque j (put_wire g name wire p)
      ≡ (if bytes_eq (key g name) j then wire else read_opaque j p)
unfolding put_wire read_opaque write_opaque delete_opaque
read-put_wire g name (some w) j p = get-insert (key g name) j w p.current
read-put_wire g name none j p = get-remove (key g name) j p.current

commit-ne-welcome : (g : Bytes) → bytes_eq (key g commit_name) (key g welcome_name) ≡ false
unfolding bytes_eq key
commit-ne-welcome g = refl

commit-ne-info : (g : Bytes) → bytes_eq (key g commit_name) (key g info_name) ≡ false
unfolding bytes_eq key
commit-ne-info g = refl

welcome-ne-info : (g : Bytes) → bytes_eq (key g welcome_name) (key g info_name) ≡ false
unfolding bytes_eq key
welcome-ne-info g = refl

-- The storage with all three rows put.
abbrev put_all :
    Bytes → Bytes → Option Bytes → Option Bytes → SnapshotStorageProvider → SnapshotStorageProvider
put_all g commit welcome info p =
    put_wire g info_name info
      (put_wire g welcome_name welcome (put_wire g commit_name (some commit) p))

-- What one row of three holds: the first key of the list that it has decides.
abbrev pub row_after :
    Bytes → Bytes → Option Bytes → Option Bytes → Option Bytes → Option Bytes → Option Bytes
row_after g j commit welcome info old =
    if bytes_eq (key g info_name) j
    then info
    else if bytes_eq (key g welcome_name) j
    then welcome
    else if bytes_eq (key g commit_name) j
    then commit
    else old

read-put_all :
    (g commit : Bytes) (welcome info : Option Bytes) (j : Bytes) (p : SnapshotStorageProvider)
    → read_opaque j (put_all g commit welcome info p)
      ≡ row_after g j (some commit) welcome info (read_opaque j p)
read-put_all g commit welcome info j p = rw (
  read-put_wire g info_name info j
      (put_wire g welcome_name welcome (put_wire g commit_name (some commit) p)),
  read-put_wire g welcome_name welcome j (put_wire g commit_name (some commit) p),
  read-put_wire g commit_name (some commit) j p,
)

module _ (g commit : Bytes) (welcome info : Option Bytes) (p : SnapshotStorageProvider) where
  read_commit : read_opaque (key g commit_name) (put_all g commit welcome info p) ≡ some commit
  read_commit =
      read-put_all g commit welcome info (key g commit_name) p
      ∙ rw (
        bytes_eq_comm (key g info_name) (key g commit_name),
        commit-ne-info g,
        bytes_eq_comm (key g welcome_name) (key g commit_name),
        commit-ne-welcome g,
        bytes_eq_refl (key g commit_name),
      )

  read_welcome : read_opaque (key g welcome_name) (put_all g commit welcome info p) ≡ welcome
  read_welcome =
      read-put_all g commit welcome info (key g welcome_name) p
      ∙ rw (
        bytes_eq_comm (key g info_name) (key g welcome_name),
        welcome-ne-info g,
        bytes_eq_refl (key g welcome_name),
      )

  read_info : read_opaque (key g info_name) (put_all g commit welcome info p) ≡ info
  read_info =
      read-put_all g commit welcome info (key g info_name) p ∙ rw (bytes_eq_refl (key g info_name))

module _ (sha256 : Bytes → Bytes) (s : LocalGroupState) (commit : Bytes)
    (welcome info : Option Bytes) (p : SnapshotStorageProvider) where
  -- Writing the retry rows is all or nothing. Either every check passes, and then the commit row
  -- holds the commit, the welcome and info rows hold their wires or are gone, and every other row is
  -- as it was; or there is an error, and the storage is as it was.
  pub write_retry_rows_atomic :
      ((write_checks sha256 s commit welcome info ≡ ok tt)
        × ((write_retry_rows sha256 s commit welcome info p).0 ≡ ok tt)
        × ((j : Bytes)
            → read_opaque j (write_retry_rows sha256 s commit welcome info p).1
              ≡ row_after s.group_id j (some commit) welcome info (read_opaque j p)))
      ⊎ ((e : MlsErrorCode) × (write_retry_rows sha256 s commit welcome info p ≡ (err e, p)))
  unfolding write_retry_rows
  write_retry_rows_atomic = elim (Result-cases (write_checks sha256 s commit welcome info)) [
    | inl passed ↦
        inl (passed, rw passed, λ j. rw passed (read-put_all s.group_id commit welcome info j p))
    | inr (e, failed) ↦ inr (e, rw failed)
  ]

  checked_wires :
      write_checks sha256 s commit welcome info ≡ ok tt
      → (pending : PendingRecord) × (s.pending ≡ some pending)
        × (validate_wire sha256 (some commit) (some pending.binding.commit_sha256) ≡ ok tt)
        × (validate_wire sha256 welcome pending.binding.welcome_sha256 ≡ ok tt)
        × (validate_wire sha256 info pending.binding.group_info_sha256 ≡ ok tt)
  unfolding write_checks
  checked_wires h = elim (Option-cases s.pending) [
    | inl gone ↦ absurd (missing gone)
    | inr (pending, there) ↦
        let (_, h₁) = >>-eq-ok (validate sha256 s) _ h in
        let (c, h₂) =
          >>-eq-ok (validate_wire sha256 (some commit) (some pending.binding.commit_sha256)) _
            (rw there at h₁) in
        let (w, i) = >>-eq-ok (validate_wire sha256 welcome pending.binding.welcome_sha256) _ h₂ in
        (pending, there, c, w, i)
  ]
    where
      missing : s.pending ≡ none → ⊥
      missing gone = cc (rw gone at ((>>-eq-ok (validate sha256 s) _ h).1))

  -- What was written is what a retry reads: after a successful write the retry bytes are the commit,
  -- the welcome and the group info that were given.
  pub retry_bytes-write_retry_rows :
      (write_retry_rows sha256 s commit welcome info p).0 ≡ ok tt
      → retry_bytes sha256 s (write_retry_rows sha256 s commit welcome info p).1
        ≡ ok (record { commit = commit; welcome = welcome; info = info })
  unfolding write_retry_rows retry_bytes validate_retry_rows
  retry_bytes-write_retry_rows h = elim (Result-cases (write_checks sha256 s commit welcome info)) [
    | inr (e, failed) ↦ absurd (cc (rw failed at h))
    | inl passed ↦
        let (pending, there, c, w, i) = checked_wires passed in
        rw (
          passed,
          there,
          read_commit s.group_id commit welcome info p,
          read_welcome s.group_id commit welcome info p,
          read_info s.group_id commit welcome info p,
          c,
          w,
          i,
        )
  ]
