-- ===== src/Group/State/WellFormed.antt =====
-- What `LocalGroupState::validate` of rust/src/local_group_state.rs admits.
use openmls_dart.Prelude.{
  ℕ, suc, ◌+◌, ◌-◌, ◌≤◌, ◌≡◌, ◌⊎◌, refl, Bool, ◌&&◌, ◌||◌, List, [], ◌∷◌, length, Bytes, bytes_eq,
  bytes_eq_iff, bytes_eq_refl, arith, leb, ◌==◌, ok, guard, guard-eq-ok, guard-true, >>-eq-ok,
  eq_of_bytes_eq, &&-eq-true, ==_iff, ==_refl,
}
use openmls_dart.Group.Errors.{invalid_storage_snapshot, limit_exceeded, unsupported_retention}
use openmls_dart.Group.Roster.{MlsRosterSummaryV1}
use openmls_dart.Group.State.{
  LocalGroupState, fixed, opaque_id, validate_retention, validate_roster, validate_history,
  validate_pending, validate, history_count,
}

module _ (sha256 : Bytes → Bytes) where
  -- Valid rosters of one group, with consecutive epochs from `epoch` on.
  abbrev pub HistoryFrom : Bytes → ℕ → List MlsRosterSummaryV1 → Type 0
  HistoryFrom g epoch [] = Unit
  HistoryFrom g epoch (r ∷ rs) =
      ((validate_roster sha256 r ≡ ok tt) × (r.group_id ≡ g) × (r.epoch ≡ epoch))
      × HistoryFrom g (suc epoch) rs

  -- The history is the unbroken run of the newest past epochs since the join, as many as are retained.
  pub record IsWellFormed (s : LocalGroupState) : Type 0 where
    pub retention_known : (s.retention ≡ 2) ⊎ (s.retention ≡ 4)
    pub group_length : length s.group_id ≡ 16
    pub incarnation_length : (1 ≤ length s.incarnation_id) × (length s.incarnation_id ≤ 128)
    pub current_valid : validate_roster sha256 s.current ≡ ok tt
    pub current_group : s.current.group_id ≡ s.group_id
    pub joined : s.join_epoch ≤ s.current.epoch
    pub window : length s.history ≡ history_count s
    pub past : HistoryFrom s.group_id (s.current.epoch - history_count s) s.history
    pub pending_valid : validate_pending sha256 s s.pending ≡ ok tt

  -- `epoch` is the epoch that the loop expects at `index`.
  history_admitted :
      (s : LocalGroupState) (index epoch : ℕ) (rs : List MlsRosterSummaryV1)
      → epoch ≡ s.current.epoch - history_count s + index
      → validate_history sha256 s index rs ≡ ok tt
      → HistoryFrom s.group_id epoch rs
  unfolding validate_history
  history_admitted s index epoch [] e h = tt
  history_admitted s index epoch (r ∷ rs) e h =
      let (valid, h') = >>-eq-ok (validate_roster sha256 r) _ h in
      let (placed, rest) =
        >>-eq-ok (guard (bytes_eq r.group_id s.group_id && expected_here) invalid_storage_snapshot)
          _ h' in
      let (group, here) = &&-eq-true _ _ (guard-eq-ok _ _ placed) in
      (
        (valid, eq_of_bytes_eq _ _ group, ground arith),
        history_admitted s (suc index) (suc epoch) rs (omega arith) rest,
      )
    where
      expected_here : Bool
      expected_here = r.epoch == s.current.epoch - history_count s + index

  history_admits :
      (s : LocalGroupState) (index epoch : ℕ) (rs : List MlsRosterSummaryV1)
      → epoch ≡ s.current.epoch - history_count s + index
      → HistoryFrom s.group_id epoch rs
      → validate_history sha256 s index rs ≡ ok tt
  unfolding validate_history
  history_admits s index epoch [] e h = refl
  history_admits s index epoch (r ∷ rs) e ((valid, group, here), rest) =
      rw (valid, group, bytes_eq_refl s.group_id, here, ← e, ==_refl epoch)
        (history_admits s (suc index) (suc epoch) rs (omega arith) rest)

  pub validate-IsWellFormed : (s : LocalGroupState) → validate sha256 s ≡ ok tt → IsWellFormed s
  unfolding validate validate_retention fixed opaque_id
  validate-IsWellFormed s h =
      let (retention, h₁) = >>-eq-ok (validate_retention s.retention) _ h in
      let (group_length, h₂) = >>-eq-ok (fixed s.group_id 16) _ h₁ in
      let (incarnation, h₃) = >>-eq-ok (opaque_id s.incarnation_id) _ h₂ in
      let (current_valid, h₄) = >>-eq-ok (validate_roster sha256 s.current) _ h₃ in
      let (joined, h₅) =
        >>-eq-ok
          (guard (bytes_eq s.current.group_id s.group_id && leb s.join_epoch s.current.epoch)
            invalid_storage_snapshot)
          _ h₄ in
      let (window, h₆) =
        >>-eq-ok (guard (length s.history == history_count s) invalid_storage_snapshot) _ h₅ in
      let (past, pending_valid) = >>-eq-ok (validate_history sha256 s 0 s.history) _ h₆ in
      let (same_group, join_le) = &&-eq-true _ _ (guard-eq-ok _ _ joined) in
      record {
        retention_known = ground (arith, guard-eq-ok _ _ retention);
        group_length = ground (arith, guard-eq-ok _ _ group_length);
        incarnation_length = ground (arith, guard-eq-ok _ _ incarnation);
        current_valid = current_valid;
        current_group = eq_of_bytes_eq _ _ same_group;
        joined = ground arith;
        window = (==_iff _ _).0 (guard-eq-ok _ _ window);
        past =
            history_admitted s 0 (s.current.epoch - history_count s) s.history (omega arith) past;
        pending_valid = pending_valid;
      }

  pub IsWellFormed-validate : (s : LocalGroupState) → IsWellFormed s → validate sha256 s ≡ ok tt
  unfolding validate validate_retention fixed opaque_id
  IsWellFormed-validate s w =
      rw
        (
          guard-true (s.retention == 2 || s.retention == 4) unsupported_retention
              (ground (arith, w.retention_known)),
          guard-true (length s.group_id == 16) invalid_storage_snapshot
              (ground (arith, w.group_length)),
          guard-true (leb 1 (length s.incarnation_id) && leb (length s.incarnation_id) 128)
              limit_exceeded (ground (arith, w.incarnation_length)),
          w.current_valid,
          guard-true (bytes_eq s.current.group_id s.group_id && leb s.join_epoch s.current.epoch)
              invalid_storage_snapshot
              (ground
                (arith, bytes_eq_iff s.current.group_id s.group_id, w.current_group, w.joined)),
          guard-true (length s.history == history_count s) invalid_storage_snapshot
              ((==_iff _ _).1 w.window),
          history_admits s 0 (s.current.epoch - history_count s) s.history (omega arith) w.past,
        )
        w.pending_valid
