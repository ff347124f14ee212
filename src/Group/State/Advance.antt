-- ===== src/Group/State/Advance.antt =====
-- `LocalGroupState::advance` of rust/src/local_group_state.rs.
use Prim.Native.Nat.{min}
use mathlib.Core.Path.{subst}
use openmls_dart.Prelude.{
  ℕ, suc, ◌+◌, ◌-◌, ◌^◌, ◌≤◌, ◌<◌, ◌≡◌, ◌⊎◌, ◌↔◌, inl, inr, refl, true, List, [], ◌∷◌, ◌++◌, length,
  length-append, Bytes, bytes_eq, bytes_eq_iff, eq_of_bytes_eq, arith, ltb, Result-cases, ok, err,
  guard, guard-eq-ok, >>-eq-ok, Bool-cases,
}
use openmls_dart.Group.Errors.{MlsErrorCode, group_mismatch}
use openmls_dart.Group.Roster.{MlsRosterSummaryV1}
use openmls_dart.Group.State.{
  LocalGroupState, trim, pushed, is_next_epoch, history_count, validate_roster, validate_pending,
  validate, advance_checks, advance,
}
use openmls_dart.Group.State.WellFormed.{
  HistoryFrom, IsWellFormed, validate-IsWellFormed, IsWellFormed-validate,
}

pub is_next_epoch_iff : (n m : ℕ) → (is_next_epoch n m ≡ true) ↔ ((m ≡ n + 1) × (m < 2 ^ 64))
unfolding is_next_epoch
is_next_epoch_iff n m = (λ h. (ground arith, ground arith), λ h. ground arith)

length-trim :
    (n : ℕ) (rs : List MlsRosterSummaryV1)
    → length rs ≤ suc n
    → length (trim n rs) ≡ min (length rs) n
unfolding trim
length-trim n [] h = omega arith
length-trim n (r ∷ rs) h = ground arith

module _ (sha256 : Bytes → Bytes) (g : Bytes) where
  HistoryFrom-at :
      {e e' : ℕ} (rs : List MlsRosterSummaryV1)
      → e ≡ e'
      → HistoryFrom sha256 g e rs
      → HistoryFrom sha256 g e' rs
  HistoryFrom-at rs p h = subst (λ k. HistoryFrom sha256 g k rs) p h

  HistoryFrom-snoc :
      (e : ℕ) (rs : List MlsRosterSummaryV1) (r : MlsRosterSummaryV1)
      → HistoryFrom sha256 g e rs
      → HistoryFrom sha256 g (e + length rs) (r ∷ [])
      → HistoryFrom sha256 g e (rs ++ r ∷ [])
  HistoryFrom-snoc e [] r h h' = HistoryFrom-at (r ∷ []) (omega arith) h'
  HistoryFrom-snoc e (x ∷ xs) r h h' =
      (h.0, HistoryFrom-snoc (suc e) xs r h.1 (HistoryFrom-at (r ∷ []) (omega arith) h'))

  -- Trimming keeps the newest epoch, and so the epoch after the run.
  HistoryFrom-trim :
      (n e e' : ℕ) (rs : List MlsRosterSummaryV1)
      → e' + length (trim n rs) ≡ e + length rs
      → HistoryFrom sha256 g e rs
      → HistoryFrom sha256 g e' (trim n rs)
  unfolding trim
  HistoryFrom-trim n e e' [] p h = tt
  HistoryFrom-trim n e e' (r ∷ rs) p h = elim (Bool-cases (ltb n (length (r ∷ rs)))) [
    | inl over ↦ rw over (HistoryFrom-at rs (omega (arith, rw over at p)) h.1)
    | inr fits ↦ rw fits (HistoryFrom-at (r ∷ rs) (omega (arith, rw fits at p)) h)
  ]

module _ (sha256 : Bytes → Bytes) (s : LocalGroupState) (r : MlsRosterSummaryV1)
    (w : IsWellFormed sha256 s) (valid : validate_roster sha256 r ≡ ok tt)
    (group : r.group_id ≡ s.group_id) (next : r.epoch ≡ s.current.epoch + 1) where
  start : ℕ
  start = s.current.epoch - history_count s

  next_start : ℕ
  next_start = r.epoch - min (r.epoch - s.join_epoch) s.retention

  window_pushed :
      length (trim s.retention (s.history ++ s.current ∷ []))
      ≡ min (r.epoch - s.join_epoch) s.retention
  window_pushed = omega (
    arith,
    length-trim s.retention (s.history ++ s.current ∷ [])
        (omega (arith, w.window, length-append s.history (s.current ∷ []))),
    length-append s.history (s.current ∷ []),
    w.window,
    w.joined,
  )

  pub pushed-IsWellFormed : IsWellFormed sha256 (pushed s r)
  unfolding pushed validate_pending start next_start
  pushed-IsWellFormed = record {
    retention_known = w.retention_known;
    group_length = w.group_length;
    incarnation_length = w.incarnation_length;
    current_valid = valid;
    current_group = group;
    joined = omega (arith, w.joined);
    window = window_pushed;
    past =
        HistoryFrom-trim sha256 s.group_id s.retention start next_start
          (s.history ++ s.current ∷ [])
          (omega
            (arith, window_pushed, w.window, w.joined, length-append s.history (s.current ∷ [])))
          (HistoryFrom-snoc sha256 s.group_id start s.history s.current w.past
            ((w.current_valid, w.current_group, omega (arith, w.window, w.joined)), tt));
    pending_valid = refl;
  }

module _ (sha256 : Bytes → Bytes) where
  -- What `advance` requires before it changes the state.
  abbrev pub CanAdvance : LocalGroupState → MlsRosterSummaryV1 → Type 0
  CanAdvance s r =
      IsWellFormed sha256 s
      × (validate_roster sha256 r ≡ ok tt)
      × (r.group_id ≡ s.group_id)
      × (r.epoch ≡ s.current.epoch + 1)
      × (r.epoch < 2 ^ 64)

  checks-CanAdvance :
      (s : LocalGroupState) (r : MlsRosterSummaryV1)
      → advance_checks sha256 s r ≡ ok tt
      → CanAdvance s r
  unfolding advance_checks
  checks-CanAdvance s r h =
      let (well, h₁) = >>-eq-ok (validate sha256 s) _ h in
      let (valid, h₂) = >>-eq-ok (validate_roster sha256 r) _ h₁ in
      let (group, next) = >>-eq-ok (guard (bytes_eq r.group_id s.group_id) group_mismatch) _ h₂ in
      let (is_next, in_range) =
        (is_next_epoch_iff s.current.epoch r.epoch).0 (guard-eq-ok _ _ next) in
      (
        validate-IsWellFormed sha256 s well,
        valid,
        eq_of_bytes_eq _ _ (guard-eq-ok _ _ group),
        is_next,
        in_range,
      )

  CanAdvance-checks :
      (s : LocalGroupState) (r : MlsRosterSummaryV1)
      → CanAdvance s r
      → advance_checks sha256 s r ≡ ok tt
  unfolding advance_checks
  CanAdvance-checks s r (well, valid, group, is_next, in_range) = rw (
    IsWellFormed-validate sha256 s well,
    valid,
    (bytes_eq_iff r.group_id s.group_id).1 group,
    (is_next_epoch_iff s.current.epoch r.epoch).1 (is_next, in_range),
  )

  -- Where the state can advance it does, and the check that follows the change passes.
  pub advance-pushed :
      (s : LocalGroupState) (r : MlsRosterSummaryV1)
      → CanAdvance s r
      → (advance sha256 s r ≡ (ok tt, pushed s r)) × IsWellFormed sha256 (pushed s r)
  unfolding advance
  advance-pushed s r can =
      let well = pushed-IsWellFormed sha256 s r can.0 can.1 can.2 can.3 in
      (rw (CanAdvance-checks s r can, IsWellFormed-validate sha256 (pushed s r) well), well)

  -- Advancing is all or nothing. Exactly if the state is well formed, the roster valid and of the
  -- state's group, and its epoch the next one within `u64`, it succeeds, and then it ends in the
  -- pushed state, which is well formed. Otherwise it ends with an error and the state as it was.
  pub advance_outcome :
      (s : LocalGroupState) (r : MlsRosterSummaryV1)
      → (CanAdvance s r
          × (advance sha256 s r ≡ (ok tt, pushed s r))
          × IsWellFormed sha256 (pushed s r))
        ⊎ ((¬ CanAdvance s r) × ((e : MlsErrorCode) × (advance sha256 s r ≡ (err e, s))))
  unfolding advance
  advance_outcome s r = elim (Result-cases (advance_checks sha256 s r)) [
    | inl passed ↦
        let can = checks-CanAdvance s r passed in
        let (run, well) = advance-pushed s r can in inl (can, run, well)
    | inr (e, failed) ↦ inr (λ can. cc (failed, CanAdvance-checks s r can), (e, rw failed))
  ]
