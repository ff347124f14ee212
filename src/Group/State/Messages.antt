-- ===== src/Group/State/Messages.antt =====
-- `LocalGroupState::message_roster` of rust/src/local_group_state.rs: which epochs have a roster.
use native.Mathlib.Decide.{dec_lt, ℕ_discrete}
use openmls_dart.Prelude.{
  ℕ, zero, suc, ◌+◌, ◌-◌, ◌≤◌, ◌<◌, ◌≡◌, ◌⊎◌, inl, inr, refl, some, none, List, [], ◌∷◌, length,
  get_elem?, Bytes, arith, ◌==◌, ok, err, Bool-cases, true, false,
}
use openmls_dart.Group.Errors.{future_message_epoch, past_epoch_unavailable}
use openmls_dart.Group.Roster.{MlsRosterSummaryV1}
use openmls_dart.Group.State.{LocalGroupState, history_count, find_epoch, validate, message_roster}
use openmls_dart.Group.State.WellFormed.{HistoryFrom, IsWellFormed, IsWellFormed-validate}

-- The oldest epoch that has a roster.
abbrev pub oldest_epoch : LocalGroupState → ℕ
oldest_epoch s = s.current.epoch - history_count s

-- A roster stands at a place of the list.
abbrev pub IsAt : List MlsRosterSummaryV1 → ℕ → MlsRosterSummaryV1 → Type 0
IsAt rs i r = get_elem? rs i ≡ some r

module _ (sha256 : Bytes → Bytes) (g : Bytes) where
  -- In a run of consecutive epochs the search finds the roster at the epoch's offset.
  find_in_run :
      (e epoch : ℕ) (rs : List MlsRosterSummaryV1)
      → HistoryFrom sha256 g e rs
      → e ≤ epoch
      → find_epoch epoch rs ≡ get_elem? rs (epoch - e)
  unfolding find_epoch
  find_in_run e epoch [] h le = refl
  find_in_run e epoch (r ∷ rs) h le = elim (Bool-cases (r.epoch == epoch)) [
    | inl here ↦ rw (here, offset_zero here)
    | inr there ↦
        rw (there, offset_suc there) (find_in_run (suc e) epoch rs h.1 (omega (arith, later there)))
  ]
    where
      offset_zero : (r.epoch == epoch) ≡ true → epoch - e ≡ 0
      offset_zero here = ground (arith, h.0.2)

      later : (r.epoch == epoch) ≡ false → e < epoch
      later there = ground (arith, h.0.2)

      offset_suc : (r.epoch == epoch) ≡ false → epoch - e ≡ suc (epoch - suc e)
      offset_suc there = omega (arith, later there)

  -- No roster of a run has an epoch before it.
  find_before_run :
      (e epoch : ℕ) (rs : List MlsRosterSummaryV1)
      → HistoryFrom sha256 g e rs
      → epoch < e
      → find_epoch epoch rs ≡ none
  unfolding find_epoch
  find_before_run e epoch [] h lt = refl
  find_before_run e epoch (r ∷ rs) h lt =
      ground (arith, h.0.2, find_before_run (suc e) epoch rs h.1)

  get_in_run :
      (e i : ℕ) (rs : List MlsRosterSummaryV1)
      → HistoryFrom sha256 g e rs
      → i < length rs
      → (r : MlsRosterSummaryV1) × (get_elem? rs i ≡ some r) × (r.epoch ≡ e + i)
  get_in_run e i [] h lt = absurd (omega arith)
  get_in_run e zero (r ∷ rs) h lt = (r, refl, omega (arith, h.0.2))
  get_in_run e (suc i) (r ∷ rs) h lt =
      let (q, at, eq) = get_in_run (suc e) i rs h.1 (omega arith) in (q, at, omega (arith, eq))

-- A well-formed state has a roster for exactly the epochs from its oldest one to the current one.
-- The current epoch gives the current roster, a past one the roster of that epoch from the history;
-- a later epoch is refused as future, an older one as unavailable.
pub message_roster_exact :
    (sha256 : Bytes → Bytes) (s : LocalGroupState) (epoch : ℕ)
    → IsWellFormed sha256 s
    → ((epoch ≡ s.current.epoch) × (message_roster sha256 s epoch ≡ ok s.current))
      ⊎ ((s.current.epoch < epoch) × (message_roster sha256 s epoch ≡ err future_message_epoch))
      ⊎ ((epoch < oldest_epoch s) × (message_roster sha256 s epoch ≡ err past_epoch_unavailable))
      ⊎ ((r : MlsRosterSummaryV1) × (oldest_epoch s ≤ epoch)
          × (epoch < s.current.epoch)
          × (r.epoch ≡ epoch)
          × IsAt s.history (epoch - oldest_epoch s) r
          × (message_roster sha256 s epoch ≡ ok r))
unfolding message_roster
message_roster_exact sha256 s epoch w = elim (dec_lt s.current.epoch epoch) [
  | yes future ↦ inr (inl (future, rw valid (ground arith)))
  | no not_future ↦ elim (ℕ_discrete epoch s.current.epoch) [
    | yes now ↦ inl (now, rw valid (ground arith))
    | no not_now ↦ elim (dec_lt epoch (oldest_epoch s)) [
      | yes old ↦ inr (
          inr (
            inl (
              old,
              rw
                  (
                    valid,
                    find_before_run sha256 s.group_id (oldest_epoch s) epoch s.history w.past old,
                  )
                  (ground arith),
            )))
      | no not_old ↦
          let kept : oldest_epoch s ≤ epoch = omega arith in
          let (r, at, eq) =
            get_in_run sha256 s.group_id (oldest_epoch s) (epoch - oldest_epoch s) s.history w.past
              (omega (arith, w.window, w.joined)) in
          inr (
            inr (
              inr (
                r,
                kept,
                omega arith,
                omega arith,
                at,
                rw
                    (
                      valid,
                      find_in_run sha256 s.group_id (oldest_epoch s) epoch s.history w.past kept,
                      at,
                    )
                    (ground arith),
              )))
    ]
  ]
]
  where
    valid : validate sha256 s ≡ ok tt
    valid = IsWellFormed-validate sha256 s w
