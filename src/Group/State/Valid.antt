-- ===== src/Group/State/Valid.antt =====
-- Which states `LocalGroupState::validate` of rust/src/local_group_state.rs admits.
use Prim.Native.Nat.{min}
use mathlib.Core.Path.{subst}
use mathlib.Core.Option.{some-injective}
use openmls_dart.Prelude.{
  ℕ, zero, suc, ◌+◌, ◌-◌, ◌≤◌, ◌≡◌, ◌⊎◌, ◌↔◌, refl, sym, some, List, [], ◌∷◌, length, get_elem?,
  Bytes, arith, ok,
}
use openmls_dart.Group.Roster.{MlsRosterSummaryV1}
use openmls_dart.Group.State.{LocalGroupState, validate}
use openmls_dart.Group.State.Rosters.{IsRoster, validate_roster-IsRoster, IsRoster-validate_roster}
use openmls_dart.Group.State.Bindings.{Pends, validate_pending-Pends, Pends-validate_pending}
use openmls_dart.Group.State.WellFormed.{
  HistoryFrom, IsWellFormed, validate-IsWellFormed, IsWellFormed-validate,
}

module _ (sha256 : Bytes → Bytes) where
  -- The roster at each place is a roster of the group, of the epoch that the place stands for.
  abbrev pub Runs : Bytes → ℕ → List MlsRosterSummaryV1 → Type 0
  Runs g oldest rs =
      (i : ℕ) (r : MlsRosterSummaryV1)
      → get_elem? rs i ≡ some r
      → IsRoster sha256 r × (r.group_id ≡ g) × (r.epoch ≡ oldest + i)

  -- A state of one group: the current roster, before it the rosters of the epochs just past, as many
  -- as are retained but none from before the join, and what a pending Commit is to satisfy.
  pub record IsState (s : LocalGroupState) : Type 0 where
    pub retention_known : (s.retention ≡ 2) ⊎ (s.retention ≡ 4)
    pub group_length : length s.group_id ≡ 16
    pub incarnation_length : (1 ≤ length s.incarnation_id) × (length s.incarnation_id ≤ 128)
    pub current_roster : IsRoster sha256 s.current
    pub current_group : s.current.group_id ≡ s.group_id
    pub joined : s.join_epoch ≤ s.current.epoch
    pub window : length s.history ≡ min (s.current.epoch - s.join_epoch) s.retention
    pub past : Runs s.group_id (s.current.epoch - length s.history) s.history
    pub pends : Pends sha256 s s.pending

  HistoryFrom-Runs :
      (g : Bytes) (epoch : ℕ) (rs : List MlsRosterSummaryV1)
      → HistoryFrom sha256 g epoch rs
      → Runs g epoch rs
  HistoryFrom-Runs g epoch [] h i r at = absurd (cc at)
  HistoryFrom-Runs g epoch (x ∷ rs) h zero r at =
      rw (← some-injective _ _ at)
        (validate_roster-IsRoster sha256 x h.0.0, h.0.1, omega (arith, h.0.2))
  HistoryFrom-Runs g epoch (x ∷ rs) h (suc i) r at =
      let (valid, group, here) = HistoryFrom-Runs g (suc epoch) rs h.1 i r at in
      (valid, group, omega (arith, here))

  Runs-HistoryFrom :
      (g : Bytes) (epoch : ℕ) (rs : List MlsRosterSummaryV1)
      → Runs g epoch rs
      → HistoryFrom sha256 g epoch rs
  Runs-HistoryFrom g epoch [] h = tt
  Runs-HistoryFrom g epoch (x ∷ rs) h =
      let (valid, group, here) = h 0 x refl in
      (
        (IsRoster-validate_roster sha256 x valid, group, omega (arith, here)),
        Runs-HistoryFrom g (suc epoch) rs (λ i r at.
            let (valid', group', here') = h (suc i) r at in (valid', group', omega (arith, here'))),
      )

  IsWellFormed-IsState : (s : LocalGroupState) → IsWellFormed sha256 s → IsState s
  IsWellFormed-IsState s w = record {
    retention_known = w.retention_known;
    group_length = w.group_length;
    incarnation_length = w.incarnation_length;
    current_roster = validate_roster-IsRoster sha256 s.current w.current_valid;
    current_group = w.current_group;
    joined = w.joined;
    window = w.window;
    past = HistoryFrom-Runs s.group_id (s.current.epoch - length s.history) s.history (
        subst (λ n. HistoryFrom sha256 s.group_id (s.current.epoch - n) s.history) (sym w.window)
          w.past);
    pends = validate_pending-Pends sha256 s s.pending w.pending_valid;
  }

  IsState-IsWellFormed : (s : LocalGroupState) → IsState s → IsWellFormed sha256 s
  IsState-IsWellFormed s w = record {
    retention_known = w.retention_known;
    group_length = w.group_length;
    incarnation_length = w.incarnation_length;
    current_valid = IsRoster-validate_roster sha256 s.current w.current_roster;
    current_group = w.current_group;
    joined = w.joined;
    window = w.window;
    past =
        subst (λ n. HistoryFrom sha256 s.group_id (s.current.epoch - n) s.history) w.window
          (Runs-HistoryFrom s.group_id (s.current.epoch - length s.history) s.history w.past);
    pending_valid = Pends-validate_pending sha256 s s.pending w.pends;
  }

  -- `validate` admits exactly the states with a retention of 2 or 4, a group ID of 16 bytes, an
  -- incarnation ID of 1 to 128 and a join not after the current epoch, whose rosters are rosters of
  -- the group: 1 to 256 leaves in ascending order with 45-byte identities and 32-byte keys, none of
  -- them twice, under the 32-byte hash of the group, the epoch and the leaves; the history holds the
  -- epochs just before the current one, as many as are retained but none from before the join; and a
  -- pending Commit is by a leaf of the current roster, names this group, incarnation and current
  -- state, proposes a roster of the group for the next epoch, which is a `u64`, and has hashes of 32
  -- bytes and a command ID of 1 to 128.
  pub validate_iff : (s : LocalGroupState) → (validate sha256 s ≡ ok tt) ↔ IsState s
  validate_iff s = (
    λ h. IsWellFormed-IsState s (validate-IsWellFormed sha256 s h),
    λ w. IsWellFormed-validate sha256 s (IsState-IsWellFormed s w),
  )
