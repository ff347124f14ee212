-- ===== src/Group/State/Log.antt =====
-- A life of a local group state (rust/src/local_group_state.rs) against the full log of its rosters:
-- it is created, prepares and discards Commits, and advances.
use mathlib.Core.Path.{subst}
use openmls_dart.Prelude.{
  ℕ, zero, suc, ◌+◌, ◌-◌, ◌≤◌, err, ◌≡◌, refl, sym, ap, ◌∙◌, Option, none, List, [], ◌∷◌, ◌++◌,
  length, length-append, length-drop, drop, true, false, Bytes, arith, ltb, ok, Bool-cases, inl,
  inr, Result, >>-eq-ok,
}
use openmls_dart.Group.Errors.{MlsErrorCode}
use openmls_dart.Group.Roster.{MlsRosterSummaryV1}
use openmls_dart.Group.State.{
  LocalGroupState, Checked, PendingRecord, trim, pushed, validate, new, advance,
}
use openmls_dart.Group.State.WellFormed.{IsWellFormed, validate-IsWellFormed}
use openmls_dart.Group.State.Advance.{advance_outcome}

-- The newest `n` entries of a log that has its oldest entry first.
abbrev pub newest {ℓ} : {A : Type ℓ} → ℕ → List A → List A
newest n xs = drop (length xs - n) xs

module _ (sha256 : Bytes → Bytes) (incarnation_id : Bytes) (retention : ℕ) where
  -- `Lives past s`: the state `s` is reached, and `past` are all rosters before its current one, the
  -- oldest first. A pending record is set only to one that the state's check admits.
  pub data Lives : List MlsRosterSummaryV1 → LocalGroupState → Type 0 where
    created :
        {s : LocalGroupState} (r : MlsRosterSummaryV1)
        → new sha256 incarnation_id retention r ≡ ok s
        → Lives [] s
    prepared :
        {past : List MlsRosterSummaryV1} {s : LocalGroupState} (p : Option PendingRecord)
        → Lives past s
        → validate sha256 (record s { pending = p }) ≡ ok tt
        → Lives past (record s { pending = p })
    moved :
        {past : List MlsRosterSummaryV1} {s s' : LocalGroupState} (r : MlsRosterSummaryV1)
        → Lives past s
        → advance sha256 s r ≡ (ok tt, s')
        → Lives (past ++ s.current ∷ []) s'

drop-snoc :
    (k : ℕ) (rs : List MlsRosterSummaryV1) (r : MlsRosterSummaryV1)
    → k ≤ length rs
    → drop k rs ++ r ∷ [] ≡ drop k (rs ++ r ∷ [])
drop-snoc zero rs r h = refl
drop-snoc (suc k) [] r h = absurd (omega arith)
drop-snoc (suc k) (x ∷ xs) r h = drop-snoc k xs r (omega arith)

drop_eq : (a b : ℕ) (rs : List MlsRosterSummaryV1) → a ≡ b → drop a rs ≡ drop b rs
drop_eq a b rs e = ap (λ k. drop k rs) e

drop-nil : (a : ℕ) → ◌≡◌ {A = List MlsRosterSummaryV1} (drop a []) []
drop-nil zero = refl
drop-nil (suc a) = refl

drop-drop : (a b : ℕ) (rs : List MlsRosterSummaryV1) → drop a (drop b rs) ≡ drop (b + a) rs
drop-drop a zero rs = drop_eq a (0 + a) rs (omega arith)
drop-drop a (suc b) [] = drop-nil a ∙ sym (drop-nil (suc b + a))
drop-drop a (suc b) (r ∷ rs) =
    drop-drop a b rs ∙ drop_eq (suc (b + a)) (suc b + a) (r ∷ rs) (omega arith)

-- Trimming is dropping, on a list that has one roster too many at most.
trim-drop :
    (n : ℕ) (rs : List MlsRosterSummaryV1) → length rs ≤ suc n → trim n rs ≡ drop (length rs - n) rs
unfolding trim
trim-drop n [] h = sym (drop-nil (0 - n))
trim-drop n (r ∷ rs) h = elim (Bool-cases (ltb n (length (r ∷ rs)))) [
  | inl over ↦ rw over (ap (λ k. drop k (r ∷ rs)) (one over))
  | inr fits ↦ rw fits (ap (λ k. drop k (r ∷ rs)) (none_over fits))
]
  where
    one : ltb n (suc (length rs)) ≡ true → 1 ≡ suc (length rs) - n
    one over = ground arith

    none_over : ltb n (suc (length rs)) ≡ false → 0 ≡ suc (length rs) - n
    none_over fits = ground arith

-- Trimming after a push keeps the newest entries of the longer log.
trim-newest :
    (n : ℕ) (past : List MlsRosterSummaryV1) (r : MlsRosterSummaryV1)
    → trim n (newest n past ++ r ∷ []) ≡ newest n (past ++ r ∷ [])
trim-newest n past r =
    ap (trim n) (drop-snoc (length past - n) past r (omega arith))
    ∙ trim-drop n (drop (length past - n) (past ++ r ∷ []))
        (omega (arith, length-drop (length past - n) (past ++ r ∷ []), length-append past (r ∷ [])))
    ∙ drop-drop _ (length past - n) (past ++ r ∷ [])
    ∙ ap (λ k. drop k (past ++ r ∷ []))
        (omega (arith, length-drop (length past - n) (past ++ r ∷ []), length-append past (r ∷ [])))

-- What holds of every state that is reached: it is well formed, keeps the retention that it was
-- created with, and its history is the newest rosters of its log, as many as that.
record Mirrors (sha256 : Bytes → Bytes) (n : ℕ) (past : List MlsRosterSummaryV1)
    (s : LocalGroupState) : Type 0 where
  well : IsWellFormed sha256 s
  kept : s.retention ≡ n
  log : s.history ≡ newest n past

module _ (sha256 : Bytes → Bytes) (incarnation_id : Bytes) (n : ℕ) where
  created-Mirrors :
      (s : LocalGroupState) (r : MlsRosterSummaryV1)
      → new sha256 incarnation_id n r ≡ ok s
      → Mirrors sha256 n [] s
  unfolding new
  created-Mirrors s r h =
      let (valid, made) = >>-eq-ok (validate sha256 start) (ok start) h in
      subst (λ t. Mirrors sha256 n [] t) (ok_injective made)
        (record {
          well = validate-IsWellFormed sha256 start valid;
          kept = refl;
          log = sym (drop-nil (0 - n));
        })
    where
      start : LocalGroupState
      start = record {
        group_id = r.group_id;
        incarnation_id = incarnation_id;
        retention = n;
        join_epoch = r.epoch;
        current = r;
        history = [];
        pending = none;
      }

      ok_injective :
          {a b : LocalGroupState}
          → ◌≡◌ {A = Result MlsErrorCode LocalGroupState} (ok a) (ok b)
          → a ≡ b
      ok_injective e = cc

  moved-Mirrors :
      (past : List MlsRosterSummaryV1) (s s' : LocalGroupState) (r : MlsRosterSummaryV1)
      → Mirrors sha256 n past s
      → advance sha256 s r ≡ (ok tt, s')
      → Mirrors sha256 n (past ++ s.current ∷ []) s'
  unfolding pushed
  moved-Mirrors past s s' r m h = elim (advance_outcome sha256 s r) [
    | inl (can, run, well) ↦
        subst (λ t. Mirrors sha256 n (past ++ s.current ∷ []) t) (same_state run)
          (record { well = well; kept = m.kept; log = log_pushed })
    | inr (_, (e, run)) ↦ absurd (refused e run)
  ]
    where
      same_state : advance sha256 s r ≡ (ok tt, pushed s r) → pushed s r ≡ s'
      same_state run = ap (λ (t : Checked × LocalGroupState). t.1) (sym run ∙ h)

      refused : (e : MlsErrorCode) → advance sha256 s r ≡ (err e, s) → ⊥
      refused e run = cc (ap (λ (t : Checked × LocalGroupState). t.0) (sym run ∙ h))

      log_pushed :
          trim s.retention (s.history ++ s.current ∷ []) ≡ newest n (past ++ s.current ∷ [])
      log_pushed = rw (m.kept, m.log) (trim-newest n past s.current)

  Lives-Mirrors :
      {past : List MlsRosterSummaryV1} {s : LocalGroupState}
      → Lives sha256 incarnation_id n past s
      → Mirrors sha256 n past s
  Lives-Mirrors (created {s} r h) = created-Mirrors s r h
  Lives-Mirrors (prepared {past} {s} p l v) =
      let m = Lives-Mirrors l in
      record { well = validate-IsWellFormed sha256 _ v; kept = m.kept; log = m.log }
  Lives-Mirrors (moved {past} {s} {s'} r l h) = moved-Mirrors past s s' r (Lives-Mirrors l) h

-- However a local state is created, prepares and moves, it is well formed, and its history is
-- exactly the newest `retention` rosters of the full log of past rosters, in order.
pub Lives-history :
    (sha256 : Bytes → Bytes) (incarnation_id : Bytes) (n : ℕ) (past : List MlsRosterSummaryV1)
    (s : LocalGroupState)
    → Lives sha256 incarnation_id n past s
    → IsWellFormed sha256 s × (s.history ≡ newest n past)
Lives-history sha256 incarnation_id n past s l =
    let m = Lives-Mirrors sha256 incarnation_id n l in (m.well, m.log)
