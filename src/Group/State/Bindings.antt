-- ===== src/Group/State/Bindings.antt =====
-- What `validate` of rust/src/local_group_state.rs requires of a pending Commit.
use openmls_dart.Prelude.{
  ℕ, ◌+◌, ◌^◌, ◌≤◌, ◌<◌, ◌≡◌, ◌↔◌, refl, Bool, true, ltb, ==_iff, ==_refl, ◌&&◌, Option, none, some,
  length, any, Bytes, bytes_eq, bytes_eq_refl, eq_of_bytes_eq, arith, leb, ◌==◌, ok, guard-eq-ok,
  guard-true, >>-eq-ok, &&-eq-true, Bool-cases, inl, inr,
}
use openmls_dart.Group.Errors.{invalid_storage_snapshot, limit_exceeded, pending_binding_mismatch}
use openmls_dart.Group.State.{
  LocalGroupState, PendingRecord, fixed, opaque_id, fixed_if_some, checked_suc, is_next_epoch,
  leaf_eq, expected, expected_eq, validate_roster, validate_pending,
}
use openmls_dart.Group.State.Rosters.{IsRoster, validate_roster-IsRoster, IsRoster-validate_roster}
use openmls_dart.Group.State.Authors.{Holds, any-Holds, Holds-any}

abbrev pub IsHash : Bytes → Type 0
IsHash hash = length hash ≡ 32

abbrev pub IsOptionalHash : Option Bytes → Type 0
IsOptionalHash none = Unit
IsOptionalHash (some hash) = IsHash hash

-- A Commit of a member of the current roster, from the current state to the next epoch of the group.
pub record IsPending (sha256 : Bytes → Bytes) (s : LocalGroupState) (p : PendingRecord)
    : Type 0 where
  pub proposed : IsRoster sha256 p.proposed_roster
  pub command_length :
      (1 ≤ length p.binding.transition.command_id) × (length p.binding.transition.command_id ≤ 128)
  pub context_hash : IsHash p.binding.transition.context_sha256
  pub commit_hash : IsHash p.binding.commit_sha256
  pub aad_hash : IsHash p.binding.aad_sha256
  pub base_hash : IsHash p.preparation_base_sha256
  pub upstream_hash : IsHash p.upstream_pending_sha256
  pub welcome_hash : IsOptionalHash p.binding.welcome_sha256
  pub group_info_hash : IsOptionalHash p.binding.group_info_sha256
  pub same_group : p.binding.group_id ≡ s.group_id
  pub same_incarnation : p.binding.incarnation_id ≡ s.incarnation_id
  pub previous_group : p.binding.previous_state.group_id ≡ s.current.group_id
  pub previous_epoch : p.binding.previous_state.epoch ≡ s.current.epoch
  pub previous_digest : p.binding.previous_state.digest_sha256 ≡ s.current.digest_sha256
  pub author_present : Holds s.current.leaves p.binding.author
  pub proposed_group : p.proposed_roster.group_id ≡ s.group_id
  pub next_epoch : p.proposed_roster.epoch ≡ s.current.epoch + 1
  pub epoch_fits : p.proposed_roster.epoch < 2 ^ 64

abbrev pub Pends : (Bytes → Bytes) → LocalGroupState → Option PendingRecord → Type 0
Pends sha256 s none = Unit
Pends sha256 s (some p) = IsPending sha256 s p

IsOptionalHash-fixed_if_some : (o : Option Bytes) → IsOptionalHash o → fixed_if_some o ≡ ok tt
unfolding fixed_if_some fixed
IsOptionalHash-fixed_if_some none h = refl
IsOptionalHash-fixed_if_some (some hash) h = ground (arith, h)

fixed_if_some-IsOptionalHash : (o : Option Bytes) → fixed_if_some o ≡ ok tt → IsOptionalHash o
unfolding fixed_if_some fixed
fixed_if_some-IsOptionalHash none h = tt
fixed_if_some-IsOptionalHash (some hash) h = ground arith

fixed-eq-ok : (value : Bytes) (n : ℕ) → fixed value n ≡ ok tt → length value ≡ n
unfolding fixed
fixed-eq-ok value n h = (==_iff _ _).0 (guard-eq-ok _ _ h)

length-fixed : (value : Bytes) (n : ℕ) → length value ≡ n → fixed value n ≡ ok tt
unfolding fixed
length-fixed value n h = guard-true (length value == n) invalid_storage_snapshot ((==_iff _ _).1 h)

next_iff :
    (current epoch : ℕ)
    → (is_next_epoch current epoch ≡ true) ↔ ((epoch ≡ current + 1) × (epoch < 2 ^ 64))
unfolding is_next_epoch checked_suc
next_iff current epoch = elim (Bool-cases (ltb (current + 1) (2 ^ 64))) [
  | inl fits ↦ rw (is_next_epoch, checked_suc, fits) (ground arith)
  | inr full ↦ rw (is_next_epoch, checked_suc, full) (ground arith)
]

module _ (sha256 : Bytes → Bytes) (s : LocalGroupState) where
  -- The last comparison of the source, as one test.
  bound : PendingRecord → Bool
  bound p =
      bytes_eq p.binding.group_id s.group_id
      && (bytes_eq p.binding.incarnation_id s.incarnation_id
          && (expected_eq p.binding.previous_state (expected s.current)
              && (any (λ leaf. leaf_eq leaf p.binding.author) s.current.leaves
                  && (bytes_eq p.proposed_roster.group_id s.group_id
                      && is_next_epoch s.current.epoch p.proposed_roster.epoch))))

  pub validate_pending-Pends :
      (o : Option PendingRecord) → validate_pending sha256 s o ≡ ok tt → Pends sha256 s o
  unfolding validate_pending bound expected_eq expected opaque_id
  validate_pending-Pends none h = tt
  validate_pending-Pends (some p) h =
      let b = p.binding in
      let (proposed, h₁) = >>-eq-ok (validate_roster sha256 p.proposed_roster) _ h in
      let (command, h₂) = >>-eq-ok (opaque_id b.transition.command_id) _ h₁ in
      let (context, h₃) = >>-eq-ok (fixed b.transition.context_sha256 32) _ h₂ in
      let (commit, h₄) = >>-eq-ok (fixed b.commit_sha256 32) _ h₃ in
      let (aad, h₅) = >>-eq-ok (fixed b.aad_sha256 32) _ h₄ in
      let (base, h₆) = >>-eq-ok (fixed p.preparation_base_sha256 32) _ h₅ in
      let (upstream, h₇) = >>-eq-ok (fixed p.upstream_pending_sha256 32) _ h₆ in
      let (welcome, h₈) = >>-eq-ok (fixed_if_some b.welcome_sha256) _ h₇ in
      let (group_info, h₉) = >>-eq-ok (fixed_if_some b.group_info_sha256) _ h₈ in
      let (same_group, r₁) = &&-eq-true (bytes_eq b.group_id s.group_id) _ (guard-eq-ok _ _ h₉) in
      let (same_incarnation, r₂) = &&-eq-true (bytes_eq b.incarnation_id s.incarnation_id) _ r₁ in
      let (previous, r₃) = &&-eq-true (expected_eq b.previous_state (expected s.current)) _ r₂ in
      let (author, r₄) = &&-eq-true (any (λ leaf. leaf_eq leaf b.author) s.current.leaves) _ r₃ in
      let (proposed_group, next) =
        &&-eq-true (bytes_eq p.proposed_roster.group_id s.group_id) _ r₄ in
      let (previous_group, r₅) =
        &&-eq-true (bytes_eq b.previous_state.group_id s.current.group_id) _ previous in
      let (previous_epoch, previous_digest) =
        &&-eq-true (b.previous_state.epoch == s.current.epoch) _ r₅ in
      let (next_epoch, epoch_fits) = (next_iff s.current.epoch p.proposed_roster.epoch).0 next in
      record {
        proposed = validate_roster-IsRoster sha256 p.proposed_roster proposed;
        command_length = ground (arith, guard-eq-ok _ _ command);
        context_hash = fixed-eq-ok _ 32 context;
        commit_hash = fixed-eq-ok _ 32 commit;
        aad_hash = fixed-eq-ok _ 32 aad;
        base_hash = fixed-eq-ok _ 32 base;
        upstream_hash = fixed-eq-ok _ 32 upstream;
        welcome_hash = fixed_if_some-IsOptionalHash _ welcome;
        group_info_hash = fixed_if_some-IsOptionalHash _ group_info;
        same_group = eq_of_bytes_eq _ _ same_group;
        same_incarnation = eq_of_bytes_eq _ _ same_incarnation;
        previous_group = eq_of_bytes_eq _ _ previous_group;
        previous_epoch = (==_iff _ _).0 previous_epoch;
        previous_digest = eq_of_bytes_eq _ _ previous_digest;
        author_present = any-Holds s.current.leaves b.author author;
        proposed_group = eq_of_bytes_eq _ _ proposed_group;
        next_epoch = next_epoch;
        epoch_fits = epoch_fits;
      }

  IsPending-bound : (p : PendingRecord) → IsPending sha256 s p → bound p ≡ true
  unfolding bound expected_eq expected
  IsPending-bound p w =
      rw
        (
          w.same_group,
          bytes_eq_refl s.group_id,
          w.same_incarnation,
          bytes_eq_refl s.incarnation_id,
          w.previous_group,
          bytes_eq_refl s.current.group_id,
          w.previous_epoch,
          ==_refl s.current.epoch,
          w.previous_digest,
          bytes_eq_refl s.current.digest_sha256,
          Holds-any s.current.leaves p.binding.author w.author_present.0 w.author_present.1,
          w.proposed_group,
          bytes_eq_refl s.group_id,
        )
        ((next_iff s.current.epoch p.proposed_roster.epoch).1 (w.next_epoch, w.epoch_fits))

  pub Pends-validate_pending :
      (o : Option PendingRecord) → Pends sha256 s o → validate_pending sha256 s o ≡ ok tt
  unfolding validate_pending opaque_id bound
  Pends-validate_pending none w = refl
  Pends-validate_pending (some p) w =
      rw
        (
          IsRoster-validate_roster sha256 p.proposed_roster w.proposed,
          guard-true
              (leb 1 (length p.binding.transition.command_id)
                && leb (length p.binding.transition.command_id) 128)
              limit_exceeded (ground (arith, w.command_length)),
          length-fixed p.binding.transition.context_sha256 32 w.context_hash,
          length-fixed p.binding.commit_sha256 32 w.commit_hash,
          length-fixed p.binding.aad_sha256 32 w.aad_hash,
          length-fixed p.preparation_base_sha256 32 w.base_hash,
          length-fixed p.upstream_pending_sha256 32 w.upstream_hash,
          IsOptionalHash-fixed_if_some p.binding.welcome_sha256 w.welcome_hash,
          IsOptionalHash-fixed_if_some p.binding.group_info_sha256 w.group_info_hash,
        )
        (guard-true (bound p) pending_binding_mismatch (IsPending-bound p w))
