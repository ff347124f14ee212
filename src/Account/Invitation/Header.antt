-- ===== src/Account/Invitation/Header.antt =====
-- The header of an invitation, rust/src/api/account_envelope/invitation.rs: its bytes and its fields
-- are one.
use mathlib.Core.Path.{subst}
use openmls_dart.Prelude.{
  ℕ, ◌+◌, ◌<◌, ◌^◌, ◌≡◌, refl, ap, sym, ◌∙◌, Bool, true, false, not, ◌||◌, [], ◌∷◌, ◌++◌, length,
  length-append, All, IsByte, Bytes, to_be_bytes, length-to_be_bytes, ltb, ◌==◌, Result, ok, err,
  guard, map_err, >>-eq-ok, >>=-eq-ok, ==_iff, arith, ok_injective, guard-eq-ok,
}
use openmls_dart.Prelude
use openmls_dart.Account.Types.{
  AccountEnvelopeErrorCodeV1, authority_mismatch, non_canonical_encoding, unsupported_version,
}
use openmls_dart.Account.Cursor.{is_finished}
use openmls_dart.Account.Cursor.Laws.{read_array-append, read_u8-cons, read_u64-append}
use openmls_dart.Account.Cursor.Reads.{nothing_left, whole_input, Reads-then, Reads-same}
use openmls_dart.Account.Cursor.Steps.{u8_step, check_step, lift_step, array_step, u64_step}
use openmls_dart.Account.Invitation.{
  AccountEnvelopePaddingClassV1, bytes512, bytes1024, bytes2048, padding_value, padding_from_u8,
  ContextInvitationAuthorityV1, validate_invitation, header_bytes, encode_invitation_header,
  read_invitation_header, parse_invitation_header,
}

-- An authority with arrays of their lengths, which its checks accept.
pub record IsInvitation (a : ContextInvitationAuthorityV1) : Type 0 where
  pub envelope_length : length a.envelope_id ≡ 16
  pub invite_length : length a.invite_id ≡ 16
  pub sender_length : length a.sender_account_id ≡ 16
  pub recipient_length : length a.recipient_account_id ≡ 16
  pub valid : validate_invitation a ≡ ok tt

padding_from_u8-padding_value :
    (p : AccountEnvelopePaddingClassV1) → padding_from_u8 (padding_value p) ≡ ok p
unfolding padding_from_u8 padding_value
padding_from_u8-padding_value bytes512 = refl
padding_from_u8-padding_value bytes1024 = refl
padding_from_u8-padding_value bytes2048 = refl

padding_from_u8-eq-ok :
    (v : ℕ) (p : AccountEnvelopePaddingClassV1) → padding_from_u8 v ≡ ok p → padding_value p ≡ v
unfolding padding_from_u8 padding_value
padding_from_u8-eq-ok v bytes512 h = ground arith
padding_from_u8-eq-ok v bytes1024 h = ground arith
padding_from_u8-eq-ok v bytes2048 h = ground arith

-- The numbers of a valid authority are `u64`.
record Fits (a : ContextInvitationAuthorityV1) : Type 0 where
  sender : a.sender_generation < 2 ^ 64
  recipient : a.recipient_generation < 2 ^ 64
  attempt : a.authority_attempt < 2 ^ 64
  slot : a.relay_slot_version < 2 ^ 64
  created : a.server_created_at_unix_ms < 2 ^ 64
  expires : a.server_expires_at_unix_ms < 2 ^ 64

valid-Fits : (a : ContextInvitationAuthorityV1) → validate_invitation a ≡ ok tt → Fits a
unfolding validate_invitation
valid-Fits a h =
    let (_, h1) =
      >>-eq-ok
        (guard (not (ltb a.server_expires_at_unix_ms a.server_created_at_unix_ms))
          authority_mismatch)
        _ h in
    record {
      sender = ground arith;
      recipient = ground arith;
      attempt = ground arith;
      slot = ground arith;
      created = ground arith;
      expires = ground arith;
    }

pub length-header_bytes :
    (a : ContextInvitationAuthorityV1) → IsInvitation a → length (header_bytes a) ≡ 115
length-header_bytes a w =
    rw
      (
        length-append a.envelope_id _,
        length-append a.sender_account_id _,
        length-append (to_be_bytes 8 a.sender_generation) _,
        length-append a.recipient_account_id _,
        length-append (to_be_bytes 8 a.recipient_generation) _,
        length-append a.invite_id _,
        length-append (to_be_bytes 8 a.authority_attempt) _,
        length-append (to_be_bytes 8 a.relay_slot_version) _,
        length-append (to_be_bytes 8 a.server_created_at_unix_ms) _,
        length-append (to_be_bytes 8 a.server_expires_at_unix_ms) _,
        w.envelope_length,
        w.sender_length,
        w.recipient_length,
        w.invite_length,
        length-to_be_bytes 8 a.sender_generation,
        length-to_be_bytes 8 a.recipient_generation,
        length-to_be_bytes 8 a.authority_attempt,
        length-to_be_bytes 8 a.relay_slot_version,
        length-to_be_bytes 8 a.server_created_at_unix_ms,
        length-to_be_bytes 8 a.server_expires_at_unix_ms,
      )
      refl

-- The header of an authority that its checks accept is read back as that authority.
pub parse-header_bytes :
    (a : ContextInvitationAuthorityV1)
    → IsInvitation a
    → parse_invitation_header (header_bytes a) ≡ ok a
unfolding parse_invitation_header read_invitation_header is_finished
parse-header_bytes a w =
    let f = valid-Fits a w.valid in
    rw (
      read_u8-cons 1 _,
      read_array-append 16 a.envelope_id _ w.envelope_length,
      read_u8-cons 1 _,
      read_array-append 16 a.sender_account_id _ w.sender_length,
      read_u64-append a.sender_generation _ f.sender,
      read_array-append 16 a.recipient_account_id _ w.recipient_length,
      read_u64-append a.recipient_generation _ f.recipient,
      read_array-append 16 a.invite_id _ w.invite_length,
      read_u64-append a.authority_attempt _ f.attempt,
      read_u64-append a.relay_slot_version _ f.slot,
      read_u64-append a.server_created_at_unix_ms _ f.created,
      read_u64-append a.server_expires_at_unix_ms _ f.expires,
      read_u8-cons (padding_value a.padding_class) _,
      padding_from_u8-padding_value a.padding_class,
      w.valid,
    )

valid_of_map_err :
    (r : Result AccountEnvelopeErrorCodeV1 (Unit {0}))
    → map_err (λ (d : AccountEnvelopeErrorCodeV1). non_canonical_encoding) r ≡ ok tt
    → r ≡ ok tt
valid_of_map_err (ok u) h = refl
valid_of_map_err (err d) h = absurd (cc h)

read_header-Reads :
    (input : Bytes) {a : ContextInvitationAuthorityV1} {rest : Bytes}
    → All IsByte input
    → read_invitation_header input ≡ ok (a, rest)
    → (header_bytes a ≡ input) × IsInvitation a
unfolding read_invitation_header
read_header-Reads input {a} {rest} bytes h = u8_step input bytes _ h (λ version m1 r1 h1.
    check_step m1 (version == 1) unsupported_version _ h1 (λ c1 k1.
      array_step m1 r1.1 16 _ k1 (λ envelope m2 l2 r2 h2. u8_step m2 r2.1 _ h2 (λ purpose m3 r3 h3.
        check_step m3 (purpose == 1) non_canonical_encoding _ h3 (λ c3 k3.
          array_step m3 r3.1 16 _ k3 (λ sender m4 l4 r4 h4.
            u64_step m4 r4.1 _ h4 (λ sender_generation m5 r5 h5.
              array_step m5 r5.1 16 _ h5 (λ recipient m6 l6 r6 h6.
                u64_step m6 r6.1 _ h6 (λ recipient_generation m7 r7 h7.
                  array_step m7 r7.1 16 _ h7 (λ invite m8 l8 r8 h8.
                    u64_step m8 r8.1 _ h8 (λ attempt m9 r9 h9.
                      u64_step m9 r9.1 _ h9 (λ slot m10 r10 h10.
                        u64_step m10 r10.1 _ h10 (λ created m11 r11 h11.
                          u64_step m11 r11.1 _ h11 (λ expires m12 r12 h12.
                            u8_step m12 r12.1 _ h12 (λ raw m13 r13 h13.
                              lift_step m13 (padding_from_u8 raw) _ h13 (λ padding c13 k13.
                                check_step m13 (is_finished m13) non_canonical_encoding _ k13
                                  (λ fin k14.
                                    lift_step m13
                                      (map_err
                                        (λ (e : AccountEnvelopeErrorCodeV1). non_canonical_encoding)
                                        (validate_invitation _))
                                      _ k14
                                      (λ _ c14 k15.
                                        let class =
                                          Reads-same m12 (raw ∷ []) (padding_value padding ∷ []) m13
                                            m13
                                            (ap (λ v. v ∷ [])
                                              (sym (padding_from_u8-eq-ok raw padding c13)))
                                            refl r13 in
                                        let ids = Reads-then m3 sender m4 _ m13 r4 (
                                          Reads-then m4 _ m5 _ m13 r5 (
                                            Reads-then m5 recipient m6 _ m13 r6 (
                                              Reads-then m6 _ m7 _ m13 r7 (
                                                Reads-then m7 invite m8 _ m13 r8 (
                                                  Reads-then m8 _ m9 _ m13 r9 (
                                                    Reads-then m9 _ m10 _ m13 r10 (
                                                      Reads-then m10 _ m11 _ m13 r11 (
                                                        Reads-then m11 _ m12 _ m13 r12
                                                          class)))))))) in
                                        let whole =
                                          Reads-then input (1 ∷ []) m1 _ m13
                                            (Reads-same input (version ∷ []) (1 ∷ []) m1 m1
                                              (ap (λ v. v ∷ []) ((==_iff version 1).0 c1)) refl r1)
                                            (Reads-then m1 envelope m2 _ m13 r2 (
                                              Reads-then m2 (1 ∷ []) m3 _ m13
                                                (Reads-same m2 (purpose ∷ []) (1 ∷ []) m3 m3
                                                  (ap (λ v. v ∷ []) ((==_iff purpose 1).0 c3)) refl
                                                  r3)
                                                ids)) in
                                        subst (λ c. (header_bytes c ≡ input) × IsInvitation c)
                                          (ap (λ p. p.0) (ok_injective k15))
                                          (
                                            sym (whole_input _ m13 (nothing_left m13 fin) whole.0),
                                            record {
                                              envelope_length = l2;
                                              invite_length = l8;
                                              sender_length = l4;
                                              recipient_length = l6;
                                              valid = valid_of_map_err _ c14;
                                            },
                                          )))))))))))))))))))

-- Bytes are read as a header only if they are the header of an authority that its checks accept.
pub parse_invitation_header-eq-ok :
    (input : Bytes) (a : ContextInvitationAuthorityV1)
    → All IsByte input
    → parse_invitation_header input ≡ ok a
    → (encode_invitation_header a ≡ ok input) × IsInvitation a
unfolding parse_invitation_header encode_invitation_header
parse_invitation_header-eq-ok input a bytes h =
    let ((c, rest), read, same) = >>=-eq-ok (read_invitation_header input) _ h in
    let (written, w) = read_header-Reads input bytes read in
    subst
      (λ t.
        (Prelude.◌>>◌ (validate_invitation t) (ok (header_bytes t)) ≡ ok input) × IsInvitation t)
      (ok_injective same) (rw (w.valid, written) refl, w)
