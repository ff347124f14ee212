-- ===== src/Receive/Frame.antt =====
-- The header of a receive frame: rust/src/native_receive_v1.rs.
pub mod RoundTrip
use openmls_dart.Prelude.{
  ℕ, zero, suc, ◌+◌, ◌-◌, ◌*◌, ◌^◌, Bool, not, ◌||◌, ◌&&◌, [], ◌∷◌, ◌++◌, length, take, drop, Bytes,
  ascii, bytes_eq, ltb, ◌==◌, to_be_bytes, from_be_bytes, Result, ok, err, guard, ◌>>=◌, ◌>>◌,
}

pub data NativeReceiveErrorCodeV1 : Type 0 where
  invalid_frame unsupported_contract_version unsupported_profile unsupported_operation :
      NativeReceiveErrorCodeV1
  noncanonical_encoding limit_exceeded storage_format_mismatch invalid_storage_snapshot :
      NativeReceiveErrorCodeV1
  group_state_unavailable base_state_mismatch configuration_mismatch group_mismatch :
      NativeReceiveErrorCodeV1
  previous_epoch_mismatch previous_roster_mismatch resulting_epoch_mismatch :
      NativeReceiveErrorCodeV1
  resulting_roster_mismatch aad_mismatch message_kind_mismatch sender_mismatch :
      NativeReceiveErrorCodeV1
  local_leaf_mismatch invalid_signer unsupported_credential mls_decode_rejected :
      NativeReceiveErrorCodeV1
  welcome_rejected mls_protocol_rejected expected_key_package_mismatch internal_failure :
      NativeReceiveErrorCodeV1

abbrev pub native_receive_contract_version : ℕ
native_receive_contract_version = 1

abbrev pub native_receive_result_max_bytes : ℕ
native_receive_result_max_bytes = 8 * 1024 * 1024

abbrev pub frame_header_bytes : ℕ
frame_header_bytes = 12

abbrev pub frame_magic : Bytes
frame_magic = ascii "KMLS"

pub record DecodedHeader : Type 0 where
  pub operation : ℕ
  pub payload : Bytes

-- An index of a frame, which has the place.
abbrev pub frame_byte : Bytes → ℕ → ℕ
frame_byte [] i = 0
frame_byte (b ∷ bs) zero = b
frame_byte (b ∷ bs) (suc i) = frame_byte bs i

-- A `u32` is a `usize` on the platforms of the package.
unfoldable pub decode_header : Bytes → ℕ → Result NativeReceiveErrorCodeV1 DecodedHeader
decode_header frame maximum = do
  guard (not (ltb maximum (length frame))) limit_exceeded
  guard (not (ltb (length frame) frame_header_bytes || not (bytes_eq (take 4 frame) frame_magic)))
      invalid_frame
  guard (from_be_bytes (take 2 (drop 4 frame)) == native_receive_contract_version)
      unsupported_contract_version
  guard (frame_byte frame 7 == 0) invalid_frame
  guard (from_be_bytes (take 4 (drop 8 frame)) == length frame - frame_header_bytes) invalid_frame
  ok (record { operation = frame_byte frame 6; payload = drop 12 frame })

unfoldable pub encode_frame_with_max : ℕ → Bytes → ℕ → Result NativeReceiveErrorCodeV1 Bytes
encode_frame_with_max operation payload maximum = do
  guard (not (ltb maximum (frame_header_bytes + length payload))) limit_exceeded
  guard (ltb (length payload) (2 ^ 32)) limit_exceeded
  ok (
      frame_magic
      ++ (to_be_bytes 2 native_receive_contract_version
          ++ (operation ∷ 0 ∷ (to_be_bytes 4 (length payload) ++ payload))))

unfoldable pub encode_frame : ℕ → Bytes → Result NativeReceiveErrorCodeV1 Bytes
encode_frame operation payload =
    encode_frame_with_max operation payload native_receive_result_max_bytes
