-- ===== src/Tests/Receive.antt =====
-- Frames and payloads of rust/src/native_receive_v1.rs.
use openmls_dart.Prelude.{◌^◌, ◌<◌, ◌≡◌, ◌↔◌, refl, [], ◌∷◌, ◌++◌, All, IsByte, Bytes, ok, arith}
use openmls_dart.Receive.Frame.{DecodedHeader, decode_header, encode_frame_with_max}
use openmls_dart.Receive.Frame.RoundTrip.{decode_header_iff}
use openmls_dart.Receive.Preflight.{
  CborPreflight, argument, container_length, counted, by_major, value,
}
use openmls_dart.Receive.Preflight.Argument.{additional_of, shortest, argument_iff}
use openmls_dart.Receive.Preflight.Progress.{Progress, value-Progress}

abbrev frame : Bytes
frame = 75 ∷ 77 ∷ 76 ∷ 83 ∷ 0 ∷ 1 ∷ 2 ∷ 0 ∷ 0 ∷ 0 ∷ 0 ∷ 1 ∷ 246 ∷ []

abbrev header : DecodedHeader
header = record { operation = 2; payload = 246 ∷ [] }

frame-IsByte : All IsByte frame
frame-IsByte = ground arith

decode_header_iff_example :
    (decode_header frame 100 ≡ ok header) ↔ (encode_frame_with_max 2 (246 ∷ []) 100 ≡ ok frame)
decode_header_iff_example = decode_header_iff frame 100 header frame-IsByte (omega arith)

-- 500 takes two bytes.
abbrev long : Bytes
long = 1 ∷ 244 ∷ 7 ∷ []

long-IsByte : All IsByte long
long-IsByte = ground arith

argument_iff_example :
    (argument 25 long ≡ ok (500, 7 ∷ []))
    ↔ ((500 < 2 ^ 64) × (25 ≡ additional_of 500) × (long ≡ shortest 500 ++ 7 ∷ []))
argument_iff_example = argument_iff 25 500 long (7 ∷ []) long-IsByte

-- An array of null and of a map from 1 to 2.
abbrev before : CborPreflight
before = record { input = 130 ∷ 246 ∷ 161 ∷ 1 ∷ 2 ∷ []; items = 0 }

abbrev after : CborPreflight
after = record { input = []; items = 5 }

array_scanned : value 7 before ≡ ok after
unfolding value counted by_major container_length argument
array_scanned = refl

value-Progress_example : Progress before after
value-Progress_example = value-Progress 7 before after array_scanned
