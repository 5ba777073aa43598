-- ===== src/Examples/Certificates.antt =====
-- Runs of the DER reader on concrete bytes.
use tunnelfetch.Prelude.{ℕ, ◌+◌, ◌≡◌, refl, true, false, List, [], ◌∷◌, ◌++◌, map, length, arith}
use tunnelfetch.Bytes.{Bytes, IsBytes, concat}
use tunnelfetch.Errors.{ok, tls_error, tls_handshake}
use tunnelfetch.Der.{Tlv, read_tlv, content, element, children, read_all, expect_tlv}
use tunnelfetch.Der.Values.{ecdsa_der_to_raw, read_oid}
use tunnelfetch.Der.Encoding.{encode, header}
use tunnelfetch.Der.Headers.{read_tlv-encode}
use tunnelfetch.Der.RoundTrip.{tlv_at, read_tlv_encoded}
use tunnelfetch.Der.Tiling.{encoded, children-encoded}
use tunnelfetch.Der.Signatures.{der_signature, ecdsa_der_to_raw-der_signature}
use tunnelfetch.Der.ObjectIds.{IsSafe, read_oid_injective}

-- An ECDSA-Sig-Value of 5 and 200.
abbrev signature : Bytes
signature = 0x30 ∷ 7 ∷ 2 ∷ 1 ∷ 5 ∷ 2 ∷ 2 ∷ 0 ∷ 200 ∷ []

abbrev outer : Tlv
outer = record {
  cls = 0;
  constructed = true;
  tag = 16;
  start = 0;
  header_len = 2;
  content_start = 2;
  content_end = 9;
  end = 9;
}

abbrev primitive : ℕ → ℕ → ℕ → Tlv
primitive tag start size = record {
  cls = 0;
  constructed = false;
  tag = tag;
  start = start;
  header_len = 2;
  content_start = start + 2;
  content_end = start + 2 + size;
  end = start + 2 + size;
}

abbrev parts : List Tlv
parts = primitive 2 2 1 ∷ primitive 2 5 2 ∷ []

signature_read : read_tlv signature 0 ≡ ok outer
unfolding read_tlv
signature_read = refl

signature_parts : children signature outer ≡ ok parts
unfolding children
signature_parts = refl

signature_raw : ecdsa_der_to_raw (tls_error tls_handshake) signature 2 ≡ ok (0 ∷ 5 ∷ 0 ∷ 200 ∷ [])
unfolding ecdsa_der_to_raw read_all children expect_tlv
signature_raw = refl

read_tlv-encode_example : element signature outer ≡ encode 0 true 16 (content signature outer)
read_tlv-encode_example = read_tlv-encode signature 0 outer (omega arith) signature_read

children-encoded_example : concat (map (encoded signature) parts) ≡ content signature outer
children-encoded_example =
    children-encoded signature outer parts (omega arith) (omega arith) signature_parts

abbrev raw : Bytes
raw = 0 ∷ 5 ∷ 0 ∷ 200 ∷ []

ecdsa_der_to_raw-der_signature_example :
    (length raw ≡ 2 + 2) × (signature ≡ der_signature (0 ∷ 5 ∷ []) (0 ∷ 200 ∷ []))
ecdsa_der_to_raw-der_signature_example =
    ecdsa_der_to_raw-der_signature (tls_error tls_handshake) signature 2 raw (omega arith)
      signature_raw

-- keyUsage, 2.5.29.15, alone and behind another byte.
abbrev key_usage : Bytes
key_usage = 6 ∷ 3 ∷ 0x55 ∷ 0x1d ∷ 0x0f ∷ []

key_usage_read : read_oid key_usage (primitive 6 0 3) ≡ ok (2 ∷ 5 ∷ 29 ∷ 15 ∷ [])
unfolding read_oid
key_usage_read = refl

key_usage_behind : read_oid (5 ∷ key_usage) (primitive 6 1 3) ≡ ok (2 ∷ 5 ∷ 29 ∷ 15 ∷ [])
unfolding read_oid
key_usage_behind = refl

key_usage-IsSafe : IsSafe (2 ∷ 5 ∷ 29 ∷ 15 ∷ [])
unfolding IsSafe
key_usage-IsSafe = omega arith

key_usage_octets : IsBytes (content key_usage (primitive 6 0 3))
unfolding content
key_usage_octets = omega arith

key_usage_octets_behind : IsBytes (content (5 ∷ key_usage) (primitive 6 1 3))
unfolding content
key_usage_octets_behind = omega arith

read_oid_injective_example :
    content key_usage (primitive 6 0 3) ≡ content (5 ∷ key_usage) (primitive 6 1 3)
read_oid_injective_example =
    read_oid_injective key_usage (5 ∷ key_usage) (primitive 6 0 3) (primitive 6 1 3)
      (2 ∷ 5 ∷ 29 ∷ 15 ∷ []) key_usage_octets key_usage_octets_behind key_usage-IsSafe
      key_usage_read key_usage_behind

read_tlv_encoded_example :
    read_tlv ((7 ∷ []) ++ (encode 2 true 3 (1 ∷ 2 ∷ []) ++ (9 ∷ []))) 1
    ≡ ok (tlv_at 1 (length (header 2 true 3 2)) 2 true 3 2)
read_tlv_encoded_example =
    read_tlv_encoded (7 ∷ []) 2 true 3 (1 ∷ 2 ∷ []) (9 ∷ []) (omega arith) (omega arith)
      (omega arith)
