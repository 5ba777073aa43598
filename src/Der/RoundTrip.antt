-- ===== src/Der/RoundTrip.antt =====
-- src/trust/der.js, readTlv on the encoding of an element.
use tunnelfetch.Prelude.{
  ℕ, ◌+◌, ◌^◌, ◌≤◌, ◌<◌, ◌≡◌, refl, ap, ◌∙◌, Bool, ◌∷◌, ◌++◌, append_assoc, length, arith, lt→ltb,
  length-append, drop-append,
}
use tunnelfetch.Bytes.{Bytes, u8, u16, u24, u32}
use tunnelfetch.Errors.{ok}
use tunnelfetch.Der.{
  Tlv, read_tag, from_bytes, read_long, read_length, finish_tlv, read_from, read_tlv,
}
use tunnelfetch.Der.Encoding.{length_octets, identifier, high_tag, header, encode}

read_length-length_octets :
    (n : ℕ) (rest : Bytes) → n < 2 ^ 32 → read_length (length_octets n ++ rest) ≡ ok (n, rest)
unfolding read_length read_long length_octets from_bytes u8 u16 u24 u32
read_length-length_octets n rest small = ground arith

read_tag-identifier :
    (cls : ℕ) (constructed : Bool) (tag : ℕ) (rest : Bytes)
    → tag < 31
    → read_tag (identifier cls constructed tag) rest ≡ ok (tag, rest)
unfolding read_tag identifier
read_tag-identifier cls constructed tag rest low = ground arith

read_from_header :
    (len o cls : ℕ) (constructed : Bool) (tag size : ℕ) (rest : Bytes)
    → tag < 31
    → size < 2 ^ 32
    → read_from len o (identifier cls constructed tag ∷ length_octets size ++ rest)
      ≡ finish_tlv len o (identifier cls constructed tag) tag size rest
unfolding read_from
read_from_header len o cls constructed tag size rest low short =
    rw
      (
        read_tag-identifier cls constructed tag (length_octets size ++ rest) low,
        read_length-length_octets size rest short,
      )
      refl

-- The element at `o` with a header of `head` bytes before `size` bytes.
abbrev pub tlv_at : ℕ → ℕ → ℕ → Bool → ℕ → ℕ → Tlv
tlv_at o head cls constructed tag size = record {
  cls = cls;
  constructed = constructed;
  tag = tag;
  start = o;
  header_len = head;
  content_start = o + head;
  content_end = o + head + size;
  end = o + head + size;
}

finish_tlv_at :
    (len o cls : ℕ) (constructed : Bool) (tag size head : ℕ) (rest : Bytes)
    → cls < 4
    → tag < 31
    → len ≡ o + head + length rest
    → size ≤ length rest
    → finish_tlv len o (identifier cls constructed tag) tag size rest
      ≡ ok (tlv_at o head cls constructed tag size)
unfolding finish_tlv identifier
finish_tlv_at len o cls constructed tag size head rest few low whole fits = ground arith

header_low :
    (cls : ℕ) (constructed : Bool) (tag size : ℕ)
    → tag < 31
    → header cls constructed tag size ≡ identifier cls constructed tag ∷ length_octets size
unfolding header high_tag
header_low cls constructed tag size low = rw (lt→ltb tag 31 low) refl

-- The encoding of an element of a low tag number is read back wherever it stands.
pub read_tlv_encoded :
    (front : Bytes) (cls : ℕ) (constructed : Bool) (tag : ℕ) (body back : Bytes)
    → cls < 4
    → tag < 31
    → length body < 2 ^ 32
    → read_tlv (front ++ (encode cls constructed tag body ++ back)) (length front)
      ≡ ok (
          tlv_at
            (length front)
            (length (header cls constructed tag (length body)))
            cls
            constructed
            tag
            (length body))
unfolding read_tlv encode
read_tlv_encoded front cls constructed tag body back few low short =
    let first = identifier cls constructed tag in
    let all = front ++ (encode cls constructed tag body ++ back) in
    let head = header cls constructed tag (length body) in
    ap (read_from (length all) (length front)) (
      drop-append front (encode cls constructed tag body ++ back)
      ∙ append_assoc head body back
      ∙ ap (λ h. h ++ (body ++ back)) (header_low cls constructed tag (length body) low))
    ∙ read_from_header (length all) (length front) cls constructed tag (length body) (body ++ back)
        low short
    ∙ finish_tlv_at (length all) (length front) cls constructed tag (length body) (length head)
        (body ++ back) few low
        (omega (
          arith,
          length-append front (encode cls constructed tag body ++ back),
          ap length (append_assoc head body back),
          length-append head (body ++ back),
        ))
        (omega (arith, length-append body back))
