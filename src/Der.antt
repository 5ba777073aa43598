-- ===== src/Der.antt =====
-- src/trust/der.js: the reader of DER elements. Errors are left without their offsets and messages,
-- and so is `what`, which serves the messages alone.
pub mod Tag
pub mod Values
pub mod Times
pub mod Encoding
pub mod Headers
pub mod RoundTrip
pub mod Tiling
pub mod Signatures
pub mod ObjectIds
use tunnelfetch.Prelude.{
  ℕ, zero, suc, ◌+◌, ◌-◌, ◌*◌, ◌/◌, ◌%◌, Bool, true, false, not, ◌||◌, Option, none, some, List, [],
  ◌∷◌, ltb, leb, ◌==◌, if◌then◌else◌, length, take, drop,
}
use tunnelfetch.Der.Tag
use tunnelfetch.Bytes.{Bytes, at}
use tunnelfetch.Errors.{Result, ok, err, Failure, certificate_error, cert_parse, ◌>>=◌}

-- `CLS.UNIVERSAL`
abbrev pub universal : ℕ
universal = 0

pub record Tlv : Type 0 where
  pub cls : ℕ
  pub constructed : Bool
  pub tag : ℕ
  pub start : ℕ
  pub header_len : ℕ
  pub content_start : ℕ
  pub content_end : ℕ
  pub end : ℕ

abbrev pub parse_error : Failure
parse_error = certificate_error cert_parse

-- The loop over the bytes of a high tag number, at its round `i`, with the bytes from `p` on. The
-- high bit of a byte is clear where the byte is below 128.
unfoldable pub tag_loop : ℕ → ℕ → Bytes → Result (ℕ × Bytes)
tag_loop i tag [] = err parse_error
tag_loop i tag (b ∷ bs) =
    let rest = tag_loop (suc i) (tag * 128 + b % 128) bs in
    if leb 4 i then err parse_error else if ltb b 128 then ok (tag * 128 + b, bs) else rest

abbrev leading_80 : Bytes → Bool
leading_80 [] = false
leading_80 (b ∷ bs) = b == 128

-- The tag number, with `first` read and the bytes behind it at hand.
unfoldable pub read_tag : ℕ → Bytes → Result (ℕ × Bytes)
read_tag first bs =
    if not (first % 32 == 31)
    then ok (first % 32, bs)
    else if leading_80 bs
    then err parse_error
    else tag_loop 0 0 bs >>= λ (tag, rest). if ltb tag 31 then err parse_error else ok (tag, rest)

-- `contentLen * 256 + byte` over the bytes of a length.
unfoldable pub from_bytes : ℕ → Bytes → ℕ
from_bytes n [] = n
from_bytes n (b ∷ bs) = from_bytes (n * 256 + b) bs

-- A length of `n` bytes.
unfoldable pub read_long : ℕ → Bytes → Result (ℕ × Bytes)
read_long n bs =
    if ltb 4 n
    then err parse_error
    else if ltb (length bs) n
    then err parse_error
    else if at bs 0 == 0
    then err parse_error
    else if ltb (from_bytes 0 (take n bs)) 128
    then err parse_error
    else ok (from_bytes 0 (take n bs), drop n bs)

unfoldable pub read_length : Bytes → Result (ℕ × Bytes)
read_length [] = err parse_error
read_length (l0 ∷ bs) =
    if ltb l0 128
    then ok (l0, bs)
    else if l0 == 128
    then err parse_error
    else if l0 == 255
    then err parse_error
    else read_long (l0 % 128) bs

-- What is returned once the header is read, `rest` being the bytes from `p` on.
unfoldable pub finish_tlv : ℕ → ℕ → ℕ → ℕ → ℕ → Bytes → Result Tlv
finish_tlv len offset first tag size rest =
    let p = len - length rest in
    if ltb len (p + size)
    then err parse_error
    else ok record {
      cls = first / 64;
      constructed = first / 32 % 2 == 1;
      tag = tag;
      start = offset;
      header_len = p - offset;
      content_start = p;
      content_end = p + size;
      end = p + size;
    }

unfoldable pub read_from : ℕ → ℕ → Bytes → Result Tlv
unfolding read_tag read_length finish_tlv
read_from len offset [] = err parse_error
read_from len offset (first ∷ bs) = do
  (tag, after_tag) ← read_tag first bs
  (size, rest) ← read_length after_tag
  finish_tlv len offset first tag size rest

unfoldable pub read_tlv : Bytes → ℕ → Result Tlv
unfolding read_from
read_tlv bytes offset = read_from (length bytes) offset (drop offset bytes)

-- `bytes.subarray(from, to)`
unfoldable pub subarray : Bytes → ℕ → ℕ → Bytes
subarray bytes from to = take (to - from) (drop from bytes)

unfoldable pub content : Bytes → Tlv → Bytes
unfolding subarray
content bytes t = subarray bytes t.content_start t.content_end

unfoldable pub element : Bytes → Tlv → Bytes
unfolding subarray
element bytes t = subarray bytes t.start t.end

abbrev same : Bool → Bool → Bool
same true b = b
same false b = not b

-- The class that is asked for is always the universal one.
unfoldable pub expect_tlv : Tlv → ℕ → Bool → Result Tlv
expect_tlv t tag constructed =
    if not (t.cls == universal) || not (t.tag == tag) || not (same t.constructed constructed)
    then err parse_error
    else ok t

unfoldable pub read_sequence : Bytes → ℕ → Result Tlv
unfolding read_tlv expect_tlv
read_sequence bytes offset = do t ← read_tlv bytes offset; expect_tlv t Tag.sequence true

-- The loop of `children` from `p` on. The fuel is what lies between `p` and the end at first, and an
-- element takes at least a byte, so that without fuel the loop is over.
unfoldable pub children_loop : ℕ → Bytes → ℕ → ℕ → Result (List Tlv)
unfolding read_tlv
children_loop zero bytes stop p = ok []
children_loop (suc fuel) bytes stop p =
    if leb stop p
    then ok []
    else read_tlv bytes p >>= λ child.
        let rest = children_loop fuel bytes stop child.end in
        if ltb stop child.end then err parse_error else rest >>= λ out. ok (child ∷ out)

unfoldable pub children : Bytes → Tlv → Result (List Tlv)
unfolding children_loop
children bytes t =
    if not t.constructed
    then err parse_error
    else children_loop (t.content_end - t.content_start) bytes t.content_end t.content_start

unfoldable pub read_all : Bytes → Result Tlv
unfolding read_tlv
read_all bytes = do
  t ← read_tlv bytes 0
  if not (t.end == length bytes) then err parse_error else ok t
