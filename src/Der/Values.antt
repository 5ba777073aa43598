-- ===== src/Der/Values.antt =====
-- src/trust/der.js: the readers of integers, object identifiers, bit strings, booleans and text, and
-- the conversion of ECDSA signatures.
use tunnelfetch.Prelude.{
  ℕ, ◌+◌, ◌-◌, ◌*◌, ◌/◌, ◌%◌, ◌^◌, Bool, true, false, not, ◌&&◌, ◌||◌, Option, none, some, List, [],
  ◌∷◌, ◌++◌, ltb, leb, ◌==◌, if◌then◌else◌, length, replicate,
}
use tunnelfetch.Prelude.Texts.{Text}
use tunnelfetch.Bytes.{Bytes}
use tunnelfetch.Errors.{Result, ok, err, Failure, ◌>>=◌}
use tunnelfetch.Der.{Tlv, parse_error, content, expect_tlv, read_all, children, from_bytes}
use tunnelfetch.Der.Tag

-- What `readInteger` returns; the value is there if it is a safe number.
pub record DerInteger : Type 0 where
  pub bytes : Bytes
  pub value : Option ℕ
  pub negative : Bool

-- Nine leading bits that are all the same.
abbrev pub non_minimal : Bytes → Bool
non_minimal [] = false
non_minimal (a ∷ []) = false
non_minimal (a ∷ b ∷ bs) = (a == 0 && ltb b 128) || (a == 255 && leb 128 b)

unfoldable pub integer_of : Bytes → Result DerInteger
unfolding from_bytes
integer_of [] = err parse_error
integer_of (b ∷ bs) =
    if non_minimal (b ∷ bs)
    then err parse_error
    else ok record {
      bytes = b ∷ bs;
      value =
          if ltb b 128 && (ltb (length (b ∷ bs)) 7 || (length (b ∷ bs) == 7 && ltb b 32))
          then some (from_bytes 0 (b ∷ bs))
          else none;
      negative = leb 128 b;
    }

unfoldable pub read_integer : Bytes → Tlv → Result DerInteger
unfolding content expect_tlv integer_of
read_integer bytes t = do _ ← expect_tlv t Tag.integer false; integer_of (content bytes t)

-- A multiple of `m` next to `n`, the even one of two that are as near.
unfoldable pub nearest : ℕ → ℕ → ℕ
nearest m n =
    if ltb (n % m * 2) m
    then n / m * m
    else if ltb m (n % m * 2)
    then (n / m + 1) * m
    else (n / m + n / m % 2) * m

-- The sum `value * 128 + (b & 0x7f)` as a number of JavaScript, which has 53 bits. The product is
-- exact. `value` is below 2^50, so that the sum is below 2^57.
unfoldable pub to_double : ℕ → ℕ
unfolding nearest
to_double n =
    if ltb n (2 ^ 53)
    then n
    else if ltb n (2 ^ 54)
    then nearest 2 n
    else if ltb n (2 ^ 55)
    then nearest 4 n
    else if ltb n (2 ^ 56)
    then nearest 8 n
    else nearest 16 n

-- The loop of `readOid`, with the sub-identifiers that it pushes from here on.
unfoldable pub oid_loop : ℕ → Bool → Bytes → Result (List ℕ)
unfolding to_double
oid_loop value in_sub [] = if in_sub then err parse_error else ok []
oid_loop value in_sub (b ∷ bs) =
    let last = ltb b 128 in
    let next = to_double (value * 128 + b % 128) in
    let rest = oid_loop (if last then 0 else next) (not last) bs in
    if not in_sub && b == 128
    then err parse_error
    else if ltb 0x3ffffffffffff value
    then err parse_error
    else rest >>= λ arcs. ok (if last then next ∷ arcs else arcs)

-- The numbers that the dotted form joins. There is a first sub-identifier where the bytes are not
-- empty.
unfoldable pub dotted : List ℕ → List ℕ
dotted [] = []
dotted (first ∷ arcs) =
    let x = if ltb first 40 then 0 else if ltb first 80 then 1 else 2 in x ∷ (first - x * 40) ∷ arcs

unfoldable pub oid_of : Bytes → Result (List ℕ)
unfolding oid_loop dotted
oid_of [] = err parse_error
oid_of (b ∷ bs) = oid_loop 0 false (b ∷ bs) >>= λ arcs. ok (dotted arcs)

unfoldable pub read_oid : Bytes → Tlv → Result (List ℕ)
unfolding content expect_tlv oid_of
read_oid bytes t = do _ ← expect_tlv t Tag.oid false; oid_of (content bytes t)

abbrev last_or : ℕ → Bytes → ℕ
last_or b [] = b
last_or b (c ∷ bs) = last_or c bs

abbrev is_empty : Bytes → Bool
is_empty [] = true
is_empty (b ∷ bs) = false

-- The number of unused bits and the payload. `x & ((1 << n) - 1)` is `x % 2 ^ n`.
unfoldable pub bit_string_of : Bytes → Result (ℕ × Bytes)
bit_string_of [] = err parse_error
bit_string_of (unused ∷ bs) =
    if ltb 7 unused
    then err parse_error
    else if is_empty bs && not (unused == 0)
    then err parse_error
    else if ltb 0 unused && not (last_or unused bs % 2 ^ unused == 0)
    then err parse_error
    else ok (unused, bs)

unfoldable pub read_bit_string : Bytes → Tlv → Result (ℕ × Bytes)
unfolding content expect_tlv bit_string_of
read_bit_string bytes t = do _ ← expect_tlv t Tag.bit_string false; bit_string_of (content bytes t)

unfoldable pub boolean_of : Bytes → Result Bool
boolean_of [] = err parse_error
boolean_of (b ∷ []) = if not (b == 0) && not (b == 255) then err parse_error else ok (b == 255)
boolean_of (b ∷ c ∷ bs) = err parse_error

unfoldable pub read_boolean : Bytes → Tlv → Result Bool
unfolding content expect_tlv boolean_of
read_boolean bytes t = do _ ← expect_tlv t Tag.boolean false; boolean_of (content bytes t)

abbrev pub is_digit : ℕ → Bool
is_digit b = leb 0x30 b && leb b 0x39

abbrev pub printable : ℕ → Bool
printable b =
    (leb 0x41 b && leb b 0x5a)
    || (leb 0x61 b && leb b 0x7a)
    || is_digit b
    || b == 0x20
    || (leb 0x27 b && leb b 0x2f && not (b == 0x2a))
    || b == 0x3a
    || b == 0x3d
    || b == 0x3f

abbrev pub numeric : ℕ → Bool
numeric b = is_digit b || b == 0x20

abbrev pub ascii : ℕ → Bool
ascii b = leb b 0x7f

-- A byte as a character, if all are in the alphabet.
unfoldable pub latin : (ℕ → Bool) → Bytes → Result Text
latin alphabet [] = ok []
latin alphabet (b ∷ bs) =
    let rest = latin alphabet bs in
    if not (alphabet b) then err parse_error else rest >>= λ s. ok (b ∷ s)

-- The length is even: at an odd one the last byte would stand alone.
unfoldable pub code_units : Bytes → Result Text
code_units [] = ok []
code_units (a ∷ []) = err parse_error
code_units (a ∷ b ∷ bs) =
    let rest = code_units bs in
    let unit = a * 256 + b in
    if leb 0xd800 unit && leb unit 0xdfff then err parse_error else rest >>= λ s. ok (unit ∷ s)

-- `utf8` is TextDecoder with the option `fatal`.
unfoldable pub read_string : (Bytes → Option Text) → Bytes → Tlv → Result Text
unfolding content latin code_units
read_string utf8 bytes t =
    let c = content bytes t in
    if t.tag == Tag.utf8_string
    then elim (utf8 c) [ none ↦ err parse_error | some s ↦ ok s ]
    else if t.tag == Tag.printable_string
    then latin printable c
    else if t.tag == Tag.ia5_string || t.tag == Tag.visible_string
    then latin ascii c
    else if t.tag == Tag.numeric_string
    then latin (λ b. ascii b && numeric b) c
    else if t.tag == Tag.teletex_string
    then latin (λ b. true) c
    else if t.tag == Tag.bmp_string
    then code_units c
    else err parse_error

-- What is caught is thrown as the caller's error, which `onInvalid` builds.
abbrev pub or_invalid {ℓ} : {A : Type ℓ} → Failure → Result A → Result A
or_invalid invalid (err e) = err invalid
or_invalid invalid (ok a) = ok a

-- The sign byte is left out.
abbrev pub unsigned : Bytes → Bytes
unsigned [] = []
unsigned (a ∷ []) = a ∷ []
unsigned (a ∷ b ∷ bs) = if a == 0 then b ∷ bs else a ∷ b ∷ bs

-- One half of the signature, set to the right end of its place among zeros.
unfoldable pub half : Failure → ℕ → DerInteger → Result Bytes
half invalid order_len part =
    if part.negative
    then err invalid
    else if ltb order_len (length (unsigned part.bytes))
    then err invalid
    else ok (replicate (order_len - length (unsigned part.bytes)) 0 ++ unsigned part.bytes)

unfoldable pub pair_to_raw : Failure → Bytes → ℕ → List Tlv → Result Bytes
unfolding read_integer half
pair_to_raw invalid sig order_len (k1 ∷ k2 ∷ []) = do
  r ← or_invalid invalid (read_integer sig k1)
  s ← or_invalid invalid (read_integer sig k2)
  first ← half invalid order_len r
  second ← half invalid order_len s
  ok (first ++ second)
pair_to_raw invalid sig order_len kids = err invalid

abbrev pub signature_parts : Bytes → Result (List Tlv)
signature_parts sig = do t ← read_all sig; seq ← expect_tlv t Tag.sequence true; children sig seq

unfoldable pub ecdsa_der_to_raw : Failure → Bytes → ℕ → Result Bytes
unfolding pair_to_raw
ecdsa_der_to_raw invalid sig order_len = do
  kids ← or_invalid invalid (signature_parts sig)
  pair_to_raw invalid sig order_len kids
