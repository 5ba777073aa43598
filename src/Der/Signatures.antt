-- ===== src/Der/Signatures.antt =====
-- src/trust/der.js, ecdsaDerToRaw: a signature has one spelling.
use tunnelfetch.Prelude.{
  ℕ, zero, suc, ◌+◌, ◌-◌, ◌≤◌, ◌<◌, ◌≡◌, refl, sym, ap, ◌∙◌, Bool, true, false, not, List, [], ◌∷◌,
  ◌++◌, append-nil, map, leb, ltb, ◌==◌, if◌then◌else◌, length, take, drop, replicate, if_cases,
  leb→lt, ltb→le, arith, length-append, take-append, drop-append, take_all,
}
use mathlib.Core.Path.{subst}
use tunnelfetch.Bytes.{Bytes, IsBytes, concat}
use tunnelfetch.Errors.{Result, ok, err, Failure, bind_inversion, ok-inj, err≢ok}
use tunnelfetch.Der.{
  Tlv, universal, read_tlv, content, element, subarray, expect_tlv, children, read_all,
}
use tunnelfetch.Der.Tag
use tunnelfetch.Der.Values.{
  DerInteger, integer_of, read_integer, half, unsigned, pair_to_raw, ecdsa_der_to_raw, or_invalid,
  signature_parts, non_minimal,
}
use tunnelfetch.Der.Encoding.{encode}
use tunnelfetch.Der.Headers.{IsRead, read_tlv-IsRead, read_tlv-encode}
use tunnelfetch.Der.Tiling.{children-encoded, encoded}

unfoldable pub strip_zeros : Bytes → Bytes
strip_zeros [] = []
strip_zeros (b ∷ bs) = let rest = strip_zeros bs in if b == 0 then rest else b ∷ bs

-- The content of an INTEGER whose magnitude has these bytes, without leading zeros.
unfoldable pub signed : Bytes → Bytes
signed [] = 0 ∷ []
signed (b ∷ bs) = if ltb b 128 then b ∷ bs else 0 ∷ b ∷ bs

-- An INTEGER for a number of any width.
unfoldable pub der_integer : Bytes → Bytes
unfolding strip_zeros signed encode
der_integer number = encode universal false Tag.integer (signed (strip_zeros number))

-- ECDSA-Sig-Value
unfoldable pub der_signature : Bytes → Bytes → Bytes
unfolding der_integer encode
der_signature r s = encode universal true Tag.sequence (der_integer r ++ der_integer s)

strip_zeros-replicate : (n : ℕ) (bs : Bytes) → strip_zeros (replicate n 0 ++ bs) ≡ strip_zeros bs
unfolding strip_zeros
strip_zeros-replicate zero bs = refl
strip_zeros-replicate (suc n) bs = strip_zeros-replicate n bs

signed-unsigned :
    (b : ℕ) (bs : Bytes)
    → non_minimal (b ∷ bs) ≡ false
    → b < 128
    → signed (strip_zeros (unsigned (b ∷ bs))) ≡ b ∷ bs
unfolding signed strip_zeros
signed-unsigned a [] minimal small = ground arith
signed-unsigned a (b ∷ bs) minimal small = ground arith

length-replicate : (n a : ℕ) → length (replicate n a) ≡ n
length-replicate zero a = refl
length-replicate (suc n) a = omega (arith, length-replicate n a)

-- What one half of a raw signature says of the integer that it was made of.
signed-half :
    (invalid : Failure) (n : ℕ) (c : Bytes) (part : DerInteger) (h : Bytes)
    → integer_of c ≡ ok part
    → half invalid n part ≡ ok h
    → (length h ≡ n) × (signed (strip_zeros h) ≡ c)
unfolding integer_of half
signed-half invalid n [] part h e f = absurd (err≢ok e)
signed-half invalid n (b ∷ bs) part h e f =
    if_cases (λ r. r ≡ ok part → Goal) (non_minimal (b ∷ bs)) (λ bad q. absurd (err≢ok q))
      (λ minimal q.
        if_cases (λ r. r ≡ ok h → Goal) (leb 128 b) (λ negative r. absurd (err≢ok r))
          (λ positive r.
            if_cases (λ o. o ≡ ok h → Goal) (ltb n (length plain)) (λ wide o. absurd (err≢ok o))
              (λ fits o. placed minimal (leb→lt 128 b positive) (ltb→le _ _ fits) (ok-inj o)) r)
          (subst (λ p. half invalid n p ≡ ok h) (sym (ok-inj q)) f))
      e
  where
    Goal : Type 0
    Goal = (length h ≡ n) × (signed (strip_zeros h) ≡ b ∷ bs)

    plain : Bytes
    plain = unsigned (b ∷ bs)

    placed :
        non_minimal (b ∷ bs) ≡ false
        → b < 128
        → length plain ≤ n
        → replicate (n - length plain) 0 ++ plain ≡ h
        → Goal
    placed minimal positive fits shape = (
      omega (
        arith,
        ap length shape,
        length-append (replicate (n - length plain) 0) plain,
        length-replicate (n - length plain) 0,
      ),
      ap (λ xs. signed (strip_zeros xs)) (sym shape)
          ∙ ap signed (strip_zeros-replicate (n - length plain) plain)
          ∙ signed-unsigned b bs minimal positive,
    )

expect_tlv_shape :
    (t seq : Tlv) (tag : ℕ) (constructed : Bool)
    → expect_tlv t tag constructed ≡ ok seq
    → (seq ≡ t) × (t.cls ≡ universal) × (t.tag ≡ tag) × (t.constructed ≡ constructed)
unfolding expect_tlv
expect_tlv_shape t seq tag constructed e = ground arith

or_invalid_ok {ℓ} :
    {A : Type ℓ} (invalid : Failure) (r : Result A) (a : A) → or_invalid invalid r ≡ ok a → r ≡ ok a
or_invalid_ok invalid (err e) a h = absurd (err≢ok h)
or_invalid_ok invalid (ok b) a h = h

-- An INTEGER whose half of the signature is `h` is the encoding of `h`.
integer_half :
    (invalid : Failure) (n : ℕ) (sig : Bytes) (kid : Tlv) (part : DerInteger) (h : Bytes)
    → read_integer sig kid ≡ ok part
    → half invalid n part ≡ ok h
    → (length h ≡ n) × (encoded sig kid ≡ der_integer h)
unfolding read_integer der_integer
integer_half invalid n sig kid part h e f =
    let (seq, shape, value) = bind_inversion (expect_tlv kid Tag.integer false) _ e in
    let (same, cls, tag, form) = expect_tlv_shape kid seq Tag.integer false shape in
    let (long, body) = signed-half invalid n (content sig kid) part h value f in
    (long, rw (cls, tag, form, body) refl)

-- A signature that is all one element.
sequence_whole :
    (sig : Bytes) (seq : Tlv)
    → IsBytes sig
    → read_all sig ≡ ok seq
    → (sig ≡ encoded sig seq) × (seq.content_start ≤ seq.content_end)
unfolding read_all element subarray
sequence_whole sig seq octets e =
    let (t, read, rest) = bind_inversion (read_tlv sig 0) _ e in
    let h = read_tlv-IsRead sig 0 t octets read in
    if_cases (λ r. r ≡ ok seq → (sig ≡ encoded sig seq) × (seq.content_start ≤ seq.content_end))
      (not (t.end == length sig)) (λ more q. absurd (err≢ok q))
      (λ all q.
        subst (λ s. (sig ≡ encoded sig s) × (s.content_start ≤ s.content_end)) (ok-inj q)
          (whole t h all ∙ read_tlv-encode sig 0 t octets read, h.ordered))
      rest
  where
    whole : (t : Tlv) → IsRead sig 0 t → not (t.end == length sig) ≡ false → sig ≡ element sig t
    whole t h all =
        let everything : t.end - t.start ≡ length sig = ground (arith, h.starts, all) in
        rw (everything, h.starts) (sym (take_all (length sig) sig refl))

halves_joined :
    (n : ℕ) (a b x y : Bytes)
    → length a ≡ n
    → length b ≡ n
    → x ≡ der_integer a
    → y ≡ der_integer b
    → (length (a ++ b) ≡ n + n)
      × (x ++ (y ++ []) ≡ der_integer (take n (a ++ b)) ++ der_integer (drop n (a ++ b)))
halves_joined n a b x y long_a long_b first second =
    let front : take n (a ++ b) ≡ a = subst (λ k. take k (a ++ b) ≡ a) long_a (take-append a b) in
    let back : drop n (a ++ b) ≡ b = subst (λ k. drop k (a ++ b) ≡ b) long_a (drop-append a b) in
    (omega (arith, length-append a b), rw (front, back, first, second, append-nil) refl)

from_pair :
    (invalid : Failure) (sig : Bytes) (n : ℕ) (kids : List Tlv) (raw : Bytes)
    → pair_to_raw invalid sig n kids ≡ ok raw
    → (length raw ≡ n + n)
      × (concat (map (encoded sig) kids) ≡ der_integer (take n raw) ++ der_integer (drop n raw))
unfolding pair_to_raw concat
from_pair invalid sig n [] raw e = absurd (err≢ok e)
from_pair invalid sig n (k ∷ []) raw e = absurd (err≢ok e)
from_pair invalid sig n (k1 ∷ k2 ∷ k3 ∷ ks) raw e = absurd (err≢ok e)
from_pair invalid sig n (k1 ∷ k2 ∷ []) raw e =
    let (r, read_r, e1) = bind_inversion (or_invalid invalid (read_integer sig k1)) _ e in
    let (s, read_s, e2) = bind_inversion (or_invalid invalid (read_integer sig k2)) _ e1 in
    let (a, half_r, e3) = bind_inversion (half invalid n r) _ e2 in
    let (b, half_s, e4) = bind_inversion (half invalid n s) _ e3 in
    let (long_a, part_a) =
      integer_half invalid n sig k1 r a (or_invalid_ok invalid _ r read_r) half_r in
    let (long_b, part_b) =
      integer_half invalid n sig k2 s b (or_invalid_ok invalid _ s read_s) half_s in
    let joined : a ++ b ≡ raw = ok-inj e4 in
    subst
      (λ xs.
        (length xs ≡ n + n)
        × (concat (map (encoded sig) (k1 ∷ k2 ∷ []))
            ≡ der_integer (take n xs) ++ der_integer (drop n xs)))
      joined (halves_joined n a b _ _ long_a long_b part_a part_b)

-- A DER signature that is accepted is the encoding of the raw one that comes out, which has twice the
-- width of the order: two byte strings for one signature are never both accepted.
pub ecdsa_der_to_raw-der_signature :
    (invalid : Failure) (sig : Bytes) (n : ℕ) (raw : Bytes)
    → IsBytes sig
    → ecdsa_der_to_raw invalid sig n ≡ ok raw
    → (length raw ≡ n + n) × (sig ≡ der_signature (take n raw) (drop n raw))
unfolding ecdsa_der_to_raw der_signature
ecdsa_der_to_raw-der_signature invalid sig n raw octets e =
    let (kids, parts, pair) = bind_inversion (or_invalid invalid (signature_parts sig)) _ e in
    let (t, read, e1) = bind_inversion (read_all sig) _ (or_invalid_ok invalid _ kids parts) in
    let (seq, shape, fields) = bind_inversion (expect_tlv t Tag.sequence true) _ e1 in
    let (same, cls, tag, form) = expect_tlv_shape t seq Tag.sequence true shape in
    let (whole, order) = sequence_whole sig t octets read in
    let (long, integers) = from_pair invalid sig n kids raw pair in
    let tiled =
      children-encoded sig t kids octets order
        (subst (λ s. children sig s ≡ ok kids) same fields) in
    (long, whole ∙ rw (cls, tag, form, ← tiled, integers) refl)
