-- ===== src/Der/Headers.antt =====
-- src/trust/der.js, readTlv: the headers that it accepts are the distinguished ones.
use tunnelfetch.Prelude.{
  ℕ, zero, suc, ◌+◌, ◌-◌, ◌*◌, ◌/◌, ◌%◌, ◌≤◌, ◌<◌, ◌≡◌, ◌≢◌, refl, sym, ap, ◌∙◌, true, false, not,
  [], ◌∷◌, ◌++◌, append_assoc, ltb, leb, ◌==◌, if◌then◌else◌, length, take, drop, if_cases, ltb→lt,
  ltb→le, arith, take-append-drop, drop-append, drop-All, All_behind, length-append, length-take,
  length-drop, take_past,
}
use mathlib.Core.Path.{subst}
use tunnelfetch.Bytes.{Bytes, IsBytes, IsByte, u8, u16, u24, u32}
use tunnelfetch.Errors.{Result, ok, err, bind_inversion, ok-inj, err≢ok, ◌>>=◌}
use tunnelfetch.Der.{
  Tlv, tag_loop, read_tag, from_bytes, read_long, read_length, finish_tlv, read_from, read_tlv,
  content, element, subarray, leading_80, parse_error,
}
use tunnelfetch.Der.Encoding.{
  septets, base128, length_octets, identifier, high_tag, header, encode, septets_step, base128_step,
}

-- What the loop has read and has yet to read is the number in base 128 and what is behind it.
tag_loop_digits :
    (i v : ℕ) (bs : Bytes) (t : ℕ) (rest : Bytes)
    → IsBytes bs
    → (v ≡ 0 → leading_80 bs ≡ false)
    → tag_loop i v bs ≡ ok (t, rest)
    → septets v v ++ bs ≡ base128 t ++ rest
unfolding tag_loop base128
tag_loop_digits i v [] t rest bytes lead e = absurd (cc e)
tag_loop_digits i v (b ∷ bs) t rest bytes lead e =
    if_cases P (leb 4 i) (λ wide q. absurd (err≢ok q))
      (λ narrow.
        if_cases P (ltb b 128) last
          (more (tag_loop_digits (suc i) (v * 128 + b % 128) bs t rest (bytes.1))))
      e
  where
    P : Result (ℕ × Bytes) → Type 0
    P r = r ≡ ok (t, rest) → septets v v ++ b ∷ bs ≡ base128 t ++ rest

    last : ltb b 128 ≡ true → P (ok (v * 128 + b, bs))
    last small q =
        let number : v * 128 + b ≡ t = cc in
        let behind : bs ≡ rest = cc in
        rw (
          sym number,
          sym behind,
          base128_step v b (ltb→lt b 128 small),
          append_assoc (septets v v) (b ∷ []) bs,
        )

    more :
        ((v * 128 + b % 128 ≡ 0 → leading_80 bs ≡ false)
          → tag_loop (suc i) (v * 128 + b % 128) bs ≡ ok (t, rest)
          → septets (v * 128 + b % 128) (v * 128 + b % 128) ++ bs ≡ base128 t ++ rest)
        → ltb b 128 ≡ false
        → P (tag_loop (suc i) (v * 128 + b % 128) bs)
    more later large q =
        let some_digit : v * 128 + b % 128 ≢ 0 = λ none_yet. ground (arith, lead (omega arith)) in
        let marked : 128 + b % 128 ≡ b = omega (arith, ltb→le b 128 large, bytes) in
        sym (append_assoc (septets v v) (b ∷ []) bs)
        ∙ ap (λ (c : ℕ). (septets v v ++ c ∷ []) ++ bs) (sym marked)
        ∙ ap (λ ds. ds ++ bs) (sym (septets_step v (b % 128) (omega arith) some_digit))
        ∙ later (λ none_yet. absurd (some_digit none_yet)) q

read_long_octets :
    (n : ℕ) (bs : Bytes) (size : ℕ) (rest : Bytes)
    → IsBytes bs
    → read_long n bs ≡ ok (size, rest)
    → (128 + n) ∷ bs ≡ length_octets size ++ rest
unfolding read_long length_octets from_bytes u8 u16 u24 u32
read_long_octets zero bs size rest bytes e = ground arith
read_long_octets (suc zero) [] size rest bytes e = ground arith
read_long_octets (suc zero) (a ∷ bs) size rest bytes e = ground arith
read_long_octets (suc (suc zero)) [] size rest bytes e = ground arith
read_long_octets (suc (suc zero)) (a ∷ []) size rest bytes e = ground arith
read_long_octets (suc (suc zero)) (a ∷ b ∷ bs) size rest bytes e = ground arith
read_long_octets (suc (suc (suc zero))) [] size rest bytes e = ground arith
read_long_octets (suc (suc (suc zero))) (a ∷ []) size rest bytes e = ground arith
read_long_octets (suc (suc (suc zero))) (a ∷ b ∷ []) size rest bytes e = ground arith
read_long_octets (suc (suc (suc zero))) (a ∷ b ∷ c ∷ bs) size rest bytes e = ground arith
read_long_octets (suc (suc (suc (suc zero)))) [] size rest bytes e = ground arith
read_long_octets (suc (suc (suc (suc zero)))) (a ∷ []) size rest bytes e = ground arith
read_long_octets (suc (suc (suc (suc zero)))) (a ∷ b ∷ []) size rest bytes e = ground arith
read_long_octets (suc (suc (suc (suc zero)))) (a ∷ b ∷ c ∷ []) size rest bytes e = ground arith
read_long_octets (suc (suc (suc (suc zero)))) (a ∷ b ∷ c ∷ d ∷ bs) size rest bytes e = ground arith
read_long_octets (suc (suc (suc (suc (suc n))))) bs size rest bytes e = ground arith

read_length_octets :
    (bs : Bytes) (size : ℕ) (rest : Bytes)
    → IsBytes bs
    → read_length bs ≡ ok (size, rest)
    → bs ≡ length_octets size ++ rest
unfolding read_length length_octets u8
read_length_octets [] size rest bytes e = absurd (err≢ok e)
read_length_octets (l ∷ bs) size rest bytes e =
    ground (arith, read_long_octets (l % 128) bs size rest (bytes.1))

read_tag_octets :
    (first : ℕ) (bs : Bytes) (tag : ℕ) (rest : Bytes)
    → IsBytes bs
    → read_tag first bs ≡ ok (tag, rest)
    → (bs ≡ high_tag tag ++ rest) × (first % 32 ≡ (if ltb tag 31 then tag else 31))
unfolding read_tag high_tag
read_tag_octets first bs tag rest bytes e =
    if_cases P (not (first % 32 == 31)) (λ low q. ground arith)
      (λ high. if_cases P (leading_80 bs) (λ padded q. absurd (err≢ok q)) go) e
  where
    P : Result (ℕ × Bytes) → Type 0
    P r =
        r ≡ ok (tag, rest)
        → (bs ≡ high_tag tag ++ rest) × (first % 32 ≡ (if ltb tag 31 then tag else 31))

    go :
        leading_80 bs ≡ false
        → P (
            tag_loop 0 0 bs >>= λ (n, behind). if ltb n 31 then err parse_error else ok (n, behind))
    go minimal q =
        let ((n, behind), read, checked) = bind_inversion (tag_loop 0 0 bs) _ q in
        let digits = tag_loop_digits 0 0 bs n behind bytes (λ none_yet. minimal) read in
        ground arith

-- What readTlv has found out about the element at `o`.
pub record IsRead (bytes : Bytes) (o : ℕ) (t : Tlv) : Type 0 where
  pub starts : t.start ≡ o
  pub behind : o < t.content_start
  pub ordered : t.content_start ≤ t.content_end
  pub ends : t.end ≡ t.content_end
  pub inside : t.content_end ≤ length bytes
  pub split :
      drop o bytes
      ≡ header t.cls t.constructed t.tag (t.content_end - t.content_start)
        ++ drop t.content_start bytes

-- A suffix is what its length leaves to be dropped.
drop_suffix :
    (o : ℕ) (bytes front rest : Bytes)
    → drop o bytes ≡ front ++ rest
    → rest ≡ drop (length bytes - length rest) bytes
drop_suffix o bytes front rest e =
    let whole : bytes ≡ (take o bytes ++ front) ++ rest =
      sym (take-append-drop o bytes)
      ∙ ap (λ xs. take o bytes ++ xs) e
      ∙ sym (append_assoc (take o bytes) front rest) in
    let size : length bytes - length rest ≡ length (take o bytes ++ front) =
      omega (arith, ap length whole, length-append (take o bytes ++ front) rest) in
    sym (
      ap (λ n. drop n bytes) size
      ∙ ap (drop (length (take o bytes ++ front))) whole
      ∙ drop-append (take o bytes ++ front) rest)

identifier_first :
    (first tag : ℕ)
    → first < 256
    → first % 32 ≡ (if ltb tag 31 then tag else 31)
    → identifier (first / 64) (first / 32 % 2 == 1) tag ≡ first
unfolding identifier
identifier_first first tag byte low = ground arith

finish_tlv-IsRead :
    (bytes : Bytes) (o first tag size : ℕ) (rest : Bytes) (t : Tlv)
    → first < 256
    → first % 32 ≡ (if ltb tag 31 then tag else 31)
    → drop o bytes ≡ first ∷ high_tag tag ++ length_octets size ++ rest
    → finish_tlv (length bytes) o first tag size rest ≡ ok t
    → IsRead bytes o t
unfolding finish_tlv header
finish_tlv-IsRead bytes o first tag size rest t byte low shape e =
    if_cases (λ r. r ≡ ok t → IsRead bytes o t)
      (ltb (length bytes) (length bytes - length rest + size)) (λ short q. absurd (err≢ok q))
      (λ fits q. subst (IsRead bytes o) (ok-inj q) record {
        starts = refl;
        behind = omega (
          arith,
          ap length shape,
          length-append (first ∷ high_tag tag ++ length_octets size) rest,
          length-drop o bytes,
        );
        ordered = omega arith;
        ends = refl;
        inside = ltb→le _ _ fits;
        split =
            let same_size : length bytes - length rest + size - (length bytes - length rest)
                ≡ size =
              omega arith in
            rw
              (
                same_size,
                identifier_first first tag byte low,
                ← drop_suffix o bytes (first ∷ high_tag tag ++ length_octets size) rest shape,
              )
              shape;
      })
      e

pub read_tlv-IsRead :
    (bytes : Bytes) (o : ℕ) (t : Tlv) → IsBytes bytes → read_tlv bytes o ≡ ok t → IsRead bytes o t
unfolding read_tlv
read_tlv-IsRead bytes o t octets e = go (drop o bytes) refl e
  where
    go : (xs : Bytes) → drop o bytes ≡ xs → read_from (length bytes) o xs ≡ ok t → IsRead bytes o t
    go [] shape r = absurd (err≢ok r)
    go (first ∷ bs) shape r =
        let all_bytes = subst IsBytes shape (drop-All IsByte o bytes octets) in
        let ((tag, after_tag), r1, chain) = bind_inversion (read_tag first bs) _ r in
        let (tag_bytes, low) = read_tag_octets first bs tag after_tag (all_bytes.1) r1 in
        let after =
          All_behind IsByte (high_tag tag) after_tag (subst IsBytes tag_bytes (all_bytes.1)) in
        let ((size, rest), r2, finish) = bind_inversion (read_length after_tag) _ chain in
        let size_bytes = read_length_octets after_tag size rest after r2 in
        let bytes_read =
          shape
          ∙ ap (λ xs. first ∷ xs)
              (tag_bytes
                ∙ ap (λ ys. high_tag tag ++ ys) size_bytes
                ∙ sym (append_assoc (high_tag tag) (length_octets size) rest)) in
        finish_tlv-IsRead bytes o first tag size rest t (all_bytes.0) low bytes_read finish

-- The slices of an element that is read, wherever it stands.
pub element_split :
    (bytes : Bytes) (o : ℕ) (t : Tlv)
    → IsRead bytes o t
    → element bytes t ≡ encode t.cls t.constructed t.tag (content bytes t)
unfolding element content subarray encode
element_split bytes o t h =
    let size = t.content_end - t.content_start in
    let front = header t.cls t.constructed t.tag size in
    let behind = drop t.content_start bytes in
    let long : length (take size behind) ≡ size =
      omega
        (arith, length-take size behind, length-drop t.content_start bytes, h.inside, h.ordered) in
    let span : t.end - t.start ≡ length front + size = omega (
      arith,
      ap length (h.split),
      length-append front behind,
      length-drop o bytes,
      length-drop t.content_start bytes,
      h.inside,
      h.ordered,
      h.ends,
      h.starts,
      h.behind,
    ) in
    ap (λ n. take n (drop t.start bytes)) span
    ∙ ap (λ n. take (length front + size) (drop n bytes)) (h.starts)
    ∙ ap (take (length front + size)) (h.split)
    ∙ take_past front behind size
    ∙ ap (λ n. header t.cls t.constructed t.tag n ++ take size behind) (sym long)

-- There is one spelling of an element: whatever readTlv accepts, its bytes are the distinguished
-- encoding of its class, form, tag number and content.
pub read_tlv-encode :
    (bytes : Bytes) (offset : ℕ) (t : Tlv)
    → IsBytes bytes
    → read_tlv bytes offset ≡ ok t
    → element bytes t ≡ encode t.cls t.constructed t.tag (content bytes t)
read_tlv-encode bytes offset t octets e =
    element_split bytes offset t (read_tlv-IsRead bytes offset t octets e)
