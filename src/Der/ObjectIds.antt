-- ===== src/Der/ObjectIds.antt =====
-- src/trust/der.js, readOid: an identifier has one spelling, as long as its numbers are exact.
use tunnelfetch.Prelude.{
  ℕ, ◌+◌, ◌*◌, ◌%◌, ◌^◌, ◌≤◌, ◌<◌, ◌≡◌, ◌≢◌, refl, sym, ap, ◌∙◌, Bool, true, false, not, ◌&&◌, List,
  [], ◌∷◌, ◌++◌, append_assoc, map, ltb, ◌==◌, if◌then◌else◌, All, if_cases, if_true, lt→ltb,
  Bool-cases, inl, inr, ltb→lt, ltb→le, arith,
}
use mathlib.Core.Path.{subst}
use tunnelfetch.Bytes.{Bytes, IsBytes, concat}
use tunnelfetch.Errors.{Result, ok, bind_inversion, ok-inj, err≢ok}
use tunnelfetch.Der.{Tlv, content, expect_tlv}
use tunnelfetch.Der.Tag
use tunnelfetch.Der.Values.{nearest, to_double, oid_loop, dotted, oid_of, read_oid}
use tunnelfetch.Der.Encoding.{septets, base128, septets_step, base128_step}

-- A number that JavaScript holds exactly stays as it is, a larger one stays large.
to_double_exact : (n : ℕ) → n < 2 ^ 53 → to_double n ≡ n
unfolding to_double
to_double_exact n h = ground arith

to_double_large : (n : ℕ) → 2 ^ 53 ≤ n → n < 2 ^ 57 → 2 ^ 53 ≤ to_double n
unfolding to_double nearest
to_double_large n h k = ground arith

unfoldable pub IsExact : List ℕ → Type 0
IsExact = All (λ n. n < 2 ^ 53)

-- The bytes that stand for a list of sub-identifiers.
unfoldable pub sub_identifiers : List ℕ → Bytes
unfolding concat
sub_identifiers arcs = concat (map base128 arcs)

-- A value that is too wide to be exact is refused at the next byte.
oid_loop_stops : (v : ℕ) (bs : Bytes) (arcs : List ℕ) → 2 ^ 53 ≤ v → oid_loop v true bs ≢ ok arcs
unfolding oid_loop
oid_loop_stops v [] arcs large e = err≢ok e
oid_loop_stops v (b ∷ bs) arcs large e =
    err≢ok (sym (if_true _ _ (lt→ltb 0x3ffffffffffff v (omega arith))) ∙ e)

-- What is known once a byte is read, the bytes behind it being right.
module _ (v b : ℕ) (bs : Bytes) (arcs out : List ℕ) where
  last_digit :
      b < 128
      → v < 2 ^ 50
      → IsExact arcs
      → to_double (v * 128 + b % 128) ∷ out ≡ arcs
      → (IsExact out → bs ≡ sub_identifiers out)
      → septets v v ++ b ∷ bs ≡ sub_identifiers arcs
  unfolding IsExact sub_identifiers concat
  last_digit small narrow exact shape behind =
      let (arc_exact, out_exact) = subst IsExact (sym shape) exact in
      let digit : b % 128 ≡ b = omega arith in
      let sum_exact : v * 128 + b % 128 < 2 ^ 53 =
        ground (arith, to_double_large (v * 128 + b % 128)) in
      let arc : to_double (v * 128 + b % 128) ≡ v * 128 + b =
        to_double_exact (v * 128 + b % 128) sum_exact ∙ ap (λ d. v * 128 + d) digit in
      ap (λ xs. septets v v ++ b ∷ xs) (behind out_exact)
      ∙ sym (append_assoc (septets v v) (b ∷ []) (sub_identifiers out))
      ∙ ap (λ ds. ds ++ sub_identifiers out) (sym (base128_step v b small))
      ∙ ap (λ n. base128 n ++ sub_identifiers out) (sym arc)
      ∙ ap sub_identifiers shape

  next_digit :
      128 ≤ b
      → b < 256
      → v * 128 + b % 128 ≢ 0
      → septets (v * 128 + b % 128) (v * 128 + b % 128) ++ bs ≡ sub_identifiers arcs
      → septets v v ++ b ∷ bs ≡ sub_identifiers arcs
  next_digit large byte some_digit behind =
      let marked : 128 + b % 128 ≡ b = omega arith in
      sym (append_assoc (septets v v) (b ∷ []) bs)
      ∙ ap (λ (c : ℕ). (septets v v ++ c ∷ []) ++ bs) (sym marked)
      ∙ ap (λ ds. ds ++ bs) (sym (septets_step v (b % 128) (omega arith) some_digit))
      ∙ behind

oid_loop_digits :
    (v : ℕ) (in_sub : Bool) (bs : Bytes) (arcs : List ℕ)
    → (in_sub ≡ false → v ≡ 0)
    → (in_sub ≡ true → v ≢ 0)
    → IsBytes bs
    → IsExact arcs
    → oid_loop v in_sub bs ≡ ok arcs
    → septets v v ++ bs ≡ sub_identifiers arcs
unfolding oid_loop sub_identifiers concat septets
oid_loop_digits v true [] arcs fresh under_way octets exact e = absurd (err≢ok e)
oid_loop_digits v false [] arcs fresh under_way octets exact e =
    rw (fresh refl) (ap sub_identifiers (ok-inj e))
oid_loop_digits v in_sub (b ∷ bs) arcs fresh under_way octets exact e =
    if_cases P (not in_sub && b == 128) (λ padded q. absurd (err≢ok q))
      (λ minimal q.
        if_cases P (ltb 0x3ffffffffffff v) (λ large r. absurd (err≢ok r))
          (λ narrow r.
            let (out, inner, done) = bind_inversion (oid_loop _ (not (ltb b 128)) bs) _ r in
            digits (λ w s later. oid_loop_digits w s bs later) (ltb→le 0x3ffffffffffff v narrow)
              (marked minimal) (ltb b 128) refl out inner (ok-inj done))
          q)
      e
  where
    P : Result (List ℕ) → Type 0
    P r = r ≡ ok arcs → septets v v ++ b ∷ bs ≡ sub_identifiers arcs

    next : ℕ
    next = to_double (v * 128 + b % 128)

    marked : (not in_sub && b == 128) ≡ false → 128 ≤ b → v * 128 + b % 128 ≢ 0
    marked minimal large = elim (Bool-cases in_sub) [
      | inl within ↦ λ none_yet. under_way within (omega (arith, none_yet))
      | inr start ↦ λ none_yet. absurd (ground (arith, start, minimal, octets))
    ]

    digits :
        ((w : ℕ) (s : Bool) (later : List ℕ)
          → (s ≡ false → w ≡ 0)
          → (s ≡ true → w ≢ 0)
          → IsBytes bs
          → IsExact later
          → oid_loop w s bs ≡ ok later
          → septets w w ++ bs ≡ sub_identifiers later)
        → v ≤ 0x3ffffffffffff
        → (128 ≤ b → v * 128 + b % 128 ≢ 0)
        → (last : Bool) → ltb b 128 ≡ last
        → (out : List ℕ) → oid_loop (if last then 0 else next) (not last) bs ≡ ok out
        → (if last then next ∷ out else out) ≡ arcs
        → septets v v ++ b ∷ bs ≡ sub_identifiers arcs
    digits again narrow some_digit true small out inner shape =
        last_digit v b bs arcs out (ltb→lt b 128 small) (omega arith) exact shape
          (λ later. again 0 false out (λ t. refl) (λ f. absurd (cc f)) (octets.1) later inner)
    digits again narrow some_digit false large out inner shape =
        let sum = v * 128 + b % 128 in
        let some = some_digit (ltb→le b 128 large) in
        elim (Bool-cases (ltb sum (2 ^ 53))) [
          | inl held ↦
              let same : next ≡ sum = to_double_exact sum (ltb→lt sum (2 ^ 53) held) in
              next_digit v b bs arcs out (ltb→le b 128 large) (octets.0) some (
                again sum true arcs (λ f. absurd (cc f)) (λ t. some) (octets.1) exact
                  (subst (λ n. oid_loop n true bs ≡ ok arcs) same (rw (← shape) inner)))
          | inr wide ↦ absurd (
              oid_loop_stops next bs out
                (to_double_large sum (ltb→le sum (2 ^ 53) wide) (omega arith)) inner)
        ]

-- Each first sub-identifier gives its own pair of numbers.
undotted : List ℕ → List ℕ
undotted [] = []
undotted (x ∷ []) = []
undotted (x ∷ y ∷ arcs) = (x * 40 + y) ∷ arcs

undotted-dotted : (arcs : List ℕ) → undotted (dotted arcs) ≡ arcs
unfolding undotted dotted
undotted-dotted [] = refl
undotted-dotted (first ∷ arcs) = ground arith

-- Every number of a dotted form is exact in JavaScript, the first sub-identifier included.
unfoldable pub IsSafe : List ℕ → Type 0
IsSafe = All (λ n. n < 2 ^ 52)

safe-IsExact : (ns : List ℕ) → IsSafe ns → IsExact ns
unfolding IsSafe IsExact
safe-IsExact [] h = tt
safe-IsExact (n ∷ ns) h = (omega (arith, h.0), safe-IsExact ns (h.1))

dotted-IsExact : (arcs : List ℕ) → IsSafe (dotted arcs) → IsExact arcs
unfolding IsSafe IsExact dotted
dotted-IsExact [] h = tt
dotted-IsExact (first ∷ arcs) h = (ground (arith, h.1.0), safe-IsExact arcs (h.1.1))

oid_bytes :
    (c : Bytes) (dots : List ℕ)
    → IsBytes c
    → IsSafe dots
    → oid_of c ≡ ok dots
    → c ≡ sub_identifiers (undotted dots)
unfolding oid_of septets
oid_bytes [] dots octets safe e = absurd (err≢ok e)
oid_bytes (b ∷ bs) dots octets safe e =
    let (arcs, read, done) = bind_inversion (oid_loop 0 false (b ∷ bs)) _ e in
    let shape : dotted arcs ≡ dots = ok-inj done in
    let exact = dotted-IsExact arcs (subst IsSafe (sym shape) safe) in
    (oid_loop_digits 0 false (b ∷ bs) arcs (λ t. refl) (λ f. absurd (cc f)) octets exact read)
    ∙ ap sub_identifiers (sym (undotted-dotted arcs) ∙ ap undotted shape)

-- Two object identifiers that read as the same dotted form, with every number below 2^52, have the
-- same bytes: an identity has one spelling.
pub read_oid_injective :
    (bytes bytes' : Bytes) (t t' : Tlv) (dots : List ℕ)
    → IsBytes (content bytes t)
    → IsBytes (content bytes' t')
    → IsSafe dots
    → read_oid bytes t ≡ ok dots
    → read_oid bytes' t' ≡ ok dots
    → content bytes t ≡ content bytes' t'
unfolding read_oid
read_oid_injective bytes bytes' t t' dots octets octets' safe e e' =
    let (seq, shape, value) = bind_inversion (expect_tlv t Tag.oid false) _ e in
    let (seq', shape', value') = bind_inversion (expect_tlv t' Tag.oid false) _ e' in
    oid_bytes (content bytes t) dots octets safe value
    ∙ sym (oid_bytes (content bytes' t') dots octets' safe value')
