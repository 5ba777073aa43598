-- ===== src/Wire/RoundTrip.antt =====
-- What the Builder writes, the Cursor reads.
use tunnelfetch.Prelude.{ℕ, suc, ◌+◌, ◌-◌, ◌≤◌, ◌≡◌, refl, sym, ap, ◌∙◌, arith}
use tunnelfetch.Prelude.{
  [], ◌∷◌, ◌++◌, length, ltb, if◌then◌else◌, Bool-cases, inl, inr, append-nil, append_assoc,
}
use tunnelfetch.Prelude.{length-append, take-append, drop-append, ltb→le, le→ltb, lt→ltb}
use tunnelfetch.Bytes.{Bytes, at, concat}
use mathlib.Core.Path.{ap₂}
use tunnelfetch.Bytes
use tunnelfetch.Bytes.Concat.{concat-snoc, at-append, at-append_zero}
use tunnelfetch.Errors.{ok, err}
use tunnelfetch.Wire.Cursor
use tunnelfetch.Wire.Cursor.{Cursor, LenBytes, one, two, three, malformed, remaining}
use tunnelfetch.Wire.Builder
use tunnelfetch.Wire.Builder.{Builder, max_length, new_builder}

-- The length in so many bytes, the highest first.
abbrev pub length_prefix : LenBytes → ℕ → Bytes
length_prefix one n = Bytes.u8 n
length_prefix two n = Bytes.u16 n
length_prefix three n = Bytes.u24 n

abbrev pub octets : LenBytes → ℕ
octets one = 1
octets two = 2
octets three = 3

build-push : (b : Bytes) (w : Builder) → Builder.build (Builder.push b w) ≡ Builder.build w ++ b
unfolding Builder.push
build-push [] w = sym (append-nil (Builder.build w))
build-push (x ∷ xs) w =
    rw (lt→ltb 0 (suc (length xs)) (omega arith))
      (unfold Builder.build in concat-snoc w.parts (x ∷ xs))

build-prefix :
    (l : LenBytes) (n : ℕ) (w : Builder)
    → Builder.build (Builder.prefix l n w) ≡ Builder.build w ++ length_prefix l n
unfolding Builder.prefix
build-prefix one n w = build-push (Bytes.u8 n) w
build-prefix two n w = build-push (Bytes.u16 n) w
build-prefix three n w = build-push (Bytes.u24 n) w

-- The cursor stands behind `pre`, with `xs` before it.
abbrev pub behind : Bytes → Bytes → Cursor
behind pre xs = record { bytes = pre ++ xs; pos = length pre }

-- The same, `k` bytes further on.
abbrev pub reached : Bytes → Bytes → ℕ → Cursor
reached pre xs k = record { bytes = pre ++ xs; pos = length pre + k }

need-fits : (n : ℕ) (pre xs : Bytes) → n ≤ length xs → Cursor.need n (behind pre xs) ≡ ok tt
need-fits n pre xs h =
    rw (le→ltb (length (pre ++ xs) - length pre) n (omega (arith, length-append pre xs))) refl

-- The prefix is read back as the number, wherever it stands.
prefix-length_prefix :
    (l : LenBytes) (pre rest : Bytes) (n : ℕ)
    → n ≤ max_length l
    → Cursor.prefix l (behind pre (length_prefix l n ++ rest))
      ≡ ok (n, reached pre (length_prefix l n ++ rest) (octets l))
unfolding Cursor.prefix Bytes.u8 Bytes.u16 Bytes.u24
prefix-length_prefix one pre rest n h =
    rw (need-fits 1 pre (Bytes.u8 n ++ rest) (omega arith), at-append_zero pre (Bytes.u8 n ++ rest))
      (ap (λ v. ok (v, reached pre (Bytes.u8 n ++ rest) 1)) (omega arith))
prefix-length_prefix two pre rest n h =
    rw
      (
        need-fits 2 pre (Bytes.u16 n ++ rest) (omega arith),
        at-append_zero pre (Bytes.u16 n ++ rest),
        at-append pre (Bytes.u16 n ++ rest) 1,
      )
      (ap (λ v. ok (v, reached pre (Bytes.u16 n ++ rest) 2)) (omega arith))
prefix-length_prefix three pre rest n h =
    rw
      (
        need-fits 3 pre (Bytes.u24 n ++ rest) (omega arith),
        at-append_zero pre (Bytes.u24 n ++ rest),
        at-append pre (Bytes.u24 n ++ rest) 1,
        at-append pre (Bytes.u24 n ++ rest) 2,
      )
      (ap (λ v. ok (v, reached pre (Bytes.u24 n ++ rest) 3)) (omega arith))

length-length_prefix : (l : LenBytes) (n : ℕ) → length (length_prefix l n) ≡ octets l
unfolding Bytes.u8 Bytes.u16 Bytes.u24
length-length_prefix one n = refl
length-length_prefix two n = refl
length-length_prefix three n = refl

take-fits :
    (pre body rest : Bytes)
    → Cursor.take (length body) (behind pre (body ++ rest))
      ≡ ok (body, reached pre (body ++ rest) (length body))
unfolding Cursor.take
take-fits pre body rest =
    rw
      (
        need-fits (length body) pre (body ++ rest) (omega (arith, length-append body rest)),
        drop-append pre (body ++ rest),
        take-append body rest,
      )
      refl

reached-behind :
    (pre front xs : Bytes) (k : ℕ)
    → length front ≡ k
    → reached pre (front ++ xs) k ≡ behind (pre ++ front) xs
reached-behind pre front xs k e =
    ap₂ (λ b p. record { bytes = b; pos = p }) (sym (append_assoc pre front xs))
      (omega (arith, length-append pre front))

-- Reading a vector is reading its length and then so many bytes.
vector-prefix :
    (l : LenBytes) (c : Cursor) {n : ℕ} {c' : Cursor}
    → Cursor.prefix l c ≡ ok (n, c')
    → Cursor.vector l c ≡ Cursor.take n c'
unfolding Cursor.vector
vector-prefix l c e = rw e

vector-length_prefix :
    (l : LenBytes) (pre body rest : Bytes)
    → length body ≤ max_length l
    → Cursor.vector l (behind pre (length_prefix l (length body) ++ (body ++ rest)))
      ≡ ok (body, behind (pre ++ (length_prefix l (length body) ++ body)) rest)
vector-length_prefix l pre body rest h =
    vector-prefix l (behind pre (front ++ (body ++ rest)))
      (prefix-length_prefix l pre (body ++ rest) (length body) h)
    ∙ ap (Cursor.take (length body))
        (reached-behind pre front (body ++ rest) (octets l) (length-length_prefix l (length body)))
    ∙ take-fits (pre ++ front) body rest
    ∙ ap (λ c. ok (body, c)) (reached-behind (pre ++ front) body rest (length body) refl)
    ∙ ap (λ b. ok (body, behind b rest)) (append_assoc pre front body)
  where
    front : Bytes
    front = length_prefix l (length body)

-- A vector is its length in one, two or three bytes and then its body, and is refused exactly when
-- the length does not fit.
pub vector_bytes :
    (l : LenBytes) (body : Bytes)
    → Builder.vector l body ≡ (
        if ltb (max_length l) (length body)
        then err malformed
        else ok (length_prefix l (length body) ++ body))
unfolding Builder.vector
vector_bytes l body = elim (Bool-cases (ltb (max_length l) (length body))) [
  | inl e ↦ rw e
  | inr e ↦ rw (e, build-push, build-prefix) refl
]

-- A vector that `Builder` writes is read back whole by a cursor that stands before it, whatever
-- precedes and follows it, and the cursor then stands behind it.
pub vector-vector :
    (l : LenBytes) (pre body rest v : Bytes)
    → Builder.vector l body ≡ ok v
    → Cursor.vector l (behind pre (v ++ rest)) ≡ ok (body, behind (pre ++ v) rest)
vector-vector l pre body rest v e = elim (Bool-cases (ltb (max_length l) (length body))) [
  | inl over ↦ absurd (cc (e, rw over at (vector_bytes l body)))
  | inr fits ↦
      let same : length_prefix l (length body) ++ body ≡ v =
        cc (e, rw fits at (vector_bytes l body)) in
      rw (← same, append_assoc) (vector-length_prefix l pre body rest (ltb→le _ _ fits))
]

-- A handshake message is its type, and its body as a vector with three bytes of length.
pub handshake_message_bytes :
    (type : ℕ) (body : Bytes)
    → Builder.handshake_message type body ≡ (
        if ltb (max_length three) (length body)
        then err malformed
        else ok (Bytes.u8 type ++ (length_prefix three (length body) ++ body)))
unfolding Builder.handshake_message
handshake_message_bytes type body = elim (Bool-cases (ltb (max_length three) (length body))) [
  | inl e ↦ rw e
  | inr e ↦
      rw (e, build-push)
        (ap (λ b. ok (b ++ body))
            (build-prefix three (length body) (Builder.u8 type new_builder)
              ∙ ap (λ b. b ++ length_prefix three (length body))
                  (build-push (Bytes.u8 type) new_builder))
          ∙ ap ok (
              ap (λ b. (b ++ length_prefix three (length body)) ++ body) nothing
              ∙ append_assoc (Bytes.u8 type) (length_prefix three (length body)) body))
]
  where
    nothing : Builder.build new_builder ++ Bytes.u8 type ≡ Bytes.u8 type
    nothing = unfold Builder.build in refl
