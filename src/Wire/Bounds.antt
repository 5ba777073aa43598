-- ===== src/Wire/Bounds.antt =====
-- What a cursor reads lies inside its bytes.
use tunnelfetch.Prelude.{ℕ, ◌+◌, ◌≤◌, ◌≡◌, ap, ◌∙◌, arith}
use tunnelfetch.Prelude.{length, drop, take, length-take, length-drop}
use tunnelfetch.Bytes.{Bytes}
use tunnelfetch.Errors.{ok, bind_inversion}
use tunnelfetch.Wire.Cursor
use tunnelfetch.Wire.Cursor.{Cursor, LenBytes, one, two, three, malformed}
use tunnelfetch.Wire.RoundTrip.{octets}

-- The cursor has not passed the end.
abbrev pub Inside : Cursor → Type 0
Inside c = c.pos ≤ length c.bytes

prefix-Inside :
    (l : LenBytes) (c : Cursor) {n : ℕ} {c' : Cursor}
    → Cursor.prefix l c ≡ ok (n, c')
    → (c'.bytes ≡ c.bytes) × (c'.pos ≡ c.pos + octets l) × (octets l ≤ Cursor.remaining c)
unfolding Cursor.prefix
prefix-Inside one c e = ground arith
prefix-Inside two c e = ground arith
prefix-Inside three c e = ground arith

take-Inside :
    (n : ℕ) (c : Cursor) {v : Bytes} {c' : Cursor}
    → Cursor.take n c ≡ ok (v, c')
    → (c'.bytes ≡ c.bytes)
      × (c'.pos ≡ c.pos + n)
      × (n ≤ Cursor.remaining c)
      × (v ≡ take n (drop c.pos c.bytes))
unfolding Cursor.take
take-Inside n c e = ground arith

-- A vector that is read from a cursor inside its bytes is the slice behind its prefix, no longer
-- than what was left, and the cursor moves behind it and stays inside.
pub vector-Inside :
    (l : LenBytes) (c c' : Cursor) (v : Bytes)
    → Inside c
    → Cursor.vector l c ≡ ok (v, c')
    → Inside c'
      × (c'.bytes ≡ c.bytes)
      × (c'.pos ≡ c.pos + octets l + length v)
      × (v ≡ take (length v) (drop (c.pos + octets l) c.bytes))
unfolding Cursor.vector
vector-Inside l c c' v i e =
    let (m, first, then_) = bind_inversion (Cursor.prefix l c) (λ (n, d). Cursor.take n d) e in
    after m.0 m.1 first then_
  where
    after :
        (n : ℕ) (d : Cursor)
        → Cursor.prefix l c ≡ ok (n, d)
        → Cursor.take n d ≡ ok (v, c')
        → Inside c'
          × (c'.bytes ≡ c.bytes)
          × (c'.pos ≡ c.pos + octets l + length v)
          × (v ≡ take (length v) (drop (c.pos + octets l) c.bytes))
    after n d p t =
        let (b, o, r) = prefix-Inside l c p in
        let (b', o', r', s) = take-Inside n d t in
        let size : length v ≡ n =
          omega (
            arith,
            ap length s,
            length-take n (drop d.pos d.bytes),
            length-drop d.pos d.bytes,
            r',
          ) in
        (
          omega (arith, o, o', r, r', ap length b, ap length b'),
          b' ∙ b,
          omega (arith, o, o', size),
          s ∙ cc (size, o, b),
        )
