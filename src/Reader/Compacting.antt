-- ===== src/Reader/Compacting.antt =====
-- Joining the chunks of a reader before `readUntil` scans them.
use tunnelfetch.Prelude.{◌+◌, ◌≡◌, refl, sym, ap, ◌∙◌, false}
use tunnelfetch.Prelude.{
  List, [], ◌∷◌, ◌++◌, arith, length, drop, ltb, if◌then◌else◌, Bool-cases, inl, inr,
}
use tunnelfetch.Prelude.{ltb→le, length-append, append-nil, ◌||◌}
use tunnelfetch.Bytes.{Bytes, concat}
use tunnelfetch.Bytes.Search.{}
use tunnelfetch.Reader.{ByteReader, take_buffered, compact, first_chunk, scanned_bytes}
use tunnelfetch.Reader.Buffer.{content, pending, Valid, Takes, Takes-buffered}
use tunnelfetch.Reader.Refines.{length-content}

pub length_nil : length (concat []) ≡ 0
unfolding concat
length_nil = refl

-- Joining the chunks changes nothing that is to come, and the scan sees the whole buffer.
pub record Compacts (r j : ByteReader) : Type 0 where
  pub same : content j ≡ content r
  pub source : j.source ≡ r.source
  pub valid : Valid j
  pub buf : scanned_bytes j ≡ content j

pub length-nil : (xs : Bytes) → length xs ≡ 0 → xs ≡ []
length-nil [] h = refl
length-nil (x ∷ xs) h = absurd (omega arith)

-- One chunk or none, read from its start.
scanned-flat :
    (r : ByteReader) (cs : List Bytes)
    → Valid r
    → r.chunks ≡ cs
    → ltb 1 (length cs) ≡ false
    → r.head ≡ 0
    → scanned_bytes r ≡ drop 0 (concat cs)
unfolding scanned_bytes first_chunk concat
scanned-flat r [] v e one h = rw e (ground arith)
scanned-flat r (c ∷ d ∷ cs) v e one h = absurd (omega (arith, ltb→le _ _ one))
scanned-flat r (c ∷ []) v e one h = elim (Bool-cases (ltb 0 r.len)) [
  | inl t ↦ rw (t, e, append-nil) refl
  | inr t ↦
      rw (t, append-nil)
        (sym (length-nil c (omega (arith, ltb→le _ _ t, counted, h, length-append c []))))
]
  where
    counted : r.len + r.head ≡ length (c ++ [])
    counted = v.counted ∙ ap (λ x. length (concat x)) e

-- The buffer in one chunk.
Compacts-joined :
    (r : ByteReader) (v : Valid r) (t : Bytes × ByteReader)
    → Takes r.len r t
    → Compacts r (record t.1 {
      chunks = if ltb 0 (length t.0) then t.0 ∷ [] else [];
      head = 0;
      len = length t.0;
    })
unfolding scanned_bytes first_chunk concat
Compacts-joined r v t k = elim (Bool-cases (ltb 0 (length t.0))) [
  | inl some_ ↦ rw some_ (record {
    same = append-nil t.0 ∙ whole;
    source = k.same_source;
    valid = record {
      counted = omega (arith, length-append t.0 []);
      front = omega arith;
      ended = k.valid.ended;
    };
    buf = rw some_ (sym (append-nil t.0));
  })
  | inr none_ ↦
      let z : t.0 ≡ [] = length-nil t.0 (omega (arith, ltb→le _ _ none_)) in
      rw none_ (record {
        same = sym z ∙ whole;
        source = k.same_source;
        valid = record { counted = omega (arith, ap length z); front = tt; ended = k.valid.ended };
        buf = rw none_;
      })
]
  where
    rest : content t.1 ≡ []
    rest = length-nil _ (
        omega
          (arith, ap length k.joined, length-append t.0 (content t.1), k.size, length-content r v))

    whole : t.0 ≡ content r
    whole = sym (append-nil t.0) ∙ ap (λ x. t.0 ++ x) (sym rest) ∙ k.joined

pub Compacts-compact : (r : ByteReader) → Valid r → Compacts r (compact r)
unfolding compact
Compacts-compact r v = elim (Bool-cases (ltb 1 (length r.chunks) || ltb 0 r.head)) [
  | inl j ↦
      rw j (Compacts-joined r v (take_buffered r.len r) (Takes-buffered r.len r v (omega arith)))
  | inr n ↦ rw n (record { same = refl; source = refl; valid = v; buf = flat n })
]
  where
    flat : (ltb 1 (length r.chunks) || ltb 0 r.head) ≡ false → scanned_bytes r ≡ content r
    flat n =
        let h : r.head ≡ 0 = ground arith in
        scanned-flat r r.chunks v refl (ground arith) h ∙ ap (λ k. drop k (concat r.chunks)) (sym h)

pub pending-Compacts : (r j : ByteReader) → Compacts r j → pending j ≡ pending r
pending-Compacts r j c =
    ap (λ x. x ++ concat j.source) c.same ∙ ap (λ x. content r ++ concat x) c.source
