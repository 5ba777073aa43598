-- ===== src/Reader/Refines.antt =====
-- Operations of the reader, judged by the bytes to come and not by how they are chunked.
use tunnelfetch.Prelude.{ℕ, ◌+◌, ◌≡◌, refl, sym, ap, ◌∙◌, Option, some, ◌++◌}
use tunnelfetch.Prelude.{
  arith, length, drop, take, length-append, length-drop, append_assoc, take-append, drop-append,
}
use tunnelfetch.Bytes.{Bytes, concat}
use tunnelfetch.Errors.{Result}
use mathlib.Core.Path.{subst}
use tunnelfetch.Reader.{ByteReader, Read, and_then}
use tunnelfetch.Reader.Buffer.{content, pending, Valid, Takes}

-- The operation gave the result `s.0` and left a valid reader with the bytes `s.1` to come.
pub record Ends (A : Type 0) (o : Option (Result A × ByteReader)) (s : Result A × Bytes)
    : Type 0 where
  pub reader : ByteReader
  pub result : o ≡ some (s.0, reader)
  pub left : pending reader ≡ s.1
  pub valid : Valid reader

pub length-content : (r : ByteReader) → Valid r → length (content r) ≡ r.len
length-content r v = omega (arith, length-drop r.head (concat r.chunks), v.counted)

pub length-pending :
    (r : ByteReader) → Valid r → length (pending r) ≡ r.len + length (concat r.source)
length-pending r v = omega (
  arith,
  length-append (content r) (concat r.source),
  length-drop r.head (concat r.chunks),
  v.counted,
)

pub pending-Takes :
    (n : ℕ) (r : ByteReader) (t : Bytes × ByteReader) → Takes n r t → t.0 ++ pending t.1 ≡ pending r
pending-Takes n r t k =
    sym (append_assoc t.0 (content t.1) (concat t.1.source))
    ∙ ap (λ x. x ++ concat t.1.source) k.joined
    ∙ ap (λ x. content r ++ concat x) k.same_source

pub take-Takes :
    (n : ℕ) (r : ByteReader) (t : Bytes × ByteReader) → Takes n r t → take n (pending r) ≡ t.0
take-Takes n r t k =
    ap (λ x. take n x) (sym (pending-Takes n r t k))
    ∙ ap (λ m. take m (t.0 ++ pending t.1)) (sym k.size)
    ∙ take-append t.0 (pending t.1)

pub drop-Takes :
    (n : ℕ) (r : ByteReader) (t : Bytes × ByteReader)
    → Takes n r t
    → pending t.1 ≡ drop n (pending r)
drop-Takes n r t k = sym (
    ap (λ x. drop n x) (sym (pending-Takes n r t k))
    ∙ ap (λ m. drop m (t.0 ++ pending t.1)) (sym k.size)
    ∙ drop-append t.0 (pending t.1))

-- The same for a specification, which works on the bytes to come.
abbrev pub spec_then :
    {A B : Type 0} → Result A × Bytes → (Result A → Bytes → Result B × Bytes) → Result B × Bytes
spec_then s k = k s.0 s.1

-- An operation that awaits another one, and goes on with its result, is judged by its parts.
pub Ends-then :
    (A B : Type 0) (o : Option (Result A × ByteReader)) (s : Result A × Bytes)
    (k : Result A → Read B) (l : Result A → Bytes → Result B × Bytes)
    → Ends A o s
    → ((x : Result A) (r : ByteReader) → Valid r → Ends B (k x r) (l x (pending r)))
    → Ends B (and_then o k) (spec_then s l)
Ends-then A B o s k l e h =
    rw (e.result) (subst (λ b. Ends B (k s.0 e.reader) (l s.0 b)) e.left (h s.0 e.reader e.valid))

-- A result that uses up nothing.
pub Ends-pure :
    (A : Type 0) (x : Result A) (r : ByteReader) → Valid r → Ends A (some (x, r)) (x, pending r)
Ends-pure A x r v = record { reader = r; result = refl; left = refl; valid = v }
