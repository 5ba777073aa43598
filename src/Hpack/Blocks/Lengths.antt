-- ===== src/Hpack/Blocks/Lengths.antt =====
-- The parts of a header block are shorter than what they are read from.
use tunnelfetch.Prelude.{ℕ, zero, suc, Bool, ◌≡◌, ◌≤◌, ◌<◌, arith}
use tunnelfetch.Prelude.{[], ◌∷◌, leb, length, length-drop}
use tunnelfetch.Bytes.{Bytes}
use tunnelfetch.Errors.{ok, bind_inversion, err≢ok, ok-inj}
use tunnelfetch.Hpack.{HpackDecoder, decode_integer, lookup}
use tunnelfetch.Hpack.StaticTable.{Text}
use tunnelfetch.Hpack.Integers.{decode_integer_takes}
use tunnelfetch.Hpack.Table.Updates.{}
use tunnelfetch.Hpack.Blocks.{string_body, decode_string, name_at, literal}
use mathlib.Core.Path.{subst}

string_body-takes :
    (h : Bool) (n : ℕ) (p s rest : Bytes)
    → string_body h n p ≡ ok (s, rest)
    → length rest ≤ length p
unfolding string_body
string_body-takes h n p s rest e = ground (arith, length-drop n p)

pub decode_string-takes :
    (src s rest : Bytes) → decode_string src ≡ ok (s, rest) → length rest < length src
unfolding decode_string
decode_string-takes [] s rest e = absurd (err≢ok e)
decode_string-takes (b ∷ bs) s rest e =
    let (r, first, then_) =
      bind_inversion (decode_integer (b ∷ bs) 7) (λ (n, p). string_body (leb 0x80 b) n p) e in
    omega (
      arith,
      (decode_integer_takes (b ∷ bs) 7 r.0 r.1 (omega arith) first).1,
      string_body-takes (leb 0x80 b) r.0 r.1 s rest then_,
    )

module _ (decode_text : Bytes → Text) where
  name_at-takes :
      (i : ℕ) (p : Bytes) (d : HpackDecoder) (r : Text × Bytes)
      → name_at decode_text i p d ≡ ok r
      → length r.1 ≤ length p
  unfolding name_at
  name_at-takes zero p d r e =
      let (s, first, then_) =
        bind_inversion (decode_string p) (λ (s, rest). ok (decode_text s, rest)) e in
      let t = decode_string-takes p s.0 s.1 first in
      subst (λ q. length q.1 ≤ length p) (ok-inj then_) (omega (arith, t))
  name_at-takes (suc i) p d r e =
      let (s, first, then_) = bind_inversion (lookup (suc i) d) (λ (name, value). ok (name, p)) e in
      subst (λ q. length q.1 ≤ length p) (ok-inj then_) (omega arith)

  pub literal-takes :
      (n : ℕ) (src : Bytes) (d : HpackDecoder) (r : (Text × Text) × Bytes)
      → n ≤ 8
      → literal decode_text n src d ≡ ok r
      → length r.1 < length src
  unfolding literal
  literal-takes n src d r w e =
      let (a, first, then_) = bind_inversion (decode_integer src n) _ e in
      let (b, second, then_) = bind_inversion (name_at decode_text a.0 a.1 d) _ then_ in
      let (c, third, then_) = bind_inversion (decode_string b.1) _ then_ in
      subst (λ q. length q.1 < length src) (ok-inj then_)
        (omega (
          arith,
          (decode_integer_takes src n a.0 a.1 w first).1,
          name_at-takes a.0 a.1 d b second,
          decode_string-takes b.1 c.0 c.1 third,
        ))
