-- ===== src/Http1/Lines.antt =====
-- src/http1: a line that ends with CRLF, as the byte reader finds it and as its CRLF is cut off.
use tunnelfetch.Prelude.{
  ℕ, ◌+◌, ◌≤◌, ◌≡◌, refl, sym, ap, ◌∙◌, false, some, [], ◌∷◌, ◌++◌, append_assoc, if_false, le→ltb,
  length, take, drop, arith, length-append, take-append, drop-append,
}
use tunnelfetch.Prelude.Texts.{Text, includes}
use tunnelfetch.Bytes.{Bytes, index_loop, starts_with}
use tunnelfetch.Errors.{ok, Failure}
use tunnelfetch.Reader.Delimited.{until_spec, until_found}
use tunnelfetch.Http1.Fields.{chop_line}
use tunnelfetch.Http1.Chunked.{line_feed}

abbrev pub crlf : Bytes
crlf = 13 ∷ 10 ∷ []

-- The line feed is found behind the line and its CR.
index_loop_line :
    (i : ℕ) (line more : Bytes)
    → includes 10 line ≡ false
    → index_loop line_feed i (line ++ 13 ∷ 10 ∷ more) ≡ some (i + length line + 1)
unfolding index_loop starts_with includes
index_loop_line i [] more h = ground arith
index_loop_line i (c ∷ cs) more h = ground (arith, index_loop_line (i + 1) cs more)

pub chop_line-crlf : (bare : Failure) (line : Text) → chop_line bare (line ++ crlf) ≡ ok line
unfolding chop_line
chop_line-crlf bare [] = refl
chop_line-crlf bare (a ∷ []) = refl
chop_line-crlf bare (a ∷ b ∷ []) = refl
chop_line-crlf bare (a ∷ b ∷ c ∷ cs) = rw (chop_line-crlf bare (b ∷ c ∷ cs)) refl

-- A line within the limit is read up to its end.
pub until_line :
    (limit : ℕ) (line more : Bytes)
    → includes 10 line ≡ false
    → length line + 2 ≤ limit
    → until_spec line_feed limit (line ++ (crlf ++ more)) ≡ (ok (line ++ crlf), more)
until_line limit line more clean fits =
    let all = line ++ (crlf ++ more) in
    let end : 0 + length line + 1 + 1 ≡ length (line ++ crlf) =
      omega (arith, length-append line crlf) in
    let joined : (line ++ crlf) ++ more ≡ all = append_assoc line crlf more in
    ap (until_found line_feed limit all) (index_loop_line 0 line more clean)
    ∙ if_false _ _ (le→ltb limit (0 + length line + 1 + 1) (omega arith))
    ∙ ap (λ n. (ok (take n all), drop n all)) end
    ∙ ap (λ s. (ok (take (length (line ++ crlf)) s), drop (length (line ++ crlf)) s)) (sym joined)
    ∙ rw (take-append (line ++ crlf) more, drop-append (line ++ crlf) more) refl
