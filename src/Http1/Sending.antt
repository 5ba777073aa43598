-- ===== src/Http1/Sending.antt =====
-- src/http1/request.js against src/http1/response.js: a head that is sent, as the lines of heads are read.
use tunnelfetch.Prelude.{
  ℕ, ◌≡◌, refl, ap, ◌∙◌, Bool, true, false, not, [], ◌∷◌, ◌++◌, leb, ◌==◌, and_both, ==_iff,
  if_false, Bool-cases, inl, inr, some, arith,
}
use tunnelfetch.Prelude.Texts.{Text, includes}
use tunnelfetch.Errors.{ok, Failure}
use tunnelfetch.Http1.Request.{injects, is_control}
use tunnelfetch.Http1.Fields.{
  all, is_empty, blank, drop_blanks, trim_end, trim_blanks, token_char, is_token, value_char,
  is_field_value, cut_at_colon, starts_blank, field_line, checked_pair,
}

-- Blanks that are cut off once are gone.
drop_blanks_again : (t : Text) → drop_blanks (drop_blanks t) ≡ drop_blanks t
unfolding drop_blanks
drop_blanks_again [] = refl
drop_blanks_again (c ∷ cs) = ground (arith, drop_blanks_again cs)

trim_end_again : (t : Text) → trim_end (trim_end t) ≡ trim_end t
unfolding trim_end
trim_end_again [] = refl
trim_end_again (c ∷ cs) = ground (arith, trim_end_again cs)

starts_plain : (t : Text) → starts_blank (drop_blanks t) ≡ false
unfolding drop_blanks
starts_plain [] = refl
starts_plain (c ∷ cs) = ground (arith, starts_plain cs)

drop_blanks_plain : (t : Text) → starts_blank t ≡ false → drop_blanks t ≡ t
unfolding drop_blanks
drop_blanks_plain [] h = refl
drop_blanks_plain (c ∷ cs) h = ground arith

trim_end_plain : (t : Text) → starts_blank t ≡ false → starts_blank (trim_end t) ≡ false
unfolding trim_end
trim_end_plain [] h = refl
trim_end_plain (c ∷ cs) h = ground arith

-- A value that is written behind a colon and a space is trimmed to itself.
trim_blanks_again : (t : Text) → trim_blanks (32 ∷ trim_blanks t) ≡ trim_blanks t
unfolding trim_blanks drop_blanks
trim_blanks_again t =
    ap trim_end (
      drop_blanks_plain (trim_end (drop_blanks t))
        (trim_end_plain (drop_blanks t) (starts_plain t)))
    ∙ trim_end_again (drop_blanks t)

all_append :
    (test : ℕ → Bool) (a b : Text)
    → all test a ≡ true
    → all test b ≡ true
    → all test (a ++ b) ≡ true
all_append test [] b h k = k
all_append test (c ∷ cs) b h k = ground (arith, all_append test cs b)

all-drop_blanks : (test : ℕ → Bool) (t : Text) → all test t ≡ true → all test (drop_blanks t) ≡ true
unfolding drop_blanks
all-drop_blanks test [] h = refl
all-drop_blanks test (c ∷ cs) h = ground (arith, all-drop_blanks test cs)

all-trim_end : (test : ℕ → Bool) (t : Text) → all test t ≡ true → all test (trim_end t) ≡ true
unfolding trim_end
all-trim_end test [] h = refl
all-trim_end test (c ∷ cs) h = ground (arith, all-trim_end test cs)

pub includes_append :
    (a b : Text) → includes 10 a ≡ false → includes 10 b ≡ false → includes 10 (a ++ b) ≡ false
unfolding includes
includes_append [] b h k = k
includes_append (c ∷ cs) b h k = ground (arith, includes_append cs b)

-- A test that a line feed does not pass.
pub all_clean :
    (test : ℕ → Bool) (t : Text) → test 10 ≡ false → all test t ≡ true → includes 10 t ≡ false
unfolding includes
all_clean test [] h k = refl
all_clean test (c ∷ cs) h k =
    let (this, others) = and_both (test c) (all test cs) k in
    elim (Bool-cases (c == 10)) [
      | inl feed ↦ absurd (cc ((==_iff c 10).0 feed, this, h))
      | inr other ↦ rw other (all_clean test cs h others)
    ]

token_char_plain :
    (c : ℕ) → token_char c ≡ true → ((c == 58) ≡ false) × (blank c ≡ false) × ((c == 10) ≡ false)
unfolding token_char includes
token_char_plain c h = ground arith

cut_at_colon_name :
    (name rest : Text)
    → all token_char name ≡ true
    → cut_at_colon (name ++ 58 ∷ rest) ≡ some (name, rest)
unfolding cut_at_colon
cut_at_colon_name [] rest h = refl
cut_at_colon_name (c ∷ cs) rest h =
    let (this, others) = and_both (token_char c) (all token_char cs) h in
    rw ((token_char_plain c this).0, cut_at_colon_name cs rest others) refl

pub sendable :
    (t : Text)
    → all (λ c. not (injects c)) t ≡ true
    → all (λ c. leb c 255) t ≡ true
    → all (λ c. not (is_control c)) t ≡ true
    → all value_char t ≡ true
unfolding value_char
sendable [] a b c = refl
sendable (x ∷ xs) a b c = ground (arith, sendable xs)

-- The line of a field.
abbrev pub sent_line : Text → Text → Text
sent_line name value = name ++ (58 ∷ 32 ∷ trim_blanks value)

-- A line that reads as a field, and that holds no line feed.
pub record IsField (name value line : Text) : Type 0 where
  pub reads : (malformed : Failure) → field_line malformed line ≡ ok (name, value)
  pub one_line : includes 10 line ≡ false
  pub some_line : is_empty line ≡ false

pub sent_line-IsField :
    (name value : Text)
    → is_token name ≡ true
    → all value_char value ≡ true
    → IsField name (trim_blanks value) (sent_line name value)
unfolding is_token token_char value_char trim_blanks field_line checked_pair is_field_value includes
sent_line-IsField [] value h k = absurd (cc h)
sent_line-IsField (c ∷ cs) value h k =
    let name = c ∷ cs in
    let (plain, others) = and_both (token_char c) (all token_char cs) h in
    let trimmed =
      all-trim_end value_char (drop_blanks value) (all-drop_blanks value_char value k) in
    record {
      reads = λ malformed.
          if_false _ _ ((token_char_plain c plain).1)
          ∙ ap (checked_pair malformed) (cut_at_colon_name name (32 ∷ trim_blanks value) h)
          ∙ if_false _ _ (ap not h)
          ∙ if_false _ _
              (ap (λ v. not (is_field_value v)) (trim_blanks_again value) ∙ ap not trimmed)
          ∙ ap (λ v. ok (name, v)) (trim_blanks_again value);
      one_line =
          includes_append name (58 ∷ 32 ∷ trim_blanks value) (all_clean token_char name refl h)
            (all_clean value_char (trim_blanks value) refl trimmed);
      some_line = refl;
    }
