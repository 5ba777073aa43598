-- ===== src/Http1/Fields.antt =====
-- The lines of header fields and of trailer fields, which src/http1/response.js and
-- src/http1/chunked.js read by the same rules. latin1 gives each byte as a character, so that a line
-- is the list of its bytes.
use tunnelfetch.Prelude.{
  ℕ, Bool, true, false, not, ◌&&◌, ◌||◌, Option, none, some, [], ◌∷◌, leb, ◌==◌, if◌then◌else◌,
}
use tunnelfetch.Prelude.Texts.{Text, includes}
use tunnelfetch.Bytes.{Bytes}
use tunnelfetch.Errors.{Result, ok, err, Failure}

abbrev pub all : (ℕ → Bool) → Text → Bool
all test [] = true
all test (c ∷ cs) = test c && all test cs

abbrev pub is_empty : Text → Bool
is_empty [] = true
is_empty (c ∷ cs) = false

abbrev pub letter_or_digit : ℕ → Bool
letter_or_digit c = (leb 65 c && leb c 90) || (leb 97 c && leb c 122) || (leb 48 c && leb c 57)

-- The characters of `TOKEN_RE`: letters, digits, and these marks.
abbrev pub marks : Text
marks = 33 ∷ 35 ∷ 36 ∷ 37 ∷ 38 ∷ 39 ∷ 42 ∷ 43 ∷ 45 ∷ 46 ∷ 94 ∷ 95 ∷ 96 ∷ 124 ∷ 126 ∷ []

unfoldable pub token_char : ℕ → Bool
unfolding includes
token_char c = letter_or_digit c || includes c marks

-- `TOKEN_RE`
unfoldable pub is_token : Text → Bool
unfolding token_char
is_token t = not (is_empty t) && all token_char t

-- The class of `FIELD_VALUE_RE`: tab, and all but the controls.
unfoldable pub value_char : ℕ → Bool
value_char c = c == 9 || (leb 32 c && leb c 126) || (leb 128 c && leb c 255)

-- `FIELD_VALUE_RE`
unfoldable pub is_field_value : Text → Bool
unfolding value_char
is_field_value t = all value_char t

-- The class `[ \t]`.
abbrev pub blank : ℕ → Bool
blank c = c == 32 || c == 9

unfoldable pub drop_blanks : Text → Text
drop_blanks [] = []
drop_blanks (c ∷ cs) = let rest = drop_blanks cs in if blank c then rest else c ∷ cs

unfoldable pub trim_end : Text → Text
trim_end [] = []
trim_end (c ∷ cs) = let rest = trim_end cs in if blank c && is_empty rest then [] else c ∷ rest

-- `replace(/^[ \t]+|[ \t]+$/g, '')`
unfoldable pub trim_blanks : Text → Text
unfolding drop_blanks trim_end
trim_blanks t = trim_end (drop_blanks t)

-- The characters before the first colon and those behind it.
unfoldable pub cut_at_colon : Text → Option (Text × Text)
cut_at_colon [] = none
cut_at_colon (c ∷ cs) =
    let rest = cut_at_colon cs in
    if c == 58
    then some ([], cs)
    else elim rest [ none ↦ none | some (name, value) ↦ some (c ∷ name, value) ]

-- A line with its CRLF cut off, `bare` being the error for a line that ends otherwise.
unfoldable pub chop_line : Failure → Bytes → Result Text
chop_line bare [] = err bare
chop_line bare (a ∷ []) = err bare
chop_line bare (a ∷ b ∷ []) = if a == 13 && b == 10 then ok [] else err bare
chop_line bare (a ∷ b ∷ c ∷ cs) = elim (chop_line bare (b ∷ c ∷ cs)) [
  | err e ↦ err e
  | ok line ↦ ok (a ∷ line)
]

abbrev pub starts_blank : Text → Bool
starts_blank [] = false
starts_blank (c ∷ cs) = blank c

unfoldable pub checked_pair : Failure → Option (Text × Text) → Result (Text × Text)
unfolding is_token is_field_value trim_blanks
checked_pair malformed none = err malformed
checked_pair malformed (some (name, value)) =
    if not (is_token name)
    then err malformed
    else if not (is_field_value (trim_blanks value))
    then err malformed
    else ok (name, trim_blanks value)

-- The name and the value of a line that is not empty.
unfoldable pub field_line : Failure → Text → Result (Text × Text)
unfolding cut_at_colon checked_pair
field_line malformed line =
    if starts_blank line then err malformed else checked_pair malformed (cut_at_colon line)
