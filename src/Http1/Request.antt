-- ===== src/Http1/Request.antt =====
-- src/http1/request.js: the serialiser of request heads. The arguments are strings, and the headers
-- the pairs that their iteration gives.
use tunnelfetch.Prelude.{ℕ, Bool, not, ◌&&◌, ◌||◌, [], ◌∷◌, ◌++◌, leb, ◌==◌, if◌then◌else◌}
use tunnelfetch.Prelude.Texts.{Text}
use tunnelfetch.Bytes.{Bytes, equal}
use tunnelfetch.Errors.{Result, ok, err, http_error, http_request_line, http_header, ◌>>=◌}
use tunnelfetch.Hpack.StaticTable.{units}
use tunnelfetch.Connection.State.{FieldList}
use tunnelfetch.Http1.Fields.{all, is_empty, is_token, trim_blanks}

-- `TARGET_RE`
unfoldable pub is_target : Text → Bool
is_target t = not (is_empty t) && all (λ c. leb 33 c && leb c 126) t

pub record RequestHead : Type 0 where
  pub method : Text
  pub target : Text
  pub headers : FieldList
  pub http_version : Text

-- The characters that the three tests refuse: CR, LF and NUL; what no octet holds; other controls.
abbrev pub injects : ℕ → Bool
injects c = c == 13 || c == 10 || c == 0

abbrev pub is_control : ℕ → Bool
is_control c = (leb 1 c && leb c 8) || c == 11 || c == 12 || (leb 14 c && leb c 31) || c == 127

-- `${name}: ${value}\r\n`
abbrev pub written_field : Text → Text → Text
written_field name value = name ++ (58 ∷ 32 ∷ trim_blanks value) ++ 13 ∷ 10 ∷ []

-- A round of the loop.
unfoldable pub checked_field : Text → Text → Result Text
unfolding is_token trim_blanks
checked_field name value =
    if not (is_token name)
    then err (http_error http_header)
    else if not (all (λ c. not (injects c)) value)
    then err (http_error http_header)
    else if not (all (λ c. leb c 255) value)
    then err (http_error http_header)
    else if not (all (λ c. not (is_control c)) value)
    then err (http_error http_header)
    else ok (written_field name value)

unfoldable pub written_fields : FieldList → Result Text
unfolding checked_field
written_fields [] = ok (13 ∷ 10 ∷ [])
written_fields ((name, value) ∷ fields) =
    let rest = written_fields fields in
    checked_field name value >>= λ field. rest >>= λ others. ok (field ++ others)

-- `${method} ${target} HTTP/${httpVersion}`
abbrev pub request_line : RequestHead → Text
request_line req = req.method ++ (32 ∷ req.target ++ (units " HTTP/" ++ req.http_version))

-- No character is above 0xFF, so that `latin1Bytes` gives the same numbers.
unfoldable pub serialize_request_head : RequestHead → Result Bytes
unfolding is_token is_target written_fields
serialize_request_head req =
    if not (is_token req.method)
    then err (http_error http_request_line)
    else if not (is_target req.target)
    then err (http_error http_request_line)
    else if not (equal req.http_version (units "1.0") || equal req.http_version (units "1.1"))
    then err (http_error http_request_line)
    else written_fields req.headers >>= λ fields. ok (request_line req ++ (13 ∷ 10 ∷ fields))
