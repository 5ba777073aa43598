-- ===== src/Http1/Response.antt =====
-- src/http1/response.js: the heads of responses and the framing of bodies. `Headers`, `trim` and
-- `toLowerCase` are the platform's.
use tunnelfetch.Prelude.{
  ℕ, zero, suc, ◌-◌, ◌^◌, Bool, true, false, not, ◌&&◌, ◌||◌, Option, none, some, List, [], ◌∷◌,
  ◌++◌, map, ltb, leb, ◌==◌, if◌then◌else◌, length, drop,
}
use tunnelfetch.Prelude.Texts.{Text, split}
use tunnelfetch.Bytes.{Bytes, equal, starts_with}
use tunnelfetch.Errors.{
  Result, ok, err, Failure, http_error, http_status_line, http_header, http_upgrade_unexpected,
  http_framing_ambiguous, ◌>>=◌, Code,
}
use tunnelfetch.Reader.{Read, and_then, read_until}
use tunnelfetch.Hpack.StaticTable.{units}
use tunnelfetch.Identity.Addresses.{digit, all_digits, decimal}
use tunnelfetch.Connection.State.{FieldList}
use tunnelfetch.Connection.Fields.{Platform}
use tunnelfetch.Http1.Fields.{all, is_empty, chop_line, field_line, is_field_value}
use tunnelfetch.Http1.Chunked.{line_feed}

-- `httpVersion` is its last digit: 1.0 or 1.1.
pub record StatusLine : Type 0 where
  pub http_version : ℕ
  pub status : ℕ
  pub status_text : Text

-- The reason phrase, which may be absent with its space. `.` matches no CR and no LF.
unfoldable pub reason_of : Text → Option Text
reason_of [] = some []
reason_of (s ∷ reason) =
    if s == 32 && all (λ c. not (c == 13 || c == 10)) reason then some reason else none

-- What stands behind `HTTP/1.` in `STATUS_LINE_RE`.
unfoldable pub versioned : Text → Option StatusLine
unfolding reason_of
versioned (v ∷ s ∷ a ∷ b ∷ c ∷ rest) =
    if (v == 48 || v == 49) && s == 32 && digit a && digit b && digit c
    then elim (reason_of rest) [
      | none ↦ none
      | some reason ↦ some record {
        http_version = v - 48;
        status = decimal 0 (a ∷ b ∷ c ∷ []);
        status_text = reason;
      }
    ]
    else none
versioned line = none

unfoldable pub match_status_line : Text → Option StatusLine
unfolding versioned
match_status_line line =
    if starts_with (units "HTTP/1.") line then versioned (drop 7 line) else none

unfoldable pub status_line : Text → Result StatusLine
unfolding match_status_line
status_line line = elim (match_status_line line) [
  | none ↦ err (http_error http_status_line)
  | some l ↦
      if ltb l.status 100
      then err (http_error http_status_line)
      else if not (is_field_value l.status_text)
      then err (http_error http_status_line)
      else ok l
]

pub record Head : Type 0 where
  pub line : StatusLine
  pub headers : FieldList
  pub set_cookie : List Text

abbrev pub cut_line : Code → ℕ → Result Bytes → Result (Text × ℕ)
cut_line code left (err e) = err e
cut_line code left (ok raw) =
    chop_line (http_error code) raw >>= λ line. ok (line, left - length raw)

-- A line, and what is left of the budget, which all lines of all heads share.
unfoldable pub read_head_line : Code → ℕ → Read (Text × ℕ)
unfolding chop_line
read_head_line code left r =
    and_then (read_until line_feed left r) (λ raw r'. some (cut_line code left raw, r'))

unfoldable pub parsed_line : Result (Text × ℕ) → Result (StatusLine × ℕ)
unfolding status_line
parsed_line got = got >>= λ (text, left). status_line text >>= λ line. ok (line, left)

module _ (platform : Platform) where
  -- What is done with a field that has been read.
  unfoldable pub add_pair : Head → Text × Text → Result Head
  add_pair head (name, value) = platform.append name value head.headers >>= λ headers.
      ok record head {
        headers = headers;
        set_cookie =
            if equal (platform.to_lower_case name) (units "set-cookie")
            then head.set_cookie ++ value ∷ []
            else head.set_cookie;
      }

  unfoldable pub add_field : Head → Text → Result Head
  unfolding field_line add_pair
  add_field head line = field_line (http_error http_header) line >>= add_pair head

  -- The rest of a round, `again` being the next one.
  unfoldable pub after_add : (ℕ → Head → Read (Head × ℕ)) → ℕ → Result Head → Read (Head × ℕ)
  after_add again left (err e) r = some (err e, r)
  after_add again left (ok more) r = again left more r

  unfoldable pub after_field :
      (ℕ → Head → Read (Head × ℕ)) → Head → Result (Text × ℕ) → Read (Head × ℕ)
  unfolding add_field after_add
  after_field again head (err e) r = some (err e, r)
  after_field again head (ok (line, left)) r =
      if is_empty line
      then some (ok (head, left), r)
      else after_add again left (add_field head line) r

  -- The loop over the fields; a line that is read costs a byte of `left` or more.
  unfoldable pub fields_loop : ℕ → ℕ → Head → Read (Head × ℕ)
  unfolding read_head_line after_field
  fields_loop zero left head r = none
  fields_loop (suc fuel) left head r =
      and_then (read_head_line http_header left r) (after_field (fields_loop fuel) head)

  unfoldable pub read_one_head : ℕ → Read (Head × ℕ)
  unfolding read_head_line parsed_line fields_loop
  read_one_head left r = and_then (read_head_line http_status_line left r) (λ got r'.
      elim (parsed_line got) [
        | err e ↦ some (err e, r')
        | ok (line, left') ↦
            fields_loop (suc left') left' record { line = line; headers = []; set_cookie = [] } r'
      ])

  pub record ResponseHead : Type 0 where
    pub head : Head
    pub informational : List Head

  -- The loop of `readResponseHead` with the 1xx heads that it has skipped. A head costs bytes of the
  -- budget.
  unfoldable pub heads_loop : ℕ → ℕ → List Head → Read ResponseHead
  unfolding read_one_head
  heads_loop zero left skipped r = none
  heads_loop (suc fuel) left skipped r = and_then (read_one_head left r) (λ got r'. elim got [
    | err e ↦ some (err e, r')
    | ok (head, left') ↦
        if leb 100 head.line.status && leb head.line.status 199
        then if head.line.status == 101
          then some (err (http_error http_upgrade_unexpected), r')
          else heads_loop fuel left' (skipped ++ head ∷ []) r'
        else some (ok record { head = head; informational = skipped }, r')
  ])

  unfoldable pub read_response_head : ℕ → Read ResponseHead
  unfolding heads_loop
  read_response_head max_header_bytes r = heads_loop (suc max_header_bytes) max_header_bytes [] r

-- `Framing` with its `kind`; `length` is there for the content-length kind alone.
pub data Kind : Type 0 where
  no_body chunked until_close : Kind
  content_length : ℕ → Kind

pub record Framing : Type 0 where
  pub kind : Kind
  pub keep_alive_eligible : Bool

abbrev pub framed : Kind → Bool → Framing
framed kind eligible = record { kind = kind; keep_alive_eligible = eligible }

abbrev pub ambiguous : Failure
ambiguous = http_error http_framing_ambiguous

-- The elements that are not empty.
unfoldable pub non_empty : List Text → List Text
non_empty [] = []
non_empty (t ∷ ts) = let rest = non_empty ts in if is_empty t then rest else t ∷ rest

abbrev pub is_coding : Text → Bool
is_coding c = equal c (units "chunked") || equal c (units "identity")

abbrev pub last_text : Text → List Text → Text
last_text t [] = t
last_text t (u ∷ ts) = last_text u ts

abbrev pub all_texts : (Text → Bool) → List Text → Bool
all_texts test [] = true
all_texts test (t ∷ ts) = test t && all_texts test ts

unfoldable pub by_codings : List Text → Result Framing
by_codings [] = err ambiguous
by_codings (c ∷ cs) =
    if not (all_texts is_coding (c ∷ cs))
    then err ambiguous
    else if equal (last_text c cs) (units "chunked")
    then ok (framed chunked true)
    else ok (framed until_close false)

-- A value of Content-Length among those of a list that begins with `first`.
abbrev pub is_length : Text → Text → Bool
is_length first v = not (is_empty v) && all_digits v && equal v first

unfoldable pub by_lengths : List Text → Result Framing
by_lengths [] = err ambiguous
by_lengths (v ∷ vs) =
    if not (all_texts (is_length v) (v ∷ vs))
    then err ambiguous
    else if leb (2 ^ 53) (decimal 0 v)
    then err ambiguous
    else ok (framed (content_length (decimal 0 v)) true)

module _ (platform : Platform) where
  unfoldable pub list_elements : Text → List Text
  unfolding non_empty
  list_elements value = non_empty (map platform.trim (split 44 value))

  -- What the two fields say; `none` is null.
  unfoldable pub by_fields : Option Text → Option Text → Result Framing
  unfolding by_codings by_lengths list_elements
  by_fields (some te) (some cl) = err ambiguous
  by_fields (some te) none = by_codings (map platform.to_lower_case (list_elements te))
  by_fields none (some cl) = by_lengths (map platform.trim (split 44 cl))
  by_fields none none = ok (framed until_close false)

  unfoldable pub body_framing : ℕ → Text → FieldList → Result Framing
  unfolding by_fields
  body_framing status method headers =
      if equal method (units "HEAD")
        || (leb 100 status && leb status 199)
        || status == 204
        || status == 304
      then ok (framed no_body true)
      else if equal method (units "CONNECT") && leb 200 status && leb status 299
      then ok (framed no_body false)
      else by_fields (platform.get (units "transfer-encoding") headers)
          (platform.get (units "content-length") headers)
