-- ===== src/Connection/Fields.antt =====
-- src/http2/connection.js: the header fields of requests, responses and trailers. The platform's
-- `Headers`, `trim` and `toLowerCase` are parameters.
use tunnelfetch.Prelude.{ℕ, ◌^◌, Bool, true, false, not, ◌&&◌, ◌||◌}
use tunnelfetch.Prelude.{
  Option, none, some, List, [], ◌∷◌, ◌++◌, ltb, leb, ◌==◌, if◌then◌else◌, length, get_or,
}
use tunnelfetch.Prelude.Texts.{Text, split}
use tunnelfetch.Bytes.{Bytes, equal}
use tunnelfetch.Errors.{
  Result, ok, err, http2_error, http2_header, http2_trailer, ◌>>=◌, ◌>>◌, require,
}
use tunnelfetch.Hpack.StaticTable.{units}
use tunnelfetch.Hpack.Encoder.{Indexing, incremental, without, HpackField}
use tunnelfetch.Identity.Addresses.{all_digits, decimal}
use tunnelfetch.Connection.State.{
  FieldList, ResponseHead, Declared, absent, malformed, declared, or_else,
}

-- What the connection calls of the platform. `append` adds a field to a `Headers` or throws, `get`
-- reads one.
pub record Platform : Type 0 where
  pub decode_text : Bytes → Text
  pub utf8 : Text → Bytes
  pub to_lower_case : Text → Text
  pub trim : Text → Text
  pub append : Text → Text → FieldList → Result FieldList
  pub get : Text → FieldList → Option Text

pub in_texts : Text → List Text → Bool
in_texts name [] = false
in_texts name (t ∷ ts) = if equal t name then true else in_texts name ts

pub pseudo_header_names : List Text
pseudo_header_names = units ":method" ∷ units ":scheme" ∷ units ":authority" ∷ units ":path" ∷ []

pub forbidden_h2_headers : List Text
forbidden_h2_headers =
    units "connection"
    ∷ units "proxy-connection"
    ∷ units "keep-alive"
    ∷ units "transfer-encoding"
    ∷ units "upgrade"
    ∷ []

pub record Request : Type 0 where
  pub method : Text
  pub scheme : Text
  pub authority : Text
  pub path : Text
  pub headers : FieldList
  pub body : Option Bytes

-- `pseudo[name]`
pub pseudo_value : Request → Text → Text
pseudo_value r name =
    if equal name (units ":method")
    then r.method
    else if equal name (units ":scheme")
    then r.scheme
    else if equal name (units ":authority")
    then r.authority
    else r.path

pub indexing_for : (Text → Option Indexing) → Text → Indexing
indexing_for chosen name =
    or_else (chosen name) (if equal name (units ":path") then without else incremental)

pub field : (Text → Option Indexing) → Text → Text → HpackField
field chosen name value = record { name = name; value = value; indexing = indexing_for chosen name }

-- The loop over the order: a name that is no pseudo-header, or that was seen, is passed over.
pub order_names : List Text → List Text → List Text
order_names [] seen = seen
order_names (name ∷ names) seen = order_names names (
    if not (in_texts name pseudo_header_names) || in_texts name seen
    then seen
    else seen ++ name ∷ [])

pub pseudo_fields : (Text → Option Indexing) → Request → List Text → List HpackField
pseudo_fields chosen r [] = []
pseudo_fields chosen r (name ∷ names) =
    field chosen name (pseudo_value r name) ∷ pseudo_fields chosen r names

pub regular_fields : (Text → Option Indexing) → FieldList → List HpackField
regular_fields chosen [] = []
regular_fields chosen (f ∷ fs) = field chosen f.0 f.1 ∷ regular_fields chosen fs

-- Both loops over orders pass over what was seen, so that they are one over both orders.
pub build_request_fields : Option (List Text) → (Text → Option Indexing) → Request → List HpackField
build_request_fields order chosen r =
    pseudo_fields chosen r
      (order_names (or_else order pseudo_header_names ++ pseudo_header_names) [])
    ++ regular_fields chosen r.headers

-- `assertHeaderNameGrammar`
pub assert_header_name_grammar : Text → Result (Unit {0})
assert_header_name_grammar [] = ok tt
assert_header_name_grammar (c ∷ cs) =
    if (leb 0x41 c && leb c 0x5a) || leb c 0x20 || c == 0x7f || c == 0x3a
    then err (http2_error http2_header)
    else assert_header_name_grammar cs

-- The variables of `parseResponseHeaders`.
pub record Parsed : Type 0 where
  pub status : Option ℕ
  pub saw_regular : Bool
  pub headers : FieldList
  pub set_cookie : List Text

pub parse_status : Text → Parsed → Result Parsed
parse_status value p = if p.saw_regular then err (http2_error http2_header) else elim p.status [
  | some status ↦ err (http2_error http2_header)
  | none ↦
      if length value == 3 && all_digits value
      then ok record p { status = some (decimal 0 value) }
      else err (http2_error http2_header)
]

unfoldable pub parsed_head : Parsed → Result ResponseHead
parsed_head p = elim p.status [
  | none ↦ err (http2_error http2_header)
  | some status ↦ ok record { status = status; headers = p.headers; set_cookie = p.set_cookie }
]

-- `/^\d+$/` for each part.
pub all_numbers : List Text → Bool
all_numbers [] = true
all_numbers (p ∷ ps) = ltb 0 (length p) && all_digits p && all_numbers ps

pub all_same : Text → List Text → Bool
all_same p [] = true
all_same p (q ∷ qs) = equal p q && all_same p qs

pub trimmed : (Text → Text) → List Text → List Text
trimmed trim [] = []
trimmed trim (p ∷ ps) = trim p ∷ trimmed trim ps

-- One number in all the parts; the test for a safe integer is by its value.
pub one_length : List Text → Declared
one_length [] = malformed
one_length (p ∷ ps) =
    if not (all_numbers (p ∷ ps)) || not (all_same p ps) || leb (2 ^ 53) (decimal 0 p)
    then malformed
    else declared (decimal 0 p)

module _ (platform : Platform) where
  pub content_length_of : FieldList → Declared
  content_length_of headers = elim (platform.get (units "content-length") headers) [
    | none ↦ absent
    | some raw ↦ one_length (trimmed platform.trim (split 44 raw))
  ]

  pub parse_regular : Text → Text → Parsed → Result Parsed
  parse_regular name value p =
      assert_header_name_grammar name
      >> require (not (in_texts name forbidden_h2_headers)) (http2_error http2_header)
      >> require
          (not (
            equal name (units "te")
            && not (equal (platform.to_lower_case value) (units "trailers"))))
          (http2_error http2_header)
      >> (platform.append name value p.headers >>= λ headers. ok record p {
        saw_regular = true;
        set_cookie =
            if equal name (units "set-cookie") then p.set_cookie ++ value ∷ [] else p.set_cookie;
        headers = headers;
      })

  -- One pair. A name that starts with ":" (58) is ":status", or is refused.
  pub parse_pair : Text → Text → Parsed → Result Parsed
  parse_pair name value p =
      if length name == 0
      then err (http2_error http2_header)
      else if get_or name 0 0 == 58
      then (if equal name (units ":status")
          then parse_status value p
          else err (http2_error http2_header))
      else parse_regular name value p

  unfoldable pub parse_pairs : FieldList → Parsed → Result Parsed
  parse_pairs [] p = ok p
  parse_pairs (f ∷ fs) p = parse_pair f.0 f.1 p >>= parse_pairs fs

  unfoldable pub parse_response_headers : FieldList → Result ResponseHead
  parse_response_headers pairs =
      parse_pairs pairs record { status = none; saw_regular = false; headers = []; set_cookie = [] }
      >>= parsed_head

  pub parse_trailers_from : FieldList → FieldList → Result FieldList
  parse_trailers_from [] trailers = ok trailers
  parse_trailers_from (f ∷ fs) trailers =
      require (not (length f.0 == 0 || get_or f.0 0 0 == 58)) (http2_error http2_trailer)
      >> assert_header_name_grammar f.0
      >> require (not (in_texts f.0 forbidden_h2_headers)) (http2_error http2_trailer)
      >> (platform.append f.0 f.1 trailers >>= parse_trailers_from fs)

  pub parse_trailers : FieldList → Result FieldList
  parse_trailers pairs = parse_trailers_from pairs []
