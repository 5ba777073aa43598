-- ===== src/Http1/RequestHeads.antt =====
-- src/http1/request.js: a request head that is written is one request line and its fields, and nothing
-- that a caller passes can end a line.
use tunnelfetch.Prelude.{
  ℕ, suc, ◌+◌, ◌-◌, ◌≤◌, ◌≡◌, refl, sym, ap, ◌∙◌, true, false, not, ◌&&◌, ◌||◌, inl, inr, ◌∷◌, ◌++◌,
  append_assoc, leb, length, length-append, and_both, not-false, if_cases, some, Bool-cases, arith,
}
use tunnelfetch.Prelude.Texts.{Text, includes}
use mathlib.Core.Path.{subst}
use tunnelfetch.Bytes.{Bytes, equal}
use tunnelfetch.Errors.{Code, Result, ok, bind_inversion, ok-inj, err≢ok, ◌>>=◌}
use tunnelfetch.Reader.{ByteReader}
use tunnelfetch.Reader.Buffer.{Valid, pending}
use tunnelfetch.Reader.Refines.{Ends}
use tunnelfetch.Hpack.StaticTable.{units}
use tunnelfetch.Connection.Fields.{Platform}
use tunnelfetch.Http1.Fields.{all, is_empty, is_token, token_char}
use tunnelfetch.Http1.Lines.{crlf}
use tunnelfetch.Http1.Request.{
  RequestHead, is_target, request_line, written_fields, serialize_request_head,
}
use tunnelfetch.Http1.Response.{Head, read_head_line, fields_loop}
use tunnelfetch.Http1.Sending.{includes_append, all_clean}
use tunnelfetch.Http1.Agreement.{head_line, added, fields_loop-added}
use tunnelfetch.Http1.Framing.{equal_same}

version_clean :
    (v : Text) → (equal v (units "1.0") || equal v (units "1.1")) ≡ true → includes 10 v ≡ false
unfolding includes
version_clean v h = elim (Bool-cases (equal v (units "1.0"))) [
  | inl old ↦ ap (includes 10) (equal_same v (units "1.0") old)
  | inr other ↦ ap (includes 10) (equal_same v (units "1.1") (rw other at h))
]

-- The request line holds no line feed.
request_line_clean :
    (req : RequestHead)
    → is_token req.method ≡ true
    → is_target req.target ≡ true
    → (equal req.http_version (units "1.0") || equal req.http_version (units "1.1")) ≡ true
    → includes 10 (request_line req) ≡ false
unfolding is_token token_char is_target includes
request_line_clean req method target version =
    let (some_method, tokens) =
      and_both (not (is_empty req.method)) (all token_char req.method) method in
    let (some_target, printable) =
      and_both (not (is_empty req.target)) (all (λ c. leb 33 c && leb c 126) req.target) target in
    includes_append req.method (32 ∷ req.target ++ (units " HTTP/" ++ req.http_version))
      (all_clean token_char req.method refl tokens)
      (includes_append req.target (units " HTTP/" ++ req.http_version)
        (all_clean (λ c. leb 33 c && leb c 126) req.target refl printable)
        (version_clean req.http_version version))

-- The checks that a head that is written has passed.
passed :
    (req : RequestHead) (bytes : Bytes)
    → serialize_request_head req ≡ ok bytes
    → (is_token req.method ≡ true)
      × (is_target req.target ≡ true)
      × ((equal req.http_version (units "1.0") || equal req.http_version (units "1.1")) ≡ true)
      × ((written_fields req.headers >>= λ fields. ok (request_line req ++ (13 ∷ 10 ∷ fields)))
          ≡ ok bytes)
unfolding serialize_request_head
passed req bytes e =
    if_cases P (not (is_token req.method)) (λ bad q. absurd (err≢ok q))
      (λ method.
        if_cases P (not (is_target req.target)) (λ bad q. absurd (err≢ok q))
          (λ target.
            if_cases P
              (not (equal req.http_version (units "1.0") || equal req.http_version (units "1.1")))
              (λ bad q. absurd (err≢ok q))
              (λ version q. (not-false method, not-false target, not-false version, q))))
      e
  where
    P : Result Bytes → Type 0
    P r =
        r ≡ ok bytes
        → (is_token req.method ≡ true)
          × (is_target req.target ≡ true)
          × ((equal req.http_version (units "1.0") || equal req.http_version (units "1.1")) ≡ true)
          × ((written_fields req.headers >>= λ fields. ok (request_line req ++ (13 ∷ 10 ∷ fields)))
              ≡ ok bytes)

-- The request line is read as it was meant, and then exactly the fields, with the bytes `rest` behind.
pub record IsReadBack (platform : Platform) (req : RequestHead) (code : Code) (left : ℕ) (size : ℕ)
    (head head' : Head) (rest : Bytes) (r : ByteReader) : Type 0 where
  pub budget : ℕ
  pub after_line : ByteReader
  pub first : read_head_line code left r ≡ some (ok (request_line req, budget), after_line)
  pub fields :
      Ends
        (Head × ℕ)
        (fields_loop platform (suc budget) budget head after_line)
        (ok (head', left - size), rest)

-- No request smuggles another one: the bytes of a head that serializeRequestHead writes are read, by the
-- rules that this package has for heads, as its own request line and its own fields, each value without
-- the blanks around it, and what follows them is left, however the stream is cut. The head is within the
-- budget, and the platform's Headers take the fields.
pub serialize_request_head-IsReadBack :
    (platform : Platform) (req : RequestHead) (bytes rest : Bytes) (code : Code) (left : ℕ)
    (head head' : Head) (r : ByteReader)
    → serialize_request_head req ≡ ok bytes
    → added platform head req.headers ≡ ok head'
    → length bytes ≤ left
    → Valid r
    → pending r ≡ bytes ++ rest
    → IsReadBack platform req code left (length bytes) head head' rest r
unfolding serialize_request_head
serialize_request_head-IsReadBack platform req bytes rest code left head head' r e a short v s =
    let (method, target, version, e3) = passed req bytes e in
    let (text, written, done) = bind_inversion (written_fields req.headers) _ e3 in
    let line = request_line req in
    let clean = request_line_clean req method target version in
    let size : length bytes ≡ length line + 2 + length text =
      omega (arith, ap length (ok-inj done), length-append line (crlf ++ text)) in
    let cut : pending r ≡ line ++ (crlf ++ (text ++ rest)) =
      s ∙ ap (λ b. b ++ rest) (sym (ok-inj done)) ∙ append_assoc line (crlf ++ text) rest in
    let l = head_line code left r line (text ++ rest) v cut clean (omega (arith, size)) in
    let budget = left - (length line + 2) in
    let later =
      fields_loop-added platform req.headers (suc budget) budget head head' text rest l.reader
        written l.valid l.left (omega (arith, size, short)) (omega (arith, size, short)) a in
    let spent : budget - length text ≡ left - length bytes = omega (arith, size) in
    record {
      budget = budget;
      after_line = l.reader;
      first = l.result;
      fields =
          subst
            (λ n.
              Ends (Head × ℕ) (fields_loop platform (suc budget) budget head l.reader)
                (ok (head', n), rest))
            spent later;
    }
