-- ===== src/Http1/Agreement.antt =====
-- src/http1/request.js and src/http1/response.js: the fields that the one writes are those that the
-- other reads, and the bytes behind them are left.
use tunnelfetch.Prelude.{
  ℕ, zero, suc, ◌+◌, ◌-◌, ◌≤◌, ◌≡◌, refl, sym, ap, ◌∙◌, false, not, [], ◌∷◌, ◌++◌, append_assoc,
  length, length-append, leb, if_cases, not-false, if_false, arith, some,
}
use tunnelfetch.Prelude.Texts.{Text, includes}
use tunnelfetch.Bytes.{Bytes}
use tunnelfetch.Errors.{
  Result, ok, Code, http_error, http_header, bind_inversion, ok-inj, err≢ok, ◌>>=◌,
}
use tunnelfetch.Reader.{ByteReader, and_then}
use tunnelfetch.Reader.Buffer.{Valid, pending}
use tunnelfetch.Reader.Refines.{Ends}
use tunnelfetch.Reader.Delimited.{until_spec, read_until-Ends}
use tunnelfetch.Connection.State.{FieldList}
use tunnelfetch.Connection.Fields.{Platform}
use tunnelfetch.Http1.Fields.{all, is_token, trim_blanks}
use tunnelfetch.Http1.Chunked.{line_feed}
use tunnelfetch.Http1.Lines.{crlf, until_line, chop_line-crlf}
use tunnelfetch.Http1.Request.{injects, is_control, checked_field, written_fields}
use tunnelfetch.Http1.Response.{
  Head, read_head_line, add_pair, add_field, after_add, after_field, fields_loop,
}
use tunnelfetch.Http1.Sending.{sent_line, IsField, sent_line-IsField, sendable}

-- A line of a head within the budget.
pub head_line :
    (code : Code) (left : ℕ) (r : ByteReader) (line more : Bytes)
    → Valid r
    → pending r ≡ line ++ (crlf ++ more)
    → includes 10 line ≡ false
    → length line + 2 ≤ left
    → Ends (Text × ℕ) (read_head_line code left r) (ok (line, left - (length line + 2)), more)
unfolding read_head_line
head_line code left r line more v s clean short =
    let e = read_until-Ends line_feed left r v (omega arith) in
    let found : until_spec line_feed left (pending r) ≡ (ok (line ++ crlf), more) =
      ap (until_spec line_feed left) s ∙ until_line left line more clean short in
    let long : length (line ++ crlf) ≡ length line + 2 = omega (arith, length-append line crlf) in
    record {
      reader = e.reader;
      result = rw (e.result, found, chop_line-crlf, long) refl;
      left = e.left ∙ ap (λ p. p.1) found;
      valid = e.valid;
    }

-- What a written field was made of.
record Written (name value text : Text) : Type 0 where
  field : IsField name (trim_blanks value) (sent_line name value)
  shape : text ≡ sent_line name value ++ crlf

checked_field-Written :
    (name value text : Text) → checked_field name value ≡ ok text → Written name value text
unfolding checked_field
checked_field-Written name value text e =
    if_cases P (not (is_token name)) (λ bad q. absurd (err≢ok q))
      (λ token.
        if_cases P (not (all (λ c. not (injects c)) value)) (λ bad q. absurd (err≢ok q))
          (λ pure.
            if_cases P (not (all (λ c. leb c 255) value)) (λ bad q. absurd (err≢ok q))
              (λ narrow.
                if_cases P (not (all (λ c. not (is_control c)) value)) (λ bad q. absurd (err≢ok q))
                  (λ clean q. record {
                    field =
                        sent_line-IsField name value (not-false token)
                          (sendable value (not-false pure) (not-false narrow) (not-false clean));
                    shape = sym (ok-inj q);
                  }))))
      e
  where
    P : Result Text → Type 0
    P r = r ≡ ok text → Written name value text

module _ (platform : Platform) where
  -- The head with the fields added, one after the other, each trimmed.
  unfoldable pub added : Head → FieldList → Result Head
  added head [] = ok head
  added head ((name, value) ∷ fields) =
      add_pair platform head (name, trim_blanks value) >>= λ more. added more fields

  pub fields_loop-added :
      (fields : FieldList) (fuel left : ℕ) (head head' : Head) (text rest : Bytes) (r : ByteReader)
      → written_fields fields ≡ ok text
      → Valid r
      → pending r ≡ text ++ rest
      → length text ≤ left
      → length text ≤ fuel
      → added head fields ≡ ok head'
      → Ends
          (Head × ℕ)
          (fields_loop platform fuel left head r)
          (ok (head', left - length text), rest)
  unfolding written_fields added fields_loop after_field after_add add_field includes
  fields_loop-added [] zero left head head' text rest r w v s short enough a =
      absurd (omega (arith, ap length (ok-inj w)))
  fields_loop-added [] (suc fuel) left head head' text rest r w v s short enough a =
      let shape : text ≡ crlf = sym (ok-inj w) in
      let e =
        head_line http_header left r [] rest v (s ∙ ap (λ t. t ++ rest) shape) refl
          (omega (arith, ap length shape)) in
      let spent : left - (0 + 2) ≡ left - length text = omega (arith, ap length shape) in
      record {
        reader = e.reader;
        result =
            ap (λ o. and_then o (after_field platform (fields_loop platform fuel) head)) e.result
            ∙ ap (λ n. some (ok (head, n), e.reader)) spent
            ∙ ap (λ h. some (ok (h, left - length text), e.reader)) (ok-inj a);
        left = e.left;
        valid = e.valid;
      }
  fields_loop-added ((name, value) ∷ fields) zero left head head' text rest r w v s short enough a =
      let (field, checked, w1) = bind_inversion (checked_field name value) _ w in
      let (others, w2, done) = bind_inversion (written_fields fields) _ w1 in
      let h = checked_field-Written name value field checked in
      absurd (
        omega (
          arith,
          ap length (ok-inj done),
          length-append field others,
          ap length h.shape,
          length-append (sent_line name value) crlf,
        ))
  fields_loop-added ((name, value) ∷ fields) (suc fuel) left head head' text rest r w v s short
        enough a =
      let (field, checked, w1) = bind_inversion (checked_field name value) _ w in
      let (others, w2, done) = bind_inversion (written_fields fields) _ w1 in
      let (more, paired, a') =
        bind_inversion (add_pair platform head (name, trim_blanks value)) _ a in
      let h = checked_field-Written name value field checked in
      let line = sent_line name value in
      let size : length text ≡ length line + 2 + length others = omega (
        arith,
        ap length (ok-inj done),
        length-append field others,
        ap length h.shape,
        length-append line crlf,
      ) in
      let cut : pending r ≡ line ++ (crlf ++ (others ++ rest)) =
        s
        ∙ ap (λ t. t ++ rest) (sym (ok-inj done) ∙ ap (λ f. f ++ others) h.shape)
        ∙ append_assoc (line ++ crlf) others rest
        ∙ append_assoc line crlf (others ++ rest) in
      let e =
        head_line http_header left r line (others ++ rest) v cut h.field.one_line
          (omega (arith, size)) in
      let left' = left - (length line + 2) in
      let again = fields_loop platform fuel in
      let later =
        fields_loop-added fields fuel left' more head' others rest e.reader w2 e.valid e.left
          (omega (arith, size, short)) (omega (arith, size, enough)) a' in
      let spent : left' - length others ≡ left - length text = omega (arith, size) in
      record {
        reader = later.reader;
        result =
            ap (λ o. and_then o (after_field platform again head)) e.result
            ∙ if_false _ _ h.field.some_line
            ∙ ap (λ p. after_add platform again left' p e.reader)
                (ap (λ p. p >>= add_pair platform head) (h.field.reads (http_error http_header))
                  ∙ paired)
            ∙ later.result
            ∙ ap (λ n. some (ok (head', n), later.reader)) spent;
        left = later.left;
        valid = later.valid;
      }
