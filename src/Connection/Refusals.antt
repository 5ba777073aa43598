-- ===== src/Connection/Refusals.antt =====
-- src/http2/connection.js: requests that are refused, and the errors of one stream.
use tunnelfetch.Prelude.{
  ℕ, arith, Bool, true, false, not, ◌&&◌, ◌≡◌, ◌≢◌, refl, sym, ap, ◌∙◌, ◌⊎◌, inl, inr, if_holds,
  if_cases, option_cases, Option, some, [], ◌∷◌, ◌++◌, leb,
}
use tunnelfetch.Errors.{Failure, Result, ok, err, err≢ok, http2_error, http2_header}
use tunnelfetch.Frames.ErrorCode
use tunnelfetch.Connection.Soundness.{is_settled}
use tunnelfetch.Connection.Budget.{put_stream-found, put_stream-other}
use tunnelfetch.Connection.State.{
  Stream, Http2Connection, FieldList, ResponseHead, malformed, rst_stream, is_some,
}
use tunnelfetch.Connection.Teardown.{
  find_object, put_stream, fail_stream, remove_stream, reject_stream, send_rst, reset_stream,
}
use tunnelfetch.Connection.Fields.{Platform, Request, parse_response_headers, content_length_of}
use tunnelfetch.Connection.Receiving.Head.{deliver_response_head, take_head, protocol}
use tunnelfetch.Connection.Sending.{can_dispatch, at_limit, request_live, request}

-- A request that throws leaves the connection as it was, and throws only where canDispatch says no.
pub request_refusal :
    (platform : Platform) (r : Request) (aborted : Option Failure) (c : Http2Connection)
    (e : Failure)
    → (request platform r aborted c).0 ≡ err e
    → ((request platform r aborted c).1 ≡ c) × (can_dispatch c ≡ false)
unfolding request request_live can_dispatch
request_refusal platform r aborted c e h =
    let P : Result ℕ × Http2Connection → Type 0 =
      λ q. q.0 ≡ err e → (q.1 ≡ c) × (can_dispatch c ≡ false) in
    option_cases P c.fatal
      (λ f.
        if_cases P c.closed (λ y h. (refl, ground arith))
          (λ n1.
            if_cases P (is_some c.going_away) (λ y h. (refl, ground arith))
              (λ n2.
                if_cases P (at_limit c) (λ y h. (refl, ground arith))
                  (λ n3 h. absurd (err≢ok (sym h))))))
      (λ x f h. (refl, simp f refl)) h

failed_facts :
    (e : Failure) (s : Stream)
    → let t = fail_stream e (record s { rst_sent = true }) in
      (t.closed ≡ true) × (is_settled t.head ≡ true)
unfolding fail_stream remove_stream reject_stream
failed_facts e s = (refl, ground arith)

-- What one stream's error leaves: all of the connection but that stream and what is written, to which
-- a reset of the stream may be added.
abbrev pub Isolated : Stream → ℕ → Http2Connection → Http2Connection → Type 0
Isolated s code c d =
    (d ≡ record c { streams = d.streams; written = d.written })
    × ((d.written ≡ c.written) ⊎ (d.written ≡ c.written ++ rst_stream s.id code ∷ []))
    × ((id : ℕ) → id ≢ s.id → find_object id d.streams ≡ find_object id c.streams)

send_rst-Isolated :
    (s : Stream) (code : ℕ) (c : Http2Connection)
    → Isolated s code c (send_rst s code c) × ((send_rst s code c).streams ≡ c.streams)
unfolding send_rst
send_rst-Isolated s code c =
    let P : Http2Connection → Type 0 = λ d. Isolated s code c d × (d.streams ≡ c.streams) in
    let same : P c = ((refl, inl refl, λ id ne. refl), refl) in
    if_holds P s.rst_sent same (
      if_holds P (not (is_some c.fatal) && not c.closed) ((refl, inr refl, λ id ne. refl), refl)
        same)

reset_stream-Isolated :
    (s : Stream) (code : ℕ) (e : Failure) (c : Http2Connection)
    → Isolated s code c (reset_stream s code e c)
unfolding reset_stream fail_stream remove_stream reject_stream
reset_stream-Isolated s code e c =
    let ((rest, sent, others), same) = send_rst-Isolated s code c in
    let s' = fail_stream e (record s { rst_sent = true }) in
    (
      ap {A = Http2Connection}
          (λ d. record d { streams = put_stream s' (send_rst s code c).streams }) rest,
      sent,
      λ id ne. put_stream-other s' id (send_rst s code c).streams ne ∙ others id ne,
    )

reset_object :
    (s t : Stream) (code : ℕ) (e : Failure) (c : Http2Connection)
    → find_object s.id c.streams ≡ some t
    → find_object s.id (reset_stream s code e c).streams
      ≡ some (fail_stream e (record s { rst_sent = true }))
unfolding reset_stream fail_stream remove_stream reject_stream
reset_object s t code e c f =
    put_stream-found _ t (send_rst s code c).streams
      (ap (find_object s.id) (send_rst-Isolated s code c).1 ∙ f)

-- A stream that has failed: it is closed, and the promise of its head is settled.
abbrev pub Failed : ℕ → Http2Connection → Type 0
Failed id c =
    (t : Stream) × (find_object id c.streams ≡ some t)
    × (t.closed ≡ true)
    × (is_settled t.head ≡ true)

reset-Failed :
    (s t : Stream) (code : ℕ) (e : Failure) (c : Http2Connection)
    → find_object s.id c.streams ≡ some t
    → Isolated s code c (reset_stream s code e c) × Failed s.id (reset_stream s code e c)
reset-Failed s t code e c f =
    let facts = failed_facts e s in
    (reset_stream-Isolated s code e c, (_, reset_object s t code e c f, facts.0, facts.1))

abbrev pub interim : ResponseHead → Bool
interim h = leb 100 h.status && leb h.status 199

-- A head that is malformed: its fields are no response head, or are those of an interim response that
-- ends the stream, or of a final one whose Content-Length is no length.
abbrev pub IsMalformed : Platform → FieldList → Bool → Type 0
IsMalformed platform pairs end_stream =
    ((e : Failure) × (parse_response_headers platform pairs ≡ err e))
    ⊎ ((h : ResponseHead) × (parse_response_headers platform pairs ≡ ok h)
        × (((interim h ≡ true) × (end_stream ≡ true))
            ⊎ ((interim h ≡ false) × (content_length_of platform h.headers ≡ malformed))))

-- A response head that is malformed, in its fields, as an interim response that ends the stream, or in
-- its Content-Length, is an error of its stream alone: the stream is closed and the promise of its head
-- is settled, every other stream is as it was, a reset of the stream is all that is written, and
-- the rest of the connection is as it was.
pub malformed_head-Isolated :
    (platform : Platform) (pairs : FieldList) (end_stream : Bool) (s : Stream) (c : Http2Connection)
    → IsMalformed platform pairs end_stream
    → find_object s.id c.streams ≡ some s
    → let d = deliver_response_head platform pairs end_stream s c in
      Isolated s ErrorCode.protocol_error c d × Failed s.id d
unfolding deliver_response_head take_head
malformed_head-Isolated platform pairs end_stream s c (inl (e, bad)) f =
    rw (deliver_response_head, bad) (reset-Failed s s ErrorCode.protocol_error e c f)
malformed_head-Isolated platform pairs end_stream s c (inr (h, good, inl (early, ends))) f =
    rw (deliver_response_head, good, early, ends)
      (reset-Failed s s ErrorCode.protocol_error (http2_error http2_header) c f)
malformed_head-Isolated platform pairs end_stream s c (inr (h, good, inr (final, length_))) f =
    rw (deliver_response_head, good, final, length_)
      (reset-Failed
        (record s { response_received = true; status = h.status; declared_length = malformed }) s
        ErrorCode.protocol_error protocol c f)
