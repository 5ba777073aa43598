-- ===== src/Examples/Messages.antt =====
-- Runs of HTTP/1.1 bodies over streams that arrive in pieces.
use tunnelfetch.Prelude.{
  ◌≡◌, ◌⊎◌, refl, true, false, Option, none, some, List, [], ◌∷◌, ◌++◌, arith, if◌then◌else◌,
}
use tunnelfetch.Prelude.Texts.{Text, includes, split}
use tunnelfetch.Bytes.{Bytes, concat, equal}
use tunnelfetch.Errors.{ok, http_header}
use tunnelfetch.Reader.{open_reader}
use tunnelfetch.Reader.Drain.{exceeds}
use tunnelfetch.Reader.Buffer.{pending, open_reader-Valid}
use tunnelfetch.Hpack.StaticTable.{units}
use tunnelfetch.Connection.State.{FieldList, pending as unsettled}
use tunnelfetch.Http1.Chunked.{ChunkedOptions, new_decoder, chunk_size}
use tunnelfetch.Http1.Response.{Head, add_pair, framed, no_body, content_length, body_framing}
use tunnelfetch.Http1.Bodies.{open_counted}
use tunnelfetch.Http1.Decoding.{Chunk, IsChunk, IsLast, payload, wire, ending}
use tunnelfetch.Http1.Draining.{drain, Drained, drain-wire}
use tunnelfetch.Http1.Framing.{is_bodiless, is_tunnel, IsStated, body_framing-IsStated}
use tunnelfetch.Http1.Fields.{trim_blanks}
use tunnelfetch.Http1.Request.{RequestHead, serialize_request_head}
use tunnelfetch.Http1.Agreement.{added}
use tunnelfetch.Http1.RequestHeads.{IsReadBack, serialize_request_head-IsReadBack}
use tunnelfetch.Http1.Counting.{drain_counted, Counted, open_counted-Counted}
use tunnelfetch.Connection.Fields.{Platform}
use tunnelfetch.Identity.Addresses.{hex_value, hexadecimal, all_digits, decimal, digit}
use tunnelfetch.Examples.Connections.{plain}

abbrev found : Text → FieldList → Option Text
found name [] = none
found name ((n, v) ∷ fields) = if equal n name then some v else found name fields

-- The plain platform, with headers that can be read.
abbrev ascii : Platform
ascii = record plain { get = found }

abbrev limits : ChunkedOptions
limits = record { max_bytes = some 100; max_chunk_size = 50; max_trailer_bytes = 64 }

-- A chunk of three bytes whose line has an extension, and then one of two.
abbrev chunks : List Chunk
chunks =
    record { line = units "3;a=b"; body = 13 ∷ 10 ∷ 48 ∷ [] }
    ∷ record { line = units "02"; body = 7 ∷ 8 ∷ [] }
    ∷ []

first_IsChunk : IsChunk limits record { line = units "3;a=b"; body = 13 ∷ 10 ∷ 48 ∷ [] }
unfolding chunk_size includes hex_value hexadecimal digit
first_IsChunk = record {
  sized = refl;
  some_data = omega arith;
  allowed = omega arith;
  one_line = refl;
  short_line = omega arith;
}

second_IsChunk : IsChunk limits record { line = units "02"; body = 7 ∷ 8 ∷ [] }
unfolding chunk_size includes hex_value hexadecimal digit
second_IsChunk = record {
  sized = refl;
  some_data = omega arith;
  allowed = omega arith;
  one_line = refl;
  short_line = omega arith;
}

zero_IsLast : IsLast (units "0")
unfolding chunk_size includes hex_value hexadecimal digit
zero_IsLast = record { sized = refl; one_line = refl; short_line = omega arith }

-- The stream, cut inside a line, inside the data and inside the end.
abbrev cut : List Bytes
cut =
    (units "3;a")
    ∷ (61 ∷ 98 ∷ 13 ∷ 10 ∷ 13 ∷ [])
    ∷ []
    ∷ (10 ∷ 48 ∷ 13 ∷ 10 ∷ 48 ∷ 50 ∷ 13 ∷ 10 ∷ 7 ∷ [])
    ∷ (8 ∷ 13 ∷ 10 ∷ 48 ∷ 13 ∷ 10 ∷ 13 ∷ [])
    ∷ (10 ∷ 72 ∷ [])
    ∷ []

cut_whole : pending (open_reader cut) ≡ wire chunks (ending (units "0") (72 ∷ []))
unfolding wire concat
cut_whole = refl

drain-wire_example :
    Drained
      (13 ∷ 10 ∷ 48 ∷ 7 ∷ 8 ∷ [])
      (72 ∷ [])
      (drain ascii limits 6 [] new_decoder (open_reader cut))
unfolding payload exceeds
drain-wire_example =
    drain-wire ascii limits chunks (units "0") (72 ∷ []) (open_reader cut)
      (first_IsChunk, (second_IsChunk, tt)) zero_IsLast (omega arith) refl (open_reader-Valid cut)
      cut_whole

-- A declared length of three, sent in two pieces with a byte behind.
abbrev counted : List Bytes
counted = (1 ∷ 2 ∷ []) ∷ (3 ∷ 4 ∷ []) ∷ []

counted_opened : open_counted 3 (some 10) ≡ ok record { remaining = 3; completed = unsettled }
unfolding open_counted exceeds
counted_opened = refl

open_counted-Counted_example :
    Counted 3 []
      (pending (open_reader counted))
      (drain_counted 4 [] (record { remaining = 3; completed = unsettled }) (open_reader counted))
open_counted-Counted_example =
    open_counted-Counted 3 (some 10) (record { remaining = 3; completed = unsettled })
      (open_reader counted) (open_reader-Valid counted) counted_opened

-- Two values of Content-Length that agree.
abbrev lengths : FieldList
lengths = (units "content-length", units "12,12") ∷ []

lengths_framed : body_framing ascii 200 (units "GET") lengths ≡ ok (framed (content_length 12) true)
unfolding body_framing equal split all_digits digit decimal
lengths_framed = refl

body_framing-IsStated_example :
    ((is_bodiless 200 (units "GET") ≡ true)
      × (framed (content_length 12) true ≡ framed no_body true))
    ⊎ ((is_tunnel 200 (units "GET") ≡ true)
        × (framed (content_length 12) true ≡ framed no_body false))
    ⊎ IsStated ascii none (some (units "12,12")) (content_length 12) true
unfolding equal
body_framing-IsStated_example =
    body_framing-IsStated ascii 200 (units "GET") lengths (framed (content_length 12) true)
      lengths_framed

-- A request with one field, whose value has blanks around it.
abbrev request : RequestHead
request = record {
  method = units "GET";
  target = units "/";
  headers = (units "host", units " a\t") ∷ [];
  http_version = units "1.1";
}

abbrev request_bytes : Bytes
request_bytes = units "GET / HTTP/1.1\r\nhost: a\r\n\r\n"

request_sent : serialize_request_head request ≡ ok request_bytes
unfolding serialize_request_head equal includes
request_sent = refl

abbrev empty_head : Head
empty_head = record {
  line = record { http_version = 1; status = 200; status_text = [] };
  headers = [];
  set_cookie = [];
}

abbrev full_head : Head
full_head = record empty_head { headers = (units "host", units "a") ∷ [] }

host_added : added ascii empty_head request.headers ≡ ok full_head
unfolding added add_pair trim_blanks equal
host_added = refl

-- The head is cut in two, with a byte of the next message behind.
abbrev sent : List Bytes
sent = units "GET / HTTP/1.1\r" ∷ units "\nhost: a\r\n\r\nX" ∷ []

sent_whole : pending (open_reader sent) ≡ request_bytes ++ units "X"
unfolding concat
sent_whole = refl

serialize_request_head-IsReadBack_example :
    IsReadBack ascii request http_header 40 27 empty_head full_head (units "X") (open_reader sent)
serialize_request_head-IsReadBack_example =
    serialize_request_head-IsReadBack ascii request request_bytes (units "X") http_header 40
      empty_head full_head (open_reader sent) request_sent host_added (omega arith)
      (open_reader-Valid sent) sent_whole
