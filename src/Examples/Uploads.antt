-- ===== src/Examples/Uploads.antt =====
-- A connection that writes: a long header block, an upload, a request that is refused and a head that is malformed.
use tunnelfetch.Prelude.{◌≡◌, refl, arith, All, inl, true, false, none, [], ◌∷◌, replicate}
use tunnelfetch.Bytes.{Bytes}
use tunnelfetch.Errors.{http2_error, http2_protocol, http2_header}
use tunnelfetch.Hpack.StaticTable.{units}
use tunnelfetch.Frames.ErrorCode
use tunnelfetch.Connection.State.{Stream, Http2Connection, FieldList, new_connection, uploading}
use tunnelfetch.Connection.Teardown.{find_object, close, close_now, finish_closing}
use tunnelfetch.Connection.Fields.{parse_response_headers, parse_pairs, parsed_head}
use tunnelfetch.Connection.Receiving.Head.{deliver_response_head}
use tunnelfetch.Connection.Sending.{create_stream, header_frames, request, can_dispatch}
use tunnelfetch.Connection.Running.{sends, on_stream, run}
use tunnelfetch.Connection.Framing.{HeaderRun, Fits, header_frames-HeaderRun}
use tunnelfetch.Connection.Uploading.{Sent, upload_ends}
use tunnelfetch.Connection.Refusals.{Isolated, Failed, request_refusal, malformed_head-Isolated}
use tunnelfetch.Examples.Connections.{plain, defaults, get_root}

header_frames-HeaderRun_example :
    HeaderRun 2 5 true none
      (1 ∷ 2 ∷ 3 ∷ 4 ∷ 5 ∷ [])
      (header_frames 2 5 (1 ∷ 2 ∷ 3 ∷ 4 ∷ 5 ∷ []) true none)
    × All (Fits 2) (header_frames 2 5 (1 ∷ 2 ∷ 3 ∷ 4 ∷ 5 ∷ []) true none)
header_frames-HeaderRun_example =
    header_frames-HeaderRun 2 5 (1 ∷ 2 ∷ 3 ∷ 4 ∷ 5 ∷ []) true none (omega arith)

abbrev three_bytes : Bytes
three_bytes = 7 ∷ 8 ∷ 9 ∷ []

abbrev sender : Stream
sender = record (create_stream 1 (units "POST") (new_connection defaults)) {
  upload = uploading three_bytes 0;
}

abbrev other : Stream
other = create_stream 3 (units "GET") (new_connection defaults)

abbrev two_streams : Http2Connection
two_streams = record (new_connection defaults) {
  peer_max_frame_size = 2;
  streams = other ∷ sender ∷ [];
}

upload_ends_example :
    Sent 1 three_bytes two_streams (run plain (replicate 4 (on_stream 1 sends)) two_streams)
unfolding new_connection create_stream find_object
upload_ends_example =
    upload_ends plain 3 sender two_streams three_bytes 0 refl refl refl refl (omega arith)
      (omega arith) (omega arith) (omega arith) (omega arith)

abbrev closed_connection : Http2Connection
closed_connection = close (new_connection defaults)

request_refusal_example :
    ((request plain get_root none closed_connection).1 ≡ closed_connection)
    × (can_dispatch closed_connection ≡ false)
unfolding new_connection close close_now finish_closing request
request_refusal_example =
    request_refusal plain get_root none closed_connection (http2_error http2_protocol) refl

-- A head without a status.
abbrev bare_head : FieldList
bare_head = []

abbrev after_bare : Http2Connection
after_bare = deliver_response_head plain bare_head false sender two_streams

malformed_head-Isolated_example :
    Isolated sender ErrorCode.protocol_error two_streams after_bare × Failed 1 after_bare
unfolding new_connection create_stream find_object parse_response_headers parse_pairs parsed_head
malformed_head-Isolated_example =
    malformed_head-Isolated plain bare_head false sender two_streams
      (inl (http2_error http2_header, refl)) refl
