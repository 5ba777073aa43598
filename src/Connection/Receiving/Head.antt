-- ===== src/Connection/Receiving/Head.antt =====
-- src/http2/connection.js: a header block that is complete, as a response head or as trailers.
use tunnelfetch.Prelude.{
  ℕ, Bool, true, false, not, ◌&&◌, ◌||◌, Option, none, some, ltb, leb, ◌==◌, if◌then◌else◌,
}
use tunnelfetch.Bytes.{Bytes, equal}
use tunnelfetch.Errors.{
  Failure, Result, ok, err, http2_error, http2_protocol, http2_header, http2_trailer,
}
use tunnelfetch.Frames.ErrorCode
use tunnelfetch.Hpack.{HpackDecoder}
use tunnelfetch.Hpack.Blocks.{decode}
use tunnelfetch.Hpack.StaticTable.{units}
use tunnelfetch.Connection.State.{
  Stream, Http2Connection, Declared, absent, malformed, declared, settle_resolve, FieldList,
  ResponseHead,
}
use tunnelfetch.Connection.Teardown.{find_stream, update, maybe_close_stream, reset_stream, die}
use tunnelfetch.Connection.Fields.{
  Platform, parse_response_headers, parse_trailers, content_length_of,
}

abbrev pub protocol : Failure
protocol = http2_error http2_protocol

-- The responses to which a declared length says nothing of the bytes to come.
unfoldable pub exempt : Stream → Bool
exempt s = equal s.method (units "HEAD") || s.status == 204 || s.status == 304

-- Whether a received length is the declared one, where there is one, and whether it is over it.
abbrev pub agrees : Declared → ℕ → Bool
agrees absent received = true
agrees malformed received = false
agrees (declared n) received = n == received

abbrev pub exceeds : Declared → ℕ → Bool
exceeds absent received = false
exceeds malformed received = false
exceeds (declared n) received = ltb n received

unfoldable pub length_agrees : Stream → Bool
length_agrees s = agrees s.declared_length s.received_length

-- `_endRecv`, with what its caller does where it returns true.
unfoldable pub end_recv : Stream → (Stream → Stream) → Http2Connection → Http2Connection
unfolding exempt length_agrees
end_recv s then_ c =
    if exempt s || length_agrees s
    then update (then_ (record s { recv_ended = true })) c
    else reset_stream s ErrorCode.protocol_error protocol c

-- What `_deliverResponseHead` settles after the receive half ended, and where it did not.
unfoldable pub answered : ResponseHead → Stream → Stream
answered h s = record s { head = settle_resolve h s.head }

unfoldable pub answered_whole : ResponseHead → Stream → Stream
answered_whole h s = maybe_close_stream record s {
  completed = settle_resolve true s.completed;
  trailers = settle_resolve none s.trailers;
  head = settle_resolve h s.head;
}

-- A final response head.
unfoldable pub take_answer : ResponseHead → Bool → Stream → Http2Connection → Http2Connection
take_answer h end_stream s c =
    if end_stream then end_recv s (answered_whole h) c else update (answered h s) c

unfoldable pub take_head :
    ResponseHead → Declared → Bool → Stream → Http2Connection → Http2Connection
unfolding take_answer
take_head h length_ end_stream s c =
    let s' = record s { response_received = true; status = h.status; declared_length = length_ } in
    let t = record s' { received_length = 0 } in
    elim length_ [
      | malformed ↦ reset_stream s' ErrorCode.protocol_error protocol c
      | absent ↦ take_answer h end_stream t c
      | declared n ↦ take_answer h end_stream t c
    ]

-- Trailers that are well formed.
unfoldable pub take_trailers : FieldList → Stream → Http2Connection → Http2Connection
take_trailers fields s c = end_recv (record s { trailer_fields = some fields }) maybe_close_stream c

module _ (platform : Platform) where
  unfoldable pub deliver_response_head :
      FieldList → Bool → Stream → Http2Connection → Http2Connection
  deliver_response_head pairs end_stream s c = elim (parse_response_headers platform pairs) [
    | err e ↦ reset_stream s ErrorCode.protocol_error e c
    | ok h ↦
        if leb 100 h.status && leb h.status 199
        then (if end_stream
            then reset_stream s ErrorCode.protocol_error (http2_error http2_header) c
            else c)
        else take_head h (content_length_of platform h.headers) end_stream s c
  ]

  unfoldable pub deliver_trailers : FieldList → Bool → Stream → Http2Connection → Http2Connection
  deliver_trailers pairs end_stream s c =
      if not end_stream
      then reset_stream s ErrorCode.protocol_error (http2_error http2_trailer) c
      else elim (parse_trailers platform pairs) [
        | err e ↦ reset_stream s ErrorCode.protocol_error e c
        | ok fields ↦ take_trailers fields s c
      ]

  unfoldable pub deliver : FieldList → Bool → Option Stream → Http2Connection → Http2Connection
  deliver pairs end_stream none c = c
  deliver pairs end_stream (some s) c =
      if s.response_received
      then deliver_trailers pairs end_stream s c
      else deliver_response_head pairs end_stream s c

  -- The decoder keeps what a block did to it, also when the block is refused. Its fuel is enough, so
  -- that `none` does not come.
  unfoldable pub decoded :
      ℕ → Bool → Option (HpackDecoder × Result FieldList) → Http2Connection → Http2Connection
  decoded stream_id end_stream none c = c
  decoded stream_id end_stream (some (d, err e)) c = die (some e) (record c { decoder = d })
  decoded stream_id end_stream (some (d, ok pairs)) c =
      deliver pairs end_stream (find_stream stream_id c.streams) (record c { decoder = d })

  unfoldable pub complete_header_block : ℕ → Bytes → Bool → Http2Connection → Http2Connection
  complete_header_block stream_id block end_stream c =
      decoded stream_id end_stream (decode platform.decode_text block c.decoder) c
