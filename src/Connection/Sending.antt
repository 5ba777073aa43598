-- ===== src/Connection/Sending.antt =====
-- src/http2/connection.js: requests and their bodies, what consumers take, and aborts.
use tunnelfetch.Prelude.{ℕ, zero, suc, ◌+◌, ◌-◌, min, Bool, true, false, not, ◌&&◌, ◌||◌}
use tunnelfetch.Prelude.{
  Option, none, some, List, [], ◌∷◌, ◌++◌, ltb, leb, ◌==◌, if◌then◌else◌, length, take, drop,
}
use tunnelfetch.Prelude.Int.{pos, pos_part, ◌-ℤ◌}
use tunnelfetch.Prelude.Texts.{Text}
use tunnelfetch.Bytes.{Bytes}
use tunnelfetch.Errors.{
  Failure, Result, ok, err, http2_error, http2_retryable, http2_protocol, http2_stream_state,
  http2_goaway,
}
use tunnelfetch.Frames.{Priority}
use tunnelfetch.Frames.ErrorCode
use tunnelfetch.Hpack.Encoder.{encode_header_block}
use tunnelfetch.Connection.State.{
  Stream, Http2Connection, Written, headers, continuation, data_of, write, is_some, pending, absent,
  Upload, no_upload, last_write, uploading,
}
use tunnelfetch.Connection.Teardown.{
  open_count, update, fail_stream, maybe_close_stream, reset_stream,
}
use tunnelfetch.Connection.Fields.{Platform, Request, build_request_fields}

-- `this._streams.size >= this._peerMaxConcurrent`
unfoldable pub at_limit : Http2Connection → Bool
at_limit c = elim c.peer_max_concurrent [
  | none ↦ false
  | some limit ↦ leb limit (open_count c.streams)
]

-- `canDispatch`
unfoldable pub can_dispatch : Http2Connection → Bool
unfolding at_limit
can_dispatch c =
    not (is_some c.fatal)
    && not c.closed
    && not (is_some c.going_away)
    && not (at_limit c)
    && leb c.next_stream_id 0x7fffffff

-- `_createStream`
unfoldable pub create_stream : ℕ → Text → Http2Connection → Stream
create_stream id method c = record {
  id = id;
  method = method;
  status = 0;
  head = pending;
  response_received = false;
  recv_queue = [];
  recv_ended = false;
  declared_length = absent;
  received_length = 0;
  body_error = none;
  completed = pending;
  trailers = pending;
  trailer_fields = none;
  recv_window = pos c.our_initial_window;
  recv_consumed = 0;
  send_window = pos c.peer_initial_window;
  local_ended = false;
  cancelled = false;
  closed = false;
  rst_sent = false;
  upload = no_upload;
  delivered = [];
}

-- The loop of `_sendHeaderBlock` over what follows the first frame. Each round takes a byte at least,
-- so that the block's length is fuel enough.
unfoldable pub continuations : ℕ → ℕ → ℕ → Bytes → List Written
continuations zero max id rest = []
continuations (suc fuel) max id [] = []
continuations (suc fuel) max id (b ∷ bs) =
    continuation id (take max (b ∷ bs)) (leb (length (b ∷ bs)) max)
    ∷ continuations fuel max id (drop max (b ∷ bs))

-- `_sendHeaderBlock`: its frames, which are one write.
unfoldable pub header_frames : ℕ → ℕ → Bytes → Bool → Option Priority → List Written
header_frames max id block end_stream priority =
    if leb (length block) max
    then headers id block end_stream true priority ∷ []
    else headers id (take max block) end_stream false priority
      ∷ continuations (length block) max id (drop max block)

abbrev pub write_all : List Written → Http2Connection → Http2Connection
write_all ws c = record c { written = c.written ++ ws }

-- The bytes that one DATA frame takes; 0 where there is no room.
unfoldable pub data_size : Stream → Http2Connection → ℕ → ℕ
data_size s c rest =
    min (min (min (pos_part s.send_window) (pos_part c.conn_send_window)) c.peer_max_frame_size)
      rest

-- A DATA frame of n bytes.
unfoldable pub send_data : ℕ → Bytes → ℕ → Stream → Http2Connection → Http2Connection
send_data n body offset s c =
    let end = leb (length body) (offset + n) in
    update
      (record s {
        send_window = s.send_window -ℤ pos n;
        upload = if end then last_write else uploading body (offset + n);
      })
      (write (data_of s.id (take n (drop offset body)) end)
        record c { conn_send_window = c.conn_send_window -ℤ pos n })

-- A round of the loop of `_sendBody`, or what follows the write that ends it.
unfoldable pub send_from : Upload → Stream → Http2Connection → Http2Connection
unfolding data_size send_data
send_from no_upload s c = c
send_from last_write s c =
    update (maybe_close_stream (record s { local_ended = true; upload = no_upload })) c
send_from (uploading body offset) s c =
    let n = data_size s c (length body - offset) in
    if s.closed || s.cancelled
    then update (record s { upload = no_upload }) c
    else if n == 0
    then c
    else send_data n body offset s c

unfoldable pub send_body : Stream → Http2Connection → Http2Connection
unfolding send_from
send_body s c = send_from s.upload s c

-- A write of `_sendBody` fails: there is one under way once an offset is reached.
abbrev pub is_writing : Upload → Bool
is_writing no_upload = false
is_writing last_write = true
is_writing (uploading body offset) = not (offset == 0)

unfoldable pub send_failed : Failure → Stream → Http2Connection → Http2Connection
send_failed e s c =
    if is_writing s.upload then update (fail_stream e (record s { upload = no_upload })) c else c

-- The listener of an abort signal.
unfoldable pub abort : Failure → Stream → Http2Connection → Http2Connection
abort reason s c = if s.closed then c else reset_stream s ErrorCode.cancel reason c

-- The body of a request, where it has bytes.
abbrev pub bytes_of : Option Bytes → Bytes
bytes_of none = []
bytes_of (some body) = body

module _ (platform : Platform) where
  -- What `request` does once the stream is there and its signal is not aborted.
  unfoldable pub send_request : Request → Stream → Http2Connection → Http2Connection
  unfolding send_body
  send_request r s c =
      let body = bytes_of r.body in
      let has_body = ltb 0 (length body) in
      let block =
        encode_header_block platform.utf8
          (build_request_fields c.pseudo_header_order c.hpack_indexing r) in
      let t = record s {
        local_ended = not has_body;
        upload = if has_body then uploading body 0 else no_upload;
      } in
      send_body t (
        update t (
          write_all
            (header_frames c.peer_max_frame_size s.id block (not has_body) c.headers_priority) c))

  -- `aborted` is the reason of a signal that is aborted.
  unfoldable pub open_stream : Request → Option Failure → Http2Connection → Http2Connection
  open_stream r aborted c =
      let s = create_stream c.next_stream_id r.method c in
      let c' = record c { next_stream_id = c.next_stream_id + 2; streams = s ∷ c.streams } in
      elim aborted [
        | none ↦ send_request r s c'
        | some reason ↦ reset_stream s ErrorCode.cancel reason c'
      ]

  -- `request`: what it throws, or the id of the stream whose head it returns, and the connection.
  unfoldable pub request_live :
      Request → Option Failure → Http2Connection → Result ℕ × Http2Connection
  unfolding at_limit
  request_live r aborted c =
      if c.closed
      then (err (http2_error http2_protocol), c)
      else if is_some c.going_away
      then (err (http2_retryable http2_goaway), c)
      else if at_limit c
      then (err (http2_retryable http2_stream_state), c)
      else (ok c.next_stream_id, open_stream r aborted c)

  unfoldable pub request : Request → Option Failure → Http2Connection → Result ℕ × Http2Connection
  unfolding request_live
  request r aborted c = elim c.fatal [ none ↦ request_live r aborted c | some e ↦ (err e, c) ]
