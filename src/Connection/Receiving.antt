-- ===== src/Connection/Receiving.antt =====
-- src/http2/connection.js: the frames that arrive. A handler is applied to a frame and a connection.
pub mod Replenish
pub mod Head
pub mod Control
pub mod Data
use tunnelfetch.Prelude.{ℕ, zero, suc, ◌+◌, ◌-◌, ◌/◌, ◌%◌, Bool, true, false, not, ◌&&◌, ◌||◌}
use tunnelfetch.Prelude.{
  Option, none, some, List, [], ◌∷◌, ◌++◌, ltb, leb, ◌==◌, if◌then◌else◌, length,
}
use tunnelfetch.Prelude.Int.{ℤ, pos, ◌+ℤ◌, ◌-ℤ◌, ltb_ℤ}
use tunnelfetch.Bytes.{Bytes, equal, concat}
use tunnelfetch.Errors.{
  Failure, Result, ok, err, http2_error, http2_retryable, http2_protocol, http2_frame_size,
  http2_flow_control, http2_stream_state, http2_stream_closed, http2_goaway, http2_push_unexpected,
}
use tunnelfetch.Frames.{
  Frame, has_flag, strip_padding, parse_settings, parse_window_update, parse_rst_stream, Goaway,
  parse_goaway, headers_block_fragment,
}
use tunnelfetch.Frames.Flag
use tunnelfetch.Frames.FrameType
use tunnelfetch.Frames.Setting
use tunnelfetch.Frames.ErrorCode
use tunnelfetch.Connection.State.{
  Stream, Http2Connection, Assembly, settings, window_update, ping_ack, write, is_some, max_window,
  default_max_frame_size, max_allowed_frame_size, Declared, absent, malformed, declared,
}
use tunnelfetch.Connection.Teardown.{
  open_count, find_stream, put_stream, update, fail_stream, maybe_close_stream, reset_stream, die,
}
use tunnelfetch.Connection.Fields.{Platform}
use tunnelfetch.Connection.Receiving.Head.{complete_header_block, end_recv, protocol}
use tunnelfetch.Connection.Receiving.Control.{
  on_settings, on_window_update, on_rst_stream, on_ping, on_goaway,
}
use tunnelfetch.Connection.Receiving.Data.{on_data}

abbrev pub header_fragment_overhead : ℕ
header_fragment_overhead = 256

-- `_headerBlockWithinCap`, with what follows where it holds.
unfoldable pub capped : Assembly → Http2Connection → Http2Connection → Http2Connection
capped a within c =
    if leb a.bytes c.max_header_block_bytes
    then within
    else die (some protocol) (record c { assembling = none })

module _ (platform : Platform) where
  unfoldable pub on_headers : ℕ → ℕ → Bytes → Http2Connection → Http2Connection
  on_headers flags stream_id payload c =
      if stream_id % 2 == 0
      then die (some protocol) c
      else elim (headers_block_fragment payload flags) [
        | err e ↦ die (some e) c
        | ok fragment ↦
            let a : Assembly = record {
              stream_id = stream_id;
              fragments = fragment ∷ [];
              bytes = length fragment + header_fragment_overhead;
              frames = 1;
              end_stream = has_flag flags Flag.end_stream;
            } in
            if has_flag flags Flag.end_headers
            then complete_header_block platform stream_id fragment (has_flag flags Flag.end_stream)
                c
            else capped a (record c { assembling = some a }) c
      ]

  unfoldable pub on_continuation : ℕ → Bytes → Assembly → Http2Connection → Http2Connection
  on_continuation flags payload a c =
      let a' = record a {
        fragments = a.fragments ++ payload ∷ [];
        bytes = a.bytes + (length payload + header_fragment_overhead);
        frames = a.frames + 1;
      } in
      capped a'
        (if has_flag flags Flag.end_headers
          then complete_header_block platform a'.stream_id (concat a'.fragments) a'.end_stream
              (record c { assembling = none })
          else record c { assembling = some a' })
        c

  -- The `switch`. A PRIORITY frame (2) of five bytes and an unknown type are ignored; PUSH_PROMISE
  -- (5) was refused in the settings.
  unfoldable pub on_frame : Frame → Http2Connection → Http2Connection
  on_frame f c =
      if f.type == FrameType.settings
      then on_settings f.flags f.stream_id f.payload c
      else if f.type == FrameType.headers
      then on_headers f.flags f.stream_id f.payload c
      else if f.type == FrameType.data_frames
      then on_data f.flags f.stream_id f.payload c
      else if f.type == FrameType.window_update
      then on_window_update f.stream_id f.payload c
      else if f.type == FrameType.rst_stream
      then on_rst_stream f.stream_id f.payload c
      else if f.type == FrameType.ping
      then on_ping f.flags f.stream_id f.payload c
      else if f.type == FrameType.goaway
      then on_goaway f.payload c
      else if f.type == 5
      then die (some (http2_error http2_push_unexpected)) c
      else if f.type == 2
      then (if length f.payload == 5 then c else die (some (http2_error http2_frame_size)) c)
      else if f.type == FrameType.continuation
      then die (some protocol) c
      else c

  unfoldable pub dispatch_frame : Frame → Http2Connection → Http2Connection
  dispatch_frame f c = elim c.assembling [
    | some a ↦
        if not (f.type == FrameType.continuation) || not (f.stream_id == a.stream_id)
        then die (some protocol) c
        else on_continuation f.flags f.payload a c
    | none ↦
        if c.expect_first_settings && not (f.type == FrameType.settings)
        then die (some protocol) c
        else on_frame f (record c { expect_first_settings = false })
  ]

  -- A round of `_readLoop` with a frame, or with the end of the transport.
  unfoldable pub receive : Option Frame → Http2Connection → Http2Connection
  receive none c = die (if ltb 0 (open_count c.streams) then some protocol else none) c
  receive (some f) c = if is_some c.fatal then c else dispatch_frame f c
