-- ===== src/Connection/Soundness/Runs.antt =====
-- src/http2/connection.js: every stream is sound after every sequence of operations, and what that says.
use tunnelfetch.Prelude.{
  ℕ, ◌%◌, Bool, true, false, not, ◌&&◌, ◌||◌, ◌≡◌, if_holds, if_cases, option_holds, Option, none,
  some, List, [], ◌∷◌, leb, ◌==◌, length,
}
use tunnelfetch.Bytes.{Bytes}
use tunnelfetch.Errors.{result_holds}
use tunnelfetch.Frames.{Frame, has_flag, headers_block_fragment}
use tunnelfetch.Frames.Flag
use tunnelfetch.Frames.FrameType
use tunnelfetch.Connection.State.{
  Stream, Http2Connection, Options, new_connection, Assembly, is_some,
}
use tunnelfetch.Connection.Teardown.{find_object}
use tunnelfetch.Connection.Fields.{Platform}
use tunnelfetch.Connection.Receiving.{
  capped, on_headers, on_continuation, on_frame, dispatch_frame, receive,
}
use tunnelfetch.Connection.Consuming.{holds_body}
use tunnelfetch.Connection.Running.{
  StreamOp, sends, pulls, cancels, fails, aborts, apply_on, Op, requests, arrives, breaks, closes,
  on_stream, apply, run,
}
use tunnelfetch.Connection.Soundness.{is_sound, Sound, find_object-Sound, die-Sound, close-Sound}
use tunnelfetch.Connection.Preserving.{
  on_settings_holds, on_window_update_holds, on_rst_stream_holds, on_ping_holds, on_goaway_holds,
}
use tunnelfetch.Connection.Soundness.Control.{SoundIn, Sound-Preserves}
use tunnelfetch.Connection.Soundness.Head.{complete_header_block-Sound}
use tunnelfetch.Connection.Soundness.Data.{on_data-Sound}
use tunnelfetch.Connection.Soundness.Sending.{
  request-Sound, send_body-Sound, send_failed-Sound, abort-Sound, pull-Sound, cancel-Sound,
}

assembling-Sound :
    (a : Option Assembly) (c : Http2Connection) → Sound c → Sound (record c { assembling = a })
unfolding Sound
assembling-Sound a c h = h

seen-Sound :
    (b : Bool) (c : Http2Connection) → Sound c → Sound (record c { expect_first_settings = b })
unfolding Sound
seen-Sound b c h = h

capped-Sound :
    (a : Assembly) (within c : Http2Connection) → Sound within → Sound c → Sound (capped a within c)
unfolding capped
capped-Sound a within c w h =
    if_holds Sound (leb a.bytes c.max_header_block_bytes) w
      (die-Sound _ _ (assembling-Sound none c h))

module _ (platform : Platform) where
  on_headers-Sound :
      (flags stream_id : ℕ) (payload : Bytes) (c : Http2Connection)
      → Sound c
      → Sound (on_headers platform flags stream_id payload c)
  unfolding on_headers
  on_headers-Sound flags stream_id payload c h =
      if_holds Sound (stream_id % 2 == 0) (die-Sound _ c h) (
        result_holds Sound (headers_block_fragment payload flags) (λ e _. die-Sound _ c h)
          (λ fragment _.
            if_holds Sound (has_flag flags Flag.end_headers)
              (complete_header_block-Sound platform stream_id fragment _ c h)
              (capped-Sound _ _ c (assembling-Sound _ c h) h)))

  on_continuation-Sound :
      (flags : ℕ) (payload : Bytes) (a : Assembly) (c : Http2Connection)
      → Sound c
      → Sound (on_continuation platform flags payload a c)
  unfolding on_continuation
  on_continuation-Sound flags payload a c h =
      capped-Sound _ _ c
        (if_holds Sound (has_flag flags Flag.end_headers)
          (complete_header_block-Sound platform _ _ _ _ (assembling-Sound none c h))
          (assembling-Sound _ c h))
        h

  on_frame-Sound : (f : Frame) (c : Http2Connection) → Sound c → Sound (on_frame platform f c)
  unfolding on_frame
  on_frame-Sound f c h =
      if_holds Sound (f.type == FrameType.settings)
        (on_settings_holds Sound SoundIn Sound-Preserves f.flags f.stream_id f.payload c h)
        (if_holds Sound (f.type == FrameType.headers)
          (on_headers-Sound f.flags f.stream_id f.payload c h)
          (if_holds Sound (f.type == FrameType.data_frames)
            (on_data-Sound f.flags f.stream_id f.payload c h)
            (if_holds Sound (f.type == FrameType.window_update)
              (on_window_update_holds Sound SoundIn Sound-Preserves f.stream_id f.payload c h)
              (if_holds Sound (f.type == FrameType.rst_stream)
                (on_rst_stream_holds Sound SoundIn Sound-Preserves f.stream_id f.payload c h)
                (if_holds Sound (f.type == FrameType.ping)
                  (on_ping_holds Sound SoundIn Sound-Preserves f.flags f.stream_id f.payload c h)
                  (if_holds Sound (f.type == FrameType.goaway)
                    (on_goaway_holds Sound SoundIn Sound-Preserves f.payload c h)
                    (if_holds Sound (f.type == 5) (die-Sound _ c h) (
                      if_holds Sound (f.type == 2)
                        (if_holds Sound (length f.payload == 5) h (die-Sound _ c h))
                        (if_holds Sound (f.type == FrameType.continuation) (die-Sound _ c h)
                          h)))))))))

  dispatch_frame-Sound :
      (f : Frame) (c : Http2Connection) → Sound c → Sound (dispatch_frame platform f c)
  unfolding dispatch_frame
  dispatch_frame-Sound f c h =
      option_holds Sound c.assembling
        (if_holds Sound (c.expect_first_settings && not (f.type == FrameType.settings))
          (die-Sound _ c h) (on_frame-Sound f _ (seen-Sound false c h)))
        (λ a _.
          if_holds Sound
            (not (f.type == FrameType.continuation) || not (f.stream_id == a.stream_id))
            (die-Sound _ c h) (on_continuation-Sound f.flags f.payload a c h))

  receive-Sound : (f : Option Frame) (c : Http2Connection) → Sound c → Sound (receive platform f c)
  unfolding receive
  receive-Sound none c h = die-Sound _ c h
  receive-Sound (some f) c h = if_holds Sound (is_some c.fatal) h (dispatch_frame-Sound f c h)

  apply_on-Sound :
      (op : StreamOp) (s : Stream) (c : Http2Connection)
      → Sound c
      → is_sound (is_some c.fatal) c.our_initial_window s ≡ true
      → Sound (apply_on op s c)
  unfolding apply_on
  apply_on-Sound sends s c h p = send_body-Sound s c h p
  apply_on-Sound (fails e) s c h p = send_failed-Sound e s c h p
  apply_on-Sound (aborts e) s c h p = abort-Sound e s c h p
  apply_on-Sound pulls s c h p = if_holds Sound (holds_body s) (pull-Sound s c h p) h
  apply_on-Sound cancels s c h p =
      if_cases Sound (holds_body s) (λ b. cancel-Sound s c h p b) (λ b. h)

  apply-Sound : (op : Op) (c : Http2Connection) → Sound c → Sound (apply platform op c)
  unfolding apply
  apply-Sound (requests r aborted) c h = request-Sound platform r aborted c h
  apply-Sound (arrives f) c h = receive-Sound f c h
  apply-Sound (breaks e) c h = die-Sound _ c h
  apply-Sound closes c h = close-Sound c h
  apply-Sound (on_stream id op) c h =
      option_holds Sound (find_object id c.streams) h
        (λ s e. apply_on-Sound op s c h (find_object-Sound id s c h e))

  pub run-Sound : (ops : List Op) (c : Http2Connection) → Sound c → Sound (run platform ops c)
  unfolding run
  run-Sound [] c h = h
  run-Sound (op ∷ ops) c h = run-Sound ops (apply platform op c) (apply-Sound op c h)

pub new_connection-Sound : (opts : Options) → Sound (new_connection opts)
unfolding Sound new_connection
new_connection-Sound opts = tt
