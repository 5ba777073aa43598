-- ===== src/Connection/Receiving/Control.antt =====
-- src/http2/connection.js: the frames that carry no headers and no data.
use tunnelfetch.Prelude.{ℕ, Bool, true, false, not, ◌&&◌, ◌||◌}
use tunnelfetch.Prelude.{none, some, List, [], ◌∷◌, ◌++◌, ltb, ◌==◌, if◌then◌else◌, length}
use tunnelfetch.Prelude.Int.{ℤ, pos, ◌+ℤ◌, ◌-ℤ◌, ltb_ℤ}
use tunnelfetch.Bytes.{Bytes}
use tunnelfetch.Errors.{
  Failure, ok, err, http2_error, http2_retryable, http2_frame_size, http2_flow_control,
  http2_stream_closed, http2_goaway,
}
use tunnelfetch.Frames.{
  has_flag, parse_settings, parse_window_update, parse_rst_stream, Goaway, parse_goaway,
}
use tunnelfetch.Frames.Flag
use tunnelfetch.Frames.Setting
use tunnelfetch.Frames.ErrorCode
use tunnelfetch.Connection.State.{
  Stream, Http2Connection, settings, ping_ack, write, max_window, default_max_frame_size,
  max_allowed_frame_size,
}
use tunnelfetch.Connection.Teardown.{find_stream, update, fail_stream, reset_stream, die}
use tunnelfetch.Connection.Receiving.Head.{protocol}

-- SETTINGS_INITIAL_WINDOW_SIZE: the delta, for every open stream.
unfoldable pub adjust_windows : ℤ → List Stream → List Stream
adjust_windows delta [] = []
adjust_windows delta (s ∷ ss) =
    (if s.closed then s else record s { send_window = s.send_window +ℤ delta })
    ∷ adjust_windows delta ss

-- One entry of a SETTINGS frame: whether the loop goes on, and the connection.
unfoldable pub apply_setting : ℕ → ℕ → Http2Connection → Bool × Http2Connection
unfolding adjust_windows
apply_setting id value c =
    if id == Setting.initial_window_size
    then (if ltb max_window value then (false, die (some (http2_error http2_flow_control)) c) else (
      true,
      record c {
        peer_initial_window = value;
        streams = adjust_windows (pos value -ℤ pos c.peer_initial_window) c.streams;
      },
    ))
    else if id == Setting.max_frame_size
    then (if ltb value default_max_frame_size || ltb max_allowed_frame_size value
        then (false, die (some protocol) c)
        else (true, record c { peer_max_frame_size = value }))
    else if id == Setting.max_concurrent_streams
    then (true, record c { peer_max_concurrent = some value })
    else if id == Setting.header_table_size
    then (true, record c { peer_header_table_size = value })
    else if id == Setting.enable_push && not (value == 0) && not (value == 1)
    then (false, die (some protocol) c)
    else (true, c)

unfoldable pub apply_settings : List (ℕ × ℕ) → Http2Connection → Http2Connection
apply_settings [] c = write (settings [] true) c
apply_settings ((id, value) ∷ entries) c =
    let r = apply_setting id value c in
    let rest = apply_settings entries r.1 in if r.0 then rest else r.1

unfoldable pub on_settings : ℕ → ℕ → Bytes → Http2Connection → Http2Connection
on_settings flags stream_id payload c =
    if not (stream_id == 0)
    then die (some protocol) c
    else if has_flag flags Flag.ack
    then (if length payload == 0 then c else die (some (http2_error http2_frame_size)) c)
    else elim (parse_settings payload) [
      | err e ↦ die (some e) c
      | ok entries ↦ apply_settings entries c
    ]

unfoldable pub window_update_for : ℕ → Stream → Http2Connection → Http2Connection
window_update_for inc s c =
    if inc == 0
    then reset_stream s ErrorCode.protocol_error protocol c
    else let s' = record s { send_window = s.send_window +ℤ pos inc } in
      if ltb_ℤ (pos max_window) s'.send_window
      then reset_stream s' ErrorCode.flow_control_error (http2_error http2_flow_control) c
      else update s' c

unfoldable pub window_update_conn : ℕ → Http2Connection → Http2Connection
window_update_conn inc c =
    if inc == 0
    then die (some protocol) c
    else let c' = record c { conn_send_window = c.conn_send_window +ℤ pos inc } in
      if ltb_ℤ (pos max_window) c'.conn_send_window
      then die (some (http2_error http2_flow_control)) c'
      else c'

unfoldable pub on_window_update : ℕ → Bytes → Http2Connection → Http2Connection
on_window_update stream_id payload c = elim (parse_window_update payload) [
  | err e ↦ die (some e) c
  | ok inc ↦
      if stream_id == 0
      then window_update_conn inc c
      else elim (find_stream stream_id c.streams) [ none ↦ c | some s ↦ window_update_for inc s c ]
]

-- REFUSED_STREAM before a response is the server's word that it did nothing.
unfoldable pub reset_error : ℕ → Stream → Failure
reset_error code s =
    if code == ErrorCode.refused_stream && not s.response_received
    then http2_retryable http2_stream_closed
    else http2_error http2_stream_closed

unfoldable pub on_rst_stream : ℕ → Bytes → Http2Connection → Http2Connection
on_rst_stream stream_id payload c = elim (parse_rst_stream payload) [
  | err e ↦ die (some e) c
  | ok code ↦
      if stream_id == 0 then die (some protocol) c else elim (find_stream stream_id c.streams) [
        | none ↦ c
        | some s ↦ update (fail_stream (reset_error code s) s) c
      ]
]

unfoldable pub on_ping : ℕ → ℕ → Bytes → Http2Connection → Http2Connection
on_ping flags stream_id payload c =
    if not (stream_id == 0)
    then die (some protocol) c
    else if not (length payload == 8)
    then die (some (http2_error http2_frame_size)) c
    else if has_flag flags Flag.ack
    then c
    else write (ping_ack payload) c

-- The open streams above the last that the server promises to have handled, if unanswered.
unfoldable pub fail_above : ℕ → List Stream → List Stream
fail_above last [] = []
fail_above last (s ∷ ss) =
    (if not s.closed && ltb last s.id && not s.response_received
      then fail_stream (http2_retryable http2_goaway) s
      else s)
    ∷ fail_above last ss

-- `onClose` is called and kept.
unfoldable pub going : Goaway → Http2Connection → Http2Connection
unfolding fail_above
going g c = record c {
  going_away = some (g.last_stream_id, g.error_code);
  streams = fail_above g.last_stream_id c.streams;
  notices = if c.on_close then c.notices ++ none ∷ [] else c.notices;
}

unfoldable pub on_goaway : Bytes → Http2Connection → Http2Connection
on_goaway payload c = elim (parse_goaway payload) [ err e ↦ die (some e) c | ok g ↦ going g c ]
