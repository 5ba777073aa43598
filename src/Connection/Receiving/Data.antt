-- ===== src/Connection/Receiving/Data.antt =====
-- src/http2/connection.js: DATA frames.
use tunnelfetch.Prelude.{ℕ, ◌+◌, ◌-◌, Bool, not}
use tunnelfetch.Prelude.{none, some, [], ◌∷◌, ◌++◌, ltb, ◌==◌, if◌then◌else◌, length}
use tunnelfetch.Prelude.Int.{pos, ◌-ℤ◌, ltb_ℤ}
use tunnelfetch.Bytes.{Bytes}
use tunnelfetch.Errors.{Result, ok, err, http2_error, http2_flow_control, http2_stream_state}
use tunnelfetch.Frames.{has_flag, strip_padding}
use tunnelfetch.Frames.Flag
use tunnelfetch.Frames.ErrorCode
use tunnelfetch.Connection.State.{Stream, Http2Connection}
use tunnelfetch.Connection.Teardown.{find_stream, update, maybe_close_stream, reset_stream, die}
use tunnelfetch.Connection.Receiving.Head.{exceeds, end_recv, protocol}
use tunnelfetch.Connection.Receiving.Replenish.{replenish_conn, replenish_stream, replenish_write}

-- `_onData`, from its end: data for a stream that has room for it. `overhead` is the padding.
unfoldable pub exceeds_declared : Stream → Bool
exceeds_declared s = exceeds s.declared_length s.received_length

unfoldable pub queue_data : ℕ → Bytes → Stream → Http2Connection → Http2Connection
queue_data flags payload s c =
    let s' =
      if ltb 0 (length payload)
      then record s { recv_queue = s.recv_queue ++ payload ∷ [] }
      else s in
    if exceeds_declared s
    then reset_stream s ErrorCode.protocol_error protocol c
    else if has_flag flags Flag.end_stream
    then end_recv s' (λ t. maybe_close_stream t) c
    else update s' c

unfoldable pub credit_padding : ℕ → Stream → Http2Connection → Http2Connection
credit_padding overhead s c =
    if ltb 0 overhead then replenish_write s overhead (replenish_conn overhead c) else c

unfoldable pub padded_stream : ℕ → Stream → Http2Connection → Stream
padded_stream overhead s c =
    let t = replenish_stream s overhead c in
    record s {
      recv_window = if ltb 0 overhead then t.recv_window else s.recv_window;
      recv_consumed = if ltb 0 overhead then t.recv_consumed else s.recv_consumed;
    }

unfoldable pub unpadded : ℕ → Bytes → Result Bytes
unpadded flags payload =
    if has_flag flags Flag.padded
    then elim (strip_padding payload) [ err e ↦ err e | ok r ↦ ok r.0 ]
    else ok payload

unfoldable pub data_in : ℕ → ℕ → Bytes → Stream → Http2Connection → Http2Connection
data_in flags flow_len payload s c =
    let s' = record s { recv_window = s.recv_window -ℤ pos flow_len } in
    let overhead = flow_len - length payload in
    let t = padded_stream overhead s' c in
    if ltb_ℤ s'.recv_window (pos 0)
    then reset_stream s' ErrorCode.flow_control_error (http2_error http2_flow_control) c
    else queue_data flags payload
        (record t { received_length = t.received_length + length payload })
        (credit_padding overhead s' c)

unfoldable pub data_for : ℕ → Bytes → Stream → Http2Connection → Http2Connection
data_for flags payload s c =
    if not s.response_received
    then reset_stream s ErrorCode.protocol_error (http2_error http2_stream_state) c
    else elim (unpadded flags payload) [
      | err e ↦ die (some e) c
      | ok body ↦ data_in flags (length payload) body s c
    ]

unfoldable pub on_data : ℕ → ℕ → Bytes → Http2Connection → Http2Connection
on_data flags stream_id payload c =
    let c' = record c { conn_recv_window = c.conn_recv_window -ℤ pos (length payload) } in
    if stream_id == 0
    then die (some protocol) c
    else if ltb_ℤ c'.conn_recv_window (pos 0)
    then die (some (http2_error http2_flow_control)) c'
    else elim (find_stream stream_id c.streams) [
      | none ↦ replenish_conn (length payload) c'
      | some s ↦ data_for flags payload s c'
    ]
