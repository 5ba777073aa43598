-- ===== src/Connection/Receiving/Replenish.antt =====
-- src/http2/connection.js: receive windows, and their updates.
use tunnelfetch.Prelude.{ℕ, ◌+◌, ◌/◌, Bool, not, ◌&&◌}
use tunnelfetch.Prelude.{ltb, leb, if◌then◌else◌}
use tunnelfetch.Prelude.Int.{pos, ◌+ℤ◌}
use tunnelfetch.Connection.State.{Stream, Http2Connection, window_update, write}

-- `_replenishConn`
unfoldable pub replenish_conn : ℕ → Http2Connection → Http2Connection
replenish_conn n c =
    let consumed = c.conn_consumed + n in
    let c' = record c { conn_recv_window = c.conn_recv_window +ℤ pos n } in
    if leb (if ltb (c.our_conn_window / 2) 1 then 1 else c.our_conn_window / 2) consumed
    then write (window_update 0 consumed) (record c' { conn_consumed = 0 })
    else record c' { conn_consumed = consumed }

-- Whether `_replenish` of n bytes writes an update.
unfoldable pub replenishes : Stream → ℕ → Http2Connection → Bool
replenishes s n c =
    leb (if ltb (c.our_initial_window / 2) 1 then 1 else c.our_initial_window / 2)
      (s.recv_consumed + n)
    && not s.closed

-- `_replenish`: the stream after it, and the connection.
unfoldable pub replenish_stream : Stream → ℕ → Http2Connection → Stream
replenish_stream s n c = record s {
  recv_window = s.recv_window +ℤ pos n;
  recv_consumed = if replenishes s n c then 0 else s.recv_consumed + n;
}

unfoldable pub replenish_write : Stream → ℕ → Http2Connection → Http2Connection
replenish_write s n c =
    if replenishes s n c then write (window_update s.id (s.recv_consumed + n)) c else c
