-- ===== src/Connection/Teardown.antt =====
-- src/http2/connection.js: finding streams, and the teardown of streams and of the connection.
use tunnelfetch.Prelude.{ℕ, suc, true, false, not, ◌&&◌}
use tunnelfetch.Prelude.{Option, none, some, List, [], ◌∷◌, ◌++◌, ◌==◌, if◌then◌else◌}
use tunnelfetch.Errors.{Failure, http2_error, http2_protocol}
use tunnelfetch.Frames.ErrorCode
use tunnelfetch.Connection.State.{
  settle_reject, Stream, Http2Connection, rst_stream, goaway, write, or_else, is_some,
}

-- The object of this id, also if its stream is closed: what a consumer holds.
unfoldable pub find_object : ℕ → List Stream → Option Stream
find_object id [] = none
find_object id (s ∷ ss) = if s.id == id then some s else find_object id ss

-- `_streams.get(id)`: the map forgets a stream when it is closed.
abbrev pub if_open : Option Stream → Option Stream
if_open none = none
if_open (some s) = if s.closed then none else some s

unfoldable pub find_stream : ℕ → List Stream → Option Stream
find_stream id ss = if_open (find_object id ss)

-- The object is changed in place.
unfoldable pub put_stream : Stream → List Stream → List Stream
put_stream s [] = []
put_stream s (t ∷ ss) = if t.id == s.id then s ∷ ss else t ∷ put_stream s ss

abbrev pub update : Stream → Http2Connection → Http2Connection
update s c = record c { streams = put_stream s c.streams }

-- `_streams.size`
pub open_count : List Stream → ℕ
open_count [] = 0
open_count (s ∷ ss) = if s.closed then open_count ss else suc (open_count ss)

-- `_removeStream`, `_rejectStream`, `_failStream` and `_maybeCloseStream`, on the stream object.
unfoldable pub remove_stream : Stream → Stream
remove_stream s = record s { closed = true }

unfoldable pub reject_stream : Failure → Stream → Stream
reject_stream e s = record s {
  body_error = some (or_else s.body_error e);
  head = settle_reject e s.head;
  completed = settle_reject e s.completed;
  trailers = settle_reject e s.trailers;
}

unfoldable pub fail_stream : Failure → Stream → Stream
unfolding remove_stream reject_stream
fail_stream e s = reject_stream e (remove_stream s)

unfoldable pub maybe_close_stream : Stream → Stream
unfolding remove_stream
maybe_close_stream s = if s.recv_ended && s.local_ended then remove_stream s else s

-- `_sendRst`: what it writes.
unfoldable pub send_rst : Stream → ℕ → Http2Connection → Http2Connection
send_rst s code c =
    if s.rst_sent
    then c
    else if not (is_some c.fatal) && not c.closed
    then write (rst_stream s.id code) c
    else c

-- `_resetStream`
unfoldable pub reset_stream : Stream → ℕ → Failure → Http2Connection → Http2Connection
unfolding send_rst fail_stream remove_stream reject_stream put_stream
reset_stream s code e c = update (fail_stream e (record s { rst_sent = true })) (send_rst s code c)

unfoldable pub fail_all : Failure → List Stream → List Stream
fail_all e [] = []
fail_all e (s ∷ ss) = (if s.closed then s else fail_stream e s) ∷ fail_all e ss

-- The close of the transport, and the one call of `onClose`.
unfoldable pub finish_closing : Option Failure → Http2Connection → Http2Connection
finish_closing err c = record c {
  transport_closed = true;
  notices = if c.on_close then c.notices ++ err ∷ [] else c.notices;
  on_close = false;
}

-- `_die`: `none` is a clean end of the transport. What it does the first time:
unfoldable pub died_with : Option Failure → Http2Connection → Http2Connection
unfolding fail_all finish_closing
died_with err c =
    let e = or_else err (http2_error http2_protocol) in
    let code = if is_some err then ErrorCode.protocol_error else ErrorCode.no_error in
    finish_closing err record c {
      fatal = some e;
      closed = true;
      written = if c.closed then c.written else c.written ++ goaway c.last_peer_stream_id code ∷ [];
      streams = fail_all e c.streams;
    }

unfoldable pub die : Option Failure → Http2Connection → Http2Connection
unfolding died_with
die err c = if is_some c.fatal then c else died_with err c

-- `close`, and what it does the first time.
unfoldable pub close_now : Http2Connection → Http2Connection
unfolding fail_all finish_closing
close_now c =
    let e = http2_error http2_protocol in
    finish_closing none record c {
      closed = true;
      written = c.written ++ goaway c.last_peer_stream_id ErrorCode.no_error ∷ [];
      fatal = some (or_else c.fatal e);
      streams = fail_all e c.streams;
    }

unfoldable pub close : Http2Connection → Http2Connection
unfolding close_now
close c = if c.closed then c else close_now c
