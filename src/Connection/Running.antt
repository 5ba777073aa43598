-- ===== src/Connection/Running.antt =====
-- src/http2/connection.js: a connection over time. What happens to it is a sequence of operations,
-- each of which runs between two awaits.
use tunnelfetch.Prelude.{ℕ, Option, none, some, List, [], ◌∷◌, if◌then◌else◌}
use tunnelfetch.Errors.{Failure}
use tunnelfetch.Frames.{Frame}
use tunnelfetch.Connection.State.{Stream, Http2Connection}
use tunnelfetch.Connection.Teardown.{find_object, close, die}
use tunnelfetch.Connection.Fields.{Platform, Request}
use tunnelfetch.Connection.Receiving.{receive}
use tunnelfetch.Connection.Sending.{request, send_body, send_failed, abort}
use tunnelfetch.Connection.Consuming.{pull, cancel, holds_body}

-- What may happen to a stream object: its sender goes on or fails, its signal is aborted, and its
-- consumer pulls or cancels.
pub data StreamOp : Type 0 where
  sends pulls cancels : StreamOp
  fails aborts : Failure → StreamOp

-- What may happen to a connection: a request with the reason of a signal that is aborted, what the
-- transport gives (a frame or its end) or how it fails, a call of `close`, or an operation on a stream.
pub data Op : Type 0 where
  requests : Request → Option Failure → Op
  arrives : Option Frame → Op
  breaks : Failure → Op
  closes : Op
  on_stream : ℕ → StreamOp → Op

unfoldable pub apply_on : StreamOp → Stream → Http2Connection → Http2Connection
apply_on sends s c = send_body s c
apply_on (fails e) s c = send_failed e s c
apply_on (aborts e) s c = abort e s c
apply_on pulls s c = if holds_body s then pull s c else c
apply_on cancels s c = if holds_body s then cancel s c else c

module _ (platform : Platform) where
  unfoldable pub apply : Op → Http2Connection → Http2Connection
  apply (requests r aborted) c = (request platform r aborted c).1
  apply (arrives f) c = receive platform f c
  apply (breaks e) c = die (some e) c
  apply closes c = close c
  apply (on_stream id op) c = elim (find_object id c.streams) [
    | none ↦ c
    | some s ↦ apply_on op s c
  ]

  unfoldable pub run : List Op → Http2Connection → Http2Connection
  run [] c = c
  run (op ∷ ops) c = run ops (apply op c)
