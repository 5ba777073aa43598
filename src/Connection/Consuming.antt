-- ===== src/Connection/Consuming.antt =====
-- src/http2/connection.js: the body stream that a consumer pulls from or cancels.
use tunnelfetch.Prelude.{Bool, true, false, not, ◌&&◌}
use tunnelfetch.Prelude.{Option, none, some, List, [], ◌∷◌, ◌++◌, if◌then◌else◌, length}
use tunnelfetch.Bytes.{Bytes}
use tunnelfetch.Errors.{Failure}
use tunnelfetch.Frames.ErrorCode
use tunnelfetch.Connection.State.{
  Stream, Http2Connection, pending, resolved, rejected, Deferred, settle_resolve, settle_reject,
}
use tunnelfetch.Connection.Teardown.{update, remove_stream, send_rst}
use tunnelfetch.Connection.Receiving.Replenish.{replenish_conn, replenish_stream, replenish_write}

-- `pull` of a body stream, which has no room of its own: what is delivered is consumed.
unfoldable pub pull_chunk : Bytes → List Bytes → Stream → Http2Connection → Http2Connection
pull_chunk chunk queue s c =
    let t = record s { recv_queue = queue; delivered = s.delivered ++ chunk ∷ [] } in
    update (replenish_stream t (length chunk) c)
      (replenish_conn (length chunk) (replenish_write t (length chunk) c))

unfoldable pub pull_end : Option Failure → Stream → Http2Connection → Http2Connection
pull_end (some e) s c = update (record s { completed = settle_reject e s.completed }) c
pull_end none s c =
    if s.recv_ended
    then update
        (record s {
          completed = settle_resolve true s.completed;
          trailers = settle_resolve s.trailer_fields s.trailers;
        })
        c
    else c

unfoldable pub pull_from : List Bytes → Stream → Http2Connection → Http2Connection
unfolding pull_chunk pull_end
pull_from [] s c = pull_end s.body_error s c
pull_from (chunk ∷ queue) s c = pull_chunk chunk queue s c

unfoldable pub pull : Stream → Http2Connection → Http2Connection
unfolding pull_from
pull s c = pull_from s.recv_queue s c

-- `cancel` of a body stream.
unfoldable pub cancel : Stream → Http2Connection → Http2Connection
unfolding send_rst remove_stream
cancel s c =
    update
      (remove_stream record s {
        cancelled = true;
        completed = settle_resolve false s.completed;
        trailers = settle_resolve none s.trailers;
        rst_sent = true;
      })
      (send_rst s ErrorCode.cancel c)

-- The body is in the response that the head promise gives, and it is pulled while it is not cancelled.
abbrev pub is_resolved : {A : Type 0} → Deferred A → Bool
is_resolved pending = false
is_resolved (resolved v) = true
is_resolved (rejected e) = false

unfoldable pub holds_body : Stream → Bool
holds_body s = is_resolved s.head && not s.cancelled
