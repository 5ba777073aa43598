-- ===== src/Connection/Budget/Runs.antt =====
-- src/http2/connection.js: every sequence of operations keeps queues and header blocks within bounds.
use tunnelfetch.Prelude.{
  ℕ, ◌+◌, ◌%◌, ◌≤◌, Bool, false, not, ◌&&◌, ◌||◌, ◌≡◌, sym, arith, if_holds, if_cases, option_holds,
  Option, none, some, List, [], ◌∷◌, ◌++◌, leb, ◌==◌, length, leb→le,
}
use mathlib.Core.Path.{subst}
use tunnelfetch.Bytes.{Bytes}
use tunnelfetch.Errors.{Failure, result_holds}
use tunnelfetch.Frames.{Frame, has_flag, headers_block_fragment}
use tunnelfetch.Frames.Flag
use tunnelfetch.Frames.FrameType
use tunnelfetch.Connection.State.{
  Stream, Http2Connection, Options, new_connection, Assembly, is_some,
}
use tunnelfetch.Connection.Teardown.{find_object, die}
use tunnelfetch.Connection.Fields.{Platform, Request}
use tunnelfetch.Connection.Receiving.Head.{complete_header_block}
use tunnelfetch.Connection.Receiving.{
  capped, on_headers, on_continuation, on_frame, dispatch_frame, receive,
}
use tunnelfetch.Connection.Sending.{create_stream}
use tunnelfetch.Connection.Consuming.{holds_body}
use tunnelfetch.Connection.Running.{
  StreamOp, sends, pulls, cancels, fails, aborts, apply_on, Op, requests, arrives, breaks, closes,
  on_stream, apply, run,
}
use tunnelfetch.Connection.Preserving.{
  on_settings_holds, on_window_update_holds, on_rst_stream_holds, on_ping_holds, on_goaway_holds,
}
use tunnelfetch.Connection.Budget.{
  Kept, same_Kept, Stands, die-Kept, close-Kept, found-Stands, find_object-id,
}
use tunnelfetch.Connection.Budget.Control.{Kept-Preserves}
use tunnelfetch.Connection.Budget.Head.{complete_header_block-Kept}
use tunnelfetch.Connection.Budget.Sending.{
  opened, request-Kept, send_body-Kept, send_failed-Kept, abort-Kept, cancel-Kept,
}
use tunnelfetch.Connection.Budget.Balance.{charged, Framed, IsBalanced, Kept-IsBalanced}
use tunnelfetch.Connection.Budget.Data.{on_data-IsBalanced, pull-IsBalanced}

die-IsBalanced : (e : Option Failure) (c : Http2Connection) → IsBalanced c → IsBalanced (die e c)
die-IsBalanced e c b = Kept-IsBalanced c _ (die-Kept c e c (same_Kept c)) b

Framed-IsBalanced :
    (a : Option Assembly) (c : Http2Connection)
    → IsBalanced c
    → Framed a c.max_header_block_bytes
    → IsBalanced (record c { assembling = a })
unfolding IsBalanced
Framed-IsBalanced a c b f = (b.0, b.1, f)

capped-IsBalanced :
    (a : Assembly) (within c : Http2Connection)
    → IsBalanced c
    → (a.bytes ≤ c.max_header_block_bytes → IsBalanced within)
    → IsBalanced (capped a within c)
unfolding capped
capped-IsBalanced a within c b f =
    if_cases IsBalanced (leb a.bytes c.max_header_block_bytes)
      (λ e. f (leb→le a.bytes c.max_header_block_bytes e))
      (λ e. die-IsBalanced _ _ (Framed-IsBalanced none c b tt))

charged-append :
    (fs : List Bytes) (f : Bytes) → charged (fs ++ f ∷ []) ≡ charged fs + (length f + 256)
charged-append [] f = omega arith
charged-append (g ∷ fs) f = omega (arith, charged-append fs f)

opened-IsBalanced : (r : Request) (c : Http2Connection) → IsBalanced c → IsBalanced (opened r c)
unfolding IsBalanced create_stream
opened-IsBalanced r c b = (omega (arith, b.0), omega (arith, b.1), b.2)

module _ (platform : Platform) where
  complete-IsBalanced :
      (stream_id : ℕ) (block : Bytes) (end_stream : Bool) (c : Http2Connection)
      → IsBalanced c
      → IsBalanced (complete_header_block platform stream_id block end_stream c)
  complete-IsBalanced stream_id block end_stream c b =
      Kept-IsBalanced c _
        (complete_header_block-Kept c platform stream_id block end_stream c (same_Kept c)) b

  on_headers-IsBalanced :
      (flags stream_id : ℕ) (payload : Bytes) (c : Http2Connection)
      → IsBalanced c
      → IsBalanced (on_headers platform flags stream_id payload c)
  unfolding on_headers
  on_headers-IsBalanced flags stream_id payload c b =
      if_holds IsBalanced (stream_id % 2 == 0) (die-IsBalanced _ c b) (
        result_holds IsBalanced (headers_block_fragment payload flags) (λ e _. die-IsBalanced _ c b)
          (λ fragment _.
            if_holds IsBalanced (has_flag flags Flag.end_headers)
              (complete-IsBalanced stream_id fragment _ c b)
              (capped-IsBalanced _ _ c b (λ le. Framed-IsBalanced (some _) c b (omega arith, le)))))

  on_continuation-IsBalanced :
      (flags : ℕ) (payload : Bytes) (a : Assembly) (c : Http2Connection)
      → IsBalanced c
      → a.bytes ≡ charged a.fragments
      → IsBalanced (on_continuation platform flags payload a c)
  unfolding on_continuation
  on_continuation-IsBalanced flags payload a c b e = capped-IsBalanced _ _ c b (λ le.
      if_holds IsBalanced (has_flag flags Flag.end_headers)
        (complete-IsBalanced _ _ _ _ (Framed-IsBalanced none c b tt))
        (Framed-IsBalanced (some _) c b (omega (arith, e, charged-append a.fragments payload), le)))

  on_frame-IsBalanced :
      (f : Frame) (c : Http2Connection) → IsBalanced c → IsBalanced (on_frame platform f c)
  unfolding on_frame
  on_frame-IsBalanced f c b =
      let K = Kept-Preserves c in
      let k = same_Kept c in
      let by_kept : (d : Http2Connection) → Kept c d → IsBalanced d =
        λ d h. Kept-IsBalanced c d h b in
      if_holds IsBalanced (f.type == FrameType.settings)
        (by_kept _ (on_settings_holds (Kept c) Stands K f.flags f.stream_id f.payload c k))
        (if_holds IsBalanced (f.type == FrameType.headers)
          (on_headers-IsBalanced f.flags f.stream_id f.payload c b)
          (if_holds IsBalanced (f.type == FrameType.data_frames)
            (on_data-IsBalanced f.flags f.stream_id f.payload c b)
            (if_holds IsBalanced (f.type == FrameType.window_update)
              (by_kept _ (on_window_update_holds (Kept c) Stands K f.stream_id f.payload c k))
              (if_holds IsBalanced (f.type == FrameType.rst_stream)
                (by_kept _ (on_rst_stream_holds (Kept c) Stands K f.stream_id f.payload c k))
                (if_holds IsBalanced (f.type == FrameType.ping)
                  (by_kept _ (on_ping_holds (Kept c) Stands K f.flags f.stream_id f.payload c k))
                  (if_holds IsBalanced (f.type == FrameType.goaway)
                    (by_kept _ (on_goaway_holds (Kept c) Stands K f.payload c k))
                    (if_holds IsBalanced (f.type == 5) (die-IsBalanced _ c b) (
                      if_holds IsBalanced (f.type == 2)
                        (if_holds IsBalanced (length f.payload == 5) b (die-IsBalanced _ c b))
                        (if_holds IsBalanced (f.type == FrameType.continuation)
                          (die-IsBalanced _ c b) b)))))))))

  assembling-Framed :
      (a : Assembly) (c : Http2Connection)
      → IsBalanced c
      → c.assembling ≡ some a
      → Framed (some a) c.max_header_block_bytes
  unfolding IsBalanced
  assembling-Framed a c b e = subst (λ o. Framed o c.max_header_block_bytes) e b.2

  see-IsBalanced :
      (v : Bool) (c : Http2Connection)
      → IsBalanced c
      → IsBalanced (record c { expect_first_settings = v })
  unfolding IsBalanced
  see-IsBalanced v c b = b

  dispatch_frame-IsBalanced :
      (f : Frame) (c : Http2Connection) → IsBalanced c → IsBalanced (dispatch_frame platform f c)
  unfolding dispatch_frame
  dispatch_frame-IsBalanced f c b =
      option_holds IsBalanced c.assembling
        (if_holds IsBalanced (c.expect_first_settings && not (f.type == FrameType.settings))
          (die-IsBalanced _ c b) (on_frame-IsBalanced f _ (see-IsBalanced false c b)))
        (λ a e.
          if_holds IsBalanced
            (not (f.type == FrameType.continuation) || not (f.stream_id == a.stream_id))
            (die-IsBalanced _ c b)
            (on_continuation-IsBalanced f.flags f.payload a c b (assembling-Framed a c b e).0))

  receive-IsBalanced :
      (f : Option Frame) (c : Http2Connection) → IsBalanced c → IsBalanced (receive platform f c)
  unfolding receive
  receive-IsBalanced none c b = die-IsBalanced _ c b
  receive-IsBalanced (some f) c b =
      if_holds IsBalanced (is_some c.fatal) b (dispatch_frame-IsBalanced f c b)

  apply_on-IsBalanced :
      (op : StreamOp) (id : ℕ) (s : Stream) (c : Http2Connection)
      → IsBalanced c
      → find_object id c.streams ≡ some s
      → IsBalanced (apply_on op s c)
  unfolding apply_on
  apply_on-IsBalanced sends id s c b e =
      Kept-IsBalanced c _ (send_body-Kept c s c (same_Kept c) (found-Stands id s c e)) b
  apply_on-IsBalanced (fails x) id s c b e =
      Kept-IsBalanced c _ (send_failed-Kept c x s c (same_Kept c) (found-Stands id s c e)) b
  apply_on-IsBalanced (aborts x) id s c b e =
      Kept-IsBalanced c _ (abort-Kept c x s c (same_Kept c) (found-Stands id s c e)) b
  apply_on-IsBalanced pulls id s c b e =
      let i = find_object-id id c.streams s e in
      if_holds IsBalanced (holds_body s)
        (pull-IsBalanced s c b (subst (λ n. find_object n c.streams ≡ some s) (sym i) e)) b
  apply_on-IsBalanced cancels id s c b e =
      if_holds IsBalanced (holds_body s)
        (Kept-IsBalanced c _ (cancel-Kept c s c (same_Kept c) (found-Stands id s c e)) b) b

  apply-IsBalanced :
      (op : Op) (c : Http2Connection) → IsBalanced c → IsBalanced (apply platform op c)
  unfolding apply
  apply-IsBalanced (requests r aborted) c b =
      request-Kept platform IsBalanced r aborted c b
        (λ d k. Kept-IsBalanced (opened r c) d k (opened-IsBalanced r c b))
  apply-IsBalanced (arrives f) c b = receive-IsBalanced f c b
  apply-IsBalanced (breaks e) c b = die-IsBalanced _ c b
  apply-IsBalanced closes c b = Kept-IsBalanced c _ (close-Kept c c (same_Kept c)) b
  apply-IsBalanced (on_stream id op) c b =
      option_holds IsBalanced (find_object id c.streams) b
        (λ s e. apply_on-IsBalanced op id s c b e)

  pub run-IsBalanced :
      (ops : List Op) (c : Http2Connection) → IsBalanced c → IsBalanced (run platform ops c)
  unfolding run
  run-IsBalanced [] c b = b
  run-IsBalanced (op ∷ ops) c b = run-IsBalanced ops (apply platform op c) (apply-IsBalanced op c b)

pub new_connection-IsBalanced : (opts : Options) → IsBalanced (new_connection opts)
unfolding IsBalanced new_connection
new_connection-IsBalanced opts = (omega arith, omega arith, tt)
