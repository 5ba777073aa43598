-- ===== src/Connection/Soundness/Sending.antt =====
-- src/http2/connection.js: requests, senders and consumers keep every stream sound.
use tunnelfetch.Prelude.{
  ℕ, ◌+◌, ◌-◌, Bool, true, false, ◌||◌, ◌≡◌, refl, sym, ap, if_holds, option_holds, option_cases,
  Option, none, some, List, [], ◌∷◌, ◌++◌, ◌==◌, length, arith,
}
use tunnelfetch.Prelude.Int.{ℤ, ◌+ℤ◌}
use tunnelfetch.Prelude.Texts.{Text}
use tunnelfetch.Bytes.{Bytes}
use mathlib.Core.Path.{subst}
use tunnelfetch.Errors.{Failure, Result}
use tunnelfetch.Connection.State.{
  Stream, Http2Connection, Written, is_some, settle_resolve, Upload, no_upload, last_write,
  uploading,
}
use tunnelfetch.Connection.Teardown.{remove_stream}
use tunnelfetch.Connection.Fields.{Platform, Request}
use tunnelfetch.Connection.Receiving.Head.{exempt, length_agrees}
use tunnelfetch.Connection.Receiving.Replenish.{
  replenish_conn, replenish_write, replenishes, replenish_stream,
}
use tunnelfetch.Connection.Sending.{
  create_stream, send_data, data_size, is_writing, send_from, send_body, send_failed, abort,
  send_request, open_stream, at_limit, request_live, request,
}
use tunnelfetch.Connection.Consuming.{pull_chunk, pull_end, pull_from, pull, cancel, holds_body}
use tunnelfetch.Connection.Soundness.{
  is_sound, is_whole, is_drawn, queue_bytes, Sound, sound_answered, send_rst-Sound,
  fail_stream-is_sound, update-Sound, reset_stream-Sound, maybe_close_stream-is_sound,
}
use tunnelfetch.Connection.Soundness.Replenish.{
  replenish_conn-Sound, replenish_write-Sound, replenish_conn-Same, replenish_write-Same,
}

-- A stream that is open, when nothing has come for it.
create_stream-is_sound :
    (id : ℕ) (method : Text) (c : Http2Connection)
    → is_sound false c.our_initial_window (create_stream id method c) ≡ true
unfolding create_stream is_sound is_whole is_drawn exempt length_agrees
create_stream-is_sound id method c = ground arith

granted-Sound :
    (window : ℤ) (ws : List Written) (c : Http2Connection)
    → Sound c
    → Sound (record c { conn_send_window = window; written = c.written ++ ws })
unfolding Sound
granted-Sound window ws c h = h

send_data-Sound :
    (n : ℕ) (body : Bytes) (offset : ℕ) (s : Stream) (c : Http2Connection)
    → Sound c
    → is_sound (is_some c.fatal) c.our_initial_window s ≡ true
    → Sound (send_data n body offset s c)
unfolding send_data is_sound is_whole is_drawn exempt length_agrees
send_data-Sound n body offset s c h p = update-Sound _ _ (granted-Sound _ _ c h) p

send_from-Sound :
    (upload : Upload) (s : Stream) (c : Http2Connection)
    → Sound c
    → is_sound (is_some c.fatal) c.our_initial_window s ≡ true
    → Sound (send_from upload s c)
unfolding send_from is_sound is_whole is_drawn exempt length_agrees
send_from-Sound no_upload s c h p = h
send_from-Sound last_write s c h p = update-Sound _ c h (maybe_close_stream-is_sound _ _ _ p)
send_from-Sound (uploading body offset) s c h p =
    if_holds Sound (s.closed || s.cancelled) (update-Sound _ c h p) (
      if_holds Sound (data_size s c (length body - offset) == 0) h
        (send_data-Sound _ body offset s c h p))

pub send_body-Sound :
    (s : Stream) (c : Http2Connection)
    → Sound c
    → is_sound (is_some c.fatal) c.our_initial_window s ≡ true
    → Sound (send_body s c)
unfolding send_body
send_body-Sound s c h p = send_from-Sound s.upload s c h p

pub send_failed-Sound :
    (e : Failure) (s : Stream) (c : Http2Connection)
    → Sound c
    → is_sound (is_some c.fatal) c.our_initial_window s ≡ true
    → Sound (send_failed e s c)
unfolding send_failed
send_failed-Sound e s c h p =
    if_holds Sound (is_writing s.upload)
      (update-Sound _ c h (fail_stream-is_sound _ _ e _ (sound_answered _ _ s p))) h

pub abort-Sound :
    (e : Failure) (s : Stream) (c : Http2Connection)
    → Sound c
    → is_sound (is_some c.fatal) c.our_initial_window s ≡ true
    → Sound (abort e s c)
unfolding abort
abort-Sound e s c h p =
    if_holds Sound s.closed h (reset_stream-Sound s _ e c h (sound_answered _ _ s p))

-- A chunk leaves the queue, and the window takes it back.
delivered-is_sound :
    (chunk : Bytes) (queue chunks : List Bytes) (s : Stream) (c : Http2Connection)
    → is_sound (is_some c.fatal) c.our_initial_window s ≡ true
    → s.recv_queue ≡ chunk ∷ queue
    → is_sound
        (is_some c.fatal)
        c.our_initial_window
        (replenish_stream (record s { recv_queue = queue; delivered = chunks }) (length chunk) c)
      ≡ true
unfolding replenish_stream replenishes is_sound is_whole is_drawn exempt length_agrees ◌+ℤ◌
delivered-is_sound chunk queue chunks s c p q =
    let total : queue_bytes s.recv_queue ≡ length chunk + queue_bytes queue = ap queue_bytes q in
    ground arith

pull_chunk-Sound :
    (chunk : Bytes) (queue : List Bytes) (s : Stream) (c : Http2Connection)
    → Sound c
    → is_sound (is_some c.fatal) c.our_initial_window s ≡ true
    → s.recv_queue ≡ chunk ∷ queue
    → Sound (pull_chunk chunk queue s c)
unfolding pull_chunk
pull_chunk-Sound chunk queue s c h p q =
    let t = record s { recv_queue = queue; delivered = s.delivered ++ chunk ∷ [] } in
    let n = length chunk in
    let c' = replenish_write t n c in
    let told = replenish_write-Same t n c in
    let credited = replenish_conn-Same n c' in
    update-Sound (replenish_stream t n c) (replenish_conn n c')
      (replenish_conn-Sound n c' (replenish_write-Sound t n c h))
      (rw (credited.0, credited.1, told.0, told.1)
        (delivered-is_sound chunk queue (s.delivered ++ chunk ∷ []) s c p q))

pull_end-Sound :
    (e : Option Failure) (s : Stream) (c : Http2Connection)
    → Sound c
    → is_sound (is_some c.fatal) c.our_initial_window s ≡ true
    → Sound (pull_end e s c)
unfolding pull_end is_sound is_whole is_drawn exempt length_agrees
pull_end-Sound (some e) s c h p = update-Sound _ c h p
pull_end-Sound none s c h p = if_holds Sound s.recv_ended (update-Sound _ c h p) h

pull_from-Sound :
    (queue : List Bytes) (s : Stream) (c : Http2Connection)
    → Sound c
    → is_sound (is_some c.fatal) c.our_initial_window s ≡ true
    → s.recv_queue ≡ queue
    → Sound (pull_from queue s c)
unfolding pull_from
pull_from-Sound [] s c h p q = pull_end-Sound s.body_error s c h p
pull_from-Sound (chunk ∷ queue) s c h p q = pull_chunk-Sound chunk queue s c h p q

pub pull-Sound :
    (s : Stream) (c : Http2Connection)
    → Sound c
    → is_sound (is_some c.fatal) c.our_initial_window s ≡ true
    → Sound (pull s c)
unfolding pull
pull-Sound s c h p = pull_from-Sound s.recv_queue s c h p refl

cancelled-is_sound :
    (dead dead' : Bool) (init init' : ℕ) (s : Stream)
    → is_sound dead init s ≡ true
    → holds_body s ≡ true
    → is_sound dead' init' (
        remove_stream record s {
          cancelled = true;
          completed = settle_resolve false s.completed;
          trailers = settle_resolve none s.trailers;
          rst_sent = true;
        })
      ≡ true
unfolding remove_stream holds_body is_sound is_whole is_drawn exempt length_agrees
cancelled-is_sound dead dead' init init' s p b = ground arith

pub cancel-Sound :
    (s : Stream) (c : Http2Connection)
    → Sound c
    → is_sound (is_some c.fatal) c.our_initial_window s ≡ true
    → holds_body s ≡ true
    → Sound (cancel s c)
unfolding cancel
cancel-Sound s c h p b =
    update-Sound _ _ (send_rst-Sound s _ c h) (cancelled-is_sound _ _ _ _ s p b)

opened-Sound :
    (id : ℕ) (s : Stream) (c : Http2Connection)
    → Sound c
    → is_sound (is_some c.fatal) c.our_initial_window s ≡ true
    → Sound (record c { next_stream_id = id; streams = s ∷ c.streams })
unfolding Sound
opened-Sound id s c h p = (p, h)

module _ (platform : Platform) where
  send_request-Sound :
      (r : Request) (s : Stream) (c : Http2Connection)
      → Sound c
      → is_sound (is_some c.fatal) c.our_initial_window s ≡ true
      → Sound (send_request platform r s c)
  unfolding send_request is_sound is_whole is_drawn exempt length_agrees
  send_request-Sound r s c h p =
      send_body-Sound _ _ (update-Sound _ _ (granted-Sound c.conn_send_window _ c h) p) p

  open_stream-Sound :
      (r : Request) (aborted : Option Failure) (c : Http2Connection)
      → Sound c
      → c.fatal ≡ none
      → Sound (open_stream platform r aborted c)
  unfolding open_stream
  open_stream-Sound r aborted c h f =
      let s = create_stream c.next_stream_id r.method c in
      let fresh = create_stream-is_sound c.next_stream_id r.method c in
      let p : is_sound (is_some c.fatal) c.our_initial_window s ≡ true =
        subst (λ o. is_sound (is_some o) c.our_initial_window s ≡ true) (sym f) fresh in
      let h' = opened-Sound (c.next_stream_id + 2) s c h p in
      option_holds Sound aborted (send_request-Sound r s _ h' p)
        (λ reason _. reset_stream-Sound s _ reason _ h' (sound_answered _ _ s p))

  request_live-Sound :
      (r : Request) (aborted : Option Failure) (c : Http2Connection)
      → Sound c
      → c.fatal ≡ none
      → Sound (request_live platform r aborted c).1
  unfolding request_live
  request_live-Sound r aborted c h f =
      let S : Result ℕ × Http2Connection → Type 0 = λ q. Sound q.1 in
      if_holds S c.closed h (
        if_holds S (is_some c.going_away) h
          (if_holds S (at_limit c) h (open_stream-Sound r aborted c h f)))

  pub request-Sound :
      (r : Request) (aborted : Option Failure) (c : Http2Connection)
      → Sound c
      → Sound (request platform r aborted c).1
  unfolding request
  request-Sound r aborted c h =
      option_cases (λ (q : Result ℕ × Http2Connection). Sound q.1) c.fatal
        (λ f. request_live-Sound r aborted c h f) (λ e f. h)
