-- ===== src/Connection/Budget/Sending.antt =====
-- src/http2/connection.js: requests, uploads, aborts and cancels leave queues and windows as they are.
use tunnelfetch.Prelude.{
  ℕ, zero, suc, leb, drop, Bool, inl, inr, ◌+◌, ◌-◌, true, not, ◌||◌, ◌≡◌, refl, ltb, arith,
  if_holds, option_holds, Option, none, some, List, [], ◌∷◌, ◌++◌, ◌==◌, if◌then◌else◌, length,
}
use tunnelfetch.Prelude.Int.{ℤ}
use tunnelfetch.Bytes.{Bytes}
use tunnelfetch.Errors.{Failure, Result}
use tunnelfetch.Frames.{Priority}
use tunnelfetch.Connection.State.{
  Stream, Http2Connection, Written, is_some, Upload, no_upload, last_write, uploading,
}
use tunnelfetch.Connection.Announced.{announced, IsSilent, Calm, written-Calm}
use tunnelfetch.Connection.Teardown.{
  find_object, update, remove_stream, reject_stream, fail_stream, send_rst,
}
use tunnelfetch.Connection.Fields.{Platform, Request, build_request_fields}
use tunnelfetch.Connection.Sending.{
  create_stream, write_all, send_data, data_size, send_from, send_body, is_writing, send_failed,
  abort, send_request, open_stream, bytes_of, continuations, header_frames, at_limit, request_live,
  request,
}
use tunnelfetch.Connection.Consuming.{pull_end, cancel}
use tunnelfetch.Hpack.Encoder.{encode_header_block}
use tunnelfetch.Connection.Budget.{
  Kept, same_Kept, Stands, put_stream-found, send_rst-Stands, update-Kept, send_rst-Kept,
  reset_stream-Kept,
}
use tunnelfetch.Connection.Budget.Head.{maybe_close_stream-Stands}

continuations-IsSilent :
    (fuel max id : ℕ) (rest : Bytes) → IsSilent (continuations fuel max id rest)
unfolding continuations
continuations-IsSilent zero max id rest = tt
continuations-IsSilent (suc fuel) max id [] = tt
continuations-IsSilent (suc fuel) max id (b ∷ bs) =
    (refl, continuations-IsSilent fuel max id (drop max (b ∷ bs)))

header_frames-IsSilent :
    (max id : ℕ) (block : Bytes) (end_stream : Bool) (priority : Option Priority)
    → IsSilent (header_frames max id block end_stream priority)
unfolding header_frames
header_frames-IsSilent max id block end_stream priority =
    if_holds IsSilent (leb (length block) max) (refl, tt)
      (refl, continuations-IsSilent (length block) max id (drop max block))

-- An object that was put stands.
update-Stands : (s : Stream) (c : Http2Connection) → Stands s c → Stands s (update s c)
unfolding Stands
update-Stands s c p = (s, put_stream-found s p.0 c.streams p.1, refl, inr (refl, refl, refl))

module _ (o : Http2Connection) where
  granted-Kept :
      (window : ℤ) (ws : List Written) (c : Http2Connection)
      → Kept o c
      → IsSilent ws
      → Kept o (record c { conn_send_window = window; written = c.written ++ ws })
  unfolding Kept Calm announced
  granted-Kept window ws c h q = (h.0, h.1, h.2, h.3, h.4, written-Calm o ws c h.5 q)

  send_data-Kept :
      (n : ℕ) (body : Bytes) (offset : ℕ) (s : Stream) (c : Http2Connection)
      → Kept o c
      → Stands s c
      → Kept o (send_data n body offset s c)
  unfolding send_data Stands
  send_data-Kept n body offset s c h p = update-Kept o _ _ (granted-Kept _ _ c h (refl, tt)) p

  send_from-Kept :
      (upload : Upload) (s : Stream) (c : Http2Connection)
      → Kept o c
      → Stands s c
      → Kept o (send_from upload s c)
  unfolding send_from Stands
  send_from-Kept no_upload s c h p = h
  send_from-Kept last_write s c h p = update-Kept o _ c h (maybe_close_stream-Stands _ c p)
  send_from-Kept (uploading body offset) s c h p =
      if_holds (Kept o) (s.closed || s.cancelled) (update-Kept o _ c h p) (
        if_holds (Kept o) (data_size s c (length body - offset) == 0) h
          (send_data-Kept _ body offset s c h p))

  pub send_body-Kept :
      (s : Stream) (c : Http2Connection) → Kept o c → Stands s c → Kept o (send_body s c)
  unfolding send_body
  send_body-Kept s c h p = send_from-Kept s.upload s c h p

  pub send_failed-Kept :
      (e : Failure) (s : Stream) (c : Http2Connection)
      → Kept o c
      → Stands s c
      → Kept o (send_failed e s c)
  unfolding send_failed fail_stream remove_stream reject_stream Stands
  send_failed-Kept e s c h p =
      if_holds (Kept o) (is_writing s.upload) (update-Kept o _ c h (p.0, p.1, p.2, inl refl)) h

  pub abort-Kept :
      (e : Failure) (s : Stream) (c : Http2Connection)
      → Kept o c
      → Stands s c
      → Kept o (abort e s c)
  unfolding abort
  abort-Kept e s c h p = if_holds (Kept o) s.closed h (reset_stream-Kept o s _ e c h p)

  pub pull_end-Kept :
      (e : Option Failure) (s : Stream) (c : Http2Connection)
      → Kept o c
      → Stands s c
      → Kept o (pull_end e s c)
  unfolding pull_end Stands
  pull_end-Kept (some e) s c h p = update-Kept o _ c h p
  pull_end-Kept none s c h p = if_holds (Kept o) s.recv_ended (update-Kept o _ c h p) h

  pub cancel-Kept : (s : Stream) (c : Http2Connection) → Kept o c → Stands s c → Kept o (cancel s c)
  unfolding cancel remove_stream Stands
  cancel-Kept s c h p =
      update-Kept o _ (send_rst s _ c) (send_rst-Kept o s _ c h)
        (let q = send_rst-Stands s _ s c p in (q.0, q.1, q.2, inl refl))

  module _ (platform : Platform) where
    send_request-Kept :
        (r : Request) (s : Stream) (c : Http2Connection)
        → Kept o c
        → Stands s c
        → Kept o (send_request platform r s c)
    unfolding send_request Stands
    send_request-Kept r s c h p =
        let body = bytes_of r.body in
        let has_body = ltb 0 (length body) in
        let block =
          encode_header_block platform.utf8
            (build_request_fields c.pseudo_header_order c.hpack_indexing r) in
        let frames =
          header_frames c.peer_max_frame_size s.id block (not has_body) c.headers_priority in
        let t = record s {
          local_ended = not has_body;
          upload = if has_body then uploading body 0 else no_upload;
        } in
        send_body-Kept t _
          (update-Kept o t _
            (granted-Kept c.conn_send_window frames c h (header_frames-IsSilent _ s.id block _ _))
            p)
          (update-Stands t (write_all frames c) p)

-- The connection when the stream of a request is opened.
abbrev pub opened : Request → Http2Connection → Http2Connection
opened r c = record c {
  next_stream_id = c.next_stream_id + 2;
  streams = create_stream c.next_stream_id r.method c ∷ c.streams;
}

opened-Stands :
    (id : ℕ) (s : Stream) (c : Http2Connection)
    → Stands s (record c { next_stream_id = id; streams = s ∷ c.streams })
unfolding Stands find_object
opened-Stands id s c =
    let i : (s.id == s.id) ≡ true = ground arith in (s, rw i refl, refl, inr (refl, refl, refl))

module _ (platform : Platform) where
  -- A request opens a stream, and what follows leaves the windows alone.
  open_stream-Kept :
      (P : Http2Connection → Type 0) (r : Request) (aborted : Option Failure) (c : Http2Connection)
      → ((d : Http2Connection) → Kept (opened r c) d → P d)
      → P (open_stream platform r aborted c)
  unfolding open_stream create_stream
  open_stream-Kept P r aborted c f =
      let s = create_stream c.next_stream_id r.method c in
      let h = same_Kept (opened r c) in
      let p = opened-Stands (c.next_stream_id + 2) s c in
      option_holds P aborted (f _ (send_request-Kept (opened r c) platform r s _ h p))
        (λ reason _. f _ (reset_stream-Kept (opened r c) s _ reason _ h p))

  request_live-Kept :
      (P : Http2Connection → Type 0) (r : Request) (aborted : Option Failure) (c : Http2Connection)
      → P c
      → ((d : Http2Connection) → Kept (opened r c) d → P d)
      → P (request_live platform r aborted c).1
  unfolding request_live
  request_live-Kept P r aborted c h f =
      let S : Result ℕ × Http2Connection → Type 0 = λ q. P q.1 in
      if_holds S c.closed h (
        if_holds S (is_some c.going_away) h
          (if_holds S (at_limit c) h (open_stream-Kept P r aborted c f)))

  pub request-Kept :
      (P : Http2Connection → Type 0) (r : Request) (aborted : Option Failure) (c : Http2Connection)
      → P c
      → ((d : Http2Connection) → Kept (opened r c) d → P d)
      → P (request platform r aborted c).1
  unfolding request
  request-Kept P r aborted c h f =
      option_holds (λ (q : Result ℕ × Http2Connection). P q.1) c.fatal
        (request_live-Kept P r aborted c h f) (λ e _. h)
