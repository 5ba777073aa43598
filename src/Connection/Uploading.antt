-- ===== src/Connection/Uploading.antt =====
-- src/http2/connection.js: the loop of `_sendBody` ends, and what it has written then.
use tunnelfetch.Prelude.{
  ℕ, zero, suc, ◌+◌, ◌-◌, ◌≤◌, arith, Bool, true, false, ◌&&◌, ◌||◌, ◌==◌, ◌≡◌, refl, sym, ap, ◌∙◌,
  if_true, if_false, if_holds, Bool-cases, inl, inr, none, some, List, [], ◌∷◌, ◌++◌, append-nil,
  append_assoc, leb, leb→le, leb→lt, if◌then◌else◌, length, take, drop, replicate, slice_join,
}
use tunnelfetch.Prelude.Int.{ℤ, pos, pos_part, ◌-ℤ◌}
use mathlib.Core.Path.{subst}
use tunnelfetch.Bytes.{Bytes}
use tunnelfetch.Connection.State.{
  Stream, Http2Connection, Written, magic, settings, window_update, rst_stream, ping_ack, goaway,
  headers, continuation, data_of, no_upload, last_write, uploading,
}
use tunnelfetch.Connection.Teardown.{find_object, update, remove_stream, maybe_close_stream}
use tunnelfetch.Connection.Fields.{Platform}
use tunnelfetch.Connection.Sending.{data_size, send_data, send_from, send_body}
use tunnelfetch.Connection.Running.{sends, on_stream, apply_on, apply, run}
use tunnelfetch.Connection.Framing.{drop_le}
use tunnelfetch.Connection.Budget.{put_stream-found, find_object-id}

-- The payload of a DATA frame of this stream.
abbrev data_in_frame : ℕ → Written → Bytes
data_in_frame id magic = []
data_in_frame id (settings entries ack) = []
data_in_frame id (window_update s inc) = []
data_in_frame id (rst_stream s code) = []
data_in_frame id (ping_ack opaque) = []
data_in_frame id (goaway last code) = []
data_in_frame id (headers s block end_stream end_headers priority) = []
data_in_frame id (continuation s block end_headers) = []
data_in_frame id (data_of s payload end_stream) = if s == id then payload else []

-- The bytes that were sent as the body of a stream.
abbrev pub data_sent : ℕ → List Written → Bytes
data_sent id [] = []
data_sent id (w ∷ ws) = data_in_frame id w ++ data_sent id ws

data_sent-append :
    (id : ℕ) (ws : List Written) (payload : Bytes) (end : Bool)
    → data_sent id (ws ++ data_of id payload end ∷ []) ≡ data_sent id ws ++ payload
data_sent-append id [] payload end =
    let i : (id == id) ≡ true = ground arith in rw (i, append-nil) refl
data_sent-append id (w ∷ ws) payload end =
    rw
      (
        data_sent-append id ws payload end,
        append_assoc (data_in_frame id w) (data_sent id ws) payload,
      )
      refl

apply_sends :
    (platform : Platform) (id : ℕ) (s : Stream) (c : Http2Connection)
    → find_object id c.streams ≡ some s
    → apply platform (on_stream id sends) c ≡ send_body s c
unfolding apply apply_on
apply_sends platform id s c f = ap (λ o. elim o [ none ↦ c | some t ↦ send_body t c ]) f

-- What holds of a connection once the rest of the body of a stream is sent.
abbrev pub Sent : ℕ → Bytes → Http2Connection → Http2Connection → Type 0
Sent id rest c d =
    (data_sent id d.written ≡ data_sent id c.written ++ rest)
    × ((t : Stream) × (find_object id d.streams ≡ some t)
        × (t.local_ended ≡ true)
        × (t.upload ≡ no_upload))

stays : (s : Stream) (c : Http2Connection) → s.upload ≡ no_upload → send_body s c ≡ c
unfolding send_body send_from
stays s c u = ap (λ up. send_from up s c) u

idle :
    (platform : Platform) (n id : ℕ) (s : Stream) (c : Http2Connection)
    → find_object id c.streams ≡ some s
    → s.upload ≡ no_upload
    → run platform (replicate n (on_stream id sends)) c ≡ c
unfolding run
idle platform zero id s c f u = refl
idle platform (suc n) id s c f u =
    ap (run platform (replicate n (on_stream id sends)))
      (apply_sends platform id s c f ∙ stays s c u)
    ∙ idle platform n id s c f u

-- The last write is done.
ended : Stream → Stream
ended s = maybe_close_stream (record s { local_ended = true; upload = no_upload })

ended_facts :
    (s : Stream)
    → ((ended s).id ≡ s.id) × ((ended s).local_ended ≡ true) × ((ended s).upload ≡ no_upload)
unfolding ended maybe_close_stream remove_stream
ended_facts s =
    if_holds (λ (t : Stream). (t.id ≡ s.id) × (t.local_ended ≡ true) × (t.upload ≡ no_upload))
      (s.recv_ended && true) (refl, refl, refl) (refl, refl, refl)

ends :
    (s : Stream) (c : Http2Connection) → s.upload ≡ last_write → send_body s c ≡ update (ended s) c
unfolding send_body send_from ended
ends s c u = ap (λ up. send_from up s c) u

finish :
    (platform : Platform) (n id : ℕ) (s : Stream) (c : Http2Connection)
    → find_object id c.streams ≡ some s
    → s.upload ≡ last_write
    → Sent id [] c (run platform (replicate (suc n) (on_stream id sends)) c)
unfolding run
finish platform n id s c f u =
    let t = ended s in
    let c' = update t c in
    let facts = ended_facts s in
    let i = facts.0 ∙ find_object-id id c.streams s f in
    let found : find_object t.id c'.streams ≡ some t =
      put_stream-found t s c.streams (subst (λ k. find_object k c.streams ≡ some s) (sym i) f) in
    let found' = subst (λ k. find_object k c'.streams ≡ some t) i found in
    let all =
      ap (run platform (replicate n (on_stream id sends)))
        (apply_sends platform id s c f ∙ ends s c u)
      ∙ idle platform n id t c' found' facts.2 in
    subst (λ d. Sent id [] c d) (sym all) (sym (append-nil _), (t, found', facts.1, facts.2))

left_window : (w : ℤ) (n k : ℕ) → n + k ≤ pos_part w → k ≤ pos_part (w -ℤ pos n)
unfolding ◌-ℤ◌
left_window w n k h = ground arith

-- A round takes a byte at least where there is room, and no more than is left.
data_size_bounds :
    (s : Stream) (c : Http2Connection) (rest : ℕ)
    → 1 ≤ rest
    → rest ≤ pos_part s.send_window
    → rest ≤ pos_part c.conn_send_window
    → 1 ≤ c.peer_max_frame_size
    → (1 ≤ data_size s c rest) × (data_size s c rest ≤ rest)
unfolding data_size
data_size_bounds s c rest r sw cw m = (omega arith, omega arith)

sends_data :
    (s : Stream) (c : Http2Connection) (body : Bytes) (offset : ℕ)
    → s.upload ≡ uploading body offset
    → s.closed ≡ false
    → s.cancelled ≡ false
    → 1 ≤ data_size s c (length body - offset)
    → send_body s c ≡ send_data (data_size s c (length body - offset)) body offset s c
unfolding send_body send_from
sends_data s c body offset u o1 o2 n =
    let n_zero : (data_size s c (length body - offset) == 0) ≡ false = ground arith in
    let is_live : (s.closed || s.cancelled) ≡ false = simp (o1, o2) in
    ap (λ up. send_from up s c) u ∙ if_false _ _ is_live ∙ if_false _ _ n_zero

-- The DATA frames of the rounds so far, and of those to come.
join-Sent :
    (id n offset : ℕ) (body : Bytes) (c c' d : Http2Connection)
    → data_sent id c'.written ≡ data_sent id c.written ++ take n (drop offset body)
    → Sent id (drop (offset + n) body) c' d
    → Sent id (drop offset body) c d
join-Sent id n offset body c c' d first rest =
    let before = data_sent id c.written in
    let now = take n (drop offset body) in
    (
      rest.0
          ∙ ap (λ b. b ++ drop (offset + n) body) first
          ∙ append_assoc before now (drop (offset + n) body)
          ∙ ap (λ b. before ++ b) (slice_join offset n body),
      rest.1,
    )

-- The stream after a round.
after_data : ℕ → Bytes → ℕ → Stream → Stream
after_data n body offset s = record s {
  send_window = s.send_window -ℤ pos n;
  upload = if leb (length body) (offset + n) then last_write else uploading body (offset + n);
}

-- Where the peer has granted windows for what is left of a body, allows frames of a byte at least, and
-- the stream is neither closed nor cancelled: the loop of `_sendBody` ends, after at most one round more
-- than bytes are left. It has then written what was left, in order, as DATA frames, and the local half of
-- the stream has ended.
pub upload_ends :
    (platform : Platform) (fuel : ℕ) (s : Stream) (c : Http2Connection) (body : Bytes) (offset : ℕ)
    → find_object s.id c.streams ≡ some s
    → s.upload ≡ uploading body offset
    → s.closed ≡ false
    → s.cancelled ≡ false
    → offset + 1 ≤ length body
    → length body - offset ≤ pos_part s.send_window
    → length body - offset ≤ pos_part c.conn_send_window
    → 1 ≤ c.peer_max_frame_size
    → length body - offset ≤ fuel
    → Sent s.id (drop offset body) c (run platform (replicate (suc fuel) (on_stream s.id sends)) c)
unfolding run send_data after_data
upload_ends platform zero s c body offset f u o1 o2 l sw cw m fl = absurd (omega arith)
upload_ends platform (suc fuel) s c body offset f u o1 o2 l sw cw m fl =
    let left = length body - offset in
    let n = data_size s c left in
    let bounds = data_size_bounds s c left (omega (arith, l)) sw cw m in
    let s' = after_data n body offset s in
    let c' = send_data n body offset s c in
    let step = apply_sends platform s.id s c f ∙ sends_data s c body offset u o1 o2 bounds.0 in
    let found : find_object s.id c'.streams ≡ some s' = put_stream-found s' s c.streams f in
    let first =
      data_sent-append s.id c.written (take n (drop offset body))
        (leb (length body) (offset + n)) in
    let d = run platform (replicate (suc fuel) (on_stream s.id sends)) c' in
    let rest : Sent s.id (drop (offset + n) body) c' d =
      elim (Bool-cases (leb (length body) (offset + n))) [
        | inl y ↦
            subst (λ b. Sent s.id b c' d)
              (sym (drop_le (offset + n) body (leb→le (length body) (offset + n) y)))
              (finish platform fuel s.id s' c' found (if_true _ _ y))
        | inr w ↦
            let more = leb→lt (length body) (offset + n) w in
            upload_ends platform fuel s' c' body (offset + n) found (if_false _ _ w) o1 o2
              (omega (arith, more))
              (left_window s.send_window n (length body - (offset + n))
                (omega (arith, bounds.1, sw)))
              (left_window c.conn_send_window n (length body - (offset + n))
                (omega (arith, bounds.1, cw)))
              m (omega (arith, bounds.0, fl))
      ] in
    subst
      (λ e.
        Sent s.id (drop offset body) c
          (run platform (replicate (suc fuel) (on_stream s.id sends)) e))
      (sym step) (join-Sent s.id n offset body c c' d first rest)
