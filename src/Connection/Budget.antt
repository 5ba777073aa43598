-- ===== src/Connection/Budget.antt =====
-- src/http2/connection.js: what is held in queues and for header blocks, and what leaves it as it is.
pub mod Control
pub mod Head
pub mod Sending
pub mod Balance
pub mod Data
pub mod Runs
use tunnelfetch.Prelude.{
  ℕ, ◌+◌, ◌≤◌, arith, Bool, true, false, not, ◌&&◌, ◌≡◌, ◌≢◌, refl, sym, ap, ◌∙◌, Option-cases,
  none≢some, if_true, if_false, if_holds, if_cases, Bool-cases, inl, inr, Option, none, some, List,
  [], ◌∷◌, ◌++◌, ◌==◌, if◌then◌else◌,
}
use mathlib.Core.Path.{subst}
use tunnelfetch.Bytes.{Bytes}
use tunnelfetch.Errors.{Failure, http2_error, http2_protocol}
use tunnelfetch.Frames.ErrorCode
use tunnelfetch.Connection.State.{Stream, Http2Connection, Written, goaway, write, is_some, or_else}
use tunnelfetch.Connection.Announced.{
  announced, is_silent, Like, Aligned, Aligned-put, Calm, same_Calm, written-Calm, streams-Calm,
}
use tunnelfetch.Connection.Teardown.{
  if_open, find_object, find_stream, put_stream, update, remove_stream, reject_stream, fail_stream,
  maybe_close_stream, send_rst, reset_stream, fail_all, finish_closing, died_with, die, close_now,
  close,
}
use tunnelfetch.Connection.Soundness.{queue_bytes}

-- The bytes in the queues of all streams.
abbrev pub queued : List Stream → ℕ
queued [] = 0
queued (s ∷ ss) = queue_bytes s.recv_queue + queued ss

-- The windows, the queues and the header block under way are as they were.
unfoldable pub Kept : Http2Connection → Http2Connection → Type 0
Kept o c =
    (c.conn_recv_window ≡ o.conn_recv_window)
    × (queued c.streams ≡ queued o.streams)
    × (c.our_conn_window ≡ o.our_conn_window)
    × (c.assembling ≡ o.assembling)
    × (c.max_header_block_bytes ≡ o.max_header_block_bytes)
    × Calm o c

pub same_Kept : (c : Http2Connection) → Kept c c
unfolding Kept
same_Kept c = (refl, refl, refl, refl, refl, same_Calm c)

-- The object of this id holds as much as this one, and its window is as it was.
unfoldable pub Stands : Stream → Http2Connection → Type 0
Stands s c =
    (t : Stream) × (find_object s.id c.streams ≡ some t)
    × (queue_bytes t.recv_queue ≡ queue_bytes s.recv_queue)
    × Like t s

pub find_object-id :
    (id : ℕ) (ss : List Stream) (s : Stream) → find_object id ss ≡ some s → s.id ≡ id
unfolding find_object
find_object-id id [] s e = absurd (none≢some s e)
find_object-id id (t ∷ ss) s e =
    if_cases (λ (o : Option Stream). o ≡ some s → s.id ≡ id) (t.id == id)
      (λ y f. let i : t.id ≡ id = ground arith in sym (ap (λ o. (or_else o t).id) f) ∙ i)
      (λ n f. find_object-id id ss s f) e

-- What the queues hold after an object was changed.
pub put_stream-queued :
    (s t : Stream) (ss : List Stream)
    → find_object s.id ss ≡ some t
    → queued (put_stream s ss) + queue_bytes t.recv_queue ≡ queued ss + queue_bytes s.recv_queue
unfolding find_object put_stream
put_stream-queued s t [] e = absurd (none≢some t e)
put_stream-queued s t (u ∷ ss) e = elim (Bool-cases (u.id == s.id)) [
  | inl y ↦
      let found : some u ≡ some t = sym (if_true (some u) (find_object s.id ss) y) ∙ e in
      let same : queue_bytes u.recv_queue ≡ queue_bytes t.recv_queue =
        ap (λ o. queue_bytes (or_else o u).recv_queue) found in
      rw y (omega (arith, same))
  | inr n ↦
      let rest = put_stream-queued s t ss (sym (if_false (some u) (find_object s.id ss) n) ∙ e) in
      rw n (omega (arith, rest))
]

pub put_stream-found :
    (s t : Stream) (ss : List Stream)
    → find_object s.id ss ≡ some t
    → find_object s.id (put_stream s ss) ≡ some s
unfolding find_object put_stream
put_stream-found s t [] e = absurd (none≢some t e)
put_stream-found s t (u ∷ ss) e = elim (Bool-cases (u.id == s.id)) [
  | inl y ↦ let i : (s.id == s.id) ≡ true = ground arith in rw (y, i) refl
  | inr n ↦
      rw (n, n) (put_stream-found s t ss (sym (if_false (some u) (find_object s.id ss) n) ∙ e))
]

pub put_stream-other :
    (s : Stream) (id : ℕ) (ss : List Stream)
    → id ≢ s.id
    → find_object id (put_stream s ss) ≡ find_object id ss
unfolding find_object put_stream
put_stream-other s id [] ne = refl
put_stream-other s id (t ∷ ss) ne =
    if_cases (λ (ts : List Stream). find_object id ts ≡ find_object id (t ∷ ss)) (t.id == s.id)
      (λ y.
        let a : (s.id == id) ≡ false = ground arith in
        let b : (t.id == id) ≡ false = ground arith in if_false _ _ a ∙ sym (if_false _ _ b))
      (λ n. ap (λ o. if t.id == id then some t else o) (put_stream-other s id ss ne))

pub fail_all-queued : (e : Failure) (ss : List Stream) → queued (fail_all e ss) ≡ queued ss
unfolding fail_all fail_stream remove_stream reject_stream
fail_all-queued e [] = refl
fail_all-queued e (s ∷ ss) =
    let same : queue_bytes (if s.closed then s else fail_stream e s).recv_queue
        ≡ queue_bytes s.recv_queue =
      if_holds (λ (t : Stream). queue_bytes t.recv_queue ≡ queue_bytes s.recv_queue) s.closed refl
        refl in
    omega (arith, same, fail_all-queued e ss)

pub fail_all-Aligned : (e : Failure) (ss : List Stream) → Aligned ss (fail_all e ss)
unfolding fail_all fail_stream remove_stream reject_stream
fail_all-Aligned e [] = tt
fail_all-Aligned e (s ∷ ss) =
    let S : Stream → Type 0 = λ t. (t.id ≡ s.id) × Like s t in
    let (same, like) = if_holds S s.closed (refl, inr (refl, refl, refl)) (refl, inl refl) in
    (same, like, fail_all-Aligned e ss)

pub send_rst-Stands :
    (s : Stream) (code : ℕ) (t : Stream) (c : Http2Connection)
    → Stands t c
    → Stands t (send_rst s code c)
unfolding send_rst Stands
send_rst-Stands s code t c p = if_holds (Stands t) s.rst_sent p (if_holds (Stands t) _ p p)

pub found-Stands :
    (id : ℕ) (s : Stream) (c : Http2Connection) → find_object id c.streams ≡ some s → Stands s c
unfolding Stands
found-Stands id s c e =
    let i = find_object-id id c.streams s e in
    (s, subst (λ n. find_object n c.streams ≡ some s) (sym i) e, refl, inr (refl, refl, refl))

pub find_stream-Stands :
    (id : ℕ) (s : Stream) (c : Http2Connection) → find_stream id c.streams ≡ some s → Stands s c
unfolding find_stream
find_stream-Stands id s c e = found-Stands id s c (if_open-some (find_object id c.streams) e)
  where
    if_open-some : (o : Option Stream) → if_open o ≡ some s → o ≡ some s
    if_open-some none e = e
    if_open-some (some t) e =
        if_cases (λ (o : Option Stream). o ≡ some s → some t ≡ some s) t.closed
          (λ y e. absurd (none≢some s e)) (λ n e. e) e

failed-Stands :
    (e : Failure) (s : Stream) (c : Http2Connection)
    → Stands s c
    → Stands (fail_stream e (record s { rst_sent = true })) c
unfolding Stands fail_stream remove_stream reject_stream
failed-Stands e s c p = (p.0, p.1, p.2, inl refl)

module _ (o : Http2Connection) where
  pub update-Kept : (s : Stream) (c : Http2Connection) → Kept o c → Stands s c → Kept o (update s c)
  unfolding Kept Stands
  update-Kept s c h p = (
    h.0,
    omega (arith, h.1, p.2, put_stream-queued s p.0 c.streams p.1),
    h.2,
    h.3,
    h.4,
    streams-Calm o _ c h.5 (Aligned-put s p.0 c.streams p.1 p.3),
  )

  pub write-Kept :
      (w : Written) → is_silent w ≡ true → (c : Http2Connection) → Kept o c → Kept o (write w c)
  unfolding Kept
  write-Kept w q c h = (h.0, h.1, h.2, h.3, h.4, written-Calm o (w ∷ []) c h.5 (q, tt))

  pub send_rst-Kept :
      (s : Stream) (code : ℕ) (c : Http2Connection) → Kept o c → Kept o (send_rst s code c)
  unfolding send_rst
  send_rst-Kept s code c h =
      if_holds (Kept o) s.rst_sent h (if_holds (Kept o) _ (write-Kept _ refl c h) h)

  pub reset_stream-Kept :
      (s : Stream) (code : ℕ) (e : Failure) (c : Http2Connection)
      → Kept o c
      → Stands s c
      → Kept o (reset_stream s code e c)
  unfolding reset_stream
  reset_stream-Kept s code e c h p =
      let s' = fail_stream e (record s { rst_sent = true }) in
      update-Kept s' (send_rst s code c) (send_rst-Kept s code c h)
        (send_rst-Stands s code s' c (failed-Stands e s c p))

  died_with-Kept :
      (err : Option Failure) (c : Http2Connection) → Kept o c → Kept o (died_with err c)
  unfolding Kept Calm announced died_with finish_closing
  died_with-Kept err c h =
      let code = if is_some err then ErrorCode.protocol_error else ErrorCode.no_error in
      let bye = goaway c.last_peer_stream_id code ∷ [] in
      let e = or_else err (http2_error http2_protocol) in
      let c' = record c { written = if c.closed then c.written else c.written ++ bye } in
      let calm : Calm o c' =
        if_holds (λ ws. Calm o (record c { written = ws })) c.closed h.5
          (written-Calm o bye c h.5 (refl, tt)) in
      (
        h.0,
        fail_all-queued e c.streams ∙ h.1,
        h.2,
        h.3,
        h.4,
        streams-Calm o (fail_all e c.streams) c' calm (fail_all-Aligned e c.streams),
      )

  pub die-Kept : (err : Option Failure) (c : Http2Connection) → Kept o c → Kept o (die err c)
  unfolding die
  die-Kept err c h = if_holds (Kept o) (is_some c.fatal) h (died_with-Kept err c h)

  close_now-Kept : (c : Http2Connection) → Kept o c → Kept o (close_now c)
  unfolding Kept Calm announced close_now finish_closing
  close_now-Kept c h =
      let bye = goaway c.last_peer_stream_id ErrorCode.no_error ∷ [] in
      let e = http2_error http2_protocol in
      let c' = record c { written = c.written ++ bye } in
      let calm = written-Calm o bye c h.5 (refl, tt) in
      (
        h.0,
        fail_all-queued e c.streams ∙ h.1,
        h.2,
        h.3,
        h.4,
        streams-Calm o (fail_all e c.streams) c' calm (fail_all-Aligned e c.streams),
      )

  pub close-Kept : (c : Http2Connection) → Kept o c → Kept o (close c)
  unfolding close
  close-Kept c h = if_holds (Kept o) c.closed h (close_now-Kept c h)
