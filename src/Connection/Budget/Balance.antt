-- ===== src/Connection/Budget/Balance.antt =====
-- src/http2/connection.js: the connection's receive window, and what the queues and a header block hold.
use tunnelfetch.Prelude.{
  ℕ, ◌+◌, ◌/◌, ◌≤◌, true, false, ◌||◌, ◌≡◌, arith, if_holds, Option, none, some, List, [], ◌∷◌,
  ◌++◌, ltb, leb, if◌then◌else◌, length,
}
use tunnelfetch.Prelude.Int.{pos, pos_part, neg_part, ◌+ℤ◌, ◌-ℤ◌, ltb_ℤ}
use tunnelfetch.Bytes.{Bytes}
use tunnelfetch.Errors.{Failure}
use tunnelfetch.Connection.State.{Stream, Http2Connection, Assembly}
use tunnelfetch.Connection.Teardown.{
  find_object, update, remove_stream, reject_stream, fail_stream, maybe_close_stream, send_rst,
  reset_stream,
}
use tunnelfetch.Connection.Receiving.Head.{exempt, length_agrees, end_recv}
use tunnelfetch.Connection.Receiving.Replenish.{replenish_conn, replenishes, replenish_write}
use tunnelfetch.Connection.Soundness.{queue_bytes}
use tunnelfetch.Connection.Soundness.Replenish.{queue_bytes-append}
use tunnelfetch.Connection.Budget.{queued, Kept, Stands, put_stream-queued}

-- The bytes of a header block under way, with the charge for each frame.
abbrev pub charged : List Bytes → ℕ
charged [] = 0
charged (f ∷ fs) = (length f + 256) + charged fs

abbrev pub Framed : Option Assembly → ℕ → Type 0
Framed none cap = Unit {0}
Framed (some a) cap = (a.bytes ≡ charged a.fragments) × (a.bytes ≤ cap)

-- The bytes in the queues fit into the window that was advertised, with what the peer may still send;
-- and a header block under way is within its cap.
unfoldable pub IsBalanced : Http2Connection → Type 0
IsBalanced c =
    (queued c.streams ≤ c.our_conn_window)
    × (pos_part c.conn_recv_window + queued c.streams
        ≤ c.our_conn_window + neg_part c.conn_recv_window)
    × Framed c.assembling c.max_header_block_bytes

-- There is room for n bytes more.
unfoldable pub Room : ℕ → Http2Connection → Type 0
Room n c =
    (neg_part c.conn_recv_window ≡ 0)
    × (pos_part c.conn_recv_window + (queued c.streams + n) ≤ c.our_conn_window)
    × Framed c.assembling c.max_header_block_bytes

pub Kept-IsBalanced : (o c : Http2Connection) → Kept o c → IsBalanced o → IsBalanced c
unfolding Kept IsBalanced
Kept-IsBalanced o c k b = rw (k.0, k.1, k.2, k.3, k.4) b

pub Room-IsBalanced : (n : ℕ) (c : Http2Connection) → Room n c → IsBalanced c
unfolding Room IsBalanced
Room-IsBalanced n c r = (omega (arith, r.1), omega (arith, r.0, r.1), r.2)

-- An object whose queue took n bytes at most.
unfoldable pub Grown : ℕ → Stream → Http2Connection → Type 0
Grown n s c =
    (t : Stream) × (find_object s.id c.streams ≡ some t)
    × (queue_bytes s.recv_queue ≤ queue_bytes t.recv_queue + n)

pub update-Grown :
    (n : ℕ) (s : Stream) (c : Http2Connection) → Room n c → Grown n s c → IsBalanced (update s c)
unfolding Room IsBalanced Grown
update-Grown n s c r g =
    let put = put_stream-queued s g.0 c.streams g.1 in
    (omega (arith, r.1, g.2, put), omega (arith, r.0, r.1, g.2, put), r.2)

send_rst-Room :
    (n : ℕ) (s : Stream) (code : ℕ) (c : Http2Connection) → Room n c → Room n (send_rst s code c)
unfolding send_rst Room
send_rst-Room n s code c r = if_holds (Room n) s.rst_sent r (if_holds (Room n) _ r r)

send_rst-Grown :
    (n : ℕ) (s : Stream) (code : ℕ) (t : Stream) (c : Http2Connection)
    → Grown n t c
    → Grown n t (send_rst s code c)
unfolding send_rst Grown
send_rst-Grown n s code t c g = if_holds (Grown n t) s.rst_sent g (if_holds (Grown n t) _ g g)

failed-Grown :
    (n : ℕ) (e : Failure) (s : Stream) (c : Http2Connection)
    → Grown n s c
    → Grown n (fail_stream e (record s { rst_sent = true })) c
unfolding Grown fail_stream remove_stream reject_stream
failed-Grown n e s c g = g

closed-Grown :
    (n : ℕ) (s : Stream) (c : Http2Connection)
    → Grown n s c
    → Grown n (maybe_close_stream (record s { recv_ended = true })) c
unfolding Grown maybe_close_stream remove_stream
closed-Grown n s c g = if_holds (λ (t : Stream). Grown n t c) s.local_ended g g

pub reset-Grown :
    (n : ℕ) (s : Stream) (code : ℕ) (e : Failure) (c : Http2Connection)
    → Room n c
    → Grown n s c
    → IsBalanced (reset_stream s code e c)
unfolding reset_stream
reset-Grown n s code e c r g =
    let s' = fail_stream e (record s { rst_sent = true }) in
    update-Grown n s' (send_rst s code c) (send_rst-Room n s code c r)
      (send_rst-Grown n s code s' c (failed-Grown n e s c g))

pub end_recv-Grown :
    (n : ℕ) (s : Stream) (c : Http2Connection)
    → Room n c
    → Grown n s c
    → IsBalanced (end_recv s maybe_close_stream c)
unfolding end_recv
end_recv-Grown n s c r g =
    if_holds IsBalanced (exempt s || length_agrees s) (update-Grown n _ c r (closed-Grown n s c g))
      (reset-Grown n s _ _ c r g)

-- Bytes that arrive are taken off the window, and credited when they are consumed.
pub debit-IsBalanced :
    (n : ℕ) (c : Http2Connection)
    → IsBalanced c
    → IsBalanced (record c { conn_recv_window = c.conn_recv_window -ℤ pos n })
unfolding IsBalanced ◌-ℤ◌
debit-IsBalanced n c b = (b.0, ground (arith, b.1), b.2)

pub debit-Room :
    (n : ℕ) (c : Http2Connection)
    → IsBalanced c
    → let w = c.conn_recv_window -ℤ pos n in
      ltb_ℤ w (pos 0) ≡ false → Room n (record c { conn_recv_window = w })
unfolding IsBalanced Room ◌-ℤ◌
debit-Room n c b e = (ground (arith, b.1, e), ground (arith, b.1, e), b.2)

pub replenish_conn-Room :
    (m n : ℕ) (c : Http2Connection) → Room (m + n) c → Room n (replenish_conn m c)
unfolding replenish_conn Room ◌+ℤ◌
replenish_conn-Room m n c r =
    if_holds (Room n)
      (leb (if ltb (c.our_conn_window / 2) 1 then 1 else c.our_conn_window / 2)
        (c.conn_consumed + m))
      (ground (arith, r.0), ground (arith, r.0, r.1), r.2)
      (ground (arith, r.0), ground (arith, r.0, r.1), r.2)

pub replenish_write-Room :
    (n : ℕ) (s : Stream) (m : ℕ) (c : Http2Connection) → Room n c → Room n (replenish_write s m c)
unfolding replenish_write Room
replenish_write-Room n s m c r = if_holds (Room n) (replenishes s m c) r r

pub less-Room : (m n : ℕ) (c : Http2Connection) → Room (m + n) c → Room n c
unfolding Room
less-Room m n c r = (r.0, omega (arith, r.1), r.2)

pub Stands-Grown : (n : ℕ) (s : Stream) (c : Http2Connection) → Stands s c → Grown n s c
unfolding Stands Grown
Stands-Grown n s c p = (p.0, p.1, omega (arith, p.2))

pub more-Grown : (n : ℕ) (s : Stream) (c : Http2Connection) → Grown 0 s c → Grown n s c
unfolding Grown
more-Grown n s c p = (p.0, p.1, omega (arith, p.2))

pub append-Grown :
    (payload : Bytes) (s : Stream) (c : Http2Connection)
    → Grown 0 s c
    → Grown (length payload) (record s { recv_queue = s.recv_queue ++ payload ∷ [] }) c
unfolding Grown
append-Grown payload s c p = (p.0, p.1, omega (arith, p.2, queue_bytes-append s.recv_queue payload))
