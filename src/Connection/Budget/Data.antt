-- ===== src/Connection/Budget/Data.antt =====
-- src/http2/connection.js: DATA frames fill queues within the window, and consumers empty them.
use tunnelfetch.Prelude.{
  ℕ, inr, ◌+◌, ◌-◌, ◌≤◌, not, ◌≡◌, refl, ap, arith, if_holds, if_cases, option_holds, some, List,
  [], ◌∷◌, ◌++◌, ltb, leb, ◌/◌, ◌==◌, if◌then◌else◌, length,
}
use tunnelfetch.Prelude.Int.{pos, ◌+ℤ◌, ◌-ℤ◌, ltb_ℤ}
use mathlib.Core.Path.{subst}
use tunnelfetch.Bytes.{Bytes}
use tunnelfetch.Errors.{result_holds}
use tunnelfetch.Frames.{has_flag}
use tunnelfetch.Frames.Flag
use tunnelfetch.Connection.State.{Stream, Http2Connection}
use tunnelfetch.Connection.Teardown.{find_object, find_stream, update}
use tunnelfetch.Connection.Receiving.Replenish.{
  replenish_conn, replenishes, replenish_stream, replenish_write,
}
use tunnelfetch.Connection.Receiving.Data.{
  exceeds_declared, queue_data, credit_padding, padded_stream, unpadded, data_in, data_for, on_data,
}
use tunnelfetch.Connection.Consuming.{pull_chunk, pull_from, pull}
use tunnelfetch.Connection.Soundness.{queue_bytes}
use tunnelfetch.Connection.Soundness.Replenish.{unpadded_le}
use tunnelfetch.Connection.Budget.{
  Stands, put_stream-queued, find_stream-Stands, die-Kept, same_Kept,
}
use tunnelfetch.Connection.Budget.Sending.{pull_end-Kept}
use tunnelfetch.Connection.Budget.Balance.{
  IsBalanced, Room, Grown, Kept-IsBalanced, less-Room, Stands-Grown, more-Grown, append-Grown,
  Room-IsBalanced, update-Grown, reset-Grown, end_recv-Grown, debit-IsBalanced, debit-Room,
  replenish_conn-Room, replenish_write-Room,
}

plus_zero : (n : ℕ) → n ≡ n + 0
plus_zero n = omega arith

credit_padding-Grown :
    (m : ℕ) (s t : Stream) (c : Http2Connection) → Grown 0 t c → Grown 0 t (credit_padding m s c)
unfolding credit_padding replenish_write replenish_conn Grown
credit_padding-Grown m s t c p =
    let q =
      if_holds (Grown 0 t)
        (leb (if ltb (c.our_conn_window / 2) 1 then 1 else c.our_conn_window / 2)
          (c.conn_consumed + m))
        p p in
    if_holds (Grown 0 t) (ltb 0 m) (if_holds (Grown 0 t) (replenishes s m (replenish_conn m c)) q q)
      p

credit_padding-Room :
    (m n : ℕ) (s : Stream) (c : Http2Connection) → Room (m + n) c → Room n (credit_padding m s c)
unfolding credit_padding
credit_padding-Room m n s c r =
    if_cases (Room n) (ltb 0 m) (λ e. replenish_write-Room n s m _ (replenish_conn-Room m n c r))
      (λ e. less-Room m n c r)

queue_data-IsBalanced :
    (flags : ℕ) (payload : Bytes) (s : Stream) (c : Http2Connection)
    → Room (length payload) c
    → Grown 0 s c
    → IsBalanced (queue_data flags payload s c)
unfolding queue_data
queue_data-IsBalanced flags payload s c r p =
    let n = length payload in
    let longer = record s { recv_queue = s.recv_queue ++ payload ∷ [] } in
    let s' = if ltb 0 n then longer else s in
    let g =
      if_holds (λ (t : Stream). Grown n t c) (ltb 0 n) {x = longer} {y = s}
        (append-Grown payload s c p) (more-Grown n s c p) in
    if_holds IsBalanced (exceeds_declared s) (reset-Grown n s _ _ c r (more-Grown n s c p)) (
      if_holds IsBalanced (has_flag flags Flag.end_stream) (end_recv-Grown n s' c r g)
        (update-Grown n s' c r g))

data_in-IsBalanced :
    (flags flow : ℕ) (payload : Bytes) (s : Stream) (c : Http2Connection)
    → Room flow c
    → Grown 0 s c
    → length payload ≤ flow
    → IsBalanced (data_in flags flow payload s c)
unfolding data_in padded_stream Grown
data_in-IsBalanced flags flow payload s c r p le =
    let n = length payload in
    let w = s.recv_window -ℤ pos flow in
    let s' = record s { recv_window = w } in
    let c' = credit_padding (flow - n) s' c in
    let split : flow ≡ (flow - n) + n = omega (arith, le) in
    if_holds IsBalanced (ltb_ℤ w (pos 0)) (reset-Grown flow s' _ _ c r (more-Grown flow s' c p)) (
      queue_data-IsBalanced flags payload _ c'
        (credit_padding-Room (flow - n) n s' c (subst (λ k. Room k c) split r))
        (credit_padding-Grown (flow - n) s' s c p))

data_for-IsBalanced :
    (flags : ℕ) (payload : Bytes) (s : Stream) (c : Http2Connection)
    → Room (length payload) c
    → Stands s c
    → IsBalanced (data_for flags payload s c)
unfolding data_for
data_for-IsBalanced flags payload s c r p =
    let flow = length payload in
    if_holds IsBalanced (not s.response_received)
      (reset-Grown flow s _ _ c r (Stands-Grown flow s c p))
      (result_holds IsBalanced (unpadded flags payload)
        (λ e _. Kept-IsBalanced c _ (die-Kept c _ c (same_Kept c)) (Room-IsBalanced flow c r))
        (λ body e.
          data_in-IsBalanced flags flow body s c r (Stands-Grown 0 s c p)
            (unpadded_le flags payload body e)))

pub on_data-IsBalanced :
    (flags stream_id : ℕ) (payload : Bytes) (c : Http2Connection)
    → IsBalanced c
    → IsBalanced (on_data flags stream_id payload c)
unfolding on_data
on_data-IsBalanced flags stream_id payload c b =
    let flow = length payload in
    let c' = record c { conn_recv_window = c.conn_recv_window -ℤ pos flow } in
    if_holds IsBalanced (stream_id == 0) (Kept-IsBalanced c _ (die-Kept c _ c (same_Kept c)) b) (
      if_cases IsBalanced (ltb_ℤ c'.conn_recv_window (pos 0))
        (λ e. Kept-IsBalanced c' _ (die-Kept c' _ c' (same_Kept c')) (debit-IsBalanced flow c b))
        (λ e.
          let r = debit-Room flow c b e in
          option_holds IsBalanced (find_stream stream_id c.streams)
            (Room-IsBalanced 0 _
              (replenish_conn-Room flow 0 c' (subst (λ k. Room k c') (plus_zero flow) r)))
            (λ s f.
              data_for-IsBalanced flags payload s c' r (find_stream-Stands stream_id s c' f))))

-- A chunk leaves its queue, and the window takes it back.
take-IsBalanced :
    (n : ℕ) (s : Stream) (c : Http2Connection)
    → IsBalanced c
    → (t : Stream) → find_object s.id c.streams ≡ some t
    → queue_bytes t.recv_queue ≡ n + queue_bytes s.recv_queue
    → IsBalanced (update s (record c { conn_recv_window = c.conn_recv_window +ℤ pos n }))
unfolding IsBalanced ◌+ℤ◌
take-IsBalanced n s c b t f q =
    let put = put_stream-queued s t c.streams f in
    (omega (arith, b.0, q, put), ground (arith, b.1, q, put), b.2)

replenish_write-same :
    (t : Stream) (n : ℕ) (c : Http2Connection) (s : Stream)
    → IsBalanced c
    → find_object t.id c.streams ≡ some s
    → IsBalanced (replenish_write t n c)
      × (find_object t.id (replenish_write t n c).streams ≡ some s)
unfolding replenish_write IsBalanced
replenish_write-same t n c s b f =
    if_holds (λ (d : Http2Connection). IsBalanced d × (find_object t.id d.streams ≡ some s))
      (replenishes t n c) (b, f) (b, f)

taken_conn :
    (n : ℕ) (s : Stream) (c : Http2Connection)
    → IsBalanced (update s (record c { conn_recv_window = c.conn_recv_window +ℤ pos n }))
    → IsBalanced (update s (replenish_conn n c))
unfolding replenish_conn IsBalanced
taken_conn n s c b =
    if_holds (λ (d : Http2Connection). IsBalanced (update s d))
      (leb (if ltb (c.our_conn_window / 2) 1 then 1 else c.our_conn_window / 2)
        (c.conn_consumed + n))
      b b

pull_chunk-IsBalanced :
    (chunk : Bytes) (queue : List Bytes) (s : Stream) (c : Http2Connection)
    → IsBalanced c
    → find_object s.id c.streams ≡ some s
    → s.recv_queue ≡ chunk ∷ queue
    → IsBalanced (pull_chunk chunk queue s c)
unfolding pull_chunk replenish_stream replenish_conn
pull_chunk-IsBalanced chunk queue s c b f q =
    let n = length chunk in
    let t = record s { recv_queue = queue; delivered = s.delivered ++ chunk ∷ [] } in
    let t' = replenish_stream t n c in
    let c' = replenish_write t n c in
    let told = replenish_write-same t n c s b f in
    taken_conn n t' c' (take-IsBalanced n t' c' told.0 s told.1 (ap queue_bytes q))

pull_from-IsBalanced :
    (queue : List Bytes) (s : Stream) (c : Http2Connection)
    → IsBalanced c
    → find_object s.id c.streams ≡ some s
    → s.recv_queue ≡ queue
    → IsBalanced (pull_from queue s c)
unfolding pull_from Stands
pull_from-IsBalanced [] s c b f q =
    Kept-IsBalanced c _
      (pull_end-Kept c s.body_error s c (same_Kept c) (s, f, refl, inr (refl, refl, refl))) b
pull_from-IsBalanced (chunk ∷ queue) s c b f q = pull_chunk-IsBalanced chunk queue s c b f q

pub pull-IsBalanced :
    (s : Stream) (c : Http2Connection)
    → IsBalanced c
    → find_object s.id c.streams ≡ some s
    → IsBalanced (pull s c)
unfolding pull
pull-IsBalanced s c b f = pull_from-IsBalanced s.recv_queue s c b f refl
