-- ===== src/Connection/Credit/Data.antt =====
-- src/http2/connection.js: DATA frames and what consumers take keep the account of a stream.
use tunnelfetch.Prelude.{
  ℕ, ◌+◌, ◌-◌, ◌/◌, ◌≤◌, ◌≡◌, refl, ap, inl, inr, true, false, Bool-cases, some, List, [], ◌∷◌,
  ◌++◌, ltb, leb, ◌==◌, if◌then◌else◌, arith, if_holds, if_cases, length,
}
use tunnelfetch.Prelude.Int.{pos, pos_part, neg_part, ◌+ℤ◌, ◌-ℤ◌, ltb_ℤ}
use mathlib.Core.Path.{subst}
use tunnelfetch.Bytes.{Bytes}
use tunnelfetch.Errors.{Failure}
use tunnelfetch.Connection.State.{Stream, Http2Connection, window_update}
use tunnelfetch.Connection.Teardown.{
  find_object, put_stream, update, remove_stream, reject_stream, fail_stream, reset_stream,
}
use tunnelfetch.Connection.Receiving.Replenish.{
  replenish_conn, replenishes, replenish_stream, replenish_write,
}
use tunnelfetch.Connection.Receiving.Data.{queue_data, credit_padding, padded_stream, data_in}
use tunnelfetch.Connection.Consuming.{pull_chunk}
use tunnelfetch.Connection.Announced.{announced, Calm, same_Calm, written-Calm}
use tunnelfetch.Connection.Credit.Writing.{
  Credits, no_Credits, send_rst-Credits, replenish_conn-Credits, announces, replenish_write-Credits,
  update-Puts, queue_data-Puts, Puts-Moves,
}
use tunnelfetch.Connection.Credit.{Ledger, Moves, Moves-Ledger, Calm-Ledger}

reset-Moves :
    (s : Stream) (code : ℕ) (e : Failure) (c : Http2Connection)
    → Moves (fail_stream e (record s { rst_sent = true })) 0 c (reset_stream s code e c)
unfolding reset_stream fail_stream remove_stream reject_stream announced
reset-Moves s code e c =
    let q = send_rst-Credits s 0 s code c c (no_Credits s c) in
    (
      fail_stream e (record s { rst_sent = true }),
      ap (put_stream _) q.0,
      refl,
      inl refl,
      q.1,
      q.2,
      q.3,
    )

-- A reset of the stream that is found, whatever came for it.
pub reset-Ledger :
    (k used came code : ℕ) (s t : Stream) (e : Failure) (c : Http2Connection)
    → Ledger k used c
    → find_object s.id c.streams ≡ some t
    → Ledger k (used + (if s.id == k then came else 0)) (reset_stream s code e c)
unfolding fail_stream remove_stream reject_stream
reset-Ledger k used came code s t e c l f =
    let shut = fail_stream e (record s { rst_sent = true }) in
    Moves-Ledger k used came 0 shut t c (reset_stream s code e c) l f (λ open_. absurd (cc open_))
      (reset-Moves s code e c)

replenish_conn-init :
    (n : ℕ) (c : Http2Connection) → (replenish_conn n c).our_initial_window ≡ c.our_initial_window
unfolding replenish_conn
replenish_conn-init n c =
    if_holds (λ (d : Http2Connection). d.our_initial_window ≡ c.our_initial_window)
      (leb (if ltb (c.our_conn_window / 2) 1 then 1 else c.our_conn_window / 2)
        (c.conn_consumed + n))
      refl refl

announces-same :
    (s : Stream) (n : ℕ) (c d : Http2Connection)
    → d.our_initial_window ≡ c.our_initial_window
    → announces s n d ≡ announces s n c
unfolding replenishes
announces-same s n c d e = rw e refl

credit_padding-Credits :
    (n : ℕ) (s : Stream) (c : Http2Connection)
    → 1 ≤ s.id
    → Credits s (if ltb 0 n then announces s n c else 0) c (credit_padding n s c)
unfolding credit_padding
credit_padding-Credits n s c le = elim (Bool-cases (ltb 0 n)) [
  | inl y ↦
      let c' = replenish_conn n c in
      rw y (
        subst (λ g. Credits s g c (replenish_write s n c'))
          (announces-same s n c c' (replenish_conn-init n c))
          (replenish_write-Credits s n c c' le (replenish_conn-Credits s 0 n c c (no_Credits s c))))
  | inr n_ ↦ rw n_ (no_Credits s c)
]

-- The window of a stream for which a frame of `flow` bytes came, `n` of them padding.
padded_account :
    (flow n : ℕ) (s : Stream) (c : Http2Connection)
    → n ≤ flow
    → let s' = record s { recv_window = s.recv_window -ℤ pos flow } in
      ltb_ℤ s'.recv_window (pos 0) ≡ false
      → let t = padded_stream n s' c in
        neg_part s.recv_window ≡ 0
        → (neg_part t.recv_window ≡ 0)
          × (pos_part s.recv_window + (if ltb 0 n then announces s' n c else 0) + t.recv_consumed
              ≡ pos_part t.recv_window + flow + s.recv_consumed)
unfolding padded_stream replenish_stream ◌+ℤ◌ ◌-ℤ◌
padded_account flow n s c le w neg = (ground arith, ground arith)

-- A frame that fits.
pub data_in-Ledger :
    (k used flags flow : ℕ) (payload : Bytes) (s : Stream) (c : Http2Connection)
    → Ledger k used c
    → find_object s.id c.streams ≡ some s
    → s.closed ≡ false
    → 1 ≤ s.id
    → Ledger k (used + (if s.id == k then flow else 0)) (data_in flags flow payload s c)
unfolding data_in padded_stream
data_in-Ledger k used flags flow payload s c l f open_ le =
    let s' = record s { recv_window = s.recv_window -ℤ pos flow } in
    let n = flow - length payload in
    let t = padded_stream n s' c in
    let t' = record t { received_length = t.received_length + length payload } in
    let c' = credit_padding n s' c in
    let g = if ltb 0 n then announces s' n c else 0 in
    if_cases (Ledger k (used + (if s.id == k then flow else 0))) (ltb_ℤ s'.recv_window (pos 0))
      (λ w. reset-Ledger k used flow _ s' s _ c l f)
      (λ w.
        Moves-Ledger k used flow g t' s c (queue_data flags payload t' c') l f
          (λ o. (open_, λ neg. padded_account flow n s c (omega arith) w neg))
          (Puts-Moves t' g c c' (queue_data flags payload t' c') (credit_padding-Credits n s' c le)
            (queue_data-Puts flags payload t' c')))

taken_account :
    (n : ℕ) (s t : Stream) (c : Http2Connection)
    → t.recv_window ≡ s.recv_window
    → t.recv_consumed ≡ s.recv_consumed
    → let t' = replenish_stream t n c in
      neg_part s.recv_window ≡ 0
      → (neg_part t'.recv_window ≡ 0)
        × (pos_part s.recv_window + announces t n c + t'.recv_consumed
            ≡ pos_part t'.recv_window + 0 + s.recv_consumed)
unfolding replenish_stream ◌+ℤ◌
taken_account n s t c e e' neg = (ground arith, ground arith)

-- A consumer takes a chunk.
pub pull_chunk-Ledger :
    (k used : ℕ) (chunk : Bytes) (queue : List Bytes) (s : Stream) (c : Http2Connection)
    → Ledger k used c
    → find_object s.id c.streams ≡ some s
    → 1 ≤ s.id
    → Ledger k used (pull_chunk chunk queue s c)
unfolding pull_chunk replenish_stream
pull_chunk-Ledger k used chunk queue s c l f le =
    let n = length chunk in
    let t = record s { recv_queue = queue; delivered = s.delivered ++ chunk ∷ [] } in
    let t' = replenish_stream t n c in
    let g = announces t n c in
    let c' = replenish_conn n (replenish_write t n c) in
    let h =
      replenish_conn-Credits t g n c (replenish_write t n c)
        (replenish_write-Credits t n c c le (no_Credits t c)) in
    let same : used + (if s.id == k then 0 else 0) ≡ used = ground arith in
    subst (λ u. Ledger k u (update t' c')) same
      (Moves-Ledger k used 0 g t' s c (update t' c') l f
        (λ o. (o, λ neg. taken_account n s t c refl refl neg))
        (Puts-Moves t' g c c' (update t' c') h
          (update-Puts t' t' c' refl (inr (refl, refl, refl)))))

pub replenish_conn-Ledger :
    (k used n : ℕ) (c : Http2Connection) → Ledger k used c → Ledger k used (replenish_conn n c)
unfolding replenish_conn Calm announced
replenish_conn-Ledger k used n c l =
    let calm =
      if_holds (Calm c)
        (leb (if ltb (c.our_conn_window / 2) 1 then 1 else c.our_conn_window / 2)
          (c.conn_consumed + n))
        (written-Calm c (window_update 0 (c.conn_consumed + n) ∷ []) c (same_Calm c) (refl, tt))
        (same_Calm c) in
    Calm-Ledger k used c (replenish_conn n c) calm l
