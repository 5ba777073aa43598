-- ===== src/Connection/Soundness/Data.antt =====
-- src/http2/connection.js: DATA frames keep every stream sound.
use tunnelfetch.Prelude.{
  ℕ, ◌+◌, ◌-◌, ◌≤◌, Bool, true, false, not, ◌&&◌, ◌||◌, ◌≡◌, refl, Bool-cases, inl, inr, if_holds,
  if_cases, option_holds, List, [], ◌∷◌, ◌++◌, ltb, ◌==◌, if◌then◌else◌, length, arith,
}
use tunnelfetch.Prelude.Int.{ℤ, pos, pos_part, neg_part, ◌+ℤ◌, ◌-ℤ◌, ltb_ℤ}
use tunnelfetch.Bytes.{Bytes}
use tunnelfetch.Errors.{result_holds}
use tunnelfetch.Frames.{has_flag}
use tunnelfetch.Frames.Flag
use tunnelfetch.Connection.State.{
  Stream, Http2Connection, is_some, Declared, absent, malformed, declared,
}
use tunnelfetch.Connection.Teardown.{find_stream, maybe_close_stream}
use tunnelfetch.Connection.Receiving.Head.{exempt, agrees, length_agrees, exceeds}
use tunnelfetch.Connection.Receiving.Replenish.{replenishes, replenish_stream}
use tunnelfetch.Connection.Receiving.Data.{
  exceeds_declared, queue_data, credit_padding, padded_stream, unpadded, data_in, data_for, on_data,
}
use tunnelfetch.Connection.Soundness.{
  is_sound, is_whole, is_drawn, queue_bytes, threshold, Sound, sound_answered, sound_drawn,
  find_stream-Sound, update-Sound, reset_stream-Sound, die-Sound, maybe_close_stream-is_sound,
}
use tunnelfetch.Connection.Soundness.Head.{ended-is_sound, end_recv-Sound}
use tunnelfetch.Connection.Soundness.Replenish.{
  queue_bytes-append, windows-Sound, replenish_conn-Sound, credit_padding-Sound,
  credit_padding-Same, unpadded_le,
}

-- A length that is the declared one stays so under what is no more than it.
more_agrees :
    (d : Declared) (received n : ℕ)
    → agrees d received ≡ true
    → exceeds d (received + n) ≡ false
    → agrees d (received + n) ≡ true
more_agrees absent received n a e = refl
more_agrees malformed received n a e = a
more_agrees (declared m) received n a e = ground arith

-- What a frame of n bytes and so much padding does to the windows of a stream, and its queue.
credited_drawn :
    (flow n : ℕ) (s : Stream) (c : Http2Connection)
    → n ≤ flow
    → (s.closed || is_drawn c.our_initial_window s) ≡ true
    → let s' = record s { recv_window = s.recv_window -ℤ pos flow } in
      ltb_ℤ s'.recv_window (pos 0) ≡ false
      → let t = padded_stream (flow - n) s' c in
        (s.closed
          || (neg_part t.recv_window == 0
              && pos_part t.recv_window + (queue_bytes s.recv_queue + n) == c.our_initial_window
              && ltb t.recv_consumed (threshold c.our_initial_window)))
        ≡ true
unfolding padded_stream replenish_stream replenishes is_drawn ◌+ℤ◌ ◌-ℤ◌
credited_drawn flow n s c le d w = ground arith

-- A stream whose queue took n bytes, within the declared length.
filled-is_sound :
    (dead : Bool) (init n k : ℕ) (w : ℤ) (queue : List Bytes) (s : Stream)
    → is_sound dead init s ≡ true
    → s.response_received ≡ true
    → queue_bytes queue ≡ queue_bytes s.recv_queue + n
    → exceeds s.declared_length (s.received_length + n) ≡ false
    → (s.closed
        || (neg_part w == 0
            && pos_part w + (queue_bytes s.recv_queue + n) == init
            && ltb k (threshold init)))
      ≡ true
    → is_sound dead init (record s {
      recv_window = w;
      recv_consumed = k;
      received_length = s.received_length + n;
      recv_queue = queue;
    })
      ≡ true
unfolding is_sound is_whole is_drawn exempt length_agrees
filled-is_sound dead init n k w queue s h r q e d =
    elim (Bool-cases (agrees s.declared_length s.received_length)) [
      | inl a ↦ let more = more_agrees s.declared_length s.received_length n a e in ground arith
      | inr a ↦ ground arith
    ]

queue_data-Sound :
    (flags k : ℕ) (payload : Bytes) (w : ℤ) (s : Stream) (c : Http2Connection)
    → Sound c
    → is_sound (is_some c.fatal) c.our_initial_window s ≡ true
    → s.response_received ≡ true
    → (s.closed
        || (neg_part w == 0
            && pos_part w + (queue_bytes s.recv_queue + length payload) == c.our_initial_window
            && ltb k (threshold c.our_initial_window)))
      ≡ true
    → Sound (
        queue_data flags payload
          (record s {
            recv_window = w;
            recv_consumed = k;
            received_length = s.received_length + length payload;
          })
          c)
unfolding queue_data exceeds_declared
queue_data-Sound flags k payload w s c h p r d =
    if_cases Sound (exceeds s.declared_length (s.received_length + length payload))
      (λ e. reset_stream-Sound t _ _ c h (ground arith))
      (λ e.
        if_holds Sound (has_flag flags Flag.end_stream)
          (end_recv-Sound t' maybe_close_stream c h r' (λ a.
            maybe_close_stream-is_sound dead init _ (ended-is_sound dead init t' (filled e) r' a)))
          (update-Sound t' c h (filled e)))
  where
    dead : Bool
    dead = is_some c.fatal

    init : ℕ
    init = c.our_initial_window

    t : Stream
    t = record s {
      recv_window = w;
      recv_consumed = k;
      received_length = s.received_length + length payload;
    }

    t' : Stream
    t' =
        if ltb 0 (length payload) then record t { recv_queue = s.recv_queue ++ payload ∷ [] } else t

    r' : t'.response_received ≡ true
    r' = if_holds (λ (u : Stream). u.response_received ≡ true) (ltb 0 (length payload)) r r

    filled :
        exceeds s.declared_length (s.received_length + length payload) ≡ false
        → is_sound dead init t' ≡ true
    filled e =
        if_cases (λ u. is_sound dead init u ≡ true) (ltb 0 (length payload))
          (λ l.
            filled-is_sound dead init (length payload) k w (s.recv_queue ++ payload ∷ []) s p r
              (queue_bytes-append s.recv_queue payload) e d)
          (λ l.
            filled-is_sound dead init (length payload) k w s.recv_queue s p r (ground arith) e d)

data_in-Sound :
    (flags flow : ℕ) (payload : Bytes) (s : Stream) (c : Http2Connection)
    → Sound c
    → is_sound (is_some c.fatal) c.our_initial_window s ≡ true
    → s.response_received ≡ true
    → length payload ≤ flow
    → Sound (data_in flags flow payload s c)
unfolding data_in padded_stream
data_in-Sound flags flow payload s c h p r le =
    let s' = record s { recv_window = s.recv_window -ℤ pos flow } in
    if_cases Sound (ltb_ℤ s'.recv_window (pos 0))
      (λ w. reset_stream-Sound s' _ _ c h (sound_answered _ _ s p))
      (λ w.
        let n = length payload in
        let t = padded_stream (flow - n) s' c in
        let c' = credit_padding (flow - n) s' c in
        let same = credit_padding-Same (flow - n) s' c in
        let drawn = credited_drawn flow n s c le (sound_drawn _ _ s p) w in
        queue_data-Sound flags t.recv_consumed payload t.recv_window s c'
          (credit_padding-Sound (flow - n) s' c h) (rw (same.0, same.1) p) r (rw same.1 drawn))

data_for-Sound :
    (flags : ℕ) (payload : Bytes) (s : Stream) (c : Http2Connection)
    → Sound c
    → is_sound (is_some c.fatal) c.our_initial_window s ≡ true
    → Sound (data_for flags payload s c)
unfolding data_for
data_for-Sound flags payload s c h p =
    if_cases Sound (not s.response_received)
      (λ r. reset_stream-Sound s _ _ c h (sound_answered _ _ s p))
      (λ r.
        result_holds Sound (unpadded flags payload) (λ e _. die-Sound _ c h)
          (λ body e.
            data_in-Sound flags (length payload) body s c h p (ground arith)
              (unpadded_le flags payload body e)))

pub on_data-Sound :
    (flags stream_id : ℕ) (payload : Bytes) (c : Http2Connection)
    → Sound c
    → Sound (on_data flags stream_id payload c)
unfolding on_data
on_data-Sound flags stream_id payload c h =
    let c' = record c { conn_recv_window = c.conn_recv_window -ℤ pos (length payload) } in
    let h' = windows-Sound c'.conn_recv_window c.conn_consumed c h in
    if_holds Sound (stream_id == 0) (die-Sound _ c h) (
      if_holds Sound (ltb_ℤ c'.conn_recv_window (pos 0)) (die-Sound _ c' h') (
        option_holds Sound (find_stream stream_id c.streams)
          (replenish_conn-Sound (length payload) c' h')
          (λ s e. data_for-Sound flags payload s c' h' (find_stream-Sound stream_id s c h e))))
