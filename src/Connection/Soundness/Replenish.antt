-- ===== src/Connection/Soundness/Replenish.antt =====
-- src/http2/connection.js: credits to receive windows keep every stream sound, and what they leave.
use tunnelfetch.Prelude.{
  ℕ, suc, ◌+◌, ◌-◌, ◌/◌, ◌≤◌, ◌≡◌, refl, ap, sym, ◌∙◌, if_true, if_false, Bool-cases, inl, inr,
  if_holds, List, [], ◌∷◌, ◌++◌, ltb, leb, if◌then◌else◌, length, take, length-take, arith,
}
use tunnelfetch.Prelude.Int.{ℤ}
use tunnelfetch.Bytes.{Bytes}
use tunnelfetch.Errors.{Result, ok, ok-inj, err≢ok, result_holds}
use tunnelfetch.Frames.{has_flag, strip_padding}
use tunnelfetch.Frames.Flag
use tunnelfetch.Connection.State.{Stream, Http2Connection, is_some}
use tunnelfetch.Connection.Receiving.Replenish.{replenish_conn, replenishes, replenish_write}
use tunnelfetch.Connection.Receiving.Data.{credit_padding, unpadded}
use tunnelfetch.Connection.Soundness.{queue_bytes, Sound, write-Sound}

pub queue_bytes-append :
    (queue : List Bytes) (chunk : Bytes)
    → queue_bytes (queue ++ chunk ∷ []) ≡ queue_bytes queue + length chunk
queue_bytes-append [] chunk = omega arith
queue_bytes-append (c ∷ queue) chunk = omega (arith, queue_bytes-append queue chunk)

pub windows-Sound :
    (window : ℤ) (consumed : ℕ) (c : Http2Connection)
    → Sound c
    → Sound (record c { conn_recv_window = window; conn_consumed = consumed })
unfolding Sound
windows-Sound window consumed c h = h

pub replenish_conn-Sound : (n : ℕ) (c : Http2Connection) → Sound c → Sound (replenish_conn n c)
unfolding replenish_conn
replenish_conn-Sound n c h =
    if_holds Sound
      (leb (if ltb (c.our_conn_window / 2) 1 then 1 else c.our_conn_window / 2)
        (c.conn_consumed + n))
      (write-Sound _ _ (windows-Sound _ 0 c h)) (windows-Sound _ (c.conn_consumed + n) c h)

pub replenish_write-Sound :
    (s : Stream) (n : ℕ) (c : Http2Connection) → Sound c → Sound (replenish_write s n c)
unfolding replenish_write
replenish_write-Sound s n c h = if_holds Sound (replenishes s n c) (write-Sound _ c h) h

pub credit_padding-Sound :
    (overhead : ℕ) (s : Stream) (c : Http2Connection)
    → Sound c
    → Sound (credit_padding overhead s c)
unfolding credit_padding
credit_padding-Sound overhead s c h =
    if_holds Sound (ltb 0 overhead)
      (replenish_write-Sound s overhead _ (replenish_conn-Sound overhead c h)) h

-- What a credit leaves as it was.
abbrev pub Same : Http2Connection → Http2Connection → Type 0
Same c d = (is_some d.fatal ≡ is_some c.fatal) × (d.our_initial_window ≡ c.our_initial_window)

pub replenish_conn-Same : (n : ℕ) (c : Http2Connection) → Same c (replenish_conn n c)
unfolding replenish_conn
replenish_conn-Same n c =
    if_holds (Same c)
      (leb (if ltb (c.our_conn_window / 2) 1 then 1 else c.our_conn_window / 2)
        (c.conn_consumed + n))
      (refl, refl) (refl, refl)

pub replenish_write-Same :
    (s : Stream) (n : ℕ) (c : Http2Connection) → Same c (replenish_write s n c)
unfolding replenish_write
replenish_write-Same s n c = if_holds (Same c) (replenishes s n c) (refl, refl) (refl, refl)

pub credit_padding-Same :
    (overhead : ℕ) (s : Stream) (c : Http2Connection) → Same c (credit_padding overhead s c)
unfolding credit_padding replenish_write
credit_padding-Same overhead s c =
    let q = replenish_conn-Same overhead c in
    if_holds (Same c) (ltb 0 overhead)
      (if_holds (Same c) (replenishes s overhead (replenish_conn overhead c)) q q) (refl, refl)

strip_padding_le :
    (payload : Bytes) (r : Bytes × ℕ) → strip_padding payload ≡ ok r → length r.0 ≤ length payload
unfolding strip_padding
strip_padding_le [] r e = absurd (err≢ok e)
strip_padding_le (pad_length ∷ rest) r e = elim (Bool-cases (leb (suc (length rest)) pad_length)) [
  | inl y ↦ absurd (err≢ok (sym (if_true _ _ y) ∙ e))
  | inr n ↦
      let kept = take (suc (length rest) - pad_length - 1) rest in
      let found : length kept ≡ length r.0 =
        ap (λ x. length x.0) (ok-inj (sym (if_false _ _ n) ∙ e)) in
      omega (arith, found, length-take (suc (length rest) - pad_length - 1) rest)
]

pub unpadded_le :
    (flags : ℕ) (payload body : Bytes)
    → unpadded flags payload ≡ ok body
    → length body ≤ length payload
unfolding unpadded
unpadded_le flags payload body e =
    let P : Result Bytes → Type 0 = λ u. u ≡ ok body → length body ≤ length payload in
    if_holds P (has_flag flags Flag.padded)
      (result_holds P (strip_padding payload) (λ f _ g. absurd (err≢ok g))
        (λ r f g. omega (arith, strip_padding_le payload r f, ap length (ok-inj g))))
      (λ g. omega (arith, ap length (ok-inj g))) e
