-- ===== src/Connection/Credit/Writing.antt =====
-- src/http2/connection.js: what is announced for a stream, and what is put in its place.
use tunnelfetch.Prelude.{
  ℕ, ◌+◌, ◌/◌, ◌≤◌, ◌≡◌, refl, ap, ◌∙◌, inl, inr, true, not, ◌&&◌, ◌||◌, Bool-cases, [], ◌∷◌, ◌++◌,
  ltb, leb, ◌==◌, if◌then◌else◌, arith, if_holds, length,
}
use tunnelfetch.Bytes.{Bytes}
use tunnelfetch.Errors.{Failure}
use tunnelfetch.Frames.{has_flag}
use tunnelfetch.Frames.Flag
use tunnelfetch.Connection.State.{Stream, Http2Connection, is_some, default_initial_window}
use tunnelfetch.Connection.Teardown.{
  put_stream, update, remove_stream, reject_stream, fail_stream, maybe_close_stream, send_rst,
  reset_stream,
}
use tunnelfetch.Connection.Receiving.Head.{exempt, length_agrees, end_recv}
use tunnelfetch.Connection.Receiving.Replenish.{replenish_conn, replenishes, replenish_write}
use tunnelfetch.Connection.Receiving.Data.{exceeds_declared, queue_data}
use tunnelfetch.Connection.Announced.{told, announced, told-append, Like}
use tunnelfetch.Connection.Credit.{Moves}

-- The streams as they were, with what is announced for one of them.
abbrev pub Credits : Stream → ℕ → Http2Connection → Http2Connection → Type 0
Credits s granted o c =
    (c.streams ≡ o.streams)
    × (c.our_initial_window ≡ o.our_initial_window)
    × (c.next_stream_id ≡ o.next_stream_id)
    × ((id : ℕ) → announced id c ≡ announced id o + (if s.id == id then granted else 0))

pub no_Credits : (s : Stream) (c : Http2Connection) → Credits s 0 c c
no_Credits s c = (
  refl,
  refl,
  refl,
  λ id.
      if_holds (λ n. announced id c ≡ announced id c + n) (s.id == id) (omega arith) (omega arith),
)

pub send_rst-Credits :
    (s : Stream) (g : ℕ) (t : Stream) (code : ℕ) (o c : Http2Connection)
    → Credits s g o c
    → Credits s g o (send_rst t code c)
unfolding send_rst announced told
send_rst-Credits s g t code o c h = if_holds (Credits s g o) t.rst_sent h (
    if_holds (Credits s g o) (not (is_some c.fatal) && not c.closed)
      (h.0, h.1, h.2, λ id. told-append id default_initial_window c.written _ ∙ h.3 id) h)

pub replenish_conn-Credits :
    (s : Stream) (g n : ℕ) (o c : Http2Connection)
    → Credits s g o c
    → Credits s g o (replenish_conn n c)
unfolding replenish_conn announced told
replenish_conn-Credits s g n o c h =
    if_holds (Credits s g o)
      (leb (if ltb (c.our_conn_window / 2) 1 then 1 else c.our_conn_window / 2)
        (c.conn_consumed + n))
      (h.0, h.1, h.2, λ id. told-append id default_initial_window c.written _ ∙ h.3 id) h

-- What a credit of n bytes announces.
abbrev pub announces : Stream → ℕ → Http2Connection → ℕ
announces s n c = if replenishes s n c then s.recv_consumed + n else 0

pub replenish_write-Credits :
    (s : Stream) (n : ℕ) (o c : Http2Connection)
    → 1 ≤ s.id
    → Credits s 0 o c
    → Credits s (announces s n c) o (replenish_write s n c)
unfolding replenish_write announced told
replenish_write-Credits s n o c le h = elim (Bool-cases (replenishes s n c)) [
  | inl y ↦ rw y (
    h.0,
    h.1,
    h.2,
    λ id. told-append id default_initial_window c.written _ ∙ (let e = h.3 id in ground arith),
  )
  | inr n ↦ rw n h
]

-- An object is put, and nothing is announced.
abbrev pub Puts : Stream → Http2Connection → Http2Connection → Type 0
Puts s c d =
    (s' : Stream) × (s'.id ≡ s.id)
    × Like s s'
    × ((t : Stream) (g : ℕ) (o : Http2Connection)
        → Credits t g o c
        → (d.streams ≡ put_stream s' o.streams)
          × (d.our_initial_window ≡ o.our_initial_window)
          × (d.next_stream_id ≡ o.next_stream_id)
          × ((id : ℕ) → announced id d ≡ announced id o + (if t.id == id then g else 0)))

pub update-Puts :
    (s s' : Stream) (c : Http2Connection) → s'.id ≡ s.id → Like s s' → Puts s c (update s' c)
unfolding announced
update-Puts s s' c i l = (s', i, l, λ t g o h. (ap (put_stream s') h.0, h.1, h.2, h.3))

reset-Puts :
    (s : Stream) (code : ℕ) (e : Failure) (c : Http2Connection) → Puts s c (reset_stream s code e c)
unfolding reset_stream fail_stream remove_stream reject_stream announced
reset-Puts s code e c = (
  fail_stream e (record s { rst_sent = true }),
  refl,
  inl refl,
  λ t g o h. (let q = send_rst-Credits t g s code o c h in (ap (put_stream _) q.0, q.1, q.2, q.3)),
)

end_recv-Puts : (s : Stream) (c : Http2Connection) → Puts s c (end_recv s maybe_close_stream c)
unfolding end_recv maybe_close_stream remove_stream
end_recv-Puts s c =
    if_holds (Puts s c) (exempt s || length_agrees s)
      (if_holds (λ (u : Stream). Puts s c (update u c)) s.local_ended
        (update-Puts s _ c refl (inl refl)) (update-Puts s _ c refl (inr (refl, refl, refl))))
      (reset-Puts s _ _ c)

pub queue_data-Puts :
    (flags : ℕ) (payload : Bytes) (s : Stream) (c : Http2Connection)
    → Puts s c (queue_data flags payload s c)
unfolding queue_data
queue_data-Puts flags payload s c =
    let longer = record s { recv_queue = s.recv_queue ++ payload ∷ [] } in
    if_holds (Puts s c) (exceeds_declared s) (reset-Puts s _ _ c) (
      if_holds
        (λ (u : Stream).
          Puts s c (
            if has_flag flags Flag.end_stream then end_recv u maybe_close_stream c else update u c))
        (ltb 0 (length payload)) {x = longer} {y = s}
        (if_holds (Puts s c) (has_flag flags Flag.end_stream) (end_recv-Puts longer c)
          (update-Puts s longer c refl (inr (refl, refl, refl))))
        (if_holds (Puts s c) (has_flag flags Flag.end_stream) (end_recv-Puts s c)
          (update-Puts s s c refl (inr (refl, refl, refl)))))

pub Puts-Moves :
    (s : Stream) (g : ℕ) (o c d : Http2Connection) → Credits s g o c → Puts s c d → Moves s g o d
Puts-Moves s g o c d h (s', i, l, f) = let q = f s g o h in (s', q.0, i, l, q.1, q.2, q.3)
