-- ===== src/Connection/Budget/Control.antt =====
-- src/http2/connection.js: the frames without headers and data leave queues and windows as they are.
use tunnelfetch.Prelude.{
  ℕ, arith, not, ◌&&◌, ◌≡◌, refl, ◌∙◌, inl, inr, if_holds, Option, List, [], ◌∷◌, ltb,
  if◌then◌else◌,
}
use tunnelfetch.Prelude.Int.{ℤ, ◌+ℤ◌}
use tunnelfetch.Errors.{Failure, http2_retryable, http2_goaway}
use tunnelfetch.Frames.{Goaway}
use tunnelfetch.Connection.State.{Stream, Http2Connection}
use tunnelfetch.Connection.Announced.{announced, Like, Aligned, Calm, streams-Calm}
use tunnelfetch.Connection.Teardown.{remove_stream, reject_stream, fail_stream}
use tunnelfetch.Connection.Receiving.Control.{adjust_windows, fail_above, going}
use tunnelfetch.Connection.Preserving.{Preserves}
use tunnelfetch.Connection.Soundness.{queue_bytes}
use tunnelfetch.Connection.Budget.{
  queued, Kept, Stands, find_stream-Stands, update-Kept, write-Kept, reset_stream-Kept, die-Kept,
}

adjust_windows-queued :
    (delta : ℤ) (ss : List Stream) → queued (adjust_windows delta ss) ≡ queued ss
unfolding adjust_windows
adjust_windows-queued delta [] = refl
adjust_windows-queued delta (s ∷ ss) =
    let s' = if s.closed then s else record s { send_window = s.send_window +ℤ delta } in
    let same : queue_bytes s'.recv_queue ≡ queue_bytes s.recv_queue =
      if_holds (λ (t : Stream). queue_bytes t.recv_queue ≡ queue_bytes s.recv_queue) s.closed refl
        refl in
    omega (arith, same, adjust_windows-queued delta ss)

fail_above-queued : (last : ℕ) (ss : List Stream) → queued (fail_above last ss) ≡ queued ss
unfolding fail_above fail_stream remove_stream reject_stream
fail_above-queued last [] = refl
fail_above-queued last (s ∷ ss) =
    let fails = not s.closed && ltb last s.id && not s.response_received in
    let s' = if fails then fail_stream (http2_retryable http2_goaway) s else s in
    let same : queue_bytes s'.recv_queue ≡ queue_bytes s.recv_queue =
      if_holds (λ (t : Stream). queue_bytes t.recv_queue ≡ queue_bytes s.recv_queue) fails refl
        refl in
    omega (arith, same, fail_above-queued last ss)

adjust_windows-Aligned : (delta : ℤ) (ss : List Stream) → Aligned ss (adjust_windows delta ss)
unfolding adjust_windows
adjust_windows-Aligned delta [] = tt
adjust_windows-Aligned delta (s ∷ ss) =
    let S : Stream → Type 0 = λ t. (t.id ≡ s.id) × Like s t in
    let (same, like) =
      if_holds S s.closed (refl, inr (refl, refl, refl)) (refl, inr (refl, refl, refl)) in
    (same, like, adjust_windows-Aligned delta ss)

fail_above-Aligned : (last : ℕ) (ss : List Stream) → Aligned ss (fail_above last ss)
unfolding fail_above fail_stream remove_stream reject_stream
fail_above-Aligned last [] = tt
fail_above-Aligned last (s ∷ ss) =
    let S : Stream → Type 0 = λ t. (t.id ≡ s.id) × Like s t in
    let fails = not s.closed && ltb last s.id && not s.response_received in
    let (same, like) = if_holds S fails (refl, inl refl) (refl, inr (refl, refl, refl)) in
    (same, like, fail_above-Aligned last ss)

failed-Stands :
    (e : Failure) (s : Stream) (c : Http2Connection) → Stands s c → Stands (fail_stream e s) c
unfolding Stands fail_stream remove_stream reject_stream
failed-Stands e s c p = (p.0, p.1, p.2, inl refl)

windowed-Stands :
    (w : ℤ) (s : Stream) (c : Http2Connection)
    → Stands s c
    → Stands (record s { send_window = w }) c
unfolding Stands
windowed-Stands w s c p = p

module _ (o : Http2Connection) where
  adjusted-Kept :
      (value : ℕ) (delta : ℤ) (c : Http2Connection)
      → Kept o c
      → Kept o (record c { peer_initial_window = value; streams = adjust_windows delta c.streams })
  unfolding Kept Calm announced
  adjusted-Kept value delta c h = (
    h.0,
    adjust_windows-queued delta c.streams ∙ h.1,
    h.2,
    h.3,
    h.4,
    streams-Calm o _ c h.5 (adjust_windows-Aligned delta c.streams),
  )

  told-Kept :
      (size table_size : ℕ) (limit : Option ℕ) (c : Http2Connection)
      → Kept o c
      → Kept o (record c {
        peer_max_frame_size = size;
        peer_max_concurrent = limit;
        peer_header_table_size = table_size;
      })
  unfolding Kept Calm announced
  told-Kept size table_size limit c h = h

  granted-Kept :
      (w : ℤ) (c : Http2Connection) → Kept o c → Kept o (record c { conn_send_window = w })
  unfolding Kept Calm announced
  granted-Kept w c h = h

  going-Kept : (g : Goaway) (c : Http2Connection) → Kept o c → Kept o (going g c)
  unfolding Kept Calm announced going
  going-Kept g c h = (
    h.0,
    fail_above-queued g.last_stream_id c.streams ∙ h.1,
    h.2,
    h.3,
    h.4,
    streams-Calm o _ c h.5 (fail_above-Aligned g.last_stream_id c.streams),
  )

  pub Kept-Preserves : Preserves (Kept o) Stands
  Kept-Preserves = record {
    die = die-Kept o;
    written = write-Kept o;
    update = update-Kept o;
    reset = reset_stream-Kept o;
    failed = failed-Stands;
    windowed = windowed-Stands;
    found = λ id s c h e. find_stream-Stands id s c e;
    adjusted = adjusted-Kept;
    told = told-Kept;
    granted = granted-Kept;
    going = going-Kept;
  }
