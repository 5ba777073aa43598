-- ===== src/Connection/Soundness.antt =====
-- src/http2/connection.js: what holds of every stream object at every time.
pub mod Control
pub mod Head
pub mod Replenish
pub mod Data
pub mod Sending
pub mod Runs
use tunnelfetch.Prelude.{
  ℕ, suc, ◌+◌, ◌-◌, ◌/◌, ◌≤◌, arith, Bool, true, false, not, ◌&&◌, ◌||◌, ◌≡◌, refl, ap, sym, ◌∙◌,
  Option-cases, none≢some, if_true, if_false, if_holds, if_cases, ◌⊎◌, inl, inr, Bool-cases,
}
use tunnelfetch.Prelude.{
  Option, none, some, List, [], ◌∷◌, ltb, leb, ◌==◌, if◌then◌else◌, length, All,
}
use tunnelfetch.Prelude.Int.{ℤ, pos_part, neg_part}
use mathlib.Core.Path.{subst}
use tunnelfetch.Bytes.{Bytes}
use tunnelfetch.Errors.{Failure, http2_error, http2_protocol}
use tunnelfetch.Connection.State.{
  Stream, Http2Connection, Written, write, Deferred, pending, resolved, rejected, is_some, or_else,
  settle_reject, Declared, absent, malformed, declared,
}
use tunnelfetch.Connection.Teardown.{
  if_open, find_object, find_stream, put_stream, update, send_rst, reset_stream, fail_all,
  finish_closing, die, died_with, close, close_now, remove_stream, reject_stream, fail_stream,
  maybe_close_stream,
}
use tunnelfetch.Connection.Receiving.Head.{exempt, length_agrees, agrees, exceeds}

abbrev pub is_settled : {A : Type 0} → Deferred A → Bool
is_settled pending = false
is_settled (resolved v) = true
is_settled (rejected e) = true

-- The bytes of a queue.
abbrev pub queue_bytes : List Bytes → ℕ
queue_bytes [] = 0
queue_bytes (chunk ∷ queue) = length chunk + queue_bytes queue

-- The bytes after which a window is reopened.
abbrev pub threshold : ℕ → ℕ
threshold window = if ltb (window / 2) 1 then 1 else window / 2

-- The window of the stream is what its queue leaves of the initial window, and less than the threshold
-- is consumed and not yet announced.
unfoldable pub is_drawn : ℕ → Stream → Bool
is_drawn init s =
    neg_part s.recv_window == 0
    && pos_part s.recv_window + queue_bytes s.recv_queue == init
    && ltb s.recv_consumed (threshold init)

-- The length check was passed if the receive half has ended without an error.
unfoldable pub is_whole : Stream → Bool
is_whole s = not s.recv_ended || is_some s.body_error || exempt s || length_agrees s

unfoldable pub is_sound : Bool → ℕ → Stream → Bool
unfolding is_drawn is_whole
is_sound dead init s =
    (not dead || s.closed)
    && (not (s.closed || s.response_received) || is_settled s.head)
    && (not s.recv_ended || s.response_received)
    && is_whole s
    && (s.closed || is_drawn init s)

pub fail_stream-is_sound :
    (dead : Bool) (init : ℕ) (e : Failure) (s : Stream)
    → (not s.recv_ended || s.response_received) ≡ true
    → is_sound dead init (fail_stream e s) ≡ true
unfolding is_sound is_whole fail_stream remove_stream reject_stream
fail_stream-is_sound dead init e s h = ground arith

pub sound_answered :
    (dead : Bool) (init : ℕ) (s : Stream)
    → is_sound dead init s ≡ true
    → (not s.recv_ended || s.response_received) ≡ true
unfolding is_sound
sound_answered dead init s h = ground arith

pub sound_drawn :
    (dead : Bool) (init : ℕ) (s : Stream)
    → is_sound dead init s ≡ true
    → (s.closed || is_drawn init s) ≡ true
unfolding is_sound
sound_drawn dead init s h = ground arith

pub maybe_close_stream-is_sound :
    (dead : Bool) (init : ℕ) (s : Stream)
    → is_sound dead init s ≡ true
    → is_sound dead init (maybe_close_stream s) ≡ true
unfolding is_sound is_whole is_drawn exempt length_agrees maybe_close_stream remove_stream
maybe_close_stream-is_sound dead init s h = ground arith

pub fail_open-is_sound :
    (dead : Bool) (init : ℕ) (e : Failure) (s : Stream)
    → is_sound dead init s ≡ true
    → is_sound true init (if s.closed then s else fail_stream e s) ≡ true
unfolding is_sound is_whole is_drawn exempt length_agrees fail_stream remove_stream reject_stream
fail_open-is_sound dead init e s h = ground arith

-- Every stream object is sound.
unfoldable pub Sound : Http2Connection → Type 0
Sound c = All (λ s. is_sound (is_some c.fatal) c.our_initial_window s ≡ true) c.streams

pub find_object-All :
    (P : Stream → Type 0) (id : ℕ) (ss : List Stream) (s : Stream)
    → All P ss
    → find_object id ss ≡ some s
    → P s
unfolding find_object
find_object-All P id [] s h e = absurd (none≢some s e)
find_object-All P id (t ∷ ss) s h e = elim (Bool-cases (t.id == id)) [
  | inl y ↦
      let found : some t ≡ some s = sym (if_true (some t) (find_object id ss) y) ∙ e in
      subst P (ap (λ o. or_else o t) found) h.0
  | inr n ↦ find_object-All P id ss s h.1 (sym (if_false (some t) (find_object id ss) n) ∙ e)
]

pub find_stream-All :
    (P : Stream → Type 0) (id : ℕ) (ss : List Stream) (s : Stream)
    → All P ss
    → find_stream id ss ≡ some s
    → P s
unfolding find_stream
find_stream-All P id ss s h e = elim (Option-cases (find_object id ss)) [
  | inl n ↦ absurd (none≢some s (ap if_open (sym n) ∙ e))
  | inr f ↦
      let t = f.0 in
      let e' : (if t.closed then none else some t) ≡ some s = ap if_open (sym f.1) ∙ e in
      elim (Bool-cases t.closed) [
        | inl y ↦ absurd (none≢some s (sym (if_true none (some t) y) ∙ e'))
        | inr n ↦
            subst P (ap (λ o. or_else o t) (sym (if_false none (some t) n) ∙ e'))
              (find_object-All P id ss t h f.1)
      ]
]

pub put_stream-All :
    (P : Stream → Type 0) (s : Stream) (ss : List Stream) → All P ss → P s → All P (put_stream s ss)
unfolding put_stream
put_stream-All P s [] h p = tt
put_stream-All P s (t ∷ ss) h p = elim (Bool-cases (t.id == s.id)) [
  | inl y ↦ rw y (p, h.1)
  | inr n ↦ rw n (h.0, put_stream-All P s ss h.1 p)
]

pub update-Sound :
    (s : Stream) (c : Http2Connection)
    → Sound c
    → is_sound (is_some c.fatal) c.our_initial_window s ≡ true
    → Sound (update s c)
unfolding Sound
update-Sound s c h p = put_stream-All _ s c.streams h p

pub find_object-Sound :
    (id : ℕ) (s : Stream) (c : Http2Connection)
    → Sound c
    → find_object id c.streams ≡ some s
    → is_sound (is_some c.fatal) c.our_initial_window s ≡ true
unfolding Sound
find_object-Sound id s c h e = find_object-All _ id c.streams s h e

pub find_stream-Sound :
    (id : ℕ) (s : Stream) (c : Http2Connection)
    → Sound c
    → find_stream id c.streams ≡ some s
    → is_sound (is_some c.fatal) c.our_initial_window s ≡ true
unfolding Sound
find_stream-Sound id s c h e = find_stream-All _ id c.streams s h e

pub write-Sound : (w : Written) (c : Http2Connection) → Sound c → Sound (write w c)
unfolding Sound
write-Sound w c h = h

pub send_rst-Sound :
    (s : Stream) (code : ℕ) (c : Http2Connection) → Sound c → Sound (send_rst s code c)
unfolding send_rst
send_rst-Sound s code c h = if_holds Sound s.rst_sent h (if_holds Sound _ (write-Sound _ c h) h)

-- A reset leaves sound what it is given, if its receive half has ended after the response.
pub reset_stream-Sound :
    (s : Stream) (code : ℕ) (e : Failure) (c : Http2Connection)
    → Sound c
    → (not s.recv_ended || s.response_received) ≡ true
    → Sound (reset_stream s code e c)
unfolding reset_stream
reset_stream-Sound s code e c h r =
    let c' = send_rst s code c in
    update-Sound (fail_stream e record s { rst_sent = true }) c' (send_rst-Sound s code c h) (
      fail_stream-is_sound (is_some c'.fatal) c'.our_initial_window e (record s { rst_sent = true })
        r)

pub fail_all-Sound :
    (dead : Bool) (init : ℕ) (e : Failure) (ss : List Stream)
    → All (λ s. is_sound dead init s ≡ true) ss
    → All (λ s. is_sound true init s ≡ true) (fail_all e ss)
unfolding fail_all
fail_all-Sound dead init e [] h = tt
fail_all-Sound dead init e (s ∷ ss) h =
    (fail_open-is_sound dead init e s h.0, fail_all-Sound dead init e ss h.1)

died_with-Sound : (err : Option Failure) (c : Http2Connection) → Sound c → Sound (died_with err c)
unfolding Sound died_with finish_closing
died_with-Sound err c h =
    fail_all-Sound (is_some c.fatal) c.our_initial_window (or_else err (http2_error http2_protocol))
      c.streams h

pub die-Sound : (err : Option Failure) (c : Http2Connection) → Sound c → Sound (die err c)
unfolding die
die-Sound err c h = if_holds Sound (is_some c.fatal) h (died_with-Sound err c h)

close_now-Sound : (c : Http2Connection) → Sound c → Sound (close_now c)
unfolding Sound close_now finish_closing
close_now-Sound c h =
    fail_all-Sound (is_some c.fatal) c.our_initial_window (http2_error http2_protocol) c.streams h

pub close-Sound : (c : Http2Connection) → Sound c → Sound (close c)
unfolding close
close-Sound c h = if_holds Sound c.closed h (close_now-Sound c h)
