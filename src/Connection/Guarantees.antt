-- ===== src/Connection/Guarantees.antt =====
-- src/http2/connection.js: what requests and consumers may rely on, whatever the peer does.
use tunnelfetch.Prelude.{
  length, ◌*◌, ℕ, ◌≤◌, Bool, true, not, ◌||◌, ◌≡◌, refl, if_cases, Option, none, some, List, [],
  ◌∷◌, All, arith,
}
use mathlib.Core.Path.{subst}
use tunnelfetch.Bytes.{Bytes}
use tunnelfetch.Errors.{Failure}
use tunnelfetch.Connection.State.{Assembly}
use tunnelfetch.Connection.Budget.{queued}
use tunnelfetch.Connection.Budget.Balance.{charged, Framed, IsBalanced}
use tunnelfetch.Connection.Budget.Runs.{run-IsBalanced, new_connection-IsBalanced}
use tunnelfetch.Connection.State.{Stream, Http2Connection, Options, new_connection, is_some}
use tunnelfetch.Connection.Teardown.{die, died_with, finish_closing}
use tunnelfetch.Connection.Fields.{Platform}
use tunnelfetch.Connection.Receiving.Head.{exempt, length_agrees}
use tunnelfetch.Connection.Receiving.{receive}
use tunnelfetch.Connection.Running.{Op, run}
use tunnelfetch.Connection.Soundness.{is_settled, is_sound, is_whole, Sound, die-Sound}
use tunnelfetch.Connection.Soundness.Runs.{run-Sound, new_connection-Sound}

map-All :
    {P Q : Stream → Type 0} (ss : List Stream) → ((s : Stream) → P s → Q s) → All P ss → All Q ss
map-All [] f h = tt
map-All (s ∷ ss) f h = (f s h.0, map-All ss f h.1)

die-is_fatal : (err : Option Failure) (c : Http2Connection) → is_some (die err c).fatal ≡ true
unfolding die died_with finish_closing
die-is_fatal err c =
    if_cases (λ (d : Http2Connection). is_some d.fatal ≡ true) (is_some c.fatal) (λ f. f)
      (λ f. refl)

sound_settled : (init : ℕ) (s : Stream) → is_sound true init s ≡ true → is_settled s.head ≡ true
unfolding is_sound
sound_settled init s h = ground arith

sound_whole :
    (dead : Bool) (init : ℕ) (s : Stream) → is_sound dead init s ≡ true → is_whole s ≡ true
unfolding is_sound
sound_whole dead init s h = ground arith

-- Whatever happened to a connection, when its transport ends every request it ever took has been
-- answered or has failed: no promise of a response head stays pending.
pub heads_settle :
    (platform : Platform) (opts : Options) (ops : List Op)
    → All
        (λ s. is_settled s.head ≡ true)
        (receive platform none (run platform ops (new_connection opts))).streams
unfolding receive Sound
heads_settle platform opts ops =
    let c = run platform ops (new_connection opts) in
    let d = receive platform none c in
    let h = die-Sound _ c (run-Sound platform ops _ (new_connection-Sound opts)) in
    map-All d.streams
      (λ s p.
        sound_settled d.our_initial_window s
          (subst (λ b. is_sound b d.our_initial_window s ≡ true) (die-is_fatal _ c) p))
      h

-- Whatever happened to a connection: if the receive half of a stream has ended and the stream has no
-- error, then it is a response to which a declared length says nothing (to HEAD, or 204 or 304), or
-- none was declared, or the bytes received are as many as were declared.
pub ended_is_whole :
    (platform : Platform) (opts : Options) (ops : List Op)
    → All
        (λ s. (not s.recv_ended || is_some s.body_error || exempt s || length_agrees s) ≡ true)
        (run platform ops (new_connection opts)).streams
unfolding Sound is_whole
ended_is_whole platform opts ops =
    let c = run platform ops (new_connection opts) in
    map-All c.streams (λ s p. sound_whole (is_some c.fatal) c.our_initial_window s p)
      (run-Sound platform ops _ (new_connection-Sound opts))

-- Whatever happened to a connection and whatever its consumers do, the bytes that wait in the queues of
-- all its streams are no more than its connection window.
pub queues_are_bounded :
    (platform : Platform) (opts : Options) (ops : List Op)
    → let c = run platform ops (new_connection opts) in queued c.streams ≤ c.our_conn_window
unfolding IsBalanced
queues_are_bounded platform opts ops =
    (run-IsBalanced platform ops (new_connection opts) (new_connection-IsBalanced opts)).0

charged_le : (fs : List Bytes) → length fs * 256 ≤ charged fs
charged_le [] = omega arith
charged_le (f ∷ fs) = omega (arith, charged_le fs)

-- Whatever happened to a connection: while a header block is put together, its fragments are held
-- within the cap, with 256 bytes charged for each of them, so that there are no more fragments than
-- the cap has room for such charges, empty ones included.
pub header_block_is_bounded :
    (platform : Platform) (opts : Options) (ops : List Op) (a : Assembly)
    → let c = run platform ops (new_connection opts) in
      c.assembling ≡ some a
      → (charged a.fragments ≤ c.max_header_block_bytes)
        × (length a.fragments * 256 ≤ c.max_header_block_bytes)
unfolding IsBalanced
header_block_is_bounded platform opts ops a e =
    let c = run platform ops (new_connection opts) in
    let b = run-IsBalanced platform ops (new_connection opts) (new_connection-IsBalanced opts) in
    let f = subst (λ o. Framed o c.max_header_block_bytes) e b.2 in
    (omega (arith, f.0, f.1), omega (arith, f.0, f.1, charged_le a.fragments))
