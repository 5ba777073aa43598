-- ===== src/Connection/Credit/Runs.antt =====
-- src/http2/connection.js: every sequence of operations keeps the account of a stream.
use tunnelfetch.Prelude.{
  ℕ, ◌+◌, ◌≤◌, false, ◌≡◌, refl, sym, ap, ◌∙◌, ◌⊎◌, inl, inr, Bool-cases, if_holds, if_true,
  if_false, option_holds, Option, none, some, none≢some, List, [], ◌∷◌, ltb, ◌==◌, arith,
}
use tunnelfetch.Prelude.Int.{pos_part, neg_part}
use mathlib.Core.Path.{subst}
use tunnelfetch.Bytes.{Bytes}
use tunnelfetch.Frames.Setting
use tunnelfetch.Connection.State.{
  Stream, Http2Connection, Options, new_connection, preface, first_setting, last_setting, or_else,
  first_some, client_initial_window_size, default_initial_window,
}
use tunnelfetch.Connection.Teardown.{find_object, die, close}
use tunnelfetch.Connection.Fields.{Platform, Request}
use tunnelfetch.Connection.Receiving.{receive}
use tunnelfetch.Connection.Sending.{create_stream, request}
use tunnelfetch.Connection.Consuming.{pull_from, pull, holds_body}
use tunnelfetch.Connection.Running.{
  StreamOp, sends, pulls, cancels, fails, aborts, apply_on, Op, requests, arrives, breaks, closes,
  on_stream, apply, run,
}
use tunnelfetch.Connection.Announced.{told, announced}
use tunnelfetch.Connection.Budget.{same_Kept, close-Kept, found-Stands, find_object-id}
use tunnelfetch.Connection.Budget.Sending.{
  opened, request-Kept, send_body-Kept, send_failed-Kept, abort-Kept, pull_end-Kept, cancel-Kept,
}
use tunnelfetch.Connection.Credit.{Below, Ledger}
use tunnelfetch.Connection.Credit.Counting.{counted, Kept-Ledger, die-Ledger}
use tunnelfetch.Connection.Credit.Arriving.{Below-found}
use tunnelfetch.Connection.Credit.Data.{pull_chunk-Ledger}
use tunnelfetch.Connection.Credit.Frames.{receive-Ledger}

-- What an operation uses of the window of stream k, and a sequence of them.
abbrev pub used_by : ℕ → Op → Http2Connection → ℕ
used_by k (requests r aborted) c = 0
used_by k (arrives none) c = 0
used_by k (arrives (some f)) c = counted k f c
used_by k (breaks e) c = 0
used_by k closes c = 0
used_by k (on_stream id op) c = 0

unfoldable pub used : Platform → ℕ → List Op → Http2Connection → ℕ
used platform k [] c = 0
used platform k (op ∷ ops) c = used_by k op c + used platform k ops (apply platform op c)

Below-next : (next : ℕ) (ss : List Stream) → Below next ss → find_object next ss ≡ none
unfolding find_object
Below-next next [] b = refl
Below-next next (s ∷ ss) b =
    let other : (s.id == next) ≡ false = ground (arith, b.0.1) in
    if_false (some s) (find_object next ss) other ∙ Below-next next ss b.1

more-Below : (m n : ℕ) (ss : List Stream) → m ≤ n → Below m ss → Below n ss
more-Below m n [] le b = tt
more-Below m n (s ∷ ss) le b = ((b.0.0, omega (arith, b.0.1, le)), more-Below m n ss le b.1)

opened-Ledger :
    (k u : ℕ) (r : Request) (c : Http2Connection) → Ledger k u c → Ledger k u (opened r c)
unfolding Ledger announced find_object create_stream
opened-Ledger k u r c l = elim (Bool-cases (c.next_stream_id == k)) [
  | inl y ↦
      let i : c.next_stream_id ≡ k = ground arith in
      let fresh : find_object k c.streams ≡ none =
        subst (λ n. find_object n c.streams ≡ none) i (Below-next c.next_stream_id c.streams l.2) in
      let (a, z) = l.0 fresh in
      let s = create_stream c.next_stream_id r.method c in
      (
        λ e. absurd (none≢some s (sym e ∙ if_true (some s) (find_object k c.streams) y)),
        λ v e open_.
            (let same : s ≡ v =
                ap (λ o. or_else o s) (sym (if_true (some s) (find_object k c.streams) y) ∙ e) in
              subst
                (λ (x : Stream).
                  (neg_part x.recv_window ≡ 0)
                  × (told k default_initial_window c.written + x.recv_consumed
                      ≡ pos_part x.recv_window + u))
                same (refl, omega (arith, a, z))),
        ((l.3, omega arith), more-Below c.next_stream_id _ c.streams (omega arith) l.2),
        omega (arith, l.3),
      )
  | inr n ↦
      let s = create_stream c.next_stream_id r.method c in
      let skip = if_false (some s) (find_object k c.streams) n in
      (
        λ e. l.0 (sym skip ∙ e),
        λ v e open_. l.1 v (sym skip ∙ e) open_,
        ((l.3, omega arith), more-Below c.next_stream_id _ c.streams (omega arith) l.2),
        omega (arith, l.3),
      )
]

pull-Ledger :
    (k u : ℕ) (queue : List Bytes) (s : Stream) (c : Http2Connection)
    → Ledger k u c
    → find_object s.id c.streams ≡ some s
    → Ledger k u (pull_from queue s c)
unfolding pull_from
pull-Ledger k u [] s c l f =
    Kept-Ledger k u c _ (pull_end-Kept c s.body_error s c (same_Kept c) (found-Stands s.id s c f)) l
pull-Ledger k u (chunk ∷ queue) s c l f =
    pull_chunk-Ledger k u chunk queue s c l f (Below-found k u s.id s c l f).0

plus_zero : (n : ℕ) → n ≡ n + 0
plus_zero n = omega arith

module _ (platform : Platform) (k : ℕ) where
  ended-Ledger : (u : ℕ) (c : Http2Connection) → Ledger k u c → Ledger k u (receive platform none c)
  unfolding receive
  ended-Ledger u c l = die-Ledger k u _ c l

  apply_on-Ledger :
      (op : StreamOp) (u id : ℕ) (s : Stream) (c : Http2Connection)
      → Ledger k u c
      → find_object id c.streams ≡ some s
      → Ledger k u (apply_on op s c)
  unfolding apply_on pull
  apply_on-Ledger sends u id s c l e =
      Kept-Ledger k u c _ (send_body-Kept c s c (same_Kept c) (found-Stands id s c e)) l
  apply_on-Ledger (fails x) u id s c l e =
      Kept-Ledger k u c _ (send_failed-Kept c x s c (same_Kept c) (found-Stands id s c e)) l
  apply_on-Ledger (aborts x) u id s c l e =
      Kept-Ledger k u c _ (abort-Kept c x s c (same_Kept c) (found-Stands id s c e)) l
  apply_on-Ledger pulls u id s c l e =
      let i = find_object-id id c.streams s e in
      if_holds (Ledger k u) (holds_body s)
        (pull-Ledger k u s.recv_queue s c l
          (subst (λ n. find_object n c.streams ≡ some s) (sym i) e))
        l
  apply_on-Ledger cancels u id s c l e =
      if_holds (Ledger k u) (holds_body s)
        (Kept-Ledger k u c _ (cancel-Kept c s c (same_Kept c) (found-Stands id s c e)) l) l

  apply-Ledger :
      (u : ℕ) (op : Op) (c : Http2Connection)
      → Ledger k u c
      → Ledger k (u + used_by k op c) (apply platform op c)
  unfolding apply
  apply-Ledger u (arrives (some f)) c l = receive-Ledger platform k u f c l
  apply-Ledger u (requests r aborted) c l =
      subst (λ n. Ledger k n (request platform r aborted c).1) (plus_zero u)
        (request-Kept platform (Ledger k u) r aborted c l
          (λ d h. Kept-Ledger k u (opened r c) d h (opened-Ledger k u r c l)))
  apply-Ledger u (arrives none) c l =
      subst (λ n. Ledger k n (receive platform none c)) (plus_zero u) (ended-Ledger u c l)
  apply-Ledger u (breaks e) c l =
      subst (λ n. Ledger k n (die (some e) c)) (plus_zero u) (die-Ledger k u (some e) c l)
  apply-Ledger u closes c l =
      subst (λ n. Ledger k n (close c)) (plus_zero u)
        (Kept-Ledger k u c _ (close-Kept c c (same_Kept c)) l)
  apply-Ledger u (on_stream id op) c l =
      option_holds (Ledger k (u + 0)) (find_object id c.streams)
        (subst (λ n. Ledger k n c) (plus_zero u) l)
        (λ s e.
          subst (λ n. Ledger k n (apply_on op s c)) (plus_zero u) (apply_on-Ledger op u id s c l e))

  pub run-Ledger :
      (u : ℕ) (ops : List Op) (c : Http2Connection)
      → Ledger k u c
      → Ledger k (u + used platform k ops c) (run platform ops c)
  unfolding run used
  run-Ledger u [] c l = subst (λ n. Ledger k n c) (plus_zero u) l
  run-Ledger u (op ∷ ops) c l =
      let c' = apply platform op c in
      subst (λ n. Ledger k n (run platform ops c')) (omega arith)
        (run-Ledger (u + used_by k op c) ops c' (apply-Ledger u op c l))

-- The flight of settings, where one is given, names the initial window, by one value, and the option
-- for it, where given, is the same.
abbrev pub Names : Option ℕ → Option (List (ℕ × ℕ)) → Type 0
Names size none = Unit
Names size (some flight) =
    (w : ℕ) × (first_setting 4 flight ≡ some w)
    × (last_setting 4 flight ≡ some w)
    × ((size ≡ none) ⊎ (size ≡ some w))

abbrev pub IsConsistent : Options → Type 0
IsConsistent opts = Names opts.initial_window_size opts.settings

told-preface :
    (k conn_window : ℕ) (flight : List (ℕ × ℕ))
    → told k default_initial_window (preface flight conn_window)
      ≡ or_else (last_setting 4 flight) default_initial_window
unfolding told preface
told-preface k conn_window flight =
    if_holds
      (λ ws.
        told k default_initial_window ws ≡ or_else (last_setting 4 flight) default_initial_window)
      (ltb default_initial_window conn_window) refl refl

opening_told :
    (size : Option ℕ) (settings : Option (List (ℕ × ℕ))) (concurrent : ℕ)
    → Names size settings
    → let window =
        or_else
          (first_some size (first_setting 4 (or_else settings [])))
          client_initial_window_size in
      let flight = or_else settings (
        (Setting.max_concurrent_streams, concurrent)
        ∷ (Setting.initial_window_size, window)
        ∷ (Setting.enable_push, 0)
        ∷ []) in
      or_else (last_setting 4 flight) default_initial_window ≡ window
unfolding first_setting last_setting
opening_told size none concurrent h = refl
opening_told size (some flight) concurrent (w, first, last, inl e) = rw (first, last, e) refl
opening_told size (some flight) concurrent (w, first, last, inr e) = rw (first, last, e) refl

pub new_connection-Ledger :
    (k : ℕ) (opts : Options) → IsConsistent opts → Ledger k 0 (new_connection opts)
unfolding Ledger announced new_connection find_object
new_connection-Ledger k opts h = (
  λ e. (told-preface k _ _ ∙ opening_told opts.initial_window_size opts.settings _ h, refl),
  λ s e open_. absurd (none≢some s e),
  tt,
  omega arith,
)
