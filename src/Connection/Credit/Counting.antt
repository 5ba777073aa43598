-- ===== src/Connection/Credit/Counting.antt =====
-- src/http2/connection.js: the bytes that count in the account of a stream, and a connection that dies.
use tunnelfetch.Prelude.{
  ℕ, ◌+◌, Bool, true, false, not, ◌&&◌, ◌≡◌, refl, sym, ap, ◌∙◌, inl, inr, Bool-cases, if_cases,
  Option, none, some, none≢some, List, [], ◌∷◌, ◌==◌, if◌then◌else◌, length, arith,
}
use tunnelfetch.Prelude.Int.{ℤ}
use mathlib.Core.Path.{subst}
use tunnelfetch.Errors.{Failure, http2_error, http2_protocol}
use tunnelfetch.Frames.{Frame}
use tunnelfetch.Frames.FrameType
use tunnelfetch.Connection.State.{Stream, Http2Connection, Assembly, is_some, or_else}
use tunnelfetch.Connection.Teardown.{
  if_open, find_object, find_stream, fail_all, remove_stream, reject_stream, fail_stream,
  finish_closing, died_with, die,
}
use tunnelfetch.Connection.Announced.{announced, Calm, Aligned-none}
use tunnelfetch.Connection.Budget.{Kept, same_Kept, die-Kept}
use tunnelfetch.Connection.Credit.{Ledger, Calm-Ledger}

-- The bytes that a frame uses of the window of stream k: those of a DATA frame for it, padding
-- included, that comes while the connection is up and the stream is open.
abbrev pub counts : ℕ → Frame → Http2Connection → Bool
counts k f c =
    not (is_some c.fatal)
    && (f.type == FrameType.data_frames
        && (f.stream_id == k && is_some (find_stream f.stream_id c.streams)))

abbrev pub counted : ℕ → Frame → Http2Connection → ℕ
counted k f c = if counts k f c then length f.payload else 0

pub Kept-Calm : (o c : Http2Connection) → Kept o c → Calm o c
unfolding Kept
Kept-Calm o c h = h.5

pub Kept-Ledger :
    (k used : ℕ) (o c : Http2Connection) → Kept o c → Ledger k used o → Ledger k used c
Kept-Ledger k used o c h l = Calm-Ledger k used o c (Kept-Calm o c h) l

-- What is no part of the account.
pub besides-Ledger :
    (k used : ℕ) (w : ℤ) (a : Option Assembly) (b : Bool) (c : Http2Connection)
    → Ledger k used c
    → Ledger k used (record c { conn_recv_window = w; assembling = a; expect_first_settings = b })
unfolding Ledger announced
besides-Ledger k used w a b c l = l

pub die-Ledger :
    (k used : ℕ) (e : Option Failure) (c : Http2Connection)
    → Ledger k used c
    → Ledger k used (die e c)
die-Ledger k used e c l = Kept-Ledger k used c _ (die-Kept c e c (same_Kept c)) l

fail_all-closed :
    (k : ℕ) (e : Failure) (ss : List Stream) (s : Stream)
    → find_object k (fail_all e ss) ≡ some s
    → s.closed ≡ true
unfolding fail_all fail_stream remove_stream reject_stream find_object
fail_all-closed k e [] s f = absurd (none≢some s f)
fail_all-closed k e (t ∷ ss) s f =
    let t' = if t.closed then t else fail_stream e t in
    let shut : t'.closed ≡ true =
      if_cases (λ (u : Stream). u.closed ≡ true) t.closed (λ y. y) (λ n. refl) in
    if_cases (λ (o : Option Stream). o ≡ some s → s.closed ≡ true) (t'.id == k)
      (λ y g. ap (λ o. (or_else o t').closed) (sym g) ∙ shut) (λ n g. fail_all-closed k e ss s g) f

die-found :
    (k : ℕ) (e : Option Failure) (c : Http2Connection)
    → find_object k (die e c).streams ≡ none
    → find_object k c.streams ≡ none
unfolding Calm
die-found k e c n =
    Aligned-none k c.streams (die e c).streams
      (Kept-Calm c (die e c) (die-Kept c e c (same_Kept c))).3 n

die-closed :
    (k : ℕ) (e : Option Failure) (c : Http2Connection) (s : Stream)
    → is_some c.fatal ≡ false
    → find_object k (die e c).streams ≡ some s
    → s.closed ≡ true
unfolding die died_with finish_closing
die-closed k e c s up =
    if_cases (λ (d : Http2Connection). find_object k d.streams ≡ some s → s.closed ≡ true)
      (is_some c.fatal) (λ y g. absurd (cc (y, up)))
      (λ n g. fail_all-closed k (or_else e (http2_error http2_protocol)) c.streams s g)

-- A connection that dies has no open stream, whatever came.
pub died-Ledger :
    (k used came : ℕ) (e : Option Failure) (t : Stream) (c : Http2Connection)
    → Ledger k used c
    → is_some c.fatal ≡ false
    → find_object k c.streams ≡ some t
    → Ledger k came (die e c)
unfolding Ledger
died-Ledger k used came e t c l up f =
    let l' = die-Ledger k used e c l in
    (
      λ n. absurd (none≢some t (sym (die-found k e c n) ∙ f)),
      λ s g open_. absurd (cc (open_, die-closed k e c s up g)),
      l'.2,
      l'.3,
    )

-- The object of an open stream.
pub find_stream-facts :
    (id : ℕ) (ss : List Stream) (s : Stream)
    → find_stream id ss ≡ some s
    → (find_object id ss ≡ some s) × (s.closed ≡ false)
unfolding find_stream
find_stream-facts id ss s e = facts (find_object id ss) e
  where
    facts : (o : Option Stream) → if_open o ≡ some s → (o ≡ some s) × (s.closed ≡ false)
    facts none e = absurd (none≢some s e)
    facts (some t) e =
        if_cases (λ (o : Option Stream). o ≡ some s → (some t ≡ some s) × (s.closed ≡ false))
          t.closed (λ y e. absurd (none≢some s e))
          (λ n e. (e, ap (λ o. (or_else o t).closed) (sym e) ∙ n)) e

counting :
    (up data_ this : Bool) (o : Option Stream)
    → (up && (data_ && (this && is_some o))) ≡ true
    → (up ≡ true) × (this ≡ true) × ((s : Stream) × (o ≡ some s))
counting true true true (some s) h = (refl, refl, (s, refl))
counting true true true none h = absurd (cc h)
counting true true false o h = absurd (cc h)
counting true false this o h = absurd (cc h)
counting false data_ this o h = absurd (cc h)

-- A connection that dies of a frame.
pub die-counted :
    (k used : ℕ) (f : Frame) (e : Option Failure) (c : Http2Connection)
    → Ledger k used c
    → Ledger k (used + counted k f c) (die e c)
die-counted k used f e c l = elim (Bool-cases (counts k f c)) [
  | inr n ↦
      let same : used ≡ used + counted k f c = rw n (omega arith) in
      subst (λ u. Ledger k u (die e c)) same (die-Ledger k used e c l)
  | inl y ↦
      let (up, this, (s, found)) =
        counting (not (is_some c.fatal)) (f.type == FrameType.data_frames) (f.stream_id == k)
          (find_stream f.stream_id c.streams) y in
      let i : f.stream_id ≡ k = ground arith in
      let here =
        subst (λ n. find_object n c.streams ≡ some s) i
          (find_stream-facts f.stream_id c.streams s found).0 in
      died-Ledger k used (used + counted k f c) e s c l (ground arith) here
]
