-- ===== src/Connection/Announced.antt =====
-- src/http2/connection.js: the receive window that the peer knows of, as what is written announces it,
-- and what leaves it as it is.
use tunnelfetch.Prelude.{
  ℕ, ◌+◌, Bool, true, false, not, ◌&&◌, ◌≡◌, refl, sym, ap, ◌∙◌, ◌⊎◌, inl, inr, Bool-cases, none,
  some, none≢some, if_true, if_false, List, [], ◌∷◌, ◌++◌, ◌==◌, if◌then◌else◌, All, arith,
}
use mathlib.Core.Path.{subst}
use tunnelfetch.Frames.Setting
use tunnelfetch.Connection.State.{
  Stream, Http2Connection, Written, magic, settings, window_update, rst_stream, ping_ack, goaway,
  headers, continuation, data_of, last_setting, or_else, default_initial_window,
}
use tunnelfetch.Connection.Teardown.{find_object, put_stream}

-- What one frame makes of the window of a stream: settings give the initial window, of which the last
-- value counts, and an update adds to the window of its stream.
abbrev pub told_by : ℕ → ℕ → Written → ℕ
told_by id w magic = w
told_by id w (settings entries true) = w
told_by id w (settings entries false) = or_else (last_setting Setting.initial_window_size entries) w
told_by id w (window_update i inc) = if not (i == 0) && i == id then w + inc else w
told_by id w (rst_stream i code) = w
told_by id w (ping_ack opaque) = w
told_by id w (goaway last code) = w
told_by id w (headers i block end_stream end_headers priority) = w
told_by id w (continuation i block end_headers) = w
told_by id w (data_of i payload end_stream) = w

unfoldable pub told : ℕ → ℕ → List Written → ℕ
told id w [] = w
told id w (v ∷ vs) = told id (told_by id w v) vs

-- The window of a stream that the peer has been told in all, with what it has used of it.
unfoldable pub announced : ℕ → Http2Connection → ℕ
announced id c = told id default_initial_window c.written

-- A frame that tells of no window of a stream.
abbrev pub is_silent : Written → Bool
is_silent magic = true
is_silent (settings entries ack) = ack
is_silent (window_update i inc) = i == 0
is_silent (rst_stream i code) = true
is_silent (ping_ack opaque) = true
is_silent (goaway last code) = true
is_silent (headers i block end_stream end_headers priority) = true
is_silent (continuation i block end_headers) = true
is_silent (data_of i payload end_stream) = true

silent-told_by : (id w : ℕ) (v : Written) → is_silent v ≡ true → told_by id w v ≡ w
silent-told_by id w magic h = refl
silent-told_by id w (settings entries true) h = refl
silent-told_by id w (settings entries false) h = absurd (cc h)
silent-told_by id w (window_update i inc) h = rw h refl
silent-told_by id w (rst_stream i code) h = refl
silent-told_by id w (ping_ack opaque) h = refl
silent-told_by id w (goaway last code) h = refl
silent-told_by id w (headers i block end_stream end_headers priority) h = refl
silent-told_by id w (continuation i block end_headers) h = refl
silent-told_by id w (data_of i payload end_stream) h = refl

pub told-append :
    (id w : ℕ) (vs ws : List Written) → told id w (vs ++ ws) ≡ told id (told id w vs) ws
unfolding told
told-append id w [] ws = refl
told-append id w (v ∷ vs) ws = told-append id (told_by id w v) vs ws

abbrev pub IsSilent : List Written → Type 0
IsSilent ws = All (λ w. is_silent w ≡ true) ws

silent-told : (id w : ℕ) (ws : List Written) → IsSilent ws → told id w ws ≡ w
unfolding told
silent-told id w [] h = refl
silent-told id w (v ∷ vs) h =
    ap (λ x. told id x vs) (silent-told_by id w v h.0) ∙ silent-told id w vs h.1

-- What becomes of a stream object where its window is left alone: it is closed, or as it was.
abbrev pub Like : Stream → Stream → Type 0
Like t s =
    (s.closed ≡ true)
    ⊎ ((t.closed ≡ s.closed)
        × (s.recv_window ≡ t.recv_window)
        × (s.recv_consumed ≡ t.recv_consumed))

abbrev pub Aligned : List Stream → List Stream → Type 0
Aligned [] [] = Unit
Aligned [] (s ∷ ss) = true ≡ false
Aligned (t ∷ ts) [] = true ≡ false
Aligned (t ∷ ts) (s ∷ ss) = (s.id ≡ t.id) × Like t s × Aligned ts ss

Like-trans : (r t s : Stream) → Like r t → Like t s → Like r s
Like-trans r t s p (inl closed) = inl closed
Like-trans r t s (inl closed) (inr q) = inl (sym q.0 ∙ closed)
Like-trans r t s (inr p) (inr q) = inr (p.0 ∙ q.0, q.1 ∙ p.1, q.2 ∙ p.2)

pub Aligned-refl : (ss : List Stream) → Aligned ss ss
Aligned-refl [] = tt
Aligned-refl (s ∷ ss) = (refl, inr (refl, refl, refl), Aligned-refl ss)

pub Aligned-trans : (rs ts ss : List Stream) → Aligned rs ts → Aligned ts ss → Aligned rs ss
Aligned-trans [] [] [] p q = tt
Aligned-trans [] [] (s ∷ ss) p q = absurd (cc q)
Aligned-trans [] (t ∷ ts) ss p q = absurd (cc p)
Aligned-trans (r ∷ rs) [] ss p q = absurd (cc p)
Aligned-trans (r ∷ rs) (t ∷ ts) [] p q = absurd (cc q)
Aligned-trans (r ∷ rs) (t ∷ ts) (s ∷ ss) p q =
    (q.0 ∙ p.0, Like-trans r t s p.1 q.1, Aligned-trans rs ts ss p.2 q.2)

pub Aligned-put :
    (s t : Stream) (ss : List Stream)
    → find_object s.id ss ≡ some t
    → Like t s
    → Aligned ss (put_stream s ss)
unfolding find_object put_stream
Aligned-put s t [] e l = tt
Aligned-put s t (u ∷ ss) e l = elim (Bool-cases (u.id == s.id)) [
  | inl y ↦
      let found : u ≡ t =
        ap (λ o. or_else o u) (sym (if_true (some u) (find_object s.id ss) y) ∙ e) in
      let i : s.id ≡ u.id = ground arith in
      rw y (i, subst (λ v. Like v s) (sym found) l, Aligned-refl ss)
  | inr n ↦ rw n (
    refl,
    inr (refl, refl, refl),
    Aligned-put s t ss (sym (if_false (some u) (find_object s.id ss) n) ∙ e) l,
  )
]

-- An object of the one list is like that of the other.
pub Aligned-some :
    (id : ℕ) (ts ss : List Stream) (s : Stream)
    → Aligned ts ss
    → find_object id ss ≡ some s
    → (t : Stream) × (find_object id ts ≡ some t) × Like t s
unfolding find_object
Aligned-some id [] [] s a e = absurd (none≢some s e)
Aligned-some id [] (v ∷ ss) s a e = absurd (cc a)
Aligned-some id (t ∷ ts) [] s a e = absurd (cc a)
Aligned-some id (t ∷ ts) (v ∷ ss) s a e = elim (Bool-cases (v.id == id)) [
  | inl y ↦
      let found : v ≡ s =
        ap (λ o. or_else o v) (sym (if_true (some v) (find_object id ss) y) ∙ e) in
      let y' : (t.id == id) ≡ true = ground arith in
      (t, if_true (some t) (find_object id ts) y', subst (Like t) found a.1)
  | inr n ↦
      let n' : (t.id == id) ≡ false = ground arith in
      let (u, f, l) =
        Aligned-some id ts ss s a.2 (sym (if_false (some v) (find_object id ss) n) ∙ e) in
      (u, if_false (some t) (find_object id ts) n' ∙ f, l)
]

pub Aligned-none :
    (id : ℕ) (ts ss : List Stream)
    → Aligned ts ss
    → find_object id ss ≡ none
    → find_object id ts ≡ none
unfolding find_object
Aligned-none id [] [] a e = refl
Aligned-none id [] (v ∷ ss) a e = absurd (cc a)
Aligned-none id (t ∷ ts) [] a e = absurd (cc a)
Aligned-none id (t ∷ ts) (v ∷ ss) a e = elim (Bool-cases (v.id == id)) [
  | inl y ↦ absurd (none≢some v (sym e ∙ if_true (some v) (find_object id ss) y))
  | inr n ↦
      let n' : (t.id == id) ≡ false = ground arith in
      if_false (some t) (find_object id ts) n'
      ∙ Aligned-none id ts ss a.2 (sym (if_false (some v) (find_object id ss) n) ∙ e)
]

-- No window of a stream is touched, and none is opened.
unfoldable pub Calm : Http2Connection → Http2Connection → Type 0
unfolding announced
Calm o c =
    (c.our_initial_window ≡ o.our_initial_window)
    × (c.next_stream_id ≡ o.next_stream_id)
    × ((id : ℕ) → announced id c ≡ announced id o)
    × Aligned o.streams c.streams

pub same_Calm : (c : Http2Connection) → Calm c c
unfolding Calm
same_Calm c = (refl, refl, λ id. refl, Aligned-refl c.streams)

pub written-Calm :
    (o : Http2Connection) (ws : List Written) (c : Http2Connection)
    → Calm o c
    → IsSilent ws
    → Calm o (record c { written = c.written ++ ws })
unfolding Calm announced
written-Calm o ws c h q = (
  h.0,
  h.1,
  λ id. told-append id default_initial_window c.written ws ∙ silent-told id _ ws q ∙ h.2 id,
  h.3,
)

pub streams-Calm :
    (o : Http2Connection) (ss : List Stream) (c : Http2Connection)
    → Calm o c
    → Aligned c.streams ss
    → Calm o (record c { streams = ss })
unfolding Calm announced
streams-Calm o ss c h a = (h.0, h.1, h.2, Aligned-trans o.streams c.streams ss h.3 a)
