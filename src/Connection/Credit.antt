-- ===== src/Connection/Credit.antt =====
-- src/http2/connection.js: the account of the window of one stream, as its peer keeps it: what was
-- announced, less the bytes of the DATA frames that came for it.
pub mod Writing
pub mod Data
pub mod Counting
pub mod Arriving
pub mod Frames
pub mod Runs
use tunnelfetch.Prelude.{
  ℕ, ◌+◌, ◌≤◌, ◌<◌, ◌≡◌, ◌≢◌, refl, sym, ap, ◌∙◌, inl, inr, true, false, Bool-cases, Option, none,
  some, none≢some, List, [], ◌∷◌, ◌++◌, ◌==◌, if◌then◌else◌, All, arith, if_holds,
}
use tunnelfetch.Prelude.Int.{pos_part, neg_part}
use mathlib.Core.Path.{subst}
use tunnelfetch.Connection.State.{Stream, Http2Connection, or_else}
use tunnelfetch.Connection.Teardown.{find_object, put_stream}
use tunnelfetch.Connection.Announced.{announced, Like, Aligned, Aligned-none, Aligned-some, Calm}
use tunnelfetch.Connection.Budget.{put_stream-found, put_stream-other}

-- The ids in use.
abbrev pub Below : ℕ → List Stream → Type 0
Below next ss = All (λ s. (1 ≤ s.id) × (s.id < next)) ss

-- The account of stream k, for which DATA frames of `used` bytes have come since it was opened: before
-- it is opened its window is the initial one; and while it is open, what the peer may still send, with
-- what was consumed and is not announced yet, is the window that is accounted for.
unfoldable pub Ledger : ℕ → ℕ → Http2Connection → Type 0
unfolding announced
Ledger k used c =
    (find_object k c.streams ≡ none → (announced k c ≡ c.our_initial_window) × (used ≡ 0))
    × ((s : Stream)
        → find_object k c.streams ≡ some s
        → s.closed ≡ false
        → (neg_part s.recv_window ≡ 0)
          × (announced k c + s.recv_consumed ≡ pos_part s.recv_window + used))
    × Below c.next_stream_id c.streams
    × (1 ≤ c.next_stream_id)

Aligned-Below : (next : ℕ) (ts ss : List Stream) → Aligned ts ss → Below next ts → Below next ss
Aligned-Below next [] [] a b = tt
Aligned-Below next [] (s ∷ ss) a b = absurd (cc a)
Aligned-Below next (t ∷ ts) [] a b = absurd (cc a)
Aligned-Below next (t ∷ ts) (s ∷ ss) a b =
    let i : s.id ≡ t.id = a.0 in
    ((omega (arith, i, b.0.0), omega (arith, i, b.0.1)), Aligned-Below next ts ss a.2 b.1)

-- What leaves the windows alone leaves the account.
pub Calm-Ledger :
    (k used : ℕ) (o c : Http2Connection) → Calm o c → Ledger k used o → Ledger k used c
unfolding Calm Ledger
Calm-Ledger k used o c h l = (
  λ e. let (a, z) = l.0 (Aligned-none k o.streams c.streams h.3 e) in (h.2 k ∙ a ∙ sym h.0, z),
  λ s e open_. open_account s e open_,
  subst (λ n. Below n c.streams) (sym h.1) (Aligned-Below o.next_stream_id _ _ h.3 l.2),
  omega (arith, h.1, l.3),
)
  where
    open_account :
        (s : Stream)
        → find_object k c.streams ≡ some s
        → s.closed ≡ false
        → (neg_part s.recv_window ≡ 0)
          × (announced k c + s.recv_consumed ≡ pos_part s.recv_window + used)
    open_account s e open_ =
        let (t, f, like) = Aligned-some k o.streams c.streams s h.3 e in
        elim like [
          | inl closed ↦ absurd (cc (closed, open_))
          | inr same ↦
              let (n, a) = l.1 t f (same.0 ∙ open_) in
              let p : pos_part s.recv_window ≡ pos_part t.recv_window = ap pos_part same.1 in
              (ap neg_part same.1 ∙ n, omega (arith, h.2 k, a, p, same.2))
        ]

-- One object is put in the place of another, and `granted` bytes are announced for it.
abbrev pub Moves : Stream → ℕ → Http2Connection → Http2Connection → Type 0
Moves s granted o d =
    (s' : Stream) × (d.streams ≡ put_stream s' o.streams)
    × (s'.id ≡ s.id)
    × Like s s'
    × (d.our_initial_window ≡ o.our_initial_window)
    × (d.next_stream_id ≡ o.next_stream_id)
    × ((id : ℕ) → announced id d ≡ announced id o + (if s.id == id then granted else 0))

put_stream-Below :
    (next : ℕ) (s : Stream) (ss : List Stream) → Below next ss → Below next (put_stream s ss)
unfolding put_stream
put_stream-Below next s [] b = tt
put_stream-Below next s (t ∷ ss) b = elim (Bool-cases (t.id == s.id)) [
  | inl y ↦
      let i : t.id ≡ s.id = ground arith in
      rw y ((omega (arith, i, b.0.0), omega (arith, i, b.0.1)), b.1)
  | inr n ↦ rw n (b.0, put_stream-Below next s ss b.1)
]

-- What is put is what is found, and other ids are as before.
put_stream-finds :
    (k : ℕ) (s t : Stream) (ss : List Stream)
    → find_object s.id ss ≡ some t
    → find_object k (put_stream s ss) ≡ (if s.id == k then some s else find_object k ss)
put_stream-finds k s t ss f = elim (Bool-cases (s.id == k)) [
  | inl y ↦
      let i : s.id ≡ k = ground arith in
      rw y (subst (λ n. find_object n (put_stream s ss) ≡ some s) i (put_stream-found s t ss f))
  | inr n ↦ rw n (put_stream-other s k ss (λ i. ground arith))
]

-- A move keeps the account where the windows of the object that is put, with the bytes that came, are
-- those of the object that was found.
pub Moves-Ledger :
    (k used came granted : ℕ) (s t : Stream) (o d : Http2Connection)
    → Ledger k used o
    → find_object s.id o.streams ≡ some t
    → (s.closed ≡ false
        → (t.closed ≡ false)
          × (neg_part t.recv_window ≡ 0
              → (neg_part s.recv_window ≡ 0)
                × (pos_part t.recv_window + granted + s.recv_consumed
                    ≡ pos_part s.recv_window + came + t.recv_consumed)))
    → Moves s granted o d
    → Ledger k (used + (if s.id == k then came else 0)) d
unfolding Ledger
Moves-Ledger k used came granted s t o d l f w (s', streams, same_id, like, init, next, told) = (
  λ e. unopened (sym found ∙ e),
  λ v e open_. account v (sym found ∙ e) open_,
  subst (λ n. Below n d.streams) (sym next)
      (subst (Below o.next_stream_id) (sym streams) (put_stream-Below _ s' o.streams l.2)),
  omega (arith, next, l.3),
)
  where
    was : find_object s'.id o.streams ≡ some t
    was = subst (λ i. find_object i o.streams ≡ some t) (sym same_id) f

    found : find_object k d.streams ≡ (if s'.id == k then some s' else find_object k o.streams)
    found = ap (find_object k) streams ∙ put_stream-finds k s' t o.streams was

    unopened :
        (if s'.id == k then some s' else find_object k o.streams) ≡ none
        → (announced k d ≡ d.our_initial_window) × (used + (if s.id == k then came else 0) ≡ 0)
    unopened e = elim (Bool-cases (s'.id == k)) [
      | inl y ↦ absurd (none≢some s' (sym (rw y at e)))
      | inr n ↦
          let other : (s.id == k) ≡ false = ground arith in
          let (a, z) = l.0 (rw n at e) in
          (told k ∙ rw other (omega (arith, a, init)), rw other (omega (arith, z)))
    ]

    account :
        (v : Stream)
        → (if s'.id == k then some s' else find_object k o.streams) ≡ some v
        → v.closed ≡ false
        → (neg_part v.recv_window ≡ 0)
          × (announced k d + v.recv_consumed
              ≡ pos_part v.recv_window + (used + (if s.id == k then came else 0)))
    account v e open_ = elim (Bool-cases (s'.id == k)) [
      | inl y ↦
          let this : (s.id == k) ≡ true = ground arith in
          let is : s' ≡ v = ap (λ o. or_else o s') (rw y at e) in
          let shut = ap (λ (x : Stream). x.closed) is ∙ open_ in
          elim like [
            | inl closed ↦ absurd (cc (closed, shut))
            | inr same ↦
                let (opened, moved) = w (same.0 ∙ shut) in
                let here : find_object k o.streams ≡ some t =
                  subst (λ i. find_object i o.streams ≡ some t) (ground arith) f in
                let (n, a) = l.1 t here opened in
                let (n', m) = moved n in
                let window = sym same.1 ∙ ap (λ (x : Stream). x.recv_window) is in
                let consumed = sym same.2 ∙ ap (λ (x : Stream). x.recv_consumed) is in
                let p : pos_part s.recv_window ≡ pos_part v.recv_window = ap pos_part window in
                let g : announced k d ≡ announced k o + granted = told k ∙ rw this refl in
                (sym (ap neg_part window) ∙ n', rw this (omega (arith, g, a, m, p, consumed)))
          ]
      | inr n ↦
          let other : (s.id == k) ≡ false = ground arith in
          let (z, a) = l.1 v (rw n at e) open_ in
          let g : announced k d ≡ announced k o + 0 = told k ∙ rw other refl in
          (z, rw other (omega (arith, g, a)))
    ]
