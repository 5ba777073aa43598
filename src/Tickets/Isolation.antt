-- ===== src/Tickets/Isolation.antt =====
-- A ticket is offered only under the key that it was stored under, and only while it is fresh.
use tunnelfetch.Prelude.{ℕ, zero, suc, ◌+◌, ◌≤◌, ◌<◌, ◌≡◌, sym, ◌∙◌, arith, ◌||◌}
use tunnelfetch.Prelude.{
  Option, none, some, List, [], ◌∷◌, ◌++◌, leb, ◌==◌, if◌then◌else◌, length, take, All, Bool-cases,
  inl, inr, leb→lt,
}
use tunnelfetch.Prelude.Dict.{
  get_list, set_list, delete, Distinct, get_list-set, get_list-delete, Distinct-set,
  Distinct-delete,
}
use tunnelfetch.Errors.{Failure, Result, ok, err, Result-cases, bind_inversion, err≢ok}
use tunnelfetch.Tickets.{
  Number, integer, no_integer, Captured, StoredTicket, TicketStore, new_store, accepted,
  hash_length, integers, kept, store_ticket, put_accepted, put, take_fresh, put_back, take_ticket,
  clear, Op, putting, taking, clearing, Offer, offers_of, after_put, apply, run,
}
use tunnelfetch.Prelude.Int.{ℤ, pos, negsuc}
use Prim.Native.String.{String}
use text.Mathlib.Text.{◌==◌ as str_eq}
use text.Mathlib.TextEquality.{eq_iff}
use mathlib.Core.Path.{subst}

module _ {ℓ} {A : Type ℓ} where
  pub All-append : (P : A → Type 0) (xs ys : List A) → All P xs → All P ys → All P (xs ++ ys)
  All-append P [] ys a b = b
  All-append P (x ∷ xs) ys a b = (a.0, All-append P xs ys a.1 b)

  All-take : (P : A → Type 0) (n : ℕ) (xs : List A) → All P xs → All P (take n xs)
  All-take P zero xs a = tt
  All-take P (suc n) [] a = tt
  All-take P (suc n) (x ∷ xs) a = (a.0, All-take P n xs a.1)

-- The ticket had not reached its lifetime when it was found.
pub Fresh : StoredTicket → ℕ → Type 0
Fresh t now = now < t.received_at_ms + t.lifetime_ms

module _ (P : String → StoredTicket → Type 0) where
  -- What the store must know of a ticket that an operation puts into it.
  unfoldable pub Stores : String → Result (Option StoredTicket) → Type 0
  Stores key (ok (some t)) = P key t
  Stores key (ok none) = Unit
  Stores key (err e) = Unit

  unfoldable pub Puts : Op → Type 0
  Puts (putting key c now) = Stores key (accepted c now)
  Puts (taking key clock) = Unit
  Puts clearing = Unit

  pub Offers : Offer → Type 0
  Offers o = P o.key o.ticket × Fresh o.ticket o.found_at

  record Only (s : TicketStore) : Type 0 where
    distinct : Distinct s.by_key
    held : (k : String) → All (P k) (get_list k s.by_key)

  -- The lists of a store of which one key's list was replaced.
  Only-set :
      (key : String) (ts : List StoredTicket) (s : TicketStore)
      → Only s
      → All (P key) ts
      → Only (record s { by_key = set_list key ts s.by_key })
  Only-set key ts s o a = record {
    distinct = Distinct-set key ts s.by_key o.distinct;
    held = λ k. subst (All (P k)) (sym (get_list-set key k ts s.by_key)) (chosen k);
  }
    where
      chosen : (k : String) → All (P k) (if str_eq key k then ts else get_list k s.by_key)
      chosen k = elim (Bool-cases (str_eq key k)) [
        | inl e ↦ rw e (subst (λ j. All (P j) ts) ((eq_iff key k).0 e) a)
        | inr e ↦ rw e (o.held k)
      ]

  Only-delete :
      (key : String) (s : TicketStore) → Only s → Only (record s { by_key = delete key s.by_key })
  Only-delete key s o = record {
    distinct = Distinct-delete key s.by_key o.distinct;
    held = λ k. subst (All (P k)) (sym (get_list-delete key k s.by_key o.distinct)) (chosen k);
  }
    where
      chosen : (k : String) → All (P k) (if str_eq key k then [] else get_list k s.by_key)
      chosen k = elim (Bool-cases (str_eq key k)) [ inl e ↦ rw e tt | inr e ↦ rw e (o.held k) ]

  put_back-Only :
      (key : String) (ts : List StoredTicket) (s : TicketStore)
      → Only s
      → All (P key) ts
      → Only (put_back key ts s)
  unfolding put_back
  put_back-Only key [] s o a = Only-delete key s o
  put_back-Only key (t ∷ ts) s o a = Only-set key (t ∷ ts) s o a

  Found : String → Option (StoredTicket × ℕ) → Type 0
  Found key none = Unit
  Found key (some (t, at)) = P key t × Fresh t at

  take_fresh-Found :
      (key : String) (clock : ℕ → ℕ) (i : ℕ) (ts : List StoredTicket)
      → All (P key) ts
      → Found key (take_fresh clock i ts).0 × All (P key) (take_fresh clock i ts).1
  unfolding take_fresh Found Fresh
  take_fresh-Found key clock i [] a = (tt, tt)
  take_fresh-Found key clock i (t ∷ ts) a =
      elim (Bool-cases (leb (t.received_at_ms + t.lifetime_ms) (clock i))) [
        | inl old ↦ rw old (take_fresh-Found key clock (i + 1) ts a.1)
        | inr fresh ↦ rw fresh ((a.0, leb→lt _ _ fresh), a.1)
      ]

  offers_of-Offers :
      (key : String) (r : Option (StoredTicket × ℕ)) → Found key r → All Offers (offers_of key r)
  unfolding offers_of Found Offers
  offers_of-Offers key none f = tt
  offers_of-Offers key (some (t, at)) f = (f, tt)

  Stored : Op → TicketStore → Type 0
  Stored o s = All Offers (apply o s).0 × Only (apply o s).1

  put_accepted-Only :
      (key : String) (r : Option StoredTicket) (s : TicketStore)
      → Stores key (ok r)
      → Only s
      → Only (put_accepted key r s).1
  unfolding put_accepted store_ticket Stores
  put_accepted-Only key none s p o = o
  put_accepted-Only key (some t) s p o =
      Only-set key (take s.max_per_key (t ∷ get_list key s.by_key)) s o
        (All-take (P key) s.max_per_key (t ∷ get_list key s.by_key) (p, o.held key))

  apply-kept :
      (key : String) (c : Captured) (now : ℕ) (s : TicketStore) (r : Option StoredTicket)
      → accepted c now ≡ ok r
      → (put_accepted key r s).1 ≡ after_put (put key c now s) s
  unfolding put after_put
  apply-kept key c now s r e = simp e

  apply-refused :
      (key : String) (c : Captured) (now : ℕ) (s : TicketStore) (f : Failure)
      → accepted c now ≡ err f
      → s ≡ after_put (put key c now s) s
  unfolding put after_put
  apply-refused key c now s f e = simp e

  apply-Stored : (o : Op) (s : TicketStore) → Puts o → Only s → Stored o s
  unfolding apply Stored Puts put take_ticket clear get_list
  apply-Stored (putting key c now) s p o = elim (Result-cases (accepted c now)) [
    | inl (r, e) ↦ (
      tt,
      subst Only (apply-kept key c now s r e)
          (put_accepted-Only key r s (subst (Stores key) e p) o),
    )
    | inr (f, e) ↦ (tt, subst Only (apply-refused key c now s f e) o)
  ]
  apply-Stored (taking key clock) s p o =
      let f = take_fresh-Found key clock 0 (get_list key s.by_key) (o.held key) in
      (offers_of-Offers key _ f.0, put_back-Only key _ s o f.1)
  apply-Stored clearing s p o = (tt, record { distinct = tt; held = λ k. tt })

  run-Only : (os : List Op) (s : TicketStore) → All Puts os → Only s → All Offers (run os s).0
  unfolding run Stored
  run-Only [] s p o = tt
  run-Only (x ∷ xs) s p o =
      let a = apply-Stored x s p.0 o in
      All-append Offers (apply x s).0 (run xs (apply x s).1).0 a.0
        (run-Only xs (apply x s).1 p.1 a.1)

  -- Whatever holds of each ticket and the key that it is stored under, when it is stored, holds of
  -- each ticket that any run of operations on a new store offers and of the key that it is offered
  -- under; and the ticket was fresh when it was taken.
  pub run-Offers :
      (os : List Op) (max_per_key : ℕ) → All Puts os → All Offers (run os (new_store max_per_key)).0
  unfolding get_list
  run-Offers os max_per_key p =
      run-Only os (new_store max_per_key) p record { distinct = tt; held = λ k. tt }

-- What every stored ticket is: a lifetime of more than nothing and of at most seven days, an
-- identity and a key that are not blank, and a hash that is known.
pub record Sane (t : StoredTicket) : Type 0 where
  pub lives : 0 < t.lifetime_ms
  pub seven_days : t.lifetime_ms ≤ 604800000
  pub identity : 0 < length t.identity
  pub psk : 0 < length t.psk

kept-Sane :
    (key : String) (c : Captured) (l a : ℤ) (now : ℕ)
    → 0 < length c.identity
    → 0 < length c.psk
    → Stores (λ k t. Sane t) key (ok (kept c l a now))
unfolding kept Stores
kept-Sane key c (pos zero) a now i p = tt
kept-Sane key c (negsuc n) a now i p = tt
kept-Sane key c (pos (suc n)) a now i p = record {
  lives = omega arith;
  seven_days = omega arith;
  identity = i;
  psk = p;
}

integers-Sane :
    (key : String) (c : Captured) (l a : Number) (now : ℕ)
    → 0 < length c.identity
    → 0 < length c.psk
    → Stores (λ k t. Sane t) key (integers c l a now)
unfolding integers Stores
integers-Sane key c (integer l) (integer a) now i p = kept-Sane key c l a now i p
integers-Sane key c (integer l) no_integer now i p = tt
integers-Sane key c no_integer a now i p = tt

accepted-Sane :
    (key : String) (c : Captured) (now : ℕ) → Stores (λ k t. Sane t) key (accepted c now)
unfolding accepted Stores
accepted-Sane key c now = elim (Result-cases (accepted c now)) [
  | inl (r, e) ↦
      let (n, known, then_) = bind_inversion (hash_length c.hash) _ e in
      elim (Bool-cases (length c.identity == 0 || length c.psk == 0)) [
        | inl blank ↦ absurd (err≢ok (rw blank at then_))
        | inr full ↦
            subst (Stores (λ k t. Sane t) key) (rw full at then_ ∙ sym e)
              (integers-Sane key c c.lifetime_sec c.age_add now (ground arith) (ground arith))
      ]
  | inr (f, e) ↦ subst (Stores (λ k t. Sane t) key) (sym e) tt
]

Puts-Sane : (os : List Op) → All (Puts (λ k t. Sane t)) os
unfolding Puts
Puts-Sane [] = tt
Puts-Sane (putting key c now ∷ os) = (accepted-Sane key c now, Puts-Sane os)
Puts-Sane (taking key clock ∷ os) = (tt, Puts-Sane os)
Puts-Sane (clearing ∷ os) = (tt, Puts-Sane os)

-- Every ticket that any run of operations on a new store offers lives for at most seven days from
-- when it was received, is fresh when it is taken, and has an identity and a key.
pub run-Sane :
    (os : List Op) (max_per_key : ℕ)
    → All
        (λ (o : Offer). Sane o.ticket × Fresh o.ticket o.found_at)
        (run os (new_store max_per_key)).0
unfolding Offers
run-Sane os max_per_key = run-Offers (λ k t. Sane t) os max_per_key (Puts-Sane os)
