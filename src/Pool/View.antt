-- ===== src/Pool/View.antt =====
-- What a caller of the pool sees of another call.
use tunnelfetch.Prelude.{suc, ◌≡◌, refl, Bool, true, false, not, ◌||◌, arith}
use tunnelfetch.Prelude.{some, List, [], ◌∷◌, ◌++◌, leb, if◌then◌else◌, length}
use tunnelfetch.Prelude.{Bool-cases, ne→==, inl, inr, ap, ◌∙◌}
use tunnelfetch.Prelude.Dict.{get_list, Distinct, get_list-set, get_list-delete, Distinct-set}
use tunnelfetch.Errors.{ok}
use tunnelfetch.Pool.{
  ConnectionPool, Conn, last_of, init_of, take_from, take, retain, evict, release, after_take,
}
use tunnelfetch.Pool.Keeps.{IsBounded}
use text.Mathlib.Text.{◌==◌ as str_eq}
use text.Mathlib.TextPositions.{eq_refl}
use Prim.Native.String.{String}

-- The connection `c` is what `take` gives next for its key, and the lists of other keys are those
-- of `p`.
record Offers (key : String) (c : Conn) (p q : ConnectionPool) : Type 0 where
  open_ : q.closed ≡ false
  distinct : Distinct q.idle
  front : List Conn
  list : get_list key q.idle ≡ front ++ (c ∷ [])
  others : (j : String) → str_eq key j ≡ false → get_list j q.idle ≡ get_list j p.idle

Offers-retain :
    (key : String) (c : Conn) (list : List Conn) (p q : ConnectionPool)
    → q.idle ≡ p.idle
    → q.closed ≡ false
    → Distinct p.idle
    → Offers key c p (retain key c list q).1
unfolding retain
Offers-retain key c list p q same o d = record {
  open_ = o;
  distinct = rw same (Distinct-set key (list ++ (c ∷ [])) p.idle d);
  front = list;
  list = rw (get_list-set, eq_refl) refl;
  others = λ j n. rw (get_list-set, n, same) refl;
}

Offers-evict :
    (key : String) (c : Conn) (list : List Conn) (p : ConnectionPool)
    → p.closed ≡ false
    → Distinct p.idle
    → (evict key c list p).0 ≡ true
    → Offers key c p (evict key c list p).1
unfolding evict
Offers-evict key c [] p o d kept = cc kept
Offers-evict key c (victim ∷ list) p o d kept = Offers-retain key c list p _ refl o d

Offers-release :
    (key : String) (c : Conn) (eligible : Bool) (p : ConnectionPool)
    → Distinct p.idle
    → (release key c eligible p).0 ≡ true
    → Offers key c p (release key c eligible p).1
unfolding release
Offers-release key c eligible p d kept = elim (Bool-cases (p.closed || not eligible)) [
  | inl e ↦ absurd (cc (simp e at kept))
  | inr e ↦
      elim (Bool-cases
        (leb p.max_per_key (length (get_list key p.idle)) || leb p.max_total p.total)) [
          | inl full ↦
              simp (e, full)
                (Offers-evict key c (get_list key p.idle) p (ground arith) d
                  (simp (e, full) at kept))
          | inr room ↦
              simp (e, room) (Offers-retain key c (get_list key p.idle) p p refl (ground arith) d)
        ]
]

last_of-snoc : (b c : Conn) (xs : List Conn) → last_of b (xs ++ (c ∷ [])) ≡ c
unfolding last_of
last_of-snoc b c [] = refl
last_of-snoc b c (x ∷ xs) = last_of-snoc x c xs

init_of-snoc : (b c : Conn) (xs : List Conn) → init_of b (xs ++ (c ∷ [])) ≡ b ∷ xs
unfolding init_of
init_of-snoc b c [] = refl
init_of-snoc b c (x ∷ xs) = ap (λ ys. b ∷ ys) (init_of-snoc x c xs)

-- What `take` does to a list whose last connection is `c`.
take_from-snoc :
    (key : String) (c : Conn) (front : List Conn) (q : ConnectionPool)
    → Distinct q.idle
    → ((take_from key (front ++ (c ∷ [])) q).0 ≡ some c)
      × ((j : String)
          → get_list j (take_from key (front ++ (c ∷ [])) q).1.idle
            ≡ (if str_eq key j then front else get_list j q.idle))
unfolding take_from
take_from-snoc key c [] q d =
    (unfold last_of in refl, λ j. unfold init_of in get_list-delete key j q.idle d)
take_from-snoc key c (x ∷ xs) q d = (
  ap some (last_of-snoc x c xs),
  λ j.
      rw (init_of-snoc, ne→== (suc (length xs)) 0 (omega arith))
        (get_list-set key j (x ∷ xs) q.idle),
)

take-Offers :
    (key : String) (c : Conn) (p q : ConnectionPool)
    → Offers key c p q
    → (take key q ≡ ok (some c, after_take key q))
      × ((j : String)
          → str_eq key j ≡ false
          → get_list j (after_take key q).idle ≡ get_list j p.idle)
unfolding after_take take
take-Offers key c p q h =
    simp (h.open_, h.list)
      (
        ap (λ x. ok (x, (take_from key (h.front ++ (c ∷ [])) q).1)) s.0,
        λ j n. s.1 j ∙ rw n (h.others j n),
      )
  where
    s :
        ((take_from key (h.front ++ (c ∷ [])) q).0 ≡ some c)
        × ((j : String)
            → get_list j (take_from key (h.front ++ (c ∷ [])) q).1.idle
              ≡ (if str_eq key j then h.front else get_list j q.idle))
    s = take_from-snoc key c h.front q h.distinct

-- In a pool that keeps the invariant: a connection that `release` retained under a key is the one
-- that the next `take` of this key gives, and the two calls leave the list of any other key.
pub take-release :
    (key other : String) (c : Conn) (eligible : Bool) (p : ConnectionPool)
    → IsBounded p
    → str_eq key other ≡ false
    → (release key c eligible p).0 ≡ true
    → (take key (release key c eligible p).1
        ≡ ok (some c, after_take key (release key c eligible p).1))
      × (get_list other (after_take key (release key c eligible p).1).idle ≡ get_list other p.idle)
take-release key other c eligible p b apart kept =
    let offers =
      take-Offers key c p (release key c eligible p).1
        (Offers-release key c eligible p b.distinct kept) in
    (offers.0, offers.1 other apart)
