-- ===== src/Pool/Ledger.antt =====
-- No connection is lost or stands in two places.
use tunnelfetch.Prelude.{ℕ, ◌+◌, ◌-◌, ◌≡◌, refl, Bool, true, not, ◌||◌, arith}
use tunnelfetch.Prelude.{List, [], ◌∷◌, ◌++◌, leb, ◌==◌, length}
use tunnelfetch.Prelude.{Bool-cases, inl, inr, ap, count, count-append}
use tunnelfetch.Prelude.Dict.{get_list, values, count-values-set, count-values-delete}
use tunnelfetch.Errors.{ok}
use tunnelfetch.Pool.{
  ConnectionPool, Conn, last_of, init_of, take_from, take, retain, evict, release, discard,
  close_all, after_take,
}
use tunnelfetch.Pool.{
  Op, taking, releasing, discarding, closing, apply, run, new_pool, offered, handed, conn_of,
  all_offered, all_handed,
}
use Prim.Native.String.{String}

-- How often a connection stands in the pool, idle or closed by it.
abbrev pub held : Conn → ConnectionPool → ℕ
held c p = count c (values p.idle) + count c p.shut

count-last :
    (a c : Conn) (cs : List Conn)
    → count a (init_of c cs) + count a (last_of c cs ∷ []) ≡ count a (c ∷ cs)
unfolding init_of last_of
count-last a c [] = omega arith
count-last a c (d ∷ ds) = ground (arith, count-last a d ds)

held-take_from :
    (a : Conn) (key : String) (list : List Conn) (p : ConnectionPool)
    → get_list key p.idle ≡ list
    → held a (take_from key list p).1 + count a (conn_of (ok (take_from key list p))) ≡ held a p
unfolding take_from conn_of
held-take_from a key [] p e = omega arith
held-take_from a key (c ∷ cs) p e = elim (Bool-cases (length (init_of c cs) == 0)) [
  | inl z ↦ rw z (
      omega (
        arith,
        count-values-delete a key p.idle,
        ap (count a) e,
        count-last a c cs,
        nothing (init_of c cs) z,
      ))
  | inr z ↦ rw z (
      omega
        (arith, count-values-set a key (init_of c cs) p.idle, ap (count a) e, count-last a c cs))
]
  where
    nothing : (xs : List Conn) → (length xs == 0) ≡ true → count a xs ≡ 0
    nothing [] h = refl
    nothing (x ∷ xs) h = absurd (ground arith)

held-take :
    (a : Conn) (key : String) (p : ConnectionPool)
    → held a (after_take key p) + count a (conn_of (take key p)) ≡ held a p
unfolding after_take take
held-take a key p = elim (Bool-cases p.closed) [
  | inl e ↦ simp e (unfold conn_of in omega arith)
  | inr e ↦ simp e (held-take_from a key (get_list key p.idle) p refl)
]

held-retain :
    (a : Conn) (key : String) (conn : Conn) (list : List Conn) (p : ConnectionPool)
    → held a (retain key conn list p).1 + count a (get_list key p.idle)
      ≡ held a p + count a list + count a (conn ∷ [])
unfolding retain
held-retain a key conn list p =
    omega
      (arith, count-values-set a key (list ++ (conn ∷ [])) p.idle, count-append a list (conn ∷ []))

count-cons : (a x : Conn) (xs : List Conn) → count a (x ∷ xs) ≡ count a (x ∷ []) + count a xs
count-cons a x xs = ground arith

held-evict :
    (a : Conn) (key : String) (conn : Conn) (list : List Conn) (p : ConnectionPool)
    → get_list key p.idle ≡ list
    → held a (evict key conn list p).1 ≡ held a p + count a (conn ∷ [])
unfolding evict
held-evict a key conn [] p e = omega (arith, count-append a p.shut (conn ∷ []))
held-evict a key conn (victim ∷ list) p e = omega (
  arith,
  held-retain a key conn list (record p {
    total = p.total - 1;
    stats = record (p.stats) { evicted = p.stats.evicted + 1 };
    shut = p.shut ++ (victim ∷ []);
  }),
  ap (count a) e,
  count-cons a victim list,
  count-append a p.shut (victim ∷ []),
)

held-release :
    (a : Conn) (key : String) (conn : Conn) (eligible : Bool) (p : ConnectionPool)
    → held a (release key conn eligible p).1 ≡ held a p + count a (conn ∷ [])
unfolding release
held-release a key conn eligible p = elim (Bool-cases (p.closed || not eligible)) [
  | inl e ↦ simp e (omega (arith, count-append a p.shut (conn ∷ [])))
  | inr e ↦
      elim (Bool-cases
        (leb p.max_per_key (length (get_list key p.idle)) || leb p.max_total p.total)) [
          | inl full ↦ simp (e, full) (held-evict a key conn (get_list key p.idle) p refl)
          | inr room ↦
              simp (e, room) (omega (arith, held-retain a key conn (get_list key p.idle) p))
        ]
]

held-apply :
    (a : Conn) (op : Op) (p : ConnectionPool)
    → held a (apply op p) + count a (handed op p) ≡ held a p + count a (offered op)
unfolding apply handed offered
held-apply a (taking key) p = omega (arith, held-take a key p)
held-apply a (releasing key conn eligible) p = omega (arith, held-release a key conn eligible p)
held-apply a (discarding conn) p =
    unfold discard in omega (arith, count-append a p.shut (conn ∷ []))
held-apply a closing p =
    unfold close_all values in omega (arith, count-append a p.shut (values p.idle))

held-run :
    (a : Conn) (ops : List Op) (p : ConnectionPool)
    → held a (run ops p) + count a (all_handed ops p) ≡ held a p + count a (all_offered ops)
unfolding run all_handed all_offered
held-run a [] p = omega arith
held-run a (op ∷ ops) p = omega (
  arith,
  held-run a ops (apply op p),
  held-apply a op p,
  count-append a (handed op p) (all_handed ops (apply op p)),
  count-append a (offered op) (all_offered ops),
)

-- Whatever the calls on a new pool, every connection that was handed in stands, as often as it was
-- handed in, either among the idle ones, or among those that the pool closed, or was handed out.
pub run_conserves :
    (ops : List Op) (max_per_key max_total : ℕ) (c : Conn)
    → count c (values (run ops (new_pool max_per_key max_total)).idle)
        + count c (run ops (new_pool max_per_key max_total)).shut
        + count c (all_handed ops (new_pool max_per_key max_total))
      ≡ count c (all_offered ops)
run_conserves ops max_per_key max_total c =
    unfold values in omega (arith, held-run c ops (new_pool max_per_key max_total))
