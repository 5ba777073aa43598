-- ===== src/Pool/Keeps.antt =====
-- The invariant of the pool.
use tunnelfetch.Prelude.{ℕ, suc, ◌+◌, ◌-◌, ◌≤◌, ◌<◌, ◌≡◌, refl, Bool, not, ◌||◌, arith}
use tunnelfetch.Prelude.{List, [], ◌∷◌, ◌++◌, leb, ◌==◌, length}
use tunnelfetch.Prelude.{length-append, Bool-cases, inl, inr, ap}
use tunnelfetch.Prelude.Dict.{get_list, total, Distinct, total-set, total-delete}
use tunnelfetch.Prelude.Dict.{get_list-set, get_list-delete, Distinct-set, Distinct-delete}
use tunnelfetch.Pool.{
  ConnectionPool, Conn, init_of, take_from, take, retain, evict, release, discard, close_all,
  after_take, Op, taking, releasing, discarding, closing, apply, run, new_pool,
}
use Prim.Native.String.{String}

-- The counter counts the idle connections, and both caps hold.
pub record IsBounded (p : ConnectionPool) : Type 0 where
  pub counted : p.total ≡ total p.idle
  pub distinct : Distinct p.idle
  pub total_cap : p.total ≤ p.max_total
  pub key_cap : (k : String) → length (get_list k p.idle) ≤ p.max_per_key

length-init : (c : Conn) (cs : List Conn) → suc (length (init_of c cs)) ≡ length (c ∷ cs)
unfolding init_of
length-init c [] = refl
length-init c (d ∷ ds) = ap suc (length-init d ds)

take_from-IsBounded :
    (key : String) (list : List Conn) (p : ConnectionPool)
    → get_list key p.idle ≡ list
    → IsBounded p
    → IsBounded (take_from key list p).1
unfolding take_from
take_from-IsBounded key [] p e b = record {
  counted = b.counted;
  distinct = b.distinct;
  total_cap = b.total_cap;
  key_cap = b.key_cap;
}
take_from-IsBounded key (c ∷ cs) p e b = elim (Bool-cases (length (init_of c cs) == 0)) [
  | inl z ↦ rw z (record {
    counted = ground (arith, b.counted, total-delete key p.idle, e, length-init c cs);
    distinct = Distinct-delete key p.idle b.distinct;
    total_cap = omega (arith, b.total_cap);
    key_cap = λ k. ground (arith, get_list-delete key k p.idle, b.key_cap k, b.distinct);
  })
  | inr z ↦ rw z (record {
    counted = ground (arith, b.counted, total-set key (init_of c cs) p.idle, e, length-init c cs);
    distinct = Distinct-set key (init_of c cs) p.idle b.distinct;
    total_cap = omega (arith, b.total_cap);
    key_cap = λ k. ground (
      arith,
      get_list-set key k (init_of c cs) p.idle,
      b.key_cap k,
      b.key_cap key,
      e,
      length-init c cs,
    );
  })
]

take-IsBounded : (key : String) (p : ConnectionPool) → IsBounded p → IsBounded (after_take key p)
unfolding after_take take
take-IsBounded key p b = elim (Bool-cases p.closed) [
  | inl e ↦ simp e b
  | inr e ↦ simp e (take_from-IsBounded key (get_list key p.idle) p refl b)
]

-- One more connection in the list of a key that has room for it.
retain-IsBounded :
    (key : String) (conn : Conn) (list : List Conn) (p : ConnectionPool)
    → p.total + length (get_list key p.idle) ≡ total p.idle + length list
    → Distinct p.idle
    → p.total < p.max_total
    → length list < p.max_per_key
    → ((k : String) → length (get_list k p.idle) ≤ p.max_per_key)
    → IsBounded (retain key conn list p).1
unfolding retain
retain-IsBounded key conn list p counted d room key_room caps = record {
  counted =
      omega (
        arith,
        counted,
        total-set key (list ++ (conn ∷ [])) p.idle,
        length-append list (conn ∷ []),
      );
  distinct = Distinct-set key (list ++ (conn ∷ [])) p.idle d;
  total_cap = omega arith;
  key_cap = λ k. ground (
    arith,
    get_list-set key k (list ++ (conn ∷ [])) p.idle,
    caps k,
    length-append list (conn ∷ []),
  );
}

evict-IsBounded :
    (key : String) (conn : Conn) (list : List Conn) (p : ConnectionPool)
    → get_list key p.idle ≡ list
    → IsBounded p
    → IsBounded (evict key conn list p).1
unfolding evict
evict-IsBounded key conn [] p e b = record {
  counted = b.counted;
  distinct = b.distinct;
  total_cap = b.total_cap;
  key_cap = b.key_cap;
}
evict-IsBounded key conn (victim ∷ list) p e b =
    retain-IsBounded key conn list
      (record p {
        total = p.total - 1;
        stats = record (p.stats) { evicted = p.stats.evicted + 1 };
        shut = p.shut ++ (victim ∷ []);
      })
      (omega (arith, b.counted, ap length e, total-delete key p.idle)) b.distinct
      (omega (arith, b.counted, b.total_cap, ap length e, total-delete key p.idle))
      (omega (arith, b.key_cap key, ap length e)) b.key_cap

release-IsBounded :
    (key : String) (conn : Conn) (eligible : Bool) (p : ConnectionPool)
    → IsBounded p
    → IsBounded (release key conn eligible p).1
unfolding release
release-IsBounded key conn eligible p b = elim (Bool-cases (p.closed || not eligible)) [
  | inl e ↦ simp e (record {
    counted = b.counted;
    distinct = b.distinct;
    total_cap = b.total_cap;
    key_cap = b.key_cap;
  })
  | inr e ↦
      elim (Bool-cases
        (leb p.max_per_key (length (get_list key p.idle)) || leb p.max_total p.total)) [
          | inl full ↦ simp (e, full) (evict-IsBounded key conn (get_list key p.idle) p refl b)
          | inr room ↦
              simp (e, room)
                (retain-IsBounded key conn (get_list key p.idle) p (omega (arith, b.counted))
                  b.distinct (ground arith) (ground arith) b.key_cap)
        ]
]

close_all-IsBounded : (p : ConnectionPool) → IsBounded p → IsBounded (close_all p)
unfolding close_all total get_list
close_all-IsBounded p b = record {
  counted = refl;
  distinct = tt;
  total_cap = omega arith;
  key_cap = λ k. omega arith;
}

apply-IsBounded : (op : Op) (p : ConnectionPool) → IsBounded p → IsBounded (apply op p)
unfolding apply discard
apply-IsBounded (taking key) p b = take-IsBounded key p b
apply-IsBounded (releasing key conn eligible) p b = release-IsBounded key conn eligible p b
apply-IsBounded (discarding conn) p b = record {
  counted = b.counted;
  distinct = b.distinct;
  total_cap = b.total_cap;
  key_cap = b.key_cap;
}
apply-IsBounded closing p b = close_all-IsBounded p b

run_keeps : (ops : List Op) (p : ConnectionPool) → IsBounded p → IsBounded (run ops p)
unfolding run
run_keeps [] p b = b
run_keeps (op ∷ ops) p b = run_keeps ops (apply op p) (apply-IsBounded op p b)

-- Whatever the calls on a new pool, with whatever caps, the counter counts the idle connections,
-- no key stands twice, and neither the cap for a key nor the cap for all is passed.
pub run-IsBounded :
    (ops : List Op) (max_per_key max_total : ℕ)
    → IsBounded (run ops (new_pool max_per_key max_total))
run-IsBounded ops max_per_key max_total = run_keeps ops (new_pool max_per_key max_total) (
    unfold total get_list in
    record { counted = refl; distinct = tt; total_cap = omega arith; key_cap = λ k. omega arith })
