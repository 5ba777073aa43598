-- ===== src/Pool.antt =====
-- src/pool.js, class ConnectionPool. A connection is the number of its object.
pub mod Keeps
pub mod View
pub mod Ledger
use tunnelfetch.Prelude.{ℕ, zero, suc, ◌+◌, ◌-◌, ◌≤◌, ◌≡◌, Bool, true, false, not, ◌||◌}
use tunnelfetch.Prelude.{
  Option, none, some, List, [], ◌∷◌, ◌++◌, ltb, leb, ◌==◌, if◌then◌else◌, length,
}
use tunnelfetch.Prelude.Dict.{get_list, set_list, delete, values}
use tunnelfetch.Errors.{Result, ok, err, tunnel_fetch_error, pool_closed}
use Prim.Native.String.{String}

abbrev pub Conn : Type 0
Conn = ℕ

pub record PoolStats : Type 0 where
  pub hits : ℕ
  pub misses : ℕ
  pub released : ℕ
  pub discarded : ℕ
  pub evicted : ℕ

-- The fields of the class. `shut` lists the connections on which `close` was called, the first one
-- first: the effect of `discard` on its argument, whose own failure the code swallows.
pub record ConnectionPool : Type 0 where
  pub idle : List (String × List Conn)
  pub total : ℕ
  pub max_per_key : ℕ
  pub max_total : ℕ
  pub closed : Bool
  pub stats : PoolStats
  pub shut : List Conn

abbrev pub new_pool : ℕ → ℕ → ConnectionPool
new_pool max_per_key max_total = record {
  idle = [];
  total = 0;
  max_per_key = max_per_key;
  max_total = max_total;
  closed = false;
  stats = record { hits = 0; misses = 0; released = 0; discarded = 0; evicted = 0 };
  shut = [];
}

-- `list.pop()` of a list that is not empty: the last element and those before it.
pub last_of : Conn → List Conn → Conn
last_of c [] = c
last_of c (d ∷ ds) = last_of d ds

pub init_of : Conn → List Conn → List Conn
init_of c [] = []
init_of c (d ∷ ds) = c ∷ init_of d ds

-- `take` past its `_assertOpen`, on the list of the key.
take_from : String → List Conn → ConnectionPool → Option Conn × ConnectionPool
take_from key [] p = (none, record p { stats = record (p.stats) { misses = p.stats.misses + 1 } })
take_from key (c ∷ cs) p =
    let left = init_of c cs in
    (
      some (last_of c cs),
      record p {
        idle = if length left == 0 then delete key p.idle else set_list key left p.idle;
        total = p.total - 1;
        stats = record (p.stats) { hits = p.stats.hits + 1 };
      },
    )

-- The pool is left as it was when the call throws.
pub take : String → ConnectionPool → Result (Option Conn × ConnectionPool)
take key p =
    if p.closed
    then err (tunnel_fetch_error pool_closed)
    else ok (take_from key (get_list key p.idle) p)

-- The tail of `release`: the connection joins the list, which is the end of `idle` if it is new.
unfoldable pub retain : String → Conn → List Conn → ConnectionPool → Bool × ConnectionPool
retain key conn list p = (
  true,
  record p {
    idle = set_list key (list ++ (conn ∷ [])) p.idle;
    total = p.total + 1;
    stats = record (p.stats) { released = p.stats.released + 1 };
  },
)

-- The pool is full, for the key or in all: the oldest of the key goes, or else the newcomer.
unfoldable pub evict : String → Conn → List Conn → ConnectionPool → Bool × ConnectionPool
evict key conn [] p = (
  false,
  record p {
    stats = record (p.stats) { discarded = p.stats.discarded + 1 };
    shut = p.shut ++ (conn ∷ []);
  },
)
evict key conn (victim ∷ list) p = retain key conn list (record p {
  total = p.total - 1;
  stats = record (p.stats) { evicted = p.stats.evicted + 1 };
  shut = p.shut ++ (victim ∷ []);
})

unfoldable pub release : String → Conn → Bool → ConnectionPool → Bool × ConnectionPool
release key conn eligible p =
    let list = get_list key p.idle in
    if p.closed || not eligible
    then (
      false,
      record p {
        stats = record (p.stats) { discarded = p.stats.discarded + 1 };
        shut = p.shut ++ (conn ∷ []);
      },
    )
    else if leb p.max_per_key (length list) || leb p.max_total p.total
    then evict key conn list p
    else retain key conn list p

pub discard : Conn → ConnectionPool → ConnectionPool
discard conn p = record p {
  stats = record (p.stats) { discarded = p.stats.discarded + 1 };
  shut = p.shut ++ (conn ∷ []);
}

pub close_all : ConnectionPool → ConnectionPool
close_all p = record p { closed = true; idle = []; total = 0; shut = p.shut ++ values p.idle }

abbrev state_of : ConnectionPool → Result (Option Conn × ConnectionPool) → ConnectionPool
state_of p (ok (c, p')) = p'
state_of p (err e) = p

-- A caller's view of `take` as a step: a throw leaves the pool as it was.
pub after_take : String → ConnectionPool → ConnectionPool
after_take key p = state_of p (take key p)

-- The calls that a client of the pool makes, in any order.
pub data Op : Type 0 where
  taking : String → Op
  releasing : String → Conn → Bool → Op
  discarding : Conn → Op
  closing : Op

pub apply : Op → ConnectionPool → ConnectionPool
apply (taking key) p = after_take key p
apply (releasing key conn eligible) p = (release key conn eligible p).1
apply (discarding conn) p = discard conn p
apply closing p = close_all p

unfoldable pub run : List Op → ConnectionPool → ConnectionPool
run [] p = p
run (op ∷ ops) p = run ops (apply op p)

-- What a call hands in, and what it hands out.
pub offered : Op → List Conn
offered (taking key) = []
offered (releasing key conn eligible) = conn ∷ []
offered (discarding conn) = conn ∷ []
offered closing = []

conn_of : Result (Option Conn × ConnectionPool) → List Conn
conn_of (ok (none, p)) = []
conn_of (ok (some c, p)) = c ∷ []
conn_of (err e) = []

pub handed : Op → ConnectionPool → List Conn
handed (taking key) p = conn_of (take key p)
handed _ p = []

pub all_offered : List Op → List Conn
all_offered [] = []
all_offered (op ∷ ops) = offered op ++ all_offered ops

pub all_handed : List Op → ConnectionPool → List Conn
all_handed [] p = []
all_handed (op ∷ ops) p = handed op p ++ all_handed ops (apply op p)
