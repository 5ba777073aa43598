-- ===== src/Reader.antt =====
-- src/util/bytes.js, class ByteReader: a buffer over a stream that arrives in chunks.
pub mod Buffer
pub mod Pull
pub mod Refines
pub mod Exact
pub mod Somes
pub mod Compacting
pub mod Delimited
pub mod Drain
use tunnelfetch.Prelude.{ℕ, zero, suc, ◌+◌, ◌-◌, ◌≤◌, ◌≡◌, min, Bool, true, false, ◌&&◌, ◌||◌}
use tunnelfetch.Prelude.{Option, none, some, List, [], ◌∷◌, ◌++◌, ltb, leb, ◌==◌, if◌then◌else◌}
use tunnelfetch.Prelude.{length, drop, take}
use tunnelfetch.Bytes.{Bytes, concat, index_of}
use tunnelfetch.Errors.{Result, ok, err, Failure, unexpected_eof, limit_error, limit_header}
use tunnelfetch.Errors.{limit_body}

-- The fields `_chunks`, `_head`, `_len` and `_eof`. `source` is what the underlying stream has yet
-- to deliver, one entry for each of its reads, and then its end. How it is cut into entries is
-- arbitrary, and so covers default and BYOB reads alike.
pub record ByteReader : Type 0 where
  pub chunks : List Bytes
  pub head : ℕ
  pub len : ℕ
  pub eof : Bool
  pub source : List Bytes

-- The constructor, over a stream that will deliver `source`.
abbrev pub open_reader : List Bytes → ByteReader
open_reader source = record { chunks = []; head = 0; len = 0; eof = false; source = source }

trim_first : ℕ → List Bytes → List Bytes
trim_first head [] = []
trim_first head (c ∷ cs) = drop head c ∷ cs

pub unshift : Bytes → ByteReader → ByteReader
unfolding trim_first
unshift bytes r = if length bytes == 0 then r else record r {
  chunks = bytes ∷ (if ltb 0 r.head then trim_first r.head r.chunks else r.chunks);
  head = 0;
  len = r.len + length bytes;
}

-- `_pull` past its test of `_eof`: empty chunks are skipped, and the end is noted.
pull_source : List Bytes → ByteReader → Bool × ByteReader
pull_source [] r = (false, record r { eof = true; source = [] })
pull_source (c ∷ cs) r =
    let skipped = pull_source cs (record r { source = cs }) in
    if ltb 0 (length c)
    then (true, record r { chunks = r.chunks ++ (c ∷ []); len = r.len + length c; source = cs })
    else skipped

pub pull : ByteReader → Bool × ByteReader
pull r = if r.eof then (false, r) else pull_source r.source r

-- The copying loop of `_take`: `need` bytes are still wanted, and the first chunk is read from
-- `head`. The chunks do not end first, which the caller guarantees.
fill : ℕ → ℕ → List Bytes → Bytes × List Bytes × ℕ
fill need head [] = ([], [], head)
fill need head (c ∷ cs) =
    let n = min (length c - head) need in
    let later = fill (need - n) 0 cs in
    if need == 0
    then ([], c ∷ cs, head)
    else if head + n == length c
    then (take n (drop head c) ++ later.0, later.1, later.2)
    else (take n (drop head c), c ∷ cs, head + n)

-- `_take` of `n > 0` bytes, on its chunks.
take_chunks : ℕ → ByteReader → List Bytes → Bytes × ByteReader
take_chunks n r [] = ([], r)
take_chunks n r (first ∷ rest) =
    if leb n (length first - r.head)
    then (
      take n (drop r.head first),
      if r.head + n == length first
          then record r { chunks = rest; head = 0; len = r.len - n }
          else record r { head = r.head + n; len = r.len - n },
    )
    else (let (out, chunks, head) = fill n r.head (first ∷ rest) in
        (out, record r { chunks = chunks; head = head; len = r.len - n }))

pub take_buffered : ℕ → ByteReader → Bytes × ByteReader
take_buffered n r = if n == 0 then ([], r) else take_chunks n r r.chunks

-- An operation that awaits the stream. `none` is no outcome of the source: the fuel of a loop ran
-- out.
abbrev pub Read : Type 0 → Type 0
Read A = ByteReader → Option (Result A × ByteReader)

-- What follows an `await`, with the result or the error that it threw.
abbrev pub and_then :
    {A B : Type 0}
    → Option (Result A × ByteReader)
    → (Result A → Read B)
    → Option (Result B × ByteReader)
and_then none k = none
and_then (some (x, r)) k = k x r

-- `while (_len < n) if (!await _pull()) throw …; return _take(n)`. Each pull that succeeds uses up
-- an entry of the source.
exactly_loop : ℕ → ℕ → Read Bytes
exactly_loop zero n r = none
exactly_loop (suc fuel) n r =
    let pulled = pull r in
    let rest = exactly_loop fuel n pulled.1 in
    let taken = take_buffered n r in
    if ltb r.len n
    then (if pulled.0 then rest else some (err (unexpected_eof (some n) pulled.1.len), pulled.1))
    else some (ok taken.0, taken.1)

pub read_exactly : ℕ → Read Bytes
read_exactly n r = exactly_loop (suc (length r.source)) n r

-- `readSome`: `none` in the result is null.
some_loop : ℕ → ℕ → Read (Option Bytes)
some_loop zero n r = none
some_loop (suc fuel) n r =
    let pulled = pull r in
    let rest = some_loop fuel n pulled.1 in
    let taken = take_buffered (min n r.len) r in
    if r.len == 0
    then (if pulled.0 then rest else some (ok none, pulled.1))
    else some (ok (some taken.0), taken.1)

pub read_some : ℕ → Read (Option Bytes)
read_some n r = some_loop (suc (length r.source)) n r

-- `readUntil` joins what is buffered into one chunk before each scan.
pub compact : ByteReader → ByteReader
compact r =
    let taken = take_buffered r.len r in
    if ltb 1 (length r.chunks) || ltb 0 r.head
    then record taken.1 {
      chunks = if ltb 0 (length taken.0) then taken.0 ∷ [] else [];
      head = 0;
      len = length taken.0;
    }
    else r

pub first_chunk : List Bytes → Bytes
first_chunk [] = []
first_chunk (c ∷ cs) = c

-- `buf`
pub scanned_bytes : ByteReader → Bytes
unfolding first_chunk
scanned_bytes r = if ltb 0 r.len then first_chunk r.chunks else []

until_loop : ℕ → Bytes → ℕ → ℕ → Read Bytes
until_loop zero needle max_bytes scanned r = none
until_loop (suc fuel) needle max_bytes scanned r =
    let joined = compact r in
    let buf = scanned_bytes joined in
    let pulled = pull joined in
    let rest = until_loop fuel needle max_bytes (length buf) pulled.1 in
    elim (index_of buf needle (scanned + 1 - length needle)) [
      | some idx ↦
          let end = idx + length needle in
          let taken = take_buffered end joined in
          if ltb max_bytes end
          then some (err (limit_error limit_header), joined)
          else some (ok taken.0, taken.1)
      | none ↦
          if ltb max_bytes (length buf)
          then some (err (limit_error limit_header), joined)
          else if pulled.0
          then rest
          else some (err (unexpected_eof none (length buf)), pulled.1)
    ]

-- The needle is not empty: callers pass a constant.
pub read_until : Bytes → ℕ → Read Bytes
read_until needle max_bytes r = until_loop (suc (length r.source)) needle max_bytes 0 r
