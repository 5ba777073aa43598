-- ===== src/Hpack.antt =====
-- src/http2/hpack.js. A position in a block is the list of the bytes from there on. The platform's
-- TextDecoder and TextEncoder are parameters.
pub mod StaticTable
pub mod Huffman
pub mod Integers
pub mod Table
pub mod Blocks
pub mod Encoder
use tunnelfetch.Prelude.{ℕ, zero, suc, ◌+◌, ◌-◌, ◌*◌, ◌/◌, ◌%◌, ◌^◌, Bool, true, false, not, ◌&&◌}
use tunnelfetch.Prelude.{
  Option, none, some, List, [], ◌∷◌, ◌++◌, ltb, leb, ◌==◌, if◌then◌else◌, length, drop, take,
}
use tunnelfetch.Bytes.{Bytes}
use tunnelfetch.Errors.{
  Result, ok, err, Failure, http2_error, limit_error, http2_compression, http2_header, ◌>>=◌, ◌>>◌,
  require,
}
use tunnelfetch.Hpack.StaticTable.{Text, static_table}
use Prim.Native.Nat.{bit_and}

abbrev pub compression_error : Failure
compression_error = http2_error http2_compression

abbrev pub static_count : ℕ
static_count = 61

abbrev pub entry_overhead : ℕ
entry_overhead = 32

abbrev pub max_continuation_bytes : ℕ
max_continuation_bytes = 6

-- Number.MAX_SAFE_INTEGER + 1; a sum beyond it is no safe integer.
abbrev pub safe_limit : ℕ
safe_limit = 2 ^ 53

-- The loop of `decodeInteger`. Its variable m is seven times the bytes read.
pub continue_integer : Bytes → ℕ → ℕ → Result (ℕ × Bytes)
continue_integer [] value bytes = err compression_error
continue_integer (b ∷ rest) value bytes =
    let value' = value + b % 128 * 2 ^ (7 * bytes) in
    let more = continue_integer rest value' (bytes + 1) in
    if ltb max_continuation_bytes (bytes + 1)
    then err compression_error
    else if leb safe_limit value'
    then err compression_error
    else if ltb b 128
    then ok (value', rest)
    else more

-- `1 << n` is 2 ^ n for the widths 1 to 8, and `& max` keeps the low n bits.
pub decode_integer : Bytes → ℕ → Result (ℕ × Bytes)
decode_integer [] n = err compression_error
decode_integer (b ∷ rest) n =
    if ltb (b % 2 ^ n) (2 ^ n - 1)
    then ok (b % 2 ^ n, rest)
    else continue_integer rest (b % 2 ^ n) 0

-- The loop of `encodeInteger`; `fuel` bounds its rounds, and `v` itself is enough.
pub encode_continuation : ℕ → ℕ → Bytes
encode_continuation zero v = v ∷ []
encode_continuation (suc fuel) v =
    let rest = encode_continuation fuel (v / 128) in
    if leb 0x80 v then (v % 128 + 0x80) ∷ rest else v ∷ []

-- The bits of the prefix stand above the n bits of the value, so `|` adds them.
pub encode_integer : ℕ → ℕ → ℕ → Bytes
encode_integer value n prefix_bits =
    let max = 2 ^ n - 1 in
    if ltb value max
    then (prefix_bits + value) ∷ []
    else (prefix_bits + max) ∷ encode_continuation (value - max) (value - max)

-- An entry of the dynamic table with the size that it is charged.
pub record Entry : Type 0 where
  pub name : Text
  pub value : Text
  pub entry_size : ℕ

-- The fields of HpackDecoder. The newest entry stands first.
pub record HpackDecoder : Type 0 where
  pub dynamic : List Entry
  pub size : ℕ
  pub max_size : ℕ
  pub limit : ℕ
  pub max_header_list_size : ℕ

abbrev pub new_decoder : ℕ → ℕ → HpackDecoder
new_decoder max_table_size max_header_list_size = record {
  dynamic = [];
  size = 0;
  max_size = max_table_size;
  limit = max_table_size;
  max_header_list_size = max_header_list_size;
}

nth : List Entry → ℕ → Result (Text × Text)
nth [] d = err compression_error
nth (e ∷ es) zero = ok (e.name, e.value)
nth (e ∷ es) (suc d) = nth es d

static_nth : List (Text × Text) → ℕ → Result (Text × Text)
static_nth [] i = err compression_error
static_nth (e ∷ es) zero = ok e
static_nth (e ∷ es) (suc i) = static_nth es i

pub lookup : ℕ → HpackDecoder → Result (Text × Text)
unfolding nth static_nth static_table
lookup i d =
    if i == 0
    then err compression_error
    else if leb i static_count
    then static_nth static_table i
    else nth d.dynamic (i - static_count - 1)

-- `_dynamic.pop()`: the entries but the last, and the size of the last.
pub pop_entries : Entry → List Entry → List Entry
pop_entries e [] = []
pop_entries e (f ∷ es) = e ∷ pop_entries f es

pub pop_size : Entry → List Entry → ℕ
pop_size e [] = e.entry_size
pop_size e (f ∷ es) = pop_size f es

pop : List Entry → HpackDecoder → HpackDecoder
pop [] d = d
pop (e ∷ es) d = record d { dynamic = pop_entries e es; size = d.size - pop_size e es }

-- `while (size + room > maxSize && dynamic.length > 0)`. Each round takes an entry, so that their
-- number is enough fuel.
pub evict : ℕ → ℕ → HpackDecoder → HpackDecoder
evict zero room d = d
evict (suc fuel) room d =
    let rest = evict fuel room (pop d.dynamic d) in
    if ltb d.max_size (d.size + room) && ltb 0 (length d.dynamic) then rest else d

abbrev pub charge : Text → Text → ℕ
charge name value = length name + length value + entry_overhead

pub insert : Text → Text → HpackDecoder → HpackDecoder
insert name value d =
    let d' = evict (length d.dynamic) (charge name value) d in
    if leb (charge name value) d'.max_size
    then record d' {
      dynamic = record { name = name; value = value; entry_size = charge name value } ∷ d'.dynamic;
      size = d'.size + charge name value;
    }
    else d'

pub resize : ℕ → HpackDecoder → Result HpackDecoder
resize new_size d =
    if ltb d.limit new_size
    then err compression_error
    else ok (evict (length d.dynamic) 0 (record d { max_size = new_size }))
