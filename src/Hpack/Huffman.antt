-- ===== src/Hpack/Huffman.antt =====
-- src/http2/huffman.js.
pub mod Codes
pub mod Lengths
use tunnelfetch.Prelude.{ℕ, zero, suc, ◌+◌, ◌-◌, ◌*◌, ◌/◌, ◌%◌, ◌^◌, Bool, true, false, ◌&&◌, not}
use tunnelfetch.Prelude.{
  Option, none, some, List, [], ◌∷◌, ◌++◌, ltb, leb, ◌==◌, if◌then◌else◌, length, get_or, take,
  replicate,
}
use tunnelfetch.Prelude.Words.{ushr}
use tunnelfetch.Bytes.{Bytes}
use tunnelfetch.Errors.{Result, ok, err, http2_error, http2_compression, ◌>>=◌}
use tunnelfetch.Hpack.Huffman.Codes.{huffman_code, huffman_len}

abbrev pub eos : ℕ
eos = 256

pub code_of : ℕ → ℕ
code_of sym = get_or huffman_code sym 0

pub len_of : ℕ → ℕ
len_of sym = get_or huffman_len sym 0

-- The three arrays of `buildTrie`, where `none` stands for -1.
pub record Trie : Type 0 where
  pub left : List (Option ℕ)
  pub right : List (Option ℕ)
  pub sym : List (Option ℕ)

-- `arr[i] = v` at an index that the array has.
pub put_at : List (Option ℕ) → ℕ → ℕ → List (Option ℕ)
put_at [] i v = []
put_at (x ∷ xs) zero v = some v ∷ xs
put_at (x ∷ xs) (suc i) v = x ∷ put_at xs i v

-- A new node, the child of `node` on the bit.
pub grow : Bool → ℕ → Trie → Trie
grow bit node t =
    let next = length t.sym in
    record {
      left = (if bit then t.left else put_at t.left node next) ++ none ∷ [];
      right = (if bit then put_at t.right node next else t.right) ++ none ∷ [];
      sym = t.sym ++ none ∷ [];
    }

pub child : Bool → Trie → ℕ → Option ℕ
child bit t node = get_or (if bit then t.right else t.left) node none

-- `(code >>> i) & 1`
pub bit_at : ℕ → ℕ → Bool
bit_at code i = ushr code i % 2 == 1

-- One step of the walk, which makes the child where there is none.
pub reach : Bool → ℕ → Trie → ℕ × Trie
reach bit node t = elim (child bit t node) [
  | none ↦ (length t.sym, grow bit node t)
  | some next ↦ (next, t)
]

-- The walk along the code's bits i - 1 down to 0, which ends at the leaf of the symbol.
pub add_code : ℕ → ℕ → ℕ → ℕ → Trie → Trie
add_code zero s code node t = record t { sym = put_at t.sym node s }
add_code (suc i) s code node t =
    let (next, t') = reach (bit_at code i) node t in add_code i s code next t'

pub add_codes : ℕ → List ℕ → List ℕ → Trie → Trie
add_codes s (code ∷ codes) (len ∷ lens) t = add_codes (s + 1) codes lens (add_code len s code 0 t)
add_codes s codes lens t = t

pub build_trie : Trie
build_trie =
    add_codes 0 huffman_code huffman_len
      record { left = none ∷ []; right = none ∷ []; sym = none ∷ [] }

pub code_bits : Bytes → ℕ
code_bits [] = 0
code_bits (b ∷ bs) = len_of b + code_bits bs

pub huffman_encoded_length : Bytes → ℕ
huffman_encoded_length bytes = (code_bits bytes + 7) / 8

-- `while (nbits >= 8)`: the bytes that it emits, and the accumulator after it. Each round takes eight
-- bits, so that their number is enough fuel.
pub emit : ℕ → ℕ → ℕ → Bytes × ℕ × ℕ
emit zero acc nbits = ([], acc, nbits)
emit (suc fuel) acc nbits =
    let (out, acc', nbits') = emit fuel (acc % 2 ^ (nbits - 8)) (nbits - 8) in
    if leb 8 nbits then (acc / 2 ^ (nbits - 8) % 256 ∷ out, acc', nbits') else ([], acc, nbits)

-- The last byte, padded with ones.
pub pad_out : ℕ → ℕ → Bytes
pad_out acc nbits =
    if ltb 0 nbits then (acc * 2 ^ (8 - nbits) + (2 ^ (8 - nbits) - 1)) % 256 ∷ [] else []

-- The bytes that `huffmanEncode` writes, in order.
pub written : ℕ → ℕ → Bytes → Bytes
written acc nbits [] = pad_out acc nbits
written acc nbits (sym ∷ bytes) =
    let (out, acc', nbits') =
      emit (nbits + len_of sym) (acc * 2 ^ len_of sym + code_of sym) (nbits + len_of sym) in
    out ++ written acc' nbits' bytes

-- A typed array keeps its length: what is written behind its end is lost, what is not written is 0.
pub huffman_encode : Bytes → Bytes
huffman_encode bytes =
    take (huffman_encoded_length bytes)
      (written 0 0 bytes ++ replicate (huffman_encoded_length bytes) 0)

-- The variables of `huffmanDecode`, where a node of `none` is -1.
pub record Walk : Type 0 where
  pub node : Option ℕ
  pub depth : ℕ
  pub all_ones : Bool
  pub out : Bytes

-- `sym[node]`. At -1 it is undefined, which is no -1 and which `Uint8Array.from` makes a 0.
pub symbol_at : Trie → Option ℕ → Option ℕ
symbol_at t none = some 0
symbol_at t (some node) = get_or t.sym node (some 0)

pub follow : Trie → Bool → Option ℕ → Option ℕ
follow t bit none = none
follow t bit (some node) = child bit t node

pub walk_bit : Trie → Bool → Walk → Result Walk
walk_bit t bit w =
    let node = follow t bit w.node in
    elim (symbol_at t node) [
      | none ↦ ok record w { node = node; depth = w.depth + 1; all_ones = w.all_ones && bit }
      | some s ↦
          if s == eos
          then err (http2_error http2_compression)
          else ok record { node = some 0; depth = 0; all_ones = true; out = w.out ++ s ∷ [] }
    ]

-- The bits b - 1 down to 0 of a byte.
pub walk_byte : Trie → ℕ → ℕ → Walk → Result Walk
walk_byte t byte zero w = ok w
walk_byte t byte (suc b) w = walk_bit t (bit_at byte b) w >>= walk_byte t byte b

pub walk_bytes : Trie → Bytes → Walk → Result Walk
walk_bytes t [] w = ok w
walk_bytes t (byte ∷ bytes) w = walk_byte t byte 8 w >>= walk_bytes t bytes

pub finish_walk : Walk → Result Bytes
finish_walk w =
    if ltb 0 w.depth
    then (if ltb 7 w.depth
        then err (http2_error http2_compression)
        else if not w.all_ones
        then err (http2_error http2_compression)
        else ok w.out)
    else ok w.out

pub start_walk : Walk
start_walk = record { node = some 0; depth = 0; all_ones = true; out = [] }

pub huffman_decode : Bytes → Result Bytes
huffman_decode bytes = walk_bytes build_trie bytes start_walk >>= finish_walk
