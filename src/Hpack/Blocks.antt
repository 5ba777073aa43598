-- ===== src/Hpack/Blocks.antt =====
-- Header blocks: `decodeString`, `decode` and `_literal` of src/http2/hpack.js.
pub mod Lengths
pub mod Rounds
pub mod Bounds
use tunnelfetch.Prelude.{ℕ, zero, suc, ◌+◌, Bool, true, false, ◌≡◌, ◌≤◌, ◌<◌, refl, ap}
use tunnelfetch.Prelude.{
  Option, none, some, List, [], ◌∷◌, ◌++◌, ltb, leb, if◌then◌else◌, length, drop, take,
}
use tunnelfetch.Bytes.{Bytes}
use tunnelfetch.Errors.{Result, ok, err, limit_error, http2_header, ◌>>=◌}
use tunnelfetch.Hpack.{
  HpackDecoder, compression_error, decode_integer, lookup, insert, resize, charge,
}
use tunnelfetch.Hpack.StaticTable.{Text}
use tunnelfetch.Hpack.Huffman.{huffman_decode}

-- The string whose length has been read.
pub string_body : Bool → ℕ → Bytes → Result (Bytes × Bytes)
string_body huffman len p =
    if ltb (length p) len
    then err compression_error
    else if huffman
    then (huffman_decode (take len p) >>= λ s. ok (s, drop len p))
    else ok (take len p, drop len p)

pub decode_string : Bytes → Result (Bytes × Bytes)
decode_string [] = err compression_error
decode_string (b ∷ bs) = decode_integer (b ∷ bs) 7 >>= λ (len, p). string_body (leb 0x80 b) len p

-- The variables of `decode`, with the decoder that it changes.
pub record Block : Type 0 where
  pub decoder : HpackDecoder
  pub out : List (Text × Text)
  pub list_size : ℕ
  pub saw_field : Bool

pub start : HpackDecoder → Block
start d = record { decoder = d; out = []; list_size = 0; saw_field = false }

-- `add`, and the field that has been seen. A field that is refused ends the block, so that only the
-- decoder is left of it.
pub add : Text → Text → Block → Result Block
add name value b =
    if ltb b.decoder.max_header_list_size (b.list_size + charge name value)
    then err (limit_error http2_header)
    else ok record b {
      out = b.out ++ (name, value) ∷ [];
      list_size = b.list_size + charge name value;
      saw_field = true;
    }

pub insert_into : Text → Text → Block → Block
insert_into name value b = record b { decoder = insert name value b.decoder }

pub resize_in : ℕ → Block → Result Block
resize_in n b = resize n b.decoder >>= λ d. ok record b { decoder = d }

-- TextDecoder, which never fails.
module _ (decode_text : Bytes → Text) where
  pub name_at : ℕ → Bytes → HpackDecoder → Result (Text × Bytes)
  name_at zero p d = decode_string p >>= λ (s, rest). ok (decode_text s, rest)
  name_at (suc i) p d = lookup (suc i) d >>= λ (name, value). ok (name, p)

  pub literal : ℕ → Bytes → HpackDecoder → Result ((Text × Text) × Bytes)
  literal prefix_bits src d = decode_integer src prefix_bits >>= λ (i, p).
      name_at i p d >>= λ (name, q).
      decode_string q >>= λ (s, rest). ok ((name, decode_text s), rest)

  pub indexed : Bytes → Block → Result (Block × Bytes)
  indexed src b = decode_integer src 7 >>= λ (i, p).
      lookup i b.decoder >>= λ (name, value). add name value b >>= λ b'. ok (b', p)

  pub literal_indexing : Bytes → Block → Result (Block × Bytes)
  literal_indexing src b = literal 6 src b.decoder >>= λ ((name, value), p).
      add name value b >>= λ b'. ok (insert_into name value b', p)

  pub literal_without : Bytes → Block → Result (Block × Bytes)
  literal_without src b =
      literal 4 src b.decoder >>= λ ((name, value), p). add name value b >>= λ b'. ok (b', p)

  pub apply_update : Bytes → Block → Result (Block × Bytes)
  apply_update src b = decode_integer src 5 >>= λ (n, p). resize_in n b >>= λ b'. ok (b', p)

  pub size_update : Bytes → Block → Result (Block × Bytes)
  size_update src b = if b.saw_field then err compression_error else apply_update src b

  -- A round of the loop at the byte `first`, which stands first in `src`.
  pub step : ℕ → Bytes → Block → Result (Block × Bytes)
  step first src b =
      if leb 0x80 first
      then indexed src b
      else if leb 0x40 first
      then literal_indexing src b
      else if leb 0x20 first
      then size_update src b
      else literal_without src b

  -- The decoder outlives a block that fails. A round takes a byte or more, so that the length of the
  -- block is enough fuel.
  pub decode_loop : ℕ → Block → Bytes → Option (HpackDecoder × Result (List (Text × Text)))
  decode_loop fuel b [] = some (b.decoder, ok b.out)
  decode_loop zero b (x ∷ src) = none
  decode_loop (suc fuel) b (x ∷ src) = elim (step x (x ∷ src) b) [
    | err e ↦ some (b.decoder, err e)
    | ok r ↦ decode_loop fuel r.0 r.1
  ]

  pub decode : Bytes → HpackDecoder → Option (HpackDecoder × Result (List (Text × Text)))
  decode block d = decode_loop (length block) (start d) block
