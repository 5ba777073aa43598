-- ===== src/Hpack/Encoder.antt =====
-- The encoder of src/http2/hpack.js, which consults the static table only.
pub mod Lookups
use tunnelfetch.Prelude.{
  ℕ, zero, suc, ◌+◌, Bool, true, false, ◌&&◌, Option, none, some, List, [], ◌∷◌, ◌++◌, ltb, ◌==◌,
  if◌then◌else◌, length, drop,
}
use tunnelfetch.Bytes.{Bytes, equal}
use tunnelfetch.Hpack.{encode_integer}
use tunnelfetch.Hpack.StaticTable.{Text, static_table}
use tunnelfetch.Hpack.Huffman.{huffman_encoded_length, huffman_encode}

-- Huffman-coded only where that is shorter.
pub encode_string : Bytes → Bytes
encode_string bytes =
    if ltb (huffman_encoded_length bytes) (length bytes)
    then encode_integer (length (huffman_encode bytes)) 7 0x80 ++ huffman_encode bytes
    else encode_integer (length bytes) 7 0x00 ++ bytes

-- `{ index }`, `{ nameIndex }` or null.
pub data Match : Type 0 where
  index name_index : ℕ → Match
  no_match : Match

-- The loop of `staticLookup` from the entry of index i on. `===` on strings compares the units, as
-- `equal` does.
unfoldable pub lookup_from : List (Text × Text) → ℕ → Text → Text → ℕ → Match
lookup_from [] i name value found = if found == 0 then no_match else name_index found
lookup_from (e ∷ es) i name value found =
    let rest =
      lookup_from es (i + 1) name value (if equal e.0 name && found == 0 then i else found) in
    if equal e.0 name && equal e.1 value then index i else rest

unfoldable pub static_lookup : Text → Text → Match
static_lookup name value = lookup_from (drop 1 static_table) 1 name value 0

pub data Indexing : Type 0 where
  incremental without never : Indexing

pub record HpackField : Type 0 where
  pub name : Text
  pub value : Text
  pub indexing : Indexing

pub prefix_of : Indexing → ℕ × ℕ
prefix_of incremental = (0x40, 6)
prefix_of never = (0x10, 4)
prefix_of without = (0x00, 4)

-- TextEncoder.
module _ (utf8 : Text → Bytes) where
  pub literal_field : ℕ → HpackField → Bytes
  literal_field zero f =
      encode_integer 0 (prefix_of f.indexing).1 (prefix_of f.indexing).0
      ++ encode_string (utf8 f.name)
      ++ encode_string (utf8 f.value)
  literal_field (suc i) f =
      encode_integer (suc i) (prefix_of f.indexing).1 (prefix_of f.indexing).0
      ++ encode_string (utf8 f.value)

  pub encode_field : HpackField → Bytes
  encode_field f = elim (static_lookup f.name f.value) [
    | index i ↦ encode_integer i 7 0x80
    | name_index i ↦ literal_field i f
    | no_match ↦ literal_field 0 f
  ]

  pub encode_header_block : List HpackField → Bytes
  encode_header_block [] = []
  encode_header_block (f ∷ fs) = encode_field f ++ encode_header_block fs
