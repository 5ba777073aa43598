-- ===== src/Hpack/Huffman/Lengths.antt =====
-- The bytes that the Huffman encoder writes.
use tunnelfetch.Prelude.{ℕ, ◌+◌, ◌*◌, ◌<◌, ◌≡◌}
use tunnelfetch.Prelude.{length}
use tunnelfetch.Bytes.{Bytes}

-- What a run of the inner loop leaves: the bits that it took are whole bytes.
record Emits (nbits : ℕ) (r : Bytes × ℕ × ℕ) : Type 0 where
  whole : 8 * length r.0 + r.2 ≡ nbits
  rest : r.2 < 8
