-- ===== src/Reader/Drain.antt =====
-- The rest of a reader: `readToEnd`, and the two getters, of src/util/bytes.js.
use tunnelfetch.Prelude.{
  ℕ, zero, suc, ◌+◌, Bool, false, ◌&&◌, Option, none, some, List, [], ◌∷◌, ◌++◌, ltb, ◌==◌,
  if◌then◌else◌, length,
}
use tunnelfetch.Bytes.{Bytes, concat}
use tunnelfetch.Errors.{Result, ok, err, limit_error, limit_body}
use tunnelfetch.Reader.{ByteReader, Read, read_some}

pub buffered : ByteReader → ℕ
buffered r = r.len

pub at_eof : ByteReader → Bool
at_eof r = r.eof && r.len == 0

-- `total > maxBytes`, where `none` is Infinity.
unfoldable pub exceeds : ℕ → Option ℕ → Bool
exceeds total none = false
exceeds total (some max_bytes) = ltb max_bytes total

-- A round of the loop behind its `await`, with the round that follows.
pub after_some :
    Option ℕ
    → List Bytes
    → ℕ
    → (Bytes → Read Bytes)
    → Option (Result (Option Bytes) × ByteReader)
    → Option (Result Bytes × ByteReader)
after_some max_bytes parts total next none = none
after_some max_bytes parts total next (some (err e, r)) = some (err e, r)
after_some max_bytes parts total next (some (ok none, r)) = some (ok (concat parts), r)
after_some max_bytes parts total next (some (ok (some c), r)) =
    if exceeds (total + length c) max_bytes
    then some (err (limit_error limit_body), r)
    else next c r

pub to_end_loop : ℕ → Option ℕ → List Bytes → ℕ → Read Bytes
to_end_loop zero max_bytes parts total r = none
to_end_loop (suc fuel) max_bytes parts total r =
    after_some max_bytes parts total
      (λ c. to_end_loop fuel max_bytes (parts ++ c ∷ []) (total + length c)) (read_some 65536 r)

-- Each round but the last takes a byte or more.
pub read_to_end : Option ℕ → Read Bytes
read_to_end max_bytes r = to_end_loop (suc (r.len + length (concat r.source))) max_bytes [] 0 r
