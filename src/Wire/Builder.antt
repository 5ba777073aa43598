-- ===== src/Wire/Builder.antt =====
-- src/tls/wire.js, class Builder, and the helpers below it.
use tunnelfetch.Prelude.{ℕ, ◌+◌, List, [], ◌∷◌, ◌++◌, ltb, if◌then◌else◌, length}
use tunnelfetch.Bytes
use tunnelfetch.Bytes.{Bytes, concat}
use tunnelfetch.Errors.{Result, ok, err, ◌>>=◌}
use tunnelfetch.Wire.Cursor.{LenBytes, one, two, three, malformed}

pub record Builder : Type 0 where
  pub parts : List Bytes
  pub length : ℕ

abbrev pub new_builder : Builder
new_builder = record { parts = []; length = 0 }

unfoldable pub push : Bytes → Builder → Builder
push b w =
    if ltb 0 (length b)
    then record { parts = w.parts ++ (b ∷ []); length = w.length + length b }
    else w

unfoldable pub u8 : ℕ → Builder → Builder
unfolding push Bytes.u8
u8 n w = push (Bytes.u8 n) w

unfoldable pub u16 : ℕ → Builder → Builder
unfolding push Bytes.u16
u16 n w = push (Bytes.u16 n) w

unfoldable pub u24 : ℕ → Builder → Builder
unfolding push Bytes.u24
u24 n w = push (Bytes.u24 n) w

abbrev pub max_length : LenBytes → ℕ
max_length one = 0xff
max_length two = 0xffff
max_length three = 0xffffff

unfoldable pub prefix : LenBytes → ℕ → Builder → Builder
unfolding u8 u16 u24
prefix one n w = u8 n w
prefix two n w = u16 n w
prefix three n w = u24 n w

unfoldable pub vector_into : LenBytes → Bytes → Builder → Result Builder
unfolding prefix
vector_into l body w =
    if ltb (max_length l) (length body)
    then err malformed
    else ok (push body (prefix l (length body) w))

-- `concat(this.parts, this.length)`: the array of `length` bytes is filled by the parts.
unfoldable pub build : Builder → Bytes
unfolding concat
build w = concat w.parts

unfoldable pub vector : LenBytes → Bytes → Result Bytes
unfolding vector_into build
vector l body = do w ← vector_into l body new_builder; ok (build w)

unfoldable pub handshake_message : ℕ → Bytes → Result Bytes
unfolding vector_into build
handshake_message type body = do w ← vector_into three body (u8 type new_builder); ok (build w)
