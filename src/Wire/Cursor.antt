-- ===== src/Wire/Cursor.antt =====
-- src/tls/wire.js, class Cursor. A read that throws has not moved the cursor.
use tunnelfetch.Prelude.{ℕ, ◌+◌, ◌-◌, ◌*◌, ◌^◌, Bool, ltb, leb, if◌then◌else◌, length, drop}
use tunnelfetch.Prelude.{take as list_take}
use tunnelfetch.Bytes.{Bytes, at}
use tunnelfetch.Errors.{Result, ok, err, Failure, tls_error, tls_handshake, ◌>>=◌, ◌>>◌}

-- `what` serves the messages alone.
pub record Cursor : Type 0 where
  pub bytes : Bytes
  pub pos : ℕ

abbrev pub new_cursor : Bytes → Cursor
new_cursor b = record { bytes = b; pos = 0 }

abbrev pub malformed : Failure
malformed = tls_error tls_handshake

abbrev pub remaining : Cursor → ℕ
remaining c = length c.bytes - c.pos

abbrev pub done : Cursor → Bool
done c = leb (length c.bytes) c.pos

-- The `n` that code passes are lengths, so `n < 0` does not arise.
abbrev pub need : ℕ → Cursor → Result (Unit {0})
need n c = if ltb (remaining c) n then err malformed else ok tt

abbrev advance : ℕ → Cursor → Cursor
advance n c = record c { pos = c.pos + n }

unfoldable pub u8 : Cursor → Result (ℕ × Cursor)
u8 c = do need 1 c; ok (at c.bytes c.pos, advance 1 c)

-- The shifted bytes share no bit, so `|` adds them.
unfoldable pub u16 : Cursor → Result (ℕ × Cursor)
u16 c = do need 2 c; ok (at c.bytes c.pos * 2 ^ 8 + at c.bytes (c.pos + 1), advance 2 c)

unfoldable pub u24 : Cursor → Result (ℕ × Cursor)
u24 c = do
  need 3 c
  ok (
    at c.bytes c.pos * 2 ^ 16 + at c.bytes (c.pos + 1) * 2 ^ 8 + at c.bytes (c.pos + 2),
    advance 3 c,
  )

unfoldable pub u32 : Cursor → Result (ℕ × Cursor)
u32 c = do
  need 4 c
  ok (
    at c.bytes c.pos * 2 ^ 24
        + at c.bytes (c.pos + 1) * 2 ^ 16
        + at c.bytes (c.pos + 2) * 2 ^ 8
        + at c.bytes (c.pos + 3),
    advance 4 c,
  )

unfoldable pub take : ℕ → Cursor → Result (Bytes × Cursor)
take n c = do need n c; ok (list_take n (drop c.pos c.bytes), advance n c)

-- `lenBytes`
pub data LenBytes : Type 0 where
  one two three : LenBytes

unfoldable pub prefix : LenBytes → Cursor → Result (ℕ × Cursor)
unfolding u8 u16 u24
prefix one c = u8 c
prefix two c = u16 c
prefix three c = u24 c

unfoldable pub vector : LenBytes → Cursor → Result (Bytes × Cursor)
unfolding prefix take
vector l c = do (n, c') ← prefix l c; take n c'

-- A cursor over the vector, and the outer one behind it.
unfoldable pub sub : LenBytes → Cursor → Result (Cursor × Cursor)
unfolding vector
sub l c = do (v, c') ← vector l c; ok (new_cursor v, c')

unfoldable pub end : Cursor → Result (Unit {0})
end c = if done c then ok tt else err malformed
