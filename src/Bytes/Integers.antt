-- ===== src/Bytes/Integers.antt =====
-- The big-endian writers and readers of util/bytes.js undo one another.
use tunnelfetch.Prelude.{ℕ, ◌^◌, ◌<◌, ◌≡◌, ◌++◌, arith}
use tunnelfetch.Bytes.{IsBytes, Bytes, u16, u24, u32, read_u16, read_u24, read_u32}

pub u16-IsBytes : (n : ℕ) → IsBytes (u16 n)
unfolding u16
u16-IsBytes n = omega arith

pub read_u16-u16 : (n : ℕ) (rest : Bytes) → n < 2 ^ 16 → read_u16 (u16 n ++ rest) 0 ≡ n
unfolding read_u16 u16
read_u16-u16 n rest h = omega arith

pub read_u24-u24 : (n : ℕ) (rest : Bytes) → n < 2 ^ 24 → read_u24 (u24 n ++ rest) 0 ≡ n
unfolding read_u24 u24
read_u24-u24 n rest h = omega arith

pub read_u32-u32 : (n : ℕ) (rest : Bytes) → n < 2 ^ 32 → read_u32 (u32 n ++ rest) 0 ≡ n
unfolding read_u32 u32
read_u32-u32 n rest h = omega arith
