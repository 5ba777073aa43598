-- ===== src/Prelude/Words.antt =====
-- JavaScript's number operators on values that are whole and not negative.
use Prim.Native.Nat.{ℕ, ◌/◌, ◌%◌, ◌^◌}

-- `n >>> k`
abbrev pub ushr : ℕ → ℕ → ℕ
ushr n k = n % 2 ^ 32 / 2 ^ k

-- `(n >>> k) & 0xff`
abbrev pub octet : ℕ → ℕ → ℕ
octet n k = ushr n k % 256
