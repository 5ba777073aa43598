-- ===== src/Bytes.antt =====
-- src/util/bytes.js, the pure helpers. A Uint8Array is a list of numbers below 256.
pub mod Integers
pub mod Search
pub mod Concat
use tunnelfetch.Prelude.{ℕ, zero, suc, ◌+◌, ◌-◌, ◌*◌, ◌%◌, ◌^◌, ◌<◌, Bool, true, false, ◌&&◌, ◌||◌}
use tunnelfetch.Prelude.{Option, none, some, List, [], ◌∷◌, ◌++◌, ltb, leb, ◌==◌, if◌then◌else◌}
use tunnelfetch.Prelude.{get_or, length, drop, take, All}
use tunnelfetch.Prelude.Words.{octet}

abbrev pub IsByte : ℕ → Type 0
IsByte b = b < 256

abbrev pub Bytes : Type 0
Bytes = List ℕ

abbrev pub IsBytes : Bytes → Type 0
IsBytes = All IsByte

-- `b[o]`: outside the array it is undefined, which the shifts and the masks read as 0.
abbrev pub at : Bytes → ℕ → ℕ
at b o = get_or b o 0

-- The writers; `new Uint8Array` keeps the low eight bits.
unfoldable pub u8 : ℕ → Bytes
u8 n = n % 256 ∷ []

unfoldable pub u16 : ℕ → Bytes
u16 n = octet n 8 ∷ n % 256 ∷ []

unfoldable pub u24 : ℕ → Bytes
u24 n = octet n 16 ∷ octet n 8 ∷ n % 256 ∷ []

unfoldable pub u32 : ℕ → Bytes
u32 n = octet n 24 ∷ octet n 16 ∷ octet n 8 ∷ n % 256 ∷ []

-- The readers. The shifted bytes share no bit, so `|` adds them.
unfoldable pub read_u16 : Bytes → ℕ → ℕ
read_u16 b o = at b o * 2 ^ 8 + at b (o + 1)

unfoldable pub read_u24 : Bytes → ℕ → ℕ
read_u24 b o = at b o * 2 ^ 16 + at b (o + 1) * 2 ^ 8 + at b (o + 2)

unfoldable pub read_u32 : Bytes → ℕ → ℕ
read_u32 b o = at b o * 2 ^ 24 + at b (o + 1) * 2 ^ 16 + at b (o + 2) * 2 ^ 8 + at b (o + 3)

-- The loop of `concat`: the parts one after the other. (The shortcut for one part that has the
-- whole length returns that part, which is the same bytes.)
unfoldable pub concat : List Bytes → Bytes
concat [] = []
concat (p ∷ ps) = p ++ concat ps

-- The inner loop of `indexOf` at one position: the needle stands at the front.
unfoldable pub starts_with : Bytes → Bytes → Bool
starts_with [] hay = true
starts_with (n ∷ ns) [] = false
starts_with (n ∷ ns) (h ∷ hs) = h == n && starts_with ns hs

-- The outer loop of `indexOf`, at position `i` with the bytes from there on. Past `limit` too few
-- bytes are left for the needle, which callers keep from being empty.
unfoldable pub index_loop : Bytes → ℕ → Bytes → Option ℕ
index_loop needle i [] = none
index_loop needle i (h ∷ hs) =
    let rest = index_loop needle (i + 1) hs in if starts_with needle (h ∷ hs) then some i else rest

-- `none` is -1.
unfoldable pub index_of : Bytes → Bytes → ℕ → Option ℕ
unfolding index_loop starts_with
index_of hay needle from = index_loop needle from (drop from hay)

-- The lengths are compared first, and then every byte; here both at once.
unfoldable pub equal : Bytes → Bytes → Bool
equal [] [] = true
equal [] (b ∷ bs) = false
equal (a ∷ as') [] = false
equal (a ∷ as') (b ∷ bs) = a == b && equal as' bs
