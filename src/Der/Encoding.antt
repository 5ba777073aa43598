-- ===== src/Der/Encoding.antt =====
-- The distinguished encoding of elements, as X.690 defines it. The code never encodes; its readers
-- are held against this.
use tunnelfetch.Prelude.{
  ℕ, zero, suc, ◌+◌, ◌*◌, ◌/◌, ◌%◌, ◌^◌, ◌≤◌, ◌<◌, ◌≡◌, ◌≢◌, refl, ap, Bool, [], ◌∷◌, ◌++◌, ltb,
  if◌then◌else◌, length, arith,
}
use tunnelfetch.Bytes.{Bytes, u8, u16, u24, u32}

-- The base-128 digits of `v` but with no digits for 0, all marked as continued. The fuel is `v`.
unfoldable pub septets : ℕ → ℕ → Bytes
septets zero v = []
septets (suc fuel) zero = []
septets (suc fuel) (suc v) = septets fuel (suc v / 128) ++ (128 + suc v % 128) ∷ []

-- A number in base 128, without leading zeros, the last byte below 128.
unfoldable pub base128 : ℕ → Bytes
unfolding septets
base128 v = septets v (v / 128) ++ v % 128 ∷ []

-- The shortest form of a length.
unfoldable pub length_octets : ℕ → Bytes
length_octets n =
    if ltb n 128
    then u8 n
    else if ltb n (2 ^ 8)
    then 129 ∷ u8 n
    else if ltb n (2 ^ 16)
    then 130 ∷ u16 n
    else if ltb n (2 ^ 24)
    then 131 ∷ u24 n
    else 132 ∷ u32 n

-- The first byte: the class, the form, and the number of the tag if it is below 31.
unfoldable pub identifier : ℕ → Bool → ℕ → ℕ
identifier cls constructed tag =
    cls * 64 + (if constructed then 32 else 0) + (if ltb tag 31 then tag else 31)

unfoldable pub high_tag : ℕ → Bytes
unfolding base128
high_tag tag = if ltb tag 31 then [] else base128 tag

unfoldable pub header : ℕ → Bool → ℕ → ℕ → Bytes
unfolding identifier high_tag length_octets
header cls constructed tag size =
    identifier cls constructed tag ∷ high_tag tag ++ length_octets size

unfoldable pub encode : ℕ → Bool → ℕ → Bytes → Bytes
unfolding header
encode cls constructed tag body = header cls constructed tag (length body) ++ body

-- Any fuel of at least `v` gives all digits.
pub septets_enough : (f g v : ℕ) → v ≤ f → v ≤ g → septets f v ≡ septets g v
unfolding septets
septets_enough zero zero v p q = refl
septets_enough zero (suc g) zero p q = refl
septets_enough zero (suc g) (suc v) p q = absurd (omega arith)
septets_enough (suc f) zero zero p q = refl
septets_enough (suc f) zero (suc v) p q = absurd (omega arith)
septets_enough (suc f) (suc g) zero p q = refl
septets_enough (suc f) (suc g) (suc v) p q =
    ap (λ ds. ds ++ (128 + suc v % 128) ∷ [])
      (septets_enough f g (suc v / 128) (omega arith) (omega arith))

-- One digit more.
pub septets_step :
    (v b : ℕ)
    → b < 128
    → v * 128 + b ≢ 0
    → septets (v * 128 + b) (v * 128 + b) ≡ septets v v ++ (128 + b) ∷ []
unfolding septets
septets_step v b small some_digit = go (v * 128 + b) refl
  where
    go : (w : ℕ) → w ≡ v * 128 + b → septets w w ≡ septets v v ++ (128 + b) ∷ []
    go zero e = absurd (some_digit (omega arith))
    go (suc w) e =
        let high : suc w / 128 ≡ v = omega arith in
        let low : suc w % 128 ≡ b = omega arith in
        rw (low, septets_enough w (suc w / 128) (suc w / 128) (omega arith) (omega arith), high)

-- The last byte of a number.
pub base128_step : (v b : ℕ) → b < 128 → base128 (v * 128 + b) ≡ septets v v ++ b ∷ []
unfolding base128
base128_step v b small =
    let high : (v * 128 + b) / 128 ≡ v = omega arith in
    let low : (v * 128 + b) % 128 ≡ b = omega arith in
    rw (high, low, septets_enough (v * 128 + b) v v (omega arith) (omega arith))
