-- ===== src/Hpack/Integers.antt =====
-- The variable-length integers of HPACK.
use tunnelfetch.Prelude.{
  ℕ, zero, suc, ◌+◌, ◌-◌, ◌*◌, ◌/◌, ◌%◌, ◌^◌, ◌≤◌, ◌<◌, ◌≡◌, refl, ap, ◌∙◌, false, arith,
}
use tunnelfetch.Prelude.{
  [], ◌∷◌, ◌++◌, ltb, leb, length, Bool-cases, inl, inr, ltb→lt, leb→lt, le→leb_false, ltb→le,
  leb→le,
}
use tunnelfetch.Bytes.{Bytes}
use tunnelfetch.Errors.{ok}
use tunnelfetch.Hpack.{
  safe_limit, continue_integer, decode_integer, encode_continuation, encode_integer,
}
use native.Mathlib.Numerals.{towards_suc}
use native.Mathlib.Nat.{
  div-add-mod, pow-suc, mod-lt, mod-eq_of_lt, pow-le-pow_right, mul-add-mod_self_right,
}

weight_suc : (k : ℕ) → 2 ^ (7 * (k + 1)) ≡ 128 * 2 ^ (7 * k)
weight_suc k = ap (λ m. 2 ^ m) seven ∙ shift (7 * k)
  where
    seven : 7 * (k + 1) ≡ 7 * k + 7
    seven = omega arith

    shift : (s : ℕ) → 2 ^ (s + 7) ≡ 128 * 2 ^ s
    shift s = simp towards_suc (omega arith)

weight_max : (k : ℕ) → k + 1 ≤ 6 → 128 * 2 ^ (7 * k) ≤ 2 ^ 42
weight_max zero h = omega arith
weight_max (suc zero) h = omega arith
weight_max (suc (suc zero)) h = omega arith
weight_max (suc (suc (suc zero))) h = omega arith
weight_max (suc (suc (suc (suc zero)))) h = omega arith
weight_max (suc (suc (suc (suc (suc zero))))) h = omega arith
weight_max (suc (suc (suc (suc (suc (suc k)))))) h = absurd (omega arith)

-- What a digit adds stays under the next weight.
digit_bound : (b k : ℕ) → b % 128 * 2 ^ (7 * k) + 2 ^ (7 * k) ≤ 128 * 2 ^ (7 * k)
digit_bound b k = grind arith

continue_integer_takes :
    (src : Bytes) (value k v : ℕ) (rest : Bytes)
    → continue_integer src value k ≡ ok (v, rest)
    → (v + 2 ^ (7 * k) ≤ value + 2 ^ 42) × (length rest < length src)
unfolding continue_integer
continue_integer_takes [] value k v rest e = absurd (cc e)
continue_integer_takes (b ∷ bs) value k v rest e = ground (
  arith,
  weight_suc k,
  weight_max k,
  digit_bound b k,
  continue_integer_takes bs (value + b % 128 * 2 ^ (7 * k)) (k + 1) v rest,
)

-- The lowest digit of `w` and the rest, both at weight `k`.
split_digit : (w k : ℕ) → w * 2 ^ (7 * k) ≡ w % 128 * 2 ^ (7 * k) + w / 128 * 2 ^ (7 * (k + 1))
split_digit w k = omega (
  arith,
  ap (λ (t : ℕ). t * 2 ^ (7 * k)) (div-add-mod w 128),
  ap (λ (t : ℕ). w / 128 * t) (weight_suc k),
)

-- One round on the last byte, and on a byte with another behind it.
continue_last :
    (w value k : ℕ) (rest : Bytes)
    → w < 128
    → k < 6
    → value + w * 2 ^ (7 * k) < safe_limit
    → continue_integer (w ∷ rest) value k ≡ ok (value + w * 2 ^ (7 * k), rest)
unfolding continue_integer
continue_last w value k rest small room safe = ground arith

continue_more :
    (g value k : ℕ) (rest : Bytes)
    → g < 128
    → k < 6
    → value + g * 2 ^ (7 * k) < safe_limit
    → continue_integer ((g + 0x80) ∷ rest) value k
      ≡ continue_integer rest (value + g * 2 ^ (7 * k)) (k + 1)
unfolding continue_integer
continue_more g value k rest small room safe = ground arith

continue-encode :
    (j fuel w value k : ℕ) (rest : Bytes)
    → w ≤ fuel
    → w < 128 ^ suc j
    → k + suc j ≤ 6
    → value + w * 2 ^ (7 * k) < safe_limit
    → continue_integer (encode_continuation fuel w ++ rest) value k
      ≡ ok (value + w * 2 ^ (7 * k), rest)
unfolding encode_continuation
continue-encode j zero w value k rest f d room safe =
    continue_last w value k rest (omega arith) (omega arith) safe
continue-encode zero (suc fuel) w value k rest f d room safe =
    rw (le→leb_false 0x80 w (omega arith))
      (continue_last w value k rest (omega arith) (omega arith) safe)
continue-encode (suc j) (suc fuel) w value k rest f d room safe = elim (Bool-cases (leb 0x80 w)) [
  | inl big ↦ rw big (
      continue_more (w % 128) value k (encode_continuation fuel (w / 128) ++ rest) (omega arith)
        (omega arith) (omega (arith, split_digit w k))
      ∙ continue-encode j fuel (w / 128) (value + w % 128 * 2 ^ (7 * k)) (k + 1) rest
          (omega (arith, leb→le _ _ big)) (omega (arith, pow-suc 128 (suc j))) (omega arith)
          (omega (arith, split_digit w k))
      ∙ ap (λ x. ok (x, rest)) (omega (arith, split_digit w k)))
  | inr small ↦
      rw small (continue_last w value k rest (omega (arith, leb→lt _ _ small)) (omega arith) safe)
]

prefix_bound : (b n : ℕ) → n ≤ 8 → (1 ≤ 2 ^ n) × (b % 2 ^ n < 2 ^ n) × (2 ^ n ≤ 256)
prefix_bound b n h = (pos_, mod-lt _ pos_, pow-le-pow_right (omega arith) h)
  where
    pos_ : 1 ≤ 2 ^ n
    pos_ = pow-le-pow_right {n = 2} (omega arith) {i = 0} {j = n} (omega arith)

-- What is decoded with a prefix of up to eight bits is below 2 ^ 43, so that the test for safe
-- integers never fails, and it takes at
-- least a byte.
pub decode_integer_takes :
    (src : Bytes) (n v : ℕ) (rest : Bytes)
    → n ≤ 8
    → decode_integer src n ≡ ok (v, rest)
    → (v < 2 ^ 43) × (length rest < length src)
unfolding decode_integer
decode_integer_takes [] n v rest w e = absurd (cc e)
decode_integer_takes (b ∷ bs) n v rest w e =
    ground (arith, continue_integer_takes bs (b % 2 ^ n) 0 v rest, prefix_bound b n w)

-- An integer that was encoded behind any prefix bits is decoded, and the bytes that follow are left;
-- for prefixes of up to eight bits and values that six bytes behind the prefix can hold.
pub decode-encode :
    (value n high : ℕ) (rest : Bytes)
    → n ≤ 8
    → value < 2 ^ 42
    → decode_integer (encode_integer value n (high * 2 ^ n) ++ rest) n ≡ ok (value, rest)
unfolding decode_integer encode_integer
decode-encode value n high rest w small = elim (Bool-cases (ltb value (2 ^ n - 1))) [
  | inl short ↦
      rw
        (
          short,
          mul-add-mod_self_right high (2 ^ n) value,
          mod-eq_of_lt (below (ltb→lt _ _ short)),
          short,
        )
        refl
  | inr long ↦
      rw (long, mul-add-mod_self_right high (2 ^ n) (2 ^ n - 1), mod-eq_of_lt top, same)
        (continue-encode 5 (value - (2 ^ n - 1)) (value - (2 ^ n - 1)) (2 ^ n - 1) 0 rest
            (omega arith) (omega arith) (omega arith) (omega (arith, ltb→le _ _ long))
          ∙ ap (λ x. ok (x, rest)) (omega (arith, ltb→le _ _ long)))
]
  where
    below : value < 2 ^ n - 1 → value < 2 ^ n
    below h = omega arith

    top : 2 ^ n - 1 < 2 ^ n
    top = omega (arith, prefix_bound 0 n w)

    same : ltb (2 ^ n - 1) (2 ^ n - 1) ≡ false
    same = ground arith
