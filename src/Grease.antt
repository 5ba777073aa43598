-- ===== src/Grease.antt =====
-- src/tls/grease.js: the reserved values, the seeded source of them, and the shuffle of extensions.
use tunnelfetch.Prelude.{
  ℕ, zero, suc, ◌+◌, ◌-◌, ◌*◌, ◌/◌, ◌%◌, ◌^◌, Bool, true, false, ◌&&◌, ◌||◌, List, [], ◌∷◌, ltb,
  ◌==◌, if◌then◌else◌, length, get_or,
}
use tunnelfetch.Bytes.{Bytes}
use Prim.Native.Nat.{bit_and, bit_xor}

-- The first n of the sixteen values, from the i-th on.
pub values_from : ℕ → ℕ → List ℕ
values_from zero i = []
values_from (suc n) i = (i * 0x1000 + 0x0a00 + i * 0x10 + 0x0a) ∷ values_from n (i + 1)

pub grease_values : List ℕ
grease_values = values_from 16 0

-- `v` is a number of 16 bits.
pub is_grease : ℕ → Bool
is_grease v = bit_and v 0x0f0f == 0x0a0a && v / 256 == v % 256

-- `s >> k` on 32 bits, read again as a number that is not negative.
pub sar : ℕ → ℕ → ℕ
sar s k = if ltb s (2 ^ 31) then s / 2 ^ k else s / 2 ^ k + (2 ^ 32 - 2 ^ (32 - k))

-- The state of a source: the generator's, and the values that it has given.
pub record GreaseSource : Type 0 where
  pub s : ℕ
  pub used : List ℕ

pub grease_source : ℕ → GreaseSource
grease_source seed = record {
  s = if seed % 2 ^ 32 == 0 then 0x9e3779b9 else seed % 2 ^ 32;
  used = [];
}

-- `next`, on the number alone.
pub next : ℕ → ℕ
next s0 =
    let s1 = bit_xor s0 (s0 * 2 ^ 13 % 2 ^ 32) in
    let s2 = bit_xor s1 (sar s1 17) in bit_xor s2 (s2 * 2 ^ 5 % 2 ^ 32)

pub has_value : ℕ → List ℕ → Bool
has_value v [] = false
has_value v (u ∷ us) = if u == v then true else has_value v us

-- The rounds that `take` has left.
pub take_rounds : ℕ → GreaseSource → ℕ × GreaseSource
take_rounds zero g = (get_or grease_values (length g.used % 16) 0, g)
take_rounds (suc rounds) g =
    let s' = next g.s in
    let v = get_or grease_values (s' % 16) 0 in
    let later = take_rounds rounds (record g { s = s' }) in
    if has_value v g.used then later else (v, record { s = s'; used = v ∷ g.used })

pub take_value : GreaseSource → ℕ × GreaseSource
take_value g = take_rounds 64 g

-- `[out[i], out[j]] = [out[j], out[i]]`, at indices that the list has.
pub put : List Bytes → ℕ → Bytes → List Bytes
put [] i e = []
put (x ∷ xs) zero e = e ∷ xs
put (x ∷ xs) (suc i) e = x ∷ put xs i e

pub swap : List Bytes → ℕ → ℕ → List Bytes
swap out i j = put (put out i (get_or out j [])) j (get_or out i [])

module _ (type_of : Bytes → ℕ) where
  -- The leading extensions that stay.
  pub low : List Bytes → ℕ
  low [] = 0
  low (e ∷ es) = let rest = low es in if is_grease (type_of e) then rest + 1 else 0

  -- `while (hi > lo && …) hi--`, with the distance from `lo` to `hi` to go.
  pub high : List Bytes → ℕ → ℕ → ℕ → ℕ
  high out psk_type lo zero = lo
  high out psk_type lo (suc n) =
      let t = type_of (get_or out (lo + suc n) []) in
      let below = high out psk_type lo n in
      if is_grease t || t == psk_type then below else lo + suc n

  -- The Fisher-Yates rounds for i from lo + n down to lo + 1, with the state that the generator ends in.
  pub shuffle_rounds : ℕ → ℕ → ℕ → List Bytes → List Bytes × ℕ
  shuffle_rounds lo zero s out = (out, s)
  shuffle_rounds lo (suc n) s out =
      shuffle_rounds lo n (next s) (swap out (lo + suc n) (lo + next s % (suc n + 1)))

  -- Where every extension leads, `hi` starts below `lo`, and nothing is moved.
  pub shuffle_extensions : List Bytes → ℕ → ℕ → List Bytes × ℕ
  shuffle_extensions parts s psk_type =
      let lo = low parts in
      let hi = high parts psk_type lo (length parts - 1 - lo) in shuffle_rounds lo (hi - lo) s parts
