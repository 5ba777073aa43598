-- ===== src/Bytes/Search.antt =====
-- equal and indexOf of util/bytes.js.
use tunnelfetch.Prelude.{ℕ, zero, suc, ◌+◌, ◌≤◌, ◌<◌, ◌≡◌, refl, true, ◌&&◌, ap}
use tunnelfetch.Prelude.{none, some, [], ◌∷◌, ◌++◌, arith, length, drop}
use tunnelfetch.Prelude.{◌==◌}
use native.Mathlib.Decide.{dec_le}
use tunnelfetch.Prelude.{sym, ◌∙◌, ◌-◌}
use tunnelfetch.Bytes.{Bytes, starts_with, index_loop, equal}

pub equal-eq : (a b : Bytes) → equal a b ≡ true → a ≡ b
unfolding equal
equal-eq [] [] h = refl
equal-eq [] (b ∷ bs) h = cc
equal-eq (a ∷ r) [] h = cc
equal-eq (a ∷ r) (b ∷ bs) h = ground (arith, equal-eq r bs)

pub equal_refl : (a : Bytes) → equal a a ≡ true
unfolding equal
equal_refl [] = refl
equal_refl (a ∷ r) = ground (arith, equal_refl r)

-- The needle is compared with its own length of bytes and no more.
starts_with-append :
    (needle hay more : Bytes)
    → length needle ≤ length hay
    → starts_with needle (hay ++ more) ≡ starts_with needle hay
unfolding starts_with
starts_with-append [] hay more h = refl
starts_with-append (n ∷ ns) [] more h = absurd (omega arith)
starts_with-append (n ∷ ns) (x ∷ xs) more h =
    ap (λ b. (x == n) && b) (starts_with-append ns xs more (omega arith))

starts_with-length :
    (needle hay : Bytes) → starts_with needle hay ≡ true → length needle ≤ length hay
unfolding starts_with
starts_with-length [] hay h = omega arith
starts_with-length (n ∷ ns) [] h = absurd (cc)
starts_with-length (n ∷ ns) (x ∷ xs) h = ground (arith, starts_with-length ns xs)

-- An occurrence ends inside the bytes.
pub index_loop-bound :
    (needle hay : Bytes) (i k : ℕ)
    → index_loop needle i hay ≡ some k
    → (i ≤ k) × (k + length needle ≤ i + length hay)
unfolding index_loop
index_loop-bound needle [] i k h = absurd (cc)
index_loop-bound needle (x ∷ xs) i k h =
    ground (arith, starts_with-length needle (x ∷ xs), index_loop-bound needle xs (i + 1) k)

-- What is found in a prefix is the first occurrence in the whole.
pub index_loop-append :
    (needle hay more : Bytes) (i k : ℕ)
    → index_loop needle i hay ≡ some k
    → index_loop needle i (hay ++ more) ≡ some k
unfolding index_loop
index_loop-append needle [] more i k h = absurd (cc)
index_loop-append needle (x ∷ xs) more i k h = ground (
  arith,
  starts_with-append needle (x ∷ xs) more,
  starts_with-length needle (x ∷ xs),
  index_loop-bound needle xs (i + 1) k,
  index_loop-append needle xs more (i + 1) k,
)

-- With no occurrence in `hay`, a search of `hay ++ more` may skip every position at which the
-- needle would lie in `hay` whole.
pub index_loop_resume :
    (needle hay more : Bytes) (i m : ℕ)
    → 0 < length needle
    → m + length needle ≤ length hay + 1
    → index_loop needle i hay ≡ none
    → index_loop needle i (hay ++ more) ≡ index_loop needle (i + m) (drop m (hay ++ more))
unfolding index_loop
index_loop_resume needle hay more i zero pos fits h =
    ap (λ k. index_loop needle k (hay ++ more)) (omega arith)
index_loop_resume needle [] more i (suc m) pos fits h = absurd (omega arith)
index_loop_resume needle (x ∷ xs) more i (suc m) pos fits h = ground (
  arith,
  starts_with-append needle (x ∷ xs) more,
  index_loop_resume needle xs more (i + 1) m,
  ap (λ (k : ℕ). index_loop needle k (drop m (xs ++ more))) shifted,
)
  where
    shifted : i + 1 + m ≡ i + suc m
    shifted = omega arith

-- With no occurrence in `hay`, one in `hay ++ more` ends in `more`.
index_loop_after :
    (needle hay more : Bytes) (k m : ℕ)
    → 0 < length needle
    → m + length needle ≡ length hay + 1
    → index_loop needle 0 hay ≡ none
    → index_loop needle 0 (hay ++ more) ≡ some k
    → m ≤ k
index_loop_after needle hay more k m pos fits h f =
    let found : index_loop needle (0 + m) (drop m (hay ++ more)) ≡ some k =
      sym (index_loop_resume needle hay more 0 m pos (omega arith) h) ∙ f in
    omega (arith, (index_loop-bound needle (drop m (hay ++ more)) (0 + m) k found).0)

pub index_loop_late :
    (needle hay more : Bytes) (k : ℕ)
    → 0 < length needle
    → index_loop needle 0 hay ≡ none
    → index_loop needle 0 (hay ++ more) ≡ some k
    → length hay < k + length needle
index_loop_late needle hay more k pos h f = elim (dec_le (length needle) (length hay + 1)) [
  | yes fits ↦ omega (
    arith,
    index_loop_after needle hay more k (length hay + 1 - length needle) pos (omega arith) h f,
  )
  | no big ↦ omega (arith, big)
]
