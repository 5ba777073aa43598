-- ===== src/Reader/Exact.antt =====
-- readExactly.
use tunnelfetch.Prelude.{ℕ, zero, suc, ◌<◌, ◌≡◌, refl, sym, ap, some}
use tunnelfetch.Prelude.{[], arith, length, drop, take, ltb, if◌then◌else◌, Bool-cases, inl, inr}
use tunnelfetch.Prelude.{ltb→le, le→ltb}
use tunnelfetch.Bytes.{Bytes, concat}
use tunnelfetch.Errors.{Result, ok, err, unexpected_eof}
use tunnelfetch.Reader.{ByteReader, pull, take_buffered, exactly_loop, read_exactly}
use tunnelfetch.Reader.Buffer.{pending, Valid, Takes, Takes-buffered}
use tunnelfetch.Reader.Pull.{Pulls, Pulls-pull}
use tunnelfetch.Reader.Refines.{Ends, length-pending, take-Takes, drop-Takes}
use mathlib.Core.Path.{subst}

-- The first `n` bytes, or an error that says how many there were; then nothing is used up.
abbrev pub exactly_spec : ℕ → Bytes → Result Bytes × Bytes
exactly_spec n s =
    if ltb (length s) n
    then (err (unexpected_eof (some n) (length s)), s)
    else (ok (take n s), drop n s)

length_nil : length (concat []) ≡ 0
unfolding concat
length_nil = refl

exactly_loop-Ends :
    (fuel n : ℕ) (r : ByteReader)
    → Valid r
    → length r.source < fuel
    → Ends Bytes (exactly_loop fuel n r) (exactly_spec n (pending r))
unfolding exactly_loop
exactly_loop-Ends zero n r v h = absurd (omega arith)
exactly_loop-Ends (suc fuel) n r v h = elim (Bool-cases (ltb r.len n)) [
  | inl short ↦ elim (Bool-cases (pull r).0) [
    | inl more ↦
        rw (short, more)
          (subst (λ s. Ends Bytes (exactly_loop fuel n (pull r).1) (exactly_spec n s)) p.same
            (exactly_loop-Ends fuel n (pull r).1 p.valid (omega (arith, (p.more more).1))))
    | inr over ↦
        let all : length (pending r) ≡ r.len = omega (
          arith,
          length-pending r v,
          length-pending (pull r).1 p.valid,
          ap length p.same,
          ap (λ x. length (concat x)) (p.over over).0,
          (p.over over).1,
          length_nil,
        ) in
        rw (short, over, all, short)
          (record {
            reader = (pull r).1;
            result = ap (λ k. some (err (unexpected_eof (some n) k), (pull r).1)) (p.over over).1;
            left = p.same;
            valid = p.valid;
          })
  ]
  | inr enough ↦
      let t : Takes n r (take_buffered n r) = Takes-buffered n r v (ltb→le _ _ enough) in
      rw
        (
          enough,
          le→ltb (length (pending r)) n (omega (arith, ltb→le _ _ enough, length-pending r v)),
        )
        (record {
          reader = (take_buffered n r).1;
          result = ap (λ x. some (ok x, (take_buffered n r).1)) (sym (take-Takes n r _ t));
          left = drop-Takes n r _ t;
          valid = t.valid;
        })
]
  where
    p : Pulls r (pull r)
    p = Pulls-pull r v

pub read_exactly-Ends :
    (n : ℕ) (r : ByteReader) → Valid r → Ends Bytes (read_exactly n r) (exactly_spec n (pending r))
unfolding read_exactly
read_exactly-Ends n r v = exactly_loop-Ends (suc (length r.source)) n r v (omega arith)
