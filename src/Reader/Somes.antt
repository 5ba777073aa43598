-- ===== src/Reader/Somes.antt =====
-- readSome.
use tunnelfetch.Prelude.{
  ℕ, zero, suc, ◌≤◌, ◌<◌, ◌≡◌, refl, sym, ap, ◌∙◌, min, Option, none, some, [], ◌++◌, arith, length,
  ◌==◌, Bool-cases, inl, inr, ==_iff, ==-ne,
}
use tunnelfetch.Bytes.{Bytes, concat}
use tunnelfetch.Errors.{ok, Result}
use tunnelfetch.Reader.{ByteReader, pull, take_buffered, some_loop, read_some}
use tunnelfetch.Reader.Buffer.{pending, Valid, Takes, Takes-buffered}
use tunnelfetch.Reader.Pull.{Pulls, Pulls-pull}
use tunnelfetch.Reader.Refines.{length-pending, pending-Takes}
use tunnelfetch.Reader.Compacting.{length_nil, length-nil}
use mathlib.Core.Path.{subst}

-- What is taken of the bytes `s` leaves `left`: nothing if there are none, and else a piece of at most
-- `n` bytes, which is not empty.
abbrev pub IsPiece : ℕ → Bytes → Bytes → Option Bytes → Type 0
IsPiece n s left none = (s ≡ []) × (left ≡ [])
IsPiece n s left (some c) = (0 < length c) × (length c ≤ n) × (c ++ left ≡ s)

pub record Gives (n : ℕ) (s : Bytes) (o : Option (Result (Option Bytes) × ByteReader))
    : Type 0 where
  pub reader : ByteReader
  pub taken : Option Bytes
  pub result : o ≡ some (ok taken, reader)
  pub piece : IsPiece n s (pending reader) taken
  pub valid : Valid reader

some_loop-Gives :
    (fuel n : ℕ) (r : ByteReader)
    → Valid r
    → 0 < n
    → length r.source < fuel
    → Gives n (pending r) (some_loop fuel n r)
unfolding some_loop
some_loop-Gives zero n r v pos h = absurd (omega arith)
some_loop-Gives (suc fuel) n r v pos h = elim (Bool-cases (r.len == 0)) [
  | inl empty ↦ elim (Bool-cases (pull r).0) [
    | inl more ↦
        rw (empty, more)
          (subst (λ s. Gives n s (some_loop fuel n (pull r).1)) p.same
            (some_loop-Gives fuel n (pull r).1 p.valid pos (omega (arith, (p.more more).1))))
    | inr over ↦
        let nothing : pending (pull r).1 ≡ [] = length-nil _ (
          omega (
            arith,
            length-pending (pull r).1 p.valid,
            ap (λ x. length (concat x)) (p.over over).0,
            (p.over over).1,
            (==_iff r.len 0).0 empty,
            length_nil,
          )) in
        rw (empty, over)
          (record {
            reader = (pull r).1;
            taken = none;
            result = refl;
            piece = (sym p.same ∙ nothing, nothing);
            valid = p.valid;
          })
  ]
  | inr full ↦
      let some_bytes = ==-ne r.len 0 full in
      let t : Takes (min n r.len) r (take_buffered (min n r.len) r) =
        Takes-buffered (min n r.len) r v (omega arith) in
      rw full (record {
        reader = (take_buffered (min n r.len) r).1;
        taken = some (take_buffered (min n r.len) r).0;
        result = refl;
        piece = (
          omega (arith, t.size, some_bytes),
          omega (arith, t.size),
          pending-Takes (min n r.len) r _ t,
        );
        valid = t.valid;
      })
]
  where
    p : Pulls r (pull r)
    p = Pulls-pull r v

-- On every valid reader, `read_some` ends. It gives nothing if no bytes are to come, and else a piece
-- of them that is not empty and within the size asked for, and leaves the others.
pub read_some-Gives :
    (n : ℕ) (r : ByteReader) → Valid r → 0 < n → Gives n (pending r) (read_some n r)
unfolding read_some
read_some-Gives n r v pos = some_loop-Gives (suc (length r.source)) n r v pos (omega arith)
