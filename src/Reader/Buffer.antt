-- ===== src/Reader/Buffer.antt =====
-- What a reader will still deliver, and that the buffer operations keep it.
use tunnelfetch.Prelude.{ℕ, ◌+◌, ◌-◌, ◌≤◌, ◌<◌, ◌≡◌, refl, sym, ap, ◌∙◌, min, true}
use tunnelfetch.Prelude.{List, [], ◌∷◌, ◌++◌, arith, append-nil, leb, ◌==◌, append_assoc}
use tunnelfetch.Prelude.{
  length, drop, take, length-append, length-drop, length-take, take-append_le,
}
use tunnelfetch.Prelude.{
  drop-append_le, slice_join, take_all, Bool-cases, leb→le, ==_iff, ==-ne, inl, inr,
}
use tunnelfetch.Bytes.{Bytes, concat}
use mathlib.Core.Path.{subst}
use tunnelfetch.Reader.{ByteReader, open_reader, fill, take_chunks}
use tunnelfetch.Reader.{take_buffered}

-- The bytes in the buffer, and those that will come out of the reader in all.
abbrev pub content : ByteReader → Bytes
content r = drop r.head (concat r.chunks)

abbrev pub pending : ByteReader → Bytes
pending r = drop r.head (concat r.chunks) ++ concat r.source

abbrev pub Front : ℕ → List Bytes → Type 0
Front head [] = Unit
Front head (c ∷ cs) = head ≤ length c

-- `_len` counts the buffer, `_head` stands in the first chunk, and nothing comes after the end.
pub record Valid (r : ByteReader) : Type 0 where
  pub counted : r.len + r.head ≡ length (concat r.chunks)
  pub front : Front r.head r.chunks
  pub ended : r.eof ≡ true → r.source ≡ []

pub open_reader-Valid : (source : List Bytes) → Valid (open_reader source)
unfolding concat
open_reader-Valid source = record { counted = refl; front = tt; ended = λ e. cc e }

-- A reader whose stream comes in one piece.
pub pending-whole : (s : Bytes) → pending (open_reader (s ∷ [])) ≡ s
unfolding concat
pending-whole s = append-nil s

-- What taking `need` bytes from `head` on leaves: the bytes taken, and the chunks with their head.
record Splits (need head : ℕ) (cs : List Bytes) (t : Bytes × List Bytes × ℕ) : Type 0 where
  joined : t.0 ++ drop t.2 (concat t.1) ≡ drop head (concat cs)
  size : length t.0 ≡ need
  front : Front t.2 t.1
  counted : length (concat t.1) + need + head ≡ length (concat cs) + t.2

Front-zero : (cs : List Bytes) → Front 0 cs
Front-zero [] = tt
Front-zero (c ∷ cs) = omega arith

take-drop_front :
    (n head : ℕ) (c rest : Bytes)
    → head + n ≤ length c
    → take n (drop head (c ++ rest)) ≡ take n (drop head c)
take-drop_front n head c rest h =
    rw (drop-append_le head c rest (omega arith))
      (take-append_le n (drop head c) rest (omega (arith, length-drop head c)))

-- A slice of the first chunk.
Splits-slice :
    (n head : ℕ) (c : Bytes) (cs : List Bytes)
    → head + n ≤ length c
    → Splits n head (c ∷ cs) (take n (drop head c), c ∷ cs, head + n)
unfolding concat
Splits-slice n head c cs h = record {
  joined = rw (← take-drop_front n head c (concat cs) h) (slice_join head n (c ++ concat cs));
  size = omega (arith, length-take n (drop head c), length-drop head c);
  front = h;
  counted = omega arith;
}

-- The rest of the first chunk, and then more from the others.
Splits-more :
    (need head : ℕ) (c : Bytes) (cs : List Bytes) {t : Bytes × List Bytes × ℕ}
    → head ≤ length c
    → length c - head ≤ need
    → Splits (need - (length c - head)) 0 cs t
    → Splits need head (c ∷ cs) (drop head c ++ t.0, t.1, t.2)
unfolding concat
Splits-more need head c cs {t} h k s = record {
  joined =
      append_assoc (drop head c) t.0 (drop t.2 (concat t.1))
      ∙ ap (λ x. drop head c ++ x) s.joined
      ∙ sym (drop-append_le head c (concat cs) h);
  size = omega (arith, length-append (drop head c) t.0, length-drop head c, s.size);
  front = s.front;
  counted = omega (arith, s.counted, length-append c (concat cs));
}

Splits-fill :
    (need head : ℕ) (cs : List Bytes)
    → Front head cs
    → need + head ≤ length (concat cs)
    → Splits need head cs (fill need head cs)
unfolding fill concat
Splits-fill need head [] f h = record {
  joined = refl;
  size = omega arith;
  front = tt;
  counted = omega arith;
}
Splits-fill need head (c ∷ cs) f h = elim (Bool-cases (need == 0)) [
  | inl e ↦ rw e (record {
    joined = refl;
    size = omega (arith, (==_iff need 0).0 e);
    front = f;
    counted = omega (arith, (==_iff need 0).0 e);
  })
  | inr e ↦ elim (Bool-cases (head + min (length c - head) need == length c)) [
    | inl done ↦
        let whole : min (length c - head) need ≡ length c - head =
          omega (arith, (==_iff _ _).0 done, ==-ne need 0 e) in
        rw
          (
            e,
            done,
            whole,
            take_all (length c - head) (drop head c) (omega (arith, length-drop head c)),
          )
          (Splits-more need head c cs f (omega (arith, whole)) (
            Splits-fill (need - (length c - head)) 0 cs (Front-zero cs)
              (omega (arith, length-append c (concat cs), whole))))
    | inr more ↦
        let part : min (length c - head) need ≡ need = omega (arith, ==-ne _ _ more) in
        rw (e, more, part) (Splits-slice need head c cs (omega (arith, part)))
  ]
]

-- What an operation that takes `n` buffered bytes does: they come out in order, and the reader
-- behind them stays valid. The stream is not touched.
pub record Takes (n : ℕ) (r : ByteReader) (t : Bytes × ByteReader) : Type 0 where
  pub joined : t.0 ++ content t.1 ≡ content r
  pub size : length t.0 ≡ n
  pub left : t.1.len + n ≡ r.len
  pub same_source : t.1.source ≡ r.source
  pub valid : Valid t.1

length_chunks :
    (r : ByteReader) (cs : List Bytes)
    → Valid r
    → r.chunks ≡ cs
    → r.len + r.head ≡ length (concat cs)
length_chunks r cs v e = v.counted ∙ ap (λ x. length (concat x)) e

Takes-Splits :
    (n : ℕ) (r : ByteReader) (cs : List Bytes) (t : Bytes × List Bytes × ℕ)
    → Valid r
    → r.chunks ≡ cs
    → n ≤ r.len
    → Splits n r.head cs t
    → Takes n r (t.0, record r { chunks = t.1; head = t.2; len = r.len - n })
Takes-Splits n r cs t v e h s = record {
  joined = s.joined ∙ ap (λ x. drop r.head (concat x)) (sym e);
  size = s.size;
  left = omega arith;
  same_source = refl;
  valid = record {
    counted = omega (arith, s.counted, length_chunks r cs v e);
    front = s.front;
    ended = v.ended;
  };
}

-- The first chunk has enough, and may be used up.
Splits-first :
    (n head : ℕ) (c : Bytes) (cs : List Bytes)
    → head + n ≡ length c
    → Splits n head (c ∷ cs) (take n (drop head c), cs, 0)
unfolding concat
Splits-first n head c cs h = record {
  joined =
      rw (take_all n (drop head c) (omega (arith, length-drop head c)))
        (sym (drop-append_le head c (concat cs) (omega arith)));
  size = omega (arith, length-take n (drop head c), length-drop head c);
  front = Front-zero cs;
  counted = omega (arith, length-append c (concat cs));
}

Takes-chunks :
    (n : ℕ) (r : ByteReader) (cs : List Bytes)
    → Valid r
    → r.chunks ≡ cs
    → 0 < n
    → n ≤ r.len
    → Takes n r (take_chunks n r cs)
unfolding take_chunks
Takes-chunks n r [] v e pos h = absurd (unfold concat in omega (arith, length_chunks r [] v e))
Takes-chunks n r (c ∷ cs) v e pos h = elim (Bool-cases (leb n (length c - r.head))) [
  | inl fast ↦ elim (Bool-cases (r.head + n == length c)) [
    | inl used ↦
        rw (fast, used)
          (Takes-Splits n r (c ∷ cs) _ v e h (Splits-first n r.head c cs ((==_iff _ _).0 used)))
    | inr part ↦
        rw (fast, part)
          (Takes-Splits n r (c ∷ cs) (take n (drop r.head c), r.chunks, r.head + n) v e h
            (subst (λ x. Splits n r.head (c ∷ cs) (take n (drop r.head c), x, r.head + n)) (sym e)
              (Splits-slice n r.head c cs (omega (arith, leb→le _ _ fast, front_le)))))
  ]
  | inr slow ↦ rw slow (
      Takes-Splits n r (c ∷ cs) (fill n r.head (c ∷ cs)) v e h (
        Splits-fill n r.head (c ∷ cs) (subst (Front r.head) e v.front)
          (omega (arith, length_chunks r (c ∷ cs) v e))))
]
  where
    front_le : r.head ≤ length c
    front_le = subst (Front r.head) e v.front

pub Takes-buffered : (n : ℕ) (r : ByteReader) → Valid r → n ≤ r.len → Takes n r (take_buffered n r)
unfolding take_buffered
Takes-buffered n r v h = elim (Bool-cases (n == 0)) [
  | inl e ↦
      let z : n ≡ 0 = (==_iff n 0).0 e in
      rw e (record {
        joined = refl;
        size = omega arith;
        left = omega arith;
        same_source = refl;
        valid = v;
      })
  | inr e ↦ rw e (Takes-chunks n r r.chunks v refl (omega (arith, ==-ne n 0 e)) h)
]
