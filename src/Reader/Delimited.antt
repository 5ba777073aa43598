-- ===== src/Reader/Delimited.antt =====
-- readUntil.
use tunnelfetch.Prelude.{
  ℕ, zero, suc, ◌+◌, ◌-◌, ◌<◌, ◌≡◌, refl, sym, ap, ◌∙◌, false, Option, none, some,
}
use tunnelfetch.Prelude.{
  [], ◌++◌, arith, length, drop, take, ltb, if◌then◌else◌, Bool-cases, inl, inr,
}
use tunnelfetch.Prelude.{ltb→lt, lt→ltb, length-append, append-nil, Option-cases}
use tunnelfetch.Bytes.{Bytes, concat, index_of, index_loop}
use tunnelfetch.Bytes.Search.{
  index_loop_resume, index_loop-append, index_loop-bound, index_loop_late,
}
use tunnelfetch.Errors.{Result, ok, err, unexpected_eof, limit_error, limit_header}
use tunnelfetch.Reader.{
  ByteReader, pull, take_buffered, compact, scanned_bytes, until_loop, read_until,
}
use tunnelfetch.Reader.Buffer.{content, pending, Valid, Takes, Takes-buffered}
use tunnelfetch.Reader.Pull.{Pulls, Pulls-pull}
use tunnelfetch.Reader.Refines.{Ends, length-pending, length-content, take-Takes, drop-Takes}
use mathlib.Core.Path.{subst}
use native.Mathlib.Decide.{dec_le}
use tunnelfetch.Reader.Compacting.{
  Compacts, Compacts-compact, pending-Compacts, length_nil, length-nil,
}

-- The bytes up to the end of the first needle, if that is within the limit. Otherwise nothing is
-- used up, and the error tells a limit passed from a stream that ended.
abbrev pub until_found : Bytes → ℕ → Bytes → Option ℕ → Result Bytes × Bytes
until_found needle max_bytes s none =
    if ltb max_bytes (length s)
    then (err (limit_error limit_header), s)
    else (err (unexpected_eof none (length s)), s)
until_found needle max_bytes s (some k) =
    if ltb max_bytes (k + length needle)
    then (err (limit_error limit_header), s)
    else (ok (take (k + length needle) s), drop (k + length needle) s)

abbrev pub until_spec : Bytes → ℕ → Bytes → Result Bytes × Bytes
until_spec needle max_bytes s = until_found needle max_bytes s (index_loop needle 0 s)

-- The buffer after a round that found nothing and pulled more.
until_more :
    (needle : Bytes) (max_bytes : ℕ) (b rest : Bytes)
    → 0 < length needle
    → index_loop needle 0 b ≡ none
    → max_bytes < length b
    → (s : Bytes) → s ≡ b ++ rest
    → until_found needle max_bytes s (index_loop needle 0 s) ≡ (err (limit_error limit_header), s)
until_more needle max_bytes b rest pos h over s e = elim (Option-cases (index_loop needle 0 s)) [
  | inl n ↦
      rw (n, lt→ltb max_bytes (length s) (omega (arith, ap length e, length-append b rest))) refl
  | inr (k, f) ↦
      rw
        (
          f,
          lt→ltb max_bytes (k + length needle) (
              omega (
                arith,
                index_loop_late needle b rest k pos h (ap (index_loop needle 0) (sym e) ∙ f),
              )),
        )
        refl
]

-- The search of the buffer may begin where the last round stopped.
index_of_resume :
    (needle p q : Bytes) (n : ℕ)
    → 0 < length needle
    → length p ≡ n
    → index_loop needle 0 p ≡ none
    → index_of (p ++ q) needle (n + 1 - length needle) ≡ index_loop needle 0 (p ++ q)
unfolding index_of
index_of_resume needle p q n pos e h = elim (dec_le (length needle) (length p + 1)) [
  | yes fits ↦
      ap (λ i. index_loop needle i (drop (n + 1 - length needle) (p ++ q))) (omega arith)
      ∙ sym (index_loop_resume needle p q 0 (n + 1 - length needle) pos (omega (arith, fits, e)) h)
  | no big ↦
      let z : n + 1 - length needle ≡ 0 = omega (arith, big, e) in
      ap (λ i. index_loop needle i (drop i (p ++ q))) z
]

-- A found needle is taken out of the buffer, or is past the limit.
until_taken :
    (needle : Bytes) (max_bytes k : ℕ) (j : ByteReader)
    → Valid j
    → index_loop needle 0 (content j) ≡ some k
    → Ends Bytes
        (if ltb max_bytes (k + length needle)
          then some (err (limit_error limit_header), j)
          else some
              (ok (take_buffered (k + length needle) j).0, (take_buffered (k + length needle) j).1))
        (until_found needle max_bytes (pending j) (some k))
until_taken needle max_bytes k j v f = elim (Bool-cases (ltb max_bytes (k + length needle))) [
  | inl over ↦ rw over (record { reader = j; result = refl; left = refl; valid = v })
  | inr within ↦
      let t : Takes (k + length needle) j (take_buffered (k + length needle) j) =
        Takes-buffered (k + length needle) j v
          (omega (arith, (index_loop-bound needle (content j) 0 k f).1, length-content j v)) in
      rw within (record {
        reader = (take_buffered (k + length needle) j).1;
        result =
            ap (λ x. some (ok x, (take_buffered (k + length needle) j).1))
              (sym (take-Takes (k + length needle) j _ t));
        left = drop-Takes (k + length needle) j _ t;
        valid = t.valid;
      })
]

-- The stream ended with no needle in the buffer.
until_over :
    (needle : Bytes) (max_bytes : ℕ) (j : ByteReader)
    → Valid j
    → index_loop needle 0 (content j) ≡ none
    → ltb max_bytes (length (content j)) ≡ false
    → (pull j).0 ≡ false
    → Ends Bytes
        (some (err (unexpected_eof none (length (content j))), (pull j).1))
        (until_spec needle max_bytes (pending j))
until_over needle max_bytes j v f within over =
    rw (all, f, within)
      (record { reader = (pull j).1; result = refl; left = p.same ∙ all; valid = p.valid })
  where
    p : Pulls j (pull j)
    p = Pulls-pull j v

    empty : concat j.source ≡ []
    empty = length-nil _ (
        omega (
          arith,
          length-pending j v,
          length-pending (pull j).1 p.valid,
          ap length p.same,
          ap (λ x. length (concat x)) (p.over over).0,
          (p.over over).1,
          length_nil,
        ))

    all : pending j ≡ content j
    all = ap (λ x. content j ++ x) empty ∙ append-nil (content j)

until_loop-Ends :
    (fuel : ℕ) (needle : Bytes) (max_bytes scanned : ℕ) (p q : Bytes) (r : ByteReader)
    → Valid r
    → 0 < length needle
    → content r ≡ p ++ q
    → length p ≡ scanned
    → index_loop needle 0 p ≡ none
    → length r.source < fuel
    → Ends Bytes
        (until_loop fuel needle max_bytes scanned r)
        (until_spec needle max_bytes (pending r))
unfolding until_loop
until_loop-Ends zero needle max_bytes scanned p q r v pos e sz h fl = absurd (omega arith)
until_loop-Ends (suc fuel) needle max_bytes scanned p q r v pos e sz h fl =
    elim (Option-cases (index_loop needle 0 (content j))) [
      | inr (k, f) ↦
          rw
            (
              found ∙ f,
              until_loop,
              sym (pending-Compacts r j c),
              index_loop-append needle (content j) (concat j.source) 0 k f,
            )
            (until_taken needle max_bytes k j c.valid f)
      | inl f ↦ elim (Bool-cases (ltb max_bytes (length (content j)))) [
        | inl over ↦
            rw (found ∙ f, until_loop, c.buf, over)
              (subst (Ends Bytes (some (err (limit_error limit_header), j)))
                (sym (
                  until_more needle max_bytes (content j) (concat j.source) pos f (ltb→lt _ _ over)
                    (pending r) (sym (pending-Compacts r j c))))
                (record {
                  reader = j;
                  result = refl;
                  left = pending-Compacts r j c;
                  valid = c.valid;
                }))
        | inr within ↦ elim (Bool-cases (pull j).0) [
          | inl more ↦
              rw (found ∙ f, until_loop, c.buf, within, more)
                (subst
                  (λ s.
                    Ends Bytes (until_loop fuel needle max_bytes (length (content j)) (pull j).1)
                      (until_spec needle max_bytes s))
                  (pulled.same ∙ pending-Compacts r j c)
                  (until_loop-Ends fuel needle max_bytes (length (content j)) (content j)
                    pulled.grown.0 (pull j).1 pulled.valid pos pulled.grown.1 refl f
                    (omega (arith, (pulled.more more).1, ap length c.source))))
          | inr end ↦
              rw (found ∙ f, until_loop, c.buf, within, end, sym (pending-Compacts r j c))
                (until_over needle max_bytes j c.valid f within end)
        ]
      ]
    ]
  where
    j : ByteReader
    j = compact r

    c : Compacts r j
    c = Compacts-compact r v

    pulled : Pulls j (pull j)
    pulled = Pulls-pull j c.valid

    found :
        index_of (scanned_bytes j) needle (scanned + 1 - length needle)
        ≡ index_loop needle 0 (content j)
    found =
        ap (λ b. index_of b needle (scanned + 1 - length needle)) (c.buf ∙ c.same ∙ e)
        ∙ index_of_resume needle p q scanned pos sz h
        ∙ ap (index_loop needle 0) (sym (c.same ∙ e))

-- On every valid reader and for every needle that is not empty, `read_until` ends. It gives the
-- bytes to come up to the end of the first needle and leaves those behind it, if that end is within
-- the limit; else it uses up none, and fails with a limit error, or with an end of stream if all
-- the bytes to come are within the limit and hold no needle. How they are chunked has no influence.
pub read_until-Ends :
    (needle : Bytes) (max_bytes : ℕ) (r : ByteReader)
    → Valid r
    → 0 < length needle
    → Ends Bytes (read_until needle max_bytes r) (until_spec needle max_bytes (pending r))
unfolding read_until
read_until-Ends needle max_bytes r v pos =
    until_loop-Ends (suc (length r.source)) needle max_bytes 0 [] (content r) r v pos refl refl
      (unfold index_loop in refl) (omega arith)
