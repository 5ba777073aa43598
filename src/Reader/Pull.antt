-- ===== src/Reader/Pull.antt =====
-- `_pull` keeps what a reader will still deliver.
use tunnelfetch.Prelude.{ℕ, ◌+◌, ◌≤◌, ◌<◌, ◌≡◌, refl, sym, ap, ◌∙◌, Bool, true, false}
use tunnelfetch.Prelude.{List, [], ◌∷◌, ◌++◌, arith, ltb, append_assoc, append-nil}
use tunnelfetch.Prelude.{length, drop, length-append}
use tunnelfetch.Prelude.{drop-append_le, Bool-cases, inl, inr, ltb→lt, ltb→le}
use tunnelfetch.Bytes.{Bytes, concat}
use tunnelfetch.Bytes.Concat.{concat-append}
use tunnelfetch.Reader.{ByteReader, pull, pull_source}
use tunnelfetch.Reader.Buffer.{content, pending, Valid, Front}

-- `_pull` moves bytes from the stream to the buffer, and answers false only when there are none.
pub record Pulls (r : ByteReader) (p : Bool × ByteReader) : Type 0 where
  pub same : pending p.1 ≡ pending r
  pub valid : Valid p.1
  pub more : p.0 ≡ true → (r.len < p.1.len) × (length p.1.source < length r.source)
  pub over : p.0 ≡ false → (p.1.source ≡ []) × (p.1.len ≡ r.len)
  pub grown : (more : Bytes) × (content p.1 ≡ content r ++ more)

-- An empty chunk carries nothing.
length-zero : (xs : Bytes) → ltb 0 (length xs) ≡ false → xs ≡ []
length-zero [] h = refl
length-zero (x ∷ xs) h = absurd (omega (arith, ltb→le _ _ h))

drop-concat_push :
    (head : ℕ) (cs : List Bytes) (c : Bytes)
    → head ≤ length (concat cs)
    → drop head (concat (cs ++ (c ∷ []))) ≡ drop head (concat cs) ++ c
drop-concat_push head cs c h =
    rw (concat-append cs (c ∷ []))
      (unfold concat in rw append-nil (drop-append_le head (concat cs) c h))

Front-push :
    (head : ℕ) (cs : List Bytes) (c : Bytes)
    → Front head cs
    → head ≤ length (concat cs)
    → Front head (cs ++ (c ∷ []))
unfolding concat
Front-push head [] c f h = omega arith
Front-push head (d ∷ ds) c f h = f

Pulls-push :
    (r : ByteReader) (c : Bytes) (cs : List Bytes)
    → Valid r
    → r.eof ≡ false
    → r.source ≡ c ∷ cs
    → ltb 0 (length c) ≡ true
    → Pulls r
        (true, record r { chunks = r.chunks ++ (c ∷ []); len = r.len + length c; source = cs })
Pulls-push r c cs v open_ e some_ = record {
  same = rw (pushed) (
      append_assoc (drop r.head (concat r.chunks)) c (concat cs)
      ∙ ap (λ x. content r ++ x) (unfold concat in ap concat (sym e)));
  valid = record {
    counted = omega (
      arith,
      v.counted,
      ap length (concat-append r.chunks (c ∷ [])),
      length-append (concat r.chunks) (concat (c ∷ [])),
      one,
    );
    front = Front-push r.head r.chunks c v.front (omega (arith, v.counted));
    ended = λ t. absurd (cc (t, open_));
  };
  more = λ _. (omega (arith, ltb→lt _ _ some_), omega (arith, ap length e));
  over = λ t. absurd (cc t);
  grown = (c, pushed);
}
  where
    one : length (concat (c ∷ [])) ≡ length c
    one = unfold concat in ap length (append-nil c)

    pushed : drop r.head (concat (r.chunks ++ (c ∷ []))) ≡ drop r.head (concat r.chunks) ++ c
    pushed = drop-concat_push r.head r.chunks c (omega (arith, v.counted))

Pulls-skip :
    (r : ByteReader) (c : Bytes) (cs : List Bytes) {p : Bool × ByteReader}
    → r.source ≡ c ∷ cs
    → c ≡ []
    → Pulls (record r { source = cs }) p
    → Pulls r p
unfolding concat
Pulls-skip r c cs e none_ h = record {
  same =
      h.same ∙ ap (λ x. content r ++ x) (ap (λ x. x ++ concat cs) (sym none_) ∙ ap concat (sym e));
  valid = h.valid;
  more = λ t. ((h.more t).0, omega (arith, (h.more t).1, ap length e));
  over = h.over;
  grown = h.grown;
}

Pulls-source :
    (cs : List Bytes) (r : ByteReader)
    → Valid r
    → r.eof ≡ false
    → r.source ≡ cs
    → Pulls r (pull_source cs r)
unfolding pull_source
Pulls-source [] r v open_ e = record {
  same = ap (λ x. content r ++ concat x) (sym e);
  valid = record { counted = v.counted; front = v.front; ended = λ _. refl };
  more = λ t. absurd (cc t);
  over = λ _. (refl, refl);
  grown = ([], sym (append-nil (content r)));
}
Pulls-source (c ∷ cs) r v open_ e = elim (Bool-cases (ltb 0 (length c))) [
  | inl t ↦ rw t (Pulls-push r c cs v open_ e t)
  | inr t ↦ rw t (
      Pulls-skip r c cs e (length-zero c t) (
        Pulls-source cs (record r { source = cs })
          (record { counted = v.counted; front = v.front; ended = λ x. absurd (cc (x, open_)) })
          open_ refl))
]

pub Pulls-pull : (r : ByteReader) → Valid r → Pulls r (pull r)
unfolding pull
Pulls-pull r v = elim (Bool-cases r.eof) [
  | inl e ↦ simp e (record {
    same = refl;
    valid = v;
    more = λ t. absurd (cc t);
    over = λ _. (v.ended e, refl);
    grown = ([], sym (append-nil (content r)));
  })
  | inr e ↦ simp e (Pulls-source r.source r v e refl)
]
