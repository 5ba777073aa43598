-- ===== src/Bytes/Concat.antt =====
-- concat of util/bytes.js, and reading behind a known front.
use tunnelfetch.Prelude.{ℕ, suc, ◌+◌, ◌≡◌, refl, sym, ap, ◌∙◌, List, [], ◌∷◌, ◌++◌, arith, length}
use tunnelfetch.Prelude.{append_assoc, append-nil}
use tunnelfetch.Bytes.{Bytes, concat, at}

pub concat-append : (ps qs : List Bytes) → concat (ps ++ qs) ≡ concat ps ++ concat qs
unfolding concat
concat-append [] qs = refl
concat-append (p ∷ ps) qs = rw (concat-append ps qs) (sym (append_assoc p (concat ps) (concat qs)))

pub concat-snoc : (ps : List Bytes) (q : Bytes) → concat (ps ++ (q ∷ [])) ≡ concat ps ++ q
concat-snoc ps q =
    concat-append ps (q ∷ []) ∙ ap (λ x. concat ps ++ x) (unfold concat in append-nil q)

pub at-append : (pre xs : Bytes) (k : ℕ) → at (pre ++ xs) (length pre + k) ≡ at xs k
at-append [] xs k = ap (at xs) (omega arith)
at-append (p ∷ pre) xs k =
    let e : suc (length pre) + k ≡ suc (length pre + k) = omega arith in rw e (at-append pre xs k)

pub at-append_zero : (pre xs : Bytes) → at (pre ++ xs) (length pre) ≡ at xs 0
at-append_zero [] xs = refl
at-append_zero (p ∷ pre) xs = at-append_zero pre xs
