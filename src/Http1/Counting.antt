-- ===== src/Http1/Counting.antt =====
-- src/http1/response.js, readResponseBody with a declared length: a consumer that pulls until the body
-- ends.
use tunnelfetch.Prelude.{
  ℕ, zero, suc, ◌+◌, ◌-◌, ◌≤◌, ◌<◌, ◌≡◌, refl, sym, ap, ◌∙◌, min, true, Option, none, some, [],
  ◌++◌, append_assoc, leb, ◌==◌, if◌then◌else◌, if_false, ne→==, length, take, drop, take_past,
  take-append, drop-append, drop_add, Bool-cases, inl, inr, if_cases, ◌^◌, ==_iff, ==-ne, arith,
  length-append,
}
use mathlib.Core.Path.{subst}
use tunnelfetch.Bytes.{Bytes}
use tunnelfetch.Errors.{Result, ok, err, ok-inj, err≢ok, http_error, http_body_truncated}
use tunnelfetch.Reader.{ByteReader, read_some}
use tunnelfetch.Reader.Buffer.{Valid, pending}
use tunnelfetch.Reader.Drain.{exceeds}
use tunnelfetch.Reader.Somes.{IsPiece, read_some-Gives}
use tunnelfetch.Connection.State.{resolved, rejected, settle_reject, pending as unsettled}
use tunnelfetch.Http1.Bodies.{
  BodyEvent, enqueued, last_enqueued, closed, errored, CountedBody, counted_taken, counted_read,
  pull_counted, open_counted,
}

-- What a consumer does with the outcome of a pull, `again` being its next pull.
unfoldable pub after_counted :
    Bytes
    → (Bytes → CountedBody → ByteReader → Option ((Result Bytes × CountedBody) × ByteReader))
    → Option ((BodyEvent × CountedBody) × ByteReader)
    → Option ((Result Bytes × CountedBody) × ByteReader)
after_counted got again none = none
after_counted got again (some ((errored e, b), r)) = some ((err e, b), r)
after_counted got again (some ((closed, b), r)) = some ((ok got, b), r)
after_counted got again (some ((last_enqueued c, b), r)) = some ((ok (got ++ c), b), r)
after_counted got again (some ((enqueued c, b), r)) = again (got ++ c) b r

-- The bytes that such a consumer gets, or the error. The fuel bounds the pulls.
unfoldable pub drain_counted :
    ℕ → Bytes → CountedBody → ByteReader → Option ((Result Bytes × CountedBody) × ByteReader)
unfolding pull_counted after_counted
drain_counted zero got b r = none
drain_counted (suc fuel) got b r = after_counted got (drain_counted fuel) (pull_counted b r)

-- The declared bytes, the promise resolved to true and the reader behind them; or, if the stream has
-- fewer, an error and the promise rejected with it.
pub record Counted (n : ℕ) (got s : Bytes) (o : Option ((Result Bytes × CountedBody) × ByteReader))
    : Type 0 where
  pub body : CountedBody
  pub reader : ByteReader
  pub outcome : Result Bytes
  pub result : o ≡ some ((outcome, body), reader)
  pub whole :
      n ≤ length s
      → (outcome ≡ ok (got ++ take n s))
        × (body.completed ≡ resolved true)
        × (pending reader ≡ drop n s)
  pub short :
      length s < n
      → (outcome ≡ err (http_error http_body_truncated))
        × (body.completed ≡ rejected (http_error http_body_truncated))

-- A piece that is delivered before the rest is.
Counted-later :
    (n k : ℕ) (got c s left : Bytes) (o : Option ((Result Bytes × CountedBody) × ByteReader))
    → n ≡ length c + k
    → c ++ left ≡ s
    → Counted k (got ++ c) left o
    → Counted n got s o
Counted-later n k got c s left o size joined h = record {
  body = h.body;
  reader = h.reader;
  outcome = h.outcome;
  result = h.result;
  whole = λ fits.
      let (outcome, completed, behind) =
        h.whole (omega (arith, fits, ap length joined, length-append c left)) in
      (
        outcome
            ∙ ap ok (
                append_assoc got c (take k left)
                ∙ ap (λ xs. got ++ xs)
                    (sym (take_past c left k)
                      ∙ ap (λ m. take m (c ++ left)) (sym size)
                      ∙ ap (take n) joined)),
        completed,
        behind
            ∙ ap (drop k) (sym (drop-append c left))
            ∙ sym (drop_add (length c) k (c ++ left))
            ∙ ap (λ m. drop m (c ++ left)) (sym size)
            ∙ ap (drop n) joined,
      );
  short = λ less. h.short (omega (arith, less, ap length joined, length-append c left));
}

-- The last piece.
Counted-last :
    (n : ℕ) (got c s : Bytes) (b : CountedBody) (r : ByteReader)
    → n ≡ length c
    → c ++ pending r ≡ s
    → b.completed ≡ resolved true
    → Counted n got s (some ((ok (got ++ c), b), r))
Counted-last n got c s b r size joined completed = record {
  body = b;
  reader = r;
  outcome = ok (got ++ c);
  result = refl;
  whole = λ fits. (
    ap (λ xs. ok (got ++ xs))
        (sym (take-append c (pending r))
          ∙ ap (λ m. take m (c ++ pending r)) (sym size)
          ∙ ap (take n) joined),
    completed,
    sym (drop-append c (pending r))
        ∙ ap (λ m. drop m (c ++ pending r)) (sym size)
        ∙ ap (drop n) joined,
  );
  short = λ less. absurd (omega (arith, less, ap length joined, length-append c (pending r)));
}

drain_counted-Counted :
    (fuel : ℕ) (got : Bytes) (b : CountedBody) (r : ByteReader)
    → Valid r
    → b.remaining < fuel
    → 0 < b.remaining
    → b.completed ≡ unsettled
    → Counted b.remaining got (pending r) (drain_counted fuel got b r)
unfolding drain_counted after_counted pull_counted counted_taken counted_read
drain_counted-Counted zero got b r v enough some_left undecided = absurd (omega arith)
drain_counted-Counted (suc fuel) got b r v enough some_left undecided =
    let g = read_some-Gives (min b.remaining 65536) r v (omega arith) in
    subst (Counted b.remaining got (pending r)) (sym (pulled g.result))
      (given g.reader g.valid (λ more b' r'. drain_counted-Counted fuel more b' r') g.taken g.piece)
  where
    pulled :
        {o : Option (Result (Option Bytes) × ByteReader)}
        → read_some (min b.remaining 65536) r ≡ o
        → drain_counted (suc fuel) got b r
          ≡ after_counted got (drain_counted fuel) (counted_read b o)
    pulled e =
        ap (after_counted got (drain_counted fuel))
          (if_false _ _ (ne→== b.remaining 0 (λ z. omega (arith, z))) ∙ ap (counted_read b) e)

    given :
        (r' : ByteReader)
        → Valid r'
        → ((more : Bytes) (b' : CountedBody) (next : ByteReader)
            → Valid next
            → b'.remaining < fuel
            → 0 < b'.remaining
            → b'.completed ≡ unsettled
            → Counted b'.remaining more (pending next) (drain_counted fuel more b' next))
        → (taken : Option Bytes) → IsPiece (min b.remaining 65536) (pending r) (pending r') taken
        → Counted b.remaining got
            (pending r)
            (after_counted got (drain_counted fuel) (some (counted_taken (ok taken) b, r')))
    given r' valid again none (empty, over) = record {
      body = record b { completed = settle_reject (http_error http_body_truncated) b.completed };
      reader = r';
      outcome = err (http_error http_body_truncated);
      result = refl;
      whole = λ fits. absurd (omega (arith, fits, ap length empty));
      short = λ less. (refl, rw undecided refl);
    }
    given r' valid again (some c) (positive, small, joined) =
        elim (Bool-cases (b.remaining - length c == 0)) [
          | inl last ↦ rw last (
              Counted-last b.remaining got c (pending r) _ r'
                (omega (arith, small, (==_iff _ 0).0 last)) joined (rw undecided refl))
          | inr more ↦ rw more (
              Counted-later b.remaining (b.remaining - length c) got c (pending r) (pending r') _
                (omega (arith, small)) joined
                (again (got ++ c) (record b { remaining = b.remaining - length c }) r' valid
                  (omega (arith, positive)) (omega (arith, ==-ne _ 0 more)) undecided))
        ]

opened :
    (n : ℕ) (limit : Option ℕ) (b : CountedBody)
    → open_counted n limit ≡ ok b
    → b ≡ record { remaining = n; completed = if n == 0 then resolved true else unsettled }
unfolding open_counted
opened n limit b e =
    if_cases P (leb (2 ^ 53) n) (λ wide q. absurd (err≢ok q))
      (λ safe.
        if_cases P (exceeds n limit) (λ over q. absurd (err≢ok q)) (λ within q. sym (ok-inj q)))
      e
  where
    P : Result CountedBody → Type 0
    P r =
        r ≡ ok b
        → b ≡ record { remaining = n; completed = if n == 0 then resolved true else unsettled }

nothing-Counted :
    (r : ByteReader)
    → Counted 0 []
        (pending r)
        (drain_counted 1 [] (record { remaining = 0; completed = resolved true }) r)
unfolding drain_counted
nothing-Counted r = record {
  body = record { remaining = 0; completed = resolved true };
  reader = r;
  outcome = ok [];
  result = refl;
  whole = λ fits. (refl, refl, refl);
  short = λ less. absurd (omega arith);
}

-- A body of declared length n that is opened: however the stream is cut, a consumer that pulls at
-- most once for each byte and once more gets exactly the next n bytes, with `completed` true and the
-- reader behind them, if that many are to come, and else an error that `completed` is rejected with.
pub open_counted-Counted :
    (n : ℕ) (limit : Option ℕ) (b : CountedBody) (r : ByteReader)
    → Valid r
    → open_counted n limit ≡ ok b
    → Counted n [] (pending r) (drain_counted (suc n) [] b r)
open_counted-Counted n limit b r v e =
    subst (λ x. Counted n [] (pending r) (drain_counted (suc n) [] x r)) (sym (opened n limit b e))
      (elim (Bool-cases (n == 0)) [
        | inl empty ↦ at_once ((==_iff n 0).0 empty)
        | inr some_data ↦ rw some_data (
            drain_counted-Counted (suc n) [] (record { remaining = n; completed = unsettled }) r v
              (omega arith) (omega (arith, ==-ne n 0 some_data)) refl)
      ])
  where
    at_once :
        n ≡ 0
        → Counted n [] (pending r) (
            drain_counted
              (suc n)
              []
              (record { remaining = n; completed = if n == 0 then resolved true else unsettled })
              r)
    at_once z =
        subst
          (λ m. Counted m [] (pending r) (
            drain_counted (suc m) []
              (record { remaining = m; completed = if m == 0 then resolved true else unsettled })
              r))
          (sym z) (nothing-Counted r)
