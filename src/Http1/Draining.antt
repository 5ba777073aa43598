-- ===== src/Http1/Draining.antt =====
-- src/http1/chunked.js: a consumer that pulls until the body ends.
use tunnelfetch.Prelude.{
  ℕ, zero, suc, ◌≤◌, ◌<◌, ◌≡◌, inl, inr, refl, sym, ap, ◌∙◌, false, Option, none, some, List, [],
  ◌++◌, length, All, arith, append_assoc, append-nil, length-append,
}
use tunnelfetch.Prelude.Texts.{Text}
use mathlib.Core.Path.{subst}
use tunnelfetch.Bytes.{Bytes}
use tunnelfetch.Errors.{Result, ok, err}
use tunnelfetch.Reader.{ByteReader}
use tunnelfetch.Reader.Drain.{exceeds}
use tunnelfetch.Reader.Buffer.{Valid, pending}
use tunnelfetch.Connection.State.{resolved}
use tunnelfetch.Connection.Fields.{Platform}
use tunnelfetch.Http1.Chunked.{
  Decoder, ChunkedOptions, new_decoder, Event, enqueued, closed, drive, settled, pull,
}
use tunnelfetch.Http1.Decoding.{Chunk, IsChunk, IsLast, payload, wire, ending, Ahead, drive_steps}

-- What a consumer does with the outcome of a pull, `again` being its next pull.
unfoldable pub after_pull :
    Bytes
    → (Bytes → Decoder → ByteReader → Option ((Result Bytes × Decoder) × ByteReader))
    → Option ((Result Event × Decoder) × ByteReader)
    → Option ((Result Bytes × Decoder) × ByteReader)
after_pull got again none = none
after_pull got again (some ((err e, d), r)) = some ((err e, d), r)
after_pull got again (some ((ok closed, d), r)) = some ((ok got, d), r)
after_pull got again (some ((ok (enqueued c), d), r)) = again (got ++ c) d r

-- The bytes that such a consumer gets, or the error, with the decoder and the reader in the end. The
-- fuel bounds the pulls.
unfoldable pub drain :
    Platform
    → ChunkedOptions
    → ℕ
    → Bytes
    → Decoder
    → ByteReader
    → Option ((Result Bytes × Decoder) × ByteReader)
unfolding pull after_pull
drain platform options zero got d r = none
drain platform options (suc fuel) got d r =
    after_pull got (drain platform options fuel) (pull platform options d r)

-- The consumer got `out`, the trailers are there and empty, and the next byte of the reader is the
-- first behind the body.
pub record Drained (out rest : Bytes) (o : Option ((Result Bytes × Decoder) × ByteReader))
    : Type 0 where
  pub decoder : Decoder
  pub reader : ByteReader
  pub result : o ≡ some ((ok out, decoder), reader)
  pub behind : pending reader ≡ rest
  pub trailers : decoder.trailers ≡ resolved (some [])
  pub valid : Valid reader

module _ (platform : Platform) (options : ChunkedOptions) (last : Text) (rest : Bytes) where
  drain-Drained :
      (fuel : ℕ) (got out : Bytes) (d : Decoder) (r : ByteReader)
      → IsLast last
      → 2 ≤ options.max_trailer_bytes
      → length out < fuel
      → Ahead platform options last rest d out r
      → Drained (got ++ out) rest (drain platform options fuel got d r)
  unfolding drain after_pull pull settled
  drain-Drained zero got out d r l enough bound h = absurd (omega arith)
  drain-Drained (suc fuel) got out d r l enough bound h =
      elim (drive_steps platform options last rest d out r l enough h) [
        | inl step ↦ subst (Drained (got ++ out) rest) (sym (opened step.result)) (
            subst
              (λ y.
                Drained y rest
                  (drain platform options fuel (got ++ step.piece) step.decoder step.reader))
              (append_assoc got step.piece step.later ∙ ap (λ y. got ++ y) (sym step.split))
              (drain-Drained fuel (got ++ step.piece) step.later step.decoder step.reader l enough
                (omega (
                  arith,
                  bound,
                  step.positive,
                  ap length step.split,
                  length-append step.piece step.later,
                ))
                step.ahead))
        | inr over ↦ subst (Drained (got ++ out) rest) (sym (opened over.result)) (
            subst (λ y. Drained y rest (some ((ok got, over.decoder), over.reader)))
              (sym (ap (λ y. got ++ y) over.all ∙ append-nil got))
              record {
                decoder = over.decoder;
                reader = over.reader;
                result = refl;
                behind = over.behind;
                trailers = over.trailers;
                valid = over.valid;
              })
      ]
    where
      opened :
          {o : Option (Result (Event × Decoder) × ByteReader)}
          → drive platform options d r ≡ o
          → drain platform options (suc fuel) got d r
            ≡ after_pull got (drain platform options fuel) (settled d o)
      opened e = ap (λ o. after_pull got (drain platform options fuel) (settled d o)) e

-- A body of well-formed chunks within the limits, then a chunk of size 0 and an empty line: however
-- the stream is cut, a consumer that pulls at most once for each byte and once more gets exactly the
-- data of the chunks, no trailers, and a reader whose next byte is the first behind the body.
pub drain-wire :
    (platform : Platform) (options : ChunkedOptions) (chunks : List Chunk) (last : Text)
    (rest : Bytes) (r : ByteReader)
    → All (IsChunk options) chunks
    → IsLast last
    → 2 ≤ options.max_trailer_bytes
    → exceeds (length (payload chunks)) options.max_bytes ≡ false
    → Valid r
    → pending r ≡ wire chunks (ending last rest)
    → Drained
        (payload chunks)
        rest
        (drain platform options (suc (length (payload chunks))) [] new_decoder r)
drain-wire platform options chunks last rest r framed l enough within v s =
    drain-Drained platform options last rest (suc (length (payload chunks))) [] (payload chunks)
      new_decoder r l enough (omega arith)
      record {
        chunks = chunks;
        framed = framed;
        awaits = (refl, s);
        within = subst (λ n. exceeds n options.max_bytes ≡ false) (omega arith) within;
        undecided = refl;
        valid = v;
      }
