-- ===== src/Hpack/Blocks/Bounds.antt =====
-- What the decoding of a header block keeps.
use tunnelfetch.Prelude.{ℕ, zero, suc, ◌≡◌, ◌≤◌, refl, sym, arith, Option, none, some}
use tunnelfetch.Prelude.{List, [], ◌∷◌, length, inl, inr}
use tunnelfetch.Bytes.{Bytes}
use tunnelfetch.Errors.{Failure, Result, ok, err, Result-cases}
use tunnelfetch.Hpack.{HpackDecoder}
use tunnelfetch.Hpack.StaticTable.{Text}
use tunnelfetch.Hpack.Table.{IsBounded}
use tunnelfetch.Hpack.Table.Updates.{SameLimits}
use tunnelfetch.Hpack.Blocks.{Block, start, step, decode_loop, decode}
use mathlib.Core.Path.{subst}
use tunnelfetch.Hpack.Blocks.Rounds.{fields_size, Keeps, Rounds, step-Rounds}

module _ (decode_text : Bytes → Text) where
  -- A result's fields are within the cap.
  pub WithinList : ℕ → Result (List (Text × Text)) → Type 0
  WithinList cap (ok fields) = fields_size fields ≤ cap
  WithinList cap (err e) = Unit

  -- A decoder that is within its bounds and has the limits of `d`, with a result within its cap.
  pub Decodes : HpackDecoder → Option (HpackDecoder × Result (List (Text × Text))) → Type 0
  Decodes d none = ⊥
  Decodes d (some (d', r)) = IsBounded d' × SameLimits d d' × WithinList d.max_header_list_size r

  decode_loop-ok :
      (fuel x : ℕ) (b : Block) (src : Bytes) (r : Block × Bytes)
      → step decode_text x (x ∷ src) b ≡ ok r
      → decode_loop decode_text (suc fuel) b (x ∷ src) ≡ decode_loop decode_text fuel r.0 r.1
  unfolding decode_loop
  decode_loop-ok fuel x b src r taken = rw (taken, decode_loop) refl

  decode_loop-err :
      (fuel x : ℕ) (b : Block) (src : Bytes) (e : Failure)
      → step decode_text x (x ∷ src) b ≡ err e
      → decode_loop decode_text (suc fuel) b (x ∷ src) ≡ some (b.decoder, err e)
  unfolding decode_loop
  decode_loop-err fuel x b src e failed = rw (failed, decode_loop) refl

  decode_loop-Decodes :
      (fuel : ℕ) (d : HpackDecoder) (b : Block) (src : Bytes)
      → Keeps d b
      → length src ≤ fuel
      → Decodes d (decode_loop decode_text fuel b src)
  unfolding decode_loop Decodes WithinList Rounds
  decode_loop-Decodes fuel d b [] k f =
      (k.bounded, k.limits, subst (λ n. n ≤ d.max_header_list_size) k.sized k.capped)
  decode_loop-Decodes zero d b (x ∷ src) k f = absurd (omega (arith, f))
  decode_loop-Decodes (suc fuel) d b (x ∷ src) k f =
      elim (Result-cases (step decode_text x (x ∷ src) b)) [
        | inl (r, taken) ↦
            let round = step-Rounds decode_text d x (x ∷ src) b r k taken in
            let smaller = round.1 in
            subst (Decodes d) (sym (decode_loop-ok fuel x b src r taken))
              (decode_loop-Decodes fuel d r.0 r.1 round.0 (omega (arith, f, smaller)))
        | inr (e, failed) ↦
            subst (Decodes d) (sym (decode_loop-err fuel x b src e failed))
              (k.bounded, k.limits, tt)
      ]

  -- For a decoder within its bounds, whatever the block, the decoding ends, the table stays within
  -- its bounds, the limits stay as
  -- they were, and a list of fields that is returned is within the cap; when it fails too, for the
  -- next block of the connection.
  pub decode-Decodes :
      (block : Bytes) (d : HpackDecoder) → IsBounded d → Decodes d (decode decode_text block d)
  unfolding decode start fields_size
  decode-Decodes block d v =
      decode_loop-Decodes (length block) d (start d) block
        record {
          bounded = v;
          limits = record { same_limit = refl; same_list = refl };
          sized = refl;
          capped = omega arith;
        }
        (omega arith)
