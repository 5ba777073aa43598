-- ===== src/Hpack/Blocks/Rounds.antt =====
-- A round of the loop that decodes a header block.
use tunnelfetch.Prelude.{ℕ, ◌+◌, true, false, ◌≡◌, ◌≤◌, ◌<◌, sym, ◌∙◌, arith}
use tunnelfetch.Prelude.{List, [], ◌∷◌, ◌++◌, ltb, leb, length, Bool-cases, inl, inr, ltb→le}
use tunnelfetch.Bytes.{Bytes}
use tunnelfetch.Errors.{ok, err, bind_inversion, err≢ok, ok-inj}
use tunnelfetch.Hpack.{
  HpackDecoder, compression_error, decode_integer, lookup, insert, resize, charge,
}
use tunnelfetch.Hpack.StaticTable.{Text}
use tunnelfetch.Hpack.Integers.{decode_integer_takes}
use tunnelfetch.Hpack.Table.{IsBounded}
use tunnelfetch.Hpack.Table.Updates.{
  insert-IsBounded, resize-IsBounded, SameLimits, insert-SameLimits, resize-SameLimits,
}
use tunnelfetch.Hpack.Blocks.{
  Block, add, insert_into, resize_in, literal, indexed, literal_indexing, literal_without,
  apply_update, size_update, step,
}
use mathlib.Core.Path.{subst}
use tunnelfetch.Hpack.Blocks.Lengths.{literal-takes}

-- The size of a header list as the protocol counts it.
unfoldable pub fields_size : List (Text × Text) → ℕ
fields_size [] = 0
fields_size (f ∷ fs) = charge f.0 f.1 + fields_size fs

fields_size-append :
    (fs : List (Text × Text)) (f : Text × Text)
    → fields_size (fs ++ f ∷ []) ≡ fields_size fs + charge f.0 f.1
unfolding fields_size
fields_size-append [] f = omega arith
fields_size-append (g ∷ fs) f = omega (arith, fields_size-append fs f)

-- What holds in the loop of a decoder that started as `d`.
pub record Keeps (d : HpackDecoder) (b : Block) : Type 0 where
  pub bounded : IsBounded b.decoder
  pub limits : SameLimits d b.decoder
  pub sized : b.list_size ≡ fields_size b.out
  pub capped : b.list_size ≤ d.max_header_list_size

with_decoder :
    (d : HpackDecoder) (b : Block) (e : HpackDecoder)
    → Keeps d b
    → IsBounded e
    → SameLimits b.decoder e
    → Keeps d (record b { decoder = e })
with_decoder d b e k v s = record {
  bounded = v;
  limits = record {
    same_limit = s.same_limit ∙ k.limits.same_limit;
    same_list = s.same_list ∙ k.limits.same_list;
  };
  sized = k.sized;
  capped = k.capped;
}

add-Keeps :
    (d : HpackDecoder) (name value : Text) (b b' : Block)
    → Keeps d b
    → add name value b ≡ ok b'
    → Keeps d b'
unfolding add
add-Keeps d name value b b' k e =
    elim (Bool-cases (ltb b.decoder.max_header_list_size (b.list_size + charge name value))) [
      | inl over ↦ absurd (err≢ok (rw over at e))
      | inr fits ↦ subst (Keeps d) (ok-inj (rw fits at e)) record {
        bounded = k.bounded;
        limits = k.limits;
        sized = omega (arith, fields_size-append b.out (name, value), k.sized);
        capped =
            subst (λ m. b.list_size + charge name value ≤ m) k.limits.same_list (ltb→le _ _ fits);
      }
    ]

insert_into-Keeps :
    (d : HpackDecoder) (name value : Text) (b : Block)
    → Keeps d b
    → Keeps d (insert_into name value b)
unfolding insert_into
insert_into-Keeps d name value b k =
    with_decoder d b (insert name value b.decoder) k
      (insert-IsBounded name value b.decoder k.bounded)
      (insert-SameLimits name value b.decoder k.bounded)

resize_in-Keeps :
    (d : HpackDecoder) (n : ℕ) (b b' : Block) → Keeps d b → resize_in n b ≡ ok b' → Keeps d b'
unfolding resize_in
resize_in-Keeps d n b b' k e =
    let (c, first, then_) =
      bind_inversion (resize n b.decoder) (λ c. ok (record b { decoder = c })) e in
    subst (Keeps d) (ok-inj then_) (
      with_decoder d b c k (resize-IsBounded n b.decoder c k.bounded first)
        (resize-SameLimits n b.decoder c k.bounded first))

module _ (decode_text : Bytes → Text) where
  -- What a round of the loop leaves.
  unfoldable pub Rounds : HpackDecoder → Bytes → Block × Bytes → Type 0
  Rounds d src r = Keeps d r.0 × (length r.1 < length src)

  indexed-Rounds :
      (d : HpackDecoder) (src : Bytes) (b : Block) (r : Block × Bytes)
      → Keeps d b
      → indexed decode_text src b ≡ ok r
      → Rounds d src r
  unfolding indexed Rounds
  indexed-Rounds d src b r k e =
      let (i, first, then_) = bind_inversion (decode_integer src 7) _ e in
      let (f, second, then_) = bind_inversion (lookup i.0 b.decoder) _ then_ in
      let (b', third, then_) = bind_inversion (add f.0 f.1 b) _ then_ in
      subst (Rounds d src) (ok-inj then_) (
        add-Keeps d f.0 f.1 b b' k third,
        (decode_integer_takes src 7 i.0 i.1 (omega arith) first).1,
      )

  literal_indexing-Rounds :
      (d : HpackDecoder) (src : Bytes) (b : Block) (r : Block × Bytes)
      → Keeps d b
      → literal_indexing decode_text src b ≡ ok r
      → Rounds d src r
  unfolding literal_indexing Rounds
  literal_indexing-Rounds d src b r k e =
      let (f, first, then_) = bind_inversion (literal decode_text 6 src b.decoder) _ e in
      let (b', second, then_) = bind_inversion (add f.0.0 f.0.1 b) _ then_ in
      subst (Rounds d src) (ok-inj then_) (
        insert_into-Keeps d f.0.0 f.0.1 b' (add-Keeps d f.0.0 f.0.1 b b' k second),
        literal-takes decode_text 6 src b.decoder f (omega arith) first,
      )

  literal_without-Rounds :
      (d : HpackDecoder) (src : Bytes) (b : Block) (r : Block × Bytes)
      → Keeps d b
      → literal_without decode_text src b ≡ ok r
      → Rounds d src r
  unfolding literal_without Rounds
  literal_without-Rounds d src b r k e =
      let (f, first, then_) = bind_inversion (literal decode_text 4 src b.decoder) _ e in
      let (b', second, then_) = bind_inversion (add f.0.0 f.0.1 b) _ then_ in
      subst (Rounds d src) (ok-inj then_) (
        add-Keeps d f.0.0 f.0.1 b b' k second,
        literal-takes decode_text 4 src b.decoder f (omega arith) first,
      )

  apply_update-Rounds :
      (d : HpackDecoder) (src : Bytes) (b : Block) (r : Block × Bytes)
      → Keeps d b
      → apply_update decode_text src b ≡ ok r
      → Rounds d src r
  unfolding apply_update Rounds
  apply_update-Rounds d src b r k e =
      let (n, first, then_) = bind_inversion (decode_integer src 5) _ e in
      let (b', second, then_) = bind_inversion (resize_in n.0 b) _ then_ in
      subst (Rounds d src) (ok-inj then_) (
        resize_in-Keeps d n.0 b b' k second,
        (decode_integer_takes src 5 n.0 n.1 (omega arith) first).1,
      )

  size_update-late :
      (src : Bytes) (b : Block)
      → b.saw_field ≡ true
      → size_update decode_text src b ≡ err compression_error
  unfolding size_update
  size_update-late src b saw = simp saw

  size_update-early :
      (src : Bytes) (b : Block)
      → b.saw_field ≡ false
      → apply_update decode_text src b ≡ size_update decode_text src b
  unfolding size_update
  size_update-early src b first_field = simp first_field

  size_update-Rounds :
      (d : HpackDecoder) (src : Bytes) (b : Block) (r : Block × Bytes)
      → Keeps d b
      → size_update decode_text src b ≡ ok r
      → Rounds d src r
  size_update-Rounds d src b r k e = elim (Bool-cases b.saw_field) [
    | inl saw ↦ absurd (err≢ok (sym (size_update-late src b saw) ∙ e))
    | inr first_field ↦ apply_update-Rounds d src b r k (size_update-early src b first_field ∙ e)
  ]

  pub step-Rounds :
      (d : HpackDecoder) (x : ℕ) (src : Bytes) (b : Block) (r : Block × Bytes)
      → Keeps d b
      → step decode_text x src b ≡ ok r
      → Rounds d src r
  unfolding step
  step-Rounds d x src b r k e = elim (Bool-cases (leb 0x80 x)) [
    | inl h ↦ indexed-Rounds d src b r k (rw h at e)
    | inr h ↦ elim (Bool-cases (leb 0x40 x)) [
      | inl g ↦ literal_indexing-Rounds d src b r k (rw (h, g) at e)
      | inr g ↦ elim (Bool-cases (leb 0x20 x)) [
        | inl f ↦ size_update-Rounds d src b r k (rw (h, g, f) at e)
        | inr f ↦ literal_without-Rounds d src b r k (rw (h, g, f) at e)
      ]
    ]
  ]
