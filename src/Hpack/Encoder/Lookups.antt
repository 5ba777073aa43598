-- ===== src/Hpack/Encoder/Lookups.antt =====
-- What the encoder finds in the static table is what the decoder looks up there.
use tunnelfetch.Prelude.{
  ℕ, suc, ◌+◌, ◌≤◌, ◌<◌, ◌≡◌, refl, sym, ap, ◌∙◌, arith, true, ◌&&◌, Bool-cases, inl, inr,
}
use tunnelfetch.Prelude.{List, [], ◌∷◌, ◌==◌, if◌then◌else◌, length, drop, le→leb, ne→==}
use tunnelfetch.Bytes.{equal}
use tunnelfetch.Bytes.Search.{equal-eq}
use tunnelfetch.Errors.{ok}
use tunnelfetch.Hpack.{HpackDecoder, lookup, static_nth}
use tunnelfetch.Hpack.StaticTable.{Text, static_table}
use tunnelfetch.Hpack.Encoder.{index, lookup_from, static_lookup}

-- An entry at a distance from the index at which the search starts.
record At (es : List (Text × Text)) (i j : ℕ) (name value : Text) : Type 0 where
  distance : ℕ
  there : j ≡ i + distance
  entry : static_nth es distance ≡ ok (name, value)
  inside : distance < length es

At-next :
    (e : Text × Text) (es : List (Text × Text)) (i j : ℕ) (name value : Text)
    → At es (i + 1) j name value
    → At (e ∷ es) i j name value
unfolding static_nth
At-next e es i j name value a = record {
  distance = suc a.distance;
  there = omega (arith, a.there);
  entry = a.entry;
  inside = omega (arith, a.inside);
}

both : (a b c d : Text) → (equal a b && equal c d) ≡ true → (a ≡ b) × (c ≡ d)
both a b c d e = (equal-eq a b (ground arith), equal-eq c d (ground arith))

index-inj : (i j : ℕ) → index i ≡ index j → i ≡ j
index-inj i j e = cc

lookup_from-At :
    (es : List (Text × Text)) (i : ℕ) (name value : Text) (found j : ℕ)
    → lookup_from es i name value found ≡ index j
    → At es i j name value
unfolding lookup_from static_nth
lookup_from-At [] i name value found j e = elim (Bool-cases (found == 0)) [
  | inl z ↦ absurd (cc (rw z at e))
  | inr z ↦ absurd (cc (rw z at e))
]
lookup_from-At (x ∷ es) i name value found j e =
    elim (Bool-cases (equal x.0 name && equal x.1 value)) [
      | inl same ↦
          let s = both x.0 name x.1 value same in
          record {
            distance = 0;
            there = sym (index-inj i j (rw same at e)) ∙ omega arith;
            entry = λ k. ok (s.0 k, s.1 k);
            inside = omega arith;
          }
      | inr apart ↦ At-next x es i j name value (
          lookup_from-At es (i + 1) name value (if equal x.0 name && found == 0 then i else found) j
            (rw apart at e))
    ]

entries_count : length (drop 1 static_table) ≡ 61
unfolding static_table
entries_count = refl

past_placeholder : (k : ℕ) → static_nth static_table (suc k) ≡ static_nth (drop 1 static_table) k
unfolding static_table static_nth
past_placeholder k = refl

lookup-static : (i : ℕ) (d : HpackDecoder) → 0 < i → i ≤ 61 → lookup i d ≡ static_nth static_table i
unfolding lookup
lookup-static i d pos fits = rw (ne→== i 0 (λ z. omega (arith, pos, z)), le→leb i 61 fits) refl

-- A field that the encoder finds in the static table, it finds at an index at which every decoder,
-- whatever its dynamic table holds, looks up the same name and value.
pub lookup-static_lookup :
    (name value : Text) (i : ℕ) (d : HpackDecoder)
    → static_lookup name value ≡ index i
    → lookup i d ≡ ok (name, value)
unfolding static_lookup
lookup-static_lookup name value i d e =
    let a = lookup_from-At (drop 1 static_table) 1 name value 0 i e in
    let where_ : i ≡ suc a.distance = a.there ∙ omega arith in
    lookup-static i d (omega (arith, where_))
      (let n = a.inside in omega (arith, where_, n, entries_count))
    ∙ ap (static_nth static_table) where_
    ∙ past_placeholder a.distance
    ∙ a.entry
