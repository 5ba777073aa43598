-- ===== src/Hpack/Table/Updates.antt =====
-- Insertions and size updates keep the dynamic table within its bounds.
use tunnelfetch.Prelude.{ℕ, ◌+◌, ◌≤◌, ◌≡◌, refl, sym, ◌∙◌, true, false, ◌⊎◌, arith}
use tunnelfetch.Prelude.{◌∷◌, ltb, leb, length, Bool-cases, inl, inr, ltb→le, leb→le}
use tunnelfetch.Errors.{ok, err, ok-inj, err≢ok}
use tunnelfetch.Hpack.{HpackDecoder, evict, charge, insert, resize, compression_error}
use tunnelfetch.Hpack.StaticTable.{Text}
use mathlib.Core.Path.{subst}
use tunnelfetch.Hpack.Table.{IsBounded, entries_size, Evicts, Evicts-evict}

insert-fits :
    (name value : Text) (d : HpackDecoder)
    → leb (charge name value) (evict (length d.dynamic) (charge name value) d).max_size ≡ true
    → insert name value d ≡ record (evict (length d.dynamic) (charge name value) d) {
      dynamic =
          record { name = name; value = value; entry_size = charge name value }
          ∷ (evict (length d.dynamic) (charge name value) d).dynamic;
      size = (evict (length d.dynamic) (charge name value) d).size + charge name value;
    }
unfolding insert
insert-fits name value d fits = simp fits

insert-big :
    (name value : Text) (d : HpackDecoder)
    → leb (charge name value) (evict (length d.dynamic) (charge name value) d).max_size ≡ false
    → insert name value d ≡ evict (length d.dynamic) (charge name value) d
unfolding insert
insert-big name value d big = simp big

fitting : (m cost size : ℕ) → cost ≤ m → (size + cost ≤ m) ⊎ (size ≡ 0) → size + cost ≤ m
fitting m cost size h (inl x) = x
fitting m cost size h (inr x) = omega (arith, h, x)

smaller :
    (room : ℕ) (d d' : HpackDecoder)
    → d.size ≤ d.max_size
    → Evicts room d d'
    → d'.size ≤ d'.max_size
smaller room d d' w e =
    subst (λ m. d'.size ≤ m) (sym e.same_max) (let s = e.shrinks in omega (arith, s, w))

Evicts-IsBounded : (room : ℕ) (d d' : HpackDecoder) → IsBounded d → Evicts room d d' → IsBounded d'
Evicts-IsBounded room d d' v e = record {
  counted = e.counted;
  within = smaller room d d' v.within e;
  advertised =
      subst (λ m. m ≤ d'.limit) (sym e.same_max)
        (subst (λ m. d.max_size ≤ m) (sym e.same_limit) v.advertised);
}

shrunk-IsBounded :
    (n : ℕ) (d : HpackDecoder)
    → IsBounded d
    → n ≤ d.limit
    → IsBounded (evict (length d.dynamic) 0 (record d { max_size = n }))
shrunk-IsBounded n d v h =
    let small : HpackDecoder = record d { max_size = n } in
    let d' = evict (length d.dynamic) 0 small in
    let after : Evicts 0 small d' =
      Evicts-evict (length d.dynamic) 0 small d.dynamic refl (omega arith) v.counted in
    record {
      counted = after.counted;
      within =
          subst (λ m. d'.size ≤ m) (sym after.same_max)
            (let t = fitting n 0 d'.size (omega arith) after.roomy in omega (arith, t));
      advertised =
          subst (λ m. m ≤ d'.limit) (sym after.same_max)
            (subst (λ m. n ≤ m) (sym after.same_limit) h);
    }

-- Inserting a field keeps the table within its bounds.
pub insert-IsBounded :
    (name value : Text) (d : HpackDecoder) → IsBounded d → IsBounded (insert name value d)
unfolding entries_size
insert-IsBounded name value d v =
    let cost = charge name value in
    let d' = evict (length d.dynamic) cost d in
    let after : Evicts cost d d' =
      Evicts-evict (length d.dynamic) cost d d.dynamic refl (omega arith) v.counted in
    elim (Bool-cases (leb cost d'.max_size)) [
      | inl fits ↦ subst IsBounded (sym (insert-fits name value d fits)) record {
        counted = let t = after.counted in omega (arith, t);
        within =
            subst (λ m. d'.size + cost ≤ m) (sym after.same_max)
              (fitting d.max_size cost d'.size
                (subst (λ m. cost ≤ m) after.same_max (leb→le _ _ fits)) after.roomy);
        advertised =
            subst (λ m. m ≤ d'.limit) (sym after.same_max)
              (subst (λ m. d.max_size ≤ m) (sym after.same_limit) v.advertised);
      }
      | inr big ↦
          subst IsBounded (sym (insert-big name value d big)) (Evicts-IsBounded cost d d' v after)
    ]

resize-over : (n : ℕ) (d : HpackDecoder) → ltb d.limit n ≡ true → resize n d ≡ err compression_error
unfolding resize
resize-over n d over = simp over

resize-fits :
    (n : ℕ) (d : HpackDecoder)
    → ltb d.limit n ≡ false
    → resize n d ≡ ok (evict (length d.dynamic) 0 (record d { max_size = n }))
unfolding resize
resize-fits n d fits = simp fits

-- A size update that is accepted leaves the table within its bounds.
pub resize-IsBounded :
    (n : ℕ) (d d' : HpackDecoder) → IsBounded d → resize n d ≡ ok d' → IsBounded d'
resize-IsBounded n d d' v e = elim (Bool-cases (ltb d.limit n)) [
  | inl over ↦ absurd (err≢ok (sym (resize-over n d over) ∙ e))
  | inr fits ↦
      subst IsBounded (ok-inj (sym (resize-fits n d fits) ∙ e))
        (shrunk-IsBounded n d v (ltb→le _ _ fits))
]

-- The two limits that stay as they were built.
pub record SameLimits (d d' : HpackDecoder) : Type 0 where
  pub same_limit : d'.limit ≡ d.limit
  pub same_list : d'.max_header_list_size ≡ d.max_header_list_size

pub insert-SameLimits :
    (name value : Text) (d : HpackDecoder) → IsBounded d → SameLimits d (insert name value d)
insert-SameLimits name value d v =
    let cost = charge name value in
    let d' = evict (length d.dynamic) cost d in
    let after : Evicts cost d d' =
      Evicts-evict (length d.dynamic) cost d d.dynamic refl (omega arith) v.counted in
    let kept : SameLimits d d' = record {
      same_limit = after.same_limit;
      same_list = after.same_list;
    } in
    elim (Bool-cases (leb cost d'.max_size)) [
      | inl fits ↦
          subst (SameLimits d) (sym (insert-fits name value d fits))
            record { same_limit = kept.same_limit; same_list = kept.same_list }
      | inr big ↦ subst (SameLimits d) (sym (insert-big name value d big)) kept
    ]

pub resize-SameLimits :
    (n : ℕ) (d d' : HpackDecoder) → IsBounded d → resize n d ≡ ok d' → SameLimits d d'
resize-SameLimits n d d' v e =
    let small : HpackDecoder = record d { max_size = n } in
    let after : Evicts 0 small (evict (length d.dynamic) 0 small) =
      Evicts-evict (length d.dynamic) 0 small d.dynamic refl (omega arith) v.counted in
    elim (Bool-cases (ltb d.limit n)) [
      | inl over ↦ absurd (err≢ok (sym (resize-over n d over) ∙ e))
      | inr fits ↦
          subst (SameLimits d) (ok-inj (sym (resize-fits n d fits) ∙ e))
            record { same_limit = after.same_limit; same_list = after.same_list }
    ]
