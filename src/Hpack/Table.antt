-- ===== src/Hpack/Table.antt =====
-- The bounds of the dynamic table of src/http2/hpack.js, and what evicting leaves.
pub mod Updates
use tunnelfetch.Prelude.{
  ℕ, zero, suc, ◌+◌, ◌-◌, ◌≤◌, ◌≡◌, refl, sym, ap, ◌∙◌, true, false, ◌⊎◌, arith,
}
use tunnelfetch.Prelude.{
  List, [], ◌∷◌, ltb, leb, length, Bool-cases, lt→ltb, inl, inr, ltb→le, leb→le,
}
use tunnelfetch.Errors.{ok, err, ok-inj, err≢ok}
use tunnelfetch.Hpack.{
  new_decoder, Entry, HpackDecoder, pop_entries, pop_size, pop, evict, charge, insert, resize,
  compression_error,
}
use tunnelfetch.Hpack.StaticTable.{Text}
use mathlib.Core.Path.{subst}

pub entries_size : List Entry → ℕ
entries_size [] = 0
entries_size (e ∷ es) = e.entry_size + entries_size es

-- The size counts the entries, and is within the current maximum, which is within the limit that
-- was advertised.
pub record IsBounded (d : HpackDecoder) : Type 0 where
  pub counted : d.size ≡ entries_size d.dynamic
  pub within : d.size ≤ d.max_size
  pub advertised : d.max_size ≤ d.limit

pub new_decoder-IsBounded :
    (max_table_size max_header_list_size : ℕ)
    → IsBounded (new_decoder max_table_size max_header_list_size)
unfolding entries_size
new_decoder-IsBounded max_table_size max_header_list_size = record {
  counted = refl;
  within = omega arith;
  advertised = omega arith;
}

size-pop :
    (e : Entry) (es : List Entry)
    → entries_size (pop_entries e es) + pop_size e es ≡ entries_size (e ∷ es)
unfolding entries_size pop_entries pop_size
size-pop e [] = omega arith
size-pop e (f ∷ es) = omega (arith, size-pop f es)

length-pop : (e : Entry) (es : List Entry) → suc (length (pop_entries e es)) ≡ length (e ∷ es)
unfolding pop_entries
length-pop e [] = refl
length-pop e (f ∷ es) = ap suc (length-pop f es)

-- What evicting until there is room leaves.
pub record Evicts (room : ℕ) (d d' : HpackDecoder) : Type 0 where
  pub counted : d'.size ≡ entries_size d'.dynamic
  pub roomy : (d'.size + room ≤ d.max_size) ⊎ (d'.size ≡ 0)
  pub shrinks : d'.size ≤ d.size
  pub same_max : d'.max_size ≡ d.max_size
  pub same_limit : d'.limit ≡ d.limit
  pub same_list : d'.max_header_list_size ≡ d.max_header_list_size

-- An entry can be evicted, and the rest counts what is left.
counted-pop :
    (d : HpackDecoder) (e : Entry) (es : List Entry)
    → d.size ≡ entries_size (e ∷ es)
    → d.size - pop_size e es ≡ entries_size (pop_entries e es)
counted-pop d e es c = omega (arith, c, size-pop e es)

Evicts-stop :
    (room : ℕ) (d : HpackDecoder)
    → d.size ≡ entries_size d.dynamic
    → (d.size + room ≤ d.max_size) ⊎ (d.size ≡ 0)
    → Evicts room d d
Evicts-stop room d c r = record {
  counted = c;
  roomy = r;
  shrinks = omega arith;
  same_max = refl;
  same_limit = refl;
  same_list = refl;
}

Evicts-through :
    (room : ℕ) (d m d' : HpackDecoder)
    → Evicts room m d'
    → m.size ≤ d.size
    → m.max_size ≡ d.max_size
    → m.limit ≡ d.limit
    → m.max_header_list_size ≡ d.max_header_list_size
    → Evicts room d d'
Evicts-through room d m d' v s x l h = record {
  counted = v.counted;
  roomy = elim v.roomy [ inl fits ↦ inl (omega (arith, fits, x)) | inr gone ↦ inr gone ];
  shrinks = let t = v.shrinks in omega (arith, t, s);
  same_max = v.same_max ∙ x;
  same_limit = v.same_limit ∙ l;
  same_list = v.same_list ∙ h;
}

positive : (n : ℕ) → ltb 0 (suc n) ≡ true
positive n = lt→ltb 0 (suc n) (omega arith)

-- One round, by the outcome of its test.
evict-full :
    (fuel room : ℕ) (d : HpackDecoder) (e : Entry) (es : List Entry)
    → d.dynamic ≡ e ∷ es
    → ltb d.max_size (d.size + room) ≡ true
    → evict (suc fuel) room d ≡ evict fuel room (pop (e ∷ es) d)
unfolding evict
evict-full fuel room d e es shape big = simp (big, shape, positive (length es))

evict-fits :
    (fuel room : ℕ) (d : HpackDecoder)
    → ltb d.max_size (d.size + room) ≡ false
    → evict (suc fuel) room d ≡ d
unfolding evict
evict-fits fuel room d fits = simp fits

evict-empty : (fuel room : ℕ) (d : HpackDecoder) → d.dynamic ≡ [] → evict (suc fuel) room d ≡ d
unfolding evict pop
evict-empty fuel room d shape = elim (Bool-cases (ltb d.max_size (d.size + room))) [
  | inl big ↦ simp (big, shape)
  | inr fits ↦ simp fits
]

evict-zero : (room : ℕ) (d : HpackDecoder) → d ≡ evict zero room d
unfolding evict
evict-zero room d = refl

pub Evicts-evict :
    (fuel room : ℕ) (d : HpackDecoder) (es : List Entry)
    → d.dynamic ≡ es
    → length es ≤ fuel
    → d.size ≡ entries_size es
    → Evicts room d (evict fuel room d)
unfolding pop entries_size
Evicts-evict zero room d [] e f c =
    subst (λ x. Evicts room d x) (evict-zero room d)
      (Evicts-stop room d (c ∙ sym (ap entries_size e)) (inr c))
Evicts-evict (suc fuel) room d [] e f c =
    subst (λ x. Evicts room d x) (sym (evict-empty fuel room d e))
      (Evicts-stop room d (c ∙ sym (ap entries_size e)) (inr c))
Evicts-evict zero room d (x ∷ es) e f c = absurd (omega (arith, f, length-pop x es))
Evicts-evict (suc fuel) room d (x ∷ es) e f c = elim (Bool-cases (ltb d.max_size (d.size + room))) [
  | inl big ↦
      subst (λ y. Evicts room d y) (sym (evict-full fuel room d x es e big))
        (Evicts-through room d (pop (x ∷ es) d) _
          (Evicts-evict fuel room (pop (x ∷ es) d) (pop_entries x es) refl
            (omega (arith, f, length-pop x es)) (counted-pop d x es c))
          (omega arith) refl refl refl)
  | inr fits ↦
      subst (λ y. Evicts room d y) (sym (evict-fits fuel room d fits))
        (Evicts-stop room d (c ∙ sym (ap entries_size e)) (inl (ltb→le _ _ fits)))
]
