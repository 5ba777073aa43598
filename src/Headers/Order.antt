-- ===== src/Headers/Order.antt =====
-- Setting and reordering header fields.
use tunnelfetch.Prelude.{
  ◌≤◌, ◌≡◌, refl, sym, ap, ◌∙◌, arith, true, false, some, List, [], ◌∷◌, ◌++◌, leb, if◌then◌else◌,
  Bool-cases, inl, inr, leb→le, leb→lt, ne→==, length, ◌<◌, ℕ, suc, ◌+◌, ◌≢◌, ◌⊎◌, none, ◌==◌, All,
}
use tunnelfetch.Hpack.StaticTable.{units}
use tunnelfetch.Prelude.Texts.{Text}
use tunnelfetch.Bytes.{equal}
use tunnelfetch.Bytes.Search.{equal-eq, equal_refl}
use tunnelfetch.Errors.{ok}
use tunnelfetch.Headers.{
  Entry, named, hits, get, joined, join_values, delete_named, set_named, set, has, has_named,
  append, rank, position, last_position, or_else, rank_of, insert_by, reorder,
}

-- A text stands at a place of a list, and at none before it, or at none behind it.
abbrev pub IsFirst : Text → ℕ → List Text → Type 0
IsFirst name n order =
    (before : List Text) × (after : List Text) × (order ≡ before ++ name ∷ after)
    × (length before ≡ n)
    × All (λ o. o ≢ name) before

abbrev pub IsLast : Text → ℕ → List Text → Type 0
IsLast name n order =
    (before : List Text) × (after : List Text) × (order ≡ before ++ name ∷ after)
    × (length before ≡ n)
    × All (λ o. o ≢ name) after

abbrev star : Text
star = units "*"

-- The place that an order gives a lowercased name.
abbrev pub IsPlaced : List Text → Text → ℕ → Type 0
IsPlaced order name n =
    ((name ≢ star) × IsLast name n order)
    ⊎ (((name ≡ star) ⊎ All (λ o. o ≢ name) order)
        × (IsFirst star n order ⊎ (All (λ o. o ≢ star) order × (n ≡ length order))))

differ : (a b : Text) → equal a b ≡ false → a ≢ b
differ a b n same = absurd (cc (n, ap (equal a) same, equal_refl a))

last_position-IsLast :
    (name : Text) (i : ℕ) (os : List Text)
    → ((last_position name i os ≡ none) × All (λ o. o ≢ name) os)
      ⊎ ((n : ℕ) × (last_position name i os ≡ some (i + n)) × IsLast name n os)
unfolding last_position
last_position-IsLast name i [] = inl (refl, tt)
last_position-IsLast name i (o ∷ os) = elim (last_position-IsLast name (i + 1) os) [
  | inr found ↦
      let (n, e, (before, after, cut, size, free)) = found in
      inr (
        suc n,
        rw e (ap some (omega arith)),
        (o ∷ before, after, ap (λ t. o ∷ t) cut, omega (arith, size), free),
      )
  | inl missing ↦ elim (Bool-cases (equal o name)) [
    | inl same ↦ inr (
      0,
      rw (missing.0, same) (ap some (omega arith)),
      ([], os, ap (λ t. t ∷ os) (equal-eq o name same), refl, missing.1),
    )
    | inr other ↦ inl (rw (missing.0, other) refl, (differ o name other, missing.1))
  ]
]

position-IsFirst :
    (name : Text) (i : ℕ) (os : List Text)
    → ((position name i os ≡ none) × All (λ o. o ≢ name) os)
      ⊎ ((n : ℕ) × (position name i os ≡ some (i + n)) × IsFirst name n os)
unfolding position
position-IsFirst name i [] = inl (refl, tt)
position-IsFirst name i (o ∷ os) = elim (Bool-cases (equal o name)) [
  | inl same ↦ inr (
    0,
    rw same (ap some (omega arith)),
    ([], os, ap (λ t. t ∷ os) (equal-eq o name same), refl, tt),
  )
  | inr other ↦ elim (position-IsFirst name (i + 1) os) [
    | inl missing ↦ inl (rw other missing.0, (differ o name other, missing.1))
    | inr found ↦
        let (n, e, (before, after, cut, size, free)) = found in
        inr (
          suc n,
          rw (other, e) (ap some (omega arith)),
          (
            o ∷ before,
            after,
            ap (λ t. o ∷ t) cut,
            omega (arith, size),
            (differ o name other, free),
          ),
        )
  ]
]

fallback-IsPlaced :
    (order : List Text)
    → let n = or_else (position star 0 order) (length order) in
      IsFirst star n order ⊎ (All (λ o. o ≢ star) order × (n ≡ length order))
unfolding or_else
fallback-IsPlaced order = elim (position-IsFirst star 0 order) [
  | inl missing ↦ rw missing.0 (inr (missing.1, refl))
  | inr found ↦
      let e : position star 0 order ≡ some found.0 = found.1 ∙ ap some (omega arith) in
      rw e (inl found.2)
]

rank_of-IsPlaced : (order : List Text) (name : Text) → IsPlaced order name (rank_of order name)
unfolding rank_of or_else
rank_of-IsPlaced order name = elim (Bool-cases (equal name star)) [
  | inl same ↦ rw same (inr (inl (equal-eq name star same), fallback-IsPlaced order))
  | inr other ↦ elim (last_position-IsLast name 0 order) [
    | inl missing ↦ rw (other, missing.0) (inr (inr missing.1, fallback-IsPlaced order))
    | inr found ↦
        let e : last_position name 0 order ≡ some found.0 = found.1 ∙ ap some (omega arith) in
        rw (other, e) (inl (differ name star other, found.2))
  ]
]

module _ (to_lower_case : Text → Text) where
  hits-delete_named :
      (lower : Text) (es : List Entry)
      → hits to_lower_case lower (delete_named to_lower_case lower es) ≡ []
  unfolding hits delete_named
  hits-delete_named lower [] = refl
  hits-delete_named lower (e ∷ es) = elim (Bool-cases (named to_lower_case lower e)) [
    | inl same ↦ rw same (hits-delete_named lower es)
    | inr other ↦ rw (other, other) (hits-delete_named lower es)
  ]

  -- An entry's rank depends on its lowercased name only.
  same_rank :
      (order : List Text) (lower : Text) (e f : Entry)
      → named to_lower_case lower e ≡ true
      → named to_lower_case lower f ≡ true
      → rank to_lower_case order e ≡ rank to_lower_case order f
  unfolding rank named
  same_rank order lower e f p q = ap (rank_of order) (equal-eq _ _ p ∙ sym (equal-eq _ _ q))

  hits-insert_by :
      (order : List Text) (lower : Text) (e : Entry) (es : List Entry)
      → hits to_lower_case lower (insert_by to_lower_case order e es)
        ≡ hits to_lower_case lower (e ∷ es)
  unfolding insert_by hits
  hits-insert_by order lower e [] = refl
  hits-insert_by order lower e (f ∷ fs) =
      ground (arith, hits-insert_by order lower e fs, same_rank order lower e f)

  hits-reorder :
      (order : List Text) (lower : Text) (es : List Entry)
      → hits to_lower_case lower (reorder to_lower_case order es) ≡ hits to_lower_case lower es
  unfolding reorder hits
  hits-reorder order lower [] = refl
  hits-reorder order lower (e ∷ es) =
      hits-insert_by order lower e (reorder to_lower_case order es)
      ∙ unfold hits in
        ap (λ t. if named to_lower_case lower e then e.1 ∷ t else t) (hits-reorder order lower es)

  abbrev pub Leads : List Text → Entry → List Entry → Type 0
  Leads order e [] = Unit
  Leads order e (f ∷ fs) = rank to_lower_case order e ≤ rank to_lower_case order f

  -- Each field's rank is at most that of the next.
  abbrev pub Sorted : List Text → List Entry → Type 0
  Sorted order [] = Unit
  Sorted order (e ∷ es) = Leads order e es × Sorted order es

  Leads-insert_by :
      (order : List Text) (d e : Entry) (es : List Entry)
      → rank to_lower_case order d ≤ rank to_lower_case order e
      → Leads order d es
      → Leads order d (insert_by to_lower_case order e es)
  unfolding insert_by
  Leads-insert_by order d e [] h l = h
  Leads-insert_by order d e (f ∷ fs) h l =
      elim (Bool-cases (leb (rank to_lower_case order e) (rank to_lower_case order f))) [
        | inl first ↦ rw first h
        | inr later ↦ rw later l
      ]

  Sorted-insert_by :
      (order : List Text) (e : Entry) (es : List Entry)
      → Sorted order es
      → Sorted order (insert_by to_lower_case order e es)
  unfolding insert_by
  Sorted-insert_by order e [] s = (tt, tt)
  Sorted-insert_by order e (f ∷ fs) s =
      elim (Bool-cases (leb (rank to_lower_case order e) (rank to_lower_case order f))) [
        | inl first ↦ rw first (leb→le _ _ first, s)
        | inr later ↦
            let t = leb→lt _ _ later in
            rw later
              (Leads-insert_by order f e fs (omega (arith, t)) s.0, Sorted-insert_by order e fs s.1)
      ]

  Sorted-reorder :
      (order : List Text) (es : List Entry) → Sorted order (reorder to_lower_case order es)
  unfolding reorder
  Sorted-reorder order [] = tt
  Sorted-reorder order (e ∷ es) =
      Sorted-insert_by order e (reorder to_lower_case order es) (Sorted-reorder order es)

  -- The fields of one rank.
  abbrev pub of_rank : List Text → ℕ → List Entry → List Entry
  of_rank order r [] = []
  of_rank order r (e ∷ es) =
      if rank to_lower_case order e == r then e ∷ of_rank order r es else of_rank order r es

  of_rank-insert_by :
      (order : List Text) (r : ℕ) (e : Entry) (es : List Entry)
      → of_rank order r (insert_by to_lower_case order e es) ≡ of_rank order r (e ∷ es)
  unfolding insert_by
  of_rank-insert_by order r e [] = refl
  of_rank-insert_by order r e (f ∷ fs) = ground (arith, of_rank-insert_by order r e fs)

  of_rank-reorder :
      (order : List Text) (r : ℕ) (es : List Entry)
      → of_rank order r (reorder to_lower_case order es) ≡ of_rank order r es
  unfolding reorder
  of_rank-reorder order r [] = refl
  of_rank-reorder order r (e ∷ es) =
      of_rank-insert_by order r e (reorder to_lower_case order es)
      ∙ ap (λ t. if rank to_lower_case order e == r then e ∷ t else t) (of_rank-reorder order r es)

  -- A field's rank is the place of its lowercased name in the order: where the order names it last,
  -- and for a name that is not in it the first "*", or behind all names where there is no "*".
  -- Reordering puts the fields by rank, none before one of a lower rank, keeps the fields of each rank
  -- as they were and in their order, and so what every name is read as.
  pub reorder_sorts :
      (order : List Text) (name : Text) (es : List Entry)
      → let sorted = reorder to_lower_case order es in
        ((e : Entry) → IsPlaced order (to_lower_case e.0) (rank to_lower_case order e))
        × Sorted order sorted
        × ((r : ℕ) → of_rank order r sorted ≡ of_rank order r es)
        × (get to_lower_case name sorted ≡ get to_lower_case name es)
  unfolding get rank
  reorder_sorts order name es = (
    λ e. rank_of-IsPlaced order (to_lower_case e.0),
    Sorted-reorder order es,
    λ r. of_rank-reorder order r es,
    ap joined (hits-reorder order (to_lower_case name) es),
  )

  hits-set_named :
      (lower value : Text) (es : List Entry)
      → has_named to_lower_case lower es ≡ true
      → hits to_lower_case lower (set_named to_lower_case lower value es) ≡ value ∷ []
  unfolding hits set_named has_named named
  hits-set_named lower value [] h = absurd (cc h)
  hits-set_named lower value (e ∷ es) h = elim (Bool-cases (equal (to_lower_case e.0) lower)) [
    | inl same ↦ rw (same, same) (ap (λ t. value ∷ t) (hits-delete_named lower es))
    | inr other ↦ rw (other, other) (hits-set_named lower value es (rw other at h))
  ]

  hits-append :
      (lower : Text) (es : List Entry) (e : Entry)
      → has_named to_lower_case lower es ≡ false
      → named to_lower_case lower e ≡ true
      → hits to_lower_case lower (es ++ e ∷ []) ≡ e.1 ∷ []
  unfolding hits has_named
  hits-append lower [] e h n = rw n refl
  hits-append lower (f ∷ fs) e h n = elim (Bool-cases (named to_lower_case lower f)) [
    | inl same ↦ absurd (cc (rw same at h))
    | inr other ↦ rw other (hits-append lower fs e (rw other at h) n)
  ]

  append-named :
      (name value : Text) (es : List Entry)
      → 0 < length name
      → append name value es ≡ ok (es ++ (name, value) ∷ [])
  unfolding append
  append-named name value es full = rw (ne→== (length name) 0 (λ z. omega (arith, full, z))) refl

  -- Setting a field with a name that is not empty succeeds, and then the name is read as the value and
  -- nothing else, however often and in whatever case it stood in the list before.
  pub get-set :
      (name value : Text) (es : List Entry)
      → 0 < length name
      → (es' : List Entry) × (set to_lower_case name value es ≡ ok es')
        × (get to_lower_case name es' ≡ some value)
  unfolding set get has joined join_values named
  get-set name value es full = elim (Bool-cases (has_named to_lower_case (to_lower_case name) es)) [
    | inl there ↦ (
      set_named to_lower_case (to_lower_case name) value es,
      rw there refl,
      ap joined (hits-set_named (to_lower_case name) value es there),
    )
    | inr absent_ ↦ (
      es ++ (name, value) ∷ [],
      rw absent_ (append-named name value es full),
      ap joined (
          hits-append (to_lower_case name) es (name, value) absent_
            (equal_refl (to_lower_case name))),
    )
  ]
