-- ===== src/Prelude/Dict.antt =====
-- JavaScript's `Map` from strings to lists, in order of insertion: an absent key and an empty list
-- are told apart, as `has` and `size` tell them apart.
use tunnelfetch.Prelude.Tests.{if◌then◌else◌, Bool-cases}
use tunnelfetch.Prelude.Lists.{length, count, count-append}
use Prim.Native.Nat.{ℕ, ◌+◌}
use Prim.Native.String.{String}
use mathlib.Core.Path.{◌≡◌, refl}
use mathlib.Core.Logic.{inl, inr}
use mathlib.Core.Bool.{Bool, true, false}
use mathlib.Core.List.{List, [], ◌∷◌, ◌++◌}
use native.Mathlib.Omega.{arith}
use text.Mathlib.Text.{◌==◌ as str_eq}
use text.Mathlib.TextEquality.{eq_iff}

module _ {ℓ} {V : Type ℓ} where
  -- `m.get(k) ?? []`
  unfoldable pub get_list : String → List (String × List V) → List V
  get_list k [] = []
  get_list k ((j, v) ∷ m) = if str_eq j k then v else get_list k m

  -- `m.set(k, v)`: a key that is there keeps its place.
  unfoldable pub set_list : String → List V → List (String × List V) → List (String × List V)
  set_list k v [] = (k, v) ∷ []
  set_list k v ((j, w) ∷ m) = if str_eq j k then (j, v) ∷ m else (j, w) ∷ set_list k v m

  -- `m.delete(k)`
  unfoldable pub delete : String → List (String × List V) → List (String × List V)
  delete k [] = []
  delete k ((j, w) ∷ m) = if str_eq j k then m else (j, w) ∷ delete k m

  -- The values one after the other, and how many there are.
  unfoldable pub values : List (String × List V) → List V
  values [] = []
  values ((j, w) ∷ m) = w ++ values m

  unfoldable pub total : List (String × List V) → ℕ
  total [] = 0
  total ((j, w) ∷ m) = length w + total m

  -- No key stands twice.
  unfoldable pub absent : String → List (String × List V) → Bool
  absent k [] = true
  absent k ((j, w) ∷ m) = if str_eq j k then false else absent k m

  abbrev pub Distinct : List (String × List V) → Type 0
  Distinct [] = Unit
  Distinct ((j, w) ∷ m) = (absent j m ≡ true) × Distinct m

  pub get_list-set :
      (k j : String) (v : List V) (m : List (String × List V))
      → get_list j (set_list k v m) ≡ (if str_eq k j then v else get_list j m)
  unfolding get_list set_list
  get_list-set k j v [] = refl
  get_list-set k j v ((i, w) ∷ m) =
      ground (arith, get_list-set k j v m, eq_iff i j, eq_iff i k, eq_iff k j)

  get_list-absent :
      (k : String) (m : List (String × List V)) → absent k m ≡ true → get_list k m ≡ []
  unfolding get_list absent
  get_list-absent k [] h = refl
  get_list-absent k ((i, w) ∷ m) h = ground (arith, get_list-absent k m)

  pub get_list-delete :
      (k j : String) (m : List (String × List V))
      → Distinct m
      → get_list j (delete k m) ≡ (if str_eq k j then [] else get_list j m)
  unfolding get_list delete absent
  get_list-delete k j [] d = ground arith
  get_list-delete k j ((i, w) ∷ m) d = ground (
    arith,
    eq_iff k j,
    eq_iff i k,
    eq_iff i j,
    get_list-delete k j m,
    get_list-absent i m,
    d.0,
    get_list-absent j m,
  )

  absent-set :
      (k j : String) (v : List V) (m : List (String × List V))
      → absent j (set_list k v m) ≡ (if str_eq k j then false else absent j m)
  unfolding absent set_list
  absent-set k j v [] = refl
  absent-set k j v ((i, w) ∷ m) =
      ground (arith, absent-set k j v m, eq_iff i j, eq_iff i k, eq_iff k j)

  pub Distinct-set :
      (k : String) (v : List V) (m : List (String × List V))
      → Distinct m
      → Distinct (set_list k v m)
  unfolding absent set_list
  Distinct-set k v [] d = (refl, tt)
  Distinct-set k v ((i, w) ∷ m) d = elim (Bool-cases (str_eq i k)) [
    | inl e ↦ rw e (d.0, d.1)
    | inr e ↦
        rw e
          (ground (arith, absent-set k i v m, eq_iff i k, eq_iff k i, d.0), Distinct-set k v m d.1)
  ]

  absent-delete :
      (k j : String) (m : List (String × List V)) → absent j m ≡ true → absent j (delete k m) ≡ true
  unfolding absent delete
  absent-delete k j [] h = refl
  absent-delete k j ((i, w) ∷ m) h = ground (arith, absent-delete k j m)

  pub Distinct-delete :
      (k : String) (m : List (String × List V)) → Distinct m → Distinct (delete k m)
  unfolding delete
  Distinct-delete k [] d = tt
  Distinct-delete k ((i, w) ∷ m) d = elim (Bool-cases (str_eq i k)) [
    | inl e ↦ rw e d.1
    | inr e ↦ rw e (absent-delete k i m d.0, Distinct-delete k m d.1)
  ]

  pub total-set :
      (k : String) (v : List V) (m : List (String × List V))
      → total (set_list k v m) + length (get_list k m) ≡ total m + length v
  unfolding total set_list get_list
  total-set k v [] = omega arith
  total-set k v ((i, w) ∷ m) = ground (arith, total-set k v m)

  pub total-delete :
      (k : String) (m : List (String × List V))
      → total (delete k m) + length (get_list k m) ≡ total m
  unfolding total delete get_list
  total-delete k [] = omega arith
  total-delete k ((i, w) ∷ m) = ground (arith, total-delete k m)

pub count-values-set :
    (c : ℕ) (k : String) (v : List ℕ) (m : List (String × List ℕ))
    → count c (values (set_list k v m)) + count c (get_list k m) ≡ count c (values m) + count c v
unfolding values set_list get_list
count-values-set c k v [] = omega (arith, count-append c v [])
count-values-set c k v ((i, w) ∷ m) = ground (
  arith,
  count-values-set c k v m,
  count-append c v (values m),
  count-append c w (values m),
  count-append c w (values (set_list k v m)),
)

pub count-values-delete :
    (c : ℕ) (k : String) (m : List (String × List ℕ))
    → count c (values (delete k m)) + count c (get_list k m) ≡ count c (values m)
unfolding values delete get_list
count-values-delete c k [] = omega arith
count-values-delete c k ((i, w) ∷ m) = ground (
  arith,
  count-values-delete c k m,
  count-append c w (values m),
  count-append c w (values (delete k m)),
)
