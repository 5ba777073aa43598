-- ===== src/Prelude/Texts.antt =====
-- JavaScript strings as the lists of their UTF-16 code units.
use tunnelfetch.Prelude.Tests.{◌==◌, if◌then◌else◌, Bool-cases, ==_iff}
use Prim.Native.Nat.{ℕ}
use mathlib.Core.Path.{◌≡◌, refl, sym, ap, ◌∙◌, subst}
use mathlib.Core.Logic.{inl, inr}
use mathlib.Core.Bool.{Bool, true, false}
use mathlib.Core.List.{List, [], ◌∷◌, ◌++◌}

abbrev pub Text : Type 0
Text = List ℕ

-- `t.includes(c)` for a string of one unit.
unfoldable pub includes : ℕ → Text → Bool
includes c [] = false
includes c (x ∷ xs) = if x == c then true else includes c xs

abbrev pub push : ℕ → List Text → List Text
push x [] = (x ∷ []) ∷ []
push x (w ∷ ws) = (x ∷ w) ∷ ws

-- `t.split(c)` for a separator of one unit.
unfoldable pub split : ℕ → Text → List Text
split c [] = [] ∷ []
split c (x ∷ xs) = if x == c then [] ∷ split c xs else push x (split c xs)

-- `words.join(c)`
unfoldable pub join : ℕ → List Text → Text
join c [] = []
join c (w ∷ []) = w
join c (w ∷ v ∷ ws) = w ++ c ∷ join c (v ∷ ws)

join-push : (c x : ℕ) (w : Text) (ws : List Text) → join c ((x ∷ w) ∷ ws) ≡ x ∷ join c (w ∷ ws)
unfolding join
join-push c x w [] = refl
join-push c x w (v ∷ ws) = refl

-- There is always a first word.
pub record Words (c : ℕ) (t : Text) (ws : List Text) : Type 0 where
  pub first : Text
  pub others : List Text
  pub shape : ws ≡ first ∷ others
  pub joined : join c (first ∷ others) ≡ t
  pub clean : includes c first ≡ false

Words-push :
    (c x : ℕ) (t : Text) (ws : List Text)
    → (x == c) ≡ false
    → Words c t ws
    → Words c (x ∷ t) (push x ws)
unfolding includes
Words-push c x t ws apart h = record {
  first = x ∷ h.first;
  others = h.others;
  shape = ap (push x) h.shape;
  joined = join-push c x h.first h.others ∙ ap (λ u. x ∷ u) h.joined;
  clean = rw apart h.clean;
}

Words-cut : (c : ℕ) (t : Text) (ws : List Text) → Words c t ws → Words c (c ∷ t) ([] ∷ ws)
unfolding includes join
Words-cut c t ws h = record {
  first = [];
  others = ws;
  shape = refl;
  joined = ap (λ u. join c ([] ∷ u)) h.shape ∙ ap (λ u. c ∷ u) h.joined;
  clean = refl;
}

-- The words of a text are what joins to it, and the first holds no separator.
pub Words-split : (c : ℕ) (t : Text) → Words c t (split c t)
unfolding split includes join
Words-split c [] = record { first = []; others = []; shape = refl; joined = refl; clean = refl }
Words-split c (x ∷ xs) = elim (Bool-cases (x == c)) [
  | inl e ↦ rw e (
      subst (λ y. Words c (y ∷ xs) ([] ∷ split c xs)) (sym ((==_iff x c).0 e))
        (Words-cut c xs (split c xs) (Words-split c xs)))
  | inr e ↦ rw e (Words-push c x xs (split c xs) e (Words-split c xs))
]
