-- ===== src/Prelude/Lists.antt =====
-- Lists measured by native numbers, the Boolean searches that JavaScript arrays have, and
-- predicates over all elements.
use Prim.Native.Nat.{ℕ, zero, suc, ◌+◌, ◌-◌, ◌≤◌}
use text.Mathlib.Text.{◌==◌}
use Prim.Native.String.{String}
use mathlib.Core.Path.{◌≡◌, refl}
use mathlib.Core.Bool.{Bool, true, false, not, ◌||◌}
use mathlib.Core.Logic.{◌⊎◌, inl, inr}
use text.Mathlib.TextEquality.{eq_iff}
use mathlib.Core.List.{List, [], ◌∷◌, ◌++◌}
use mathlib.Core.Option.{Option, none, some}
use native.Mathlib.Omega.{arith}

abbrev pick {ℓ} : {A : Type ℓ} → Bool → A → A → A
pick true a b = a
pick false a b = b

pub Bool-cases : (b : Bool) → (b ≡ true) ⊎ (b ≡ false)
Bool-cases true = inl refl
Bool-cases false = inr refl

pub no_or : (a b : Bool) → (a || b) ≡ false → (a ≡ false) × (b ≡ false)
no_or true b e = absurd (cc e)
no_or false b e = (refl, e)

module _ {ℓ} {A : Type ℓ} where
  abbrev pub length : List A → ℕ
  length [] = 0
  length (x ∷ xs) = suc (length xs)

  abbrev pub take : ℕ → List A → List A
  take zero xs = []
  take (suc n) [] = []
  take (suc n) (x ∷ xs) = x ∷ take n xs

  abbrev pub drop : ℕ → List A → List A
  drop zero xs = xs
  drop (suc n) [] = []
  drop (suc n) (x ∷ xs) = drop n xs

  -- `xs[xs.length - 1]`
  abbrev pub last? : List A → Option A
  last? [] = none
  last? (x ∷ []) = some x
  last? (x ∷ y ∷ xs) = last? (y ∷ xs)

  abbrev pub head? : List A → Option A
  head? [] = none
  head? (x ∷ xs) = some x

  -- `xs.filter(p)`, `xs.find(p)`, `xs.some(p)`
  abbrev pub filter_by : (A → Bool) → List A → List A
  filter_by p [] = []
  filter_by p (x ∷ xs) = let rest = filter_by p xs in pick (p x) (x ∷ rest) rest

  abbrev pub find_by : (A → Bool) → List A → Option A
  find_by p [] = none
  find_by p (x ∷ xs) = pick (p x) (some x) (find_by p xs)

  abbrev pub any_by : (A → Bool) → List A → Bool
  any_by p [] = false
  any_by p (x ∷ xs) = p x || any_by p xs

  pub length-append : (xs ys : List A) → length (xs ++ ys) ≡ length xs + length ys
  length-append [] ys = omega arith
  length-append (x ∷ xs) ys = omega (arith, length-append xs ys)

  pub length-drop : (n : ℕ) (xs : List A) → length (drop n xs) ≡ length xs - n
  length-drop zero xs = omega arith
  length-drop (suc n) [] = omega arith
  length-drop (suc n) (x ∷ xs) = omega (arith, length-drop n xs)

  pub length-filter_by-le : (p : A → Bool) (xs : List A) → length (filter_by p xs) ≤ length xs
  length-filter_by-le p [] = omega arith
  length-filter_by-le p (x ∷ xs) = ground (arith, length-filter_by-le p xs)

  pub any_by-append :
      (p : A → Bool) (xs ys : List A) → any_by p (xs ++ ys) ≡ (any_by p xs || any_by p ys)
  any_by-append p [] ys = refl
  any_by-append p (x ∷ xs) ys = ground (arith, any_by-append p xs ys)

  -- A predicate that holds of every element.
  abbrev pub All {κ} : (A → Type κ) → List A → Type κ
  All P [] = Unit
  All P (x ∷ xs) = P x × All P xs

-- `texts.includes(t)`
abbrev pub includes : List String → String → Bool
includes xs t = any_by (λ x. x == t) xs

-- `Array.from(new Set(texts))`: each text once, where it came first.
abbrev pub unique : List String → List String
unique [] = []
unique (x ∷ xs) = x ∷ filter_by (λ y. not (x == y)) (unique xs)

includes-filter_other :
    (x t : String) (xs : List String)
    → (x == t) ≡ false
    → includes (filter_by (λ y. not (x == y)) xs) t ≡ includes xs t
includes-filter_other x t [] apart = refl
includes-filter_other x t (y ∷ xs) apart =
    ground (arith, eq_iff x y, eq_iff y t, eq_iff x t, includes-filter_other x t xs apart)

pub includes-unique : (xs : List String) (t : String) → includes (unique xs) t ≡ includes xs t
includes-unique [] t = refl
includes-unique (x ∷ xs) t = elim (Bool-cases (x == t)) [
  | inl same ↦ rw same refl
  | inr apart ↦ rw (apart, includes-filter_other x t (unique xs) apart, includes-unique xs t) refl
]

pub includes-append :
    (xs ys : List String) (t : String) → includes (xs ++ ys) t ≡ (includes xs t || includes ys t)
includes-append xs ys t = any_by-append (λ x. x == t) xs ys
