-- ===== src/Prelude/Dict.antt =====
-- A JavaScript `Map` with text keys: entries in the order of insertion; `set` keeps the place of a
-- key that is there.
use Prim.Native.String.{String}
use mathlib.Core.Path.{◌≡◌, refl, ◌∙◌}
use mathlib.Core.Bool.{Bool, true, false}
use mathlib.Core.List.{List, [], ◌∷◌}
use mathlib.Core.Option.{Option, none, some}
use mathlib.Core.Logic.{◌⊎◌, inl, inr}
use native.Mathlib.Omega.{arith}
use text.Mathlib.Text.{◌==◌}
use text.Mathlib.TextEquality.{eq_iff}

abbrev pub choose {ℓ} : {A : Type ℓ} → Bool → A → A → A
choose true a b = a
choose false a b = b

abbrev pub Dict {ℓ} : Type ℓ → Type ℓ
Dict V = List (String × V)

module _ {ℓ} {V : Type ℓ} where
  unfoldable pub get : Dict V → String → Option V
  get [] k = none
  get ((j, v) ∷ m) k = choose (j == k) (some v) (get m k)

  unfoldable pub put : Dict V → String → V → Dict V
  put [] k v = (k, v) ∷ []
  put ((j, w) ∷ m) k v = choose (j == k) ((k, v) ∷ m) ((j, w) ∷ put m k v)

  unfoldable pub delete : Dict V → String → Dict V
  delete [] k = []
  delete ((j, w) ∷ m) k = let rest = delete m k in choose (j == k) rest ((j, w) ∷ rest)

  pub get-put :
      (m : Dict V) (k j : String) (v : V) → get (put m k v) j ≡ choose (k == j) (some v) (get m j)
  unfolding get put
  get-put [] k j v = refl
  get-put ((i, w) ∷ m) k j v = ground (arith, eq_iff k j, eq_iff i k, eq_iff i j, get-put m k j v)

  pub get-delete : (m : Dict V) (k j : String) → get (delete m k) j ≡ choose (k == j) none (get m j)
  unfolding get delete
  get-delete [] k j = ground arith
  get-delete ((i, w) ∷ m) k j = ground (arith, eq_iff k j, eq_iff i k, eq_iff i j, get-delete m k j)

  pub get-empty : (k : String) → get [] k ≡ none
  unfolding get
  get-empty k = refl

  -- `for (const value of map.values())`, where each value is changed in its place.
  unfoldable pub map_values : (V → V) → Dict V → Dict V
  map_values f [] = []
  map_values f ((j, w) ∷ m) = (j, f w) ∷ map_values f m

  unfoldable pub values : Dict V → List V
  values [] = []
  values ((j, w) ∷ m) = w ∷ values m

  abbrev map_option : (V → V) → Option V → Option V
  map_option f none = none
  map_option f (some v) = some (f v)

  map_option-choose :
      (b : Bool) (f : V → V) (v : V) (o : Option V)
      → choose b (some (f v)) (map_option f o) ≡ map_option f (choose b (some v) o)
  map_option-choose true f v o = refl
  map_option-choose false f v o = refl

  get-map_option :
      (f : V → V) (m : Dict V) (k : String) → get (map_values f m) k ≡ map_option f (get m k)
  unfolding get map_values
  get-map_option f [] k = refl
  get-map_option f ((j, w) ∷ m) k =
      (rw (get-map_option f m k) refl) ∙ map_option-choose (j == k) f w (get m k)

  pub get-map_values :
      (f : V → V) (m : Dict V) (k : String) (v : V)
      → get m k ≡ some v
      → get (map_values f m) k ≡ some (f v)
  get-map_values f m k v there = get-map_option f m k ∙ (rw there refl)

  -- What a changed map holds comes from what it held.
  pub get-map_values_from :
      (f : V → V) (m : Dict V) (k : String) (w : V)
      → get (map_values f m) k ≡ some w
      → (v : V) × (get m k ≡ some v) × (w ≡ f v)
  get-map_values_from f m k w there = from (get m k) refl
    where
      from : (o : Option V) → get m k ≡ o → (v : V) × (get m k ≡ some v) × (w ≡ f v)
      from none missing = absurd (cc (there, get-map_option f m k, missing))
      from (some v) found = (v, found, cc (there, get-map_values f m k v found))

decided : (b : Bool) → (b ≡ true) ⊎ (b ≡ false)
decided true = inl refl
decided false = inr refl

-- What a map holds under a key after a put: the new value, or what it held.
pub put_cases {ℓ} :
    {A : Type ℓ} (m : Dict A) (id k : String) (v w : A)
    → get (put m id v) k ≡ some w
    → ((id ≡ k) × (v ≡ w)) ⊎ (((id == k) ≡ false) × (get m k ≡ some w))
put_cases m id k v w there = elim (decided (id == k)) [
  | inl same ↦
      let found : some v ≡ some w = cc (there, get-put m id k v, same) in
      inl ((eq_iff id k).0 same, cc found)
  | inr other ↦ inr (other, cc (there, get-put m id k v, other))
]
