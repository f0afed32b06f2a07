-- ===== src/Prelude/Snapshots.antt =====
-- Maps that are written out as their entries and read back, one `set` for each.
use Prim.Native.String.{String}
use mathlib.Core.Path.{◌≡◌, refl, sym, ap, ◌∙◌}
use mathlib.Core.Bool.{Bool, true, false}
use mathlib.Core.List.{[], ◌∷◌, ◌++◌, append_assoc, append-nil}
use mathlib.Core.Option.{Option, none, some}
use native.Mathlib.Omega.{arith}
use text.Mathlib.Text.{◌==◌}
use text.Mathlib.TextEquality.{eq_iff}
use remote_subagent_protocol.Prelude.Lists.{All}
use remote_subagent_protocol.Prelude.Dict.{choose, Dict, get, put, get-put}

apart : (j k : String) → (j == k) ≡ false → (k == j) ≡ false
apart j k h = ground (arith, eq_iff j k, eq_iff k j)

module _ {ℓ} {V : Type ℓ} where
  -- `for (const [key, value] of entries) map.set(key, value)`
  unfoldable pub set_all : Dict V → Dict V → Dict V
  set_all [] m = m
  set_all ((k, v) ∷ entries) m = set_all entries (put m k v)

  -- `map.clear()`, and then the entries
  unfoldable pub restore : Dict V → Dict V
  unfolding set_all
  restore entries = set_all entries []

  -- No key comes twice, as in every map.
  abbrev pub IsMap : Dict V → Type ℓ
  IsMap [] = Unit
  IsMap ((k, v) ∷ m) = (get m k ≡ none) × IsMap m

  abbrev Misses : Dict V → String × V → Type ℓ
  Misses m e = get m e.0 ≡ none

  not_here :
      (b : Bool) (w : V) (o : Option V) → choose b (some w) o ≡ none → (b ≡ false) × (o ≡ none)
  not_here true w o e = absurd (cc e)
  not_here false w o e = (refl, e)

  put-fresh : (m : Dict V) (k : String) (v : V) → get m k ≡ none → put m k v ≡ m ++ (k, v) ∷ []
  unfolding get put
  put-fresh [] k v fresh = refl
  put-fresh ((j, w) ∷ m) k v fresh =
      let (other, rest) = not_here (j == k) w (get m k) fresh in
      rw other (ap (λ l. (j, w) ∷ l) (put-fresh m k v rest))

  missing_where_no_key : (m : Dict V) → All (Misses []) m
  unfolding get
  missing_where_no_key [] = tt
  missing_where_no_key (e ∷ m) = (refl, missing_where_no_key m)

  others :
      (m entries : Dict V) (k : String) (v : V)
      → get entries k ≡ none
      → All (Misses m) entries
      → All (Misses (put m k v)) entries
  unfolding get
  others m [] k v fresh missing = missing
  others m ((j, w) ∷ entries) k v fresh missing =
      let (other, rest) = not_here (j == k) w (get entries k) fresh in
      (
        get-put m k j v ∙ ap (λ b. choose b (some v) (get m j)) (apart j k other) ∙ missing.0,
        others m entries k v rest missing.1,
      )

  set_all-append :
      (entries m : Dict V)
      → IsMap entries
      → All (Misses m) entries
      → set_all entries m ≡ m ++ entries
  unfolding set_all
  set_all-append [] m distinct missing = sym (append-nil m)
  set_all-append ((k, v) ∷ entries) m distinct missing =
      set_all-append entries (put m k v) distinct.1 (others m entries k v distinct.0 missing.1)
      ∙ ap (λ l. l ++ entries) (put-fresh m k v missing.0)
      ∙ append_assoc m ((k, v) ∷ []) entries

  pub restore-same : (m : Dict V) → IsMap m → restore m ≡ m
  unfolding restore
  restore-same m distinct = set_all-append m [] distinct (missing_where_no_key m)
