-- ===== src/Prelude/Texts.antt =====
-- `trim` and `split` of JavaScript texts.
use Prim.Native.Char.{Char, code}
use Prim.Native.Nat.{ℕ, zero, suc, ◌/◌, ◌%◌, compare, Ordering}
use Prim.Native.String.{String, ◌++◌ as append}
use mathlib.Core.Bool.{Bool, true, false, not, ◌&&◌, ◌||◌}
use mathlib.Core.Path.{◌≡◌, refl, ap, ◌∙◌}
use text.Mathlib.TextLemmas.{cons-append, nil-append}
use mathlib.Core.List.{List, [], ◌∷◌}
use text.Mathlib.Text.{◌==◌}

abbrev pick {ℓ} : {A : Type ℓ} → Bool → A → A → A
pick true a b = a
pick false a b = b

abbrev at_most : ℕ → ℕ → Bool
at_most a b = elim (compare a b) [ Ordering.gt ↦ false | _ ↦ true ]

abbrev between : ℕ → ℕ → ℕ → Bool
between low high c = at_most low c && at_most c high

-- White space and line ends.
unfoldable pub is_space : ℕ → Bool
is_space c =
    between 9 13 c
    || between 32 32 c
    || between 160 160 c
    || between 0x1680 0x1680 c
    || between 0x2000 0x200a c
    || between 0x2028 0x2029 c
    || between 0x202f 0x202f c
    || between 0x205f 0x205f c
    || between 0x3000 0x3000 c
    || between 0xfeff 0xfeff c

-- `trimStart`, `trimEnd`, `trim`
trim_start : String → String
unfolding is_space
trim_start String.[] = ""
trim_start (String.◌∷◌ c s) =
    let rest = trim_start s in pick (is_space (code c)) rest (String.◌∷◌ c s)

trim_end : String → String
unfolding is_space
trim_end String.[] = ""
trim_end (String.◌∷◌ c s) =
    let rest = trim_end s in pick ((rest == "") && is_space (code c)) "" (String.◌∷◌ c rest)

unfoldable pub trim : String → String
unfolding trim_start trim_end
trim s = trim_end (trim_start s)

-- The first part gets the character.
extend : String → List String → List String
extend c [] = c ∷ []
extend c (part ∷ parts) = append c part ∷ parts

-- `text.split(separator)` at one character, given by its code.
unfoldable pub split : ℕ → String → List String
unfolding extend
split separator String.[] = "" ∷ []
split separator (String.◌∷◌ c s) =
    let rest = split separator s in
    pick (between separator separator (code c)) ("" ∷ rest) (extend (String.◌∷◌ c "") rest)

text_at : ℕ → List String → String
text_at n [] = ""
text_at zero (t ∷ ts) = t
text_at (suc n) (t ∷ ts) = text_at n ts

digit : ℕ → String
unfolding text_at
digit n = text_at n ("0" ∷ "1" ∷ "2" ∷ "3" ∷ "4" ∷ "5" ∷ "6" ∷ "7" ∷ "8" ∷ "9" ∷ [])

digits_on : ℕ → ℕ → String → String
unfolding digit
digits_on zero n rest = rest
digits_on (suc fuel) n rest =
    let shown = append (digit (n % 10)) rest in
    let longer = digits_on fuel (n / 10) shown in pick (at_most n 9) shown longer

-- A number in a text. It has no more digits than one more than its size.
unfoldable pub decimal : ℕ → String
unfolding digits_on
decimal n = digits_on (suc n) n ""

-- The character with the code is not in the text.
abbrev pub lacks : ℕ → String → Bool
lacks separator String.[] = true
lacks separator (String.◌∷◌ c s) = not (between separator separator (code c)) && lacks separator s

extend-one :
    (c : Char) (s : String) (parts : List String)
    → extend (String.◌∷◌ c "") (s ∷ parts) ≡ String.◌∷◌ c s ∷ parts
unfolding extend
extend-one c s parts = ap (λ t. t ∷ parts) (cons-append c "" s ∙ ap (String.◌∷◌ c) (nil-append s))

no_and : (a b : Bool) → (not a && b) ≡ true → (a ≡ false) × (b ≡ true)
no_and true b e = absurd (cc e)
no_and false b e = (refl, e)

split-other :
    (separator : ℕ) (c : Char) (s t : String) (parts : List String)
    → between separator separator (code c) ≡ false
    → split separator s ≡ t ∷ parts
    → split separator (String.◌∷◌ c s) ≡ String.◌∷◌ c t ∷ parts
unfolding split
split-other separator c s t parts other rest =
    rw other (ap (extend (String.◌∷◌ c "")) rest ∙ extend-one c t parts)

pub split-lacks :
    (separator : ℕ) (s : String) → lacks separator s ≡ true → split separator s ≡ s ∷ []
unfolding split
split-lacks separator String.[] h = refl
split-lacks separator (String.◌∷◌ c s) h =
    let (other, rest) = no_and _ _ h in
    split-other separator c s s [] other (split-lacks separator s rest)

-- The first part ends at the first separator.
pub split-append :
    (separator : ℕ) (dot : Char) (s t : String)
    → between separator separator (code dot) ≡ true
    → lacks separator s ≡ true
    → split separator (append s (String.◌∷◌ dot t)) ≡ s ∷ split separator t
unfolding split
split-append separator dot String.[] t here h =
    ap (split separator) (nil-append (String.◌∷◌ dot t)) ∙ (rw here refl)
split-append separator dot (String.◌∷◌ c s) t here h =
    let (other, rest) = no_and _ _ h in
    ap (split separator) (cons-append c s (String.◌∷◌ dot t))
    ∙ split-other separator c _ s (split separator t) other
        (split-append separator dot s t here rest)
