-- ===== src/Platform/History.antt =====
-- `pushCapped`: a list that keeps its newest entries.
use remote_subagent_protocol.Prelude.{
  ℕ, zero, suc, ◌-◌, ◌≤◌, ◌≡◌, refl, Bool, true, some, List, [], ◌∷◌, ◌++◌, arith, length, drop,
  length-append, length-drop, any_by, any_by-append, max, number_or,
}

-- `Math.max(1, Number(limit || DEFAULT_TELEMETRY_HISTORY_LIMIT))`
abbrev pub capacity : ℕ → ℕ
capacity limit = max 1 (number_or (some limit) 5000)

unfoldable pub push_capped {ℓ} : {A : Type ℓ} → ℕ → List A → A → List A
push_capped limit xs x = let pushed = xs ++ x ∷ [] in drop (length pushed - capacity limit) pushed

drop-append {ℓ} :
    {A : Type ℓ} (n : ℕ) (xs ys : List A) → n ≤ length xs → drop n (xs ++ ys) ≡ drop n xs ++ ys
drop-append zero xs ys h = refl
drop-append (suc n) [] ys h = absurd (omega arith)
drop-append (suc n) (x ∷ xs) ys h = drop-append n xs ys (omega arith)

-- A push keeps the list within its limit, which is at least one, and gives the newest of the old
-- entries, in their order, with the new one behind them.
pub push_capped_keeps_newest {ℓ} :
    {A : Type ℓ} (limit : ℕ) (xs : List A) (x : A)
    → (length (push_capped limit xs x) ≤ capacity limit)
      × (push_capped limit xs x ≡ drop (suc (length xs) - capacity limit) xs ++ x ∷ [])
unfolding push_capped
push_capped_keeps_newest limit xs x =
    let total : length (xs ++ x ∷ []) ≡ suc (length xs) =
      omega (arith, length-append xs (x ∷ [])) in
    (
      omega (arith, total, length-drop (length (xs ++ x ∷ []) - capacity limit) (xs ++ x ∷ [])),
      rw total (drop-append (suc (length xs) - capacity limit) xs (x ∷ []) (omega arith)),
    )

pub any_by-push_capped {ℓ} :
    {A : Type ℓ} (p : A → Bool) (limit : ℕ) (xs : List A) (x : A)
    → p x ≡ true
    → any_by p (push_capped limit xs x) ≡ true
any_by-push_capped p limit xs x h =
    let (bound, newest) = push_capped_keeps_newest limit xs x in
    rw (newest, any_by-append p (drop (suc (length xs) - capacity limit) xs) (x ∷ []), h)
      (ground arith)
