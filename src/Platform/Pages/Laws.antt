-- ===== src/Platform/Pages/Laws.antt =====
-- The pages of a listing, read one after another, are the listing.
use remote_subagent_protocol.Prelude.{
  ℕ, zero, suc, ◌+◌, ◌-◌, ◌≤◌, ◌<◌, ◌≡◌, refl, ap, ◌∙◌, sym, true, Option, List, [], ◌∷◌, ◌++◌, ◌↔◌,
  arith, ltb, length, take, drop, length-drop, min,
}
use remote_subagent_protocol.Platform.Pages.{parse_pagination, paginate_items}

take-append-drop {ℓ} : {A : Type ℓ} (n : ℕ) (xs : List A) → take n xs ++ drop n xs ≡ xs
take-append-drop zero xs = refl
take-append-drop (suc n) [] = refl
take-append-drop (suc n) (x ∷ xs) = rw (take-append-drop n xs)

drop-nil {ℓ} : {A : Type ℓ} (n : ℕ) → drop {A = A} n [] ≡ []
drop-nil zero = refl
drop-nil (suc n) = refl

drop-drop {ℓ} : {A : Type ℓ} (m n : ℕ) (xs : List A) → drop m (drop n xs) ≡ drop (n + m) xs
drop-drop m zero xs = ap (λ k. drop k xs) (omega arith)
drop-drop m (suc n) [] = drop-nil m ∙ sym (drop-nil (suc n + m))
drop-drop m (suc n) (x ∷ xs) =
    drop-drop m n xs ∙ ap (λ k. drop k (x ∷ xs)) {x = suc (n + m)} (omega arith)

length-take {ℓ} : {A : Type ℓ} (n : ℕ) (xs : List A) → length (take n xs) ≡ min n (length xs)
length-take zero xs = omega arith
length-take (suc n) [] = omega arith
length-take (suc n) (x ∷ xs) = omega (arith, length-take n xs)

more_iff :
    (total limit offset : ℕ)
    → 1 ≤ limit
    → (ltb (offset + min limit (total - offset)) total ≡ true) ↔ (0 < total - (offset + limit))
more_iff total limit offset h = ground arith

-- A page with what follows at the next offset is what follows at its own; it tells that there is
-- more exactly if something follows at the next; and whatever limit is asked for, it holds at most
-- 200 items, and at least one where any is left.
pub pages_cover :
    {A : Type 0} (items : List A) (limit offset : Option ℕ)
    → let p = parse_pagination limit offset in
      let page = paginate_items items p in
      (page.items ++ drop (p.offset + p.limit) items ≡ drop p.offset items)
      × ((page.has_more ≡ true) ↔ (0 < length (drop (p.offset + p.limit) items)))
      × (length page.items ≤ 200)
      × (0 < length (drop p.offset items) → 0 < length page.items)
unfolding parse_pagination paginate_items
pages_cover items limit offset =
    let p = parse_pagination limit offset in
    let rest = drop p.offset items in
    (
      ap (λ l. take p.limit rest ++ l) (sym (drop-drop p.limit p.offset items))
          ∙ take-append-drop p.limit rest,
      rw
          (
            length-take p.limit rest,
            length-drop p.offset items,
            length-drop (p.offset + p.limit) items,
          )
          (more_iff (length items) p.limit p.offset (omega arith)),
      omega (arith, length-take p.limit rest),
      λ left. omega (arith, length-take p.limit rest),
    )
