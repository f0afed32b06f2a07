-- ===== src/Platform/Catalog/Laws.antt =====
-- Who may not see a subagent cannot tell it from one that is not there.
use remote_subagent_protocol.Prelude.{
  ℕ, String, ◌≡◌, refl, ap, ◌∙◌, sym, false, Option, none, some, List, [], ◌∷◌, arith, eq_iff, ◌==◌,
  map, filter_by, Bool-cases, inl, inr, eq_refl,
}
use remote_subagent_protocol.Prelude.Dict.{Dict, get, delete, values, get-delete}
use remote_subagent_protocol.Prelude.Snapshots.{IsMap}
use remote_subagent_protocol.Platform.Keys.{KeyRecord}
use remote_subagent_protocol.Platform.Market.{Market, Item}
use remote_subagent_protocol.Platform.Market.Access.{is_public, can_view_catalog_item_detail}
use remote_subagent_protocol.Platform.Catalog.{
  Filters, ReviewTest, refreshed, passes, list_catalog, sanitize_catalog_item_for_response,
  detail_seen, detail_found, read_detail, template_seen, template_found, read_template,
}

-- The market without an item.
abbrev pub without : Market → String → Market
without s id = record s { catalog = delete s.catalog id }

-- The public items of a catalog, as the list works on them.
abbrev shown : ℕ → Market → Dict Item → List Item
shown now s m = filter_by (λ i. is_public s (some i)) (map (refreshed now) (values m))

delete-missing {ℓ} : {V : Type ℓ} (m : Dict V) (k : String) → get m k ≡ none → delete m k ≡ m
unfolding get delete
delete-missing [] k missing = refl
delete-missing ((j, w) ∷ m) k missing = elim (Bool-cases (j == k)) [
  | inl same ↦ let found : some w ≡ none = cc (missing, same) in absurd (cc found)
  | inr other ↦ rw other (ap (λ l. (j, w) ∷ l) (delete-missing m k (cc (missing, other))))
]

refreshed-hidden :
    (now : ℕ) (s : Market) (i : Item)
    → is_public s (some i) ≡ false
    → is_public s (some (refreshed now i)) ≡ false
unfolding is_public
refreshed-hidden now s i hidden = hidden

shown-hidden :
    (now : ℕ) (s : Market) (e : String × Item) (m : Dict Item)
    → is_public s (some e.1) ≡ false
    → shown now s (e ∷ m) ≡ shown now s m
unfolding values
shown-hidden now s (j, w) m hidden = rw (refreshed-hidden now s w hidden) refl

shown-cons :
    (now : ℕ) (s : Market) (e : String × Item) (m n : Dict Item)
    → shown now s m ≡ shown now s n
    → shown now s (e ∷ m) ≡ shown now s (e ∷ n)
unfolding values
shown-cons now s (j, w) m n same = rw same refl

shown-delete :
    (now : ℕ) (s : Market) (m : Dict Item) (id : String) (i : Item)
    → IsMap m
    → get m id ≡ some i
    → is_public s (some i) ≡ false
    → shown now s (delete m id) ≡ shown now s m
unfolding get delete
shown-delete now s [] id i distinct there hidden = refl
shown-delete now s ((j, w) ∷ m) id i distinct there hidden = elim (Bool-cases (j == id)) [
  | inl same ↦
      let found : some w ≡ some i = cc (there, same) in
      rw (same, delete-missing m id (ap (get m) (sym ((eq_iff j id).0 same)) ∙ distinct.0))
        (sym (shown-hidden now s (j, w) m (ap (λ v. is_public s (some v)) (cc found) ∙ hidden)))
  | inr other ↦ rw other (
      shown-cons now s (j, w) (delete m id) m
        (shown-delete now s m id i distinct.1 (cc (there, other)) hidden))
]

hidden_where_unseen :
    (s : Market) (auth : Option KeyRecord) (i : Item)
    → can_view_catalog_item_detail s auth i ≡ false
    → is_public s (some i) ≡ false
unfolding can_view_catalog_item_detail
hidden_where_unseen s auth i unseen = ground arith

list-without :
    (now : ℕ) (s : Market) (auth : Option KeyRecord) (id : String) (i : Item) (f : Filters)
    → IsMap s.catalog
    → get s.catalog id ≡ some i
    → can_view_catalog_item_detail s auth i ≡ false
    → list_catalog now s f ≡ list_catalog now (without s id) f
unfolding list_catalog is_public
list-without now s auth id i f distinct there unseen =
    ap (λ l. map (sanitize_catalog_item_for_response s) (filter_by (passes f) l))
      (sym (shown-delete now s s.catalog id i distinct there (hidden_where_unseen s auth i unseen)))

-- A caller who may not see the detail of a subagent gets of its detail, its templates and the list
-- the same answers as if it were not in the catalog, whose ids are distinct.
pub unseen_is_missing :
    (tests : Dict ReviewTest) (now : ℕ) (s : Market) (auth : Option KeyRecord) (id : String)
    (i : Item) (template_ref : Option String) (f : Filters)
    → IsMap s.catalog
    → get s.catalog id ≡ some i
    → can_view_catalog_item_detail s auth i ≡ false
    → (read_detail tests s auth id ≡ read_detail tests (without s id) auth id)
      × (read_template s auth id template_ref ≡ read_template (without s id) auth id template_ref)
      × (list_catalog now s f ≡ list_catalog now (without s id) f)
unfolding read_detail detail_found detail_seen read_template template_found template_seen
unseen_is_missing tests now s auth id i template_ref f distinct there unseen =
    let gone : get (delete s.catalog id) id ≡ none =
      get-delete s.catalog id id ∙ (rw (eq_refl id) refl) in
    (
      rw (there, unseen, gone) refl,
      rw (there, unseen, gone) refl,
      list-without now s auth id i f distinct there unseen,
    )
