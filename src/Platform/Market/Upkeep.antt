-- ===== src/Platform/Market/Upkeep.antt =====
-- What changes a seller and all its items at once: `rotateSellerSigningKey`, and the route
-- POST /v1/sellers/:id/heartbeat. A body of `none` is no JSON.
use remote_subagent_protocol.Prelude.{
  ℕ, String, Bool, true, false, not, Option, none, some, List, [], ◌∷◌, ◌==◌, if◌then◌else◌, truthy,
  or_text, text_or, unique, filter_by,
}
use remote_subagent_protocol.Prelude.Dict.{get, map_values}
use remote_subagent_protocol.Contracts.{build_structured_error}
use remote_subagent_protocol.Platform.Answer.{Answer, ok, failed, send_error, not_json}
use remote_subagent_protocol.Platform.Keys.{SellerAccount, KeyRecord}
use remote_subagent_protocol.Platform.Market.{Market, Item, Draw, set_seller}
use remote_subagent_protocol.Platform.Market.Access.{require_seller}

-- Every item of the seller is changed in its place.
unfoldable pub change_own : String → (Item → Item) → Item → Item
change_own id f i = if i.seller_id == id then f i else i

unfoldable pub set_seller_and_items : String → SellerAccount → (Item → Item) → Market → Market
unfolding change_own
set_seller_and_items id a f s = record (set_seller id a s) {
  catalog = map_values (change_own id f) s.catalog;
}

pub record KeyBody : Type 0 where
  pub seller_public_key_pem : Option String
  pub next_public_key_pem : Option String
  pub previous_public_keys_pem : Option (List String)
  pub rotation_window_until : Option String

pub record Rotated : Type 0 where
  pub seller_id : String
  pub seller_public_key_pem : String
  pub seller_public_keys_pem : List String
  pub rotation_window_until : Option String

-- The keys that stay valid: those the body lists, or the seller's present one.
unfoldable pub previous_keys : KeyBody → SellerAccount → List String
previous_keys b a = elim b.previous_public_keys_pem [
  | some keys ↦ filter_by (λ k. not (k == "")) keys
  | none ↦ if truthy a.seller_public_key_pem then text_or a.seller_public_key_pem "" ∷ [] else []
]

abbrev all_keys : String → KeyBody → SellerAccount → List String
all_keys next b a = unique (next ∷ previous_keys b a)

abbrev signed_seller : String → KeyBody → SellerAccount → SellerAccount
signed_seller next b a = record a {
  seller_public_key_pem = some next;
  seller_public_keys_pem = all_keys next b a;
  signing_key_rotation_window_until = or_text b.rotation_window_until none;
}

abbrev signed_item : String → KeyBody → SellerAccount → Item → Item
signed_item next b a i = record i {
  seller_public_key_pem = some next;
  seller_public_keys_pem = all_keys next b a;
  signing_key_rotation_window_until = or_text b.rotation_window_until none;
}

module _ (id : String) (b : KeyBody) (s : Market) where
  unfoldable pub rotate_named : SellerAccount → String → Bool → Market × Option (Answer Rotated)
  unfolding previous_keys set_seller_and_items
  rotate_named a next false = (
    s,
    some (
        failed 400 (
          build_structured_error "CONTRACT_INVALID_SIGNING_KEY_ROTATION"
            "seller_public_key_pem is required" (some false))),
  )
  rotate_named a next true = (
    set_seller_and_items id (signed_seller next b a) (signed_item next b a) s,
    some (
        ok (record {
          seller_id = id;
          seller_public_key_pem = next;
          seller_public_keys_pem = all_keys next b a;
          rotation_window_until = or_text b.rotation_window_until none;
        })),
  )

  unfoldable pub rotate_found : Option SellerAccount → Market × Option (Answer Rotated)
  unfolding rotate_named
  rotate_found none = (s, none)
  rotate_found (some a) =
      let next = or_text b.seller_public_key_pem b.next_public_key_pem in
      rotate_named a (text_or next "") (truthy next)

  -- `none` where there is no such seller.
  unfoldable pub rotate_seller_signing_key : Market × Option (Answer Rotated)
  unfolding rotate_found
  rotate_seller_signing_key = rotate_found (get s.accounts.sellers id)

pub record Heartbeat : Type 0 where
  pub seller_id : String
  pub status : String
  pub heartbeat_interval_s : ℕ
  pub last_heartbeat_at : ℕ

module _ (d : Draw) (id : String) (s : Market) where
  abbrev beating_seller : Option String → SellerAccount → SellerAccount
  beating_seller status a = record a {
    last_heartbeat_at = d.now;
    availability_status = text_or status "healthy";
  }

  abbrev beating_item : Option String → Item → Item
  beating_item status i = record i {
    last_heartbeat_at = d.now;
    availability_status = text_or status "healthy";
  }

  unfoldable pub heartbeat_found : Option String → Option SellerAccount → Market × Answer Heartbeat
  unfolding set_seller_and_items
  heartbeat_found status none =
      (s, send_error 404 "SELLER_NOT_FOUND" "no seller found with this id")
  heartbeat_found status (some a) = (
    set_seller_and_items id (beating_seller status a) (beating_item status) s,
    ok (record {
      seller_id = id;
      status = text_or status "healthy";
      heartbeat_interval_s = 30;
      last_heartbeat_at = d.now;
    }),
  )

  -- The body is its `status`.
  unfoldable pub heartbeat_read : Answer Unit → Option (Option String) → Market × Answer Heartbeat
  unfolding heartbeat_found
  heartbeat_read (failed code error) body = (s, failed code error)
  heartbeat_read (ok _) none = (s, not_json)
  heartbeat_read (ok _) (some status) = heartbeat_found status (get s.accounts.sellers id)

  -- POST /v1/sellers/:id/heartbeat
  unfoldable pub heartbeat : Option KeyRecord → Option (Option String) → Market × Answer Heartbeat
  unfolding heartbeat_read
  heartbeat auth body = heartbeat_read (require_seller auth (some id) none) body
