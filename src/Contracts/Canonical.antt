-- ===== src/Contracts/Canonical.antt =====
-- `canonicalizeResultPackageForSignature`: the part of a result package that is signed.
use remote_subagent_protocol.Prelude.{
  String, ◌≡◌, refl, true, Option, none, some, List, [], ◌∷◌, arith, eq_iff, includes, eq_refl,
  is_some, ◌&&◌, ◌==◌, if◌then◌else◌,
}
use remote_subagent_protocol.Json.{Json, Fields, end, field, get}

-- The keys of the loop, in its order.
abbrev pub signed_keys : List String
signed_keys =
    "message_type" ∷ "request_id" ∷ "result_version" ∷ "seller_id" ∷ "subagent_id" ∷ "verification"
    ∷ "status" ∷ "output" ∷ "artifacts" ∷ "error" ∷ "timing" ∷ "usage" ∷ []

-- `if (key in result) canonical[key] = result[key]`
unfoldable pub keep_present : String → Option Json → Fields → Fields
keep_present k none rest = rest
keep_present k (some v) rest = field k v rest

unfoldable pub pick_keys : List String → Fields → Fields
unfolding keep_present
pick_keys [] result = end
pick_keys (k ∷ ks) result = keep_present k (get result k) (pick_keys ks result)

unfoldable pub canonicalize : Fields → Fields
unfolding pick_keys
canonicalize result = pick_keys signed_keys result

-- Two objects that agree on the keys of a list.
abbrev pub AgreeOn : List String → Fields → Fields → Type 0
AgreeOn ks a b = (k : String) → includes ks k ≡ true → get a k ≡ get b k

pub pick_keys-AgreeOn :
    (ks : List String) (a b : Fields) → AgreeOn ks a b → pick_keys ks a ≡ pick_keys ks b
unfolding pick_keys
pick_keys-AgreeOn [] a b h = refl
pick_keys-AgreeOn (k ∷ ks) a b h =
    rw (h k (rw (eq_refl k)), pick_keys-AgreeOn ks a b (λ j e. h j (ground arith)))

get-keep_present :
    (j : String) (o : Option Json) (rest : Fields) (k : String)
    → get (keep_present j o rest) k ≡ (if j == k && is_some o then o else get rest k)
unfolding keep_present get
get-keep_present j none rest k = ground arith
get-keep_present j (some v) rest k = ground arith

-- Reading a key of the list gets the value that the object has, and no other key is there.
pub get-pick_keys :
    (ks : List String) (a : Fields) (k : String)
    → get (pick_keys ks a) k ≡ (if includes ks k then get a k else none)
unfolding pick_keys get
get-pick_keys [] a k = refl
get-pick_keys (j ∷ ks) a k =
    ground
      (arith, eq_iff j k, get-keep_present j (get a j) (pick_keys ks a) k, get-pick_keys ks a k)
