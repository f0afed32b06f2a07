-- ===== src/Contracts/Laws.antt =====
-- The canonical form of a result package depends on exactly the signed keys.
use remote_subagent_protocol.Prelude.{String, ◌≡◌, none, includes, if◌then◌else◌, ap, ◌∙◌, ◌↔◌}
use remote_subagent_protocol.Json.{Fields, get}
use remote_subagent_protocol.Contracts.Canonical.{
  canonicalize, signed_keys, AgreeOn, pick_keys-AgreeOn, get-pick_keys,
}

pub get-canonicalize :
    (a : Fields) (k : String)
    → get (canonicalize a) k ≡ (if includes signed_keys k then get a k else none)
unfolding canonicalize
get-canonicalize a k = get-pick_keys signed_keys a k

-- Two packages have one canonical form exactly when they agree on the signed keys: the values of
-- the twelve signed fields count, and neither other fields nor the order of the fields do.
pub canonicalize_iff : (a b : Fields) → (canonicalize a ≡ canonicalize b) ↔ AgreeOn signed_keys a b
canonicalize_iff a b = (
  λ e k signed. cc (signed, get-canonicalize a k, get-canonicalize b k, ap (λ c. get c k) e),
  λ h. unfold canonicalize in pick_keys-AgreeOn signed_keys a b h,
)

-- Canonicalising twice is canonicalising once.
pub canonicalize-canonicalize : (a : Fields) → canonicalize (canonicalize a) ≡ canonicalize a
canonicalize-canonicalize a =
    (canonicalize_iff (canonicalize a) a).1 (λ k signed. get-canonicalize a k ∙ (rw signed))
