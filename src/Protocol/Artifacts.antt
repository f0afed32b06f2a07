-- ===== src/Protocol/Artifacts.antt =====
-- The attachments that the seller sends satisfy the bindings that the buyer checks.
use remote_subagent_protocol.Prelude.{
  ℕ, suc, String, ◌≡◌, refl, ap, Bool, true, false, some, List, [], ◌∷◌, ◌++◌, arith, eq_iff,
  eq_refl, ◌==◌, ◌||◌, Bool-cases, inl, inr, text_or, All, find_by, map, nat_eq,
}
use remote_subagent_protocol.Json.{member, to_list, is_text}
use remote_subagent_protocol.Contracts.Signing.{Crypto}
use remote_subagent_protocol.Seller.Task.{Artifact}
use remote_subagent_protocol.Seller.Artifacts.{RawArtifact, materialize_artifacts}
use remote_subagent_protocol.Seller.Result.{artifact_json, artifacts_json}
use remote_subagent_protocol.Seller.Finalize.{attachment_of}
use remote_subagent_protocol.Buyer.Result.{all_bound, attachment_agrees}

text_or_self : (c : String) → text_or (some c) "" ≡ c
text_or_self c = elim (Bool-cases (c == "")) [
  | inl empty ↦ rw (empty, (eq_iff c "").0 empty)
  | inr other ↦ rw other
]

nat_eq_refl : (n : ℕ) → nat_eq n n ≡ true
nat_eq_refl n = ground arith

or_true : (b : Bool) → (b || true) ≡ true
or_true b = ground arith

append_assoc :
    (xs : List Artifact) (a : Artifact) (ys : List Artifact) → (xs ++ a ∷ []) ++ ys ≡ xs ++ a ∷ ys
append_assoc [] a ys = refl
append_assoc (x ∷ xs) a ys = ap (◌∷◌ x) (append_assoc xs a ys)

-- The names differ from those of the artifacts in front.
abbrev pub HaveNewNames : List Artifact → List Artifact → Type 0
HaveNewNames before [] = Unit {0}
HaveNewNames before (a ∷ rest) =
    All (λ p. (p.name == a.name) ≡ false) before × HaveNewNames (before ++ a ∷ []) rest

module _ (crypto : Crypto) where
  abbrev pub IsDigested : Artifact → Type 0
  IsDigested a = a.sha256 ≡ crypto.sha256 a.content_base64

  pub materialized-IsDigested :
      (position : ℕ) (raw : List RawArtifact)
      → All IsDigested (materialize_artifacts crypto position raw)
  unfolding materialize_artifacts
  materialized-IsDigested position [] = tt
  materialized-IsDigested position (a ∷ rest) = (refl, materialized-IsDigested (suc position) rest)

  own_attachment-agrees :
      (a : Artifact)
      → IsDigested a
      → attachment_agrees crypto (artifact_json a) (some (attachment_of a)) ≡ true
  unfolding attachment_agrees member
  own_attachment-agrees a digested =
      rw
        (
          eq_refl a.media_type,
          nat_eq_refl a.byte_size,
          text_or_self a.content_base64,
          digested,
          eq_refl (crypto.sha256 a.content_base64),
        )
        (ground arith)

  find_own :
      (before : List Artifact) (a : Artifact) (rest : List Artifact)
      → All (λ p. (p.name == a.name) ≡ false) before
      → find_by
          (λ x. is_text x.name (member (some (artifact_json a)) "name"))
          (map attachment_of (before ++ a ∷ rest))
        ≡ some (attachment_of a)
  unfolding member
  find_own [] a rest h = rw (eq_refl a.name)
  find_own (p ∷ before) a rest h = rw (h.0) (find_own before a rest h.1)

  pub bound_behind :
      (before rest : List Artifact)
      → HaveNewNames before rest
      → All IsDigested rest
      → all_bound crypto (map attachment_of (before ++ rest)) (to_list (artifacts_json rest)) ≡ true
  unfolding all_bound
  bound_behind before [] names digested = refl
  bound_behind before (a ∷ rest) names digested =
      let behind = bound_behind (before ++ a ∷ []) rest names.1 digested.1 in
      rw (find_own before a rest names.0, own_attachment-agrees a digested.0)
        (rw (append_assoc before a rest) at behind)
