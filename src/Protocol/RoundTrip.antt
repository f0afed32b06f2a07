-- ===== src/Protocol/RoundTrip.antt =====
-- A result that the seller builds, signs and sends is a success at the buyer.
use remote_subagent_protocol.Prelude.{
  ℕ, ◌≤◌, String, ◌≡◌, refl, true, false, not, Option, none, some, List, [], ◌∷◌, arith, eq_refl,
  ◌==◌, ◌||◌, truthy, map, and_then,
}
use remote_subagent_protocol.Json.{Fields, get, member, to_list, is_text, is_false}
use remote_subagent_protocol.Contracts.{succeeded}
use remote_subagent_protocol.Contracts.Canonical.{canonicalize, pick_keys, keep_present}
use remote_subagent_protocol.Contracts.Signing.{Crypto, KeyPair}
use remote_subagent_protocol.Transport.Messages.{Verification}
use remote_subagent_protocol.Buyer.Request.{Request}
use remote_subagent_protocol.Buyer.Result.{
  apply_result_package, result_context_matches_request, verify_result_signature,
  verify_artifact_bindings, all_bound, bound_or_none, is_empty,
}
use remote_subagent_protocol.Buyer.Result.Laws.{Passes, succeeds_iff}
use remote_subagent_protocol.Seller.Task.{Task, Artifact, State, completed}
use remote_subagent_protocol.Seller.Artifacts.{
  Execution, materialize_artifacts, total_bytes, enforce_artifact_size_limit,
}
use remote_subagent_protocol.Seller.Result.{
  artifacts_json, not_false, build_ok_payload, build_result_payload, sign_result_payload, text_json,
  verification_json,
}
use remote_subagent_protocol.Seller.Finalize.{
  attachment_of, complete_task, package_of, materialize, artifacts_of,
}
use remote_subagent_protocol.Protocol.Artifacts.{
  HaveNewNames, materialized-IsDigested, bound_behind,
}

-- The request at the buyer and the task at the seller are about one call: the same ids, the same
-- verification, and the seller's key is the one that the buyer expects.
pub record Matches (s : State) (t : Task) (r : Request) : Type 0 where
  pub request_id : r.request_id ≡ t.request_id
  pub seller_id : r.seller_id ≡ some t.seller_id
  pub subagent_id : r.subagent_id ≡ t.subagent_id
  pub verification : r.verification ≡ t.verification
  pub signer : r.expected_signer_public_key_pem ≡ some s.public_key_pem
  pub signer_there : (s.public_key_pem == "") ≡ false

same_text_json : (o : Option String) → (not (truthy o) || is_text o (some (text_json o))) ≡ true
same_text_json none = refl
same_text_json (some c) = rw (eq_refl c) (ground arith)

same_code :
    (v : Option Verification)
    → (not (truthy (and_then v (λ x. x.display_code)))
        || is_text
            (and_then v (λ x. x.display_code))
            (member (some (verification_json v)) "display_code"))
      ≡ true
unfolding member
same_code none = refl
same_code (some v) = same_text_json v.display_code

bound_or_none-all_bound :
    (crypto : Crypto) (artifacts : List Artifact)
    → all_bound crypto (map attachment_of artifacts) (to_list (artifacts_json artifacts)) ≡ true
    → bound_or_none crypto (to_list (artifacts_json artifacts)) (map attachment_of artifacts) ≡ true
unfolding bound_or_none
bound_or_none-all_bound crypto [] h = unfold is_empty in refl
bound_or_none-all_bound crypto (a ∷ rest) h = h

module _ (crypto : Crypto) (s : State) (now : ℕ) (t : Task) (e : Execution)
    (artifacts : List Artifact) where
  abbrev signed : Fields
  signed = sign_result_payload crypto s (build_ok_payload now t e artifacts)

  canonicalize-signed : canonicalize signed ≡ canonicalize (build_ok_payload now t e artifacts)
  unfolding canonicalize pick_keys keep_present get sign_result_payload build_ok_payload
  canonicalize-signed = refl

  signed-context :
      (r : Request)
      → Matches s t r
      → result_context_matches_request (record r { result_package = some signed }) signed ≡ true
  unfolding sign_result_payload build_ok_payload result_context_matches_request get member
  signed-context r h =
      rw
        (
          h.request_id,
          h.seller_id,
          h.subagent_id,
          h.verification,
          eq_refl t.request_id,
          eq_refl t.seller_id,
          same_text_json t.subagent_id,
          same_code t.verification,
        )
        (ground arith)

  signed-signature :
      (r : Request)
      → Matches s t r
      → KeyPair crypto s.private_key s.public_key_pem
      → ((m : String) → (crypto.sign s.private_key m == "") ≡ false)
      → verify_result_signature crypto (record r { result_package = some signed }) signed ≡ true
  unfolding sign_result_payload build_ok_payload verify_result_signature get
  signed-signature r h pair there = rw (
    h.signer,
    there (crypto.encode (canonicalize (build_ok_payload now t e artifacts))),
    h.signer_there,
    canonicalize-signed,
    pair (crypto.encode (canonicalize (build_ok_payload now t e artifacts))),
  )

  signed-artifacts :
      all_bound crypto (map attachment_of artifacts) (to_list (artifacts_json artifacts)) ≡ true
      → verify_artifact_bindings crypto signed (map attachment_of artifacts) ≡ true
  unfolding sign_result_payload build_ok_payload verify_artifact_bindings get
  signed-artifacts h = bound_or_none-all_bound crypto artifacts h

  signed-schema : not_false e.schema_valid ≡ true → is_false (get signed "schema_valid") ≡ false
  unfolding sign_result_payload build_ok_payload get
  signed-schema h = ground arith

  signed-reported : is_text (some "ok") (get signed "status") ≡ true
  unfolding sign_result_payload build_ok_payload get
  signed-reported = refl

  signed-Passes :
      (r : Request)
      → Matches s t r
      → KeyPair crypto s.private_key s.public_key_pem
      → ((m : String) → (crypto.sign s.private_key m == "") ≡ false)
      → all_bound crypto (map attachment_of artifacts) (to_list (artifacts_json artifacts)) ≡ true
      → not_false e.schema_valid ≡ true
      → Passes crypto r signed (map attachment_of artifacts)
  signed-Passes r h pair there bound valid = record {
    context = signed-context r h;
    signature = signed-signature r h pair there;
    artifacts = signed-artifacts bound;
    schema = signed-schema valid;
    reported_ok = signed-reported;
  }

-- What the seller makes of an execution that reports success within the limit on attachments.
finished : Crypto → ℕ → Execution → Task → Task
finished crypto now e task = record task {
  status = completed;
  completed_at = some now;
  updated_at = now;
  execution_artifacts = materialize_artifacts crypto 1 e.artifacts;
}

within_limit :
    (crypto : Crypto) (limit : ℕ) (e : Execution)
    → total_bytes (materialize_artifacts crypto 1 e.artifacts) ≤ limit
    → enforce_artifact_size_limit crypto limit e
      ≡ record { execution = e; artifacts = materialize_artifacts crypto 1 e.artifacts }
unfolding enforce_artifact_size_limit
within_limit crypto limit e fits = ground arith

complete-signed :
    (crypto : Crypto) (limit now : ℕ) (s : State) (e : Execution) (task : Task)
    → e.status ≡ some "ok"
    → total_bytes (materialize_artifacts crypto 1 e.artifacts) ≤ limit
    → let done = complete_task crypto limit now s (some e) task in
      (package_of done
        ≡ sign_result_payload crypto s (
            build_ok_payload now
              (finished crypto now e task)
              e
              (materialize_artifacts crypto 1 e.artifacts)))
      × (done.execution_artifacts ≡ materialize_artifacts crypto 1 e.artifacts)
unfolding complete_task materialize artifacts_of package_of finished build_result_payload
complete-signed crypto limit now s e task ok fits =
    rw (within_limit crypto limit e fits, ok) (refl, refl)

finished-Matches :
    (crypto : Crypto) (now : ℕ) (e : Execution) (s : State) (task : Task) (r : Request)
    → Matches s task r
    → Matches s (finished crypto now e task) r
unfolding finished
finished-Matches crypto now e s task r h = record {
  request_id = h.request_id;
  seller_id = h.seller_id;
  subagent_id = h.subagent_id;
  verification = h.verification;
  signer = h.signer;
  signer_there = h.signer_there;
}

-- A successful execution within the limit on attachments, finished by the seller, succeeds at the
-- buyer: the package that the seller signs, with the attachments that it sends, passes every check
-- of a request for the same call that expects the seller's key. It takes a key pair whose
-- signatures are not empty, artifacts of different names, and a schema not reported invalid.
pub signed_result_succeeds :
    (crypto : Crypto) (limit now later : ℕ) (s : State) (e : Execution) (task : Task) (r : Request)
    → e.status ≡ some "ok"
    → not_false e.schema_valid ≡ true
    → total_bytes (materialize_artifacts crypto 1 e.artifacts) ≤ limit
    → HaveNewNames [] (materialize_artifacts crypto 1 e.artifacts)
    → KeyPair crypto s.private_key s.public_key_pem
    → ((m : String) → (crypto.sign s.private_key m == "") ≡ false)
    → Matches s task r
    → let done = complete_task crypto limit now s (some e) task in
      (apply_result_package crypto later r
        (package_of done)
        (map attachment_of done.execution_artifacts)).0.status
      ≡ succeeded
signed_result_succeeds crypto limit now later s e task r ok valid fits names pair there h =
    let (built, artifacts) = complete-signed crypto limit now s e task ok fits in
    let sent = materialize_artifacts crypto 1 e.artifacts in
    let bound = bound_behind crypto [] sent names (materialized-IsDigested crypto 1 e.artifacts) in
    rw (built, artifacts)
      ((succeeds_iff crypto later r _ (map attachment_of sent)).1 (
        signed-Passes crypto s now (finished crypto now e task) e sent r
          (finished-Matches crypto now e s task r h) pair there bound valid))
