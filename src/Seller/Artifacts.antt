-- ===== src/Seller/Artifacts.antt =====
-- `materializeArtifacts`, `applyExecutionArtifacts` and `enforceArtifactSizeLimit`. The contents of
-- an artifact are given as the buffer that `normalizeArtifactContent` makes: its base64 and size.
use Prim.Native.String.{◌++◌ as append}
use remote_subagent_protocol.Prelude.{
  ℕ, suc, ◌+◌, String, Bool, true, false, Option, none, some, List, [], ◌∷◌, if◌then◌else◌, text_or,
  leb,
}
use remote_subagent_protocol.Prelude.Texts.{decimal}
use remote_subagent_protocol.Json.{Json}
use remote_subagent_protocol.Contracts.Signing.{Crypto}
use remote_subagent_protocol.Seller.Task.{Artifact}

pub record RawArtifact : Type 0 where
  pub artifact_id : Option String
  pub name : Option String
  pub media_type : Option String
  pub content_base64 : String
  pub content_length : ℕ

-- What an executor's result holds, as far as it is read.
pub record Execution : Type 0 where
  pub deferred : Bool
  pub reason : Option String
  pub status : Option String
  pub error_code : Option String
  pub error_message : Option String
  pub error_retryable : Bool
  pub output : Option Json
  pub artifacts : List RawArtifact
  pub schema_valid : Option Bool
  pub usage : Option Json

module _ (crypto : Crypto) where
  unfoldable pub materialize_one : ℕ → RawArtifact → Artifact
  unfolding decimal
  materialize_one position a = record {
    artifact_id = text_or a.artifact_id (append "art_" (decimal position));
    name = text_or a.name (append "artifact-" (append (decimal position) ".bin"));
    media_type = text_or a.media_type "application/octet-stream";
    byte_size = a.content_length;
    sha256 = crypto.sha256 a.content_base64;
    content_base64 = a.content_base64;
  }

  -- `index + 1` counts from the given position.
  unfoldable pub materialize_artifacts : ℕ → List RawArtifact → List Artifact
  unfolding materialize_one
  materialize_artifacts position [] = []
  materialize_artifacts position (a ∷ rest) =
      materialize_one position a ∷ materialize_artifacts (suc position) rest

unfoldable pub total_bytes : List Artifact → ℕ
total_bytes [] = 0
total_bytes (a ∷ rest) = a.byte_size + total_bytes rest

-- An execution and its artifacts as they are sent.
pub record Materialized : Type 0 where
  pub execution : Execution
  pub artifacts : List Artifact

abbrev pub too_large : Execution → Execution
too_large e = record {
  deferred = false;
  reason = none;
  status = some "error";
  error_code = some "RESULT_ARTIFACT_TOO_LARGE";
  error_message = some "artifact payload exceeds email limit";
  error_retryable = false;
  output = none;
  artifacts = [];
  schema_valid = some true;
  usage = e.usage;
}

-- enforceArtifactSizeLimit after applyExecutionArtifacts; `limit` is EMAIL_MAX_ATTACHMENT_BYTES
unfoldable pub enforce_artifact_size_limit : Crypto → ℕ → Execution → Materialized
unfolding total_bytes
enforce_artifact_size_limit crypto limit e =
    let artifacts = materialize_artifacts crypto 1 e.artifacts in
    if leb (total_bytes artifacts) limit
    then record { execution = e; artifacts = artifacts }
    else record { execution = too_large e; artifacts = [] }
