-- ===== src/Buyer/Dispatch.antt =====
-- `prepareBuyerRequest`, `createTaskContractDraft` and `buildDispatchEnvelope`.
use Prim.Native.String.{◌++◌ as append}
use remote_subagent_protocol.Prelude.{
  ℕ, String, ◌≡◌, arith, Bool-cases, inl, inr, Bool, not, Option, none, some, ◌&&◌, ◌||◌,
  if◌then◌else◌, truthy, or_text, text_or, number_or, or_default, or_else, and_then, same_text,
}
use remote_subagent_protocol.Json.{Json, Fields}
use remote_subagent_protocol.Transport.Messages.{Delivery, DeliveryMeta, Envelope}
use remote_subagent_protocol.Buyer.Request.{Request, Body, Contract, mark_updated}
use remote_subagent_protocol.Buyer.Client.{Client}

-- getTaskDelivery, getResultDelivery
unfoldable pub get_task_delivery : Request → Body → Option Delivery
get_task_delivery r body =
    or_else (and_then r.delivery_meta (λ m. m.task_delivery)) body.task_delivery

unfoldable pub get_result_delivery : Request → Body → Option Delivery
get_result_delivery r body =
    or_else (and_then r.delivery_meta (λ m. m.result_delivery))
      (or_else body.result_delivery r.result_delivery)

pub data PrepareError : Type 0 where
  requires_seller_and_subagent signer_binding_mismatch upstream : PrepareError

pub data Prepared : Type 0 where
  prepared : Request → String → Prepared
  refused : PrepareError → Prepared

-- `request.expected && meta.key && request.expected !== meta.key`
abbrev pub signer_conflicts : Request → DeliveryMeta → Bool
signer_conflicts r meta =
    truthy r.expected_signer_public_key_pem
    && truthy meta.seller_public_key_pem
    && not (same_text r.expected_signer_public_key_pem meta.seller_public_key_pem)

bind_request : ℕ → String → String → String → DeliveryMeta → Request → Request
unfolding mark_updated
bind_request now seller subagent token meta r = mark_updated now "PREPARED" (record r {
  seller_id = some seller;
  subagent_id = some subagent;
  task_token = some token;
  result_delivery = or_else meta.result_delivery r.result_delivery;
  verification = or_else meta.verification r.verification;
  delivery_meta = some meta;
  expected_signer_public_key_pem =
      or_text r.expected_signer_public_key_pem (or_text meta.seller_public_key_pem none);
  last_error_code = none;
})

with_meta : ℕ → String → String → String → Request → Option DeliveryMeta → Prepared
unfolding bind_request
with_meta now seller subagent token r none = refused upstream
with_meta now seller subagent token r (some meta) =
    if signer_conflicts r meta
    then refused signer_binding_mismatch
    else prepared (bind_request now seller subagent token meta r) token

with_token : ℕ → Client → Option Delivery → String → String → Request → Option String → Prepared
unfolding with_meta
with_token now client result_delivery seller subagent r none = refused upstream
with_token now client result_delivery seller subagent r (some token) =
    with_meta now seller subagent token r
      (client.delivery_meta r.request_id seller subagent token result_delivery)

unfoldable pub prepare_buyer_request : ℕ → Client → Body → Request → Prepared
unfolding with_token
prepare_buyer_request now client body r =
    let seller = or_text body.seller_id (or_text body.camel_seller_id r.seller_id) in
    let subagent = or_text body.subagent_id (or_text body.camel_subagent_id r.subagent_id) in
    if not (truthy seller) || not (truthy subagent)
    then refused requires_seller_and_subagent
    else with_token now client
        (or_else body.result_delivery (or_else body.camel_result_delivery r.result_delivery))
        (text_or seller "") (text_or subagent "") r
        (client.issue_task_token r.request_id (text_or seller "") (text_or subagent ""))

abbrev pub request_thread : Request → String
request_thread r = append "req:" r.request_id

unfoldable pub create_task_contract_draft : ℕ → Body → Request → Request × Contract
unfolding mark_updated get_task_delivery get_result_delivery
create_task_contract_draft now body r =
    let input : Json =
      or_default body.task_input
        (or_default body.input (or_default r.task_input (Json.obj Fields.end))) in
    let schema : Option Json = or_else body.output_schema r.output_schema in
    let kind : Option String = or_text body.task_type (or_text r.task_type none) in
    let delivery : Option Delivery = or_else body.result_delivery (get_result_delivery r body) in
    let source : Option String = or_text body.source_run_id (or_text r.source_run_id none) in
    let contract : Contract = record {
      request_id = r.request_id;
      contract_version = text_or body.contract_version (text_or (some r.contract_version) "0.1.0");
      created_at = or_default body.created_at now;
      buyer_id = text_or body.buyer_id (text_or (some r.buyer_id) "buyer_default");
      result_delivery = delivery;
      seller_id = or_text body.seller_id r.seller_id;
      subagent_id = or_text body.subagent_id r.subagent_id;
      task_type = kind;
      input = input;
      output_schema = schema;
      soft_timeout_s = or_else body.soft_timeout_s (some r.soft_timeout_s);
      hard_timeout_s = or_else body.hard_timeout_s (some r.hard_timeout_s);
      token = or_text body.task_token (or_text r.task_token none);
      thread_hint =
          text_or body.thread_hint
            (text_or (and_then (get_task_delivery r body) (λ d. d.thread_hint)) (request_thread r));
      source_run_id = source;
      verification = or_else body.verification r.verification;
    } in
    (
      mark_updated now "CONTRACT_DRAFTED" (record r {
        task_type = kind;
        task_input = some input;
        output_schema = schema;
        result_delivery = delivery;
        source_run_id = source;
        contract_draft = some contract;
      }),
      contract,
    )

unfoldable pub build_dispatch_envelope : String → ℕ → Request → Body → Envelope
unfolding get_task_delivery get_result_delivery
build_dispatch_envelope uuid now r body =
    let task = get_task_delivery r body in
    let address : Option String =
      or_text (and_then task (λ d. d.address)) (or_text body.task_delivery_address r.seller_id) in
    let thread : String =
      text_or (and_then task (λ d. d.thread_hint))
        (text_or (and_then r.delivery_meta (λ m. m.thread_hint)) (request_thread r)) in
    record {
      message_id = some (text_or body.message_id uuid);
      thread_id = some (text_or body.thread_id thread);
      sender = some (text_or body.sender "buyer-controller");
      to = or_text body.to address;
      type = some (text_or body.type "task.requested");
      request_id = some r.request_id;
      task_id = none;
      seller_id = r.seller_id;
      subagent_id = r.subagent_id;
      task_token = or_text body.task_token (or_text r.task_token none);
      task_type = none;
      task_input = none;
      payload = some (or_default body.payload (Json.obj Fields.end));
      constraints = none;
      simulate = some (text_or body.simulate "success");
      delay_ms = some (number_or body.delay_ms 80);
      lease_ttl_s = some (number_or body.lease_ttl_s 30);
      priority = some (number_or body.priority 5);
      result_delivery = get_result_delivery r body;
      verification = or_else r.verification (and_then r.delivery_meta (λ m. m.verification));
      body_text = none;
      attachments = none;
      result_package = none;
      sent_at = some now;
      queued_at = none;
    }

-- The preparation and the draft leave the request's id, status and result.
with_meta-keeps :
    (now : ℕ) (seller subagent token : String) (r : Request) (meta : Option DeliveryMeta)
    (r' : Request) (t : String)
    → with_meta now seller subagent token r meta ≡ prepared r' t
    → (r'.request_id ≡ r.request_id)
      × (r'.status ≡ r.status)
      × (r'.result_package ≡ r.result_package)
unfolding with_meta
with_meta-keeps now seller subagent token r none r' t e = cc
with_meta-keeps now seller subagent token r (some meta) r' t e = ground arith

with_token-keeps :
    (now : ℕ) (client : Client) (d : Option Delivery) (seller subagent : String) (r : Request)
    (token : Option String) (r' : Request) (t : String)
    → with_token now client d seller subagent r token ≡ prepared r' t
    → (r'.request_id ≡ r.request_id)
      × (r'.status ≡ r.status)
      × (r'.result_package ≡ r.result_package)
unfolding with_token
with_token-keeps now client d seller subagent r none r' t e = cc
with_token-keeps now client d seller subagent r (some token) r' t e =
    with_meta-keeps now seller subagent token r _ r' t e

pub prepare_buyer_request-keeps :
    (now : ℕ) (client : Client) (body : Body) (r r' : Request) (t : String)
    → prepare_buyer_request now client body r ≡ prepared r' t
    → (r'.request_id ≡ r.request_id)
      × (r'.status ≡ r.status)
      × (r'.result_package ≡ r.result_package)
unfolding prepare_buyer_request
prepare_buyer_request-keeps now client body r r' t e =
    let seller = or_text body.seller_id (or_text body.camel_seller_id r.seller_id) in
    let subagent = or_text body.subagent_id (or_text body.camel_subagent_id r.subagent_id) in
    elim (Bool-cases (not (truthy seller) || not (truthy subagent))) [
      | inl missing ↦ let bad = rw missing at e in cc
      | inr present ↦ with_token-keeps now client _ _ _ r _ r' t (rw present at e)
    ]
