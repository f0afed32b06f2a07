-- ===== src/Buyer/Server/Remote/Laws.antt =====
-- The calls to platform and transport keep what has ended.
use remote_subagent_protocol.Prelude.{
  ℕ, String, ◌≡◌, refl, ◌∙◌, Bool, true, false, not, Option, none, some, text_or, eq_refl,
}
use remote_subagent_protocol.Prelude.Dict.{Dict, get, put, get-put}
use remote_subagent_protocol.Contracts.{is_terminal}
use remote_subagent_protocol.Buyer.Request.{Request, Body, create_request_record}
use remote_subagent_protocol.Buyer.Client.{Client}
use remote_subagent_protocol.Buyer.Events.{
  sync_buyer_request_events, sync_buyer_request_events-ended,
}
use remote_subagent_protocol.Buyer.Dispatch
use remote_subagent_protocol.Buyer.Dispatch.{
  Prepared, prepared, PrepareError, requires_seller_and_subagent, signer_binding_mismatch, upstream,
  prepare_buyer_request, prepare_buyer_request-keeps, create_task_contract_draft,
}
use remote_subagent_protocol.Buyer.Inbox.Laws.{poll-Keeps}
use remote_subagent_protocol.Buyer.Keeps.{
  Kept, MayReplace, Kept-report, Keeps-refl, Keeps-trans, Keeps-put,
}
use remote_subagent_protocol.Buyer.Server.Reply.{Server, State}
use remote_subagent_protocol.Buyer.Server.Ended.{
  EndedKept, finish-Keeps, if-EndedKept, found-MayReplace,
}
use remote_subagent_protocol.Buyer.Server.Remote.{
  prepare_failed, prepare_done, prepare_found, prepare_with, prepare_request, sent_if_active,
  dispatch_to, dispatch_body, dispatch_found, dispatch_request, send_envelope, remote_sent,
  remote_prepared, remote_body, remote_with, remote_request, synced_report, sync_done, sync_found,
  sync_with, sync_events, pull_done, pull_inbox,
}

prepare_failed-EndedKept :
    (s : State) (invalid fallback : String) (e : PrepareError)
    → EndedKept s (prepare_failed s invalid fallback e)
unfolding prepare_failed
prepare_failed-EndedKept s invalid fallback requires_seller_and_subagent = Keeps-refl s.requests
prepare_failed-EndedKept s invalid fallback _ = Keeps-refl s.requests

prepare_done-EndedKept :
    (v : Server) (s : State) (client : Client) (k : String) (r : Request) (body : Body)
    (p : Prepared)
    → get s.requests k ≡ some r
    → prepare_buyer_request v.now client body r ≡ p
    → EndedKept s (prepare_done s k p)
unfolding prepare_done
prepare_done-EndedKept v s client k r body (Dispatch.refused x) e h =
    prepare_failed-EndedKept s _ _ x
prepare_done-EndedKept v s client k r body (prepared r' t) e h =
    let kept = prepare_buyer_request-keeps v.now client body r r' t h in
    Keeps-put s.requests k r' (
      found-MayReplace s.requests k r r' e
        (λ _. record { status = kept.1; result_package = kept.2 }))

prepare_found-EndedKept :
    (v : Server) (s : State) (client : Client) (k : String) (o : Option Request) (b : Option Body)
    → get s.requests k ≡ o
    → EndedKept s (prepare_found v s client k o b)
unfolding prepare_found
prepare_found-EndedKept v s client k none b e = Keeps-refl s.requests
prepare_found-EndedKept v s client k (some r) none e = Keeps-refl s.requests
prepare_found-EndedKept v s client k (some r) (some b) e =
    prepare_done-EndedKept v s client k r b _ e refl

prepare_with-EndedKept :
    (v : Server) (s : State) (c : Option Client) (k : String) (b : Option Body)
    → EndedKept s (prepare_with v s c k b)
unfolding prepare_with
prepare_with-EndedKept v s none k b = Keeps-refl s.requests
prepare_with-EndedKept v s (some c) k b = prepare_found-EndedKept v s c k (get s.requests k) b refl

pub prepare_request-EndedKept :
    (v : Server) (s : State) (k : String) (b : Option Body) → EndedKept s (prepare_request v s k b)
unfolding prepare_request
prepare_request-EndedKept v s k b = prepare_with-EndedKept v s v.client k b

sent-Kept : (now : ℕ) (r : Request) → is_terminal r.status ≡ true → Kept r (sent_if_active now r)
unfolding sent_if_active
sent-Kept now r h = rw h (record { status = refl; result_package = refl })

dispatch_to-EndedKept :
    (v : Server) (s : State) (k : String) (r : Request) (b : Body)
    → get s.requests k ≡ some r
    → EndedKept s (dispatch_to v s k r b)
unfolding dispatch_to send_envelope
dispatch_to-EndedKept v s k r b e = finish-Keeps _ k _ _ _ (
    found-MayReplace s.requests k r _ e
      (λ over. Kept-report v.client _ none r _ (unfold sent_if_active in sent-Kept v.now r over)))

dispatch_body-EndedKept :
    (v : Server) (s : State) (k : String) (r : Request) (b : Option Body)
    → get s.requests k ≡ some r
    → EndedKept s (dispatch_body v s k r b)
unfolding dispatch_body
dispatch_body-EndedKept v s k r none e = Keeps-refl s.requests
dispatch_body-EndedKept v s k r (some b) e = dispatch_to-EndedKept v s k r b e

dispatch_found-EndedKept :
    (v : Server) (s : State) (k : String) (o : Option Request) (b : Option Body)
    → get s.requests k ≡ o
    → EndedKept s (dispatch_found v s k o b)
unfolding dispatch_found
dispatch_found-EndedKept v s k none b e = Keeps-refl s.requests
dispatch_found-EndedKept v s k (some r) b e =
    if-EndedKept s (not v.has_transport) _ _ (Keeps-refl s.requests)
      (dispatch_body-EndedKept v s k r b e)

pub dispatch_request-EndedKept :
    (v : Server) (s : State) (k : String) (b : Option Body) → EndedKept s (dispatch_request v s k b)
unfolding dispatch_request
dispatch_request-EndedKept v s k b = dispatch_found-EndedKept v s k (get s.requests k) b refl

synced-Kept :
    (client : Client) (old r : Request) (acked : Bool)
    → Kept old r
    → Kept old (synced_report client r acked).0
unfolding synced_report
synced-Kept client old r true h = Kept-report (some client) _ none old r h
synced-Kept client old r false h = h

sync_done-EndedKept :
    (v : Server) (s : State) (client : Client) (k : String) (r : Request)
    (o : Option (Request × Bool))
    → get s.requests k ≡ some r
    → sync_buyer_request_events v.now client r ≡ o
    → EndedKept s (sync_done s client k o)
unfolding sync_done
sync_done-EndedKept v s client k r none e h = Keeps-refl s.requests
sync_done-EndedKept v s client k r (some (r', acked)) e h = finish-Keeps s k _ _ _ (
    found-MayReplace s.requests k r _ e λ over.
      let kept = sync_buyer_request_events-ended v.now client r (r', acked) h over in
      synced-Kept client r r' acked (record { status = kept.0; result_package = kept.1 }))

sync_found-EndedKept :
    (v : Server) (s : State) (client : Client) (k : String) (o : Option Request)
    → get s.requests k ≡ o
    → EndedKept s (sync_found v s client k o)
unfolding sync_found
sync_found-EndedKept v s client k none e = Keeps-refl s.requests
sync_found-EndedKept v s client k (some r) e = sync_done-EndedKept v s client k r _ e refl

sync_with-EndedKept :
    (v : Server) (s : State) (c : Option Client) (k : String) → EndedKept s (sync_with v s c k)
unfolding sync_with
sync_with-EndedKept v s none k = Keeps-refl s.requests
sync_with-EndedKept v s (some c) k = sync_found-EndedKept v s c k (get s.requests k) refl

pub sync_events-EndedKept : (v : Server) (s : State) (k : String) → EndedKept s (sync_events v s k)
unfolding sync_events
sync_events-EndedKept v s k = sync_with-EndedKept v s v.client k

pub pull_inbox-EndedKept :
    (v : Server) (s : State) (receiver : Option (Option String))
    → EndedKept s (pull_inbox v s receiver)
unfolding pull_inbox pull_done
pull_inbox-EndedKept v s none =
    if-EndedKept s v.has_transport _ _ (Keeps-refl s.requests) (Keeps-refl s.requests)
pull_inbox-EndedKept v s (some receiver) =
    if-EndedKept s v.has_transport _ _
      (poll-Keeps v.crypto v.parse_json (λ r. v.inbox_client) (text_or receiver "buyer-controller")
        v.now s.requests s.hub)
      (Keeps-refl s.requests)

-- After the write of a record in progress, the record's own entry may be replaced by anything.
fresh-MayReplace :
    (m : Dict Request) (k : String) (r r' : Request)
    → is_terminal r.status ≡ false
    → MayReplace (put m k r) k r'
fresh-MayReplace m k r r' live old found over =
    let here : get (put m k r) k ≡ some r = get-put m k k r ∙ (rw (eq_refl k)) in cc

draft-request_id :
    (now : ℕ) (b : Body) (r : Request)
    → (create_task_contract_draft now b r).0.request_id ≡ r.request_id
unfolding create_task_contract_draft
draft-request_id now b r = refl

remote_sent-EndedKept :
    (v : Server) (s : State) (body : Body) (token : String) (r : Request)
    → ((r' : Request) → MayReplace s.requests r.request_id r')
    → EndedKept s (remote_sent v s body token r)
unfolding remote_sent send_envelope
remote_sent-EndedKept v s body token r free =
    finish-Keeps _ _ _ _ _ (rw (draft-request_id v.now body r) (free _))

remote_prepared-EndedKept :
    (v : Server) (s : State) (client : Client) (body : Body) (r : Request) (p : Prepared)
    → prepare_buyer_request v.now client body r ≡ p
    → ((r' : Request) → MayReplace s.requests r.request_id r')
    → EndedKept s (remote_prepared v s body p)
unfolding remote_prepared
remote_prepared-EndedKept v s client body r (Dispatch.refused x) e free =
    prepare_failed-EndedKept s _ _ x
remote_prepared-EndedKept v s client body r (prepared r' t) e free =
    let kept = prepare_buyer_request-keeps v.now client body r r' t e in
    remote_sent-EndedKept v s body t r' (rw kept.0 free)

created-live :
    (v : Server) (body : Body)
    → is_terminal (create_request_record v.config v.uuid v.now body).status ≡ false
unfolding create_request_record is_terminal
created-live v body = refl

remote_body-EndedKept :
    (v : Server) (s : State) (client : Client) (body : Body)
    → get s.requests (text_or body.request_id v.uuid) ≡ none
    → EndedKept s (remote_body v s client (some body))
unfolding remote_body
remote_body-EndedKept v s client body fresh =
    let r : Request = create_request_record v.config v.uuid v.now body in
    Keeps-trans s.requests (put s.requests r.request_id r) _
      (Keeps-put s.requests r.request_id r (λ old found over.
        let none_here : get s.requests r.request_id ≡ none =
          (unfold create_request_record in fresh) in
        cc))
      (remote_prepared-EndedKept v _ client body r _ refl
        (λ r'. fresh-MayReplace s.requests r.request_id r r' (created-live v body)))

remote_with-EndedKept :
    (v : Server) (s : State) (c : Option Client) (body : Body)
    → get s.requests (text_or body.request_id v.uuid) ≡ none
    → EndedKept s (remote_with v s c (some body))
unfolding remote_with
remote_with-EndedKept v s none body fresh = Keeps-refl s.requests
remote_with-EndedKept v s (some client) body fresh =
    if-EndedKept s v.has_transport _ _ (remote_body-EndedKept v s client body fresh)
      (Keeps-refl s.requests)

pub remote_request-EndedKept :
    (v : Server) (s : State) (body : Body)
    → get s.requests (text_or body.request_id v.uuid) ≡ none
    → EndedKept s (remote_request v s (some body))
unfolding remote_request
remote_request-EndedKept v s body fresh = remote_with-EndedKept v s v.client body fresh

not_json-with : (v : Server) (s : State) (c : Option Client) → EndedKept s (remote_with v s c none)
unfolding remote_with remote_body
not_json-with v s none = Keeps-refl s.requests
not_json-with v s (some client) =
    if-EndedKept s v.has_transport _ _ (Keeps-refl s.requests) (Keeps-refl s.requests)

pub remote_request-not_json : (v : Server) (s : State) → EndedKept s (remote_request v s none)
unfolding remote_request
remote_request-not_json v s = not_json-with v s v.client
