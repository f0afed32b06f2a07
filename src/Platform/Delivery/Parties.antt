-- ===== src/Platform/Delivery/Parties.antt =====
-- No call of a buyer or a seller moves a request to another buyer, seller or subagent.
use remote_subagent_protocol.Prelude.{
  no_or, ℕ, String, ◌≡◌, refl, ap, ◌∙◌, Bool, true, false, Option, none, some, List, [], ◌∷◌,
  eq_iff, ◌==◌, ◌||◌, Bool-cases, inl, inr, eq_refl, or_text,
}
use remote_subagent_protocol.Prelude.Dict.{Dict, get, put, get-put}
use remote_subagent_protocol.Json.{Json}
use remote_subagent_protocol.Contracts.{StructuredError}
use remote_subagent_protocol.Platform.Answer.{Answer, ok, failed}
use remote_subagent_protocol.Platform.Keys.{KeyRecord}
use remote_subagent_protocol.Platform.Market.{Item}
use remote_subagent_protocol.Platform.Market.Operations.{resolve_auth}
use remote_subagent_protocol.Platform.Requests.{Request, conflicts, append_request_event}
use remote_subagent_protocol.Platform.Requests.Parties.{
  IsBound, put-IsBound, agrees, ack_keeps_parties,
}
use remote_subagent_protocol.Platform.Requests.Events.Parties.{write_event-IsBound}
use remote_subagent_protocol.Platform.Delivery.{
  Platform, RequestNames, new_request, get_or_create, issue_bound, issue_to, issue_offered,
  issue_task_token, issue_named, issue_read, post_token, Body as TokenBody, names_of,
}
use remote_subagent_protocol.Platform.Delivery.Meta.{
  Route as ResultRoute, create_delivery_meta, meta_bound, meta_found, meta_allowed, meta_offered,
  meta_routed, meta_named, meta_read, post_delivery_meta, Body as MetaBody,
}
use remote_subagent_protocol.Platform.Delivery.Histories.{
  Route, tokens_task, delivery_meta, request_ack, request_event, Call, serve_route, serve,
  serve_all, caller_of,
}

-- A request that was made anew is no request that has parties.
get_or_create-IsBound :
    (m : Dict Request) (id k who s a : String) (o : Option Request)
    → get m id ≡ o
    → IsBound m k who s a
    → IsBound (get_or_create id o m).0 k who s a
      × (get (get_or_create id o m).0 id ≡ some (get_or_create id o m).1)
unfolding get_or_create
get_or_create-IsBound m id k who s a (some r) there h = (h, there)
get_or_create-IsBound m id k who s a none there h = (
  record {
    entry = h.entry;
    found = elim (Bool-cases (id == k)) [
      | inl same ↦ absurd (cc (there, h.found, (eq_iff id k).0 same))
      | inr other ↦ get-put m id k (new_request id) ∙ (rw other h.found)
    ];
    buyer_id = h.buyer_id;
    seller_id = h.seller_id;
    subagent_id = h.subagent_id;
  },
  get-put m id id (new_request id) ∙ (rw (eq_refl id) refl),
)

module _ (k who s a : String) (who_named : (who == "") ≡ false) (s_named : (s == "") ≡ false)
    (a_named : (a == "") ≡ false) where
  -- A request that a buyer's call binds where nothing conflicts.
  bind_parties-IsBound :
      (m : Dict Request) (user : String) (n : RequestNames) (r r' : Request)
      → IsBound m k who s a
      → get m n.request_id ≡ some r
      → conflicts r.buyer_id user ≡ false
      → conflicts r.seller_id n.seller_id ≡ false
      → conflicts r.subagent_id n.subagent_id ≡ false
      → r'.buyer_id ≡ some user
      → r'.seller_id ≡ some n.seller_id
      → r'.subagent_id ≡ some n.subagent_id
      → IsBound (put m n.request_id r') k who s a
  bind_parties-IsBound m user n r r' h there free_u free_s free_a is_u is_s is_a =
      put-IsBound m n.request_id k who s a r r' h there
        (λ e. is_u ∙ ap some (agrees r.buyer_id who user e who_named free_u))
        (λ e. is_s ∙ ap some (agrees r.seller_id s n.seller_id e s_named free_s))
        (λ e. is_a ∙ ap some (agrees r.subagent_id a n.subagent_id e a_named free_a))

  module _ (hmac : String → String → String) (encode : Json → String)
      (decode : String → Option Json) (now : ℕ) where
    issue_bound-IsBound :
        (jti user : String) (p : Platform) (n : RequestNames) (m : Dict Request) (r : Request)
        (cu cs : Bool)
        → IsBound m k who s a
        → get m n.request_id ≡ some r
        → conflicts r.buyer_id user ≡ cu
        → (conflicts r.seller_id n.seller_id || conflicts r.subagent_id n.subagent_id) ≡ cs
        → IsBound (issue_bound hmac encode decode now jti p user n m r cu cs).0.requests k who s a
    unfolding issue_bound append_request_event
    issue_bound-IsBound jti user p n m r true cs h there eu es = h
    issue_bound-IsBound jti user p n m r false true h there eu es = h
    issue_bound-IsBound jti user p n m r false false h there eu es =
        let (free_s, free_a) = no_or _ _ es in
        bind_parties-IsBound m user n r _ h there eu free_s free_a refl refl refl

    issue_to-IsBound :
        (jti user : String) (p : Platform) (n : RequestNames) (mr : Dict Request × Request)
        → IsBound mr.0 k who s a
        → get mr.0 n.request_id ≡ some mr.1
        → IsBound (issue_to hmac encode decode now jti p user n mr).0.requests k who s a
    unfolding issue_to
    issue_to-IsBound jti user p n (m, r) h there =
        issue_bound-IsBound jti user p n m r _ _ h there refl refl

  module _ (hmac : String → String → String) (encode : Json → String)
      (decode : String → Option Json) (now : ℕ) (p : Platform)
      (h : IsBound p.requests k who s a) where
    issue_offered-IsBound :
        (jti user : String) (n : RequestNames) (offered : Bool)
        → IsBound (issue_offered hmac encode decode now jti p user n offered).0.requests k who s a
    unfolding issue_offered
    issue_offered-IsBound jti user n false = h
    issue_offered-IsBound jti user n true =
        let (kept, there) = get_or_create-IsBound p.requests n.request_id k who s a _ refl h in
        issue_to-IsBound hmac encode decode now jti user p n _ kept there

    issue_named-IsBound :
        (jti user : String) (b : TokenBody) (named : Bool)
        → IsBound (issue_named hmac encode decode now jti p user b named).0.requests k who s a
    unfolding issue_named issue_task_token
    issue_named-IsBound jti user b false = h
    issue_named-IsBound jti user b true = issue_offered-IsBound jti user (names_of b) _

    issue_read-IsBound :
        (jti : String) (buyer : Answer String) (b : Option TokenBody)
        → IsBound (issue_read hmac encode decode now jti p buyer b).0.requests k who s a
    unfolding issue_read
    issue_read-IsBound jti (failed status error) b = h
    issue_read-IsBound jti (ok user) none = h
    issue_read-IsBound jti (ok user) (some b) = issue_named-IsBound jti user b _

    meta_bound-IsBound :
        (fresh user : String) (n : RequestNames) (i : Item) (route : ResultRoute) (r : Request)
        (cu cs ca : Bool)
        → get p.requests n.request_id ≡ some r
        → conflicts r.buyer_id user ≡ cu
        → conflicts r.seller_id n.seller_id ≡ cs
        → conflicts r.subagent_id n.subagent_id ≡ ca
        → IsBound
            (meta_bound hmac encode decode now fresh p user n i route r cu cs ca).0.requests
            k
            who
            s
            a
    unfolding meta_bound append_request_event create_delivery_meta
    meta_bound-IsBound fresh user n i route r true cs ca there eu es ea = h
    meta_bound-IsBound fresh user n i route r false true ca there eu es ea = h
    meta_bound-IsBound fresh user n i route r false false true there eu es ea = h
    meta_bound-IsBound fresh user n i route r false false false there eu es ea =
        bind_parties-IsBound p.requests user n r _ h there eu es ea refl refl refl

    meta_found-IsBound :
        (fresh user : String) (n : RequestNames) (i : Item) (route : ResultRoute)
        (o : Option Request)
        → get p.requests n.request_id ≡ o
        → IsBound (meta_found hmac encode decode now fresh p user n i route o).0.requests k who s a
    unfolding meta_found
    meta_found-IsBound fresh user n i route none there = h
    meta_found-IsBound fresh user n i route (some r) there =
        meta_bound-IsBound fresh user n i route r _ _ _ there refl refl refl

    meta_allowed-IsBound :
        (fresh user : String) (n : RequestNames) (i : Item) (route : ResultRoute)
        (o : Option (ℕ × StructuredError))
        → IsBound
            (meta_allowed hmac encode decode now fresh p user n i route o).0.requests
            k
            who
            s
            a
    unfolding meta_allowed
    meta_allowed-IsBound fresh user n i route (some (status, error)) = h
    meta_allowed-IsBound fresh user n i route none = meta_found-IsBound fresh user n i route _ refl

    meta_offered-IsBound :
        (fresh user : String) (n : RequestNames) (route : ResultRoute) (token : Option String)
        (o : Option Item) (offered : Bool)
        → IsBound
            (meta_offered hmac encode decode now fresh p user n route token o offered).0.requests
            k
            who
            s
            a
    unfolding meta_offered
    meta_offered-IsBound fresh user n route token none offered = h
    meta_offered-IsBound fresh user n route token (some i) false = h
    meta_offered-IsBound fresh user n route token (some i) true =
        meta_allowed-IsBound fresh user n i route _

    meta_routed-IsBound :
        (fresh user : String) (n : RequestNames) (token : Option String)
        (route : Answer ResultRoute)
        → IsBound
            (meta_routed hmac encode decode now fresh p user n token route).0.requests
            k
            who
            s
            a
    unfolding meta_routed
    meta_routed-IsBound fresh user n token (failed status error) = h
    meta_routed-IsBound fresh user n token (ok route) =
        meta_offered-IsBound fresh user n route token _ _

    meta_named-IsBound :
        (fresh user : String) (n : RequestNames) (b : MetaBody) (named : Bool)
        → IsBound (meta_named hmac encode decode now fresh p user n b named).0.requests k who s a
    unfolding meta_named
    meta_named-IsBound fresh user n b false = h
    meta_named-IsBound fresh user n b true =
        meta_routed-IsBound fresh user n (or_text b.task_token (or_text b.token none)) _

    meta_read-IsBound :
        (fresh id : String) (buyer : Answer String) (b : Option MetaBody)
        → IsBound (meta_read hmac encode decode now fresh p id buyer b).0.requests k who s a
    unfolding meta_read
    meta_read-IsBound fresh id (failed status error) b = h
    meta_read-IsBound fresh id (ok user) none = h
    meta_read-IsBound fresh id (ok user) (some b) = meta_named-IsBound fresh user _ b _

    serve_route-IsBound :
        (auth : Option KeyRecord) (route : Route)
        → IsBound (serve_route hmac encode decode now auth route p).requests k who s a
    unfolding serve_route post_token post_delivery_meta
    serve_route-IsBound auth (tokens_task jti b) = issue_read-IsBound jti _ b
    serve_route-IsBound auth (delivery_meta id fresh b) = meta_read-IsBound fresh id _ b
    serve_route-IsBound auth (request_ack id b) =
        ack_keeps_parties now p.event_history p.requests id k who s a (caller_of auth) b s_named
          a_named h
    serve_route-IsBound auth (request_event id b) =
        write_event-IsBound now p.event_history p.requests id k who s a (caller_of auth) b s_named
          a_named h

-- A request that has its buyer, seller and subagent, of ids that are not empty, keeps all three
-- through any history of calls for tokens, for delivery metadata, of acknowledgements and of
-- events, by whomever and in whatever order.
pub serve_all_keeps_parties :
    (hmac : String → String → String) (encode : Json → String) (decode : String → Option Json)
    (calls : List Call) (p : Platform) (k who s a : String)
    → (who == "") ≡ false
    → (s == "") ≡ false
    → (a == "") ≡ false
    → IsBound p.requests k who s a
    → IsBound (serve_all hmac encode decode calls p).requests k who s a
unfolding serve_all serve
serve_all_keeps_parties hmac encode decode [] p k who s a who_named s_named a_named h = h
serve_all_keeps_parties hmac encode decode (c ∷ calls) p k who s a who_named s_named a_named h =
    serve_all_keeps_parties hmac encode decode calls (serve hmac encode decode c p) k who s a
      who_named s_named a_named
      (serve_route-IsBound k who s a who_named s_named a_named hmac encode decode c.now p h
        (resolve_auth p.market c.bearer) c.route)
