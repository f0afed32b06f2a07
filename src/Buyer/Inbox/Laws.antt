-- ===== src/Buyer/Inbox/Laws.antt =====
-- Polling the inbox leaves the requests that have ended as they are, and acknowledges what it
-- accepts.
use remote_subagent_protocol.Prelude.{
  ℕ, String, ◌≡◌, refl, Bool, true, false, Option, none, some, List, [], ◌∷◌, Bool-cases, inl, inr,
  if◌then◌else◌, truthy, ◌&&◌, if◌then◌else◌,
}
use remote_subagent_protocol.Prelude.Dict.{Dict, get}
use remote_subagent_protocol.Json
use remote_subagent_protocol.Json.{Json, Fields, json_truthy, member}
use remote_subagent_protocol.Contracts.{is_terminal}
use remote_subagent_protocol.Contracts.Signing.{Crypto}
use remote_subagent_protocol.Transport.Messages.{Envelope, Attachment}
use remote_subagent_protocol.Transport.Mailbox.{Mailboxes}
use remote_subagent_protocol.Buyer.Request.{Request}
use remote_subagent_protocol.Buyer.Client.{Client}
use remote_subagent_protocol.Buyer.Metrics.{Report, skipped, posted, threw}
use remote_subagent_protocol.Buyer.Keeps.{Keeps, put_over_active}
use remote_subagent_protocol.Buyer.Inbox.{
  JsonParser, Extracted, Run, accept, reject_body, after_report, settle_request, receive_for,
  receive_named, receive_package, receive_extracted, extract_email_result, receive, receive_all,
  poll_buyer_inbox,
}

module _ (crypto : Crypto) (parse_json : JsonParser) (client_of : Request → Option Client)
    (receiver : String) (now : ℕ) (id : String) (r : Request)
    (ended : is_terminal r.status ≡ true) where
  abbrev Stays : Run → Type 0
  Stays run = get run.requests id ≡ some r

  if-Stays : (b : Bool) (x y : Run) → Stays x → Stays y → Stays (if b then x else y)
  if-Stays true x y hx hy = hx
  if-Stays false x y hx hy = hy

  reject_body-Stays :
      (k : String) (old : Option Request) (run : Run)
      → get run.requests k ≡ old
      → Stays run
      → Stays (reject_body crypto parse_json client_of receiver now k old run)
  unfolding reject_body
  reject_body-Stays k none run e h = h
  reject_body-Stays k (some o) run e h = elim (Bool-cases (is_terminal o.status)) [
    | inl over ↦ rw over h
    | inr live ↦ rw live (put_over_active run.requests k id o _ r e live h ended)
  ]

  after_report-Stays :
      (env : Envelope) (k : String) (o n : Request) (report : Report) (run : Run)
      → get run.requests k ≡ some o
      → is_terminal o.status ≡ false
      → Stays run
      → Stays (after_report crypto parse_json client_of receiver now env k n report run)
  unfolding after_report
  after_report-Stays env k o n skipped run e live h =
      put_over_active run.requests k id o n r e live h ended
  after_report-Stays env k o n (posted m) run e live h =
      put_over_active run.requests k id o n r e live h ended
  after_report-Stays env k o n (threw m) run e live h =
      put_over_active run.requests k id o n r e live h ended

  receive_for-Stays :
      (env : Envelope) (k : String) (body : Fields) (as' : List Attachment) (old : Option Request)
      (run : Run)
      → get run.requests k ≡ old
      → Stays run
      → Stays (receive_for crypto parse_json client_of receiver now env k body as' old run)
  unfolding receive_for settle_request
  receive_for-Stays env k body as' none run e h = h
  receive_for-Stays env k body as' (some o) run e h = elim (Bool-cases (is_terminal o.status)) [
    | inl over ↦ rw over (unfold accept in h)
    | inr live ↦ rw live (after_report-Stays env k o _ _ run e live h)
  ]

  receive_named-Stays :
      (env : Envelope) (body : Fields) (name : Option Json) (as' : List Attachment) (run : Run)
      → Stays run
      → Stays (receive_named crypto parse_json client_of receiver now env body name as' run)
  unfolding receive_named
  receive_named-Stays env body (some (Json.str k)) as' run h =
      receive_for-Stays env k body as' (get run.requests k) run refl h
  receive_named-Stays env body _ as' run h = h

  receive_package-Stays :
      (env : Envelope) (j : Option Json) (as' : List Attachment) (run : Run)
      → Stays run
      → Stays (receive_package crypto parse_json client_of receiver now env j as' run)
  unfolding receive_package
  receive_package-Stays env (some (Json.obj body)) as' run h =
      receive_named-Stays env body (Json.get body "request_id") as' run h
  receive_package-Stays env _ as' run h = h

  receive_extracted-Stays :
      (env : Envelope) (x : Extracted) (run : Run)
      → Stays run
      → Stays (receive_extracted crypto parse_json client_of receiver now env x run)
  unfolding receive_extracted
  receive_extracted-Stays env x run h =
      elim (Bool-cases (json_truthy (member x.result_package "request_id"))) [
        | inl named ↦ rw named (receive_package-Stays env x.result_package x.attachments run h)
        | inr unnamed ↦ rw unnamed (elim (Bool-cases (x.parse_error && truthy env.request_id)) [
          | inl broken ↦ rw broken (unfold accept in reject_body-Stays _ _ run refl h)
          | inr other ↦ rw other h
        ])
      ]

  receive-Stays :
      (env : Envelope) (run : Run)
      → Stays run
      → Stays (receive crypto parse_json client_of receiver now env run)
  unfolding receive
  receive-Stays env run h =
      if-Stays run.stopped run _ h
        (receive_extracted-Stays env (extract_email_result parse_json env) run h)

  receive_all-Stays :
      (es : List Envelope) (run : Run)
      → Stays run
      → Stays (receive_all crypto parse_json client_of receiver now es run)
  unfolding receive_all
  receive_all-Stays [] run h = h
  receive_all-Stays (e ∷ es) run h = receive_all-Stays es _ (receive-Stays e run h)

  -- Whatever is in the inbox, a request that has ended before the poll is afterwards exactly as it
  -- was: no late, repeated or forged package and no broken body changes it.
  pub poll_keeps_ended :
      (requests : Dict Request) (hub : Mailboxes)
      → get requests id ≡ some r
      → get (poll_buyer_inbox crypto parse_json client_of receiver now requests hub).requests id
        ≡ some r
  unfolding poll_buyer_inbox
  poll_keeps_ended requests hub h = receive_all-Stays _ _ h

pub poll-Keeps :
    (crypto : Crypto) (parse_json : JsonParser) (client_of : Request → Option Client)
    (receiver : String) (now : ℕ) (requests : Dict Request) (hub : Mailboxes)
    → Keeps requests
        (poll_buyer_inbox crypto parse_json client_of receiver now requests hub).requests
poll-Keeps crypto parse_json client_of receiver now requests hub id r found ended = record {
  entry = r;
  found = poll_keeps_ended crypto parse_json client_of receiver now id r ended requests hub found;
  kept = record { status = refl; result_package = refl };
}
