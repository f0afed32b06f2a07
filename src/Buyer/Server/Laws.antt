-- ===== src/Buyer/Server/Laws.antt =====
-- No call of the buyer's server changes how a request has ended.
use remote_subagent_protocol.Prelude.{◌≡◌, none, some, text_or}
use remote_subagent_protocol.Prelude.Dict.{get}
use remote_subagent_protocol.Buyer.Keeps.{Keeps}
use remote_subagent_protocol.Buyer.Server.Reply.{Server, State}
use remote_subagent_protocol.Buyer.Server.Reads.Laws.{
  list_requests-EndedKept, read_request-EndedKept, read_result-EndedKept,
}
use remote_subagent_protocol.Buyer.Server.Writes.Laws.{
  create_request-EndedKept, create_request-not_json, draft_contract-EndedKept, mark_sent-EndedKept,
  ack_request-EndedKept, post_result-EndedKept, decide-EndedKept,
}
use remote_subagent_protocol.Buyer.Server.Remote.Laws.{
  prepare_request-EndedKept, dispatch_request-EndedKept, remote_request-EndedKept,
  remote_request-not_json, sync_events-EndedKept, pull_inbox-EndedKept,
}
use remote_subagent_protocol.Buyer.Server.Handle.{
  Call, creates, lists, reads, reads_result, prepares, remotes, drafts, marks_sent, dispatches,
  syncs, acks, posts_result, pulls, decides, handle,
}

-- A call that makes a request makes it under an id that is new.
abbrev pub IsFresh : Server → State → Call → Type 0
IsFresh v s (creates (some b)) = get s.requests (text_or b.request_id v.uuid) ≡ none
IsFresh v s (remotes (some b)) = get s.requests (text_or b.request_id v.uuid) ≡ none
IsFresh v s _ = Unit {0}

pub handle-Keeps :
    (v : Server) (s : State) (c : Call)
    → IsFresh v s c
    → Keeps s.requests (handle v s c).state.requests
unfolding handle
handle-Keeps v s (creates none) fresh = create_request-not_json v s
handle-Keeps v s (creates (some b)) fresh = create_request-EndedKept v s b fresh
handle-Keeps v s lists fresh = list_requests-EndedKept v s
handle-Keeps v s (reads k) fresh = read_request-EndedKept v s k
handle-Keeps v s (reads_result k) fresh = read_result-EndedKept s k
handle-Keeps v s (prepares k b) fresh = prepare_request-EndedKept v s k b
handle-Keeps v s (remotes none) fresh = remote_request-not_json v s
handle-Keeps v s (remotes (some b)) fresh = remote_request-EndedKept v s b fresh
handle-Keeps v s (drafts k b) fresh = draft_contract-EndedKept v s k b
handle-Keeps v s (marks_sent k) fresh = mark_sent-EndedKept v s k
handle-Keeps v s (dispatches k b) fresh = dispatch_request-EndedKept v s k b
handle-Keeps v s (syncs k) fresh = sync_events-EndedKept v s k
handle-Keeps v s (acks k) fresh = ack_request-EndedKept v s k
handle-Keeps v s (posts_result k b) fresh = post_result-EndedKept v s k b
handle-Keeps v s (pulls receiver) fresh = pull_inbox-EndedKept v s receiver
handle-Keeps v s (decides k b) fresh = decide-EndedKept v s k b
