-- ===== src/Buyer/Server/Handle.antt =====
-- The routes of the buyer's server. `none` in the place of a body is a body that is no JSON.
use remote_subagent_protocol.Prelude.{String, Bool, Option}
use remote_subagent_protocol.Json.{Fields}
use remote_subagent_protocol.Buyer.Request.{Body}
use remote_subagent_protocol.Buyer.Server.Reply.{Server, State, Outcome}
use remote_subagent_protocol.Buyer.Server.Reads.{list_requests, read_request, read_result}
use remote_subagent_protocol.Buyer.Server.Writes.{
  create_request, draft_contract, mark_sent, ack_request, post_result, decide,
}
use remote_subagent_protocol.Buyer.Server.Remote.{
  prepare_request, dispatch_request, remote_request, sync_events, pull_inbox,
}

pub data Call : Type 0 where
  creates : Option Body → Call
  lists : Call
  reads : String → Call
  reads_result : String → Call
  prepares : String → Option Body → Call
  remotes : Option Body → Call
  drafts : String → Option Body → Call
  marks_sent : String → Call
  dispatches : String → Option Body → Call
  syncs : String → Call
  acks : String → Call
  posts_result : String → Option Fields → Call
  pulls : Option (Option String) → Call
  decides : String → Option Bool → Call

unfoldable pub handle : Server → State → Call → Outcome
handle v s (creates body) = create_request v s body
handle v s lists = list_requests v s
handle v s (reads k) = read_request v s k
handle v s (reads_result k) = read_result s k
handle v s (prepares k body) = prepare_request v s k body
handle v s (remotes body) = remote_request v s body
handle v s (drafts k body) = draft_contract v s k body
handle v s (marks_sent k) = mark_sent v s k
handle v s (dispatches k body) = dispatch_request v s k body
handle v s (syncs k) = sync_events v s k
handle v s (acks k) = ack_request v s k
handle v s (posts_result k body) = post_result v s k body
handle v s (pulls receiver) = pull_inbox v s receiver
handle v s (decides k continue) = decide v s k continue
