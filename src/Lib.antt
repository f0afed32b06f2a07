-- ===== src/Lib.antt =====
-- remote-subagent-protocol: a buyer sends tasks to a seller's subagents over message transports
-- and gets signed results back; a platform issues tokens, keeps the events of requests and takes
-- metrics.
--
-- The buyer (packages/buyer-controller-core/src/index.js) keeps a record of each request,
-- prepares it with the platform, dispatches an envelope, and ends it by a result package, a
-- timeout or a decision. The seller (packages/seller-runtime-core/src/index.js) takes envelopes
-- from its inbox, checks their tokens and limits, queues tasks by priority, and signs and sends
-- results. Both talk through a transport: the in-process hub
-- (packages/transports/local/src/index.js) or the relay (apps/transport-relay/src/server.js).
-- What both sides must agree on is in packages/contracts/src/index.js.
--
-- The files, and what they model:
--
-- - Prelude, Prelude/Lists, Prelude/Dict, Prelude/Texts, Prelude/Snapshots: native numbers,
--   JavaScript's truthiness, Map, operations of texts, Maps written to lists of entries and read
--   back. Json: JSON values and reads of their fields.
-- - Contracts: REQUEST_STATUS, ERROR_REGISTRY, isRetryableErrorCode, buildStructuredError.
--   Contracts/Canonical: canonicalizeResultPackageForSignature. Contracts/Signing: the
--   cryptography, as a parameter.
-- - Transport/Messages: envelopes. Transport/Mailbox: getQueue and the queues. Transport/Hub:
--   resolveReceiver, send, poll, ack, peek, health of the local adapter. Transport/Hub/Refine:
--   the calls of its adapters, and the queues that they promise. Transport/Relay: the memory
--   store and the routes of the relay.
-- - Buyer/Request: loadBuyerConfig's result, createRequestRecord, markUpdated, setSentState.
--   Buyer/Timeouts: evaluateTimeouts and the timeout decision. Buyer/Result:
--   resultContextMatchesRequest, verifyResultSignature, verifyArtifactBindings,
--   applyResultPackage. Buyer/Client: the platform client, as a parameter. Buyer/Metrics:
--   reportBuyerMetric, evaluateTimeoutsWithMetrics. Buyer/Events: applyPlatformEventsToRequest,
--   syncBuyerRequestEvents. Buyer/Dispatch: prepareBuyerRequest, createTaskContractDraft,
--   buildDispatchEnvelope. Buyer/Inbox: extractEmailResult, pollBuyerInbox. Buyer/Sync:
--   syncBuyerActiveRequests. Buyer/Server: the routes of createBuyerControllerServer from POST
--   /controller/requests on, with their state and replies. Buyer/Keeps: maps of requests before
--   and after an operation.
-- - Seller/Task: createSellerState's fields, createTaskRecord, rememberTask, getTaskByRequestId.
--   Seller/Artifacts: materializeArtifacts, enforceArtifactSizeLimit. Seller/Result: the result
--   payloads and signResultPayload. Seller/Platform: the platform as the seller calls it, as a
--   parameter. Seller/Finalize: sendResultEnvelope, reportSellerMetric, finalizeTask, failTask.
--   Seller/Guardrails: validateTaskGuardrails. Seller/Queue: enqueueTask's sort,
--   scheduleProcessQueue. Seller/Run: runQueuedTask after the execution. Seller/Inbox:
--   processSellerInbox. Seller/Snapshot: serializeSellerState, hydrateSellerState.
--   Seller/Server: the routes for tasks of createSellerControllerServer. Seller/Executors:
--   normalizeExecutionResult, deferTask and the executors of a function, a process and an HTTP
--   call (packages/seller-runtime-core/src/executors.js). Seller/Executors/Router: the
--   simulator, the example and createSubagentRouterExecutor.
-- - Platform (apps/platform-api/src/server.js): Platform/Answer is sendError and what a route
--   answers, Platform/History is pushCapped, Platform/RateLimit is createRateLimiter without the
--   time to wait that a refusal tells. Platform/Keys is revokeApiKey, rotateBuyerApiKey and
--   rotateSellerApiKey, Platform/Keys/Roles is registerBuyerUser and addUserRole.
-- - Platform/Market: sellers and subagents, the audit and review events. Market/Access: who may
--   see and change what, the require functions. Market/Submit and its children:
--   submitCatalogSubagent and the two routes that call it. Market/Review: the administration's
--   disable, approve, reject and enable. Market/Upkeep: rotateSellerSigningKey and the
--   heartbeat. Market/Admin: the operator's rotation of keys and change of roles.
--   Market/Operations: all of these as calls one after another.
-- - Platform/Catalog: the catalog's list, detail and templates. Platform/Pages: matchesQuery,
--   parsePagination, paginateItems and the operators' listings of requests, reviews and audit
--   events.
-- - Platform/Tokens: signToken, parseToken and the claims. Tokens/Introspect: the route that
--   tells a seller what a token says. Platform/Requests: POST /v1/requests/:id/ack, and
--   Requests/Events: POST /v1/requests/:id/events. Platform/Delivery: the issue of tokens and
--   Delivery/Meta the delivery metadata, which bind a request to its parties. Delivery/Reads: a
--   request's events, alone and in batches. Delivery/Histories: all calls that write requests,
--   one after another.
-- - Protocol: what one side builds and the other accepts.
-- - Tests: concrete requests, tasks, messages and services, and runs on them.
--
-- State is passed explicitly: a handler takes the state of its server and gives the new one with
-- its reply, the metrics that it posted, and whether the state was written to the store. An
-- exception of a call is a value (`none`, `false`, `threw`, `stopped`), and what was changed
-- before it stays changed, as in the source. A server's calls come one after another: a handler
-- is one step, which leaves out what another call does while it awaits the platform.
--
-- Times are milliseconds, an operation reads the clock once, and ids that an operation draws are
-- its arguments. Numbers of a body or a query are natural numbers; fields that may be missing
-- are options, where null and undefined are one value. Parameters of the model are JSON.parse,
-- JSON.stringify, base64url, toLowerCase, new URL, node:crypto with its keyed hash, child
-- processes and fetch by their outcomes, the platform's answers to buyer and seller, and the
-- transport, which is the in-process hub and does not fail.
--
-- Recursion is structural, with two exceptions, which run on fuel: the slices of a batched
-- synchronisation have the length of the list as fuel, since each slice takes at least one
-- element, and decimal digits have the number plus one, since each digit divides it by ten.
--
-- Not modelled: the platform's listings of sellers, subagents and review tests, its review test
-- harness, its metrics and the serialisation of its state (apps/platform-api); the transports
-- over HTTP and mail (packages/transports/relay-http, email, emailengine, gmail); databases
-- (packages/sqlite-store, packages/postgres-store, the relay's SQLite store); the timers of
-- background loops, which repeat modelled steps; the serialisation of the buyer's state and the
-- proxies of its server for catalog and registration; and the command line, consoles and site,
-- which are input and output around these parts.
pub mod Prelude
pub mod Json
pub mod Contracts
pub mod Transport
pub mod Buyer
pub mod Seller
pub mod Platform
pub mod Protocol
pub mod Tests
