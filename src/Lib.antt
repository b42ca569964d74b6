-- ===== src/Lib.antt =====
-- HRP-CRM: the durable intake queue of the CRM integration, with the routing of customers, the recovery
-- ledger and the call ledger around it.
--
-- The integration receives webhook events, stores one receipt per event with the intents to dispatch,
-- and lets workers lease the receipts, process them and complete them with success, a bounded retry or
-- a dead letter. The files model these parts of the repository:
--
-- Base and its children: tests, lists, texts (JavaScript strings as lists of UTF-16 code units), JSON
-- values and a stable sort that the other files share.
--
-- Store (packages/integration-store/src): errors.ts and the rows of prisma/schema.prisma. Store.Table is
-- the interface to one database table: the calls of the Prisma client that the stores make, with what
-- they rely on of each; it is a parameter of all that follows, and Store.Table.Lists shows that it can
-- be met. Store.Retry is worker/retry.ts, with the jitter fraction and the draws of Math.random() as
-- quotients of natural numbers, computed exactly where the source has doubles. Store.Lease is
-- worker/lease.ts for the receipts: Lease has the conditions and the data of its queries, Lease.Ops the
-- calls (claimNextReceipt is claim_next_receipt and so on), Lease.Results what each call returns,
-- Lease.Moves the state machine of one receipt with the calls as steps, and Lease.Invariant,
-- Lease.Fencing and Lease.Lifecycle what follows. The body of a database transaction is one step; the
-- two statements of completeReceipt are also given apart, as complete_read and complete_write. The
-- clock and the token generator are arguments; dates are epoch milliseconds as natural numbers.
-- Store.Dispatch has the calls of the same file on the dispatch intents; Calls is about any number of them
-- in a row, Closed about the intents that none of them changes, Settled about completions.
--
-- Routing (apps/context-panel/src/routing/simulator.ts and types.ts): Quota is the largest remainder
-- plan of the batch mode (computeQuotaPlan, planToQueue), Pick the smooth weighted round robin of the
-- realtime mode (wrrPick) and the walk along the queue (batchPick), Simulator the loop over the
-- customers (simulateDistribution, assignOneCustomer). A quotient `N * weight / total` is its floor and
-- its remainder over the total, computed exactly where the source has doubles; weights are whole. The
-- staff states that the source mutates in place are passed from one customer to the next. What a
-- simulation copies from its arguments into its result (the pool, the seed, the staff summary) is left
-- out.
--
-- Recovery (apps/context-panel/src/observability/kill-switch.ts, and the guard and the recovery routes
-- of apps/context-panel/src/server.ts): the kill switch, the ledger of the mutations it blocked and what
-- is reported of them. Recovery has the ledger's operations, Recovery.Routes the guard, the reports and
-- the routes behind their role checks; a UUID is an argument, and the calls of inc are a list.
--
-- Store.Intake (repos/event-receipt.ts of the store, and apps/integration-api/src/receiver/dedupe.ts):
-- Intake is the transaction of commitReceiptWithIntents, with what other transactions commit between
-- its read and its insert as a function on the tables; Commit has what a commit comes to, Recommit the
-- same event again, and Webhook the call that turns a parsed webhook into a receipt with one intent.
-- The digest of a body and the text of a time stamp are arguments. Store.Redrive is redriveReceipt of
-- the same file, with the callbacks as arguments. Not modelled in that file are the reads for display.
--
-- Gateway (apps/integration-api/src/gateway/ledger.ts): the bounded call log, a ring that overwrites
-- its oldest entry, and the cache of results. A ledger of no places stores nothing.
--
-- Worker (apps/integration-worker/src): the parent has the poll loop of durable-worker.ts over the lease
-- calls (startDurableWorker: poll_once is one pass of the loop, poll_rounds as many as the environment
-- supplies readings for, drain is stop without its wait) and the executor of executor.ts. Potential,
-- Polls, Rounds and Limit count what a worker can still claim; Drain and Executor say what comes
-- of a receipt. Firewall is firewall.ts, Mapping is mapping.ts, Pipeline is executePipelineForReceipt of
-- pipeline-executor.ts with the requests that it makes, Gate says when it makes one, and Undispatched
-- what the worker hands to it. The normalizer, the revision tracker and the gateway client
-- are arguments, and so is the outcome of a receipt's work, which Executor and Undispatched fill with that
-- of the executor and of the pipeline; the payload and the context of a request, the texts of reasons, the
-- logs and the sleeps are left out. The loop runs on a list of readings, one for each pass, so it needs no
-- fuel.
--
-- Store.Actions is reconciliation.ts (repos) and Store.Reconcile stuck-receipt-reconciler.ts of
-- apps/integration-api/src/reconciler, with the texts of errors and the snapshots left out; Once and Again
-- follow the actions on record. createRecoveryAction calls itself again if the row that it ran into has
-- gone; each call is one step of the tables here, so that branch is never taken.
--
-- Store.Checkpoint is intake-checkpoint.ts (repos), every call of it, and Bound follows the digest of a
-- revision; the schema version of a row, which is never read back, is left out.
--
-- Store.Links has the two adapters of a contact link of adapters.ts, with the parser and the printer of
-- dates as arguments.
--
-- Media (apps/core-1.10-media/src): Url is url-policy.ts (evaluateUrl, isPrivateHost and so on) with the
-- parser of URLs as an argument and host names in ASCII, as that parser returns them; Address, Access and
-- Batch are about it. Evidence is evidence-store.ts with its calls as they change the two maps, and
-- Evidence.Lifecycle what follows for a record.
--
-- Review (apps/integration-api/src/review): Review has the types and the permissions, Review.Store
-- review-store.ts with its three counters as a state, Review.Service the calls of review-service.ts.
-- Keys is about the search that passes over the keys, History about what one entry keeps, Calls and Steps
-- about the calls as changes of the store, Stale and Scope about calls that are refused. The counters print
-- a number in decimal on fuel equal to the number, which has no more digits than that.
--
-- Not modelled: the HTTP servers, the pages and the handlers of the panel and of the worker, which are
-- input and output around these parts; the intake orchestrator, the normalizers, the gateway scenarios,
-- the reconciliation of intents, the upserts of links and the assistant, which are left for later; and the
-- SQL and Prisma clients, whose calls are the operations of Store.Table.
pub mod Base
pub mod Store
pub mod Routing
pub mod Recovery
pub mod Gateway
pub mod Worker
pub mod Media
pub mod Review
