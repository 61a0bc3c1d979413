-- ===== src/Lib.antt =====
-- Formation Chat Core: a self-hosted chat between the visitors of sites and agents. The development
-- models the core of the server (apps/server/src), the browser's client
-- (packages/browser-client/src) and the checks of the protocol (packages/protocol/src/chat).
--
-- The parts and how they interact. A browser bootstraps an anonymous session (session/service.ts)
-- and gets a token (session/token.ts), which its later requests are let in with
-- (auth/session-auth.ts). A visitor creates a conversation (conversation/service.ts) and submits
-- messages to it (message/service.ts); a submission stores the message under the next sequence of
-- its conversation and queues a run. A worker (run/worker.ts) claims a due run under a lease, loads
-- the context of the conversation, and takes the events of the agent's connector one by one: it
-- writes the rows that an event makes, appends the event to the store (event/store.ts), which keeps
-- a window of them, and publishes it to the subscriptions (event/broker.ts), which connections read
-- behind a replay and write as frames (event/route.ts). An event may ask for contact: the run then
-- waits, and the visitor's answer (structured-input/service.ts) queues it again. A visitor may
-- cancel the latest run (run/service.ts, run/cancellation.ts) or ask for the conversation by email
-- (email-handoff/service.ts). A retention pass (privacy/retention.ts) removes what is old, and a
-- limiter (security/rate-limit.ts) bounds the requests. Operators read the conversations of their
-- tenant (admin/service.ts). In the browser, the client (client.ts) keeps one stream open, reads
-- its frames through the transport (http-transport.ts), folds the events into its state (state.ts)
-- and keeps its place in the browser's storage (storage.ts).
--
-- The files. Prelude and its children hold the shared helpers: Boolean tests on the native numbers,
-- lists and their laws, results of fallible code, maps in insertion order, sorting, rows under a
-- key and in an order, texts, and JSON values with the records of operations and laws that stand
-- for JSON and times as texts. Database is the state: a record with one list for each table that
-- the chat core uses of apps/server/src/database/types.ts, whose rows are in Database/Rows and
-- Database/Sites; Database/Statements has the tests and the idempotency rows that the services
-- share, Database/Sequences the sequence numbers that a counter of a conversation gives,
-- Database/TimePages the pages of rows by time and identifier that conversation/service.ts and
-- admin/service.ts read. Session, Conversation, Message, Run, StructuredInput, EmailHandoff, Event,
-- Retention, RateLimit and Admin are the modules of the server's directories, with their operations
-- under the names of the code in snake case: Message.submit is `submit` of message/service.ts.
-- Session is session/service.ts, Session/Origin its site, origin and agent, Session/Token
-- session/token.ts and Session/Authentication auth/session-auth.ts. Run has the statements of the
-- worker; Run/Context is `loadContext`, Run/Materialize is `materialize`, Run/Worker is
-- `processNext`, Run/Cancel and Run/Cancellation are the cancel command and the registrations of
-- running runs. Event/Stream is the loop of a connection, Event/Frame what it writes,
-- Message/Listing and Conversation/Listing the pages of messages and conversations, with
-- Conversation/Cursor and Admin/Cursor their cursors. Client is the reducer of
-- packages/browser-client/src/state.ts, with the types in Client/Types and the parts of a live
-- message in Client/Parts. Browser is client.ts as a machine over the state of Browser/State,
-- Browser/Steps its step relation, Browser/Storage storage.ts. Transport is http-transport.ts,
-- Transport/EventStream its `parseEventStream`. The theorems stand in the children that are named
-- for what they prove, and Examples applies them at concrete inputs.
--
-- How state and operations correspond. A transaction is one function from the database to a result:
-- the advisory lock and the row locks of the code make it atomic, and what it throws leaves the
-- database as it was. A query is a selection of a list; one without an order takes the rows as the
-- table has them. Identifiers are opaque and stand as numbers, as do the digests of requests, whose
-- hash function is a parameter; texts are lists of code units; times are whole milliseconds, except
-- where a page's cursor keeps less of a time than its column. The identifiers that `randomUUID`
-- makes, the clock and what other processes write between the worker's steps are arguments. A
-- column's default of the current time is the time of the call. A deletion takes along what the
-- foreign keys of the migrations cascade to. An operation or a recorded outcome, which the code
-- spells as one text, is a data type. base64url, `JSON`, `TextDecoder`, `URL`, `fetch`, the library
-- jose, the protocol's schemas, `trim` with `toLowerCase`, the order of `localeCompare` and the
-- connectors are parameters, with records of what is relied on. Primary keys are hypotheses where a
-- theorem needs them. An asynchronous function of the browser's client is cut at its awaits, and
-- what follows an await takes what it yielded; the steps come in any order.
--
-- Bounds. Loops are structural recursion on lists; the decimal digits of a cursor use fuel n + 1,
-- and a number has no more digits than that. The loop over the lines of a stream's buffer has the
-- buffer's length as fuel, since each round takes a newline away; the loop over the pages has the
-- rounds that the code itself allows, and throws behind them as the code does. The stream of a
-- connector is a finite list: a connector that never ends keeps the worker waiting in the code,
-- too; so is the list of the chunks of a body.
--
-- Not modelled: the HTTP routes, the tokens, overview and previews of the administration, the
-- configuration, logging and metrics, the migrations but for their foreign keys, the provisioning,
-- the connectors' own code, the timers of the worker and of the retention, the single flight of a
-- renewal in the browser's client and the storage in memory, the dashboard and the example sites.
pub mod Prelude
pub mod Database
pub mod Conversation
pub mod Message
pub mod Run
pub mod StructuredInput
pub mod Event
pub mod EmailHandoff
pub mod Retention
pub mod RateLimit
pub mod Client
pub mod Transport
pub mod Browser
pub mod Session
pub mod Admin
pub mod Examples
