-- ===== src/Lib.antt =====
-- Verification of codexhook, a service that turns webhook requests into messages for local Codex
-- tasks.
--
-- A request with a hook's token is accepted by the HTTP server (src/server.ts), which claims the
-- hook in the registry (src/registry.ts) and submits the composed message to the delivery service
-- (src/delivery/delivery.ts). That service runs one worker for each task in queue mode and one
-- fiber for each job in steer mode; a job is handed to the delivery coordinator
-- (src/delivery/coordinator.ts and its support files), which writes to the desktop application, or
-- falls back to the app server, and reconciles a write whose fate is not known.
--
-- The files:
-- - Base: lists, dictionaries, results and tests that the others share.
-- - Types (src/types.ts) and Contracts (src/contracts): records and enumerations by the source's
--   names, in snake case; Contracts.Compatibility is `checkProtocolCompatibility`,
--   Contracts.Diagnostics `sanitizeDiagnostic`.
-- - Registry (src/registry.ts): the table of hooks as a list of rows; each method of
--   `WebhookRegistry` is a function of the table and the time. The hash of a token and the random
--   token are parameters. Registry.Format has the patterns, Registry.Invariant the keys,
--   Registry.Claims the delivery limits, Registry.Lifetime creation and replacement.
-- - AppServer (src/app-server): AppServer.Pagination is `paginate`; AppServer.Mutation is `mutate`,
--   over what the peer's steps end with; AppServer.Submit is the plane's `submit`;
--   AppServer.Events the event stream of a task, one signal after the other.
-- - Lifecycle (src/service/lifecycle.ts): `ServiceLifecycle`, its tickets and idle waiters.
-- - Server (src/server.ts): the request handler, split where it returns early; Server.Address is the
--   hook's address, Server.Body is `readBody`, Server.Claims what a request leads to. What other
--   requests do while the handler waits is a function on the server's state.
-- - RateLimit (src/rate-limit.ts): `ThreadRateLimiter`, and in RateLimit.Window the sliding window
--   as a log of the allowed deliveries.
-- - Compose (src/delivery/compose.ts).
-- - Delivery (src/delivery/delivery.ts): the state is the map of lanes, the control record and the
--   fibers; `step` is one atomic step of one fiber, `run` an interleaving. Delivery.Lanes has the
--   invariant, Delivery.Order the order of jobs, Delivery.Drain the end.
-- - Coordinator (src/delivery/coordinator.ts, coordinator-support.ts, coordinator-queue.ts): what
--   the planes, the event streams and the clock answer is in worlds, records that are arguments;
--   a delivery gives its outcome, the breakers and the writes that it made. The queue loop takes a
--   list of rounds, one for each turn, as its fuel: a round that begins at the deadline is the
--   last, by the test at the loop's start, so rounds up to the deadline are enough.
-- - Desktop (src/transport): Desktop.State is `DesktopThreadState` and what changes it,
--   Desktop.Decoder reads its changes from JSON values (Json), which are what JSON.parse returns,
--   Desktop.Offer is the offer of src/transport/desktop-contract.ts, Desktop.Attachment the injection
--   of a command (src/transport/desktop-attachment.ts), Desktop.Injection what proves that a command
--   has reached the task.
-- - Ipc (src/transport/desktop-ipc): Ipc.Framing is the framing of messages, with bytes as numbers;
--   Ipc.Framing.Chunks and Ipc.Framing.RoundTrip are about streams in chunks. Ipc.Wire is
--   `RawDesktopConnection`: `run` is a sequence of calls and of events of the socket and the timers,
--   Ipc.Wire.Settled and Ipc.Wire.Outcomes are about the promises of its requests. Ipc.Owners is
--   `DesktopThreadOwners`, Ipc.Owners.Waiting and Ipc.Owners.Answered are about its waiters, whose
--   answers `run` lists in their order, Ipc.Owners.Request the deadline and target of a request, where what other
--   calls do during a wait is in the arguments, Ipc.Adapters what answers are read as.
-- - Journal (src/diagnostics/journal.ts): `DiagnosticJournal`, with its file as a list of bytes and
--   what throws in a call as an argument; Journal.Records are its records and how they are read,
--   Journal.Lines and Journal.Bounds the size of the file.
-- - Duration (src/duration.ts): expirations and delivery limits as text. Numbers are exact up to
--   2 ^ 53, and a sum of safe integers over it is rounded to the nearest even number.
-- Times are natural numbers of milliseconds, those of the registry of seconds; the differences that
-- the source takes with `Math.max(0, …)` are the subtraction that stops at 0.
--
-- Not modelled: interruption of fibers and defects, which would end a worker of the delivery service
-- without the end of its job and leave its lane, the mutual exclusion of `TaskGatePool`, logging, the
-- database file and its schema, sockets, processes and files, the command line, and the wire formats
-- of the planes, whose outcomes are arguments here.
pub mod Base
pub mod Json
pub mod Types
pub mod Contracts
pub mod Lifecycle
pub mod RateLimit
pub mod Registry
pub mod Compose
pub mod Delivery
pub mod Coordinator
pub mod Desktop
pub mod Ipc
pub mod Journal
pub mod Duration
pub mod AppServer
pub mod Server
