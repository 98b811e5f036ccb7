-- ===== src/Lib.antt =====
-- The operations console of the distributed job platform: the TypeScript client that shows jobs,
-- queues and workers, and keeps them up to date over a realtime connection. Paths below are from the
-- repository's root.
--
-- The parts and how they interact. `LiveTransportManager` (src/lib/live-transport.ts) holds the
-- realtime connection: a WebSocket, then server-sent events, then polling with a probe for the
-- WebSocket. Its events and the responses of the API, which the request client
-- (src/lib/request-client.ts) fetches and the parsers (src/lib/api-parsers.ts) check, become the
-- console's data, which the operations of src/lib/console-data.ts keep sorted and counted.
-- src/lib/live-refresh.ts says how long to wait between polls and tells events apart. The hook
-- src/hooks/useDashboardLiveData.ts batches the events into the data and refreshes the console and the
-- inspections. src/components/OpsConsole.tsx has the operations: in live mode they send requests, in
-- demo mode they change the data at once. Toasts (src/hooks/useToastQueue.ts) report what happens. Drafts become jobs, and jobs without an inspection
-- get one, by src/lib/safe.ts.
--
-- Which file models which part:
-- - Base: Boolean tests, lists, stable sorting, texts and dictionaries, with the lemmas on them.
-- - Models: the types of src/lib/models.ts. A field that may be missing is an Option, a dictionary an
--   association list, an instant an ISO text. Json: what `JSON.parse` gives.
-- - LiveTransport: the manager. Types has its fields (LiveTransportManager), the channels and timers
--   of the browser that it holds, and the events of the browser (Event); LiveTransport itself has
--   start, stop, retryNow, connect, openWebSocket, openEventSource, handleRealtimeFailure,
--   scheduleRetry, enterPolling and scheduleProbe; Effects has clearTimers, closeCurrent and
--   emitStatus; Callbacks has the handlers and timer tasks and `handle`, which delivers one event of
--   the browser, so that `run` is an interleaving of events; Protocol is the specification, a machine
--   of six stages (Stage, Move) and the relation Shows of a manager and a stage; its children take the
--   events one by one.
-- - LiveRefresh: createEventFingerprint; Delays has getNextPollDelay and getDrawerRefreshInterval,
--   Health has resolveLiveHealth, Serializing stableSerialize.
-- - LiveData: the live data hook. LiveData itself has the transport mode and the health that it shows;
--   Batching the events on their way to the data (queueLiveEvent, flushPendingEvents), Refresh the
--   refreshes under way, their controllers and the shared requests (requestJson, refreshConsole),
--   Inspections the inspection in the drawer (refreshInspection, selectedInspection), Polling the
--   pace of the polls, and Linking the transport managers that the hook makes and stops, with LiveTransport
--   below it. Batching, Refresh and Linking have a history of what can happen, which interleaves the
--   console's calls with timers that fire, requests that end and events of the browser.
-- - OpsConsole: the console's operations. Updates and Controls have the functions that the handlers give
--   to `setConsoleData` in demo mode, Actions makes one type of them; Forms has the checks of the forms
--   and the bodies of the requests; Handlers has the handlers in both modes, where a handler that calls
--   the API is a Step that waits with what it does afterwards, and Handlers.Operations makes one type of
--   them; Views has the views of queues and workers, Filters what the lists show.
-- - ConsoleData: reconcileConsoleData, replaceJob, removeDeadLetters and the others; Summary has
--   summarizeJobs, Events appendEvents, Reuse reuseList, Stabilizing
--   stabilizeConsoleData, Workflows getInspection and addLocalWorkflowJobs. Their children and
--   Reconciling, Replacing, DeadLetters and Settled hold the proofs.
-- - ApiParsers: the parsers, with an error as its message; Shapes says which values they take.
-- - RequestClient: requestJson with bindAbortSignals in Aborts and the errors in Errors.
-- - ToastQueue: enqueueToast and dismissToast on the hook's refs.
-- - Safe: buildSyntheticTimeline and createInspectionFallback; Drafts has createJobFromDraft;
--   Urls has the paths of addresses; Storage has the settings that outlive the page
--   (src/hooks/usePersistentState.ts).
--
-- Parameters. The browser (URLs, `EventSource`, `JSON.parse`, text decoding, timers' handles), the
-- clock, random numbers, ids, `fetch`, `Headers`, `String`, `Number` and `JSON.stringify` are
-- arguments, and so is the JavaScript value that a record stands for where `stableSerialize` reads it.
-- Numbers in the texts of forms are whole, infinite or NaN. Instants are valid and not before 1970. Random numbers are draw / 2 ^ 53, and products are
-- taken exactly. No definition runs on fuel but the digits of a number, where n + 1 digits are enough
-- for n. Loops are recursion on their lists.
--
-- Not modelled: React's rendering and its scheduling of effects, the interval of the live data hook
-- that refreshes the drawer, the query parameters, the demonstration
-- data, formatting by `Intl`, and the Go services behind the API.
pub mod Base
pub mod Models
pub mod Json
pub mod LiveTransport
pub mod LiveRefresh
pub mod LiveData
pub mod ConsoleData
pub mod ApiParsers
pub mod RequestClient
pub mod ToastQueue
pub mod Safe
pub mod OpsConsole
