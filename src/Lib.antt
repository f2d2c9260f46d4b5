-- ===== src/Lib.antt =====
-- The Codex Auto Reset plugin: a worker that patrols Codex accounts and redeems each account's reset
-- credits shortly before they expire, at most one idempotent request sequence per credit.
--
-- Parts of the program and where they are modelled:
--
-- - models.go, constants.go: Models.antt has the records, states and delays. A time.Time is the integer
--   of its nanoseconds from Go's zero time, a time.Duration the integer of its nanoseconds. Models/Credits
--   has availableCreditsSorted, Models/Credits/Order what it returns.
-- - retry.go: Retry.antt (backoffForAttempt, classifyConsume) and Retry/Laws.
-- - log.go: LogRing.antt (newLogRing, load, append, all, pruneOlderThan) and LogRing/Laws.
-- - openai_client.go: Client.antt has the errors and the answer of a consume, OpenAi.antt the three requests
--   (ListCredits, GetUsage, Consume) with do and setAuthHeaders, on an HTTP transport that is an argument;
--   OpenAi/Wire writes down what a tick sends, OpenAi/Requests says what the requests must be and
--   OpenAi/Ticks compares the two, OpenAi/Answers has what an answer leads to.
-- - quota.go: Quota.antt and Quota/Usage have the parsers, Quota/Reading and Quota/Weekly
--   what a usage answer says, told apart from them. A decoded
--   `any` is a tree of values (Json.antt), with an object's fields in the order in which range visits them.
-- - auth.go: Auth.antt has ExtractCodexCredentials with its lookups; proofs are Auth/Lookup and Auth/Extract.
-- - resetbank.go: Fsm.antt. Fsm/Machine has the fields of AccountFSM, the environment Env (ResetClient, Now,
--   uuid.NewString, Logf) and the accessors; Fsm/Idle, Confirm, Redeem and Verify have the steps stepIDLE
--   and stepARMED, stepCONFIRMING, stepRESETTING, stepVERIFYING; Fsm/Tick has stepLocked and StepAndSettle.
--   A method holds the mutex for its whole call, so it is one step: a function from the fields and the
--   world to a result, new fields and a new world. Proofs: Fsm/Edges, Trigger, Posts, Retries, Waits, Settle,
--   Patrol, Verdict, Aliases, Trace, Ledger.
-- - worker.go: Worker.antt. Worker/State has the fields, the Host (clock, credential loader, client,
--   enumerator, state mirror), NewWorker and Stop; Worker/Accounts has ensureFSM, maybeResolveWildcard,
--   retryMissingFSMs and nextMissingRetryDelay; Worker/Loop has soonest, stepAccountSafe and one turn of
--   Run; Worker/Triggers has TriggerCheck and ForceConfirm; Worker/Listing has EachFSM. A Go map is an
--   association list in the order in which range visits it. Proofs: Worker/Sound, Steps, Reach, Order,
--   Coverage, Manual, Listing.
-- - config.go: Config.antt (DefaultConfig, parseConfigYAML, normalizeConfig), with Config/Normal; Config/Json
--   has MarshalJSON, UnmarshalJSON, formatDuration and parseDurationJSON, Config/Json/RoundTrip their proof.
-- - state.go: Store.antt has PluginState; Store/Disk is a disk whose reads and writes can fail, Store/File
--   has saveState, loadState and migrateStateFile on it; Store/Recovery and Store/Migration are proofs.
-- - main.go: History.antt has syncFSMIntoGlobalState, collapseResetHistoryDuplicates and
--   backfillResetHistoryFromLogs; History/Mirror has afterVerifiedReset, debouncedSaveState and the
--   StateSync closure, and wires it to a host; proofs are History/Keys, Backfill, Seconds, Verdicts,
--   Restart, Sync and Wiring. The restart of the worker stands with the handlers, the account list
--   in Management/Accounts. Boot.antt is the start: Boot/Path has resolveStatePath and
--   defaultStatePath, Boot/Creds hostCredsLoader with Boot/Loading, Boot/Configure configurePlugin,
--   and Boot/Configure/Restore what a start takes up. Boot/Callbacks has the envelopes and the calls
--   to the host, Boot/Methods the calls from it (handleMethod, handleManagementRequest, the
--   shutdown), Boot/Calls what they may change.
-- - management.go: Management.antt. Management/Paths has the tests on paths, Requests the data, Handlers
--   the handlers, Dispatch the routes, Registration what the host is told of them; proofs are Management/Safety,
--   Registered, Settings and Listing.
-- - sim/engine.go: Sim.antt has the data and the scripted client, Sim/Tools what the steps share, Sim/Patrol
--   and Sim/Redeem the steps of the states, Sim/Steps their dispatch and Sim/Engine Run, on its own bound of
--   200 steps as fuel. Sim/Agree runs the plugin's machine on the same client: Agree is the relation
--   between the two, Agree/Ticks and Agree/Runs compare ticks and runs.
--
-- How they interact: a turn of the worker's loop (Worker/Loop) calls step_and_settle (Fsm/Tick) of one
-- account's machine on the worker's own log and host, and then the state mirror, for which History/Mirror
-- has the closure of main.go; the handlers call
-- trigger_check and force_confirm_account (Worker/Triggers) and replace the worker after a change of the
-- settings.
--
-- The server, the clock, the uuid package and the host are parameters: the theorems hold for all answers
-- that they can give, but for the named hypotheses (Ticking, IsFair) that the clock shows no time before
-- year 1 and that the state mirror leaves a machine's wake and configuration alone. Messages are kept as
-- the format and its arguments. A panic of the worker's step is a step of its own that leaves the machine
-- in any state. The calls of other goroutines come between the turns of the loop.
--
-- Loops are structural recursion. The retries of one reset are ticked by redeem_loop on fuel: six ticks
-- are shown to be enough. readStateFile makes its three attempts, on fuel three.
--
-- Decoders and encoders (JSON, YAML, time.ParseDuration, time.Format) are arguments of the definitions that
-- call them, and a theorem that needs one to read back what another wrote says so in its hypotheses.
--
-- Scenarios.antt has one account, one server, one host, one disk and a few requests with fixed answers, and
-- each theorem at work on them.
--
-- net/http, net/url, path/filepath, os.UserConfigDir, base64 and sort.Slice are arguments too, as records of
-- functions (Calls, Transport, FilePaths, Decoders) or with what the code relies on named: IsGo for the
-- conversion of a float64 to an int, IsSort for a sort that need not be stable, ReadsBack for
-- time.ParseDuration on what Duration.String writes, IsIdempotent for a server that heeds the key of a request.
--
-- Not modelled: the copies between Go and C in main.go, the bytes of a JSON answer, and the text of the status
-- page.
pub mod Prelude
pub mod Models
pub mod Client
pub mod Config
pub mod Retry
pub mod LogRing
pub mod Fsm
pub mod Store
pub mod History
pub mod Json
pub mod Auth
pub mod OpenAi
pub mod Quota
pub mod Worker
pub mod Management
pub mod Boot
pub mod Sim
pub mod Scenarios
