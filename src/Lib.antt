-- ===== src/Lib.antt =====
-- A verification library for the SynthWatch runner.
--
-- Each region runs a tick every few minutes. It closes what earlier ticks left over, runs the checks on
-- request, and then claims the checks that are due, one by one, against other replicas of the region.
-- The runner executes checks from several regions, writes a row of `runs` for each, and then decides
-- over the rows of all regions whether an incident of the check is to be opened, escalated or resolved
-- and whom to alert. A browser check runs a spec that the runner fetches and compiles, with a cache as
-- the fallback. An hourly reconcile compares the manifest of monitors with the managed checks.
--
-- The files, by the code that they model:
--   Text         the string functions of JavaScript that several files use, over lists of code points
--   Types        the rows of runner/db.ts and the view countable_run of db/schema.sql
--   Retry        runner/retry.ts
--   Verdict      runner/evaluate.ts: effectiveN, crossLocationDown, incidentSeverity, aggregateVerdict,
--                failingLocationNames, countConsecutiveDown
--   Alerts       runner/alerts.ts: resolveChannels, channelDeliverable, dispatchAlerts
--   World        the tables that evaluate() reads and writes, with the clock and a log of alerts
--   Incident     runner/evaluate.ts: evaluate and its helpers
--   PerfBudget   runner/evaluate.ts: perfBudgetVerdict and its helpers
--   Burn         runner/evaluate.ts: burnRatesByLocation, burnStateFromTs, maybeBurnAlert
--   SideEffects  runner/evaluate.ts: applyRunSideEffects; classifyTransient of runner/transientClass.ts
--   Schedule     runner/duePredicate.ts; findDueChecks, claim and forceClaim of runner/index.ts
--   Tick         runner/index.ts: runOneInner with its side effects, drainRunRequests, the loop of main
--   Artifacts    tracePersistPlan and previewPersistPlan of runner/redact.ts; the uploads of runOneInner
--   RunFinalize  runner/runFinalize.ts; the guard of runOne and reapStaleRunning of runner/index.ts
--   StaleIncidents  runner/staleIncidents.ts
--   Retention    runner/retention.ts
--   Canary       runner/canary.ts
--   JsonPath     runner/assertions.ts: jsonPath
--   Assertions   the rest of runner/assertions.ts
--   HttpCheck    runner/httpCheck.ts: buildAuthHeader, legacyAssertions
--   Multistep    runner/multistep.ts: resolveTemplate (Template), the cookie jar (Cookies), what is sent
--                (Request), and runMultistepChain
--   TraceRedact  runner/traceRedact.ts
--   Rca          runner/rca.ts
--   Narrative    runner/narrative.ts: narrate, ensureAnomaliesDelivered, isMonitorDefectShape, and the
--                critical findings of computeFactPack
--   LoginCredentials  runner/loginCredentials.ts
--   CredCrypto   runner/crypto.ts
--   SecretHeaders  runner/secretHeaders.ts
--   SpecPath     assertValidSpecPath of runner/specfetch/fetchSpec.ts, flowNameFor of runner/reconcile.ts
--   SpecCache    runner/specfetch/specCache.ts: getCompiledSpec, probeSpec
--   EnvDomain    runner/envDomainMap.ts
--   Reconcile    runner/reconcile.ts: computeDrift (Drift), the scoped syncs (Sync), computeApplyPlan (Plan),
--                validateManifest (Manifest);
--                persistApplyPlan of runner/reconcileMain.ts (Persist)
--   Tests        the theorems at concrete rows
--
-- How the code corresponds to the model. A table is a list of records, and an operation is a function
-- from the rows before to the rows after; one SQL statement is one such step. `evaluate` reads the open
-- incident and the verdict, and then acts on them in `evaluate_from`, which takes both as arguments: two
-- regions that evaluate at once are two calls with values that each has read at any earlier time. A
-- `Map` by key is a lookup in which the last entry wins. A throw is `none`. A timestamp is a number of
-- milliseconds. Floating point is replaced by exact integers: a burn rate is compared as a product, a
-- latency tolerance is a number of tenths. The spec fetches, the compiler, the hash, the URL parser, the
-- alert transports, the executors of the checks, the answer of the root-cause model, the keys of trace
-- signals and the answer of the
-- SQL function slo_burn_status are arguments, and so are the cipher and the encodings of Node, for which
-- a record of what Node documents is the hypothesis of the round trip. The values of JavaScript, with
-- their coercions, regular expressions and JSON.parse, are the record JsValues; the headers, base64 and the
-- environment that a request needs are WebRuntime; fetch and the URL parser are in Surroundings, and the
-- codecs of a trace in Codec. The regular expressions of STRUCTURAL in traceRedact.ts are a list of
-- functions, and the theorems hold of any such list.
--
-- All definitions are total, and the loops are over lists, but for the one of runRetention: it recurs on
-- the number of batches that maxBatches still allows, which is enough for fewer eligible rows than
-- maxBatches * batchSize, 50 million by default. The drain and the due loop run over the list that their
-- query has read, as in the source. decodeDeep makes at most MAX_DECODE_PASSES passes, which is its fuel.
-- In a chain only a request takes time, and the clock is a number that each step passes on. A tick has one
-- clock, and a process that is killed is a sequence of steps that ends early, as in RunFinalize. A statement of
-- the database does not fail in the model: the store of the spec cache never throws, and no run of the due loop
-- throws after its finalization, so that the loop's own try and catch has nothing to do. The executors of
-- runner/index.ts never give the status running as an outcome, which is the hypothesis Settles.
--
-- Left out: the texts of alerts, summaries, assertion failures and rendered SQL; the timeouts of a send of
-- an alert; the test-sends; the queries and the spot check of a fact pack, and the prompts; the redactors
-- of redact.ts; and the parts of the runner that drive a browser, a socket or a cloud interface (the
-- sockets of the protocol checks, trace signals, the sandbox, telemetry).
mod Prelude
pub mod Types
pub mod Text
pub mod Retry
pub mod Verdict
pub mod Alerts
pub mod World
pub mod Incident
pub mod SpecPath
pub mod SpecCache
pub mod EnvDomain
pub mod PerfBudget
pub mod Burn
pub mod SideEffects
pub mod Schedule
pub mod Retention
pub mod StaleIncidents
pub mod Canary
pub mod CredCrypto
pub mod SecretHeaders
pub mod RunFinalize
pub mod Tick
pub mod Artifacts
pub mod JsonPath
pub mod Assertions
pub mod HttpCheck
pub mod TraceRedact
pub mod LoginCredentials
pub mod Rca
pub mod Narrative
pub mod Multistep
pub mod Reconcile
mod Tests
