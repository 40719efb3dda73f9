-- ===== src/Tests.antt =====
-- The theorems at concrete inputs. Incidents.antt and Effects.antt are about runner/evaluate.ts,
-- Verdicts.antt about its quorum, Specs.antt about runner/specfetch/specCache.ts, Manifests.antt about
-- runner/reconcile.ts, Ticks.antt about runner/index.ts, and Sweeps.antt about runner/retention.ts,
-- runner/staleIncidents.ts, runner/canary.ts and runner/runFinalize.ts, and Secrets.antt about
-- runner/crypto.ts and runner/secretHeaders.ts. Uploads.antt is about the artifacts of runner/index.ts,
-- Chains.antt about runner/multistep.ts and runner/assertions.ts, Traces.antt about runner/traceRedact.ts and
-- runner/loginCredentials.ts, and Analyses.antt about runner/rca.ts and runner/narrative.ts.
mod Data
mod Incidents
mod Verdicts
mod Specs
mod Manifests
mod Effects
mod Ticks
mod Sweeps
mod Secrets
mod Uploads
mod Chains
mod Traces
mod Analyses
