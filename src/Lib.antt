-- ===== src/Lib.antt =====
-- Verification of the front desk scheduler.
--
-- The program ranks the open items of a project board, lets agents claim and complete them under a
-- shared budget, and runs a lease plane whose grants are mirrored, collected and watched. Its parts
-- and the files that model them:
--
--   src/policy.ts            Policy, with Policy/Score (score, prioritize) and Policy/Capacity
--                            (planCapacity, budgetGate)
--   src/contract.ts          World: items, agents and budget, depsSatisfied, readySet
--   src/ops.ts               Ops: commitClaim, applySpend, complete, each racy and safe
--   src/scheduler.ts         Dispatch: rankedQueue, nextPick, gateFor
--   src/invariants.ts        Invariants, with Invariants/Cycle (inBlocksCycle)
--   src/sim.ts               Sim, with Sim/Prng (mulberry32), Sim/Steps and Sim/Trace
--   src/status.ts            Status: statusToState, deriveStatus
--   src/scheduling.ts        Scheduling: assembleScheduling, assembleGraph
--   src/writeback.ts         Writeback: planWriteback
--   src/lease-client.ts      Lease: the records that the lease plane answers with; Client and
--                            Client/Reading: its calls
--   src/lease-projection.ts  Projection: watermarks, planProjection
--   src/reaper.ts            Reaper: candidateIds, planReap, verdictFromPrProbe
--   scripts/reap-leases.ts   Reaper/Sweep: one sweep, its ledger and the reaps it asks for
--   src/expiry-watch.ts      Expiry: classifyExpiry, watchVerdict
--   src/lane-watch.ts        Lanes: expandField, parseCron, fires, classifyLane
--   src/capability.ts        Capability: probeActor, missingFor
--   src/held.ts              Held: verifyHeld
--   src/selector.ts          Selector: parseItemSelector, formatSelector, selectorMatches
--   src/triage.ts            Triage: planTriage, renderTriageComment
--   scripts/triage-ticket.ts Triage/Ticket: one run and its calls
--   src/dolthub.ts           Reads: query, resolveHead, readPaged
--   src/claim-plane.ts       Claims: resolveClaimPlane
--   src/mirror.ts            Claims: claimNext, renewLease, releaseClaim, liveClaimedIds on the planes
--                            that Dolt adjudicates; Client: claimNext on the lease plane
--   worker/lease/src/lease-core.mjs
--                            Worker (state, validation), with Worker/Decide (claim, renew, bind,
--                            reap, release) and Worker/History (historyStep, effectiveStatus)
--   worker/lease/src/index.mjs
--                            Worker/Object (LeaseObject) and Worker/Router (the default fetch)
--   worker/lease/src/auth.mjs
--                            Worker/Auth: authenticate, namespaceAgent
--
-- The simulation drives the operations through the scheduler and checks the invariants after each
-- micro-step; the scheduler ranks by the policy. The ranking and the writeback count blockers from
-- the same edges, and the writeback derives the status that a card shows. The sweep, the projection
-- and the monitors read the records of the lease plane. The lease worker keeps one object for each
-- item: the router finds it by the canonical item id and admits a write, the object applies the
-- decision and folds it into the history in one step, and Worker/Outcome and Worker/Slot say what
-- the decisions amount to. The client calls the router, and a call may be lost on the way.
--
-- An object that the source changes in place is a value in the list that holds it, replaced at the
-- first match, where `find` would return it; an operation returns the changed world beside its
-- result. A thrown error and a failed request are constructors, and a value read through `!` is
-- demanded: the model answers `none` where it is missing. A text that the source renders for people
-- or for the database is a constructor with the values it is rendered from, and `repository#number`
-- is a pair. `Array.prototype.sort` is a stable insertion sort.
--
-- A statement of SQL is a function on the tables it reads and writes, run as a whole; the operation
-- that runs several reads the time once. An INSERT IGNORE skips the rows that the keys and checks of
-- schema/mirror.sql forbid.
--
-- Scores are doubles, which are a parameter (Number): the order of a ranking is proved from the
-- order that the sign of a difference gives. Efforts, values, ages, times and points are whole
-- numbers; the at-risk ratio of four fifths and the failure rate of one half are compared by
-- products. Of a JSON body the model has the fields that are read, and `none` for a field of another
-- type; a time to live is an exact fraction of seconds and its product with 1000 is exact; lengths of texts count code points, and lower case is that of ASCII. GitHub, as it answers
-- at each time, and the digest of a token are parameters. The generator computes on 32-bit words with the wrap-around written out, and its index
-- into a list is exact for lists that are not longer than 2 ^ 21.
--
-- Bounds: the search for a cycle has fuel for the depth of its calls, one for each item and one more, which
-- is shown to be enough;
-- the loop of a run has the source's own bound on its steps; the loop over a cron range has fuel
-- for each value up to its end, which is shown to be enough; a paged read has fuel for each request,
-- and one more request than the table has rows is shown to be enough.
--
-- Not modelled: HTTP, the database, files and processes (src/board.ts, src/dolt-server.ts,
-- the sync of src/mirror.ts, the other reads of src/dolthub.ts, the other scripts), signatures (src/attest.ts),
-- the SQL texts, and so far src/frontmatter.ts and src/verbs.ts. The search over
-- seeds of src/sim.ts and the simulated period of a schedule in src/lane-watch.ts are left out.
mod Base
pub mod Number
pub mod Policy
pub mod World
pub mod Ops
pub mod Dispatch
pub mod Invariants
pub mod Sim
pub mod Status
pub mod Scheduling
pub mod Writeback
pub mod Lease
pub mod Projection
pub mod Reaper
pub mod Expiry
pub mod Lanes
pub mod Capability
pub mod Held
pub mod Worker
pub mod Selector
pub mod Triage
pub mod Reads
pub mod Claims
pub mod Client
mod Tests
