-- ===== src/Lib.antt =====
-- git-on-cloudflare, a Git server on Cloudflare Workers: the logic of one repository.
--
-- A repository is a Durable Object (src/worker/do/repo). Its key-value storage holds refs, HEAD,
-- versions, leases and operations, and its SQLite table `pack_catalog` lists the packs that stand
-- in object storage. A receive-pack request brings commands on refs and a pack: the commands are
-- checked against the refs, the pack is activated and the commands are applied. Compaction merges
-- packs: it takes a lease, is handed a plan, builds the new pack elsewhere and commits under a
-- fence. An alarm wakes the object for what is pending. A pack is a sequence of entries, each with
-- a header.
--
-- Base (tests, lists, a stable sort, texts) is what the parts share. A text is the list of its
-- UTF-16 units.
--
-- Refs: src/worker/git/operations/validation.ts. `isValidRefName`, `validateReceiveCommands` and
-- `applyReceiveCommands` are the functions of the same names. A JavaScript `Map` is the list of its
-- entries in insertion order, since the code writes that order back to storage. Refs/Names is about
-- names, Refs/Entries about that map, Refs/Commands about the commands, and Refs/Replay about
-- applying them a second time, which is what recovery after a crash does.
--
-- Repo: src/worker/do/repo. Repo/State is the storage (repoState.ts, db/schema.ts) as one record;
-- an operation takes it and returns the new one with its answer. Repo/Catalog is the table
-- (db/dal/packCatalog.ts), Repo/Shared and Repo/Activity the helpers of catalog/shared.ts,
-- catalog/activity.ts, nativeReceiveActivity.ts and catalog/gcCoordination.ts, and Repo/Scheduler
-- the alarm (scheduler.ts). The time and tokens are arguments. Where one call reads the time
-- several times, the argument is a function from the number of the reading to the time.
--
-- Compaction: src/worker/do/repo/catalog/compaction. Compaction/Plan is the choice of packs
-- (plan.ts), Compaction/Lease the lease (lease.ts, and `abortCompactionLease` of
-- catalog/leases.ts), Compaction/Commit the commit under a fence (lease.ts), Compaction/Cycle a
-- whole pass, and Compaction/Requests what an operator asks for (requests.ts). An operation is one
-- run without others in between, as the object's input gates make it, and what another operation
-- did before is in the state that it starts from. Logging and the texts of messages are left out.
--
-- Receive: src/worker/do/repo/catalog/receive.ts. `finalizeReceiveState` stores an intent before it
-- publishes anything, so that a crash can be recovered from. Receive/Finalize is the fence in front
-- of it, the checks and the intent; Receive/Publication the activation of the pack, the transaction
-- that moves the refs and `advanceGcReceiveVersions` of catalog/gcCoordination.ts; Receive/Outcomes
-- the kept outcomes and the steps from the intent to the answer; Receive/Request is the function as
-- a whole, and Receive/Reconcile `reconcileReceiveState` and `resumeReceiveFinalizeFromAlarm`, which
-- call it. A crash is a state between two steps: what a step wrote stays, and a transaction happens
-- whole or not at all. While packs are inspected for garbage collection other calls may run, and
-- what they do to the state is a parameter of the run. Receives without accepted-write facts,
-- ingestion receipts and digests of their output are modelled. Receive/Leases is catalog/leases.ts:
-- the transaction of `beginReceiveLease` that admits a receive, and giving leases back.
--
-- Gc: garbage collection, the work that replaces packs by one with the objects that can be reached.
-- Its stored operation moves from phase to phase, and workers claim it in turn. Gc/Operation is its
-- registration, the claims and the alarm (src/worker/do/repo/catalog/gcOperation.ts), Gc/Progress
-- the reports `recordGcProgress` of a worker, Gc/Publication the transaction `commitCoordinatedGc`
-- (catalog/gcPublication.ts) and `replaceActivePackCatalog` (db/dal/packCatalog.ts), Gc/Request
-- `commitGcOperation`, by which a worker asks for that publication, with
-- `recordReachabilityGcPendingState` (catalog/reachabilityGc.ts), Gc/Discard `gcDiscardKeys`, and
-- Gc/Protection what a receive does against it (catalog/gcCoordination.ts). Each function is one
-- transaction, but for `commitGcOperation`, which runs three in turn and answers `none` for
-- operations without a coordination; a parameter says where storage throws within the publication,
-- which rolls it back. Gc/Steps lists what can happen to the stored operation: these transactions,
-- those of a receive, and whatever leaves it alone. Gc/Change says what each does to the operation,
-- Gc/Diagram is the abstract diagram of phases, Gc/Invariant what a well-formed operation is, and
-- the other files are on one subject each: Gc/Lifecycle, Gc/Merged, Gc/Committed, Gc/Kept, Gc/Retained,
-- Gc/Completes, Gc/Fencing, Gc/Expiry, Gc/Accounts. Measurements, the options of qualification runs
-- and the injected faults are left out. What the inspection of packs' metadata finds for a receive
-- is a parameter, since it reads object storage.
--
-- Pack: Pack/Header is the header of a pack entry (src/worker/git/pack/packMeta.ts, and
-- `encodeObjHeader` of src/worker/git/core/objects.ts), with the bit operations of Pack/Bits. The
-- loops that shift a number run on fuel: five groups of seven bits are enough for 32 bits, and
-- every theorem on them says that a result is found.
--
-- The modules named Examples apply the theorems to concrete values.
--
-- Not modelled: the older way to commit a collection, which only operations without a coordination
-- take, and the other functions of catalog/reachabilityGc.ts (the lease of a collection, its pending
-- output after a crash, and the list of superseded packs); the pool of receives in preparation, the
-- containers and the queues (stockReceiveAuthority.ts and nativeReceive.ts of do/repo, and
-- git/nativeReceive), which mostly call a Go process and object storage; packet lines, object
-- parsing, deltas and pack indexes, which work on streams of bytes and share no state with the parts
-- above; an operator's calls that set refs and HEAD (src/worker/do/repo/refs.ts); the routes,
-- sign-in and user interface. Alarm calls may throw where a parameter says so; storage calls are
-- taken to succeed.
pub mod Base
pub mod Refs
pub mod Repo
pub mod Compaction
pub mod Receive
pub mod Gc
pub mod Pack
