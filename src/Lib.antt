-- ===== src/Lib.antt =====
-- stable placement: which node each grain (a virtual actor) lives on, and how requests find it.
--
-- A node registry (memory/node_registry.go) keeps the sessions of nodes, their leases and the marks
-- of invalid nodes. A directory (memory/directory.go) places grains on nodes of a group by a
-- strategy (strategies/) and moves a placement only for a reason. Both publish events, which the
-- event bus (memory/event_bus.go) hands to a router (memory/cached_router.go) that answers from a
-- cache of routes (memory/cache.go). Names are validated by identity.go, and target.go derives the
-- group of a kind.
--
-- Files:
--   Base       maps, sets, lists, texts, sorting, int64 increments, and decimals for strconv
--   Model      model.go, command.go, event.go, errors.go; Model.Errors is
--              errors.go, Model.Lease constants.go, Model.Ids grains and placement ids
--   Identity   identity.go; Utf8 is the decoder, Parts the theorems on names
--   Target     target.go; Address relates targets and identities
--   Registry   memory/node_registry.go; Lifecycle has expiry, draining and marks, Calls the steps,
--              Sessions the state machine of one entry, Methods and Transitions the proofs,
--              Marks the invalid marks
--   Strategy   strategy.go, strategies/round_robin.go, strategies/resource_aware.go
--   Directory  memory/directory.go; Moves, Resolve and Allocate are Transfer and Recover,
--              ResolveRoute, and Allocate; Paging is FindByNode; Calls the steps;
--              Effects what each call does and why
--   Cache      memory/cache.go; Refinement is the cache as a partial function
--   Router     memory/cached_router.go; Invalidation is HandleEvent, Degrade and
--              Recover; Epochs the steps; Since, Sections and Overtaken the epoch's proof
--   EventBus   memory/event_bus.go
--   Redis      redis/keys.go; Base64 is the encoding of the texts in a key, HashTag the
--              test for the tag of a cluster's slot. The event bus of
--              redis/event_bus.go and redis/stream.go: Values and Roundtrip are the fields of an
--              entry, Ids the order of entries, Stream and Consumers the consumer of a session,
--              Groups and Owned the operations on groups, Continuity CheckContinuity (Gaps the
--              snapshot, Check the attempts, Snapshots and Sound what no gap means), Consume the
--              Subscribe loop, Hints the Pub/Sub notifications. The directory of
--              redis/directory.go and redis/node_lease.go: Scripts is what a script returns, Calls
--              the keys and arguments of a script, Routes Lookup and ResolveRoute (Retries its
--              tries, Validity the routes), Placements Allocate, Renew and the moves, Nodes and
--              Upkeep the operations on nodes, Leases the expiry of node leases, Pages and Batches
--              FindByNode (Index, Joined and Whole its batches, Hits, Scanned, Cuts and
--              Complete its pages)
--   Protoactor adapters/protoactor; Resolver is resolver.go, Activator activator.go,
--              LocalActivation local_activation.go, Requests context.go and identity_lookup.go
--   Samples    inputs of the tests, which stand in the Tests modules
--
-- Each method is a function by the critical sections of its lock: it takes the state, the times that
-- it reads, and what it gets from outside (the publisher, the strategy's answer, the random placement
-- id, the directory's answer to the router), and returns the state, the events and the result. Any
-- interleaving of callers is then a list of steps. Errors are the values of Model.Error; messages
-- and wrapping are left out.
--
-- What Redis answers is an argument as well: a client is a function from commands to answers, or the
-- rounds of a loop are a list of what each of them finds, with whether the context is done at each
-- place where the code asks. A loop that runs until its context is done is a recursion on the rounds
-- it has had so far. In the adapter the type of PIDs, their address and equality, the directory's
-- answer and the spawn function are arguments.
--
-- Bounds: strings are lists of bytes, times are nanoseconds since the epoch as natural numbers, int64
-- versions are their bit patterns and wrap at 2^64, metrics and configurations are integers, and the
-- router's epoch wraps at 2^64. Loops are recursions on lists;
-- the digits of a number are written with fuel, one more than the number, which is enough since
-- each step divides by ten, and the batches of pending entries are read with as much fuel as there
-- are entries, which is enough since a batch that is not the last holds a hundred.
--
-- The batches of FindByNode in Redis are read with fuel, where none is a run that is out of fuel: more
-- than the entries of the index are enough, since each batch passes one at least.
--
-- Not modelled: what the Lua scripts of redis/lua change in Redis, so that the directory there is
-- modelled by what it sends and what it makes of a result; redis/scripts.go, which loads them; the
-- logger and the examples; nil receivers and nil identities in the adapter; JSON, whose decoding is
-- an argument. Contexts are left out but for the event buses.
pub mod Base
pub mod Model
pub mod Identity
pub mod Registry
pub mod Strategy
pub mod Directory
pub mod Cache
pub mod Router
pub mod EventBus
pub mod Target
pub mod Samples
pub mod Redis
pub mod Protoactor
