-- ===== src/Lib.antt =====
-- chn-resolver: a DNS resolver that asks all its upstreams at once and chooses, by rules, between
-- the addresses of servers in China and those of servers abroad.
--
-- How the parts work together. `handleRequest` (internal/server) answers a query of type A or AAAA
-- by `Lookup` and hands any other to the upstreams. `Lookup` (internal/resolve) serves a query
-- from the LRU cache (internal/cache) or resolves it. `Resolve` (internal/engine) starts a
-- goroutine for each upstream, which runs `Chase` (internal/upstream): one query after the other
-- along a chain of CNAMEs. The outcomes come over a channel; when all are in, when rule 1 is
-- decided, or when the context ends, `finalize` lets `Select` (internal/policy) choose the
-- addresses, with the index of prefixes (internal/china) and the override list
-- (internal/overrides) for its two tests.
--
-- Which file models which part:
--   Policy     internal/policy/policy.go: `Select`, `FinalizeNegative`, `SelectTTL`
--   Engine     internal/engine/engine.go: `Resolve`, `earlyStable`, `finalize`; Engine.Fan:
--              the goroutines and the channel of `Resolve`, step by step
--   Upstream   internal/upstream/chase.go and client.go: `Chase`, `Exchange`, `Category`
--   China      internal/china/index.go: `Build`, `Contains`, `Counts`; internal/china/loader.go in
--              China.Loader: `ParsePrefixLine`, `LoadFrom`, `Load`
--   Overrides  internal/overrides/overrides.go: `New`, `LoadFrom`, `Match`
--   Cache      internal/cache/cache.go: `Get`, `Set`, `Flush`, `Len`, the eviction, the sweep, the janitor
--   Flight     internal/cache/flight.go: the callers of `Do`, step by step
--   Service    internal/resolve/service.go: `Lookup`, `resolve`, for one caller of a key
--   Server     internal/server/handler.go and forward.go: `handleRequest`, `synthesize`, `forward`; the
--              size of `truncateForUDP` of server.go; Server.Listener: `serveUDP`, `serveTCP` and the
--              goroutines of `handleDatagram` and `handleTCPConn`, step by step, with both transports on;
--              Server.Frames: `handleTCPConn` over the bytes of a connection, and `handleDatagram`
--   Metrics    internal/metrics/metrics.go: `New`, `counter`, `RecordUpstreamResult` and its kin, `Write`
--   Config     internal/config/config.go: `Defaults`, `build`, `Load`; Config.Duration is `ParseDuration`
--   Startup    cmd/chn-resolver/main.go: `loadConfig`, `loadAssets`, `classifyUpstreams`, what `main` makes
--              of the configuration, and `handleReloads`; Startup.Main: `main` from its flags to the
--              sockets that `ListenAndServe` opens
--   Net, Text, Dns  what the program uses of net/netip (with its parsers), strings and miekg/dns:
--              addresses as numbers below 2^32 and 2^128, names as lists of code points, messages as
--              records
--   Prelude    tests, lists and numbers that all share
--   Tests      runs on small data, and the theorems applied to it
--
-- How code becomes definitions. A struct is a record and a function a definition of the same name
-- in lower case; a loop is a recursion over what it ranges over. A Go map is an association list
-- or the list of its keys. The channel and the context of `Resolve` are a list of events in the
-- order in which its `select` takes them, and `none` is a loop that still waits. A round of
-- `Chase` observes the context, the deadline and the replies over UDP and TCP, which are
-- functions. A list element of the cache has an identity that stands for its pointer, the map
-- holds identities, and `none` is a pointer that is not in the list; times are nanoseconds, and
-- the clock is a function from the number of a reading to its value. Locks are held from the start
-- of an operation to its end, so an operation is one step; the callers of `Do` are a relation
-- between states, with a step for each section under the lock, for the close of the channel and
-- for each return of a waiter. A reply is the request that it answers and what the handlers set on
-- it, and the counters that a handler touches are the list of its increments, which Metrics applies.
-- The goroutines of `Resolve` and of the listeners, and the callers of `counter` in Metrics.Racing, are
-- relations between states in the same way: a goroutine of `Resolve` is the outcome that it is going
-- to send, one of a listener and a caller of `counter` are the phases that they are in. A round of a
-- connection has its own answers of `Lookup`, since the cache changes between them. Hit and miss counters
-- of the cache do not wrap, those of Metrics do. The configuration is
-- the record that the TOML decoder fills, an `int` is an integer without bounds, a duration is a
-- number of nanoseconds, and an error message is a value with what it prints. Cache.Spec is the list
-- that the cache stands for. What arrives on a connection is a list of bytes, and `Pack`, `Unpack`
-- and `Truncate` are parameters; so are the files and the sockets that `main` opens.
--
-- Fuel. `Chase` recurses on the hops that are left and on the names that wait. The binary search
-- has the length of its range as fuel and halves it; a round that would read out of range yields
-- `none`. The eviction loop has the length of the list as fuel and removes an element in each
-- round. `handleTCPConn` has a number of rounds as fuel, and one more than the bytes that arrive is
-- enough, since a round takes at least two. The remaining seconds keep the conversion to uint32; the
-- other numbers are compared and copied only.
--
-- What is not modelled. The zone of an IPv6 address beyond its parser. The lower case of letters
-- beyond ASCII. The TOML decoder, which is a parameter. Floating point: the fraction of a duration
-- is cut off exactly. The timers behind the deadlines, the time limit of the drain, and the bytes
-- of a datagram before `Unpack`. The order of equal lower ends after `sort.Slice`; a panic of the
-- function that `Do` runs; what a data race on the map of an
-- upstream does; how a line of metrics is printed; the logs, the summary, the signals and
-- the HTTP server of cmd/chn-resolver; internal/testdns, a server for the tests of the repository.
pub mod Prelude
pub mod Net
pub mod Text
pub mod Dns
pub mod China
pub mod Overrides
pub mod Upstream
pub mod Cache
pub mod Flight
pub mod Service
pub mod Server
pub mod Startup
pub mod Engine
pub mod Config
pub mod Policy
pub mod Metrics
pub mod Tests
