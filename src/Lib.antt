-- ===== src/Lib.antt =====
-- Resolix: the DNS server of an agent, its response cache, its filter and routing decisions, and
-- the telemetry it sends to a controller (webgui/internal).
--
-- A query comes in at package dnsserver, where access lists and a rate limiter (dnsserver/acl.go)
-- decide whether it goes on, and package clients finds the profile of its client. The filter
-- (package filter) may block it, rewrites (package rewrites) and routes (package dnsroutes) decide
-- on an answer or on an upstream, the cache (dnsserver/cache.go) answers what it holds, and
-- cache_pipeline.go fetches the rest from the pool of upstreams (package upstream) and stores it: concurrent misses for one key share a fetch, and
-- an invalidation keeps a response that was fetched before it out of the cache. Every query is
-- reported as an event to package forwarder, which queues it within a bound, sends batches to the
-- controller, and persists what is queued. Package api serves the web interface, whose sessions and
-- failed logins it keeps.
--
-- Files:
--   Common: Boolean tests, lists with native lengths, association lists for Go maps, bytes of Go
--     strings with the functions of package strings that the code calls, signed integers.
--   Addresses: what the code uses of package net, as an interface, with an instance for tests.
--   Files: what a write of a file leaves.
--   Cache (dnsserver/cache.go): Entry has cacheKey, cacheEntry and remainingTTL; Store has newCache,
--     get, getStale, set, clear, reconfigure and invalidate with their counters. The list `ll` and
--     the map `items` are one association list, most recent first. The rest are theorems: on the
--     invariant (Invariant, Run), on what a later get returns (Lifetime), on the displaced entry
--     (Eviction, and Recency on when its key was used), on the counters (Accounting) and on invalidate (Invalidation).
--   Filter (package filter): Rules has matches and matchDomainSuffix, Indexes has buildRuleIndexes
--     and firstIndexedMatch, each for one of the two lists, allow and block; Decision has Match and
--     Explain; First, Built and Search
--     carry the comparison of the two searches to Equivalence. Regular expressions are those of
--     package regexp and a parameter.
--   Pipeline (dnsserver/cache_pipeline.go): Storing has storeInCacheWithSource,
--     storeInCacheIfGeneration, ClearCache, the three targeted invalidations and ApplySettings, with
--     the generation that each advances; Resolve has resolveViaCacheOrUpstream with the upstream's
--     answer as a parameter; Flights has beginMissFlight and completeMissFlight as steps of a
--     system; refreshAsync, which fetches outside the table of flights, is left out. Theorems: Entries
--     on the entry made of a response, Lifetimes, Generations, Domains, Answers, Flights.
--   Forwarder (package forwarder): Queue has NewForwarder, EnqueueEvent, the loop of loadBacklog,
--     finishInFlight, requeueBatch and dropPersistTrimmed; Delivery has one round of Start, with
--     the flag that sendBatch leaves, permanent and calculateBackoff; Persist has encodeBoundedBacklog with json.Marshal as a
--     parameter. Steps has the DNS path, the delivery loop and the persistence
--     loop as a step relation, in which each section under the queue's mutex is a step, and so is each
--     update of an atomic counter or flag outside it.
--   Rewrites (rewrites/rewrites.go): Rule has domainSpecificity and sourceSpecificity, Lookup has
--     lookup, Store has Replace, Add, Update, Delete and what they write; the prefixes are those of
--     package netip and parameters.
--   Routes (dnsroutes/dnsroutes.go): matchPattern, the order of sortRoutes and
--     GetUpstreamForDomain.
--   Clients (clients/clients.go and persist.go): Profile has Client.compile, Registry has Add, Update,
--     Delete, Replace, validateConflicts, Load and reload with what they write, Find has Registry.Find.
--     Theorems: Consistent and Changes on every sequence of changes, Owner on what Find returns.
--   Access (dnsserver/acl.go, pipeline.go, dnsserver.go and runtime.go): Clientnets has parseCIDRList,
--     cidrListContains, isInternalClientIP and clientKey; Limiter has rateLimiter with allowAtRate and
--     cleanup; Gate has ServeDNS and the first stages of Resolve, with New and ApplySettings for what
--     they read. The map `buckets` and the list `order` are one association list. Theorems: Spent on one
--     call, Rate and Paced on all calls of a client, Permitted on the gate.
--   Upstream (upstream/parse.go and pool.go): Spec has Parse, NormalizedKey and ValidateBootstrapServers
--     over what they use of the standard library; Message has ECS and DNS64; Stats has the counters, the
--     circuit breaker and the latency ring; Pool has NewPool and what changes its lists; Exchange has
--     healthy, the three modes, Exchange, ExchangeRoute and ExchangeSpecs, with the replies of the network,
--     the random draws, float64 and the order of a race as parameters. Theorems: Valid on Parse, History
--     on the statistics of exchanges that do not overlap, Order and Failover on reaching an upstream.
--   Sessions (api/security.go and api.go): Table has newSession, validSession, the lookups and the deletions;
--     Login has the limiter of failed logins.
--     Theorems: Bounded on the table, Abstract against the history of a token, Issued on one session, Backoff on the limiter.
--
-- Conventions: a Go int, int64 or uint64 that never nears the bounds of its type is a natural
-- number, or an integer of Common/Int where it can be negative; conversions to uint32 wrap. Times
-- are nanoseconds. A method is a function from the state before to the state after, with its
-- result; a mutex is not a state, since what is done under it is one step. The loops of Go are
-- structural recursion over what they range over. Fuel has the loop of weightedOrder and the one that
-- evicts sessions, each as much as the length of its list, which Upstream/Order and Sessions/Bounded
-- show to be enough; the rounds of the delivery loop are counted, and the theorem on them says how
-- many are enough.
--
-- Tokens of the rate limiter are counted in billionths, in which a refill is a whole number: the
-- rounding of float64 is not modelled.
--
-- Not modelled: sockets, HTTP handlers, SQL, files beyond what a write leaves, timers and
-- goroutines. In a race of upstreams the replies are a list in the order in which they come, and
-- those behind the first answer count in the same step. exchangeContext updates the statistics of an
-- upstream by separate atomic operations without a lock, which are one step here. The bootstrap resolver, the metrics of the
-- pool, the blocklist, the policy of safe search, the configuration and the rest
-- of the web interface are left out, as is the order of stages around the cache in
-- dnsserver/pipeline.go, and the reload of dnsroutes/dnsroutes.go.
pub mod Common
pub mod Access
pub mod Addresses
pub mod Cache
pub mod Clients
pub mod Files
pub mod Filter
pub mod Pipeline
pub mod Forwarder
pub mod Rewrites
pub mod Routes
pub mod Upstream
pub mod Sessions
