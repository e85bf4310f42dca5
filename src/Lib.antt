-- ===== src/Lib.antt =====
-- A verification library for go-framework, a service framework over gRPC.
--
-- Parts, and where they are modelled:
-- * Registry (registry/registry.go, registry/notifier.go, registry/memory.go): the registry in
--   memory. Memory has one function for each method of MemoryDiscovery; it gives the new entries and
--   the calls made on the notifier. Concurrent makes the part under the mutex and each notification a
--   step of its own, with a client that reads and then watches; Serial and Gap prove. Watcher is
--   memoryWatcher: a state record, and the ways in which Next can return as a relation.
-- * Balancer (balancer/internal/balancer.go, balancer/internal/addr_info.go,
--   balancer/picker/picker.go, balancer/roundrobin/balancer.go): the address list, the callers that
--   wait, and the round-robin picker. It reads the updates that Registry's watcher sends.
-- * Retry (internal/retry, retry/retry.go): the queue of attempts; Retry/Schedule is a call of Invoke
--   with its goroutines as threads that run in any order (start, step, steps); Retry/Controller the
--   ids of running calls; Retry/Policy the policies and the wrappers that exchange them. Threads,
--   OneTask, Attempts, Stuck, Hang and Wrappers prove.
-- * Config (config/internal/config_impl.go, source.go and filter.go there, config/watcher): the
--   configuration over sources of rising levels. Config has the operations, Config/Filter the
--   namespaces, Config/Notifier the watchers, Config/Passed the notices that a view passes on; Levels,
--   Updates, Deletions and Lookup prove. Config/Tree is the tree of keys of
--   config/internal/prefix_tree.go, with its proofs in Refines and Search, Config/Views are
--   the views of view.go there, and Config/Values the accessors of value.go.
-- * Encryption (lib/encrypt.go): encrypted values of the configuration, and their round trip.
-- * Interceptors (interceptor/chain.go): chains of interceptors.
-- * Http (http/matcher.go, header.go, registry.go): the tree of path patterns, with AddPattern and
--   matchInternal, in Http; Http/Components splits paths, Http/Template converts variables, and
--   Http/Headers is MatchWithMeta with the header rules. Stored, Added and Sound prove.
-- * Discovery (registry/discovery.go, registry/meta.go): the watcher of a registry that picks addresses.
--   Discovery has the gRPC entries (receive_event is OnUpdate and OnDelete), Discovery/Rules the HTTP
--   rules and picks, which use Http, and Discovery/Down the addresses that are down. Entries,
--   Registered, Checks, Served, ServedTree and HttpPicks prove.
-- * Pool (dialer/internal/pool/pool.go): the slots of a pool of connections; dial is Dial, and dial_slot
--   what it does on its slot. Slots proves, over sequences of calls for a slot.
-- * Stream (stream/grpc_stream.go): the in-process stream between a client and a server. Stream is one
--   direction: the goroutines in Send, Close and Recv of _StreamInternal, which run statement by
--   statement in any order (advance, step, steps). Stream/Header is headerWrapper in the same way,
--   and Stream/Calls the calls of the client and of the server, one at a time. NoPanic, InOrder,
--   Header/Fixed and Calls/Status prove.
-- * Control (control/control.go, control/wrapper.go, control_plugins/config.go): the policies that
--   control calls. Control keeps them by method (policy_of_call), Control/Policies reads them from a
--   configuration, Control/Wrapped completes them. Fresh, Codes and Normal prove, over the five kinds
--   of Control/Kinds.
-- * Timeout (timeout/timeout.go): a call under its limit, whose caller waits beside the goroutine of the
--   handler (pass_moment); mode_of decides on the limit by the policy that Control returns. Answers
--   proves.
-- * RateLimit (rate_limit/rate_limit.go, export.go): the limiters, which follow the policies that Control
--   returns (limit_call). Follows proves.
-- * Uri (uri/uri.go): ParseUri over the registered parsers, and SimpleUriParser, which makes entries of
--   a configuration of a URI. Entries proves.
-- * HttpServer (server/internal/http_server/cors.go): the origins that the settings of CORS allow
--   (newCorsHandler, isOriginAllowed), with their wildcards. Origins and
--   Permitted prove.
-- * MemoryRegistry (memory_registry/registry.go, dialer.go): the services of the own process with
--   their aliases. Names and Failed prove.
-- * Tracing (tracing/reqid.go): request ids in metadata and headers; Tracing/Chain follows them over a
--   chain of calls, each handler being the client of the next.
-- * Lifecycle (lifecycle/lifecycle.go, option.go): the hooks at the beginning and at the end.
--
-- Conventions. A Go map with text keys is an association list, and the order of the list stands for
-- the order of a range. A method that a mutex guards is one step. Channels are the lists of what
-- they hold, with their capacity as the guard of a send. Interface values that the code only passes
-- on or compares are type parameters or numbers. Numbers are unbounded where the code counts the
-- elements of a list in memory; ids of attempts wrap at 2 ^ 32 and backoff delays at 2 ^ 64.
--
-- Fuel: the round-robin loop has as much as there are addresses, the conversion of a template one more
-- than its bytes, a call of a stream that runs alone eight statements, which are more than it has,
-- and the loop over the blocks of a cipher the number of blocks.
--
-- Not modelled: log and error texts, TLS and certificate issue, the HTTP and gRPC servers over their
-- third-party libraries, plugin start-up by reflection, and vendored code; nor circuit_breaker,
-- log, hooks, the rest of tracing and of dialer, and the life of a view (Watch and Close).
pub mod Base
pub mod Registry
pub mod Balancer
pub mod Retry
pub mod Config
pub mod Encryption
pub mod Interceptors
pub mod Http
pub mod Discovery
pub mod Pool
pub mod Stream
pub mod Control
pub mod Timeout
pub mod RateLimit
pub mod Uri
pub mod HttpServer
pub mod MemoryRegistry
pub mod Tracing
pub mod Lifecycle
