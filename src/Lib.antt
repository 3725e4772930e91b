-- ===== src/Lib.antt =====
-- bordercontrol is the server that feeders of aircraft data connect to. Its parts, and the modules
-- that model them:
--
--   bordercontrol/lib/feedprotocol  FeedProtocol: the protocols BEAST and MLAT, their names and JSON.
--   bordercontrol/lib/stats         Stats: which connections are registered, and the byte counters.
--       Stats.State has the data of stats.go (`Statistics` with its nested maps), Stats.Feeders and
--       Stats.Connections the operations, one function each, returning the new state beside the
--       error; a write to a nil map is `panics`. Where a function takes `stats.mu` twice, what it does
--       under each hold is a function of its own (`init_feeder_stats`, `add_connection`,
--       `set_feeder_details`). Stats.Requests is stats_nats.go, the answers to requests
--       (Requests.Routing has the subjects); Stats.Collectors the list of collectors in
--       stats_prom.go, and Stats.Gauges the global gauges and counters. Stats.Api has the two
--       requests of the HTTP API, Stats.Lifecycle `Init`, `Close` and `initNats`. Stats.Refinement is
--       a specification, a function from a feeder, a protocol and a number to the connection that is
--       registered there; Stats.Threads interleaves the holds of the lock of several goroutines. The
--       other children have the invariant and the proofs.
--   bordercontrol/lib/feedproxy     FeedProxy: Tracker is the tracker of incoming connections (their
--       numbers and the limit for each source address; Tracker.Threads has several goroutines that
--       check), Feeders the list of valid feeders, Auth the authentication of a feeder, Refresh.Loop
--       the loop of `updateFeederDB` and Refresh what it does to the feeders, Dial the address of a
--       container, Starting `ProxyConnection.Start` (Starting.Threads has several of them at the
--       limit of connections, Starting.Serving those that are registered, Starting.Numbered those that
--       have a number), Proxying one direction of `protocolProxy`, Lifecycle `Init` and `Close`.
--   bordercontrol/lib/atc           Atc: the client that fetches the list of feeders.
--   bordercontrol/lib/containers    Containers: Create starts a feeder's container, Worker is the
--       goroutine that serves `FeedInContainer.Start` over two channels, as a step relation, Check
--       removes containers with an old image, Check.Loop calls it again and again, Kick and Rebuild
--       are the requests of operators, Lifecycle is `Run` and `Stop`.
--   bordercontrol/lib/nats_io       Nats: the connection to NATS, and which messages are for this one of
--       several instances.
--   bordercontrol/lib/listener      Listener: `NewListener`, with the parts of strings and strconv that
--       it uses, and in Listener.Loop the loop of `Run` that accepts connections.
--   bordercontrol/lib/stunnel       Stunnel: the certificate and its reload on a signal, as a step
--       relation of the goroutine, the signals and `Close`.
--   bordercontrol/cmd/bordercontrol Server: `runServer`, which starts the subsystems, listens and closes
--       them, in Server.Listening `listenWithContext`, which it calls for BEAST and MLAT, and in
--       Server.Subscriptions the subjects of NATS that the starts subscribe to.
--
-- `FeedProxy.Starting.start` composes them: a connection is checked by FeedProxy.Tracker,
-- authenticated by FeedProxy.Auth against the list that Atc fetched, limited and registered in Stats,
-- and for BEAST its container is started by Containers. It returns what it does to its surroundings as
-- a list of effects, the newest first. FeedProxy.Proxying.Reports puts the reports of both directions
-- of `protocolProxy` among the calls of Stats. `Server.run_server` composes the life cycles.
--
-- Go's maps are association lists (GoMap); the nested pointers of the source are only aliased inside
-- the one lock of each operation, so a write to an inner map is a write of the whole path. An API key
-- (a UUID) is a number. Times are nanoseconds. `uint64` and `uint` arithmetic is modulo 2^64. The one
-- loop on fuel is that of `getNum` (`FeedProxy.Tracker.get_num_loop`), with one round for each tracked
-- connection and one more: the numbers tried differ, so that one of them is free. The loops of
-- `protocolProxy`, of `updateFeederDB`, of the listener, of `listenWithContext` and of the check of
-- containers are recursions on the rounds that their surroundings give them; those of
-- `listenWithContext` end once the context is done. What several goroutines do is a step relation.
-- Stats.Threads and FeedProxy.Tracker.Threads have a step for each hold of a lock. Starting.Threads,
-- Starting.Serving and Starting.Numbered of FeedProxy take a whole call of the statistics as one step,
-- though some hold `stats.mu` twice: Stats.Threads shows when the calls are as if made one after the
-- other, and Stats.Races what may happen when they are not.
--
-- The functions of the gauges sum as `float64`; here they are numbers, which
-- is the same up to 2^53. Goroutines are counted where a wait group counts them.
--
-- Not modelled: addresses that are nil, on which `UnregisterConnection` panics (an address is its
-- text), logging, the end of the program by `log.Fatal` if the HTTP server of the statistics fails,
-- the template of the HTML page and the marshalling into JSON, the flags and `logNumGoroutines` of
-- the command, and the calls of crypto/tls. The subscription for a reload of the certificate
-- (`ReloadCertOnNatsMsg`) is modelled, but called by nothing. What a package of a third party
-- answers (HTTP, TLS, NATS, Docker, DNS, Prometheus) is an argument of the definition that uses it.
mod Prelude
pub mod GoMap
pub mod FeedProtocol
pub mod Stats
pub mod FeedProxy
pub mod Atc
pub mod Containers
pub mod Listener
pub mod Nats
pub mod Stunnel
pub mod Server
pub mod Tests
