-- ===== src/Lib.antt =====
-- PromSketch distributed: a cluster that takes in metric samples, keeps sketches of them on
-- several nodes, and answers queries from the sketches or from a backend.
--
-- The program's parts. pskinsert (internal/pskinsert/router) takes samples in and sends each to
-- the nodes that hold its metric: internal/cluster/hash maps a metric's name to a partition,
-- and a partition to a primary node and its replicas; internal/cluster/health says which nodes
-- may be asked, by health checks and a circuit breaker for each node. pskquery
-- (internal/pskquery/merger) and the monolithic internal/query/router answer queries:
-- internal/query/parser extracts what is needed from the syntax tree,
-- internal/query/capabilities decides whether the sketches can answer, and the rest falls back
-- to the backend. The nodes' server is internal/psksketch/server, and internal/storage behind
-- it keeps the sketches of the partitions that a node owns. internal/backend/forwarder.go sends
-- the samples on to the backend in batches; internal/ingestion hands every series to the storage
-- and to the forwarder. cmd/pskctl/backfill.go writes samples of the past into the cluster.
--
-- The modules:
--   Common             booleans, lists, integers, results, maps and counters
--   Cluster.Partition  internal/cluster/hash/partitioner.go
--   Cluster.Breaker    internal/cluster/health/circuit_breaker.go
--   Cluster.Health     internal/cluster/health/checker.go
--   Insert.Router      internal/pskinsert/router/router.go, Insert
--   Insert.Batch       internal/pskinsert/router/router.go, BatchInsert
--   Startup            internal/cluster/config.go, discovery/static.go, internal/pskinsert/client, and
--                      what cmd/pskinsert/main.go does up to the router; Startup.Settings
--                      internal/pskinsert/config/config.go
--   Query.Parser       internal/query/parser/parser.go
--   Query.Capabilities internal/query/capabilities/registry.go
--   Query.Steps        the labels, windows and steps that the two routers of queries share
--   Query.Router       internal/query/router/router.go
--   Query.Api          internal/query/api/handlers.go
--   Query.Merger       internal/pskquery/merger/merger.go, and Eval of
--                      internal/psksketch/server/grpc.go
--   Targets            internal/storage/matcher/matcher.go, Matches
--   Storage            internal/storage/storage.go and partition/partition.go; Storage.Spec is
--                      the specification that it refines, all partitions as one function
--   Server             internal/psksketch/server/grpc.go, Server.Cluster the router before it, and
--                      Server.Settings internal/psksketch/config/config.go
--   Ingestion          internal/ingestion/pipeline, and Ingestion.Stats internal/ingestion/stats
--   Backfill           cmd/pskctl/backfill.go
--   Forwarder          internal/backend/forwarder.go
--   Latency            internal/pskquery/merger/quantile.go
--
-- A function of the source has its name in snake case. A method that changes its object returns
-- the new one; an error is a value of a data type with one constructor for each message; the
-- clock and the answers of calls over the network are arguments, and the order in which
-- goroutines finish is an argument too, so a theorem holds for every order. Partition numbers
-- are integers. Counters are 64-bit words that wrap. Code of libraries (xxhash, metricsql,
-- Prometheus's labels, gRPC, the PromSketch library) is a parameter. The PromSketch library draws
-- random numbers; its parameter is what it does in one run, after all that a partition has been
-- through, so a theorem for all such parameters holds for every run. Storage.Runs compares two runs.
-- Where the source ranges over a map, the order is an argument or the claim is up to the order.
--
-- Bounds: the loop of a range query over its steps runs on fuel, and one round for each
-- nanosecond from the start to the end, and one more, is enough for every positive step. The
-- loop of a backfill over its chunks runs on fuel too, and one round for each hour is enough. The
-- other loops are by recursion on a list or on a count that the source fixes.
--
-- Not modelled: locks and deadlines, durations, the merger's calls of its latency trackers,
-- Prometheus metrics and logging, HTTP and gRPC transport, the parsing of the targets' and the
-- memory limit's texts, the configuration's files, Kubernetes discovery, the user interface, and
-- the commands but for the backfill and the start of pskinsert. internal/promsketch is a copy of
-- another project's library, and a parameter.
pub mod Common
pub mod Cluster
pub mod Insert
pub mod Startup
pub mod Query
pub mod Targets
pub mod Storage
pub mod Server
pub mod Forwarder
pub mod Ingestion
pub mod Latency
pub mod Backfill
