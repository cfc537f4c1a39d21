-- ===== src/Lib.antt =====
-- A model of ggt, a worker that reads events from Kafka topics, runs them through pipelines of
-- transforms and sends the results on.
--
-- The parts, and the code that each file is about (paths from the repository's root):
--
-- - Prelude and its children: Boolean tests on the native numbers, byte strings, signed integers,
--   association lists for maps, and `sort.Strings`.
-- - Value: the dynamic values behind `interface{}` in a payload.
-- - Event: pkg/event/event.go. `clone`, `get_field`, `set_field` and `remove_field` are Clone,
--   GetField, SetField and RemoveField; Event/Paths walks the keys of a path, Event/Laws is about
--   whole paths, Event/Copies about copies. Event/Builder is pkg/event/builder.go.
-- - Pipeline: internal/transform/pipeline.go and transform.go, with the registry
--   (internal/transform/registry.go) in Pipeline/Registry and NewPipeline in Pipeline/Build. A
--   transform is a name and a function.
-- - Worker: the handler of cmd/transform/main.go (`handle`), with the loop over several events
--   (`deliver_from`) and the key of each (`append_index_to_key`); Worker/Start gives each
--   input topic its pipeline.
-- - Transforms: the transforms of internal/transform: field/add.go, field/remove.go,
--   field/extract.go and field/rename.go in Transforms/Add, Remove, Extract and Rename,
--   split/array.go in Transforms/SplitArray, filter/split.go in Transforms/SplitFilter,
--   filter/route.go in Transforms/Route, filter/condition.go in Transforms/Condition,
--   data/split.go and data/join.go in Transforms/Split and Transforms/Join and
--   validate/required.go and rules.go in Transforms/Required and Transforms/Rules, each with
--   `configure` and `execute` for Configure and Execute.
-- - Condition: the language of conditions of internal/condition/condition.go, which filters, routes
--   and rules use: Condition/Scan walks through a text, Condition/Parse is Parse and parseUnary,
--   Condition/Eval is Evaluate.
-- - Aggregate: internal/transform/aggregate; Aggregate/Count is count.go and
--   Aggregate/Window window.go.
-- - HttpClient: internal/enrichment/http/client.go, which joins the cache, the breaker and the
--   retrier; `get`, `get_json` and `post_with_options` are Get, GetJSON and PostWithOptions.
-- - RedisClient: internal/enrichment/redis/client.go. RedisClient/Commands has its calls (`get`,
--   `hget`, `set`, `delete` and the others, under their names); RedisClient/Calls says what any
--   calls come to, with and without the cache.
-- - PostgresClient: internal/enrichment/postgres/client.go. `prepared_stmt` is PreparedStmt, and
--   Query, Exec and QueryRow are in PostgresClient/Queries; PostgresClient/Recency says what the
--   cache of statements promises, PostgresClient/Steps lets goroutines interleave.
-- - Transforms/EnrichHttp, EnrichRedis and EnrichPostgres: the transforms of the enrichment.go beside
--   each client; Transforms/Template is interpolateTemplate. Transforms/Convert and
--   Transforms/Mask are convert.go and mask.go of internal/transform/data.
-- - Consumer: the fetch loop of internal/consumer/kafka.go (`fetch_loop`), with the handler and the
--   broker as arguments; Consumer/Offsets is internal/consumer/offset_manager.go,
--   and Consumer/Processor the goroutines of internal/consumer/processor.go.
-- - Shutdown: internal/shutdown/coordinator.go.
-- - Cache: internal/enrichment/cache.go. Cache/Spec says what the cache promises, Cache/Rep joins
--   the map and the linked list, and Cache/Refinement relates the two.
-- - Breaker: the circuit breaker of internal/enrichment/http/circuit_breaker.go. Breaker/Races
--   lets goroutines interleave between the two critical sections of Allow.
-- - Retry: the retrier of the same file; its run is a trace of calls, drains and waits.
-- - Tests: each part on concrete inputs.
--
-- The consumer hands records to the worker's handler, which decodes a payload, makes an event of
-- it, runs the pipeline of the topic, and encodes and sends what comes out. Pipelines are made from
-- the registry. The HTTP client of the enrichment uses the cache, the breaker and the retrier, the
-- Redis client the cache; the enriching transforms use the clients.
--
-- State is passed on explicitly. A reading of the clock, the outcome of a send or of a request,
-- the broker, JSON and float arithmetic are arguments. Maps are association lists; the order of
-- one stands for the order of a range loop over it, which Go leaves open. The loops of the source
-- are structural recursions; the retrier's runs on the rounds that are left, `MaxRetries` at the
-- start, and the digits of a number on its value and one, which is more than the digits it has. The
-- parser of conditions runs on two steps for each byte and two more: a step either makes the text
-- shorter or goes on from Parse to parseUnary.
--
-- Not modelled: logging, the metrics and health servers, the client libraries of Kafka, HTTP, Redis
-- and Postgres, reading the configuration, hashes, codecs and regular expressions; the remaining
-- transforms. The maps of an event builder are values, not shared. Slices of a payload are those of
-- []interface{} and []string, trimming knows the white space of ASCII, and a Redis server has no clock
-- by which keys expire. The panic of a ticker whose interval is not positive, the deadline of a
-- handler, the content of a drained body and the moment between filling a window and emitting it are
-- left out.
pub mod Prelude
pub mod Value
pub mod Event
pub mod Breaker
pub mod Retry
pub mod Cache
pub mod Pipeline
pub mod Worker
pub mod Aggregate
pub mod Condition
pub mod Consumer
pub mod HttpClient
pub mod PostgresClient
pub mod RedisClient
pub mod Shutdown
pub mod Transforms
pub mod Tests
