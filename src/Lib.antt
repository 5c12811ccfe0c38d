-- ===== src/Lib.antt =====
-- Sentilyzer is a sentiment gateway in Go: REST, GraphQL and gRPC surfaces over one service, which
-- gathers posts on a topic from platform connectors, has a Python worker score them in batches, and
-- aggregates and caches the answer. This library models the core of the gateway and proves what makes
-- it correct. Paths are from the repository's root.
--
-- The parts, from the wire inwards, and the modules that model them:
--   Server.Status: api/internal/server/errors.go. `classify` gives each error a category, from which
--     `http_status_for` and `grpc_code_for` read the status of either protocol.
--   Server.Negotiate: api/internal/server/negotiate.go, the response format of a request, from the
--     parsed Accept header (`parse_accept`) or the `format` parameter (`format_param`).
--   Server.Creds, Server.Limits, Server.Export: creds.go, ratelimit.go and export.go beside it.
--   Server.Rest: api/internal/server/rest.go, from the decoded body (`decode_request`, `topic_of_query`)
--     through the call of the service (`handle_analyze_text`, `run_topic`) to the reply. Server.Grpc:
--     grpc.go, the same calls and the conversions to messages. Both take the service as an argument;
--     Server.Grpc.Served puts Service.Topic behind them. Server.Grpc.Carried reads the messages back as a
--     client does, and Server.Rest.Shown says what a reply shows in each format.
--   Service: api/internal/service/service.go. `Service.Text.analyze_text` is AnalyzeText and
--     `Service.Topic.analyze_topic` is AnalyzeTopic, which runs the cache key (Service.Request), the
--     cache, selectPlatforms (Service.Select), fanout (Service.Fanout), dedupeByID (Service.Dedupe),
--     the inference client and the aggregators. Its steps between the early returns are definitions
--     of their own: `gather`, `analyze_found`, `analyze_docs`, `tally_docs`, `store`.
--   Cache: api/internal/cache/cache.go, the TTL cache over an LRU.
--   Inference: api/internal/inference/batch.go and client.go. `Inference.Batch` cuts requests into
--     chunks, and `Inference.Client` sends them and puts the replies back in the caller's order.
--   Connectors: api/internal/connectors/connector.go, credentials.go and location.go: the contract of
--     a connector as a record of functions, and the registry. Connectors.Mastodon and Connectors.Strip:
--     mastodon.go and strip.go beside them, where a search is sent and what is made of the answer.
--     Connectors.Gdelt and Connectors.Fips: gdelt.go with its throttle (`reserve`) and query, and the
--     table of countries in fips.go. Connectors.Reddit: reddit.go with its token cache (`token_for`).
--   Config: api/internal/config/config.go.
--   Harvest.Corpus and Harvest.Writer: api/internal/harvest/corpus.go, the rows with the normal form of
--     their text, and CorpusWriter with its part files (`part`, `write_document`, `write_tombstone`)
--     over Harvest.Storage, the files. Harvest.Sink is what the harvesters ask of the writer, and
--     Harvest.Cursor the cursor file (`save_cursor`, `load_cursor`).
--   Harvest.Jetstream and Harvest.Bluesky: jetstream.go and bluesky.go beside it, the read loop
--     (`read_frames`, `stream`), the filter (`admit`), `handle`, and Run (Harvest.Bluesky.Reconnect).
--   Harvest.Rss and Harvest.Gdelt: rss.go and gdelt.go beside it, the document of an item and Run over
--     the feeds or the queries. Harvest.Batch is what they share.
--   Domain: api/internal/domain/domain.go, the shared types and the aggregator.
--   Errors and Outcome: Go errors as values, the pair `(value, error)` as a sum, and a call that may
--     panic. Prelude: lists, maps, strings, sorting and the tests that the parts share. Tests: concrete
--     instances and the witnesses.
--
-- How the program is modelled:
--   A string is the list of its code points, so that the order of strings is that of their UTF-8
--   bytes and `byte_len` is `len`. A map is an association list. An instant is a number of nanoseconds,
--   0 being the zero time. An int32 counter is its bit pattern modulo 2^32. A method that changes
--   state returns the new state beside its result; a mutex makes each method one step, so that the
--   callers of the throttle and of the token cache are one sequence of calls in any interleaving.
--   The goroutines of fanout write one slot each, and the order in which they finish is the argument
--   `schedule`.
--   Code outside the repository is a parameter: floating point (`Floats`, `Quality`), the LRU with its
--   documented laws (`Lru`, `IsLru`), the worker behind the generated stub (`Worker`), SHA-256
--   (`hash`), unicode.ToLower (`lower`), mime.ParseMediaType, net.SplitHostPort, url.Parse, the resolver,
--   the HTTP exchange, html.UnescapeString, the parsers of package strconv, the JSON and XML codecs, gofeed,
--   the websocket (`Connection`: the frames that it delivers, then an error), and the files with gzip,
--   the JSON encoder and the clock (`Disk`, with the laws `IsDisk`, in which the rows of a file are those
--   that its encoder has taken, whether or not gzip flushes them when it closes; `CursorDisk` for the cursor file).
--   Loops are structural recursion. Those on fuel are `ranges_from`, with one unit for each item,
--   which is enough as a chunk has at least one (chunk_ranges-Tiles), `itoa_loop`, with one more
--   unit than the number, which has fewer digits, and `strip_tags_loop`, with one unit for each
--   character, of which each round passes one or more.
--   Run of the Bluesky harvester is recursion on the list of its turns, each with what the world does
--   in it, and goes on until the context ends.
--
-- Not modelled: the entry points under api/cmd, the generated code under api/gen, the
-- resolvers of graphql.go (conversions around the calls of the service), the routing and the encoding
-- of rest.go, and the connectors for other platforms.
pub mod Prelude
pub mod Domain
pub mod Errors
pub mod Outcome
pub mod Inference
pub mod Cache
pub mod Connectors
pub mod Service
pub mod Server
pub mod Config
pub mod Harvest
mod Tests
