-- ===== src/Lib.antt =====
-- fast-server: an HTTP server in Go on its own event loop, with routers, middleware, WebSocket,
-- SSE and an RPC protocol. This library models the parts that decide what bytes mean and where a
-- request goes, and proves what they promise.
--
-- The parts and how they work together. The engine reads bytes from a connection and hands them
-- to `ParseRequest` (core/http/parser.go), which fills a request of the pool
-- (core/http/request.go). A router (core/router) finds the handler of a method and path,
-- middleware (core/middleware) runs before it, and the handler answers on a context
-- (core/http/context_fd.go). Beside HTTP, clients and servers of the RPC protocol
-- (core/rpc/client, core/rpc/server) exchange frames (core/rpc/protocol), and a connection that
-- was upgraded carries WebSocket frames (core/websocket).
--
-- Files.
-- - Base: bytes, lists and association lists over the native numbers, searches in text, and the
--   names that the other files share. A Go string or []byte is a list of numbers, a map an
--   association list in which the first entry of a key counts.
-- - Rpc/Protocol: core/rpc/protocol/frame.go. `Frame`, `encode` (Encode), `decode_header`
--   (DecodeHeader), `decode` (Decode), `get_frame_size` (GetFrameSize), `set_flag`, `has_flag`.
--   Wire has facts on the header, RoundTrip and Errors the theorems on encoding and decoding.
--   Stream is the reading half of Server.handleConn and Client.receive: `server_read` and
--   `client_read` are one round of the loops, `handle_conn` and `receive` the loops
--   (Stream/Ends: they end), on fuel of one more than the length of the stream, since each round
--   takes at least the 16 bytes of a header.
-- - Rpc/Client: core/rpc/client/client.go. `check`, `register` and `transmit` are the three
--   parts of Client.Go between which other goroutines can come in, `take_call` and `end_call` those
--   of Client.handleFrame (`handle_frame` is both), `close` and `drain` those of Client.Close. Calls has the
--   invariant, Steps the relation of all interleavings and what it keeps.
-- - Rpc/Registry: core/rpc/registry/service.go, over what reflection tells of a service; Laws
--   has its theorem. Rpc/Server: core/rpc/server/server.go, `handle_request`, `handle_ping` and
--   `serve`, the bytes that handleConn writes for the bytes it reads; Answers has its theorems.
--   Rpc/Server/Connections: the same file's connections. `serve_step` (Serve), `handler_step`
--   (handleConn) and `shutdown_step` (Shutdown) are steps of goroutines, in any order;
--   Invariant and Counts are about the table and the count of requests, Drained about a Shutdown
--   that has returned.
-- - Http/Request: core/http/request.go and the accessors of core/http/context_fd.go:
--   `set_header`, `reset`, `header` (FDContext.Header), `query_value` (FDContext.Query). Headers
--   has its theorems.
-- - Http/Parser: core/http/parser.go. `parse_request` (ParseRequest) follows the source from the
--   request line on; `parse_headers` (parseHeaders) has the number of header bytes as fuel, and
--   each round takes a byte. `panic` is the run-time panic of an index out of range. Lines,
--   Target and HeaderLines treat the parts of a message, RoundTrip and Rejects the whole.
--   Spaces are those of bytes.TrimSpace, with the Unicode ones in UTF-8 (`skip_spaces`).
-- - Http/Context: core/http/context_fd.go, with appendInt and statusText of
--   core/http/context.go. `set_param`, `param`, `reset_context` and the other operations of
--   FDContext; Params and Digits have the theorems on parameters and on `append_int`
--   (appendInt), whose count of digits has the number itself as fuel. Respond has the responses
--   (`data_response` and its kin) and `write_response`, the loop of writeResponse on the list of
--   the kernel's answers; Framing has their theorems.
-- - Middleware: core/middleware/pipeline.go. Pipeline has `execute` and `execute_async` (Execute
--   of Pipeline and of AsyncPipeline), Order and Async their theorems, and RateLimiter the rate
--   limiter.
-- - Router/Radix: core/router/radix.go, the tree of nodes. Insert has `add` (Add), `add_route`
--   (addRoute) and `insert_child` (insertChild) with their panics as values of `Added`; Lookup
--   has `find` (Find) and `get_value` (getValue). The loop of addRoute runs on fuel of one
--   more than the length of the path and the number of nodes: a round that goes on is at a smaller
--   tree or takes a parameter off the path; that of insertChild on the length of the path, of which
--   each round takes a wildcard. Total and Total/Paths show that this is enough. A lookup recurs on
--   the tree. Static treats routes
--   without wildcards: its own file how a lookup takes the tree apart, Split the split of an
--   edge, Grow and Enter a registration at a node and below it, Loop the loop, Table the routes
--   as a whole.
-- - Router/Fast: core/router/fast.go. `add` (Add), `find` (Find), `find_param_route`
--   (findParamRouteFast) and `hash_route` (hashRoute), which fall back to the radix tree. Table is
--   about static routes, Params about routes with one parameter.
-- - Router/Compiled: core/router/compiled.go. `add` (Add) with `add_segments` (addParamRoute), and
--   `find` (Find), which returns the router with its cache. Cache compares it with a lookup
--   without one, Segments treats routes with parameters, Ascii the panics of a lookup.
-- - Engine: core/engine.go. The table of connections and one function for each method:
--   `accept_connections`, `handle_connection_event`, `handle_read`, `handle_bytes` (handleRead
--   behind the read), `process_request`, `check_keep_alive`, `close_connection`, `cleanup`
--   (cleanupIdleConnections); `handle_event` is a round of Run or of the ticker. What the kernel,
--   the poller, the clock and the context pool give comes with an event, and an outcome has what
--   was written. The clean-up runs between two events here; in the program it is a goroutine of
--   its own. Invariant and Events have what holds between events, Reads is about requests in
--   parts, Routes about the way from their bytes through parser and router to a handler, Idle about
--   the clean-up, Crash about panics, Digits about appendInt, which has the number itself as fuel.
-- - WebSocket/Frame: core/websocket/conn.go, the bytes of WriteFrame (`frame_bytes`) and
--   `read_frame` (readFrame), with RoundTrip and Limit. WebSocket/Conn: `write_frame`, `close`
--   and `read_message` (ReadMessage) of one connection, as seen by one goroutine; its loop has
--   one round of fuel more than there are bytes to read, and a round takes two. Messages is
--   about whole messages, Ends about the loop, Close about closing.
-- - WebSocket/Hub: core/websocket/hub.go. Clients stand in a heap by address, as the map, the rooms
--   and the channels share them. `run_register`, `run_unregister` and `run_broadcast` are the
--   cases of run, `register_client` and its kin the calls. Broadcasts, Invariant and Rounds are
--   about one round, Steps about all interleavings of rounds and calls. A round is one step: what
--   the pumps send to unregister during it comes before or after it here.
-- - Http/Standard: core/http/context.go, the context on a net.Conn. `acquire_context_for_conn`,
--   `set_param`, `param`, `send_data` and its kin, and `serve_file` (ServeFile) by what the file and
--   the connection are. Slots compares the parameters with those of Http/Context, Files the
--   responses.
-- - Http/Pipelining: core/http/pipelining.go. `read_requests` (ReadRequests) is a batch, with at most
--   as many rounds as the handler allows, and `handle_pipelined` (HandlePipelinedConnection) the
--   loop, on fuel of one more than there are reads: each round but the last takes one. Here a later
--   read changes what the requests before it share with the buffer (`reread`), and a request is
--   reset, and perhaps used again, before its Connection is tested (`released`). Order has the
--   theorem.
-- - Pools/Workers: core/pools/worker_pool.go. `submit` (Submit) and `worker_step`, a step of run of
--   one worker, with `try_steal` (trySteal); the queues are a table by worker.
--   Kept is about submissions, Effort bounds the steps that are left, Drained is about the run
--   until nothing is left.
-- - Pools/BytePool: core/pools/byte_pool.go, the size classes with `get_bytes` (Get), `get_buffer`
--   (GetBuffer) and `put_bytes` (Put); what a sync.Pool gives is an argument. Classes has the
--   theorem.
-- - Observability/Monitor: core/observability/monitor.go. `record_request` (RecordRequest) with
--   `update_min_max` and `update_latency_bucket`, on counters that wrap, `detect_bottlenecks`, and
--   traces at a time. Totals has the theorem.
-- - Sendfile/FileCache: core/sendfile/sendfile.go. `get` and `close` of the cache of open files, with
--   the files that are open as a table, and `send_file`, the loop of SendFile on the list of the
--   kernel's answers. Recency is about the list of paths, Evict about the oldest file, Sound has
--   the theorem.
-- - Config/Manager: config/manager.go. `set_value`, `get_value`, `watch` and their kin on lists of
--   keys, `load_from_map` (loadFromMap) and `load_from_env` (LoadFromEnv), with strings.ToLower as a
--   parameter that lowers ASCII letters. Nested is about nested objects, Environment about variables.
-- - Config/Getters: config/manager.go, the typed getters (`get_int` for GetInt, and so on) on values of
--   any type, with floats and durations as parameters. Typed is about variables of the environment.
-- - Sse/Event: core/sse/broker.go, `format_event` (FormatEvent) and the clients with their channels
--   (`send`, `close`); Format has a reader of event streams.
-- - Sse/Broker: core/sse/broker.go, the broker. `run_new`, `run_dead` and `run_message` are the cases
--   of run, the others its calls; `Step` is a part of a call, a case, a tick or a receive; `register` and `send_new` are Register. No
--   Close runs inside a Send (which would panic), and calls of Register do not overlap. Bounds is about
--   sizes, Entries about the map, Reach about whom a message reaches.
-- - Sse/Handler: core/sse/handler.go. `connect` and `loop_step` are HandleConnection, with the writes
--   that succeed and what `select` takes as arguments; `Run` is a run among calls of others.
--   Delivery is about what its reader gets.
-- - Tests in each part: runs on small inputs.
--
-- Not modelled: system calls and pollers, net/http and golang.org/x/net/http2, the
-- encodings of third-party packages, printing and metrics export, which are I/O or not of this
-- repository; the aliasing of a parsed request with the read buffer (unsafeString), but for
-- pipelining; Unmarshal of the configuration, which uses reflection; the other object pools, SSE streams and
-- rooms, the eBPF tracer, the RPC codecs and the handshake of WebSocket.
mod Base
pub mod Rpc
pub mod Http
pub mod Router
pub mod WebSocket
pub mod Middleware
pub mod Sse
pub mod Engine
pub mod Pools
pub mod Config
pub mod Observability
pub mod Sendfile
