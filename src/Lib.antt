-- ===== src/Lib.antt =====
-- Ckarta: the native core of an HTTP server that hands its requests to Java servlets.
--
-- The program reads its configuration (c/core/main.c, c/config/ck_config.c). A reader takes the bytes
-- of a connection from its socket (c/http/ck_http_connection_reader.c) and drives an input through
-- them (c/http/ck_http_input.c): a request head (c/http/ck_http_parser.c), then no body, one of a
-- known length, or a chunked one (c/http/ck_http_chunked.c). The bytes of a body go to the servlet
-- thread through a ring buffer (c/http/ck_http_request_body.c). The request is followed through its
-- states (c/jni/ck_request.c, with c/error/ck_error.c), the completions of asynchronous requests
-- come from a bounded queue (c/completion/ck_completion_queue.c, with a notification in
-- c/event/ck_completion_notification.c), and are published by Java, which runs in a thread of its own
-- (c/jni/ck_jni_runtime.c, c/jni/ck_async_bridge.c). The response is collected
-- (c/output/ck_http_response.c) and sent (c/output/ck_http_output_writer.c). The loop that waits for
-- events is c/event/ck_event_loop.c; c/net/ck_tcp_listener.c and c/platform/ck_socket.c are over the
-- sockets. A connection object (c/connection/ck_connection.c) owns all of this; its one atomic word
-- decides which of several racing threads ends the connection. A table
-- (c/connection/ck_connection_registry.c) names the connections by handles and pins the objects that a
-- thread works on.
--
-- Files and code:
--   Prelude, Prelude/*   shared names, Boolean tests, machine words, lists
--   Status               the small int results: -1, -2, -3 and those from 0 on; the answers of
--                        the system
--   Http/Bytes           the byte classes and searches; Bytes/Tchar compares `is_tchar` with HTTP
--   Http/Chunked         the decoder's state and its line grammar (hex_value, append_line_byte,
--                        parse_chunk_size, valid_trailer_field, ck_http_chunked_init);
--                        Chunked/Feed is ck_http_chunked_feed, one function per state of its loop
--   Http/Parser          spans and the request line; Parser/Framing the Content-Length,
--                        Transfer-Encoding and Connection headers, with Framing/Lists and
--                        Framing/Declared on the values of Content-Length; Parser/Block is
--                        parse_header_block, with Block/Form on what it accepts; Parser/Feed is
--                        ck_http_parser_feed
--   Http/Input           ck_http_input.c; Input/Measured and Input/Order the stream behind a head
--                        with a length
--   Http/Reader          one round of ck_http_connection_reader_drive and its inner loop, with
--                        Reader/Rounds on its bounds; Reader/Drive is the outer loop with recv, with
--                        Drive/Bounds; Reader/Backpressure a sink that blocks
--   Connection           the operations of ck_connection.c; Connection/Word the packed lifecycle
--                        word; Connection/Init the allocations of ck_connection_init;
--                        Connection/Objects the four objects, ck_connection_attach_socket and
--                        ck_connection_http_recycle (Objects/Recycle); Connection/Race the steps
--                        of racing threads
--   Registry             the entries, handles, lookup and registration of
--                        ck_connection_registry.c; Registry/Operations the operations on an entry;
--                        Registry/Table what a registration does to the handles;
--                        Registry/Terminal two terminal events for one handle; Registry/Pins
--                        the pins that are out, with Pins/Steps for all operations in any order
--   Config               the directives' effects and dump of ck_config.c; Config/Tokens is
--                        ck_config_parse_token; Config/Line a line of ck_config_load_file;
--                        Config/Load its loop; Load/Startup the start in c/core/main.c
--   Output/Response      the operations of ck_http_response.c; Response/Serialize is
--                        ck_http_response_serialize_headers
--   Output/Writer        ck_http_output_writer.c; Writer/Pending the bytes that wait in it
--   Http/RequestBody     the byte queue of ck_http_request_body.c; RequestBody/Ring its ring
--                        buffer, RequestBody/Fifo what it promises
--   Event                ck_event_loop.c, with epoll as a parameter; Event/Probe is
--                        ck_io_uring_probe.c
--   Error, Request       ck_error.c and ck_request.c; Request/Metadata is ck_request_init_http;
--                        Request/Race the steps of racing threads
--   Completion/Queue     ck_completion_queue.c; Queue/Fifo what it promises; Queue/Waiting the
--                        producers that wait and the close; Queue/Lifecycle its making and its
--                        end; Queue/Wakeup producers and consumer at the same time
--   Completion/Notification   ck_completion_notification.c, with eventfd as a parameter
--   Jni/Bridge           the functions that Java calls (ck_native_publish_completion, and those of
--                        ck_async_bridge.c); Bridge/Once two of them that end one cycle
--   Jni/Env              what JNI lets the C code see of a Java thread; Jni/Calls is ck_call_start,
--                        ck_call_stop, ck_call_dispatch_async and ck_jni_async_bridge_register
--   Jni/Worker           ck_worker_main and ck_runtime_dispatch_async_smoke
--   Jni/Poll             ck_runtime_poll_completion
--   Jni/Runtime          ck_bootstrap_main and its caller in ck_runtime_init, ck_runtime_shutdown
--                        and ck_runtime_destroy as steps of two threads; Jni/Setup what they make
--   Net                  ck_socket.c and ck_tcp_listener.c
--   Descriptors          the open descriptors of the process
--   Smoke                the smoke run of c/core/main.c; Smoke/Counts the completions that it counts,
--                        Smoke/Ends its ways out
--   Tests/*              runs on concrete inputs
--
-- Conventions. A function that changes a struct through a pointer takes the struct and returns the
-- new one with the int, or with what it stores through its other pointers. A C span is the list of
-- its bytes, and a fixed array with a length is its used prefix. A pointer into the input is an
-- offset. The checks of pointer arguments against NULL are left out. A uint64_t or size_t is a
-- natural number below 2 ^ 64, and arithmetic that can wrap is written with `% 2 ^ 64`. size_t has
-- 64 bits. A result of a library call, such as that of close or malloc, is a parameter.
--
-- A connection knows its objects, and a reader its queue, by the numbers of their blocks; a store
-- maps these numbers to the objects. The bytes of a span that is handed out and not yet acknowledged
-- are kept in the input, as the caller keeps the buffer. The table of connections is a function from
-- the index.
--
-- Loops are recursion on the input, but for those with fuel. The one over the header lines reads a
-- line and its CR LF in each round, so that the number of bytes and one more is enough
-- (Block/Fuel). The inner loop of the reader spends of its budget in each round and gets one unit
-- more than the budget (Reader/Rounds); the outer one needs one more than the read budget, if no
-- recv is interrupted (Drive/Bounds). The loop over a configuration file reads a byte at least in
-- each round and gets one unit more than the file has bytes (Load/Runs). The loop that sends the
-- response has a unit of fuel for each call of send; what is proved of it holds for any fuel.
--
-- Atomic accesses are sequentially consistent here: one step of Connection/Race or
-- Request/Race is one exchange, one read or one store. The queues are locked, or have one writer
-- and one reader, whose calls are taken as whole steps, and so are the calls on the table, which
-- hold its lock. A wait on the condition is a list of
-- wake-ups, each with the queue that the other threads have left.
--
-- The Java VM is a parameter, its answers a function of the number of the call. The eventfd is one
-- too, with what its manual says of it as a hypothesis. In Jni/Runtime a step is one critical section
-- of the runtime's lock, or one stretch of code outside it; a thread that waits for the condition is
-- asleep until a broadcast, or wakes for nothing. A failed call on this lock or its condition that
-- aborts the program has no step; a failed join has one, in ck_runtime_init and in
-- ck_runtime_shutdown.
--
-- The loop that drains the notification has a unit of fuel for each read, of which two are enough
-- (Notification/Drain). The loops of the smoke run are over the lists of what they meet.
--
-- Not modelled: the probe on systems other than Linux; the lengths of the buffers for error texts; the
-- parse of the two literal requests of c/core/main.c and the texts that it prints; the length of the
-- option text in ck_bootstrap_main, whose overflow is one of the failures of its first step; and the
-- Java classes.
pub mod Prelude
pub mod Http
pub mod Status
pub mod Descriptors
pub mod Error
pub mod Request
pub mod Completion
pub mod Connection
pub mod Registry
pub mod Config
pub mod Event
pub mod Jni
pub mod Net
pub mod Output
pub mod Smoke
pub mod Tests
