-- ===== src/Lib.antt =====
-- A chat server in C++ (server/) and its Android client, whose native part is C++ too
-- (android/app/src/main/cpp/). Client and server exchange packets over TCP: one byte of version,
-- two of command, four of payload length, and the payload. The server decodes the payload of a
-- request, calls its database and its cache, and posts responses and notifications to the write
-- queues of connections.
--
-- The model is a shallow embedding. Bytes are numbers below 256 and std::string is a list of bytes;
-- an int is a ℤ (Base/Int), and the casts to and from machine words keep their wrap-around. A
-- decoder returns an Outcome: `ok`, `malformed` for its `return false`, and `fault` for a read
-- outside the buffer, which C++ leaves undefined. size_t has 64 bits, so sums of lengths in memory
-- do not wrap; sums in uint32_t are taken modulo 2 ^ 32.
--
-- Files and the code that they model:
--   Base       numbers, tests, lists, integers and maps that all modules share
--   Outcome    results of decoders, and what holds of them (Ensures, Returns)
--   Wire       write_* and read_* of ProtocolCodec, server/src/protocol_codec.cpp; the client's are
--              written alike. Bounds: which bytes they read; RoundTrip: what they read back
--   Protocol   CommandCode, ErrorCode, the structs, encode and decode of a packet,
--              server/include/qqchat/protocol_codec.hpp and server/src/protocol_codec.cpp
--   ServerCodec  the decoders of requests and encoders of responses, server/src/protocol_codec.cpp
--   ClientCodec  the same of the client, android/app/src/main/cpp/protocol_codec.cpp
--   RoundTrip  client and server codec together, per request and response; Both: all of them
--   ChatClient the client, android/app/src/main/cpp/chat_client.cpp. Reassembly and Stream: read_loop;
--              Answers: handle_packet; Session: the requests; Worker: the
--              threads of connect and disconnect, with Status, Leak and Leftover
--   Services   the interface of DatabasePool and CacheManager that the handlers use, and SHA256;
--              a parameter of the server, about which nothing is assumed
--   Server     Connection, ConnectionManager and the acceptor, server/src/connection_manager.cpp
--              and server/src/chat_server.cpp. Connection objects stand under their addresses
--   Handlers   MessageHandler, server/src/message_handler.cpp, and the completion of a body
--   Io         what a run of a method ends with (a result, `return false`, an exception, a read of
--              unset memory), and the actions on the state of a client library
--   Mysql      the client library of MySQL, a parameter, and the buffers that the code binds to a
--              row. Calls: the calls that every method makes on its statement; Ledger: a library
--              whose caller is watched; Bookkeeping and Counts: what holds of it; Selected: a select
--              that returns
--   Database   DatabasePool, server/include/qqchat/database_pool.hpp and
--              server/src/database_pool.cpp: the queue of connections here; Users, Friends and
--              Messages: the methods on the tables; Rows: the loops over rows; Calls: the pool with
--              its methods as a machine, and the states that it reaches; the rest are proofs
--   Redis      hiredis, a parameter, with its replies. Books: a library whose caller is watched
--   Cache      CacheManager, server/include/qqchat/cache_manager.hpp and
--              server/src/cache_manager.cpp: context, lock, keys and commands here; Presence,
--              Counters and Pipeline: the methods; Calls: any method; the rest are proofs
--   Config     trim, safe_stoi and get_config_value, server/src/main.cpp
--   Start      the settings that main reads and what it makes of them, server/src/main.cpp
--   Events     the event loop: a step per completion of an asynchronous operation, in any order
--   Examples   runs of the theorems at concrete inputs
--
-- The server runs on one thread (io_context_ is made for one and run once), so that a step is a
-- whole handler, and a wait on a condition variable or for a mutex that is held is a wait for ever:
-- such a call has the result `blocked`. The mutex of the cache is a field of its state, since one
-- method may call another while it holds it; the mutex of the pool is never held during a call.
--
-- The loops of the codecs are structural recursions on their counters. The loop that cuts packets
-- off the client's buffer has the length of the buffer as fuel, which is enough since each round
-- takes seven bytes at least. The loops over the rows of a result have the number of rows as fuel,
-- an argument of the methods; a run that uses it up ends with `endless`. It is enough to pass one
-- more than the rows of the result set. `async_read`, `async_write` and the client's `send` are
-- taken to complete with all their bytes or an error.
--
-- The client libraries of MySQL and Redis are parameters: records of functions on a state of their
-- own, which may answer anything at any time. A theorem that needs more of them names it as a
-- hypothesis (a result set is finite, a connection that is lost can be made again). A buffer that
-- no fetch has written is `unset`, and code that reads it ends with `bad_read`; std::string(nullptr)
-- throws. A watched library keeps a book of the handles that are open and of the calls that go
-- wrong, such as a handle that is freed twice.
--
-- The client has two threads, the one that calls it and its worker. Their steps are the statements
-- of connect, disconnect and run, each with the calls in it, and come in any order; the accesses to
-- socket_fd_, which C++ does not order, are taken to come one after the other. A call of the system
-- that waits may still succeed after the other thread has closed its socket.
--
-- Not modelled: the JNI bridge (native-lib.cpp), the signal handler (main.cpp), the Java user
-- interface, the schema and the scripts, and log lines. The handlers are stated over Services, whose
-- operations always return; the pool and the cache are modelled on their own and are not put in its
-- place. Connection::stop is not called by the program.
pub mod Io
pub mod Mysql
pub mod Database
pub mod Redis
pub mod Cache
pub mod Base
pub mod Outcome
pub mod Wire
pub mod Protocol
pub mod ServerCodec
pub mod ClientCodec
pub mod RoundTrip
pub mod ChatClient
pub mod Services
pub mod Server
pub mod Handlers
pub mod Config
pub mod Start
pub mod Events
pub mod Examples
