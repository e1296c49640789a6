-- ===== src/Lib.antt =====
-- A verification library for the asynchronous event loop: an HTTP server around an epoll reactor.
--
-- How the program works. `main` of src/server.cpp makes a reactor and a listening server and starts
-- to listen. The reactor waits for epoll, queues what is reported by priority and runs the closure
-- that is registered for the descriptor. The closure of the listening socket accepts a client, makes
-- a connection object and registers a closure for it; that one calls `handleEvent` of the connection,
-- which feeds what arrives to llhttp. The callbacks of llhttp collect the request, and at the end of
-- a message call the application, which writes a response into the connection's buffer and asks for
-- the event that the socket is writable. When the response has gone out the application deletes the
-- connection.
--
-- Which file models what, operations under their names in snake_case:
--   ThreadSafeMap     include/thread_safe_map.h, over the associations of UnorderedMap
--   SocketUtilities   include/socket_utilities.h, over the system calls of Kernel
--   Reactor           include/reactor.h, over the contract of PriorityQueue
--   Http              include/data_types.h; Http.Callbacks and Http.Response model the callbacks of
--                     the parser and `serialize` of include/connection_types.h
--   Connection        the rest of `Clientconnection` of include/connection_types.h, over Heap;
--                     Connection.Handling is its `handleEvent`, and Connection.Interface the
--                     class `Connection` that it derives from
--   Server            include/listening_server.h, over the interface of connections;
--                     Server.Accepting is about the clients beside a new one
--   Application       src/server.cpp; Application.Serving, .Safety, .Events, .Transmitting, .Service,
--                     .Rounds and .Lifetime follow events through the queue, the closures, the parser
--                     and the application, .Runs follows single events; .Message, .Incoming, .Requests and
--                     .Exchange follow a request in, .Arrival has what is sent of its answer, and .Visit
--                     follows a client through the rounds of the event loop; .Isolation and .Bystanders
--                     are about the clients beside it; .Startup is about a server that cannot start
--   Standalone        src/temp.cpp, an older server in one file; Standalone.Startup is its `main`, with
--                     the calls that set it up in .Startup.Choice, and .Serving, .Handlers, .Clients,
--                     .Events and .Lifetime follow its events to their connections
--   Demo              main.cpp, a demonstration of the parser
--   Client            src/client.cpp, a client that sends one request
--   Base, Outcome     shared helpers, and how a run ends: with a value or in a fault
--   Tests             concrete inputs, with a small system, a queue and a parser
--
-- How the code is rendered. Descriptors and results of calls are integers; strings and buffers are
-- lists of bytes. The system, llhttp, std::priority_queue and the order in which std::unordered_map is
-- iterated are not in the repository and are parameters: `Kernel`, whose documented behaviour is in the
-- records of laws, `Parser`, `PriorityQueue` and `order`. Closures are values of the data type
-- `Callback`, which `run_closure` interprets, and the application's functions values of a type
-- `Handler`, which `call` interprets. A pointer to a connection is an index into a heap; `delete`
-- leaves a hole behind, and a read through a pointer to a hole is the fault `use_after_free`. The
-- methods of the map hold its lock from start to end, so each is one step. `event_queue_` is private
-- and is passed along beside the rest of the reactor.
--
-- Bounds. The loop that drains the queue has as many rounds as the queue has events, and the loop over
-- `send` one more than the buffer has bytes: both are proved to be enough, whatever the callbacks and
-- the system do. The loop over `recv` has a bound of its own, which is enough once it is as large as
-- the number of answers before the first that is not data. `reactor_run` does not end by itself and
-- takes the number of its rounds.
--
-- A descriptor is due while an event of it waits in the queue: the server is in order when each descriptor
-- that is watched or due leads to new clients or to a live connection of its own. `epoll_wait` reports
-- a descriptor once, so that a connection that is deleted is not due.
--
-- The server of src/temp.cpp has bounds of the same kind.
--
-- Not modelled: messages to the streams, except for the standard output of main.cpp, addresses as
-- text, the scratch buffers, allocation failures, src/api.cpp (a sketch that does not compile) and
-- include/llhttp.h (another project's).
pub mod Base
pub mod UnorderedMap
pub mod ThreadSafeMap
pub mod Outcome
pub mod Kernel
pub mod SocketUtilities
pub mod PriorityQueue
pub mod Reactor
pub mod Http
pub mod Heap
pub mod Connection
pub mod Server
pub mod Application
pub mod Standalone
pub mod Demo
pub mod Client
pub mod Tests
