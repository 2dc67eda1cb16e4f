-- ===== src/Lib.antt =====
-- bserver: a server that takes requests from other servers over long-lived TCP connections,
-- turns each into an HTTP call, a search in MongoDB or a call of a Python script, and sends the
-- answer to the connection that is registered under the name with which the request came in.
--
-- The parts and how they interact. Every connection is a `session_base`. Its reads put a
-- `message_format` together, a header of three words and a body, and push it on the one
-- `session_task` queue. Worker threads pop a message and call `do_work`, which chooses a handler
-- by the command of the header; the handler makes the bytes of an answer, and `response` frames
-- them and writes them to a connection that a registry finds by name. A queue that is too long
-- changes the command of a message to 1010, so that it goes to the handler for a busy server.
--
-- Which file models what:
--   Message    include/msg_head.h, include/message_format.h, src/message_format.cpp: the frame,
--              `encode_header`, `body_combine` and `decode_header`. Message/Words is the byte
--              order.
--   Session    include/session_base.h, src/session_base.cpp: `start`, `handle_connect`, `write`
--              and the handlers of completed reads and writes, with `do_head` of
--              src/client_session.cpp and `after_body_get` of src/logic_deal_processing.cpp,
--              which they call. An operation of boost::asio that is under way is a field, and its
--              completion a call of the handler. Session/Reads lets the completions follow from a
--              stream of bytes, Session/Writes lets writes and completions interleave in every
--              order.
--   Tasks      include/task_base.h, src/task_base.cpp, src/session_task.cpp: the queue.
--   Threads    the same queue with all worker threads at once: the mutex, the condition, the
--              exceptions of tasks, and how include/io_service_provide.h stops the workers.
--   Peers      include/peer_handle_map.h, src/peer_handle_map.cpp: `peer_handle_map`, for the
--              connections of clients, and Peers/Client `peer_handle_map_for_client`, which also
--              lists the names of each server. Peers/Filled, Holes, Opened, Pick and Registry
--              are about its members.
--   Http       httpclient/curl_base.cpp: the options that a call sets.
--   Proto      the protobuf messages as far as the handlers read them, and the record `Env` of
--              all that the handlers call outside the program.
--   Responders the handlers: httpclient/,
--              embeded_python/python_func_service_responser.cpp,
--              src/group_responser.cpp, include/group_service_request_responser.h.
--   World      what the workers share: registries, the sessions behind the handles, the queue.
--   Logic      src/logic_deal_processing.cpp and src/task_responser.cpp: the choice of the
--              handler and the way of an answer. Logic/Push is
--              httpclient/server_service_response_responser.cpp, which sends one answer to every
--              session of a client. Logic/Standard is the handler that
--              overrides nothing.
--   Serving    the way of a request: the reads of a connection, the queue, and `work` of
--              src/task_base.cpp with `do_work` of src/session_task.cpp. Serving/Workers is what
--              `init_cache_map` opens for each worker, Serving/Crew all workers over one queue, with the
--              tasks that they have in hand.
--   Acceptor   include/peer_handle_server.h, src/peer_handle_server.cpp: the accept loop with the
--              registry of clients, and the handlers of accepted sessions as steps.
--   Peering    src/client_session.cpp, src/server_session.cpp, src/peer_handle_client.cpp: how a
--              connection enters its registry and leaves it. Peering/Heart is a round of
--              src/heart_task_thread.cpp over the map of servers, Peering/Aborted a turn of its
--              thread where the resolver throws, and Peering/Callback what src/configwrap.cpp
--              connects. Peering/Beginning is the start and the first round together.
--   Config     src/configwrap.cpp, include/configwrap.h: the map of servers and the counters, and
--              in Config/Init `init` and `init_zookeeper`, as the actions of Config/Action, which
--              go on, return -1 or throw.
--   JsonPush   src/json_parser.cpp, include/json_push_packet.h, src/json_push_packet.cpp: push
--              packets as JSON.
--   Startup    main.cpp: `main` and the thread that ends the program, as lists of what they do.
--              Startup/Ending lets both take their steps in every order, with signals.
--   Sender     include/system_tool.h: the senders with which a server is tried out. Sender/Lines are
--              the commands that start them.
--   Pool       include/io_service_provide.h: the round robin over `io_service` objects.
--   Base       numbers, bytes, lists and `std::map` as the other modules use them.
-- The modules called Tests hold runs on small inputs, and Responders/Samples an environment for
-- them.
--
-- Conventions. A byte is a number, a string a list of bytes. A 32-bit word is its bit pattern and
-- wraps at 2 ^ 32; the conversion of a negative length to `size_t` is written out. A session is
-- known by a handle, a number, and a null `shared_ptr` is `none`; two registries can hold one
-- handle, so that a write through one is seen through the other. Each member that locks its mutex
-- for the whole of its body is one step; Session/Writes, Tasks/Order, Peers/Pick, Threads,
-- Serving/Crew and Startup/Ending let such steps follow each other in any order.
--
-- Bounds and fuel. A header has 12 bytes and a body at most 1024 * 1024. `feed` of Session/Reads
-- has fuel, one unit for each completed read, and its theorem gives the fuel that a stream takes:
-- two units for each frame. `decimal` has as much fuel as the number is large, and a number has
-- fewer digits than that. All other loops follow a list or a count.
--
-- Parameters, for code outside the repository or generated: the protobuf parsers and serialisers,
-- libcurl, MongoDB, ZooKeeper, jsoncpp, the Python interpreter, property trees, `split` and
-- `lexical_cast` of boost, `rand`, and the words that a constructor leaves as the memory has them.
-- They may return anything; a theorem that relies on what one of them returned says so. In the
-- handlers of tasks they always return: that an exception there ends the worker is in Threads.
--
-- Not modelled: sockets and the scheduling of threads; src/peer_base.cpp, which holds an
-- `io_service`; the log; the test sender of include/system_tool.h whose body is commented out;
-- embeded_python/python_status_ensure.h and python_call_base.h, which take the lock of the Python
-- interpreter for a call; a worker whose cache of sessions did not open, when it pushes an answer,
-- since `get_session` of include/session_task.h then follows a null pointer; and the vendored jsoncpp
-- and ffpython. In Tasks and Serving the unlocked reads of `stop_` and of the length of the queue are
-- taken as reads between two steps.
pub mod Base
pub mod Message
pub mod Session
pub mod Tasks
pub mod Peers
pub mod Http
pub mod Proto
pub mod Responders
pub mod World
pub mod Logic
pub mod Pool
pub mod Config
pub mod Peering
pub mod Serving
pub mod Acceptor
pub mod JsonPush
pub mod Startup
pub mod Threads
pub mod Sender
