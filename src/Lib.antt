-- ===== src/Lib.antt =====
-- flconc is an RPC framework in C++: worker threads run coroutines over a reactor, connections
-- keep two byte buffers, a codec frames the requests, and a timer and a time wheel close what is
-- idle. This library models the parts of it that keep state of their own.
--
--  * Tcp/Buffer.antt and its children: flconc/net/tcp/tcp_buffer.h and tcp_buffer.cc. `TcpBuffer`
--    is the record of the two indices and the vector, with a function per method under the method's
--    name in snake case (`writeToBuffer` is `write_to_buffer`). `Holds b xs` in Tcp/Buffer/Refine
--    is its contract: a queue whose unread bytes are `xs`.
--  * Tcp/TimeWheel.antt: flconc/net/tcp/tcp_connection_time_wheel.cc and abstract_slot.h. The wheel
--    is a list of buckets of slots, and each round returns the slots destroyed.
--  * Tcp/IoThread.antt and Tcp/IoThread/Posts.antt: the `IOThreadPool` of flconc/net/tcp/io_thread.cc, and the
--    tasks and coroutines that it hands to its threads, which are the list of their reactors.
--  * Tcp/Connection.antt and its children: flconc/net/tcp/tcp_connection.cc. `TcpConnection` has the two
--    buffers, the state and the replies of a client; Input, Execute and `output` are the three calls
--    of a round, which `server_round` composes as MainServerLoopCorFunc does. The answers of `read_hook`
--    and `write_hook` are lists; the codec, the dispatcher and the message numbers are the models
--    below. Serve, Pipeline and EndToEnd follow requests through a round.
--  * Tcp/Client.antt and its children: flconc/net/tcp/tcp_client.cc, `sendAndRecvFlconcPb` with its loops
--    that connect and receive, over the connection and its `input`, `output` and `execute`.
--  * Tcp/Server.antt and its children: flconc/net/tcp/tcp_server.cc, the accept loop, the map of clients
--    and the registrations. Tcp/Server/Idle puts `freshTcpConnection`, the tasks of the main reactor, the
--    time wheel and the connections together. Tcp/Acceptor is `TcpAcceptor` of the same file over the system
--    calls, and the start of the server.
--  * Flconcpb and its children: flconc/net/flconcpb/flconcpb_codec.cc, flconcpb_data.h and
--    flconc/net/base/byte.h. Encode and Decode are the two directions; Stages, Fields, Scan and
--    RoundTrip prove what they do to each other, over the buffer.
--  * Comm/MsgReq.antt and its children: the message numbers of flconc/comm/msg_req.cc, which the
--    encoder draws for a request that has none.
--  * Comm/StringUtil.antt and Http/Header.antt: `SplitStrToVector` of flconc/comm/string_util.cc, and
--    `HttpHeaderComm` of flconc/net/http/http_define.cc. The loop of the first runs on fuel, the
--    length of the string.
--  * Comm/ThreadPool.antt and its children: flconc/comm/thread_pool.cc. `Reaches` are the pools that the
--    steps of the threads and of the callers lead to, in any order, with the threads asleep on the
--    condition and the signal of `addTask` that wakes one.
--  * Comm/Log.antt and its children: flconc/comm/log.h and log.cc. Log is what a statement puts into a
--    buffer, Logger the two buffers and the task of the timer, and Async the writing thread, whose
--    rounds get what the clock, `fopen` and `ftell` answer; the number of empty strings that `init`
--    pushes is an argument.
--  * Comm/Config.antt and its children: flconc/comm/config.h and config.cc, `readConf` over a tree of nodes
--    that is a parameter. A reading succeeds, ends the program with a message, or faults (Reading);
--    Describes says what a file holds and which settings that stands for.
--  * Comm/MySql.antt and its children: flconc/comm/mysql_instase.h and mysql_instase.cc with the plugin. The client
--    library is a record of functions on a state of its own.
--  * Net/ScopedLock.antt: the three scoped locks of flconc/net/base/mutex.h, as the calls on their mutex.
--  * Net/Timer.antt and its children: flconc/net/base/timer.h and timer.cc. Events live in a map from
--    addresses, since they are shared; the multimap is a list in the order of its keys.
--  * Net/FdEvent.antt and its children: flconc/net/base/fd_event.h and fd_event.cc. A method returns the
--    calls that it makes on the reactor.
--  * Flconcpb/Dispatch.antt and its children: flconc/net/flconcpb/flconcpb_rpc_dispatcher.cc. A protobuf
--    service is a parameter, a record of functions; the reply goes through `encode`. Controller is the
--    record of flconcpb_rpc_controller.cc.
--  * Flconcpb/Channel.antt and its children, Flconcpb/AsyncChannel.antt:
--    flconc/net/flconcpb/flconcpb_rpc_channel.cc, `CallMethod` over the encoder and a client, and the
--    states of flconcpb_rpc_async_channel.cc. Channel/Served puts a client and a server together.
--  * Http/Message.antt, Http/Codec.antt and its children: flconc/net/http/http_request.h,
--    http_response.h and http_codec.cc, with `SplitStrToMap` of flconc/comm/string_util.cc. `decode`
--    works on the byte buffer.
--  * Http/Dispatch.antt and its children: flconc/net/http/http_dispatcher.cc and http_servlet.cc. A
--    servlet is a function.
--  * Net/Reactor.antt and its children: flconc/net/base/reactor.h and reactor.cc. `Reactor` is the record of the
--    descriptors and the three queues, with an operation per method; Loop is `loop`, whose coroutines and
--    callbacks are a parameter that may change the reactor, while no other loop uses the queue of the process. `epoll_ctl` is a parameter too, and
--    what it registers is in Agrees.
--  * Net/Address.antt: the string form of `IPAddress` in flconc/net/base/net_address.cc.
--  * Coroutine/Memory, Pool, Switch and Mutex: flconc/coroutine/memory.cc, coroutine_pool.cc and
--    coroutine.cc, and `CoroutineMutex` of flconc/net/base/mutex.cc. The pool draws its stacks from
--    memories.
--  * Coroutine/Hook.antt and its children: flconc/coroutine/coroutine_hook.cc, the hooks over
--    Net/FdEvent; what the system calls return, before and after the yield, are arguments.
--  * Base and its children: tests into Bool, lists measured by native numbers, faults, integers, and the codes of a text.
--  * Examples and its children: the operations at concrete inputs.
--
-- Conventions. Undefined behaviour and uncaught exceptions are `none` of Option: an access outside a
-- vector or a fixed array, a copy of a negative length. `Returns m P` says that `m` is no fault and
-- that its result has the property `P`. Sizes and indices are exact numbers, and where
-- the code computes one in `int` that may leave its range (`int_size` for a new size of a buffer, the end
-- of a package in `sized_at`) the result is `none` from 2 ^ 31 on: `HasRoom b n` says that a write of `n` bytes
-- stays below. An int32_t on the wire is four bytes, with its sign; `atoi` is `strtol` cut to 32 bits. Out-parameters and
-- objects that a method changes are returned. Readings of the clock and random bytes are arguments
-- or part of the state. Loops are recursions on the list they walk, on the answers of a system call,
-- or on the number of rounds left. On fuel are the loop of `SplitStrToVector`, which gets the length of
-- the string, and that of `execute`, which gets a round for every unread byte; a successful decode
-- takes at least one byte. `decimal` has twenty digits, more than a number of the code.
--
-- Not modelled: the globals of start.cc, the reading of the options of MySQL, the signal handler of the
-- log, and the constructors that register an object with another. `execute` is that of the FlconcPb
-- codec. Locks are left out of the operations: each is one step, as under its mutex. The switch of
-- registers is assembly; the model keeps the pointers that say which coroutine runs.
pub mod Base
pub mod Comm
pub mod Tcp
pub mod Net
pub mod Http
pub mod Flconcpb
pub mod Coroutine
pub mod Examples
