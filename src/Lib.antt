-- ===== src/Lib.antt =====
-- A C++ framework for staged servers (SEDA): stages with queues and worker pools, an HTTP server and
-- a publish-subscribe message queue that are built with it. The library models the parts that carry
-- logic of their own, and takes the operating system and third-party libraries as what they are
-- documented to do.
--
-- - Base: names, lists on native numbers, 32-bit words (Base.Word), memory blocks with memcpy and C
--   strings (Base.Memory), texts split at a byte (Base.Texts), std::map as an association list
--   (Base.Dictionary), what holds of a result that is there (Base.Results). An access that C leaves
--   undefined gives `none`.
-- - SplayTree: splaytree.h and splaytree.c, the tree of the page cache. splaytree_splay,
--   splaytree_insert and splaytree_delete have the source's names; a round of the loop is `turn`, the
--   two loops that correct the sizes are in assemble_left and assemble_right. Keys and sizes are
--   32-bit patterns. The loop is bounded by the number of nodes.
-- - TaskQueue: job_queue.h and job_queue.cpp, the queue between a pool's users and its workers.
--   push_locked and pop_locked are what push and pop do once their wait is over, and
--   TaskQueue.Threads lets any number of threads call them.
-- - Buffer: buffer.h and buffer.cpp, the byte buffer that the message codec and a connection fill.
-- - MessageQueue: mq_def.cpp, the codec; MessageQueue.Server is recv_msg and accept_conn of
--   message_queue/message_queue_server.cpp, which publishes and registers by means of the codec;
--   MessageQueue.Client is what message_queue/message_queue_client.cpp sends to it, and
--   MessageQueue.Exchange puts the two together. MessageQueue.Interleaving lets the events of poller and
--   any number of workers take their rounds of recv_msg in any order, and MessageQueue.Presence follows
--   an address through such a run. MessageQueue.Peers is what becomes of the addresses that accept gives.
--   MessageQueue.Lifetime is a client from its constructor to its destructor, in the threads of
--   test_mq_client.cpp, and MessageQueue.Conns is message_queue/mq_conn.cpp.
-- - Http: http_request.cpp, with read_http_status_machine and get_params. The loop is bounded by
--   `nread`, since a round never goes back. Http.Server is readHttpRequestStatusMachine of
--   http_server.cpp, which repeats the machine over its own struct, and Http.Cache is its checkCache,
--   which looks a page up in the SplayTree.
-- - Acceptor: acceptor.cpp and connect.cpp, the handlers of an HTTP connection: read_conn pushes what
--   it reads into the Buffer, runs the parser of Http on it and arms the connection for output once a
--   request is finished; write_conn sends the file. epoll, the descriptors and the file system are
--   arguments and results. body_loop is bounded by the length of the file, of which a round takes a
--   byte at least. Acceptor.Oneshot lets the events of one connection and the workers in read_conn and
--   write_conn take their steps in any order; a round of read_conn is one step, which is the code as
--   long as one worker at most is in it.
-- - Sockets: the set-up of a server, by initServer of socket.cpp, init_acceptor of acceptor.cpp and
--   init_poller of message_queue/message_queue_server.cpp, and of a client, by connect of
--   message_queue/message_queue_client.cpp, as the calls that they make. Sockets.Kernel says what such
--   calls leave a descriptor in, as documented.
-- - Config: config.h and config.cpp. The constructor returns before it reads anything; read_config is
--   the parser behind that return. Its loop is bounded by the length of the file, since a round reads a
--   byte at least.
-- - Programs: main.cpp, the processes of the program with two stages. Programs.Handlers is
--   receiveAndResponse and searchCache, on the block of an element, and Programs.Flow puts runStage for
--   both stages in a row.
-- - Redis: redis_client.h and redis_client.cpp, what a client of hiredis points to.
-- - Seda: seda.cpp, the stages of a program and the edges between them.
-- - Stage: one stage. IElement.h, a round of receiver::run in receiver.cpp, sendMsg in sender.cpp and
--   handlerFunc in stage_handler.cpp are functions on bytes, which Stage.Pipeline puts in a row;
--   Stage.Threads lets the receiver, the thread of stage_handler::run with receiver::fetchOne, and
--   the workers take their steps in any order; Stage.Init is the start of the pool by stage::init in
--   stage.cpp, on the threads of the TaskQueue, and Stage.Launch the race of runStage in main.cpp with
--   the thread that it has started. Stage.Startup is the set-up of the sockets by sender::init and
--   receiver::run, and Stage.Answers what a run of the threads sends. Stage.Objects is what the constructors of
--   function.h, stage.cpp and stage_handler.cpp write.
-- - Loop: loop.cpp, the event loop of a stage, whose read_conn fills the Buffer.
-- - WorkerPool: worker_pool.h and worker_pool.cpp, the workers that take tasks from the TaskQueue.
-- - Logger: log.h and log.cpp. debug formats a line in at most two rounds, the second with all the
--   room that the first asked for; write_log writes it, or queues it in the TaskQueue for the thread
--   of log_from_queue.
-- - SedaObject: seda_object.h and seda_object.cpp, an object that counts its references.
-- - UtilTools: utiltools.cpp, the string hash, meant for the keys of the SplayTree.
--
-- Not modelled: console output, the creation of threads, epoll, ZeroMQ, hiredis, vsnprintf, and failing
-- allocations. A round of recv_msg is a step of its own, though the server takes no lock, and so is a call
-- of handlerFunc, which reads the shared element; bytes that write reads beyond its block have no value. The handlers
-- of main.cpp call getPersistData and setPersistData, which have no body; tcp_server.cpp and
-- event_core.cpp call members that their classes do not have. The other programs only call the parts
-- above.
pub mod Base
pub mod SplayTree
pub mod TaskQueue
pub mod Buffer
pub mod MessageQueue
pub mod Http
pub mod Acceptor
pub mod Programs
pub mod Redis
pub mod SedaObject
pub mod Sockets
pub mod UtilTools
pub mod Seda
pub mod Stage
pub mod WorkerPool
pub mod Logger
pub mod Loop
pub mod Config
