-- ===== src/Lib.antt =====
-- xty, a C++ library for processes and threads that send each other messages, over containers of
-- its own: what its parts compute, and that they compute what they are for.
--
-- The program. Containers (a red-black tree, a map over it, a doubly linked queue and an array)
-- take their memory from an xtyAlloc. Messages are serialized into buffers by an array of entities
-- that several threads share, and read back on the other side of a socket. A message queue, an event
-- counter and a message loop carry them between the jobs of a thread or process; a server accepts
-- clients, registers them in a map and passes data messages on; a session is its client.
--
-- The files. Base and Comparable are what all modules share: tests on numbers, lists, and the order
-- that the containers ask of their data.
--
-- RbTree (src/xty_rbtree.h) is the tree. Nodes linked by three pointers are a tree with a cursor in
-- it, a focus and the frames on the way up to the root; m_Sentinel is the leaf. insert and search
-- are in RbTree.antt, delete in RbTree/Delete.antt, xtyRbTreeIterator in RbTree/Iterator.antt. The
-- fix-up loops run on fuel, the length of the way up and one or two more: each round of InsertFixUp
-- but the last goes up two frames, each of DeleteFixUp goes up one or is followed by the last, and
-- the theorems on the fix-ups hold for this fuel. RbTree/Sorted and RbTree/Remove say on sorted
-- lists what the tree is to do. m_NodeCount is kept modulo 2 ^ 32.
--
-- Map (src/xty_map.h) has each method of xtyMap, over RbTree at pairs that compare by their key;
-- Map/Laws reads a map as a function from keys to values. The data that a method returns by pointer
-- is what the model returns, and a store through it is Map.write.
--
-- Msg (src/xty_msg.h and .cpp, src/xty_msg_serialization.h and .cpp): Msg/Stream has the two
-- overloaded __Serialize and __DeSerialize, Msg/Wire the methods of the classes and the entity that
-- calls them, Msg/Entities the acquiring and releasing of entities. sizeof(size_t) is the parameter
-- `word`, and addresses are numbers below 256 ^ word at which pointer sums wrap. A read or a call of
-- what is not there is the outcome `fault`.
--
-- Queue (src/xty_queue.h) has the doubly linked nodes in a memory from addresses to nodes, with the
-- sentinel among them; Queue/Fifo shows that they are a list. The address of a new node comes from
-- the allocator, and is assumed to be none that is in use.
--
-- MsgQueue (src/xty_event.cpp, src/xty_msg_queue.cpp) has one step for what is done under one lock.
-- MsgQueue.antt is the thread version, with the waiting and waking of a condition variable, spurious
-- wake-ups included; MsgQueue/Process the version for processes, with a semaphore, and MsgQueue/Solo
-- what holds there while one process at a time takes messages out.
--
-- Pool (src/xty_pool.h, src/xty_pool.cpp) has DoPoolAllocate on the list of a pool's nodes; addresses
-- have 64 bits. What posix_memalign and malloc answer with is a parameter, and of posix_memalign it
-- is assumed that its chunks are aligned and do not overlap. The sizes of the classes are parameters.
-- MemoryCleanUp is the list of the addresses that it frees.
--
-- Text (src/xty_global_function.h) has the functions on strings and numbers, at 16 and 32 bits by a
-- parameter; a std::string is the list of its characters.
--
-- Server (src/xty_msg_server.cpp) has the handlers that the message loop calls, over Map, MsgQueue
-- and the entities of Msg; client entities are in a memory of their own, since the maps hold their
-- addresses. Comparable/Strings is the order of std::string.
--
-- Array (src/xty_array.h) has the array that doubles its memory, as cells that hold a value or none.
--
-- Conf (src/xty_conf_parse.cpp and .h) has the parser of the configuration as the state machine that it
-- is; Conf/Lines says line by line what a file means. A file is the list of its bytes, and the buffer
-- has 4096 of them; a file that fills it is the outcome `fault`, since the loop then leaves it.
--
-- Loop (src/xty_msg_loop.cpp, src/xty_msg_callback.cpp) has the table of call-back functions, a Map, and the
-- loop over the messages that come. Its context is the server.
--
-- Epoll (src/xty_msg_server_epoll_job.cpp) has what the server does at a new connection, at the end of
-- one and at bytes from a client, over Server, Msg and MsgQueue; Epoll/Steps has the steps of the
-- server's threads, in any order. What accept and read answer is a parameter. `delete` of a client
-- entity takes its address out of the list of those in memory.
--
-- Msg/Reuse has what all senders do with a message: Serialize, the comparison of the lengths, and
-- ReleaseEntity. Sender (src/xty_msg_server_send_job.cpp) passes a data message on to clients of the table.
-- Session (src/xty_session.cpp and its two jobs) has what a session sends and receives, by rounds of its
-- jobs; Session/Passage follows a data message through the server.
--
-- SharedPool (src/xty_shared_pool.cpp) has the pool in shared memory over the nodes of Pool. The address at
-- which the system attaches the segment of a project id is a parameter; that different ids have
-- segments that do not overlap is assumed where it is needed.
--
-- RbTree/Visit has NonRecursiveVisit, with the lines that it prints as a list. Its fuel is the number of
-- layers. Epoll/Descriptors has the end of a connection as the two steps that it is for the other
-- threads, `close` and what is done under the lock.
--
-- In Sender, another thread may take the entity of a message once it has been released: what then stands
-- at the message's address is a parameter. In SharedPool, created_over is what a process finds in its pool
-- when another process has created one on the same segment.
--
-- Not modelled: allocation that fails; the visits and operators << that print, but for the layered
-- visit of the tree; threads, sockets, epoll, semaphores and the attaching of shared memory, which
-- are the system's; the log; the start and the end of the server and of a session.
pub mod Base
pub mod Comparable
pub mod RbTree
pub mod Map
pub mod Msg
pub mod Queue
pub mod MsgQueue
pub mod Pool
pub mod Text
pub mod Server
pub mod Array
pub mod Conf
pub mod Loop
pub mod Epoll
pub mod Sender
pub mod Session
pub mod SharedPool
