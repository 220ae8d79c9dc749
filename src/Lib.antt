-- ===== src/Lib.antt =====
-- Verification of SocketServerLib: several versions of one C++ game-server library, which
-- differ in how they wait for sockets. This development models the most complete version,
-- IOCP_TCP+UDP/RacingGameServer/RacingGameServer (paths below are in that folder unless they
-- say otherwise), and the core of two others, Epoll/LT/EpollServerLib/EpollServerLib for Linux
-- and SelectAPI/Windows/SelectServerLib/SelectServerLib.
--
-- A client has a slot, a Connection. What the system receives for it is stored in the
-- SlideBuffer of the slot (IOCPCore::DoTCPRecv), and the job threads cut messages off its front
-- (GameServer::ParseReq). An answer is written to a PacketData, which SendMsgTCP puts in the
-- SendBuffer of the slot; at most one send per slot is under way, whose completion takes what
-- went out off the ring and starts the next. The other two servers have a SlideBuffer for each
-- direction of a client, ask the system themselves whether a socket can be read or written, and
-- queue one job per message.
--
-- - SlideBuffer (SlideBuffer.cpp, SlideBuffer.hpp): the receive buffer. SlideBuffer/Fifo has
--   its view as a byte queue, SlideBuffer/Trace any sequence of calls, SlideBuffer/Overflow
--   lengths near 2 ^ 32, SlideBuffer/Hold the queue that a buffer holds, for the servers that
--   use it.
-- - PacketData (PacketData.cpp, PacketData.hpp): one outgoing message. PacketData/Wire has what
--   the peer reads of it, PacketData/Storage its blocks.
-- - SendBuffer (SendBuffer.cpp, SendBuffer.hpp): the ring of packets. SendBuffer/Ring says when
--   a ring holds a queue, SendBuffer/Push, Pop, Gather and Allocate are one operation each,
--   SendBuffer/Walk is the walk over the slots that two of them make, SendBuffer/Queue has the
--   bytes of a queue.
-- - Connection (Connection.cpp, Connection.hpp): the slot. Connection/Send has its send
--   operations branch by branch, Connection/Link a connection with the system below it, where a
--   WSASend may fail (Connection/Link/Stuck), Connection/Framing the messages in the bytes
--   received, Connection/Stream the chunks in which they come (IOCPCore.cpp: DoTCPRecv,
--   GetReqMsg, PopReqMsg), Connection/Stale a slot that is used again.
-- - Core (IOCPCore.cpp, IOCPCore.hpp): the table of slots and the map of UDP tokens.
--   Core/Registry says when the map is right, Core/TokenMap and Core/Change what one change
--   does to it, Core/Tokens each operation, Core/History any history of them, Core/Datagram
--   whose datagram it is, Core/Negative the clock below zero, Core/Dispatch the handlers that
--   WorkerThread calls for a completion, with what that does to the packets of UDP sends in
--   Core/Dispatch/Release, Core/Handlers these handlers and a completion with all its calls,
--   Core/Shutdown the end of its threads. A token is made from a clock value, which is an
--   argument; of a datagram the token in its header is.
-- - SpinLock (SpinLock.cpp, SpinLock.hpp): the lock and its guard, over any interleaving of
--   threads. SpinLock/Count counts the owners, SpinLock/Exclusion has what the lock is for.
-- - Job (Job.cpp, Job.hpp, NetworkMessage.hpp): a request, from its bytes to the packet that
--   answers it. Job/Create has which messages CreateJob takes, Job/Answer what the client reads
--   of the answer, Job/Datagram the same over UDP, Job/Fault which datagrams CreateUDPJob
--   takes.
-- - GameServer (GameServer.cpp, GameServer.hpp; Core/Udp: IOCPCore::SendMsgTCP, SendMsgUDP and
--   DoUDPSend, UDPSendContext.cpp): the call that takes a client's requests one by one,
--   executes and answers them. GameServer/Send is the answer on its way into the ring,
--   GameServer/Round one round on an echo request, GameServer/Serve a call on many,
--   GameServer/Resume an answer that could not be sent, GameServer/Datagram a request over UDP,
--   GameServer/Arrival a datagram from its completion to its job, GameServer/Stuck a message
--   that no job is made for.
-- - ThreadPool (ThreadPool.cpp, ThreadPool.hpp: ThreadPool): the queue that calls of HandleReq
--   wait in, and its threads. ThreadPool/Steps is any interleaving of their steps,
--   ThreadPool/NoneLost where the jobs are, ThreadPool/Crew when the workers sleep,
--   ThreadPool/Resize the number of threads, ThreadPool/Failure a Resize that fails.
-- - TimedPool (ThreadPool.cpp, ThreadPool.hpp: TimeBasedThreadPool): the queue of jobs that
--   have a time. TimedPool/Schedule is one round of its thread, TimedPool/History any history,
--   TimedPool/Asked the times that it asks for.
-- - Pools (PacketPool.cpp): the free list of packets, with any history of it in Pools/History.
-- - Epoll (ClientContext.cpp of the epoll server): a client. Epoll/Requests is the loop of
--   EpollServer::DoRecv, with when it ends in Epoll/Requests/Hang and a stream of messages in
--   Epoll/Requests/Whole; Epoll/Server is the table of clients and its operations
--   (EpollServer.cpp), Epoll/Outbox any sequence of sends for a client, one after the other,
--   Epoll/Outbox/Race two of them at once, Epoll/Failed a read that fails and a client that is
--   closed, Epoll/Events the events of one call of epoll_wait, Epoll/Jobs the job factory, the
--   echo job and the job thread (JobFactory.cpp, Job.cpp, PacketData.hpp, GameServer.cpp), with
--   an echo in Epoll/Jobs/Echo and sends that fail in Epoll/Jobs/Retry.
-- - Select (ClientContext.cpp of the select server): a client. Select/Server is the table of
--   clients, the sets of sockets, OnReceive and a round of the write thread (SelectServer.cpp,
--   JobFactory.cpp, GameServer.cpp), Select/Same its sends beside those of the epoll server,
--   Select/Left a client that goes away, Select/Stuck a message that makes no job.
-- - Prelude: Boolean tests, lists, bytes and CopyMemory.
--
-- Operations have the names of the source in snake case. An operation takes the object and
-- gives the object back beside its answer, in the order answer, object, other results. The
-- result is an Option wherever the code can touch memory outside a block or divide by zero, and
-- none stands for that; of ThreadPool::Resize it also stands for std::terminate and for a join
-- that does not return. Blocks are lists of bytes, and their contents before they are written
-- come from the caller. uint32_t sums are taken modulo 2 ^ 32. What the allocator and the
-- socket library answer are arguments.
--
-- The loops of SendBuffer run on fuel, capacity + 1 rounds: each round frees or passes a slot
-- that is in use, of which there are fewer than the capacity. The loop that takes messages off
-- the receive buffer runs on capacity + 1 rounds too, since a message has at least one byte.
-- The loop of HandleReq runs on two rounds more than there are bytes in the receive buffer:
-- each round but the first and the last takes a message off it. The loop of EpollServer::DoRecv
-- runs on any fuel, and Loop says whether it ended; that of WriteThread over its set runs on as
-- many rounds as the set has sockets.
--
-- Not modelled: the system calls, the log, the database, the memory that is freed or leaked,
-- and the threads of the other parts: the spin locks of a slot make its operations run one at a
-- time, and that is how they run here. IOCPCore::GetUDPToken reads the client's token and the
-- clock before it takes the lock of the tokens; here the whole call is one step.
-- EpollServer::SendMsg and ResumeSend are one step each but in Epoll/Outbox/Race, where the
-- part under the lock of the context and the switch with its epoll_ctl are two. An access
-- through a pointer kept after the block was given away is not seen. What the pools give is an
-- argument of the operations that ask them; the pools of memory and of contexts, the set-up of
-- sockets and threads, and the other servers of the repository are not part of this
-- development. Of the epoll and the select server the shutdown is left out, and of the select
-- server the round of the read thread; their SlideBuffer.cpp copies to the front of a block by
-- memcpy, whose result for overlapping ranges is taken to be that of a copy byte by byte from
-- the low end.
pub mod Prelude
pub mod SlideBuffer
pub mod PacketData
pub mod SendBuffer
pub mod Connection
pub mod Core
pub mod SpinLock
pub mod Job
pub mod GameServer
pub mod ThreadPool
pub mod TimedPool
pub mod Pools
pub mod Epoll
pub mod Select
