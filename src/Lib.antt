-- ===== src/Lib.antt =====
-- asrt, an asynchronous runtime for Linux: an executor runs queued operations, a reactor over
-- edge-triggered epoll turns kernel events into such operations, a timer queue drives timers through
-- one timerfd of the reactor, and strands put an order on operations that several threads run.
--
-- Parts, files and sources (paths from the repository's root):
--   ErrorCode, ErrorCode/Text: include/asrt/error_code.hpp. The enumeration, its predicates, and the
--     table of texts that ToStringView reads.
--   Reactor/Events: class Events of include/asrt/reactor/types.hpp, a 32-bit mask.
--   Reactor/Entry: struct OperationEntry of include/asrt/reactor/epoll_reactor.hpp and what the reactor
--     does with one entry under its mutex: the end of RegisterImpl (register_entry), DerigsterImpl
--     (deregister), HandleSingleEvent, the closure of MakeIoEventOpertaionHandler (enter_io_handler up
--     to the user's handler, leave_io_handler behind it, skip_io_handler past it), the closure of
--     MakeSoftwareEventOpertaionHandler, OnStartOfOperation, OnEventIgnored, DoModifyEvent.
--     Entry/Invariant has the entry under every interleaving of these, Entry/Lifetime the theorems.
--   Reactor/Table: FindFreeOperationSlot and RegisterImpl of the same file over the table of entries;
--     Table/Spec has the search as one look at the whole table.
--   Reactor/Loop: HandleEventsImpl, HandleSoftwareEvents and TriggerSoftwareEvent of the same file.
--   Reactor/TimerOperation: struct TimerOperation of the same file, its registration and its job.
--   Timer/Queue, Timer/Schedule, Timer/Expiry: class TimerQueue of
--     include/asrt/timer/timer_queue.hpp; tags (GetNextAvailableTag, Reserve, RecycleTimerTag), the
--     heap of queued timers (DoAddTimer, DoRemoveTimer, Dequeue), and expiry (HandleOneExpiry,
--     HandleExpiry, Enqueue). Timer/Conversion: include/asrt/timer/timer_util.hpp.
--   WaitableTimer: include/asrt/timer/basic_waitable_timer.hpp; WaitableTimer/Once has its functions in any
--     order behind a WaitAsync.
--   Strand: include/asrt/impl/strand.ipp, Post, Dispatch and ExecutePendingJobs with threads enabled. The
--     marker that IsContinuation looks for is one flag per thread for all strands.
--   Executor: include/asrt/executor/io_executor.hpp and include/asrt/impl/io_executor.ipp with threads
--     enabled; the critical sections of ProcessNextOperation are next_round up to the call of an
--     operation or of the reactor's Run, after_job and after_reactor behind it. Executor/Schedule has
--     the threads in any order, with a reactor whose Run does not fail and returns any handlers. Executor/Timed has the jobs that
--     run by timers, Timed/Services the static flags of
--     UseReactorService and UseTimerService.
--   MessageQueue: include/asrt/client_server/message_queue.hpp.
--   NetBuffer: include/asrt/netbuffer.hpp, the views and make_buffer of arrays.
--   Socket/AsyncOperation: include/asrt/socket/async_operation.hpp; do_perform is DoPerform of a send or
--     a receive, do_connect and do_connect_continuation that of a connect, perform_initiation and
--     perform_continuation the two overloads of Perform. Rounds, Transfer, Speculative and Completion
--     follow an operation through the reactor's rounds, Reports has what handlers are told.
--   Socket/BasicSocket: include/asrt/socket/basic_socket.hpp; Open, Close, Bind, AssignNativeHandle and the
--     blocking mode. BasicSocket/Course has them in any order.
--   Socket/Stream: include/asrt/socket/basic_stream_socket.hpp; DoConnectAsync, DoSendAsync,
--     DoReceiveAsync and OnCloseEvent, and in Stream/Notification OnReactorEventImpl with
--     HandleConnectionEstablishment, HandleDataTranster, HandleSend and HandleReceive. What happens while
--     these release the mutex for a handler is an argument; Stream/Run puts any course of moves
--     there. Stream/Sync has the operations that do not wait, of this file and of
--     include/asrt/impl/basic_stream_socket.ipp.
--   Socket/Acceptor: include/asrt/socket/acceptor.hpp and include/asrt/impl/basic_acceptor_socket.ipp; the
--     reactor's event is begin_acceptor_event up to the accept, which runs with the mutex free, and
--     end_acceptor_event behind it. Acceptor/Course has the operations in any order,
--     Acceptor/Speculation an accept that is answered at once.
--   Socket/Packet: include/asrt/socket/basic_packet_socket.hpp and
--     include/asrt/impl/basic_packet_socket.ipp; Packet/Setup has the opening of a socket and of its ring,
--     Packet/Blocks the reception of blocks in any order, Packet/Polling PollReceiveBlockSync, and
--     Packet/Errors what goes wrong.
--   Socket/Address: include/asrt/socket/address_v4.hpp, an address as the number that in_addr holds.
--   Socket/Datagram: include/asrt/socket/basic_datagram_socket.hpp; Datagram/Latest has the handlers called.
--   SignalSet: include/asrt/signalset/basic_signalset.hpp and include/asrt/impl/basic_signalset.ipp;
--     SignalSet/Course has its operations in any order, SignalSet/Cancelled what follows a Cancel.
--   Message: GenericMessage2 of include/asrt/client_server/message.h and the byte order of
--     include/asrt/socket/address_types.hpp; Message/Reception has how a connection receives a message.
--   Connection: include/asrt/client_server/connection.hpp, DoSendMessage2, DoSendNextMessage,
--     SendBackloggedMessages, SendSync, and the handshake (WriteSeed, ReadSeed, WriteKey, ReadKey).
--     Connection/Outbox has the outbox under every course of these, each as one step; the code runs
--     some of them outside the strand.
--   Server: include/asrt/client_server/server_interface.hpp and include/asrt/impl/server_interface.ipp;
--     Server/Held compares it with a server that has no vector.
--   Util: QuickRemoveOne and QuickRemoveOneIf of include/asrt/util.hpp.
--   Base: helpers that the parts share.
--
-- State and effects. A method is a function from the state to the new state, its result, and a list of
-- what it asks of the kernel and of the executor, in order. The answers of system calls, the clock and
-- std::make_heap are arguments; what is required of std::make_heap is the record MakesHeap. A result
-- `none` of a method stands for undefined behaviour: an access out of range, front() of an empty
-- vector, the call of an empty handler, or an assertion that fails. Handlers are values of an arbitrary type. A critical section
-- is one step, and threads are sequences of such steps in any order. RegisterImpl does not hold the mutex of the
-- entry that it writes, so Reactor/Entry/Invariant has its writes as single steps.
--
-- Numbers. Event masks are naturals below 2^32; the job count and the index into the table of texts
-- wrap at 2^32, tag_end_ at 256; the ids of a server's connections wrap at 2^32, their counter at 2^64. Times and durations are naturals, in nanoseconds.
--
-- Fuel. The loop of HandleExpiry (expire_loop) runs on fuel; for one-shot timers one round more than
-- timers are queued is shown to be enough. The rounds of a strand are counted by the number of jobs
-- that wait, which is shown to be enough. All other loops are by recursion on the list that they read.
--
-- Not modelled: logging, the system call wrappers, the executor's scheduled jobs,
-- IPv6 addresses and endpoints, the clients that own connections, the server's inbox, the io_uring reactor, and the
-- bundled libraries.
pub mod Base
pub mod Connection
pub mod ErrorCode
pub mod Executor
pub mod Message
pub mod MessageQueue
pub mod NetBuffer
pub mod Reactor
pub mod Server
pub mod SignalSet
pub mod Socket
pub mod Strand
pub mod Timer
pub mod Util
pub mod WaitableTimer
