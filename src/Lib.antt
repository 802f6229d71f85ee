-- ===== src/Lib.antt =====
-- coroutine_transaction: transactions that run on coroutines.
--
-- The program runs each transaction on a work coroutine. A command of a transaction that waits for
-- an answer yields to the main coroutine, and an event or a timer wakes it. The timers stand in
-- three wheels that the main loop moves on; coroutines, timers and transactions have ids of one
-- generator.
--
-- Timer models src/timer/svr_timer.cpp, svr_timer.h and linklist.h. Timer.antt has the state and
-- the registration in the wheels (TimerMgr::Reg, DoubLink::Push, Remove and Pop), Timer/Register
-- what a caller asks for (RegisterTimer, DestroyTimer, GetRemainNum, GetRemainMs, GetExpireMs)
-- and Timer/Fire the clock (Timer::OnTimeout, TimerMgr::Fire and Proc). A `Timer*` is the timer's
-- id, and a list of a slot the list of the ids in it. The field `firings` is the model's own: it
-- notes each run of OnTimeout. A callback is a script, the list of registrations and destructions
-- that it makes, for each tick and timer. The other modules of Timer hold the proof: Placed,
-- Linked and Unlinked the invariant of the wheels, Loop, Steps, Destroyed, Calls and Rounds the
-- state in the middle of the loop of Fire, Firings and Slots what runs, Phases, Turns and Clock
-- the moves of the wheels, Start and History a manager from its start, Stays, Kept and Fires a
-- timer that is due, and Due what a registration gives.
--
-- Coroutine models src/coroutine/boost_coroutine.cpp and coroutine_scheduler.cpp with their
-- headers: Coroutine.antt the operations, and below it Valid the invariant, Swap the two ways to
-- change sides, Made what is made and taken out, Life the steps of a scheduler, Restart a
-- coroutine that is prepared anew. The jump is assembly (jump_context.S, make_context.S): an
-- operation is the code up to the jump, and the code behind it returns 0.
--
-- Guid models GenGUID and the fields that GUIDStr reads (src/common/gen_guid.cpp, gen_guid.h).
--
-- Transaction models src/transaction. Transaction.antt has the instance (transaction_instance.h),
-- what the user writes as parameters, and what follows the last command (Transaction::Undo and
-- HandleResult in transaction.cpp); Transaction/Wait has Command::WaitForEvent (command.cpp) and
-- TransactionInstance::ProcDefaultEvents (transaction_instance.cpp), Transaction/Run has
-- Command::Wait and DoAndWait and Transaction::RunCommandOnInstance. They are what the work
-- coroutine does between the calls of TransactionInstance::Wait: the events that these calls bring
-- are a list, and where it ends the coroutine is parked. Undo, Result, Wait/Events and Run/Failed
-- hold the proofs.
--
-- Server models the transaction server over the scheduler, the timers and the instances:
-- Server.antt has its state (transaction_server.h, transaction_mgr.h), AddTranInst and
-- MarkTranInstDelayDestroy (transaction_mgr.cpp), TransactionInstance::Wait
-- (transaction_instance.cpp) and what a coroutine does from where it is entered to where it
-- yields or ends; Server/Calls has StartTransaction and SendMsgEventToTran
-- (transaction_server.cpp), Transaction::Start and the entry of the coroutine (transaction.cpp),
-- SendMsgEvent, Abort and TransactionOnTimeout (transaction_instance.cpp) and
-- TranInstMgr::Update; Server/Resume has Transaction::Resume, TransactionInstance::Resume and
-- TranInstMgr::Resume, which enter every coroutine anew after a crash. The stack of a coroutine
-- that waits is a value, the command and the events that are left. Kept, Entered, Idle, Outcomes,
-- Segment, Starts, Sends, Updates and Steps hold the invariant between the calls, Init the start
-- of a server, Answers what the calls return, Freed what Update releases, Resume/Recovery what a
-- resumption leaves, Resume/Interrupted what it reports.
--
-- Network models parts of network: Network/Buffer Buffer (Buffer.h, Buffer.cpp), an array with
-- two indices, with Slices and View its readable bytes and Queue its calls; Network/Channel the
-- registration of a channel (Channel.cpp, EpollPoller.cpp), with Interest what the kernel
-- watches, over a parameter for epoll_ctl; Network/Connection TcpConnection in the thread of its
-- loop (TcpConnection.cpp), with Keeps, Stream and Runs the bytes that it sends, and Faults a
-- write that fails; Network/Loop the functors that wait for an event loop (EventLoop.cpp), with
-- Steps the loop and the other threads in any interleaving; Network/Poll a round of the loop
-- (EpollPoller::poll, Channel::handleEvent), with Handled the rounds while many descriptors are
-- ready, over a parameter for epoll_wait; Network/TcpServer the connections of a server and their
-- loops (TcpServer.cpp, EventLoopThreadPool.cpp).
--
-- DoubLink models timer/linklist.h once more, on a heap of nodes with their pointers: Chain and
-- Writes say how the links of a list move, Represents which lists a heap stands for, Refines, Runs
-- and Cleared that its calls are those of lists; Timer/Nodes puts the slots of the wheels on this
-- heap.
--
-- Demo models demo: Demo/Text the reading and printing of numbers (utils.h), Demo/Peers the ids of
-- the peers (peer_mgr.cpp), Demo/Gm the commands of a line (gm.cpp) on the server, which
-- Server/Create lets make instances (TransactionServer::StartCommonTransaction), and Demo/Front the
-- callbacks of the connections (trans_server.cpp). Numbers, Kept, Apart, Lines and
-- Replies hold the proofs.
--
-- DateTime models the starts of hours, days and weeks in common/datetime.h and datetime.cpp, with
-- the proofs in DateTime/Starts.
--
-- Base has what the models share: tests, integers and lists over native numbers. Tests has runs of
-- the models and the theorems at concrete inputs.
--
-- Bounds: u64 times and ids and u32 slots are cut as the source cuts them. The loops of Reg, Fire
-- and Proc need no fuel: Reg takes at most three rounds, the loop of Fire runs as often as the list
-- was long, and that of Proc once for each millisecond.
--
-- Not modelled: what a crash in the middle of a call leaves in the scheduler and the wheels, the
-- OnTick of the server, which calls Proc, serialisation (src/transaction), calls of the server
-- from user code, the acceptor, the sockets and the threads of the network library (network), the
-- start and the loop of the demo, logging, memory that cannot be allocated other than a stack,
-- and calls of Proc from a callback.
pub mod Base
pub mod Coroutine
pub mod DateTime
pub mod Demo
pub mod DoubLink
pub mod Guid
mod Tests
pub mod Timer
pub mod Transaction
pub mod Server
pub mod Network
