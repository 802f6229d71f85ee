-- ===== src/Network/Loop.antt =====
-- The functors that wait for the thread of an event loop: network/EventLoop.cpp. A functor is any
-- value. What the mutex encloses is one step, and so is each access outside it: a thread that calls
-- queueInLoop first pushes its functor and later writes to the eventfd. `wakeups` counts the writes to
-- the eventfd since it was last read, which is what epoll reports of it; `waking` counts the other
-- threads that stand before their write, and `own_call` is whether the loop's thread stands there.
-- `queued` and `ran` note which functors were queued and have run, in order.
pub mod Steps
use coroutine_transaction.Base.{
  ℕ, suc, ◌-◌, Bool, true, false, not, ◌||◌, List, [], ◌∷◌, ◌++◌, if◌then◌else◌,
}

-- Where the loop stands: before its test of m_quit, in poll, with the active channels, in doPendingFunctors before the lock, or with
-- the functors that it took.
pub data Phase : Type 0 where
  testing polling handling taking calling : Phase

pub record Loop (F : Type 0) : Type 0 where
  pub phase : Phase
  pub pending_functors : List F
  pub funcs : List F
  pub calling_pending_functors : Bool
  pub quit : Bool
  pub wakeups : ℕ
  pub waking : ℕ
  pub own_call : Bool
  pub queued : List F
  pub ran : List F

module _ {F : Type 0} where
  abbrev pub new_loop : Loop F
  new_loop = record {
    phase = testing;
    pending_functors = [];
    funcs = [];
    calling_pending_functors = false;
    quit = false;
    wakeups = 0;
    waking = 0;
    own_call = false;
    queued = [];
    ran = [];
  }

  -- EventLoop::wakeup.
  abbrev pub wakeup : Loop F → Loop F
  wakeup s = record s { wakeups = suc s.wakeups }

  -- A thread, the loop's own one or another, is in a call before its test for the wakeup, or leaves it.
  abbrev pub enter_call : Bool → Loop F → Loop F
  enter_call true s = record s { own_call = true }
  enter_call false s = record s { waking = suc s.waking }

  abbrev pub leave_call : Bool → Loop F → Loop F
  leave_call true s = record s { own_call = false }
  leave_call false s = record s { waking = s.waking - 1 }

  -- EventLoop::queueInLoop up to the end of the lock; the first argument is isInLoopThread.
  unfoldable pub queue_locked : Bool → F → Loop F → Loop F
  queue_locked in_thread f s = enter_call in_thread (record s {
    pending_functors = s.pending_functors ++ (f ∷ []);
    queued = s.queued ++ (f ∷ []);
  })

  -- What follows the lock.
  unfoldable pub queue_unlocked : Bool → Loop F → Loop F
  queue_unlocked in_thread s =
      leave_call in_thread (if not in_thread || s.calling_pending_functors then wakeup s else s)

  -- EventLoop::quit, its assignment and what follows it.
  pub quit_set : Bool → Loop F → Loop F
  quit_set in_thread s = enter_call in_thread (record s { quit = true })

  pub quit_woken : Bool → Loop F → Loop F
  quit_woken in_thread s = leave_call in_thread (if not in_thread then wakeup s else s)

  -- EventLoop::loop and OnTick: poll is called, and returns.
  abbrev pub poll_begins : Loop F → Loop F
  poll_begins s = record s { phase = polling }

  abbrev pub poll_returns : Loop F → Loop F
  poll_returns s = record s { phase = handling }

  -- EventLoop::handleRead.
  abbrev pub handle_wakeup : Loop F → Loop F
  handle_wakeup s = record s { wakeups = 0 }

  -- EventLoop::doPendingFunctors, before the lock and under it.
  abbrev pub begin_functors : Loop F → Loop F
  begin_functors s = record s { phase = taking; calling_pending_functors = true }

  abbrev pub take_functors : Loop F → Loop F
  take_functors s = record s { phase = calling; funcs = s.pending_functors; pending_functors = [] }

  -- Its loop goes to the next functor.
  abbrev pub run_functor : F → List F → Loop F → Loop F
  run_functor f fs s = record s { funcs = fs; ran = s.ran ++ (f ∷ []) }

  -- Its end; the loop goes on to its test.
  abbrev pub end_functors : Loop F → Loop F
  end_functors s = record s { phase = testing; calling_pending_functors = false }
