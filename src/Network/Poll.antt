-- ===== src/Network/Poll.antt =====
-- A round of an event loop: poll and fillActiveChannels of network/EpollPoller.cpp, the loop over the
-- active channels in EventLoop.cpp, and handleEvent of Channel.cpp. A `Channel*` is a number. The program
-- around the loop is a state of any type, which says of a channel what a callback can change.
pub mod Handled
use coroutine_transaction.Base.{
  ℕ, ◌*◌, Bool, not, List, [], ◌∷◌, ◌++◌, ◌==◌, if◌then◌else◌, length, update,
}
use coroutine_transaction.Network.Channel.{Revents, Callback, handle_with_guard}

-- epoll_event.
pub record Event : Type 0 where
  pub channel : ℕ
  pub events : Revents

-- What epoll_wait does: it fills the front of m_events, with nothing after a timeout, or sets errno.
pub data Waited : Type 0 where
  reported : List Event → Waited
  failed : ℕ → Waited

-- `event_room` is m_events.size(), and `revents` the field of every channel.
pub record Poller : Type 0 where
  pub event_room : ℕ
  pub revents : ℕ → Revents

abbrev pub init_event_list_size : ℕ
init_event_list_size = 16

-- EpollPoller::fillActiveChannels, with m_revents and the list of active channels.
unfoldable pub fill_active_channels : List Event → (ℕ → Revents) → List ℕ → (ℕ → Revents) × List ℕ
fill_active_channels [] revents active = (revents, active)
fill_active_channels (e ∷ es) revents active =
    fill_active_channels es (update revents e.channel e.events) (active ++ (e.channel ∷ []))

-- EpollPoller::poll.
unfoldable pub poll : Waited → Poller → List ℕ → Poller × List ℕ
unfolding fill_active_channels
poll (failed errno) p active = (p, active)
poll (reported []) p active = (p, active)
poll (reported (e ∷ es)) p active =
    let (revents, active') = fill_active_channels (e ∷ es) p.revents active in
    let room = if length (e ∷ es) == p.event_room then p.event_room * 2 else p.event_room in
    (record { event_room = room; revents = revents }, active')

-- m_tied, whether the object of m_tie is still there, and which callbacks are set.
pub record Handler : Type 0 where
  pub tied : Bool
  pub there : Bool
  pub has_callback : Callback → Bool

module _ {S : Type 0} (handler : S → ℕ → Handler) (run : ℕ → Callback → S → S) where
  unfoldable pub run_callbacks : ℕ → List Callback → S → S
  run_callbacks ch [] s = s
  run_callbacks ch (c ∷ cs) s =
      run_callbacks ch cs (if (handler s ch).has_callback c then run ch c s else s)

  -- Channel::handleEvent.
  unfoldable pub handle_event : ℕ → Revents → S → S
  unfolding run_callbacks handle_with_guard
  handle_event ch r s =
      if (handler s ch).tied
      then if (handler s ch).there then run_callbacks ch (handle_with_guard r) s else s
      else run_callbacks ch (handle_with_guard r) s

  -- EventLoop::loop: the loop over m_activeChannels.
  unfoldable pub handle_active : (ℕ → Revents) → List ℕ → S → S
  unfolding handle_event
  handle_active revents [] s = s
  handle_active revents (ch ∷ chs) s = handle_active revents chs (handle_event ch (revents ch) s)

  -- A round of EventLoop::loop, after the test of m_quit and before doPendingFunctors.
  unfoldable pub poll_round : Waited → Poller × S → Poller × S
  unfolding poll handle_active
  poll_round waited (p, s) =
      let (p', active) = poll waited p [] in (p', handle_active p'.revents active s)
