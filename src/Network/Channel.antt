-- ===== src/Network/Channel.antt =====
-- A channel and its registration with the poller: network/Channel.cpp, and updateChannel and
-- removeChannel of EpollPoller.cpp. The poller keeps one channel for a descriptor, so that what it
-- knows of a descriptor is kept with its channel; the calls of epoll_ctl are noted, the latest first.
pub mod Interest
use coroutine_transaction.Base.{
  Bool, true, false, not, ◌&&◌, ◌||◌, List, [], ◌∷◌, ◌++◌, if◌then◌else◌,
}

-- m_events: kReadEvent and kWriteEvent.
pub record Events : Type 0 where
  pub reading : Bool
  pub writing : Bool

-- kNew, kAdded and kDeleted.
pub data Index : Type 0 where
  new added deleted : Index

pub data CtlOp : Type 0 where
  ctl_add ctl_mod ctl_del : CtlOp

-- EpollPoller::update: a call of epoll_ctl with the events of the channel.
pub record Ctl : Type 0 where
  pub op : CtlOp
  pub events : Events

-- `registered` is whether m_channels of the poller has the descriptor.
pub record Channel : Type 0 where
  pub events : Events
  pub index : Index
  pub registered : Bool
  pub ctls : List Ctl

abbrev pub no_events : Events
no_events = record { reading = false; writing = false }

abbrev pub new_channel : Channel
new_channel = record { events = no_events; index = new; registered = false; ctls = [] }

-- Channel::isNoneEvent.
abbrev pub is_none_event : Channel → Bool
is_none_event ch = not ch.events.reading && not ch.events.writing

-- EpollPoller::update.
abbrev pub ctl : CtlOp → Channel → Channel
ctl op ch = record ch { ctls = record { op = op; events = ch.events } ∷ ch.ctls }

-- EpollPoller::updateChannel.
abbrev pub update_at : Index → Channel → Channel
update_at new ch = ctl ctl_add (record ch { registered = true; index = added })
update_at deleted ch = ctl ctl_add (record ch { index = added })
update_at added ch =
    if is_none_event ch then record (ctl ctl_del ch) { index = deleted } else ctl ctl_mod ch

unfoldable pub update_channel : Channel → Channel
update_channel ch = update_at ch.index ch

-- EpollPoller::removeChannel.
abbrev pub remove_at : Index → Channel → Channel
remove_at added ch = ctl ctl_del ch
remove_at _ ch = ch

unfoldable pub remove_channel : Channel → Channel
remove_channel ch = record (remove_at ch.index (record ch { registered = false })) { index = new }

-- The calls of a channel.
pub data ChannelOp : Type 0 where
  enables_reading disables_reading enables_writing disables_writing disables_all removes : ChannelOp

abbrev pub with_events : Events → Channel → Channel
with_events events ch = record ch { events = events }

-- Channel::enableReading and the like, and Channel::remove.
unfoldable pub channel_op : ChannelOp → Channel → Channel
unfolding update_channel remove_channel
channel_op enables_reading ch =
    update_channel (with_events (record (ch.events) { reading = true }) ch)
channel_op disables_reading ch =
    update_channel (with_events (record (ch.events) { reading = false }) ch)
channel_op enables_writing ch =
    update_channel (with_events (record (ch.events) { writing = true }) ch)
channel_op disables_writing ch =
    update_channel (with_events (record (ch.events) { writing = false }) ch)
channel_op disables_all ch = update_channel (with_events no_events ch)
channel_op removes ch = remove_channel ch

pub channel_ops : List ChannelOp → Channel → Channel
unfolding channel_op
channel_ops [] ch = ch
channel_ops (op ∷ ops) ch = channel_ops ops (channel_op op ch)

-- m_revents: what epoll reports of a descriptor.
pub record Revents : Type 0 where
  pub epollin : Bool
  pub epollpri : Bool
  pub epollout : Bool
  pub epollerr : Bool
  pub epollhup : Bool

pub data Callback : Type 0 where
  close_callback error_callback read_callback write_callback : Callback

abbrev pub when : Bool → Callback → List Callback
when b c = if b then c ∷ [] else []

-- Channel::handelEventWithGuard: the callbacks that the events call for, in order.
unfoldable pub handle_with_guard : Revents → List Callback
handle_with_guard r =
    when (r.epollhup && not r.epollin) close_callback
    ++ (when r.epollerr error_callback
        ++ (when (r.epollin || r.epollpri) read_callback ++ when r.epollout write_callback))
