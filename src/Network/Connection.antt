-- ===== src/Network/Connection.antt =====
-- A connection in the thread of its loop: network/TcpConnection.cpp. What write and readv do is an
-- argument; `sent` is what write has taken, and `notes` are the callbacks that are called or queued,
-- the latest first.
mod Keeps
mod Stream
pub mod Runs
pub mod Faults
use coroutine_transaction.Base.{
  ℕ, zero, suc, ◌+◌, ◌-◌, ◌*◌, ◌%◌, ◌^◌, Bool, true, false, not, ◌&&◌, List, [], ◌∷◌, ◌++◌, ltb,
  leb, ◌==◌, if◌then◌else◌, length, take, drop,
}
use coroutine_transaction.Network.Buffer.{
  Buffer, new_buffer, initial_size, readable_bytes, slice, append, retrieve, read_fd,
}
use coroutine_transaction.Network.Channel.{
  Channel, new_channel, ChannelOp, enables_reading, enables_writing, disables_writing, disables_all,
  removes, channel_op,
}

-- StateE.
pub data ConnectionState : Type 0 where
  disconnected connecting connected disconnecting : ConnectionState

abbrev pub is_connected : ConnectionState → Bool
is_connected connected = true
is_connected _ = false

abbrev pub is_disconnected : ConnectionState → Bool
is_disconnected disconnected = true
is_disconnected _ = false

abbrev pub is_disconnecting : ConnectionState → Bool
is_disconnecting disconnecting = true
is_disconnecting _ = false

pub data Note : Type 0 where
  connection_callback message_callback close_callback write_complete : Note
  high_water_mark : ℕ → Note

-- TcpConnection; `shut` is whether shutdownWrite was called.
pub record Connection : Type 0 where
  pub state : ConnectionState
  pub channel : Channel
  pub high_mark : ℕ
  pub has_write_complete : Bool
  pub has_high_water_mark : Bool
  pub input_buffer : Buffer
  pub output_buffer : Buffer
  pub shut : Bool
  pub sent : List ℕ
  pub notes : List Note

abbrev pub new_connection : Connection
new_connection = record {
  state = connecting;
  channel = new_channel;
  high_mark = 64 * 1024 * 1024;
  has_write_complete = false;
  has_high_water_mark = false;
  input_buffer = new_buffer initial_size;
  output_buffer = new_buffer initial_size;
  shut = false;
  sent = [];
  notes = [];
}

-- What write does: it takes some of the bytes, or returns -1.
pub data Written : Type 0 where
  wrote : ℕ → Written
  refused : Written

abbrev pub size_mod : ℕ
size_mod = 2 ^ 64

-- The result of write as the size_t that it is kept in.
abbrev pub nwrote : Written → ℕ
nwrote (wrote k) = k
nwrote refused = size_mod - 1

-- `len - nwrote` on size_t.
abbrev pub remaining : Written → ℕ → ℕ
remaining r len = (len + (size_mod - nwrote r)) % size_mod

-- The bytes from `message + nwrote` on; `before` is the byte that stands before the message.
abbrev pub rest_of : Written → ℕ → List ℕ → List ℕ
rest_of (wrote k) before message = drop k message
rest_of refused before message = before ∷ message

-- The bytes that write has taken.
abbrev pub taken : Written → List ℕ → List ℕ
taken (wrote k) bytes = take k bytes
taken refused bytes = []

abbrev pub add_note : Bool → Note → Connection → Connection
add_note b n c = record c { notes = if b then n ∷ c.notes else c.notes }

abbrev pub on_channel : ChannelOp → Connection → Connection
on_channel op c = record c { channel = channel_op op c.channel }

-- TcpConnection::sendInLoop, where some bytes wait.
unfoldable pub start_writing : Connection → Connection
unfolding channel_op
start_writing c = if not c.channel.events.writing then on_channel enables_writing c else c

-- The end of TcpConnection::sendInLoop, which keeps the remaining bytes.
unfoldable pub keep_rest : ℕ → List ℕ → Connection → Connection
unfolding append start_writing
keep_rest n rest c =
    if n == 0
    then c
    else let old = readable_bytes c.output_buffer in
      let high = (leb c.high_mark (old + n) && ltb old c.high_mark) && c.has_high_water_mark in
      let c1 = add_note high (high_water_mark (old + n)) c in
      let c2 = record c1 { output_buffer = append (take n rest) c1.output_buffer } in
      start_writing c2

-- TcpConnection::sendInLoop where nothing waits to be sent. Since size_t is never negative, the branch
-- of a failed write is not taken.
unfoldable pub send_direct : ℕ → Written → List ℕ → Connection → Connection
unfolding keep_rest
send_direct before r message c =
    let n = remaining r (length message) in
    keep_rest n (rest_of r before message) (
      add_note ((n == 0) && c.has_write_complete) write_complete
        (record c { sent = c.sent ++ taken r message }))

-- TcpConnection::sendInLoop.
unfoldable pub send_in_loop : ℕ → Written → List ℕ → Connection → Connection
unfolding send_direct
send_in_loop before r message c =
    if is_disconnected c.state
    then c
    else if not c.channel.events.writing && readable_bytes c.output_buffer == 0
    then send_direct before r message c
    else keep_rest (length message) message c

-- TcpConnection::send.
unfoldable pub send : ℕ → Written → List ℕ → Connection → Connection
unfolding send_in_loop
send before r message c = if is_connected c.state then send_in_loop before r message c else c

-- TcpConnection::shutdownInLoop.
pub shutdown_in_loop : Connection → Connection
shutdown_in_loop c = if not c.channel.events.writing then record c { shut = true } else c

-- TcpConnection::shutdown.
pub shutdown : Connection → Connection
unfolding shutdown_in_loop
shutdown c =
    if is_connected c.state then shutdown_in_loop (record c { state = disconnecting }) else c

-- TcpConnection::connectEstablished.
unfoldable pub connect_established : Connection → Connection
unfolding channel_op
connect_established c =
    add_note true connection_callback (on_channel enables_reading (record c { state = connected }))

-- TcpConnection::connectDestoryed.
pub connect_destoryed : Connection → Connection
unfolding channel_op
connect_destoryed c =
    let c' =
      if is_disconnected c.state
      then add_note true connection_callback
          (on_channel disables_all (record c { state = disconnected }))
      else c in
    on_channel removes c'

-- TcpConnection::handleClose.
pub handle_close : Connection → Connection
unfolding channel_op
handle_close c = add_note true close_callback (
    add_note true connection_callback (on_channel disables_all (record c { state = disconnected })))

-- TcpConnection::handleRead, on what readv brings; no bytes stand for the end of the stream.
pub handle_read : List ℕ → Connection → Connection
unfolding read_fd handle_close
handle_read bytes c =
    let (buffer, n) = read_fd bytes c.input_buffer in
    let c' = record c { input_buffer = buffer } in
    if ltb 0 n then add_note true message_callback c' else handle_close c'

-- TcpConnection::handleWrite, once all is sent.
pub all_sent : Connection → Connection
unfolding channel_op shutdown_in_loop
all_sent c =
    let c' = add_note c.has_write_complete write_complete (on_channel disables_writing c) in
    if is_disconnecting c'.state then shutdown_in_loop c' else c'

-- TcpConnection::handleWrite of a channel that is writing. Since size_t is never negative, a failed write
-- counts as a large one.
pub write_out : Written → Connection → Connection
unfolding slice retrieve all_sent
write_out r c =
    let b = c.output_buffer in
    let c1 = record c {
      sent = c.sent ++ taken r (slice b.cells b.reader_idx (readable_bytes b));
    } in
    if not (ltb 0 (nwrote r))
    then c1
    else let c2 = record c1 { output_buffer = retrieve (nwrote r) b } in
      if readable_bytes c2.output_buffer == 0 then all_sent c2 else c2

-- TcpConnection::handleWrite.
pub handle_write : Written → Connection → Connection
unfolding write_out
handle_write r c = if not c.channel.events.writing then c else write_out r c
