-- ===== src/Tests/Network.antt =====
-- The network library at concrete inputs.
use coroutine_transaction.Base.{
  ℕ, suc, ◌+◌, ◌<◌, ◌≡◌, ◌≢◌, refl, none, some, true, false, Bool, Option, List, [], ◌∷◌, ◌++◌,
  arith, length, get_elem?,
}
use coroutine_transaction.Network.Buffer.{new_buffer, slice, append, ensure_writable_bytes, copy_in}
use coroutine_transaction.Network.Buffer.View.{Valid, view}
use coroutine_transaction.Network.Buffer.Queue.{
  Op, appends, reads, retrieves, takes_all, run_ops, queue_ops, run_ops-refines,
}
use coroutine_transaction.Network.Channel.{
  Events, ctl_add, ctl_mod, ctl_del, Ctl, new_channel, ChannelOp, enables_reading, enables_writing,
  disables_writing, disables_all, removes, channel_op, update_channel, channel_ops,
}
use coroutine_transaction.Network.Channel.Interest.{Epoll, watched, replay, channel_ops-watched}
use coroutine_transaction.Network.Connection.{
  Connection, size_mod, is_disconnected, refused, send, send_in_loop, send_direct, keep_rest,
  start_writing, handle_write, connect_established,
}
use coroutine_transaction.Network.Connection.Runs.{
  Op as ConnectionOp, sends, writes, shuts, established, messages, run_op,
  run_ops as run_connection, run_ops-stream,
}
use coroutine_transaction.Network.Connection.Faults.{send-refused, handle_write-refused}
use coroutine_transaction.Network.Loop.{
  Loop, new_loop, polling, queue_locked, queue_unlocked, poll_begins, poll_returns, begin_functors,
  take_functors,
}
use coroutine_transaction.Network.Loop.Steps.{
  Reachable, begins, steps, polls, pushes, wakes, returns, begins_functors, takes, Reachable-awake,
}
use coroutine_transaction.Network.TcpServer.{
  Pool, new_pool, start_pool, ServerConnection, new_tcp_server, new_server_connection,
  get_next_loops,
}
use coroutine_transaction.Network.TcpServer.Rounds.{
  Op as ServerOp, accepts, removes as removes_connection, run_ops as run_server,
  get_next_loops-started, new_server_connection-fresh,
}

-- Buffers.
abbrev buffer_calls : List Op
buffer_calls =
    appends (1 ∷ 2 ∷ 3 ∷ []) ∷ retrieves 1 ∷ reads (4 ∷ 5 ∷ []) ∷ takes_all ∷ appends (6 ∷ []) ∷ []

run_ops-refines_example :
    let r = run_ops buffer_calls (new_buffer 16) in
    let q = queue_ops buffer_calls [] in (view r.0 ≡ q.0) × (r.1 ≡ q.1)
run_ops-refines_example = run_ops-refines 16 buffer_calls

queue_ops_lem : queue_ops buffer_calls [] ≡ (6 ∷ [], 2 ∷ 3 ∷ 4 ∷ 5 ∷ [])
unfolding queue_ops
queue_ops_lem = refl

-- A kernel for one descriptor.
abbrev one_fd : Ctl → Option Events → Option Events × Bool
one_fd c none = elim c.op [ ctl_add ↦ (some c.events, true) | _ ↦ (none, false) ]
one_fd c (some e) = elim c.op [
  | ctl_add ↦ (some e, false)
  | ctl_mod ↦ (some c.events, true)
  | ctl_del ↦ (none, true)
]

abbrev kernel : Epoll (Option Events)
kernel = record {
  epoll_ctl = one_fd;
  interest = λ k. k;
  add_lem = λ e k h. rw h (refl, refl);
  mod_lem = λ e old k h. rw h (refl, refl);
  del_lem = λ e old k h. rw h (refl, refl);
}

abbrev channel_calls : List ChannelOp
channel_calls =
    enables_reading ∷ enables_writing ∷ disables_writing ∷ disables_all ∷ enables_reading ∷ removes
    ∷ []

channel_ops-watched_example :
    let ch = channel_ops channel_calls new_channel in
    let r = replay kernel ch.ctls none in (r.1 ≡ true) × (kernel.interest r.0 ≡ watched ch)
channel_ops-watched_example = channel_ops-watched kernel none channel_calls refl

-- Connections: the first write takes two bytes of the first message.
abbrev ready : Connection
ready = established 64 true true

abbrev connection_calls : List ConnectionOp
connection_calls =
    sends 0 2 (1 ∷ 2 ∷ 3 ∷ []) ∷ sends 0 0 (4 ∷ []) ∷ shuts ∷ writes 1 ∷ writes 1 ∷ []

run_ops-stream_example :
    let c = run_connection connection_calls ready in
    (c.sent ++ view c.output_buffer ≡ messages connection_calls ready)
    × (c.channel.events.writing ≡ false
        → is_disconnected c.state ≡ false
        → view c.output_buffer ≡ [])
    × (c.shut ≡ true → view c.output_buffer ≡ [])
run_ops-stream_example =
    run_ops-stream 64 true true connection_calls
      ((omega arith, omega arith), ((omega arith, omega arith), (tt, (tt, (tt, tt)))))

send-refused_example :
    let c = send 99 refused (1 ∷ 2 ∷ []) ready in
    (view c.output_buffer ≡ 99 ∷ 1 ∷ 2 ∷ []) × (c.sent ≡ [])
unfolding connect_established slice
send-refused_example =
    send-refused 99 (1 ∷ 2 ∷ []) ready
      (record { prepend = omega arith; ordered = omega arith; inside = omega arith }) refl refl refl
      (omega arith)

-- One byte of two waits.
abbrev waiting : Connection
waiting = run_connection (sends 0 1 (1 ∷ 2 ∷ []) ∷ []) ready

waiting_lem : (waiting.channel.events.writing ≡ true) × (view waiting.output_buffer ≡ 2 ∷ [])
unfolding run_connection run_op send send_in_loop send_direct keep_rest start_writing channel_op
    update_channel connect_established append ensure_writable_bytes copy_in slice
waiting_lem = (refl, refl)

waiting-Valid : Valid waiting.output_buffer
unfolding run_connection run_op send send_in_loop send_direct keep_rest start_writing channel_op
    update_channel connect_established append ensure_writable_bytes copy_in slice
waiting-Valid = record { prepend = omega arith; ordered = omega arith; inside = omega arith }

waiting_length : suc (length (view waiting.output_buffer)) < size_mod
waiting_length = rw waiting_lem.1 (omega arith)

handle_write-refused_example :
    let c = handle_write refused waiting in (view c.output_buffer ≡ []) × (c.sent ≡ waiting.sent)
handle_write-refused_example =
    handle_write-refused waiting waiting-Valid waiting_lem.0 waiting_length

-- Loops: another thread has pushed the functor 3 and has not written to the eventfd yet, when the loop,
-- which another write woke, takes it; it pushes the functor 2 then.
abbrev called : Loop ℕ
called = queue_unlocked false (queue_locked false 4 (poll_begins new_loop))

abbrev taken_functors : Loop ℕ
taken_functors = take_functors (begin_functors (queue_locked false 3 (poll_returns called)))

abbrev pushed_again : Loop ℕ
pushed_again = queue_locked false 2 taken_functors

called-Reachable : Reachable pushed_again
unfolding queue_locked queue_unlocked
called-Reachable =
    steps
      (steps
        (steps
          (steps
            (steps
              (steps
                (steps (steps begins (polls new_loop refl refl)) (pushes 4 (poll_begins new_loop)))
                (wakes (queue_locked false 4 (poll_begins new_loop)) (omega arith)))
              (returns called refl))
            (pushes 3 (poll_returns called)))
          (begins_functors (queue_locked false 3 (poll_returns called)) refl refl))
        (takes (begin_functors (queue_locked false 3 (poll_returns called))) refl))
      (pushes 2 taken_functors)

Reachable-awake_example :
    (pushed_again.phase ≡ polling
      → pushed_again.pending_functors ≢ []
      → 0 < pushed_again.wakeups + pushed_again.waking)
    × (pushed_again.ran ++ (pushed_again.funcs ++ pushed_again.pending_functors)
        ≡ pushed_again.queued)
Reachable-awake_example = Reachable-awake pushed_again called-Reachable

-- Servers.
-- The thread `i` starts the loop 10 + i.
abbrev tens : ℕ → ℕ
tens i = 10 + i

get_next_loops-started_example :
    get_elem? (get_next_loops 6 (start_pool tens 3 (new_pool 1))) 4 ≡ some (some 11)
get_next_loops-started_example = get_next_loops-started tens 3 1 6 4 (omega arith) (omega arith)

abbrev small_pool : Pool
small_pool = record { base_loop = 1; loops = 10 ∷ 20 ∷ []; next = 0 }

abbrev server_calls : List ServerOp
server_calls = accepts 5 ∷ accepts 6 ∷ removes_connection 1 ∷ []

new_server_connection-fresh_example :
    let s = run_server server_calls (new_tcp_server small_pool) in
    let s' = new_server_connection 7 s in
    (s.connections s.next_conn_id ≡ none)
    × ((c : ServerConnection) × (s'.connections s.next_conn_id ≡ some c) × (c.sockfd ≡ 7))
    × ((j : ℕ) (c : ServerConnection) → s.connections j ≡ some c → s'.connections j ≡ some c)
new_server_connection-fresh_example = new_server_connection-fresh small_pool server_calls 7
