-- ===== src/Network/Connection/Runs.antt =====
-- A connection from its start on: what is sent, in any order of calls.
use mathlib.Core.Path.{subst}
use coroutine_transaction.Base.{
  append-nil, append_assoc, ℕ, ◌≤◌, ◌<◌, ◌≡◌, ◌∙◌, refl, sym, ap, inl, inr, Bool, true, false, not,
  List, [], ◌∷◌, ◌++◌, arith, ltb, All, if◌then◌else◌, length, Bool-cases,
}
use coroutine_transaction.Network.Buffer.{new_buffer, initial_size, read_fd}
use coroutine_transaction.Network.Buffer.View.{Valid, view}
use coroutine_transaction.Network.Connection.{
  Connection, disconnected, disconnecting, is_connected, is_disconnected, wrote, size_mod,
  new_connection, send, shutdown_in_loop, shutdown, connect_established, connect_destoryed,
  handle_close, handle_read, handle_write,
}
use coroutine_transaction.Network.Connection.Keeps.{apart, removed}
use coroutine_transaction.Network.Connection.Stream.{
  Sound, not_disconnected, send-Sound, handle_write-Sound, view_nil,
}

-- A connection that is closed sends no more.
closed-Sound :
    (total : List ℕ) (c c' : Connection)
    → Sound total c
    → (c'.output_buffer ≡ c.output_buffer)
      × (c'.sent ≡ c.sent)
      × (c'.shut ≡ c.shut)
      × (c'.state ≡ disconnected)
    → Sound total c'
closed-Sound total c c' h (b, s, z, d) = record {
  valid = subst Valid (sym b) h.valid;
  stream = cc (s, b, h.stream);
  eager = λ _ q. cc (d, q);
  drained = λ q. (let (x, _) = h.drained (sym z ∙ q) in (ap view b ∙ x, ap is_connected d));
}

handle_read-Sound :
    (total bytes : List ℕ) (c : Connection) → Sound total c → Sound total (handle_read bytes c)
unfolding handle_read handle_close
handle_read-Sound total bytes c h = elim (Bool-cases (ltb 0 (read_fd bytes c.input_buffer).1)) [
  | inl b ↦
      rw (b, handle_read)
        (record { valid = h.valid; stream = h.stream; eager = h.eager; drained = h.drained })
  | inr b ↦ rw (b, handle_read) (closed-Sound total c _ h (refl, refl, refl, refl))
]

shutdown-Sound : (total : List ℕ) (c : Connection) → Sound total c → Sound total (shutdown c)
unfolding shutdown shutdown_in_loop
shutdown-Sound total c h = elim (Bool-cases (is_connected c.state)) [
  | inr b ↦ rw (b, shutdown) h
  | inl b ↦
      let up = not_disconnected c.state b in
      elim (Bool-cases c.channel.events.writing) [
        | inl w ↦
            rw (b, shutdown)
              (subst
                (λ (x : Bool). Sound total (
                  if not x
                  then record c { state = disconnecting; shut = true }
                  else record c { state = disconnecting }))
                (sym w)
                (record {
                  valid = h.valid;
                  stream = h.stream;
                  eager = λ q _. absurd (apart _ w q);
                  drained = λ q. ((h.drained q).0, refl);
                }))
        | inr w ↦
            rw (b, shutdown)
              (subst
                (λ (x : Bool). Sound total (
                  if not x
                  then record c { state = disconnecting; shut = true }
                  else record c { state = disconnecting }))
                (sym w)
                (record {
                  valid = h.valid;
                  stream = h.stream;
                  eager = λ q _. h.eager q up;
                  drained = λ q. (h.eager w up, refl);
                }))
      ]
]

connect_destoryed-Sound :
    (total : List ℕ) (c : Connection) → Sound total c → Sound total (connect_destoryed c)
unfolding connect_destoryed
connect_destoryed-Sound total c h = elim (Bool-cases (is_disconnected c.state)) [
  | inl b ↦ rw (b, connect_destoryed) (closed-Sound total c _ h (refl, refl, refl, refl))
  | inr b ↦
      rw (b, connect_destoryed)
        (record {
          valid = h.valid;
          stream = h.stream;
          eager = λ q. h.eager (sym (removed c.channel) ∙ q);
          drained = h.drained;
        })
]

-- What happens to a connection that is established: messages are sent, of which write takes the first
-- `k` bytes, the poller reports that it can be read or written, it is shut down and destroyed.
pub data Op : Type 0 where
  sends : (before k : ℕ) (message : List ℕ) → Op
  writes : ℕ → Op
  reads : List ℕ → Op
  shuts destroys : Op

unfoldable pub run_op : Op → Connection → Connection
unfolding send handle_write handle_read shutdown connect_destoryed
run_op (sends before k message) c = send before (wrote k) message c
run_op (writes k) c = handle_write (wrote k) c
run_op (reads bytes) c = handle_read bytes c
run_op shuts c = shutdown c
run_op destroys c = connect_destoryed c

unfoldable pub run_ops : List Op → Connection → Connection
unfolding run_op
run_ops [] c = c
run_ops (op ∷ ops) c = run_ops ops (run_op op c)

-- The messages that are sent while the connection is connected.
abbrev pub message_of : Op → Connection → List ℕ
message_of (sends _ _ message) c = if is_connected c.state then message else []
message_of _ c = []

pub messages : List Op → Connection → List ℕ
unfolding run_op
messages [] c = []
messages (op ∷ ops) c = message_of op c ++ messages ops (run_op op c)

-- The write of a message takes no more than there is, and the message is shorter than 2 ^ 64.
abbrev pub Fits : Op → Type 0
Fits (sends _ k message) = (k ≤ length message) × (length message < size_mod)
Fits _ = Unit

run_op-Sound :
    (op : Op) (total : List ℕ) (c : Connection)
    → Fits op
    → Sound total c
    → Sound (total ++ message_of op c) (run_op op c)
unfolding run_op
run_op-Sound (sends before k message) total c (fit, small) h =
    elim (Bool-cases (is_connected c.state)) [
      | inl b ↦ subst Sent (sym b) (send-Sound total before k message c fit small b h)
      | inr b ↦ subst Sent (sym b) (
          subst (λ (t : List ℕ). Sound t (send before (wrote k) message c)) (sym (append-nil total))
            (unsent b))
    ]
  where
    Sent : Bool → Type 0
    Sent x = Sound (total ++ (if x then message else [])) (send before (wrote k) message c)

    unsent : is_connected c.state ≡ false → Sound total (send before (wrote k) message c)
    unsent b = rw (send, b) h
run_op-Sound (writes k) total c f h =
    subst (λ (t : List ℕ). Sound t (run_op (writes k) c)) (sym (append-nil total))
      (handle_write-Sound total k c h)
run_op-Sound (reads bytes) total c f h =
    subst (λ (t : List ℕ). Sound t (run_op (reads bytes) c)) (sym (append-nil total))
      (handle_read-Sound total bytes c h)
run_op-Sound shuts total c f h =
    subst (λ (t : List ℕ). Sound t (run_op shuts c)) (sym (append-nil total))
      (shutdown-Sound total c h)
run_op-Sound destroys total c f h =
    subst (λ (t : List ℕ). Sound t (run_op destroys c)) (sym (append-nil total))
      (connect_destoryed-Sound total c h)

-- A connection that has been established.
abbrev pub established : ℕ → Bool → Bool → Connection
established high has_complete has_high = connect_established (record new_connection {
  high_mark = high;
  has_write_complete = has_complete;
  has_high_water_mark = has_high;
})

established-Sound :
    (high : ℕ) (has_complete has_high : Bool) → Sound [] (established high has_complete has_high)
unfolding connect_established
established-Sound high has_complete has_high = record {
  valid = record { prepend = omega arith; ordered = omega arith; inside = omega arith };
  stream = empty;
  eager = λ _ _. empty;
  drained = λ q. cc q;
}
  where
    empty : view (new_buffer initial_size) ≡ []
    empty = view_nil (new_buffer initial_size) refl

run_ops-Sound :
    (ops : List Op) (total : List ℕ) (c : Connection)
    → All Fits ops
    → Sound total c
    → Sound (total ++ messages ops c) (run_ops ops c)
unfolding run_ops messages
run_ops-Sound [] total c f h = subst (λ t. Sound t c) (sym (append-nil total)) h
run_ops-Sound (op ∷ ops) total c (f, fs) h =
    subst (λ t. Sound t (run_ops ops (run_op op c)))
      (append_assoc total (message_of op c) (messages ops (run_op op c)))
      (run_ops-Sound ops (total ++ message_of op c) (run_op op c) fs (run_op-Sound op total c f h))

-- On an established connection, in any order of messages, reads, writes, shutdown and destruction, where
-- no write fails: what write has taken and what waits are together the messages that were sent while
-- it was connected, in order. If anything waits on a connection that is not closed, the channel is
-- interested in writing, and the socket is shut for writing only when nothing waits.
pub run_ops-stream :
    (high : ℕ) (has_complete has_high : Bool) (ops : List Op)
    → All Fits ops
    → let start = established high has_complete has_high in
      let c = run_ops ops start in
      (c.sent ++ view c.output_buffer ≡ messages ops start)
      × (c.channel.events.writing ≡ false
          → is_disconnected c.state ≡ false
          → view c.output_buffer ≡ [])
      × (c.shut ≡ true → view c.output_buffer ≡ [])
run_ops-stream high has_complete has_high ops f =
    let h =
      run_ops-Sound ops [] (established high has_complete has_high) f
        (established-Sound high has_complete has_high) in
    (h.stream, h.eager, λ q. (h.drained q).0)
