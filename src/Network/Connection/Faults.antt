-- ===== src/Network/Connection/Faults.antt =====
-- A write that returns -1: its result is kept in a size_t, so that the tests for an error never hold.
use coroutine_transaction.Base.{
  append-nil, drop_nil, ℕ, zero, suc, ◌-◌, ◌≤◌, ◌<◌, ◌≡◌, ◌∙◌, refl, sym, ap, inl, inr, Bool, true,
  false, not, ◌&&◌, List, [], ◌∷◌, ◌++◌, arith, ◌==◌, if◌then◌else◌, length, drop, Bool-cases,
}
use mathlib.Core.Path.{subst}
use coroutine_transaction.Network.Buffer.{readable_bytes, retrieve}
use coroutine_transaction.Network.Buffer.Slices.{length-slice}
use coroutine_transaction.Network.Buffer.View.{Valid, view, retrieve-view}
use coroutine_transaction.Network.Connection.{
  Connection, is_connected, is_disconnecting, add_note, write_complete, refused, size_mod,
  remaining, send_direct, send_in_loop, send, shutdown_in_loop, all_sent, write_out, handle_write,
}
use coroutine_transaction.Network.Connection.Keeps.{disabled, keep_rest-Keeps}
use coroutine_transaction.Network.Connection.Stream.{not_disconnected}

-- Nothing waits on a connected connection, and write refuses the message, as it does when the socket
-- takes no more: what is kept to be sent is the byte before the message and then the message.
pub send-refused :
    (before : ℕ) (message : List ℕ) (c : Connection)
    → Valid c.output_buffer
    → is_connected c.state ≡ true
    → c.channel.events.writing ≡ false
    → view c.output_buffer ≡ []
    → suc (length message) < size_mod
    → let c' = send before refused message c in
      (view c'.output_buffer ≡ before ∷ message) × (c'.sent ≡ c.sent)
unfolding send send_in_loop send_direct
send-refused before message c v up w e small =
    let z : readable_bytes c.output_buffer ≡ 0 =
      sym (
        length-slice c.output_buffer.cells c.output_buffer.reader_idx
          (readable_bytes c.output_buffer))
      ∙ ap length e in
    let free : (not c.channel.events.writing && readable_bytes c.output_buffer == 0) ≡ true =
      ground arith in
    let n = remaining refused (length message) in
    let l : length (before ∷ message) ≡ n = omega arith in
    let c1 : Connection =
      add_note ((n == 0) && c.has_write_complete) write_complete
        (record c { sent = c.sent ++ [] }) in
    let k = keep_rest-Keeps n (before ∷ message) c1 v l in
    rw (up, not_disconnected c.state up, free)
      (k.bytes ∙ ap (λ (x : List ℕ). x ++ (before ∷ message)) e, k.same_sent ∙ append-nil c.sent)

drop-long : (n : ℕ) (xs : List ℕ) → length xs ≤ n → drop n xs ≡ []
drop-long n [] h = drop_nil n
drop-long zero (x ∷ xs) h = absurd (omega arith)
drop-long (suc n) (x ∷ xs) h = drop-long n xs (omega arith)

all_sent-same :
    (c : Connection) → ((all_sent c).output_buffer ≡ c.output_buffer) × ((all_sent c).sent ≡ c.sent)
unfolding all_sent shutdown_in_loop
all_sent-same c = elim (Bool-cases (is_disconnecting c.state)) [
  | inr b ↦ rw (b, all_sent) (refl, refl)
  | inl b ↦ rw (b, all_sent, disabled c.channel) (refl, refl)
]

-- Bytes wait on a channel that writes, and write fails when the poller reports it: all of them are
-- dropped, and none has been sent.
pub handle_write-refused :
    (c : Connection)
    → Valid c.output_buffer
    → c.channel.events.writing ≡ true
    → suc (length (view c.output_buffer)) < size_mod
    → let c' = handle_write refused c in (view c'.output_buffer ≡ []) × (c'.sent ≡ c.sent)
unfolding handle_write write_out
handle_write-refused c v w small =
    let n = size_mod - 1 in
    let (v', e) = retrieve-view n c.output_buffer v in
    let gone : view (retrieve n c.output_buffer) ≡ [] =
      e ∙ drop-long n (view c.output_buffer) (omega arith) in
    let b = retrieve n c.output_buffer in
    let z : readable_bytes b ≡ 0 =
      sym (length-slice b.cells b.reader_idx (readable_bytes b)) ∙ ap length gone in
    let c2 : Connection = record c { sent = c.sent ++ []; output_buffer = b } in
    let (x, y) = all_sent-same c2 in
    subst
      (λ (t : Bool).
        (let c' = if not t then c else write_out refused c in
          (view c'.output_buffer ≡ []) × (c'.sent ≡ c.sent)))
      (sym w) (rw (write_out, z) (ap view x ∙ gone, y ∙ append-nil c.sent))
