-- ===== src/Network/Connection/Stream.antt =====
-- The bytes that a connection sends.
use mathlib.Core.Path.{subst}
use coroutine_transaction.Base.{
  append-nil, append_assoc, length_zero, take-drop, drop_nil, length-drop, ℕ, ◌-◌, ◌≤◌, ◌<◌, ◌≡◌,
  ◌∙◌, refl, sym, ap, inl, inr, Bool, true, false, not, ◌&&◌, List, [], ◌++◌, arith, ltb, ◌==◌,
  if◌then◌else◌, length, take, drop, Bool-cases, ℕ-cases, ==-ne,
}
use coroutine_transaction.Network.Buffer.{Buffer, readable_bytes, retrieve}
use coroutine_transaction.Network.Buffer.Slices.{length-slice}
use coroutine_transaction.Network.Buffer.View.{Valid, view, retrieve-view}
use coroutine_transaction.Network.Connection.{
  Connection, ConnectionState, disconnected, connecting, connected, disconnecting, is_connected,
  is_disconnected, is_disconnecting, write_complete, add_note, wrote, size_mod, remaining,
  send_direct, send_in_loop, send, shutdown_in_loop, all_sent, write_out, handle_write,
}
use coroutine_transaction.Network.Connection.Keeps.{Keeps, apart, disabled, keep_rest-Keeps}

-- The state of the bytes: `total` is what was sent and what waits, nothing waits without an interest in
-- writing, and the socket is shut for writing only once nothing waits.
pub record Sound (total : List ℕ) (c : Connection) : Type 0 where
  pub valid : Valid c.output_buffer
  pub stream : c.sent ++ view c.output_buffer ≡ total
  pub eager :
      c.channel.events.writing ≡ false → is_disconnected c.state ≡ false → view c.output_buffer ≡ []
  pub drained : c.shut ≡ true → (view c.output_buffer ≡ []) × (is_connected c.state ≡ false)

kept-Sound :
    (total rest : List ℕ) (c c' : Connection)
    → Keeps rest c c'
    → c.sent ++ (view c.output_buffer ++ rest) ≡ total
    → (c.channel.events.writing ≡ false → view c.output_buffer ≡ [])
    → (c.shut ≡ true → ⊥)
    → Sound total c'
kept-Sound total rest c c' k e lazy open_ = record {
  valid = k.valid;
  stream = cc (k.same_sent, k.bytes, e);
  eager = λ q d. (let (w, r) = k.idle q in let x = lazy w in k.bytes ∙ cc (x, r));
  drained = λ q. absurd (open_ (sym k.same_shut ∙ q));
}

pub not_disconnected : (s : ConnectionState) → is_connected s ≡ true → is_disconnected s ≡ false
not_disconnected connected e = refl
not_disconnected connecting e = refl
not_disconnected disconnected e = cc e
not_disconnected disconnecting e = refl

remaining-wrote : (k len : ℕ) → k ≤ len → len < size_mod → remaining (wrote k) len ≡ len - k
remaining-wrote k len h l = omega arith

-- A message that is sent on a connected connection is sent or waits, behind the others.
pub send-Sound :
    (total : List ℕ) (before k : ℕ) (message : List ℕ) (c : Connection)
    → k ≤ length message
    → length message < size_mod
    → is_connected c.state ≡ true
    → Sound total c
    → Sound (total ++ message) (send before (wrote k) message c)
unfolding send send_in_loop send_direct
send-Sound total before k message c fit small up h =
    let is_open : c.shut ≡ true → ⊥ = λ q. cc (up, (h.drained q).1) in
    let lazy = λ (q : c.channel.events.writing ≡ false). h.eager q (not_disconnected c.state up) in
    elim (Bool-cases (not c.channel.events.writing && readable_bytes c.output_buffer == 0)) [
      | inr b ↦
          rw (up, not_disconnected c.state up, b)
            (kept-Sound (total ++ message) message c _
              (keep_rest-Keeps (length message) message c h.valid refl)
              (sym (append_assoc c.sent (view c.output_buffer) message)
                ∙ ap (λ (x : List ℕ). x ++ message) h.stream)
              lazy is_open)
      | inl b ↦
          let empty : view c.output_buffer ≡ [] = nothing c b in
          let n = remaining (wrote k) (length message) in
          let c1 : Connection =
            add_note ((n == 0) && c.has_write_complete) write_complete
              (record c { sent = c.sent ++ take k message }) in
          rw (up, not_disconnected c.state up, b)
            (kept-Sound (total ++ message) (drop k message) c1 _
              (keep_rest-Keeps n (drop k message) c1 h.valid
                (length-drop k message ∙ sym (remaining-wrote k (length message) fit small)))
              (split c.sent (view c.output_buffer) total empty h.stream) lazy is_open)
    ]
  where
    nothing :
        (d : Connection)
        → (not d.channel.events.writing && readable_bytes d.output_buffer == 0) ≡ true
        → view d.output_buffer ≡ []
    nothing d b =
        let z : readable_bytes d.output_buffer ≡ 0 = ground arith in
        length_zero (view d.output_buffer) (
          length-slice d.output_buffer.cells d.output_buffer.reader_idx
            (readable_bytes d.output_buffer)
          ∙ z)

    split :
        (xs ys zs : List ℕ)
        → ys ≡ []
        → xs ++ ys ≡ zs
        → (xs ++ take k message) ++ (ys ++ drop k message) ≡ zs ++ message
    split xs ys zs e f =
        let a = append_assoc xs (take k message) (drop k message) in
        let b = take-drop k message in let d = append-nil xs in rw e (a ∙ cc (b, d, e, f))

all_sent-Sound :
    (total : List ℕ) (c : Connection)
    → Valid c.output_buffer
    → c.sent ++ view c.output_buffer ≡ total
    → view c.output_buffer ≡ []
    → (c.shut ≡ true → is_connected c.state ≡ false)
    → Sound total (all_sent c)
unfolding all_sent shutdown_in_loop
all_sent-Sound total c v e z d = elim (Bool-cases (is_disconnecting c.state)) [
  | inr b ↦
      rw (b, all_sent) (record { valid = v; stream = e; eager = λ _ _. z; drained = λ q. (z, d q) })
  | inl b ↦
      rw (b, all_sent, disabled c.channel)
        (record { valid = v; stream = e; eager = λ _ _. z; drained = λ q. (z, closing c.state b) })
]
  where
    closing : (s : ConnectionState) → is_disconnecting s ≡ true → is_connected s ≡ false
    closing disconnecting e = refl
    closing connected e = cc e
    closing connecting e = refl
    closing disconnected e = refl

pub view_nil : (b : Buffer) → readable_bytes b ≡ 0 → view b ≡ []
view_nil b z = length_zero (view b) (length-slice b.cells b.reader_idx (readable_bytes b) ∙ z)

write_out-Sound :
    (total : List ℕ) (k : ℕ) (c : Connection)
    → c.channel.events.writing ≡ true
    → Sound total c
    → Sound total (write_out (wrote k) c)
unfolding write_out
write_out-Sound total k c b h =
    let out = view c.output_buffer in
    let (v, e) = retrieve-view k c.output_buffer h.valid in
    let moved : (c.sent ++ take k out) ++ drop k out ≡ total =
      append_assoc c.sent (take k out) (drop k out)
      ∙ ap (λ (x : List ℕ). c.sent ++ x) (take-drop k out)
      ∙ h.stream in
    elim (ℕ-cases k 0) [
      | inl z ↦
          rw (z, write_out)
            (record {
              valid = h.valid;
              stream = ap (λ (x : List ℕ). x ++ out) (append-nil c.sent) ∙ h.stream;
              eager = λ q. absurd (apart _ b q);
              drained = h.drained;
            })
      | inr n ↦
          let pos : ltb 0 k ≡ true = ground arith in
          let c2 : Connection = record c {
            sent = c.sent ++ take k out;
            output_buffer = retrieve k c.output_buffer;
          } in
          elim (ℕ-cases (readable_bytes (retrieve k c.output_buffer)) 0) [
            | inl z ↦
                rw (pos, write_out, z)
                  (all_sent-Sound total c2 v
                    (ap (λ (x : List ℕ). (c.sent ++ take k out) ++ x) e ∙ moved)
                    (view_nil (retrieve k c.output_buffer) z) (λ q. (h.drained q).1))
            | inr m ↦
                rw (pos, write_out, ==-ne _ 0 m)
                  (record {
                    valid = v;
                    stream = ap (λ (x : List ℕ). (c.sent ++ take k out) ++ x) e ∙ moved;
                    eager = λ q. absurd (apart _ b q);
                    drained =
                        λ q. (let (x, y) = h.drained q in (e ∙ ap (drop k) x ∙ drop_nil k, y));
                  })
          ]
    ]

-- What write takes leaves the buffer, in order.
pub handle_write-Sound :
    (total : List ℕ) (k : ℕ) (c : Connection)
    → Sound total c
    → Sound total (handle_write (wrote k) c)
unfolding handle_write
handle_write-Sound total k c h = elim (Bool-cases c.channel.events.writing) [
  | inr b ↦ subst (λ (x : Bool). Sound total (if not x then c else write_out (wrote k) c)) (sym b) h
  | inl b ↦
      (let w = write_out-Sound total k c b h in
        subst (λ (x : Bool). Sound total (if not x then c else write_out (wrote k) c)) (sym b) w)
]
