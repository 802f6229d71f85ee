-- ===== src/Network/Connection/Keeps.antt =====
-- What a connection keeps to be sent, and its interest in writing.
use mathlib.Core.Path.{subst}
use coroutine_transaction.Base.{
  append-nil, length_zero, take-all, ℕ, ◌+◌, ◌≡◌, ◌∙◌, refl, sym, ap, inl, inr, Bool, true, false,
  not, ◌&&◌, List, [], ◌++◌, arith, ltb, leb, if◌then◌else◌, length, take, Bool-cases, ℕ-cases,
  ==-ne,
}
use coroutine_transaction.Network.Buffer.{readable_bytes, append}
use coroutine_transaction.Network.Buffer.View.{Valid, view, append-view}
use coroutine_transaction.Network.Channel.{
  Channel, Events, Index, new, added, deleted, is_none_event, update_channel, remove_channel,
  enables_writing, disables_writing, removes, channel_op,
}
use coroutine_transaction.Network.Connection.{
  Connection, high_water_mark, add_note, on_channel, start_writing, keep_rest,
}

pub update_channel-events : (ch : Channel) → (update_channel ch).events ≡ ch.events
unfolding update_channel
update_channel-events ch = go ch.index refl
  where
    go : (i : Index) → ch.index ≡ i → (update_channel ch).events ≡ ch.events
    go new e = rw (e, update_channel) refl
    go deleted e = rw (e, update_channel) refl
    go added e = elim (Bool-cases (is_none_event ch)) [
      | inl b ↦ rw (e, update_channel, b) refl
      | inr b ↦ rw (e, update_channel, b) refl
    ]

pub remove_channel-events : (ch : Channel) → (remove_channel ch).events ≡ ch.events
unfolding remove_channel
remove_channel-events ch = go ch.index refl
  where
    go : (i : Index) → ch.index ≡ i → (remove_channel ch).events ≡ ch.events
    go new e = rw (e, remove_channel) refl
    go deleted e = rw (e, remove_channel) refl
    go added e = rw (e, remove_channel) refl

-- What keeping bytes leaves.
pub record Keeps (rest : List ℕ) (c c' : Connection) : Type 0 where
  pub valid : Valid c'.output_buffer
  pub bytes : view c'.output_buffer ≡ view c.output_buffer ++ rest
  pub same_sent : c'.sent ≡ c.sent
  pub same_state : c'.state ≡ c.state
  pub same_shut : c'.shut ≡ c.shut
  pub idle : c'.channel.events.writing ≡ false → (c.channel.events.writing ≡ false) × (rest ≡ [])

pub apart : (b : Bool) → b ≡ true → b ≡ false → ⊥
apart b p q = cc (p, q)

enabled : (ch : Channel) → (channel_op enables_writing ch).events.writing ≡ true
unfolding channel_op
enabled ch = ap (λ (e : Events). e.writing) (update_channel-events _)

pub disabled : (ch : Channel) → (channel_op disables_writing ch).events.writing ≡ false
unfolding channel_op
disabled ch = ap (λ (e : Events). e.writing) (update_channel-events _)

pub removed : (ch : Channel) → (channel_op removes ch).events.writing ≡ ch.events.writing
unfolding channel_op
removed ch = ap (λ (e : Events). e.writing) (remove_channel-events ch)

start_writing-same :
    (c : Connection)
    → let c' = start_writing c in
      (c'.channel.events.writing ≡ true)
      × (c'.output_buffer ≡ c.output_buffer)
      × (c'.sent ≡ c.sent)
      × (c'.state ≡ c.state)
      × (c'.shut ≡ c.shut)
unfolding start_writing
start_writing-same c = elim (Bool-cases c.channel.events.writing) [
  | inl b ↦ subst Started (sym b) (b, refl, refl, refl, refl)
  | inr b ↦ subst Started (sym b) (enabled c.channel, refl, refl, refl, refl)
]
  where
    Started : Bool → Type 0
    Started x =
        let c' = if not x then on_channel enables_writing c else c in
        (c'.channel.events.writing ≡ true)
        × (c'.output_buffer ≡ c.output_buffer)
        × (c'.sent ≡ c.sent)
        × (c'.state ≡ c.state)
        × (c'.shut ≡ c.shut)

pub keep_rest-Keeps :
    (n : ℕ) (rest : List ℕ) (c : Connection)
    → Valid c.output_buffer
    → length rest ≡ n
    → Keeps rest c (keep_rest n rest c)
unfolding keep_rest
keep_rest-Keeps n rest c v l = elim (ℕ-cases n 0) [
  | inl z ↦
      let e : rest ≡ [] = length_zero rest (l ∙ z) in
      rw (z, keep_rest)
        (record {
          valid = v;
          bytes =
              sym (append-nil (view c.output_buffer))
              ∙ ap (λ (x : List ℕ). view c.output_buffer ++ x) (sym e);
          same_sent = refl;
          same_state = refl;
          same_shut = refl;
          idle = λ q. (q, e);
        })
  | inr nz ↦
      let full : take n rest ≡ rest = take-all n rest (omega arith) in
      let (v', e) = append-view rest c.output_buffer v in
      let old = readable_bytes c.output_buffer in
      let high = (leb c.high_mark (old + n) && ltb old c.high_mark) && c.has_high_water_mark in
      let c2 : Connection = record (add_note high (high_water_mark (old + n)) c) {
        output_buffer = append rest c.output_buffer;
      } in
      let (w, b, x, y, z) = start_writing-same c2 in
      rw (==-ne n 0 nz, keep_rest, full)
        (record {
          valid = subst Valid (sym b) v';
          bytes = ap view b ∙ e;
          same_sent = x;
          same_state = y;
          same_shut = z;
          idle = λ q. absurd (apart _ w q);
        })
]
