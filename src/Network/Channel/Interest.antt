-- ===== src/Network/Channel/Interest.antt =====
-- What the kernel watches for a channel.
use coroutine_transaction.Base.{
  ◌≡◌, refl, Bool, true, ◌&&◌, Option, none, some, List, [], ◌∷◌, inl, inr, Bool-cases,
}
use coroutine_transaction.Network.Channel.{
  Events, Index, new, added, deleted, ctl_add, ctl_mod, ctl_del, Ctl, Channel, new_channel,
  is_none_event, update_channel, remove_channel, ChannelOp, enables_reading, disables_reading,
  enables_writing, disables_writing, disables_all, removes, channel_op, channel_ops,
}

-- epoll_ctl on one descriptor, as its manual has it: a descriptor is added only if it is not there, and
-- changed or taken out only if it is.
pub record Epoll (K : Type 0) : Type 0 where
  pub epoll_ctl : Ctl → K → K × Bool
  pub interest : K → Option Events
  pub add_lem :
      (e : Events) (k : K)
      → interest k ≡ none
      → let r = epoll_ctl (record { op = ctl_add; events = e }) k in
        (r.1 ≡ true) × (interest r.0 ≡ some e)
  pub mod_lem :
      (e old : Events) (k : K)
      → interest k ≡ some old
      → let r = epoll_ctl (record { op = ctl_mod; events = e }) k in
        (r.1 ≡ true) × (interest r.0 ≡ some e)
  pub del_lem :
      (e old : Events) (k : K)
      → interest k ≡ some old
      → let r = epoll_ctl (record { op = ctl_del; events = e }) k in
        (r.1 ≡ true) × (interest r.0 ≡ none)

-- The events that the kernel is to watch.
abbrev pub watched : Channel → Option Events
watched ch = elim ch.index [ added ↦ some ch.events | _ ↦ none ]

module _ {K : Type 0} (epoll : Epoll K) where
  -- The calls of epoll_ctl made one after the other, and whether all succeed.
  pub replay : List Ctl → K → K × Bool
  replay [] k = (k, true)
  replay (c ∷ cs) k =
      let (k', ok) = replay cs k in let (k'', ok') = epoll.epoll_ctl c k' in (k'', ok && ok')

  -- All calls have succeeded, and the kernel watches what it is to watch.
  abbrev Synced : K → Channel → Type 0
  Synced k ch = let r = replay ch.ctls k in (r.1 ≡ true) × (epoll.interest r.0 ≡ watched ch)

  -- The kernel watches the descriptor exactly if the channel is added.
  abbrev Watches : Index → Option Events → Type 0
  Watches added o = (old : Events) × (o ≡ some old)
  Watches _ o = o ≡ none

  abbrev Known : K → Channel → Type 0
  Known k ch = let r = replay ch.ctls k in (r.1 ≡ true) × Watches ch.index (epoll.interest r.0)

  Known-of : (k : K) (ch : Channel) → Synced k ch → Known k ch
  Known-of k ch (ok, e) = (ok, from ch.index ch.events (epoll.interest (replay ch.ctls k).0) e)
    where
      from :
          (i : Index) (ev : Events) (o : Option Events)
          → o ≡ elim i as (λ _. Option Events) [ added ↦ some ev | _ ↦ none ]
          → Watches i o
      from new ev o e = e
      from added ev o e = (ev, e)
      from deleted ev o e = e

  -- One more call.
  replay-more :
      (c : Ctl) (cs : List Ctl) (k : K) (o : Option Events)
      → (replay cs k).1 ≡ true
      → (let r = epoll.epoll_ctl c (replay cs k).0 in (r.1 ≡ true) × (epoll.interest r.0 ≡ o))
      → let r = replay (c ∷ cs) k in (r.1 ≡ true) × (epoll.interest r.0 ≡ o)
  unfolding replay
  replay-more c cs k o ok (ok', e) = (rw (ok, replay, ok') refl, e)

  update_channel-Synced : (k : K) (ch : Channel) → Known k ch → Synced k (update_channel ch)
  unfolding update_channel
  update_channel-Synced k ch (ok, w) = go ch.index refl w
    where
      go :
          (i : Index)
          → ch.index ≡ i
          → Watches i (epoll.interest (replay ch.ctls k).0)
          → Synced k (update_channel ch)
      go new e w =
          rw (e, update_channel)
            (replay-more _ ch.ctls k (some ch.events) ok
              (epoll.add_lem ch.events (replay ch.ctls k).0 w))
      go deleted e w =
          rw (e, update_channel)
            (replay-more _ ch.ctls k (some ch.events) ok
              (epoll.add_lem ch.events (replay ch.ctls k).0 w))
      go added e (old, w) = elim (Bool-cases (is_none_event ch)) [
        | inl b ↦
            rw (e, update_channel, b)
              (replay-more (record { op = ctl_del; events = ch.events }) ch.ctls k none ok
                (epoll.del_lem ch.events old (replay ch.ctls k).0 w))
        | inr b ↦
            rw (e, update_channel, b)
              (replay-more (record { op = ctl_mod; events = ch.events }) ch.ctls k (some ch.events)
                ok (epoll.mod_lem ch.events old (replay ch.ctls k).0 w))
      ]

  remove_channel-Synced : (k : K) (ch : Channel) → Known k ch → Synced k (remove_channel ch)
  unfolding remove_channel
  remove_channel-Synced k ch (ok, w) = go ch.index refl w
    where
      go :
          (i : Index)
          → ch.index ≡ i
          → Watches i (epoll.interest (replay ch.ctls k).0)
          → Synced k (remove_channel ch)
      go new e w = rw (e, remove_channel) (ok, w)
      go deleted e w = rw (e, remove_channel) (ok, w)
      go added e (old, w) =
          rw (e, remove_channel)
            (replay-more (record { op = ctl_del; events = ch.events }) ch.ctls k none ok
              (epoll.del_lem ch.events old (replay ch.ctls k).0 w))

  pub channel_op-Synced :
      (k : K) (op : ChannelOp) (ch : Channel) → Synced k ch → Synced k (channel_op op ch)
  unfolding channel_op
  channel_op-Synced k enables_reading ch h = update_channel-Synced k _ (Known-of k ch h)
  channel_op-Synced k disables_reading ch h = update_channel-Synced k _ (Known-of k ch h)
  channel_op-Synced k enables_writing ch h = update_channel-Synced k _ (Known-of k ch h)
  channel_op-Synced k disables_writing ch h = update_channel-Synced k _ (Known-of k ch h)
  channel_op-Synced k disables_all ch h = update_channel-Synced k _ (Known-of k ch h)
  channel_op-Synced k removes ch h = remove_channel-Synced k ch (Known-of k ch h)

  channel_ops-kept :
      (k : K) (ops : List ChannelOp) (ch : Channel) → Synced k ch → Synced k (channel_ops ops ch)
  unfolding channel_ops
  channel_ops-kept k [] ch h = h
  channel_ops-kept k (op ∷ ops) ch h =
      channel_ops-kept k ops (channel_op op ch) (channel_op-Synced k op ch h)

  -- Whatever is enabled, disabled and removed on a new channel, in any order: no call of epoll_ctl
  -- fails, and the kernel then watches the channel's events if it is added, and else nothing.
  pub channel_ops-watched :
      (k : K) (ops : List ChannelOp)
      → epoll.interest k ≡ none
      → let ch = channel_ops ops new_channel in
        let r = replay ch.ctls k in (r.1 ≡ true) × (epoll.interest r.0 ≡ watched ch)
  unfolding replay
  channel_ops-watched k ops h = channel_ops-kept k ops new_channel (refl, h)
