-- ===== src/Network/Poll/Handled.antt =====
-- The rounds of a loop while many descriptors are ready.
use coroutine_transaction.Base.{
  ℕ, ◌*◌, ◌≤◌, ◌<◌, ◌≡◌, ◌∙◌, refl, sym, ap, inl, inr, List, [], ◌∷◌, ◌++◌, arith, ltb, length, All,
  Elem, update, update_self, update-ne, append-nil, append_assoc, Bool-cases,
}
use coroutine_transaction.Network.Channel.{Revents, Callback}
use coroutine_transaction.Network.Poll.{
  Event, Waited, reported, failed, Poller, Handler, fill_active_channels, poll, handle_event,
  handle_active, poll_round,
}

-- epoll_wait as its manual has it: of the descriptors that are ready it reports all if there is room for
-- them, and else as many as there is room for.
pub record EpollWait : Type 0 where
  pub epoll_wait : ℕ → List Event → List Event
  pub full_lem :
      (room : ℕ) (es : List Event) → room ≤ length es → length (epoll_wait room es) ≡ room
  pub all_lem : (room : ℕ) (es : List Event) → length es ≤ room → epoll_wait room es ≡ es

-- A call of epoll_wait fails, or finds these events.
pub data Round : Type 0 where
  interrupted : ℕ → Round
  ready : List Event → Round

abbrev pub wait : EpollWait → ℕ → Round → Waited
wait w room (interrupted errno) = failed errno
wait w room (ready es) = reported (w.epoll_wait room es)

-- At least `n` channels are ready whenever epoll_wait does not fail.
abbrev pub Busy : ℕ → Round → Type 0
Busy n (interrupted _) = Unit
Busy n (ready es) = n ≤ length es

-- The room for events, doubled by every round that does not fail.
abbrev pub doubled : List Round → ℕ → ℕ
doubled [] room = room
doubled (interrupted _ ∷ rs) room = doubled rs room
doubled (ready _ ∷ rs) room = doubled rs (room * 2)

abbrev pub channels : List Event → List ℕ
channels [] = []
channels (e ∷ es) = e.channel ∷ channels es

abbrev pub Once : List Event → Type 0
Once [] = Unit
Once (e ∷ es) = (Elem e.channel (channels es) → ⊥) × Once es

fill-other :
    (es : List Event) (revents : ℕ → Revents) (active : List ℕ) (j : ℕ)
    → (Elem j (channels es) → ⊥)
    → (fill_active_channels es revents active).0 j ≡ revents j
unfolding fill_active_channels
fill-other [] revents active j h = refl
fill-other (e ∷ es) revents active j h =
    fill-other es (update revents e.channel e.events) _ j (λ q. h (inr q))
    ∙ update-ne revents e.channel e.events j (λ q. h (inl q))

fill-active :
    (es : List Event) (revents : ℕ → Revents) (active : List ℕ)
    → (fill_active_channels es revents active).1 ≡ active ++ channels es
unfolding fill_active_channels
fill-active [] revents active = sym (append-nil active)
fill-active (e ∷ es) revents active =
    fill-active es _ (active ++ (e.channel ∷ []))
    ∙ append_assoc active (e.channel ∷ []) (channels es)

-- The channel has the events that were reported.
abbrev Shown : (ℕ → Revents) → Event → Type 0
Shown f e = f e.channel ≡ e.events

fill-Shown :
    (es : List Event) (revents : ℕ → Revents) (active : List ℕ)
    → Once es
    → All (Shown (fill_active_channels es revents active).0) es
unfolding fill_active_channels
fill-Shown [] revents active o = tt
fill-Shown (e ∷ es) revents active (once, o) =
    (fill-other es _ _ e.channel once ∙ update_self revents e.channel e.events, fill-Shown es _ _ o)

-- What poll leaves of the active channels.
poll-channels :
    (es : List Event) (p : Poller)
    → let r = poll (reported es) p [] in
      (r.1 ≡ channels es) × (r.0.revents ≡ (fill_active_channels es p.revents []).0)
unfolding poll fill_active_channels
poll-channels [] p = (refl, refl)
poll-channels (e ∷ es) p = (fill-active (e ∷ es) p.revents [], refl)

-- A poll never takes room away.
poll-room : (waited : Waited) (p : Poller) → p.event_room ≤ (poll waited p []).0.event_room
unfolding poll
poll-room (failed errno) p = omega arith
poll-room (reported []) p = omega arith
poll-room (reported (e ∷ es)) p = ground arith

-- It doubles the room that it fills.
poll-full :
    (es : List Event) (p : Poller)
    → 0 < p.event_room
    → length es ≡ p.event_room
    → (poll (reported es) p []).0.event_room ≡ p.event_room * 2
unfolding poll
poll-full [] p h e = absurd (omega arith)
poll-full (e ∷ es) p h q = ground arith

doubled-le : (rs : List Round) (a b : ℕ) → a ≤ b → doubled rs a ≤ doubled rs b
doubled-le [] a b h = h
doubled-le (interrupted _ ∷ rs) a b h = doubled-le rs a b h
doubled-le (ready _ ∷ rs) a b h = doubled-le rs (a * 2) (b * 2) (omega arith)

doubled-cons :
    (r : Round) (rs : List Round) (room : ℕ)
    → doubled (r ∷ rs) room ≡ doubled rs (doubled (r ∷ []) room)
doubled-cons (interrupted _) rs room = refl
doubled-cons (ready _) rs room = refl

module _ {S : Type 0} (handler : S → ℕ → Handler) (run : ℕ → Callback → S → S) where
  -- Every event handled on its own.
  abbrev pub handle_each : List Event → S → S
  handle_each [] s = s
  handle_each (e ∷ es) s = handle_each es (handle_event handler run e.channel e.events s)

  abbrev pub on_ticks : EpollWait → List Round → Poller × S → Poller × S
  on_ticks w [] ps = ps
  on_ticks w (r ∷ rs) ps = on_ticks w rs (poll_round handler run (wait w ps.0.event_room r) ps)

  handle_active-each :
      (f : ℕ → Revents) (es : List Event) (s : S)
      → All (Shown f) es
      → handle_active handler run f (channels es) s ≡ handle_each es s
  unfolding handle_active
  handle_active-each f [] s h = refl
  handle_active-each f (e ∷ es) s (h, hs) =
      ap
        (λ (r : Revents).
          handle_active handler run f (channels es) (handle_event handler run e.channel r s))
        h
      ∙ handle_active-each f es (handle_event handler run e.channel e.events s) hs

  poll_round-each :
      (es : List Event) (p : Poller) (s : S)
      → Once es
      → (poll_round handler run (reported es) (p, s)).1 ≡ handle_each es s
  unfolding poll_round
  poll_round-each es p s o =
      let (a, r) = poll-channels es p in
      rw (a, r) (handle_active-each _ es s (fill-Shown es p.revents [] o))

  -- A round that fills the room for events doubles it, and no round takes room away.
  poll_round-room :
      (w : EpollWait) (n : ℕ) (r : Round) (ps : Poller × S)
      → Busy n r
      → ps.0.event_room ≤ n
      → 0 < ps.0.event_room
      → doubled (r ∷ []) ps.0.event_room
        ≤ (poll_round handler run (wait w ps.0.event_room r) ps).0.event_room
  unfolding poll_round
  poll_round-room w n (interrupted errno) (p, s) b le h = poll-room (failed errno) p
  poll_round-room w n (ready es) (p, s) b le h =
      let full = w.full_lem p.event_room es (omega arith) in
      let e = poll-full (w.epoll_wait p.event_room es) p h full in omega arith

  poll_round-keeps :
      (w : EpollWait) (r : Round) (ps : Poller × S)
      → ps.0.event_room ≤ (poll_round handler run (wait w ps.0.event_room r) ps).0.event_room
  unfolding poll_round
  poll_round-keeps w r (p, s) = poll-room (wait w p.event_room r) p

  on_ticks-keeps :
      (w : EpollWait) (rs : List Round) (ps : Poller × S)
      → ps.0.event_room ≤ (on_ticks w rs ps).0.event_room
  on_ticks-keeps w [] ps = omega arith
  on_ticks-keeps w (r ∷ rs) ps =
      let ps' = poll_round handler run (wait w ps.0.event_room r) ps in
      let a = poll_round-keeps w r ps in let b = on_ticks-keeps w rs ps' in omega arith

  on_ticks-room :
      (w : EpollWait) (n : ℕ) (rs : List Round) (ps : Poller × S)
      → All (Busy n) rs
      → 0 < ps.0.event_room
      → n < doubled rs ps.0.event_room
      → n < (on_ticks w rs ps).0.event_room
  on_ticks-room w n [] ps b h lt = lt
  on_ticks-room w n (r ∷ rs) ps (b, bs) h lt =
      let room = ps.0.event_room in
      let ps' = poll_round handler run (wait w room r) ps in
      let keeps = poll_round-keeps w r ps in
      elim (Bool-cases (ltb n room)) [
        | inl e ↦ let k = on_ticks-keeps w rs ps' in ground arith
        | inr e ↦
            let g = poll_round-room w n r ps b (ground arith) h in
            let d = doubled-le rs (doubled (r ∷ []) room) ps'.0.event_room g in
            let q = doubled-cons r rs room in
            on_ticks-room w n rs ps' bs (omega arith) (omega arith)
      ]

  -- At least `n` channels are ready in every one of some rounds in which epoll_wait does not fail, and
  -- the room for events, doubled by each of them, is more than `n`. Then a round in which at most `n`
  -- channels are ready, each reported once, handles all of them, each with its own events and in order.
  pub on_ticks-handled :
      (w : EpollWait) (n : ℕ) (rs : List Round) (es : List Event) (ps : Poller × S)
      → 0 < ps.0.event_room
      → All (Busy n) rs
      → n < doubled rs ps.0.event_room
      → length es ≤ n
      → Once es
      → let ps' = on_ticks w rs ps in
        (poll_round handler run (wait w ps'.0.event_room (ready es)) ps').1 ≡ handle_each es ps'.1
  on_ticks-handled w n rs es ps h b lt le o =
      let (p, s) = on_ticks w rs ps in
      let room = on_ticks-room w n rs ps b h lt in
      ap (λ (x : List Event). (poll_round handler run (reported x) (on_ticks w rs ps)).1)
        (w.all_lem (on_ticks w rs ps).0.event_room es (omega arith))
      ∙ poll_round-each es (on_ticks w rs ps).0 (on_ticks w rs ps).1 o
