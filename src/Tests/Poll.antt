-- ===== src/Tests/Poll.antt =====
-- The rounds of a loop at concrete inputs.
use coroutine_transaction.Base.{
  ℕ, zero, suc, ◌<◌, ◌≡◌, refl, inl, inr, true, false, List, [], ◌∷◌, arith, ◌==◌, take, Elem,
  length-take, take-all,
}
use coroutine_transaction.Network.Channel.{
  Revents, Callback, read_callback, write_callback, handle_with_guard,
}
use coroutine_transaction.Network.Poll.{
  Event, reported, Poller, Handler, init_event_list_size, fill_active_channels, poll, run_callbacks,
  handle_event, handle_active, poll_round,
}
use coroutine_transaction.Network.Poll.Handled.{
  EpollWait, Round, interrupted, ready, wait, channels, Once, handle_each, on_ticks,
  on_ticks-handled,
}

abbrev quiet : Revents
quiet = record {
  epollin = false;
  epollpri = false;
  epollout = false;
  epollerr = false;
  epollhup = false;
}

abbrev readable : Revents
readable = record quiet { epollin = true }

abbrev both : Revents
both = record readable { epollout = true; epollhup = true }

-- The state is what has run, the latest first. The object of channel 5 is gone.
abbrev Log : Type 0
Log = List (ℕ × Callback)

abbrev handlers : Log → ℕ → Handler
handlers s ch = record { tied = ch == 5; there = false; has_callback = λ c. true }

abbrev note : ℕ → Callback → Log → Log
note ch c s = (ch, c) ∷ s

abbrev new_poller : Poller
new_poller = record { event_room = init_event_list_size; revents = λ j. quiet }

-- A peer that hangs up while there is something to read is read first.
abbrev mixed : List Event
mixed = record { channel = 4; events = both } ∷ record { channel = 5; events = readable } ∷ []

mixed_lem :
    (poll_round handlers note (reported mixed) (new_poller, [])).1
    ≡ (4, write_callback) ∷ (4, read_callback) ∷ []
unfolding poll_round poll fill_active_channels handle_active handle_event run_callbacks
    handle_with_guard
mixed_lem = refl

-- epoll_wait that reports the first descriptors of a list.
abbrev first_ones : EpollWait
first_ones = record { epoll_wait = take; full_lem = length-take; all_lem = take-all }

-- The channels below `k`, readable.
abbrev below : ℕ → List Event
below zero = []
below (suc k) = record { channel = k; events = readable } ∷ below k

Elem-below : (j k : ℕ) → Elem j (channels (below k)) → j < k
Elem-below j zero h = absurd h
Elem-below j (suc k) (inl e) = omega arith
Elem-below j (suc k) (inr h) = let ih = Elem-below j k h in omega arith

below-Once : (k : ℕ) → Once (below k)
below-Once zero = tt
below-Once (suc k) = (λ h. (let lt = Elem-below k k h in omega arith), below-Once k)

-- More channels are ready than there is room for.
abbrev rounds : List Round
rounds = interrupted 4 ∷ ready (below 17) ∷ []

on_ticks-handled_example :
    let ps = on_ticks handlers note first_ones rounds (new_poller, []) in
    (poll_round handlers note (wait first_ones ps.0.event_room (ready (below 17))) ps).1
    ≡ handle_each handlers note (below 17) ps.1
on_ticks-handled_example =
    on_ticks-handled handlers note first_ones 17 rounds (below 17) (new_poller, []) (omega arith)
      (tt, (omega arith, tt)) (omega arith) (omega arith) (below-Once 17)
