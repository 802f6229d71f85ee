-- ===== src/Network/Loop/Steps.antt =====
-- A loop and the other threads, step by step.
use mathlib.Core.Path.{subst}
use coroutine_transaction.Base.{
  ℕ, append-nil, append_assoc, ◌+◌, ◌<◌, ◌≡◌, ◌≢◌, ◌∙◌, refl, sym, ap, Bool, true, false, List, [],
  ◌∷◌, ◌++◌, arith, if◌then◌else◌, ◌⊎◌, inl, inr,
}
use coroutine_transaction.Network.Loop.{
  Phase, testing, polling, handling, taking, calling, Loop, new_loop, wakeup, leave_call,
  queue_locked, queue_unlocked, quit_set, quit_woken, poll_begins, poll_returns, handle_wakeup,
  begin_functors, take_functors, run_functor, end_functors,
}

-- The loop's thread runs code of channels or functors.
abbrev pub RunsCode : Phase → Type 0
RunsCode ph = (ph ≡ handling) ⊎ (ph ≡ calling)

module _ {F : Type 0} where
  -- Another thread can push a functor or stop the loop at any time, and makes its write to the eventfd at
  -- any time after that. The loop polls, reads its eventfd and runs callbacks of channels, takes the
  -- functors that wait and runs them one by one; what it runs can queue functors and stop the loop.
  pub data Step : Loop F → Loop F → Type 0 where
    pushes : (f : F) (s : Loop F) → Step s (queue_locked false f s)
    stops : (s : Loop F) → Step s (quit_set false s)
    wakes : (s : Loop F) → 0 < s.waking → Step s (queue_unlocked false s)
    wakes_to_stop : (s : Loop F) → 0 < s.waking → Step s (quit_woken false s)
    own_pushes :
        (f : F) (s : Loop F)
        → s.own_call ≡ false
        → RunsCode s.phase
        → Step s (queue_locked true f s)
    own_wakes : (s : Loop F) → s.own_call ≡ true → Step s (queue_unlocked true s)
    own_stops :
        (s : Loop F)
        → s.own_call ≡ false
        → RunsCode s.phase
        → Step s (quit_woken true (quit_set true s))
    polls : (s : Loop F) → s.quit ≡ false → s.phase ≡ testing → Step s (poll_begins s)
    returns : (s : Loop F) → s.phase ≡ polling → Step s (poll_returns s)
    reads : (s : Loop F) → s.own_call ≡ false → s.phase ≡ handling → Step s (handle_wakeup s)
    begins_functors :
        (s : Loop F) → s.own_call ≡ false → s.phase ≡ handling → Step s (begin_functors s)
    takes : (s : Loop F) → s.phase ≡ taking → Step s (take_functors s)
    runs :
        (f : F) (fs : List F) (s : Loop F)
        → s.own_call ≡ false
        → s.phase ≡ calling
        → s.funcs ≡ f ∷ fs
        → Step s (run_functor f fs s)
    finishes :
        (s : Loop F)
        → s.own_call ≡ false
        → s.phase ≡ calling
        → s.funcs ≡ []
        → Step s (end_functors s)

  pub data Reachable : Loop F → Type 0 where
    begins : Reachable new_loop
    steps : {s s' : Loop F} → Reachable s → Step s s' → Reachable s'

  -- The writes that are made or are still to come.
  abbrev writes : Loop F → ℕ
  writes s = s.wakeups + s.waking + (if s.own_call then 1 else 0)

  -- What holds where the loop stands.
  At : Phase → Loop F → Type 0
  At testing s = (s.pending_functors ≢ [] → 0 < writes s) × (s.funcs ≡ []) × (s.own_call ≡ false)
  At polling s = (s.pending_functors ≢ [] → 0 < writes s) × (s.funcs ≡ []) × (s.own_call ≡ false)
  At handling s = s.funcs ≡ []
  At taking s = (s.funcs ≡ []) × (s.calling_pending_functors ≡ true) × (s.own_call ≡ false)
  At calling s = (s.pending_functors ≢ [] → 0 < writes s) × (s.calling_pending_functors ≡ true)

  record Sound (s : Loop F) : Type 0 where
    fifo : s.ran ++ (s.funcs ++ s.pending_functors) ≡ s.queued
    at : At s.phase s

  -- A step of another thread: it makes a write, or is to make one.
  At-woken :
      (p : Phase) (s t : Loop F)
      → t.funcs ≡ s.funcs
      → t.own_call ≡ s.own_call
      → t.calling_pending_functors ≡ s.calling_pending_functors
      → 0 < writes t
      → At p s
      → At p t
  unfolding At
  At-woken testing s t f o c w (_, e, q) = ((λ _. w), f ∙ e, o ∙ q)
  At-woken polling s t f o c w (_, e, q) = ((λ _. w), f ∙ e, o ∙ q)
  At-woken handling s t f o c w e = f ∙ e
  At-woken taking s t f o c w (e, g, q) = (f ∙ e, c ∙ g, o ∙ q)
  At-woken calling s t f o c w (_, g) = ((λ _. w), c ∙ g)

  -- The loop's thread leaves queueInLoop.
  own_wakes-At :
      (p : Phase) (s : Loop F) → s.own_call ≡ true → At p s → At p (queue_unlocked true s)
  unfolding At queue_unlocked
  own_wakes-At testing s o (_, _, q) = cc (o, q)
  own_wakes-At polling s o (_, _, q) = cc (o, q)
  own_wakes-At handling s o e = left s.calling_pending_functors
    where
      left : (b : Bool) → (leave_call true (if b then wakeup s else s)).funcs ≡ []
      left true = e
      left false = e
  own_wakes-At taking s o (_, _, q) = cc (o, q)
  own_wakes-At calling s o (_, g) = left s.calling_pending_functors g
    where
      left :
          (b : Bool)
          → b ≡ true
          → let t = leave_call true (if b then wakeup s else s) in
            (t.pending_functors ≢ [] → 0 < writes t) × (t.calling_pending_functors ≡ true)
      left true e = ((λ _. omega arith), g)
      left false e = cc e

  pushed :
      (f : F) (s : Loop F)
      → s.ran ++ (s.funcs ++ s.pending_functors) ≡ s.queued
      → s.ran ++ (s.funcs ++ (s.pending_functors ++ (f ∷ []))) ≡ s.queued ++ (f ∷ [])
  pushed f s h =
      ap (λ (x : List F). s.ran ++ x) (sym (append_assoc s.funcs s.pending_functors (f ∷ [])))
      ∙ sym (append_assoc s.ran (s.funcs ++ s.pending_functors) (f ∷ []))
      ∙ ap (λ (x : List F). x ++ (f ∷ [])) h

  -- The loop's thread pushes a functor, and is to leave queueInLoop.
  own_pushes-At :
      (p : Phase) (f : F) (s : Loop F) → RunsCode p → At p s → At p (queue_locked true f s)
  unfolding At queue_locked
  own_pushes-At testing f s (inl q) h = cc q
  own_pushes-At testing f s (inr q) h = cc q
  own_pushes-At polling f s (inl q) h = cc q
  own_pushes-At polling f s (inr q) h = cc q
  own_pushes-At handling f s r h = h
  own_pushes-At taking f s (inl q) h = cc q
  own_pushes-At taking f s (inr q) h = cc q
  own_pushes-At calling f s r (_, g) = ((λ _. omega arith), g)

  own_stops-At :
      (p : Phase) (s : Loop F)
      → s.own_call ≡ false
      → At p s
      → At p (quit_woken true (quit_set true s))
  unfolding At quit_woken quit_set
  own_stops-At testing s o (w, e, q) = ((λ n. (let k = w n in rw o at k)), e, refl)
  own_stops-At polling s o (w, e, q) = ((λ n. (let k = w n in rw o at k)), e, refl)
  own_stops-At handling s o e = e
  own_stops-At taking s o (e, g, q) = (e, g, refl)
  own_stops-At calling s o (w, g) = ((λ n. (let k = w n in rw o at k)), g)

  At-of : (p : Phase) (s : Loop F) → s.phase ≡ p → Sound s → At p s
  At-of p s e h = subst (λ (x : Phase). At x s) e h.at

  own_wakes-Sound : (s : Loop F) → s.own_call ≡ true → Sound s → Sound (queue_unlocked true s)
  unfolding queue_unlocked
  own_wakes-Sound s o h =
      let (fifo, same) = left s.calling_pending_functors in
      record {
        fifo = fifo;
        at =
            subst (λ (x : Phase). At x (queue_unlocked true s)) (sym same)
              (own_wakes-At s.phase s o h.at);
      }
    where
      left :
          (b : Bool)
          → let t = leave_call true (if b then wakeup s else s) in
            (t.ran ++ (t.funcs ++ t.pending_functors) ≡ t.queued) × (t.phase ≡ s.phase)
      left true = (h.fifo, refl)
      left false = (h.fifo, refl)

  Step-Sound : {s s' : Loop F} → Step s s' → Sound s → Sound s'
  unfolding At queue_locked queue_unlocked quit_set quit_woken
  Step-Sound (pushes f s) h = record {
    fifo = pushed f s h.fifo;
    at = At-woken s.phase s _ refl refl refl (omega arith) h.at;
  }
  Step-Sound (stops s) h = record {
    fifo = h.fifo;
    at = At-woken s.phase s _ refl refl refl (omega arith) h.at;
  }
  Step-Sound (wakes s w) h = record {
    fifo = h.fifo;
    at = At-woken s.phase s _ refl refl refl (omega arith) h.at;
  }
  Step-Sound (wakes_to_stop s w) h = record {
    fifo = h.fifo;
    at = At-woken s.phase s _ refl refl refl (omega arith) h.at;
  }
  Step-Sound (own_pushes f s o r) h = record {
    fifo = pushed f s h.fifo;
    at = own_pushes-At s.phase f s r h.at;
  }
  Step-Sound (own_wakes s o) h = own_wakes-Sound s o h
  Step-Sound (own_stops s o r) h = record { fifo = h.fifo; at = own_stops-At s.phase s o h.at }
  Step-Sound (polls s _ p) h = record { fifo = h.fifo; at = At-of testing s p h }
  Step-Sound (returns s p) h = record {
    fifo = h.fifo;
    at = (let (_, e, _) = At-of polling s p h in e);
  }
  Step-Sound (reads s o p) h = record {
    fifo = h.fifo;
    at = subst (λ (x : Phase). At x (handle_wakeup s)) (sym p) (At-of handling s p h);
  }
  Step-Sound (begins_functors s o p) h = record {
    fifo = h.fifo;
    at = (At-of handling s p h, refl, o);
  }
  Step-Sound (takes s p) h =
      let (e, g, q) = At-of taking s p h in
      record {
        fifo =
            ap (λ (x : List F). s.ran ++ x) (append-nil s.pending_functors)
            ∙ (ap (λ (x : List F). s.ran ++ (x ++ s.pending_functors)) (sym e) ∙ h.fifo);
        at = ((λ n. absurd (n refl)), g);
      }
  Step-Sound (runs f fs s o p e) h = record {
    fifo =
        append_assoc s.ran (f ∷ []) (fs ++ s.pending_functors)
        ∙ (ap (λ (x : List F). s.ran ++ (x ++ s.pending_functors)) (sym e) ∙ h.fifo);
    at = subst (λ (x : Phase). At x (run_functor f fs s)) (sym p) (At-of calling s p h);
  }
  Step-Sound (finishes s o p e) h =
      let (w, g) = At-of calling s p h in record { fifo = h.fifo; at = (w, e, o) }

  Reachable-Sound : {s : Loop F} → Reachable s → Sound s
  unfolding At
  Reachable-Sound begins = record { fifo = refl; at = ((λ n. absurd (n refl)), refl, refl) }
  Reachable-Sound (steps r t) = Step-Sound t (Reachable-Sound r)

  -- Whatever the loop, its callbacks and functors and the other threads do, in any interleaving: no wakeup
  -- is lost, since while functors wait and the loop polls its eventfd has been written to, or another
  -- thread stands before its write; and the functors that have run, that were taken and that wait are
  -- those that were queued, each once and in order.
  pub Reachable-awake :
      (s : Loop F)
      → Reachable s
      → (s.phase ≡ polling → s.pending_functors ≢ [] → 0 < s.wakeups + s.waking)
        × (s.ran ++ (s.funcs ++ s.pending_functors) ≡ s.queued)
  unfolding At
  Reachable-awake s r =
      let h = Reachable-Sound r in
      (
        λ p n. (let (w, e, o) = At-of polling s p h in let k = (rw o at (w n)) in omega arith),
        h.fifo,
      )
