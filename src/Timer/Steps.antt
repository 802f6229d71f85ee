-- ===== src/Timer/Steps.antt =====
-- Linking and unlinking timers in the middle of the loop of TimerMgr::Fire.
use coroutine_transaction.Base.{
  ℕ, suc, ◌≤◌, ◌<◌, ◌≡◌, refl, sym, ap, ◌∙◌, ◌≢◌, inl, inr, false, Option, none, some, List, [],
  ◌∷◌, ◌++◌, update, Elem, drop, drop-Elem, unlink, drop-unlink, update_self, update-ne, ==-self,
}
use mathlib.Core.Path.{subst, subst₂}
use coroutine_transaction.Timer.{
  Timer, TimerMgr, WheelType, push, reg, unregister_timer, max_timeout, set_slot,
}
use coroutine_transaction.Timer.Register.{delete_timer}
use coroutine_transaction.Timer.Lists.{
  drop-set_slot-unlink, drop-set_slot_append, tlist-set_slot_self,
}
use coroutine_transaction.Timer.Placed.{Phase, Placed, Synced-of, reg-Chosen}
use coroutine_transaction.Timer.Linked.{Listed, Listed-of, linked-Linked}
use coroutine_transaction.Timer.Loop.{
  position, InTime, Looping, InTime-Looping, Listed-map, Running, Window, limit,
}
use coroutine_transaction.Timer.Unlinked.{
  unlinked-Elem, erased, freed, unregister_timer-Linked, unregister_timer_lem, delete_timer-Linked,
  delete_timer_lem, erased-ne,
}

module _ {w : WheelType} {p : Phase} {c n k : ℕ} {m : TimerMgr} where
  -- DestroyTimer of a linked timer.
  pub delete_timer-Running :
      {u : WheelType} {x id : ℕ}
      → Running w p c n k m
      → Listed (Looping w p c) m u x id
      → Running w p c n k (delete_timer id m)
  delete_timer-Running {u} {x} {id} r l = record {
    inv = delete_timer-Linked r.inv l;
    synced = rw (delete_timer_lem r.inv l) (Synced-of refl refl refl r.synced);
    rest = rw (delete_timer_lem r.inv l) (λ j h.
        Listed-of (r.rest j (drop-set_slot-unlink u x id n m w (position p w) j h)) (
          erased-ne r.inv l j
            (unlinked-Elem r.inv l (erased r.inv l) (erased-ne r.inv l) w (position p w) j
              (drop-Elem j n _ h)).1));
  }

module _ {w : WheelType} {p : Phase} {c n : ℕ} {m : TimerMgr} where
  -- Pop takes the first timer out to process it.
  pub pop-Running :
      (id : ℕ) (ids : List ℕ)
      → m.tlist w (position p w) ≡ id ∷ ids
      → Running w p c (suc n) 0 m
      → Listed (Looping w p c) m w (position p w) id
      → Running w p c n id (unregister_timer id m)
  pop-Running id ids e r l = record {
    inv = unregister_timer-Linked r.inv l;
    synced = rw (unregister_timer_lem r.inv l) (Synced-of refl refl refl r.synced);
    rest = rw (unregister_timer_lem r.inv l) (λ j h.
        let ne =
          (unlinked-Elem r.inv l (freed r.inv l) (update-ne m.timers id _) w (position p w) j
            (drop-Elem j n _ h)).1 in
        Listed-of (r.rest j (behind j ne h)) (update-ne m.timers id _ j ne));
  }
    where
      behind :
          (j : ℕ)
          → j ≢ id
          → Elem j (
              drop n (
                (set_slot w (position p w) (unlink id (m.tlist w (position p w))) m).tlist w
                  (position p w)))
          → Elem j (drop (suc n) (m.tlist w (position p w)))
      behind j ne h = rw e (
          drop-unlink id j n ids (
            subst (λ (l : List ℕ). Elem j (drop n l))
              (tlist-set_slot_self w (position p w) _ m ∙ ap (unlink id) e ∙ (rw (==-self id))) h))

-- Reg of a timer that expires after the tick: `k` was in process before, `k'` is afterwards.
module _ {w : WheelType} {p : Phase} {c n k : ℕ} {m : TimerMgr} (r : Running w p c n k m)
    (win : Window c p) (a k' : ℕ) (t : Timer) (g : ℕ → Option Timer) (new : g a ≡ some t)
    (off : (j : ℕ) → j ≢ a → g j ≡ m.timers j)
    (unlisted : (u : WheelType) (y : ℕ) → Listed (Looping w p c) m u y a → ⊥)
    (hidden : (j : ℕ) → j ≢ a → j ≡ k → j ≡ k') (o : t.owner ≡ none) (q : t.is_in_proc ≡ false)
    (pace : (1 ≤ t.interval) × (t.interval ≤ max_timeout)) (nz : 0 ≢ a)
    (free' : (s : Timer) → k' ≢ a → g k' ≡ some s → s.owner ≡ none) (ka : k' ≢ a)
    (late : p.tick < t.expire) (lim : t.expire < limit c) where
  abbrev entered : TimerMgr
  entered = record m { timers = g }

  owned_by : WheelType → ℕ → ℕ → Option Timer
  owned_by u x = update g a (some (record t { owner = some (u, x) }))

  owned_by-off : (u : WheelType) (x j : ℕ) → j ≢ a → owned_by u x j ≡ m.timers j
  unfolding owned_by
  owned_by-off u x j ne = update-ne g a _ j ne ∙ off j ne

  push-entered :
      (u : WheelType) (x : ℕ)
      → push u x a entered
        ≡ record (set_slot u x (m.tlist u x ++ (a ∷ [])) m) { timers = owned_by u x }
  unfolding push owned_by
  push-entered u x = rw (new, push, o)

  linked-Running :
      (u : WheelType) (x : ℕ)
      → Placed p u x t.expire
      → Running w p c n k'
          (record (set_slot u x (m.tlist u x ++ (a ∷ [])) m) { timers = owned_by u x })
  unfolding owned_by
  linked-Running u x pl = record {
    inv =
        linked-Linked r.inv u x a k' (record t { owner = some (u, x) }) (owned_by u x)
          (update_self g a _) (owned_by-off u x) unlisted hidden refl q
          (InTime-Looping w p c u x t.expire (pl, lim)) pace nz
          (λ s e. free' s ka (sym (update-ne g a _ k' ka) ∙ e));
    synced = Synced-of refl refl refl r.synced;
    rest = λ j h. elim (drop-set_slot_append u x a n m w (position p w) j h) [
      | inl b ↦
          let l = r.rest j b in
          Listed-of l (
            owned_by-off u x j (λ ne. unlisted w (position p w) (
              subst (Listed (Looping w p c) m w (position p w)) ne
                (Listed-map (λ v. InTime-Looping w p c w (position p w) v) l))))
      | inr (ea, ew, ex) ↦ record {
        timer = record t { owner = some (u, x) };
        found = ap (owned_by u x) ea ∙ update_self g a _;
        owned = cc (ew, ex);
        idle = q;
        good = subst₂ (λ v y. InTime p c v y t.expire) (sym ew) (sym ex) (pl, lim);
      }
    ];
  }

  pub reg-Running : Running w p c n k' (reg a p.tick entered)
  reg-Running =
      let (u, x, e, pl) =
        reg-Chosen p entered a c t (Synced-of refl refl refl r.synced) new win.above late lim in
      rw (e, push-entered u x) (linked-Running u x pl)
