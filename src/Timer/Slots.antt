-- ===== src/Timer/Slots.antt =====
-- The loop of TimerMgr::Fire over the current slot of a wheel.
use coroutine_transaction.Base.{
  ℕ, zero, suc, ◌+◌, ◌<◌, ◌≡◌, refl, sym, ap, ◌∙◌, ◌⊎◌, inl, inr, true, false, none, some, List, [],
  ◌∷◌, arith, Elem, drop-Elem, ℕ-cases, update_self, All,
}
use mathlib.Core.Path.{subst}
use coroutine_transaction.Timer.{
  Timer, TimerMgr, WheelType, sec, hour, day, same_wheel, Firing, unregister_timer,
}
use coroutine_transaction.Timer.Register.{Call}
use coroutine_transaction.Timer.Fire.{fire_one, fire_slot}
use coroutine_transaction.Timer.Placed.{Phase}
use coroutine_transaction.Timer.Linked.{Listed, Listed-ne}
use coroutine_transaction.Timer.Loop.{position, Looping, Loose, Running, Window, limit}
use coroutine_transaction.Timer.Unlinked.{found_ne_zero, unregister_timer_lem}
use coroutine_transaction.Timer.Steps.{pop-Running, reg-Running}
use coroutine_transaction.Timer.Destroyed.{CallOk}
use coroutine_transaction.Timer.Rounds.{
  run_timer-Running, fire_one-empty, fire_one-sec, fire_one-reg,
}
use coroutine_transaction.Timer.Firings.{
  firing, run_timer-firings, unregister_timer-firings, reg-firings,
}

-- A firing comes at the tick for which the timer was due, or 1000 ms before.
abbrev pub Timely : Firing → Type 0
Timely f = (f.due ≡ f.tick) ⊎ (f.due ≡ f.tick + 1000)

-- How far the wheels are from their next move while they loop.
abbrev pub Fresh : WheelType → Phase → Type 0
Fresh sec p = Unit {0}
Fresh hour p = p.to_hour ≡ 1000
Fresh day p = p.to_day ≡ 3600000

List-cases : (l : List ℕ) → (l ≡ []) ⊎ ((x : ℕ) × (xs : List ℕ) × (l ≡ x ∷ xs))
List-cases [] = inl refl
List-cases (x ∷ xs) = inr (x, xs, refl)

-- What the slot holds is due now, or after a whole turn of the first wheel.
due_now : (p : Phase) (e : ℕ) → Loose p sec (position p sec) e → (e ≡ p.tick) ⊎ (e ≡ p.tick + 1000)
due_now p e (a, b, g) = elim (ℕ-cases e p.tick) [ inl q ↦ inl q | inr q ↦ inr (omega arith) ]

module _ (script : ℕ → ℕ → List Call) {p : Phase} {c n : ℕ} {m : TimerMgr} (win : Window c p)
    (ok : (i : ℕ) → All (CallOk c p.tick) (script p.tick i)) where
  sec_round :
      (id : ℕ) (ids : List ℕ)
      → m.tlist sec (position p sec) ≡ id ∷ ids
      → Running sec p c (suc n) 0 m
      → All Timely m.firings
      → Listed (Looping sec p c) m sec (position p sec) id
      → Running sec p c n 0 (fire_one script sec (position p sec) p.tick m)
        × All Timely (fire_one script sec (position p sec) p.tick m).firings
  sec_round id ids e r fs l =
      let r1 = pop-Running id ids e r l in
      let s : Timer = record l.timer { owner = none } in
      let at : (unregister_timer id m).timers id ≡ some s =
        (rw (unregister_timer_lem r.inv l) (update_self m.timers id _)) in
      rw (fire_one-sec script (position p sec) p.tick id ids m e) (
        run_timer-Running script r1 (found_ne_zero r.inv l) win ok s at,
        subst (All Timely)
            (sym (
              run_timer-firings script p.tick id (unregister_timer id m) s at
              ∙ ap (◌∷◌ (firing p.tick id s.expire)) (unregister_timer-firings id m)))
            (due_now p l.timer.expire l.good.0, fs),
      )

-- What a wheel hands down is not yet due.
not_due :
    (w : WheelType) (p : Phase) (e : ℕ)
    → same_wheel w sec ≡ false
    → Fresh w p
    → Loose p w (position p w) e
    → p.tick < e
not_due sec p e s f g = cc
not_due hour p e s f (j, _, _, g) = omega arith
not_due day p e s f (j, _, _, g) = omega arith

module _ (script : ℕ → ℕ → List Call) {w : WheelType} {p : Phase} {c n : ℕ} {m : TimerMgr}
    (win : Window c p) (s : same_wheel w sec ≡ false) (fr : Fresh w p) where
  reg_round :
      (id : ℕ) (ids : List ℕ)
      → m.tlist w (position p w) ≡ id ∷ ids
      → Running w p c (suc n) 0 m
      → Listed (Looping w p c) m w (position p w) id
      → Running w p c n 0 (fire_one script w (position p w) p.tick m)
  reg_round id ids e r l =
      let r1 = pop-Running id ids e r l in
      let nz = found_ne_zero r.inv l in
      let t : Timer = record l.timer { owner = none } in
      let f : (unregister_timer id m).timers id ≡ some t =
        (rw (unregister_timer_lem r.inv l) (update_self m.timers id _)) in
      let good : Loose p w (position p w) l.timer.expire × (l.timer.expire < limit c) =
        (rw (same w) at l.good) in
      rw (fire_one-reg script w (position p w) p.tick id ids m s e) (
        reg-Running r1 win id 0 t (unregister_timer id m).timers f (λ j _. refl)
          (λ u y q. Listed-ne r1.inv q refl) (λ j ne z. absurd (ne z)) refl l.idle
          (r.inv.paced id l.timer l.found) (λ z. nz (sym z)) (λ q ne z. cc (r1.inv.no_zero, z))
          (λ z. nz (sym z)) (not_due w p l.timer.expire s fr good.0) good.1)
    where
      same : (v : WheelType) → same_wheel v v ≡ true
      same sec = refl
      same hour = refl
      same day = refl

module _ (script : ℕ → ℕ → List Call) where
  empty_round :
      {w : WheelType} {p : Phase} {c n : ℕ} {m : TimerMgr}
      → m.tlist w (position p w) ≡ []
      → Running w p c (suc n) 0 m
      → Running w p c n 0 m
  empty_round {w} {p} {c} {n} {m} e r = record {
    inv = r.inv;
    synced = r.synced;
    rest = λ j h. absurd (subst (Elem j) e (drop-Elem j n _ h));
  }

  -- A round keeps the state of the loop, and what it runs is due.
  round :
      (w : WheelType) {p : Phase} {c n : ℕ} {m : TimerMgr}
      → Window c p
      → Fresh w p
      → ((i : ℕ) → All (CallOk c p.tick) (script p.tick i))
      → Running w p c (suc n) 0 m
      → All Timely m.firings
      → Running w p c n 0 (fire_one script w (position p w) p.tick m)
        × All Timely (fire_one script w (position p w) p.tick m).firings
  round w {p} {c} {n} {m} win fr ok r fs = elim (List-cases (m.tlist w (position p w))) [
    | inl e ↦ rw (fire_one-empty script w (position p w) p.tick m e) (empty_round e r, fs)
    | inr (id, ids, e) ↦
        let l = r.inv.listed w (position p w) id (rw e (inl refl)) in full w win fr r fs id ids e l
  ]
    where
      full :
          (v : WheelType)
          → Window c p
          → Fresh v p
          → Running v p c (suc n) 0 m
          → All Timely m.firings
          → (id : ℕ) (ids : List ℕ) → m.tlist v (position p v) ≡ id ∷ ids
          → Listed (Looping v p c) m v (position p v) id
          → Running v p c n 0 (fire_one script v (position p v) p.tick m)
            × All Timely (fire_one script v (position p v) p.tick m).firings
      full sec win fr r fs id ids e l = sec_round script win ok id ids e r fs l
      full hour win fr r fs id ids e l = (
        reg_round script win refl fr id ids e r l,
        subst (All Timely)
            (sym (
              ap (λ (q : TimerMgr). q.firings)
                (fire_one-reg script hour (position p hour) p.tick id ids m refl e)
              ∙ reg-firings id p.tick (unregister_timer id m)
              ∙ unregister_timer-firings id m))
            fs,
      )
      full day win fr r fs id ids e l = (
        reg_round script win refl fr id ids e r l,
        subst (All Timely)
            (sym (
              ap (λ (q : TimerMgr). q.firings)
                (fire_one-reg script day (position p day) p.tick id ids m refl e)
              ∙ reg-firings id p.tick (unregister_timer id m)
              ∙ unregister_timer-firings id m))
            fs,
      )

  -- The whole loop: as many rounds as the slot had timers leave every timer in time.
  pub fire_slot-Running :
      (n : ℕ) (w : WheelType) {p : Phase} {c : ℕ} {m : TimerMgr}
      → Window c p
      → Fresh w p
      → ((i : ℕ) → All (CallOk c p.tick) (script p.tick i))
      → Running w p c n 0 m
      → All Timely m.firings
      → Running w p c 0 0 (fire_slot script w (position p w) p.tick n m)
        × All Timely (fire_slot script w (position p w) p.tick n m).firings
  unfolding fire_slot
  fire_slot-Running zero w win fr ok r fs = (r, fs)
  fire_slot-Running (suc n) w win fr ok r fs =
      let (r', fs') = round w win fr ok r fs in fire_slot-Running n w win fr ok r' fs'
