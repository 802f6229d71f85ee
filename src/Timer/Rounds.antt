-- ===== src/Timer/Rounds.antt =====
-- One round of the loop of TimerMgr::Fire.
use coroutine_transaction.Base.{
  ℕ, ◌+◌, ◌≡◌, refl, sym, ◌∙◌, ◌≢◌, inl, inr, Bool, true, false, ◌||◌, none, some, List, [], ◌∷◌,
  arith, ◌==◌, if◌then◌else◌, update, ℤ, Bool-cases, ℕ-cases, update_self, update-ne, ==-self,
  ==-ne, Option-cases, All, is_pos, pred_ℤ,
}
use coroutine_transaction.Timer.{
  Timer, TimerMgr, WheelType, sec, same_wheel, pop, Firing, reg, unregister_timer, set_timer,
}
use coroutine_transaction.Timer.Register.{delete_timer, Call, cal_expire}
use coroutine_transaction.Timer.Fire.{set_in_proc, settle, on_timeout, run_timer, fire_one}
use coroutine_transaction.Timer.Placed.{Phase, Synced-of}
use coroutine_transaction.Timer.Linked.{Listed-of, Listed-ne}
use coroutine_transaction.Timer.Loop.{position, InTime-Looping, Listed-map, Running, Window}
use coroutine_transaction.Timer.Steps.{reg-Running}
use coroutine_transaction.Timer.Destroyed.{Held, CallOk, retime-Running, cal_expire-add}
use coroutine_transaction.Timer.Calls.{run_calls-Running}

-- The notes on OnTimeout are no part of the state.
pub firings-Running :
    {w : WheelType} {p : Phase} {c n k : ℕ} {m : TimerMgr} (fs : List Firing)
    → Running w p c n k m
    → Running w p c n k (record m { firings = fs })
firings-Running fs r = record {
  inv = record {
    listed = λ u x id h. Listed-of (r.inv.listed u x id h) refl;
    pending = r.inv.pending;
    free = r.inv.free;
    no_zero = r.inv.no_zero;
    paced = r.inv.paced;
  };
  synced = Synced-of refl refl refl r.synced;
  rest = λ j h. Listed-of (r.rest j h) refl;
}

unregister_timer-free :
    (id : ℕ) (m : TimerMgr) (t : Timer)
    → m.timers id ≡ some t
    → t.owner ≡ none
    → unregister_timer id m ≡ m
unfolding unregister_timer
unregister_timer-free id m t f o = rw (f, unregister_timer, o)

module _ {w : WheelType} {p : Phase} {c n k : ℕ} {m : TimerMgr} (r : Running w p c n k m)
    (nz : k ≢ 0) (t : Timer) (f : m.timers k ≡ some t) where
  -- A timer whose callback was its last leaves the table.
  delete_timer-free : Running w p c n 0 (delete_timer k m)
  unfolding delete_timer
  delete_timer-free = rw (unregister_timer-free k m t f (r.inv.free t f)) (record {
    inv = record {
      listed = λ u x id h.
          let l = r.inv.listed u x id h in Listed-of l (rw (==-ne id k (Listed-ne r.inv l)));
      pending = λ id s e. elim (ℕ-cases id k) [
        | inl q ↦ cc (gone id q, e)
        | inr q ↦ elim (r.inv.pending id s (sym (kept id q) ∙ e)) [
          | inl z ↦ absurd (q z)
          | inr h ↦ inr h
        ]
      ];
      free = λ s e. cc (e, kept 0 (λ z. nz (sym z)), r.inv.no_zero);
      no_zero = kept 0 (λ z. nz (sym z)) ∙ r.inv.no_zero;
      paced = λ id s e. elim (ℕ-cases id k) [
        | inl q ↦ cc (gone id q, e)
        | inr q ↦ r.inv.paced id s (sym (kept id q) ∙ e)
      ];
    };
    synced = Synced-of refl refl refl r.synced;
    rest = λ j h.
        let l = r.rest j h in
        Listed-of l (
          rw (
            ==-ne j k
              (Listed-ne r.inv (Listed-map (λ v. InTime-Looping w p c w (position p w) v) l))));
  })
    where
      gone : (id : ℕ) → id ≡ k → (if id == k then none else m.timers id) ≡ none
      gone id q = rw (q, ==-self k)

      kept : (id : ℕ) → id ≢ k → (if id == k then none else m.timers id) ≡ m.timers id
      kept id q = rw (==-ne id k q)

-- The timer in process as it is when its callback has returned.
module _ {w : WheelType} {p : Phase} {c n k : ℕ} {m : TimerMgr} (r : Running w p c n k m)
    (nz : k ≢ 0) (win : Window c p) (t : Timer) (f : m.timers k ≡ some t)
    (idle : t.is_in_proc ≡ false) where
  again : ℤ → Timer
  again v = record t { repeats = v; expire = cal_expire p.tick t.interval }

  repeat-Running : (v : ℤ) → Running w p c n 0 (reg k p.tick (set_timer k (again v) m))
  unfolding again
  repeat-Running v =
      reg-Running r win k 0 (again v) (update m.timers k (some (again v)))
        (update_self m.timers k _) (update-ne m.timers k _) (λ u y l. Listed-ne r.inv l refl)
        (λ j ne e. absurd (ne e)) (r.inv.free t f) idle (r.inv.paced k t f) (λ z. nz (sym z))
        (λ s ne e. cc (r.inv.no_zero, e, update-ne m.timers k (some (again v)) 0 ne))
        (λ z. nz (sym z)) (rw due (omega (arith, r.inv.paced k t f)))
        (rw due (omega (arith, r.inv.paced k t f, win.room)))
    where
      due : cal_expire p.tick t.interval ≡ p.tick + t.interval
      due = cal_expire-add c p.tick t.interval win.small win.room (r.inv.paced k t f).1

  settle-Running : Running w p c n 0 (settle p.tick k m)
  unfolding settle again
  settle-Running =
      elim (Bool-cases (is_pos (if t.forever then t.repeats else pred_ℤ t.repeats) || t.forever)) [
        | inl e ↦
            rw (f, settle, e) (repeat-Running (if t.forever then t.repeats else pred_ℤ t.repeats))
        | inr e ↦
            rw (f, settle, e)
              (delete_timer-free
                (retime-Running r
                  (record t { repeats = if t.forever then t.repeats else pred_ℤ t.repeats })
                  (λ z. nz (sym z)) (r.inv.free t f) (r.inv.paced k t f))
                nz _ (update_self m.timers k _))
      ]

module _ (script : ℕ → ℕ → List Call) {p : Phase} {c n id : ℕ} {m : TimerMgr}
    (r : Running sec p c n id m) (nz : id ≢ 0) (win : Window c p)
    (ok : (i : ℕ) → All (CallOk c p.tick) (script p.tick i)) where
  on_timeout-Running :
      Held id m
      → Running sec p c n id (on_timeout script p.tick id m)
        × Held id (on_timeout script p.tick id m)
  unfolding on_timeout
  on_timeout-Running held = elim (Option-cases (m.timers id)) [
    | inl e ↦ rw (e, on_timeout) (r, held)
    | inr (t, e) ↦ elim (Bool-cases (m.timer_funcs t.timer_func_id)) [
      | inl b ↦
          rw (e, on_timeout, b)
            (run_calls-Running (script p.tick id) win (ok id) (firings-Running _ r) held)
      | inr b ↦ rw (e, on_timeout, b) (firings-Running _ r, held)
    ]
  ]

  set_in_proc_lem :
      (b : Bool) (m' : TimerMgr) (t : Timer)
      → m'.timers id ≡ some t
      → set_in_proc id b m' ≡ set_timer id (record t { is_in_proc = b }) m'
  set_in_proc_lem b m' t e = rw (e, set_in_proc)

  after_callback :
      {m' : TimerMgr}
      → Running sec p c n id m'
      → Held id m'
      → Running sec p c n 0 (settle p.tick id (unregister_timer id (set_in_proc id false m')))
  after_callback {m'} q held = elim held [
    | inl z ↦ absurd (nz z)
    | inr (t, e, b) ↦
        let q' =
          retime-Running q (record t { is_in_proc = false }) (λ z. nz (sym z)) (q.inv.free t e)
            (q.inv.paced id t e) in
        rw
          (
            set_in_proc_lem false m' t e,
            unregister_timer-free id (set_timer id (record t { is_in_proc = false }) m') _
                (update_self m'.timers id _) (q.inv.free t e),
          )
          (settle-Running q' nz win _ (update_self m'.timers id _) refl)
  ]

module _ (script : ℕ → ℕ → List Call) {p : Phase} {c n id : ℕ} {m : TimerMgr}
    (r : Running sec p c n id m) (nz : id ≢ 0) (win : Window c p)
    (ok : (i : ℕ) → All (CallOk c p.tick) (script p.tick i)) where
  pub run_timer-Running :
      (t : Timer) → m.timers id ≡ some t → Running sec p c n 0 (run_timer script p.tick id m)
  unfolding run_timer
  run_timer-Running t e =
      let m1 = set_timer id (record t { is_in_proc = true }) m in
      let r1 : Running sec p c n id m1 =
        retime-Running r (record t { is_in_proc = true }) (λ z. nz (sym z)) (r.inv.free t e)
          (r.inv.paced id t e) in
      let (q, held) =
        on_timeout-Running script r1 nz win ok (inr (_, update_self m.timers id _, refl)) in
      rw (set_in_proc_lem script r nz win ok true m t e) (after_callback script r nz win ok q held)

-- The first timer of the slot where the wheel stands, if there is one.
pub fire_one-empty :
    (script : ℕ → ℕ → List Call) (w : WheelType) (x tick : ℕ) (m : TimerMgr)
    → m.tlist w x ≡ []
    → fire_one script w x tick m ≡ m
unfolding fire_one pop
fire_one-empty script w x tick m e = ground arith

pub fire_one-sec :
    (script : ℕ → ℕ → List Call) (x tick id : ℕ) (ids : List ℕ) (m : TimerMgr)
    → m.tlist sec x ≡ id ∷ ids
    → fire_one script sec x tick m ≡ run_timer script tick id (unregister_timer id m)
unfolding fire_one pop
fire_one-sec script x tick id ids m e = ground arith

pub fire_one-reg :
    (script : ℕ → ℕ → List Call) (w : WheelType) (x tick id : ℕ) (ids : List ℕ) (m : TimerMgr)
    → same_wheel w sec ≡ false
    → m.tlist w x ≡ id ∷ ids
    → fire_one script w x tick m ≡ reg id tick (unregister_timer id m)
unfolding fire_one pop
fire_one-reg script w x tick id ids m s e = ground arith
