-- ===== src/Timer/Unlinked.antt =====
-- Unlinking a timer, to process it or to destroy it.
use coroutine_transaction.Base.{
  ℕ, ◌≤◌, ◌≡◌, sym, ap, ◌∙◌, ◌≢◌, ◌⊎◌, inl, inr, Option, none, some, ◌==◌, if◌then◌else◌, update,
  Elem, unlink, unlink-Elem, Elem-unlink, ==-self, ==-ne, ℕ-cases, update_self, update-ne,
}
use mathlib.Core.Path.{subst}
use coroutine_transaction.Timer.{
  Timer, TimerMgr, WheelType, set_slot, unregister_timer, max_timeout,
}
use coroutine_transaction.Timer.Register.{delete_timer}
use coroutine_transaction.Timer.Lists.{tlist-set_slot_cases}
use coroutine_transaction.Timer.Linked.{Place, Listed, Linked, Listed-of, Listed-ne, Listed-slot_ne}

module _ {P : Place} {k : ℕ} {m : TimerMgr} {w : WheelType} {x id : ℕ} (i : Linked P k m)
    (l : Listed P m w x id) (f : ℕ → Option Timer) (off : (j : ℕ) → j ≢ id → f j ≡ m.timers j) where
  abbrev unlinked : TimerMgr
  unlinked = record (set_slot w x (unlink id (m.tlist w x)) m) { timers = f }

  pub unlinked-Elem :
      (u : WheelType) (y j : ℕ) → Elem j (unlinked.tlist u y) → Elem j (m.tlist u y) × (j ≢ id)
  unlinked-Elem u y j h = elim (tlist-set_slot_cases w x (unlink id (m.tlist w x)) m u y) [
    | inl (eu, ey, el) ↦
        let p = unlink-Elem id j (m.tlist w x) (subst (Elem j) el h) in (rw (eu, ey) p.0, p.1)
    | inr (s, el) ↦
        let h' : Elem j (m.tlist u y) = subst (Elem j) el h in
        (h', Listed-slot_ne l (i.listed u y j h') s)
  ]

  pub unlinked-Listed :
      (u : WheelType) (y j : ℕ) → Elem j (unlinked.tlist u y) → Listed P unlinked u y j
  unlinked-Listed u y j h =
      let p = unlinked-Elem u y j h in Listed-of (i.listed u y j p.0) (off j p.1)

  unlinked-kept :
      (u : WheelType) (y j : ℕ) → Elem j (m.tlist u y) → j ≢ id → Elem j (unlinked.tlist u y)
  unlinked-kept u y j h n = elim (tlist-set_slot_cases w x (unlink id (m.tlist w x)) m u y) [
    | inl (eu, ey, el) ↦
        subst (Elem j) (sym el) (Elem-unlink id j (m.tlist w x) (rw (eu, ey) at h) n)
    | inr (s, el) ↦ subst (Elem j) (sym el) h
  ]

  pub unlinked-pending :
      (j : ℕ) (t : Timer)
      → j ≢ id
      → f j ≡ some t
      → (j ≡ k) ⊎ ((u : WheelType) × (y : ℕ) × Elem j (unlinked.tlist u y))
  unlinked-pending j t n e = elim (i.pending j t (sym (off j n) ∙ e)) [
    | inl c ↦ inl c
    | inr (u, y, h) ↦ inr (u, y, unlinked-kept u y j h n)
  ]

module _ {P : Place} {k : ℕ} {m : TimerMgr} {w : WheelType} {x id : ℕ} (i : Linked P k m)
    (l : Listed P m w x id) where
  pub found_ne_zero : id ≢ 0
  found_ne_zero z = cc (i.no_zero, l.found, ap m.timers z)

  abbrev pub freed : ℕ → Option Timer
  freed = update m.timers id (some (record l.timer { owner = none }))

  pub unregister_timer_lem :
      unregister_timer id m ≡ record (set_slot w x (unlink id (m.tlist w x)) m) { timers = freed }
  unfolding unregister_timer
  unregister_timer_lem = rw (l.found, unregister_timer, l.owned)

  abbrev pub erased : ℕ → Option Timer
  erased j = if j == id then none else freed j

  erased-eq : (j : ℕ) → j ≡ id → erased j ≡ none
  erased-eq j n = rw (n, ==-self id)

  pub erased-ne : (j : ℕ) → j ≢ id → erased j ≡ m.timers j
  erased-ne j n = rw (==-ne j id n)

  pub delete_timer_lem :
      delete_timer id m ≡ record (set_slot w x (unlink id (m.tlist w x)) m) { timers = erased }
  unfolding delete_timer
  delete_timer_lem = rw unregister_timer_lem

  -- DeleteTimer of a linked timer.
  pub delete_timer-Linked : Linked P k (delete_timer id m)
  delete_timer-Linked = rw delete_timer_lem (record {
    listed = unlinked-Listed i l erased erased-ne;
    pending = λ j t e. elim (ℕ-cases j id) [
      | inl n ↦ cc (e, erased-eq j n)
      | inr n ↦ unlinked-pending i l erased erased-ne j t n e
    ];
    free = λ t e. i.free t (sym (erased-ne k (λ c. Listed-ne i l (sym c))) ∙ e);
    no_zero = erased-ne 0 (λ z. found_ne_zero (sym z)) ∙ i.no_zero;
    paced = λ j t e. elim (ℕ-cases j id) [
      | inl n ↦ cc (e, erased-eq j n)
      | inr n ↦ i.paced j t (sym (erased-ne j n) ∙ e)
    ];
  })

module _ {P : Place} {m : TimerMgr} {w : WheelType} {x id : ℕ} (i : Linked P 0 m)
    (l : Listed P m w x id) where
  -- Taking a timer out of its slot to process it.
  pub unregister_timer-Linked : Linked P id (unregister_timer id m)
  unregister_timer-Linked = rw (unregister_timer_lem i l) (record {
    listed = unlinked-Listed i l _ (update-ne m.timers id _);
    pending = λ j t e. elim (ℕ-cases j id) [
      | inl n ↦ inl n
      | inr n ↦ elim (unlinked-pending i l _ (update-ne m.timers id _) j t n e) [
        | inl z ↦ cc (
          e,
          ap m.timers z,
          i.no_zero,
          update-ne m.timers id (some (record l.timer { owner = none })) j n,
        )
        | inr h ↦ inr h
      ]
    ];
    free = λ t e. cc (e, update_self m.timers id (some (record l.timer { owner = none })));
    no_zero = update-ne m.timers id _ 0 (λ z. found_ne_zero i l (sym z)) ∙ i.no_zero;
    paced = λ j t e. elim (ℕ-cases j id) [
      | inl n ↦
          let q : record l.timer { owner = none } ≡ t =
            cc (e, n, update_self m.timers id (some (record l.timer { owner = none }))) in
          subst (λ (r : Timer). (1 ≤ r.interval) × (r.interval ≤ max_timeout)) q
            (i.paced id l.timer l.found)
      | inr n ↦
          i.paced j t (sym (update-ne m.timers id (some (record l.timer { owner = none })) j n) ∙ e)
    ];
  })
