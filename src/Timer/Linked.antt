-- ===== src/Timer/Linked.antt =====
-- The lists of the slots and the table of timers agree: each linked timer stands in the table with
-- its slot as owner and a property of its expiry, and each timer of the table is linked, but for one
-- that is being processed.
use coroutine_transaction.Base.{
  ℕ, ◌≤◌, ◌≡◌, sym, ap, ◌∙◌, ◌≢◌, ◌⊎◌, inl, inr, false, Option, none, some, [], ◌∷◌, ◌++◌, Elem,
  Elem-append, Elem-append_left, Elem-append_right, ℕ-cases, update_self, update-ne,
}
use mathlib.Core.Path.{subst}
use coroutine_transaction.Timer.{
  Timer, TimerMgr, WheelType, same_slot, set_slot, set_timer, max_timeout,
}
use coroutine_transaction.Timer.Lists.{same_slot_self, tlist-set_slot_self, tlist-set_slot_cases}

-- A predicate on the wheel, the slot and the expiry of a linked timer.
abbrev pub Place : Type 1
Place = WheelType → ℕ → ℕ → Type 0

pub record Listed (P : Place) (m : TimerMgr) (w : WheelType) (x id : ℕ) : Type 0 where
  pub timer : Timer
  pub found : m.timers id ≡ some timer
  pub owned : timer.owner ≡ some (w, x)
  pub idle : timer.is_in_proc ≡ false
  pub good : P w x timer.expire

-- `k` is the timer in process, 0 if there is none.
pub record Linked (P : Place) (k : ℕ) (m : TimerMgr) : Type 0 where
  pub listed : (w : WheelType) (x id : ℕ) → Elem id (m.tlist w x) → Listed P m w x id
  pub pending :
      (id : ℕ) (t : Timer)
      → m.timers id ≡ some t
      → (id ≡ k) ⊎ ((w : WheelType) × (x : ℕ) × Elem id (m.tlist w x))
  pub free : (t : Timer) → m.timers k ≡ some t → t.owner ≡ none
  pub no_zero : m.timers 0 ≡ none
  pub paced :
      (id : ℕ) (t : Timer) → m.timers id ≡ some t → (1 ≤ t.interval) × (t.interval ≤ max_timeout)

module _ {P : Place} where
  pub Listed-of :
      {m m' : TimerMgr} {w : WheelType} {x id : ℕ}
      → Listed P m w x id
      → m'.timers id ≡ m.timers id
      → Listed P m' w x id
  Listed-of l e = record {
    timer = l.timer;
    found = e ∙ l.found;
    owned = l.owned;
    idle = l.idle;
    good = l.good;
  }

  -- A linked timer is not the one in process.
  pub Listed-ne :
      {k : ℕ} {m : TimerMgr} {w : WheelType} {x id : ℕ} → Linked P k m → Listed P m w x id → id ≢ k
  Listed-ne {k} {m} i l e = cc (i.free l.timer (ap m.timers (sym e) ∙ l.found), l.owned)

  -- Nor is it linked elsewhere.
  pub Listed-slot_ne :
      {m : TimerMgr} {u w : WheelType} {y x id j : ℕ}
      → Listed P m w x id
      → Listed P m u y j
      → same_slot u y w x ≡ false
      → j ≢ id
  Listed-slot_ne {m} {u} {w} {y} {x} l q s e =
      cc (ap m.timers e, l.found, q.found, l.owned, q.owned, same_slot_self w x, s)

-- Linking a timer `a`, and entering it in the table. `k` was in process before, `k'` is afterwards.
module _ {P : Place} {k : ℕ} {m : TimerMgr} (i : Linked P k m) (w : WheelType) (x a k' : ℕ)
    (t : Timer) (f : ℕ → Option Timer) (new : f a ≡ some t)
    (off : (j : ℕ) → j ≢ a → f j ≡ m.timers j)
    (unlisted : (u : WheelType) (y : ℕ) → Listed P m u y a → ⊥)
    (hidden : (j : ℕ) → j ≢ a → j ≡ k → j ≡ k') where
  abbrev pub linked : TimerMgr
  linked = record (set_slot w x (m.tlist w x ++ (a ∷ [])) m) { timers = f }

  linked-old : (u : WheelType) (y id : ℕ) → Elem id (m.tlist u y) → Listed P linked u y id
  linked-old u y id h =
      let l = i.listed u y id h in
      Listed-of l (off id (λ e. unlisted u y (subst (Listed P m u y) e l)))

  linked-Elem : (u : WheelType) (y id : ℕ) → Elem id (m.tlist u y) → Elem id (linked.tlist u y)
  linked-Elem u y id h = elim (tlist-set_slot_cases w x (m.tlist w x ++ (a ∷ [])) m u y) [
    | inl (eu, ey, el) ↦
        subst (Elem id) (sym el) (Elem-append_left id (m.tlist w x) (a ∷ []) (rw (eu, ey) at h))
    | inr (_, el) ↦ subst (Elem id) (sym el) h
  ]

  linked-pending :
      (id : ℕ) (s : Timer)
      → f id ≡ some s
      → (id ≡ k') ⊎ ((u : WheelType) × (y : ℕ) × Elem id (linked.tlist u y))
  linked-pending id s g = elim (ℕ-cases id a) [
    | inl n ↦ inr (
      w,
      x,
      subst (Elem id) (sym (tlist-set_slot_self w x _ m))
          (Elem-append_right id (m.tlist w x) (a ∷ []) (inl n)),
    )
    | inr n ↦ elim (i.pending id s (sym (off id n) ∙ g)) [
      | inl c ↦ inl (hidden id n c)
      | inr (u, y, h) ↦ inr (u, y, linked-Elem u y id h)
    ]
  ]

  module _ (o : t.owner ≡ some (w, x)) (q : t.is_in_proc ≡ false) (g : P w x t.expire)
      (pace : (1 ≤ t.interval) × (t.interval ≤ max_timeout)) (nz : 0 ≢ a)
      (free' : (s : Timer) → f k' ≡ some s → s.owner ≡ none) where
    linked-here : (id : ℕ) → Elem id (m.tlist w x ++ (a ∷ [])) → Listed P linked w x id
    linked-here id h = elim (Elem-append id (m.tlist w x) (a ∷ []) h) [
      | inl l ↦ linked-old w x id l
      | inr (inl n) ↦ record { timer = t; found = ap f n ∙ new; owned = o; idle = q; good = g }
      | inr (inr n) ↦ absurd n
    ]

    pub linked-Linked : Linked P k' linked
    linked-Linked = record {
      listed = λ u y id h. elim (tlist-set_slot_cases w x (m.tlist w x ++ (a ∷ [])) m u y) [
        | inl (eu, ey, el) ↦ rw (eu, ey) (linked-here id (subst (Elem id) el h))
        | inr (_, el) ↦ linked-old u y id (subst (Elem id) el h)
      ];
      pending = linked-pending;
      free = free';
      no_zero = off 0 nz ∙ i.no_zero;
      paced = λ id s e. elim (ℕ-cases id a) [
        | inl n ↦
            let q : t ≡ s = cc (e, new) in
            subst (λ (r : Timer). (1 ≤ r.interval) × (r.interval ≤ max_timeout)) q pace
        | inr n ↦ i.paced id s (sym (off id n) ∙ e)
      ];
    }

-- The record of the timer in process changes, and it stays unlinked.
pub retime-Linked :
    {P : Place} {k : ℕ} {m : TimerMgr} (t : Timer)
    → Linked P k m
    → 0 ≢ k
    → t.owner ≡ none
    → (1 ≤ t.interval) × (t.interval ≤ max_timeout)
    → Linked P k (set_timer k t m)
retime-Linked {P} {k} {m} t i nz o pace = record {
  listed = λ w x id h.
      let l = i.listed w x id h in Listed-of l (update-ne m.timers k _ id (Listed-ne i l));
  pending = λ id s e. elim (ℕ-cases id k) [
    | inl n ↦ inl n
    | inr n ↦ i.pending id s (sym (update-ne m.timers k (some t) id n) ∙ e)
  ];
  free = λ s e. cc (e, update_self m.timers k (some t));
  no_zero = update-ne m.timers k _ 0 nz ∙ i.no_zero;
  paced = λ id s e. elim (ℕ-cases id k) [
    | inl n ↦
        let q : t ≡ s = cc (e, update_self m.timers k (some t), n) in
        subst (λ (r : Timer). (1 ≤ r.interval) × (r.interval ≤ max_timeout)) q pace
    | inr n ↦ i.paced id s (sym (update-ne m.timers k (some t) id n) ∙ e)
  ];
}
