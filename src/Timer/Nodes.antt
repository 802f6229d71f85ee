-- ===== src/Timer/Nodes.antt =====
-- The slots of the wheels as DoubLinks on a heap of nodes: a timer is a node, as in timer/svr_timer.h,
-- and the list operations of TimerMgr are those of timer/linklist.h.
use mathlib.Core.Path.{subst}
use coroutine_transaction.Base.{
  ℕ, ◌+◌, ◌*◌, ◌≡◌, ◌∙◌, refl, sym, ap, inl, inr, Option, none, some, List, [], ◌∷◌, ◌++◌, ◌==◌,
  update, unlink, ℕ-cases, Option-cases, ==-self, ==-ne, arith, if◌then◌else◌,
}
use coroutine_transaction.DoubLink.{Ptr, null, node, Memory, new_memory, remove}
use coroutine_transaction.DoubLink
use coroutine_transaction.DoubLink.Represents.{
  Links, no_links, relist, Represents, links_push, remove_from, links_remove,
}
use coroutine_transaction.DoubLink.Refines.{push-Represents, remove-Represents, pop-Represents}
use coroutine_transaction.DoubLink.Runs.{new_memory-Represents}
use coroutine_transaction.Timer.{
  Timer, TimerMgr, WheelType, sec, hour, day, same_slot, init, push, unregister_timer, pop,
}

-- The DoubLink of a slot.
abbrev pub link_of : WheelType → ℕ → ℕ
link_of sec x = 3 * x
link_of hour x = 3 * x + 1
link_of day x = 3 * x + 2

abbrev pub owner_link : Option (WheelType × ℕ) → Option ℕ
owner_link none = none
owner_link (some (w, x)) = some (link_of w x)

abbrev pub timer_link : Option Timer → Option ℕ
timer_link none = none
timer_link (some t) = owner_link t.owner

-- The lists are those of the slots.
pub record Wheels (m : TimerMgr) (s : Links) : Type 0 where
  pub slots : (w : WheelType) (x : ℕ) → s.lists (link_of w x) ≡ m.tlist w x
  pub owners : (id : ℕ) → s.owner id ≡ timer_link (m.timers id)

-- The heap holds the lists of the wheels.
abbrev pub OnHeap : TimerMgr → Memory → Type 0
OnHeap m h = (s : Links) × Wheels m s × Represents s h

same_slot_lem :
    (u : WheelType) (y : ℕ) (w : WheelType) (x : ℕ)
    → (link_of u y == link_of w x) ≡ same_slot u y w x
same_slot_lem sec y sec x = ground arith
same_slot_lem hour y hour x = ground arith
same_slot_lem day y day x = ground arith
same_slot_lem sec y hour x = ground arith
same_slot_lem sec y day x = ground arith
same_slot_lem hour y sec x = ground arith
same_slot_lem hour y day x = ground arith
same_slot_lem day y sec x = ground arith
same_slot_lem day y hour x = ground arith

-- One slot and the owner of one timer change.
relist-Wheels :
    (m : TimerMgr) (s : Links) (w : WheelType) (x id : ℕ) (t : Timer) (ids : List ℕ)
    → Wheels m s
    → Wheels
        (record m {
          tlist = λ u y. if same_slot u y w x then ids else m.tlist u y;
          timers = update m.timers id (some t);
        })
        (relist (link_of w x) ids id (owner_link t.owner) s)
relist-Wheels m s w x id t ids g = record {
  slots = λ u y.
      subst
        (λ b.
          (if b then ids else s.lists (link_of u y))
          ≡ (if same_slot u y w x then ids else m.tlist u y))
        (sym (same_slot_lem u y w x))
        (ap (λ ys. if same_slot u y w x then ids else ys) (g.slots u y));
  owners = λ j. elim (ℕ-cases j id) [
    | inl q ↦ rw (q, ==-self id) refl
    | inr ne ↦ rw (==-ne j id ne) (g.owners j)
  ];
}

push-OnHeap :
    (w : WheelType) (x id : ℕ) (t : Timer) (m : TimerMgr) (h : Memory)
    → m.timers id ≡ some t
    → OnHeap m h
    → OnHeap (push w x id m) (DoubLink.push (link_of w x) (node id) h)
unfolding push
push-OnHeap w x id t m h e (s, g, r) =
    let l = link_of w x in
    let r' = push-Represents r l id in
    let o = g.owners id ∙ ap timer_link e in
    elim (Option-cases t.owner) [
      | inr (at, q) ↦
          let p = o ∙ ap owner_link q in
          rw (e, push, q)
            (s, g, subst (λ k. Represents k (DoubLink.push l (node id) h)) (rw p refl) r')
      | inl q ↦
          let p = o ∙ ap owner_link q in
          let ids = m.tlist w x ++ (id ∷ []) in
          let new : Links = relist l ids id (some l) s in
          let same : links_push l id s ≡ new =
            rw p (ap (λ ys. relist l (ys ++ (id ∷ [])) id (some l) s) (g.slots w x)) in
          rw (e, push, q)
            (
              new,
              relist-Wheels m s w x id (record t { owner = some (w, x) }) ids g,
              subst (λ k. Represents k (DoubLink.push l (node id) h)) same r',
            )
    ]

remove-OnHeap :
    (id : ℕ) (m : TimerMgr) (h : Memory)
    → OnHeap m h
    → OnHeap (unregister_timer id m) (remove (node id) h)
unfolding unregister_timer
remove-OnHeap id m h (s, g, r) =
    let r' = remove-Represents r id in
    elim (Option-cases (m.timers id)) [
      | inl e ↦
          let p = g.owners id ∙ ap timer_link e in
          rw (e, unregister_timer)
            (
              s,
              g,
              subst (λ k. Represents k (remove (node id) h)) (ap (λ o. remove_from o id s) p) r',
            )
      | inr (t, e) ↦ elim (Option-cases t.owner) [
        | inl q ↦
            let p = g.owners id ∙ (ap timer_link e ∙ ap owner_link q) in
            rw (e, unregister_timer, q)
              (
                s,
                g,
                subst (λ k. Represents k (remove (node id) h)) (ap (λ o. remove_from o id s) p) r',
              )
        | inr ((w, x), q) ↦
            let p = g.owners id ∙ (ap timer_link e ∙ ap owner_link q) in
            let ids = unlink id (m.tlist w x) in
            let new : Links = relist (link_of w x) ids id none s in
            let same : links_remove id s ≡ new =
              ap (λ o. remove_from o id s) p
              ∙ ap (λ ys. relist (link_of w x) (unlink id ys) id none s) (g.slots w x) in
            rw (e, unregister_timer, q)
              (
                new,
                relist-Wheels m s w x id (record t { owner = none }) ids g,
                subst (λ k. Represents k (remove (node id) h)) same r',
              )
      ]
    ]

-- What Pop of a slot gives, as a node, and the manager it leaves.
abbrev pub popped : Option (ℕ × TimerMgr) → Ptr
popped none = null
popped (some (id, _)) = node id

abbrev pub left_by : TimerMgr → Option (ℕ × TimerMgr) → TimerMgr
left_by m none = m
left_by m (some (_, m')) = m'

pop_at :
    (w : WheelType) (x : ℕ) (m : TimerMgr) (ids : List ℕ)
    → m.tlist w x ≡ ids
    → pop w x m ≡ elim ids [ [] ↦ none | id ∷ _ ↦ some (id, unregister_timer id m) ]
unfolding pop
pop_at w x m ids e =
    ap
      (λ (ys : List ℕ). (elim ys as (λ _. Option (ℕ × TimerMgr)) [
        | [] ↦ none
        | id ∷ _ ↦ some (id, unregister_timer id m)
      ]))
      e

pop-OnHeap :
    (w : WheelType) (x : ℕ) (m : TimerMgr) (h : Memory) (ids : List ℕ)
    → m.tlist w x ≡ ids
    → OnHeap m h
    → let r = DoubLink.pop (link_of w x) h in
      (r.0 ≡ popped (pop w x m)) × OnHeap (left_by m (pop w x m)) r.1
unfolding DoubLink.pop
pop-OnHeap w x m h [] e (s, g, r) =
    let (c, r') = pop-Represents r (link_of w x) [] (g.slots w x ∙ e) in
    rw (pop_at w x m [] e) (c, (s, g, r'))
pop-OnHeap w x m h (id ∷ ids) e (s, g, r) =
    let (c, _) = pop-Represents r (link_of w x) (id ∷ ids) (g.slots w x ∙ e) in
    let first : h.next (DoubLink.head (link_of w x)) ≡ node id =
      (rw (g.slots w x ∙ e) at (r.chain (link_of w x))).0 in
    rw (pop_at w x m (id ∷ ids) e) (c, rw first (remove-OnHeap id m h (s, g, r)))

-- The list operations of the timer wheels are those of DoubLink on a heap of nodes: from the start,
-- where all slots are empty lists, the heap that holds the lists of the wheels holds them again after a
-- timer of the table is pushed to a slot, after a timer is unregistered, which DoubLink::Remove does,
-- and after the first timer of a slot is popped, where both give the same timer or none.
pub slots-refine :
    OnHeap init new_memory
    × ((m : TimerMgr) (h : Memory)
        → OnHeap m h
        → ((w : WheelType) (x id : ℕ) (t : Timer)
            → m.timers id ≡ some t
            → OnHeap (push w x id m) (DoubLink.push (link_of w x) (node id) h))
          × ((id : ℕ) → OnHeap (unregister_timer id m) (remove (node id) h))
          × ((w : WheelType) (x : ℕ)
              → let r = DoubLink.pop (link_of w x) h in
                (r.0 ≡ popped (pop w x m)) × OnHeap (left_by m (pop w x m)) r.1))
unfolding init
slots-refine = (
  (no_links, record { slots = λ w x. refl; owners = λ id. refl }, new_memory-Represents),
  λ m h g. (
    λ w x id t e. push-OnHeap w x id t m h e g,
    λ id. remove-OnHeap id m h g,
    λ w x. pop-OnHeap w x m h (m.tlist w x) refl g,
  ),
)
