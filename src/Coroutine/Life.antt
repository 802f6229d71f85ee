-- ===== src/Coroutine/Life.antt =====
-- The life of the work coroutines: a scheduler under any sequence of operations, and what a
-- coroutine that is entered, suspended or ended can do next.
use coroutine_transaction.Base.{
  ℕ, ◌≡◌, ◌≢◌, refl, some, true, Bool, inl, inr, ℤ, pos, negsuc, sym, ap, ◌∙◌, ==-ne,
}
use coroutine_transaction.Coroutine.{
  Coroutine, Scheduler, run, suspend, dead, new_scheduler, init, create_work_routine,
  destroy_work_routine, swap_to_main, swap_to_work_routine, on_work_routine_exit, is_resumable,
}
use coroutine_transaction.Coroutine.Valid.{Valid}
use coroutine_transaction.Coroutine.Swap.{
  set_same, set_other, entered, left, left-Valid, swap_to_work_routine-cases,
  swap_to_work_routine-Valid, swap_to_work_routine-entered, entered-Valid, id_ne_zero,
  swap_to_main-left, swap_to_main-Valid,
}
use coroutine_transaction.Coroutine.Made.{create_work_routine-Valid, destroy_work_routine-Valid}

-- Init succeeds on a new scheduler.
pub init-Valid : (page : ℤ) → Valid (init page new_scheduler).0
unfolding init
init-Valid page = record {
  main_kind = refl;
  main_run = λ _. refl;
  main_suspend = λ q. absurd (q refl);
  no_zero = refl;
  entries = λ id co e. cc e;
  current = λ q. absurd (q refl);
}

-- A work coroutine that ends is dead, and the main one runs.
pub on_work_routine_exit-left :
    (s : Scheduler)
    → Valid s
    → s.curr ≢ 0
    → (co : Coroutine) × (s.coroutines s.curr ≡ some co)
      × (on_work_routine_exit s ≡ (left dead co s, pos 0))
unfolding on_work_routine_exit
on_work_routine_exit-left s v n =
    let (co, e) = v.current n in (co, e, rw (==-ne s.curr 0 n, e) refl)

-- What the program can do with the scheduler: the main coroutine creates, destroys and enters, a
-- work coroutine also yields and ends. The current coroutine is not destroyed.
pub data Step : Scheduler → Scheduler → Type 0 where
  creates :
      (mem : Bool) (id : ℕ) (stack_size : ℤ) (entry param : ℕ) (s : Scheduler)
      → Step s (create_work_routine mem id stack_size entry param s).0
  destroys : (id : ℕ) (s : Scheduler) → s.curr ≢ id → Step s (destroy_work_routine id s).0
  enters : (id : ℕ) (s : Scheduler) → Step s (swap_to_work_routine id s).0
  yields : (s : Scheduler) → Step s (swap_to_main s).0
  ends : (s : Scheduler) → s.curr ≢ 0 → Step s (on_work_routine_exit s).0

pub data Reachable : Scheduler → Type 0 where
  begins : (page : ℤ) → Reachable (init page new_scheduler).0
  steps : {s s' : Scheduler} → Reachable s → Step s s' → Reachable s'

ends-Valid : (s : Scheduler) → Valid s → s.curr ≢ 0 → Valid (on_work_routine_exit s).0
ends-Valid s v n =
    let (co, e, f) = on_work_routine_exit-left s v n in
    rw f (left-Valid dead s co (λ u. cc u) (λ u. cc u) v n e)

Step-Valid : {s s' : Scheduler} → Step s s' → Valid s → Valid s'
Step-Valid (creates mem id stack_size entry param s) v =
    create_work_routine-Valid mem id stack_size entry param s v
Step-Valid (destroys id s n) v = destroy_work_routine-Valid id s v n
Step-Valid (enters id s) v = swap_to_work_routine-Valid s id v
Step-Valid (yields s) v = swap_to_main-Valid s v
Step-Valid (ends s n) v = ends-Valid s v n

-- In every state that the scheduler can reach from Init, exactly one side runs: the main coroutine
-- if none is current, and else the current one, which stands in the map, while the main coroutine
-- is suspended; every coroutine of the map stands under its own id, and none under 0.
pub Reachable-Valid : {s : Scheduler} → Reachable s → Valid s
Reachable-Valid (begins page) = init-Valid page
Reachable-Valid (steps r t) = Step-Valid t (Reachable-Valid r)

-- A coroutine that is entered and yields is suspended in the map, the others are as before, and the
-- main coroutine runs on: it can be entered again.
pub enter-yield :
    (s : Scheduler) (id : ℕ) (co : Coroutine)
    → Valid s
    → s.curr ≡ 0
    → s.coroutines id ≡ some co
    → is_resumable co.state ≡ true
    → let inside = (swap_to_work_routine id s).0 in
      let back = (swap_to_main inside).0 in
      (inside.curr ≡ id)
      × (back.curr ≡ 0)
      × (back.main.state ≡ run)
      × (back.coroutines id ≡ some (record co { state = suspend }))
      × ((j : ℕ) → j ≢ id → back.coroutines j ≡ s.coroutines j)
enter-yield s id co v z e b =
    let en = v.entries id co e in
    let inside = entered id co s in
    let there : inside.curr ≢ 0 = λ q. id_ne_zero v e (sym en.same_id ∙ q) in
    let (x, f, g) = swap_to_main-left inside (entered-Valid s id co v z e) there in
    let same : record co { state = run } ≡ x =
      cc (f, ap inside.coroutines en.same_id, set_same id (some (record co { state = run })) s) in
    let last : (swap_to_main inside).0 ≡ left suspend (record co { state = run }) inside =
      ap (λ (r : Scheduler × ℤ). r.0) g
      ∙ ap (λ (y : Coroutine). left suspend y inside) (sym same) in
    rw (swap_to_work_routine-entered s id co v z e b, last)
      (
        en.same_id,
        refl,
        refl,
        ap (left suspend (record co { state = run }) inside).coroutines (sym en.same_id)
            ∙ set_same co.id _ inside,
        λ j n. set_other co.id _ inside j (λ q. n (q ∙ en.same_id)) ∙ set_other id _ s j n,
      )

-- A coroutine that has ended cannot be entered again: SwapToWorkRoutine returns -1 and changes
-- nothing.
pub ended-refused :
    (s : Scheduler)
    → Valid s
    → s.curr ≢ 0
    → let after = (on_work_routine_exit s).0 in
      swap_to_work_routine s.curr after ≡ (after, negsuc 0)
ended-refused s v n =
    let (co, e, f) = on_work_routine_exit-left s v n in
    let w = left-Valid dead s co (λ u. cc u) (λ u. cc u) v n e in
    rw f (elim (swap_to_work_routine-cases (left dead co s) s.curr w) [
      | inl (m, _) ↦ absurd (m refl)
      | inr (inl (_, g, _)) ↦ cc (g, set_same s.curr (some (record co { state = dead })) s)
      | inr (inr (inl (_, _, _, _, h))) ↦ h
      | inr (inr (inr (x, _, g, b, _))) ↦
          let q : record co { state = dead } ≡ x =
            cc (g, set_same s.curr (some (record co { state = dead })) s) in
          cc (b, ap (λ (y : Coroutine). is_resumable y.state) q)
    ])
