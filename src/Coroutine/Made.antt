-- ===== src/Coroutine/Made.antt =====
-- Coroutines that are made and taken out.
use mathlib.Core.Path.{subst}
use coroutine_transaction.Base.{
  ℕ, ◌≡◌, ◌≢◌, refl, none, some, true, false, arith, Bool, ◌⊎◌, inl, inr, ℤ, pos, negsuc,
  Option-cases, ℕ-cases, sym, ap, ◌∙◌, ==-ne, is_zero,
}
use coroutine_transaction.Coroutine.{
  Coroutine, Scheduler, ready, new_coroutine, create_work, create_work_routine,
  destroy_work_routine, set_coroutine,
}
use coroutine_transaction.Coroutine.Valid.{Entry, Valid}
use coroutine_transaction.Coroutine.Swap.{set_same, set_other}

-- What a successful creation makes.
pub create_work-made :
    (mem : Bool) (id : ℕ) (stack_size page_size : ℤ) (entry param : ℕ)
    → let r = create_work mem id stack_size page_size entry param new_coroutine in
      (is_zero r.1 ≡ false)
      ⊎ ((id ≢ 0)
          × (is_zero r.1 ≡ true)
          × (r.0.id ≡ id)
          × (r.0.is_main ≡ false)
          × (r.0.state ≡ ready))
unfolding create_work
create_work-made mem id stack_size page_size entry param = ground arith

pub added-Valid :
    (s : Scheduler) (id : ℕ) (co : Coroutine)
    → Valid s
    → id ≢ 0
    → s.coroutines id ≡ none
    → co.id ≡ id
    → co.is_main ≡ false
    → co.state ≡ ready
    → Valid (set_coroutine id (some co) s)
added-Valid s id co v nz e a b d =
    let away : s.curr ≢ id =
      λ q. (let (x, f) = v.current (λ z. nz (sym q ∙ z)) in cc (f, e, ap s.coroutines q)) in
    record {
      main_kind = v.main_kind;
      main_run = v.main_run;
      main_suspend = v.main_suspend;
      no_zero = set_other id (some co) s 0 (λ q. nz (sym q)) ∙ v.no_zero;
      entries = λ j x f. elim (ℕ-cases j id) [
        | inl q ↦
            let w : co ≡ x = cc (f, q, set_same id (some co) s) in
            subst (Entry (set_coroutine id (some co) s) j) w (record {
              same_id = a ∙ sym q;
              not_main = b;
              started = λ u. cc (u, d);
              running = λ u. absurd (away (u ∙ q));
              resting = λ _ u. cc (u, d);
            })
        | inr q ↦
            let o = v.entries j x (sym (set_other id (some co) s j q) ∙ f) in
            record {
              same_id = o.same_id;
              not_main = o.not_main;
              started = o.started;
              running = o.running;
              resting = o.resting;
            }
      ];
      current = λ n. (let (x, f) = v.current n in (x, set_other id (some co) s s.curr away ∙ f));
    }

pub create_work_routine-Valid :
    (mem : Bool) (id : ℕ) (stack_size : ℤ) (entry param : ℕ) (s : Scheduler)
    → Valid s
    → Valid (create_work_routine mem id stack_size entry param s).0
unfolding create_work_routine
create_work_routine-Valid mem id stack_size entry param s v =
    elim (create_work-made mem id stack_size s.page_size entry param) [
      | inl z ↦ rw z v
      | inr (nz, z, a, b, d) ↦ elim (Option-cases (s.coroutines id)) [
        | inl e ↦ rw (z, e) (added-Valid s id _ v nz e a b d)
        | inr (x, e) ↦ rw (z, e) v
      ]
    ]

-- What CreateWorkRoutine can do.
pub create_work_routine-cases :
    (mem : Bool) (id : ℕ) (stack_size : ℤ) (entry param : ℕ) (s : Scheduler)
    → let r = create_work_routine mem id stack_size entry param s in
      ((code : ℤ) × (is_zero code ≡ false) × (r ≡ (s, code, none)))
      ⊎ ((co : Coroutine) × (id ≢ 0)
          × (s.coroutines id ≡ none)
          × (co.id ≡ id)
          × (co.is_main ≡ false)
          × (co.state ≡ ready)
          × (r ≡ (set_coroutine id (some co) s, pos 0, some id)))
unfolding create_work_routine
create_work_routine-cases mem id stack_size entry param s =
    elim (create_work-made mem id stack_size s.page_size entry param) [
      | inl z ↦ inl (negsuc 1, refl, rw z refl)
      | inr (nz, z, a, b, d) ↦ elim (Option-cases (s.coroutines id)) [
        | inl e ↦ inr (
          (create_work mem id stack_size s.page_size entry param new_coroutine).0,
          nz,
          e,
          a,
          b,
          d,
          rw (z, e) refl,
        )
        | inr (x, e) ↦ inl (negsuc 2, refl, rw (z, e) refl)
      ]
    ]

-- A coroutine that is taken out leaves the others, and who runs.
pub destroy_work_routine-others :
    (id : ℕ) (s : Scheduler)
    → let t = (destroy_work_routine id s).0 in
      (t.curr ≡ s.curr) × ((k : ℕ) → k ≢ id → t.coroutines k ≡ s.coroutines k)
unfolding destroy_work_routine
destroy_work_routine-others id s = elim (ℕ-cases id 0) [
  | inl z ↦ rw z (refl, λ k n. refl)
  | inr n ↦ elim (Option-cases (s.coroutines id)) [
    | inl e ↦ rw (==-ne id 0 n, e) (refl, λ k m. refl)
    | inr (x, e) ↦ rw (==-ne id 0 n, e) (refl, λ k m. set_other id none s k m)
  ]
]

-- What is taken out is gone, and nothing comes back.
pub destroy_work_routine-gone :
    (id : ℕ) (s : Scheduler) → Valid s → (destroy_work_routine id s).0.coroutines id ≡ none
unfolding destroy_work_routine
destroy_work_routine-gone id s v = elim (ℕ-cases id 0) [
  | inl z ↦ rw z v.no_zero
  | inr n ↦ elim (Option-cases (s.coroutines id)) [
    | inl e ↦ rw (==-ne id 0 n, e) e
    | inr (x, e) ↦ rw (==-ne id 0 n, e) (set_same id none s)
  ]
]

-- A coroutine that is not the current one can be taken out.
pub destroy_work_routine-Valid :
    (id : ℕ) (s : Scheduler) → Valid s → s.curr ≢ id → Valid (destroy_work_routine id s).0
unfolding destroy_work_routine
destroy_work_routine-Valid id s v away = elim (ℕ-cases id 0) [
  | inl z ↦ rw z v
  | inr n ↦ elim (Option-cases (s.coroutines id)) [
    | inl e ↦ rw (==-ne id 0 n, e) v
    | inr (x, e) ↦
        rw (==-ne id 0 n, e)
          (record {
            main_kind = v.main_kind;
            main_run = v.main_run;
            main_suspend = v.main_suspend;
            no_zero = set_other id none s 0 (λ q. n (sym q)) ∙ v.no_zero;
            entries = λ j y f. elim (ℕ-cases j id) [
              | inl q ↦ cc (f, q, set_same id none s)
              | inr q ↦
                  let o = v.entries j y (sym (set_other id none s j q) ∙ f) in
                  record {
                    same_id = o.same_id;
                    not_main = o.not_main;
                    started = o.started;
                    running = o.running;
                    resting = o.resting;
                  }
            ];
            current = λ m. (let (y, f) = v.current m in (y, set_other id none s s.curr away ∙ f));
          })
  ]
]
