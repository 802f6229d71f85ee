-- ===== src/Coroutine/Swap.antt =====
-- Swapping between the main coroutine and a work coroutine.
use mathlib.Core.Path.{subst}
use coroutine_transaction.Base.{
  ℕ, ◌≡◌, ◌≢◌, refl, none, some, true, false, arith, ◌⊎◌, inl, inr, ℤ, pos, negsuc, Option-cases,
  ℕ-cases, sym, ap, ◌∙◌, ==-self, ==-ne, Option, Bool-cases,
}
use coroutine_transaction.Coroutine.{
  Coroutine, Scheduler, State, run, suspend, uninit, swap_to_main, swap_to_work_routine,
  set_coroutine, is_resumable,
}
use coroutine_transaction.Coroutine.Valid.{Entry, Valid}

pub set_same :
    (id : ℕ) (co : Option Coroutine) (s : Scheduler) → (set_coroutine id co s).coroutines id ≡ co
set_same id co s = rw (==-self id)

pub set_other :
    (id : ℕ) (co : Option Coroutine) (s : Scheduler) (j : ℕ)
    → j ≢ id
    → (set_coroutine id co s).coroutines j ≡ s.coroutines j
set_other id co s j n = rw (==-ne j id n)

-- The scheduler once the work coroutine `co` runs.
abbrev pub entered : ℕ → Coroutine → Scheduler → Scheduler
entered id co s = record (set_coroutine id (some (record co { state = run })) s) {
  main = record (s.main) { state = suspend };
  curr = co.id;
}

-- The scheduler once the main coroutine runs again, with `co` left in the given state.
abbrev pub left : State → Coroutine → Scheduler → Scheduler
left st co s = record (set_coroutine s.curr (some (record co { state = st })) s) {
  main = record (s.main) { state = run };
  curr = 0;
}

pub id_ne_zero :
    {s : Scheduler} {id : ℕ} {co : Coroutine} → Valid s → s.coroutines id ≡ some co → id ≢ 0
id_ne_zero {s} v e z = cc (v.no_zero, e, ap s.coroutines z)

pub entered-Valid :
    (s : Scheduler) (id : ℕ) (co : Coroutine)
    → Valid s
    → s.curr ≡ 0
    → s.coroutines id ≡ some co
    → Valid (entered id co s)
entered-Valid s id co v z e =
    let en = v.entries id co e in
    let nz = id_ne_zero v e in
    record {
      main_kind = v.main_kind;
      main_run = λ q. absurd (nz (sym en.same_id ∙ q));
      main_suspend = λ _. refl;
      no_zero = set_other id _ s 0 (λ q. nz (sym q)) ∙ v.no_zero;
      entries = λ j b f. elim (ℕ-cases j id) [
        | inl q ↦
            let w : record co { state = run } ≡ b =
              cc (f, q, set_same id (some (record co { state = run })) s) in
            subst (Entry (entered id co s) j) w (record {
              same_id = en.same_id ∙ sym q;
              not_main = en.not_main;
              started = λ u. cc u;
              running = λ _. refl;
              resting = λ u. absurd (u (en.same_id ∙ sym q));
            })
        | inr q ↦
            let o =
              v.entries j b (sym (set_other id (some (record co { state = run })) s j q) ∙ f) in
            record {
              same_id = o.same_id;
              not_main = o.not_main;
              started = o.started;
              running = λ u. absurd (q (sym u ∙ en.same_id));
              resting = λ _. o.resting (λ u. cc (
                v.no_zero,
                sym (set_other id (some (record co { state = run })) s j q) ∙ f,
                ap s.coroutines (sym u ∙ z),
              ));
            }
      ];
      current = λ _. (
        record co { state = run },
        ap (set_coroutine id (some (record co { state = run })) s).coroutines en.same_id
            ∙ set_same id _ s,
      );
    }

pub left-Valid :
    (st : State) (s : Scheduler) (co : Coroutine)
    → st ≢ run
    → st ≢ uninit
    → Valid s
    → s.curr ≢ 0
    → s.coroutines s.curr ≡ some co
    → Valid (left st co s)
left-Valid st s co nr nu v nz e =
    let en = v.entries s.curr co e in
    record {
      main_kind = v.main_kind;
      main_run = λ _. refl;
      main_suspend = λ q. absurd (q refl);
      no_zero = set_other s.curr _ s 0 (λ q. nz (sym q)) ∙ v.no_zero;
      entries = λ j b f. elim (ℕ-cases j s.curr) [
        | inl q ↦
            let w : record co { state = st } ≡ b =
              cc (f, q, set_same s.curr (some (record co { state = st })) s) in
            subst (Entry (left st co s) j) w (record {
              same_id = en.same_id ∙ sym q;
              not_main = en.not_main;
              started = nu;
              running = λ u. absurd (nz (sym q ∙ sym u));
              resting = λ _. nr;
            })
        | inr q ↦
            let g = sym (set_other s.curr (some (record co { state = st })) s j q) ∙ f in
            let o = v.entries j b g in
            record {
              same_id = o.same_id;
              not_main = o.not_main;
              started = o.started;
              running = λ u. absurd (id_ne_zero v g (sym u));
              resting = λ _. o.resting (λ u. q (sym u));
            }
      ];
      current = λ q. absurd (q refl);
    }

-- What SwapToWorkRoutine can do.
abbrev pub WorkOutcome : ℕ → Scheduler → Scheduler × ℤ → Type 0
WorkOutcome id s r =
    ((s.curr ≢ 0) × (r ≡ (s, negsuc 0)))
    ⊎ ((s.curr ≡ 0) × (s.coroutines id ≡ none) × (r ≡ (s, negsuc 1)))
    ⊎ ((co : Coroutine) × (s.curr ≡ 0)
        × (s.coroutines id ≡ some co)
        × (is_resumable co.state ≡ false)
        × (r ≡ (s, negsuc 0)))
    ⊎ ((co : Coroutine) × (s.curr ≡ 0)
        × (s.coroutines id ≡ some co)
        × (is_resumable co.state ≡ true)
        × (r ≡ (entered id co s, pos 0)))

curr_zero : (s : Scheduler) → s.curr ≡ 0 → record s { curr = 0 } ≡ s
curr_zero s z = ap (λ (k : ℕ). record s { curr = k }) (sym z)

-- SwapToWorkRoutine refuses from a work coroutine (-1), for an unknown id (-2) and for a coroutine
-- that is neither suspended nor ready (-1), each time with the scheduler unchanged; otherwise it
-- runs the coroutine, suspends the main one and returns 0.
pub swap_to_work_routine-cases :
    (s : Scheduler) (id : ℕ) → Valid s → WorkOutcome id s (swap_to_work_routine id s)
unfolding swap_to_work_routine
swap_to_work_routine-cases s id v = elim (ℕ-cases s.curr 0) [
  | inr n ↦ inl (n, simp (==-ne s.curr 0 n))
  | inl z ↦ elim (Option-cases (s.coroutines id)) [
    | inl e ↦ inr (inl (z, e, ground arith))
    | inr (co, e) ↦
        let en = v.entries id co e in
        let km = v.main_kind in
        let kc = en.not_main in
        elim (Bool-cases (is_resumable co.state)) [
          | inl b ↦ inr (inr (inr (co, z, e, b, ground arith)))
          | inr b ↦ inr (inr (inl (co, z, e, b, ground (arith, curr_zero s z))))
        ]
  ]
]

-- SwapToWorkRoutine keeps the invariant, whatever it returns.
pub swap_to_work_routine-Valid :
    (s : Scheduler) (id : ℕ) → Valid s → Valid (swap_to_work_routine id s).0
swap_to_work_routine-Valid s id v = elim (swap_to_work_routine-cases s id v) [
  | inl (_, e) ↦ rw e v
  | inr (inl (_, _, e)) ↦ rw e v
  | inr (inr (inl (_, _, _, _, e))) ↦ rw e v
  | inr (inr (inr (co, z, f, _, e))) ↦ rw e (entered-Valid s id co v z f)
]

-- From a work coroutine, SwapToMain always succeeds: it suspends the coroutine and runs the main one.
pub swap_to_main-left :
    (s : Scheduler)
    → Valid s
    → s.curr ≢ 0
    → (co : Coroutine) × (s.coroutines s.curr ≡ some co)
      × (swap_to_main s ≡ (left suspend co s, pos 0))
unfolding swap_to_main
swap_to_main-left s v n =
    let (co, e) = v.current n in
    let en = v.entries s.curr co e in
    let km = v.main_kind in
    let kc = en.not_main in
    let w = v.main_suspend n in let z = ==-ne s.curr 0 n in (co, e, ground arith)

swap_to_main-refused : (s : Scheduler) → s.curr ≡ 0 → swap_to_main s ≡ (s, negsuc 0)
unfolding swap_to_main
swap_to_main-refused s z = simp z

pub swap_to_main-Valid : (s : Scheduler) → Valid s → Valid (swap_to_main s).0
swap_to_main-Valid s v = elim (ℕ-cases s.curr 0) [
  | inl z ↦ rw (swap_to_main-refused s z) v
  | inr n ↦
      let (co, e, f) = swap_to_main-left s v n in
      rw f (left-Valid suspend s co (λ u. cc u) (λ u. cc u) v n e)
]

pub swap_to_work_routine-entered :
    (s : Scheduler) (id : ℕ) (co : Coroutine)
    → Valid s
    → s.curr ≡ 0
    → s.coroutines id ≡ some co
    → is_resumable co.state ≡ true
    → swap_to_work_routine id s ≡ (entered id co s, pos 0)
swap_to_work_routine-entered s id co v z e b = elim (swap_to_work_routine-cases s id v) [
  | inl (n, _) ↦ absurd (n z)
  | inr (inl (_, f, _)) ↦ cc (e, f)
  | inr (inr (inl (x, _, f, g, _))) ↦ cc (e, f, b, g)
  | inr (inr (inr (x, _, f, _, g))) ↦
      let q : x ≡ co = cc (e, f) in g ∙ ap (λ y. (entered id y s, pos 0)) q
]
