-- ===== src/Server/Freed.antt =====
-- What TranInstMgr::Update releases.
use mathlib.Core.Path.{subst}
use coroutine_transaction.Base.{
  ℕ, ◌≡◌, ◌∙◌, refl, sym, ap, inl, inr, Option, none, List, [], ◌∷◌, ℕ-cases, Option-cases, ==-ne,
  All,
}
use coroutine_transaction.Coroutine.{Scheduler}
use coroutine_transaction.Coroutine.Valid.{Valid}
use coroutine_transaction.Coroutine.Made.{
  destroy_work_routine-Valid, destroy_work_routine-others, destroy_work_routine-gone,
}
use coroutine_transaction.Transaction.{Instance, Transaction}
use coroutine_transaction.Server.{Server}
use coroutine_transaction.Server.Calls.{free_coroutine, tell_result, update_one, update_all, update}
use coroutine_transaction.Server.Steps.{Reachable, Reachable-Idle}

-- Nobody runs, and the coroutine `c` is gone if it was.
abbrev Gone : Scheduler → Scheduler → Type 0
Gone s t = Valid t × (t.curr ≡ 0) × ((k : ℕ) → s.coroutines k ≡ none → t.coroutines k ≡ none)

module _ {U : Type 0} (tran_of : ℕ → Option (Transaction U)) where
  free_coroutine-Gone :
      (c : ℕ) (s : Server U)
      → Valid s.scheduler
      → s.scheduler.curr ≡ 0
      → Gone s.scheduler (free_coroutine c s).scheduler
        × ((free_coroutine c s).scheduler.coroutines c ≡ none)
  unfolding free_coroutine
  free_coroutine-Gone c s v m = elim (ℕ-cases c 0) [
    | inl z ↦ rw (z, free_coroutine) ((v, m, λ k e. e), v.no_zero)
    | inr n ↦
        let (same, others) = destroy_work_routine-others c s.scheduler in
        let gone = destroy_work_routine-gone c s.scheduler v in
        rw (==-ne c 0 n, free_coroutine)
          (
            (
              destroy_work_routine-Valid c s.scheduler v (λ q. n (sym q ∙ m)),
              same ∙ m,
              λ k e. elim (ℕ-cases k c) [ inl q ↦ rw q gone | inr a ↦ others k a ∙ e ],
            ),
            gone,
          )
  ]

  tell_result-scheduler :
      (d : Instance) (s : Server U) → (tell_result tran_of d s).scheduler ≡ s.scheduler
  unfolding tell_result
  tell_result-scheduler d s = elim (Option-cases (tran_of d.type)) [
    | inl e ↦ rw (e, tell_result) refl
    | inr (tr, e) ↦ rw (e, tell_result) refl
  ]

  update_all-Gone :
      (ds : List Instance) (s : Server U)
      → Valid s.scheduler
      → s.scheduler.curr ≡ 0
      → let t = update_all tran_of ds s in
        ((k : ℕ) → s.scheduler.coroutines k ≡ none → t.scheduler.coroutines k ≡ none)
        × All (λ (d : Instance). t.scheduler.coroutines d.coroutine_id ≡ none) ds
  unfolding update_all update_one
  update_all-Gone [] s v m = (λ k e. e, tt)
  update_all-Gone (d ∷ ds) s v m =
      let s1 = free_coroutine d.coroutine_id s in
      let ((v1, m1, keeps), gone) = free_coroutine-Gone d.coroutine_id s v m in
      let e = tell_result-scheduler d s1 in
      let (rest, all) =
        update_all-Gone ds (update_one tran_of d s) (subst Valid (sym e) v1)
          (ap (λ (x : Scheduler). x.curr) e ∙ m1) in
      let at : (k : ℕ)
          → s1.scheduler.coroutines k ≡ none
          → (update_one tran_of d s).scheduler.coroutines k ≡ none =
        λ k q. ap (λ (x : Scheduler). x.coroutines k) e ∙ q in
      (λ k q. rest k (at k (keeps k q)), (rest d.coroutine_id (at d.coroutine_id gone), all))

  -- In a reachable state Update destroys the coroutine of every instance that has ended, and forgets
  -- those instances.
  pub update-freed :
      (s : Server U)
      → Reachable tran_of s
      → All
          (λ (d : Instance). (update tran_of s).scheduler.coroutines d.coroutine_id ≡ none)
          s.destroy_list
        × ((update tran_of s).destroy_list ≡ [])
  unfolding update
  update-freed s r =
      let h = Reachable-Idle tran_of r in
      ((update_all-Gone s.destroy_list s h.valid h.main).1, refl)
