-- ===== src/Server/Segment.antt =====
-- One run of a work coroutine, from where it is entered to where the main coroutine runs on.
use mathlib.Core.Path.{subst}
use coroutine_transaction.Base.{
  ℕ, ◌≡◌, ◌∙◌, refl, sym, ap, inl, inr, true, false, Option, none, some, List, [], ◌∷◌, ℤ, pos,
  get_elem?, ℕ-cases, ==-self, ==-ne, Bool,
}
use coroutine_transaction.Coroutine.{Coroutine, Scheduler, suspend, dead}
use coroutine_transaction.Coroutine.Swap.{set_same, set_other, left, left-Valid}
use coroutine_transaction.Coroutine.Life.{on_work_routine_exit-left}
use coroutine_transaction.Timer.{TimerMgr}
use coroutine_transaction.Transaction.{Instance, World, Command, Transaction, error_svr_internal}
use coroutine_transaction.Transaction.Wait.{fails, wait_for_event}
use coroutine_transaction.Transaction.Run.{Run, parked, ended, is_empty, fail_at}
use coroutine_transaction.Server.{
  Server, Env, set_inst, set_park, completed, leave, finish, resume_at, run_on,
}
use coroutine_transaction.Server.Kept.{Same, Same-trans, KeepsRun}
use coroutine_transaction.Server.Idle.{Rest, Idle, Busy, Rest-moved, Rest-put, Rest-close}
use coroutine_transaction.Server.Outcomes.{
  completed-Same, ended_at, leave-ended, instance_wait-outcome,
}

module _ {U : Type 0} (tran_of : ℕ → Option (Transaction U)) where
  Busy-Same :
      (s : Server U) (id : ℕ) (a b : Instance)
      → Same a b
      → Busy tran_of s id a
      → Busy tran_of s id b
  Busy-Same s id a b (p, q, _, r) h = record {
    valid = h.valid;
    work = h.work;
    inside = h.inside ∙ sym q;
    same_id = p ∙ h.same_id;
    staying = r ∙ h.staying;
    present = h.present;
    rest = subst (λ k. Rest tran_of k (set_inst id none s)) (sym q) h.rest;
  }

  ended_at-Idle :
      (s : Server U) (id : ℕ) (inst : Instance) (user : U) (co : Coroutine)
      → s.scheduler.coroutines s.scheduler.curr ≡ some co
      → Busy tran_of s id inst
      → Idle tran_of (ended_at inst user (left dead co s.scheduler) s)
  ended_at-Idle s id inst user co e h =
      let t : Server U = record (set_inst inst.id none s) {
        user = user;
        scheduler = left dead co s.scheduler;
      } in
      let v = left-Valid dead s.scheduler co (λ u. cc u) (λ u. cc u) h.valid h.work e in
      let there : t.scheduler.coroutines inst.coroutine_id ≡ some (record co { state = dead }) =
        ap t.scheduler.coroutines (sym h.inside) ∙ set_same s.scheduler.curr _ s.scheduler in
      record {
        valid = v;
        main = refl;
        rest =
            Rest-close tran_of t (record inst { is_delay_destroying = true }) _ v.no_zero there
              (Rest-moved tran_of inst.coroutine_id (set_inst id none s) t
                (record {
                  same_map = λ j. ap (λ k. (set_inst k none s).trans_map j) h.same_id;
                  same_coroutines =
                      λ k n. set_other s.scheduler.curr _ s.scheduler k (λ q. n (q ∙ h.inside));
                  same_parks = λ k n. refl;
                  same_list = refl;
                })
                h.rest);
      }

  finish-Idle :
      (s : Server U) (id : ℕ) (w : World U) → Busy tran_of s id w.inst → Idle tran_of (finish w s)
  unfolding finish
  finish-Idle s id w h0 =
      let inst = completed w.inst in
      let h = Busy-Same s id w.inst inst (completed-Same w.inst) h0 in
      let (old, e) = h.present in
      let (co, g, x) = on_work_routine_exit-left s.scheduler h.valid h.work in
      let y : leave inst w.user s ≡ ended_at inst w.user (left dead co s.scheduler) s =
        leave-ended inst old w.user s h.staying (ap s.trans_map h.same_id ∙ e)
        ∙ ap (λ (r : Scheduler × ℤ). ended_at inst w.user r.0 s) x in
      subst (Idle tran_of) (sym y) (ended_at-Idle s id inst w.user co g h)

  -- A coroutine that waits is parked where it stands.
  abbrev parked_at : Bool → Instance → ℕ → List ℕ → U → Server U → Server U
  parked_at is_resume inst i events user s =
      set_park inst.coroutine_id
        (some (record { is_resume = is_resume; index = i; events = events }))
        (set_inst inst.id (some inst) (record s { user = user }))

  parked_at-Idle :
      (is_resume : Bool) (tr : Transaction U) (cmd : Command U) (s : Server U) (id : ℕ)
      (inst : Instance) (timers : TimerMgr) (i : ℕ) (events : List ℕ) (user : U) (co : Coroutine)
      → tran_of inst.type ≡ some tr
      → get_elem? tr.cmds i ≡ some cmd
      → s.scheduler.coroutines s.scheduler.curr ≡ some co
      → Busy tran_of s id inst
      → Idle tran_of (
          parked_at is_resume inst i events user
            (record s { timers = timers; scheduler = left suspend co s.scheduler }))
  parked_at-Idle is_resume tr cmd s id inst timers i events user co p q e h =
      let t =
        parked_at is_resume inst i events user
          (record s { timers = timers; scheduler = left suspend co s.scheduler }) in
      let v = left-Valid suspend s.scheduler co (λ u. cc u) (λ u. cc u) h.valid h.work e in
      let there : t.scheduler.coroutines inst.coroutine_id ≡ some (record co { state = suspend }) =
        ap t.scheduler.coroutines (sym h.inside) ∙ set_same s.scheduler.curr _ s.scheduler in
      record {
        valid = v;
        main = refl;
        rest =
            Rest-put tran_of t id inst v.no_zero (rw (h.same_id, ==-self id) refl)
              (record {
                same_id = h.same_id;
                staying = h.staying;
                stack = (record co { state = suspend }, there, refl);
                park = (
                  record { is_resume = is_resume; index = i; events = events },
                  tr,
                  cmd,
                  rw (==-self inst.coroutine_id) refl,
                  p,
                  q,
                );
              })
              (Rest-moved tran_of inst.coroutine_id (set_inst id none s) (set_inst id none t)
                (record {
                  same_map = λ j. elim (ℕ-cases j id) [
                    | inl n ↦ rw (n, ==-self id) refl
                    | inr n ↦ rw (h.same_id, ==-ne j id n) refl
                  ];
                  same_coroutines =
                      λ k n. set_other s.scheduler.curr _ s.scheduler k (λ u. n (u ∙ h.inside));
                  same_parks = λ k n. rw (==-ne k inst.coroutine_id n) refl;
                  same_list = refl;
                })
                h.rest);
      }

  -- Where the wait fails, the run ends.
  resume_fails :
      (tr : Transaction U) (is_resume : Bool) (cmd : Command U) (i : ℕ) (events : List ℕ)
      (w : World U)
      → get_elem? tr.cmds i ≡ some cmd
      → is_empty events ≡ false
      → (w' : World U) × Same w.inst w'.inst
        × ((resume_at tr is_resume i events fails w).1 ≡ ended w' [])
  unfolding resume_at wait_for_event
  resume_fails tr is_resume cmd i [] w e f = cc f
  resume_fails tr false cmd i (x ∷ xs) w e f =
      (fail_at i error_svr_internal w, (refl, refl, refl, refl), rw (e, resume_at) refl)
  resume_fails tr true cmd i (x ∷ xs) w e f = (
    record w { inst = record (w.inst) { fail_index = pos i; fail_reason = error_svr_internal } },
    (refl, refl, refl, refl),
    rw (e, resume_at) refl,
  )

  pub run_on-Idle :
      (tr : Transaction U) (env : Env) (is_resume : Bool) (r : Run U) (s : Server U) (id : ℕ)
      (inst : Instance)
      → tran_of inst.type ≡ some tr
      → Busy tran_of s id inst
      → KeepsRun tr.cmds inst r
      → Idle tran_of (run_on tr env (is_resume, r) s)
  unfolding run_on
  run_on-Idle tr env is_resume (ended w _) s id inst e h k =
      finish-Idle s id w (Busy-Same s id inst w.inst k h)
  run_on-Idle tr env is_resume (parked i events w) s id inst e h0 (same, f, (cmd, g)) =
      let h = Busy-Same s id inst w.inst same h0 in
      elim (instance_wait-outcome env events cmd.timeout_ms w.inst s h.valid h.work) [
        | inl (new, timers, co, same', x, y) ↦
            rw (g, run_on, y)
              (parked_at-Idle is_resume tr cmd s id new timers i events w.user co
                (ap tran_of ((Same-trans inst w.inst new same same').2) ∙ e) g x
                (Busy-Same s id w.inst new same' h))
        | inr (timers, code, z, y) ↦
            let (w', same', x) = resume_fails tr is_resume cmd i events w g f in
            rw (g, run_on, y, z, x)
              (finish-Idle (record s { timers = timers }) id w'
                (Busy-Same (record s { timers = timers }) id w.inst w'.inst same'
                  (record {
                    valid = h.valid;
                    work = h.work;
                    inside = h.inside;
                    same_id = h.same_id;
                    staying = h.staying;
                    present = h.present;
                    rest =
                        Rest-moved tran_of w.inst.coroutine_id (set_inst id none s)
                          (set_inst id none (record s { timers = timers }))
                          (record {
                            same_map = λ j. refl;
                            same_coroutines = λ k n. refl;
                            same_parks = λ k n. refl;
                            same_list = refl;
                          })
                          h.rest;
                  })))
      ]
