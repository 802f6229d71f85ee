-- ===== src/Server/Entered.antt =====
-- What a coroutine that is entered leaves of its instance: at its start, behind a wait, and when it
-- is resumed.
use coroutine_transaction.Base.{
  negsuc, pos, eq_ℤ, Bool, true, false, ℕ, suc, ◌≡◌, refl, inl, inr, Bool, true, false, some, List,
  [], ◌∷◌, ℤ, is_zero, get_elem?, drop, Bool-cases, Option-cases,
}
use coroutine_transaction.Transaction.{Instance, World, Command, Transaction, call_code}
use coroutine_transaction.Transaction.Wait.{Answer, Progress, waiting, returned, wait_for_event}
use coroutine_transaction.Transaction.Run.{Run, parked, is_empty, command_wait, run_commands}
use coroutine_transaction.Server.{real_start, resume_at, after_wait, resume_index, real_resume}
use coroutine_transaction.Server.Kept.{
  Same, KeepsRun, KeepsProgress, KeepsRun-from, wait_for_event-Same, KeepsProgress-if,
  after_command-Keeps, run_commands-Keeps,
}

module _ {U : Type 0} where
  pub real_start-Keeps :
      (tr : Transaction U) (w : World U) → KeepsRun tr.cmds w.inst (real_start tr w)
  unfolding real_start
  real_start-Keeps tr w =
      let ret = call_code tr.on_start w in
      elim (Bool-cases (is_zero ret.1)) [
        | inr a ↦ rw a (refl, refl, refl, refl)
        | inl a ↦ rw a (
            KeepsRun-from tr.cmds w.inst ret.0.inst _ (refl, refl, refl, refl)
              (run_commands-Keeps (some tr) tr.cmds tr.cmds 0 [] ret.0 refl))
      ]

  after_wait-Keeps :
      (is_resume : Bool) (cmds : List (Command U)) (a : Instance) (i : ℕ) (code : ℤ)
      (answers : List Answer) (w : World U) (rest : Run U)
      → Same a w.inst
      → KeepsRun cmds a rest
      → KeepsRun cmds a (after_wait is_resume i code answers w rest)
  after_wait-Keeps false cmds a i code answers w rest s k =
      after_command-Keeps cmds a i code answers w rest s k
  after_wait-Keeps true cmds a i code answers w rest s k = elim (Bool-cases (is_zero code)) [
    | inl b ↦ rw b k
    | inr b ↦ rw b s
  ]

  -- What follows a wait at the command `i`.
  abbrev pub waited : Transaction U → Bool → ℕ → Progress U → Run U
  waited tr is_resume i (waiting w left) = parked i left w
  waited tr is_resume i (returned w code rest) =
      after_wait is_resume i code rest w
        (run_commands (some tr) (drop (suc i) tr.cmds) (suc i) rest w)

  waited-Keeps :
      (tr : Transaction U) (is_resume : Bool) (i : ℕ) (cmd : Command U) (a : Instance)
      (p : Progress U)
      → get_elem? tr.cmds i ≡ some cmd
      → KeepsProgress a p
      → KeepsRun tr.cmds a (waited tr is_resume i p)
  waited-Keeps tr is_resume i cmd a (waiting w left) e (s, f) = (s, f, (cmd, e))
  waited-Keeps tr is_resume i cmd a (returned w code rest) e s =
      after_wait-Keeps is_resume tr.cmds a i code rest w _ s (
        KeepsRun-from tr.cmds a w.inst _ s
          (run_commands-Keeps (some tr) tr.cmds (drop (suc i) tr.cmds) (suc i) rest w refl))

  pub resume_at-Keeps :
      (tr : Transaction U) (is_resume : Bool) (i : ℕ) (events : List ℕ) (answer : Answer)
      (w : World U)
      → KeepsRun tr.cmds w.inst (resume_at tr is_resume i events answer w).1
  unfolding resume_at
  resume_at-Keeps tr is_resume i events answer w = elim (Option-cases (get_elem? tr.cmds i)) [
    | inl e ↦ rw (e, resume_at) (refl, refl, refl, refl)
    | inr (cmd, e) ↦
        let p = wait_for_event (some tr) cmd events (answer ∷ []) w in
        rw (e, resume_at)
          (same p (
            waited-Keeps tr is_resume i cmd w.inst p e
              (wait_for_event-Same (some tr) cmd events (answer ∷ []) w)))
  ]
    where
      same :
          (p : Progress U)
          → KeepsRun tr.cmds w.inst (waited tr is_resume i p)
          → KeepsRun tr.cmds w.inst
              (elim p as (λ _. Bool × Run U) [
                | waiting w' left ↦ (is_resume, parked i left w')
                | returned w' code rest ↦ (
                  false,
                  after_wait is_resume i code rest w'
                      (run_commands (some tr) (drop (suc i) tr.cmds) (suc i) rest w'),
                )
              ]).1
      same (waiting w' left) k = k
      same (returned w' code rest) k = k

  resume_index-Keeps :
      (tr : Transaction U) (i : ℤ) (w : World U) → KeepsRun tr.cmds w.inst (resume_index tr i w)
  unfolding resume_index command_wait
  resume_index-Keeps tr (negsuc _) w = (refl, refl, refl, refl)
  resume_index-Keeps tr (pos i) w = elim (Option-cases (get_elem? tr.cmds i)) [
    | inl e ↦ rw (e, resume_index) (refl, refl, refl, refl)
    | inr (cmd, e) ↦
        let p = command_wait (some tr) cmd [] w in
        rw (e, resume_index)
          (same p (
            waited-Keeps tr true i cmd w.inst p e (
              KeepsProgress-if w.inst (is_empty cmd.do_event_ids) _ _ (refl, refl, refl, refl)
                (wait_for_event-Same (some tr) cmd cmd.do_event_ids [] w))))
  ]
    where
      same :
          (p : Progress U)
          → KeepsRun tr.cmds w.inst (waited tr true i p)
          → KeepsRun tr.cmds w.inst (elim p as (λ _. Run U) [
            | waiting w' left ↦ parked i left w'
            | returned w' code rest ↦
                after_wait true i code rest w'
                  (run_commands (some tr) (drop (suc i) tr.cmds) (suc i) rest w')
          ])
      same (waiting w' left) k = k
      same (returned w' code rest) k = k

  pub real_resume-Keeps :
      (tr : Transaction U) (w : World U) → KeepsRun tr.cmds w.inst (real_resume tr w)
  unfolding real_resume
  real_resume-Keeps tr w = elim (Bool-cases (eq_ℤ w.inst.waiting_index w.inst.curr_index)) [
    | inl b ↦ rw (b, real_resume) (resume_index-Keeps tr w.inst.waiting_index w)
    | inr b ↦ rw (b, real_resume) (refl, refl, refl, refl)
  ]
