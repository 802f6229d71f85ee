-- ===== src/Transaction/Run/Failed.antt =====
-- Where RunCommandOnInstance says that it failed.
use coroutine_transaction.Base.{
  ℕ, suc, ◌+◌, ◌≤◌, ◌<◌, ◌≡◌, inl, inr, refl, true, false, not, ◌||◌, Option, List, [], ◌∷◌, ℤ, pos,
  arith, is_zero, Bool-cases, length,
}
use mathlib.Core.Path.{subst}
use coroutine_transaction.Transaction.{World, Command, Transaction}
use coroutine_transaction.Transaction.Wait.{Answer, Progress, waiting, returned}
use coroutine_transaction.Transaction.Run.{
  Run, parked, ended, is_failed, do_and_wait, at_command, after_command, run_commands,
}

module _ {U : Type 0} (tran : Option (Transaction U)) where
  -- `FailsAt cmds i answers w j`: of the commands that begin with the index `i` those before `j` return,
  -- each from where the one before it stopped, with no failure and the instance not complete, and `j`
  -- returns a code that is not 0 or leaves the instance failed.
  pub data FailsAt : List (Command U) → ℕ → List Answer → World U → ℕ → Type 0 where
    here :
        (cmd : Command U) (cmds : List (Command U)) (i : ℕ) (answers : List Answer) (w : World U)
        (code : ℤ) (left : List Answer) (w' : World U)
        → do_and_wait tran cmd answers (at_command i w) ≡ returned w' code left
        → (not (is_zero code) || is_failed w'.inst) ≡ true
        → FailsAt (cmd ∷ cmds) i answers w i
    later :
        (cmd : Command U) (cmds : List (Command U)) (i : ℕ) (answers : List Answer) (w : World U)
        (code : ℤ) (left : List Answer) (w' : World U) (j : ℕ)
        → do_and_wait tran cmd answers (at_command i w) ≡ returned w' code left
        → (not (is_zero code) || is_failed w'.inst) ≡ false
        → w'.inst.is_complete ≡ false
        → FailsAt cmds (suc i) left w' j
        → FailsAt (cmd ∷ cmds) i answers w j

  -- A failed instance names the command that failed.
  abbrev Named : List (Command U) → ℕ → List Answer → World U → Run U → Type 0
  Named cmds i answers w (parked _ _ _) = Unit
  Named cmds i answers w (ended out _) =
      is_failed out.inst ≡ true
      → (j : ℕ) × (out.inst.fail_index ≡ pos j)
        × (i ≤ j)
        × (j < i + length cmds)
        × FailsAt cmds i answers w j

  Named-later :
      (cmd : Command U) (cmds : List (Command U)) (i : ℕ) (answers : List Answer) (w : World U)
      (code : ℤ) (left : List Answer) (w' : World U) (r : Run U)
      → do_and_wait tran cmd answers (at_command i w) ≡ returned w' code left
      → (not (is_zero code) || is_failed w'.inst) ≡ false
      → w'.inst.is_complete ≡ false
      → Named cmds (suc i) left w' r
      → Named (cmd ∷ cmds) i answers w r
  Named-later cmd cmds i answers w code left w' (parked _ _ _) q b c h = tt
  Named-later cmd cmds i answers w code left w' (ended out _) q b c h = λ f.
      (let (j, e, a, lt, at) = h f in
        (j, e, omega arith, omega arith, later cmd cmds i answers w code left w' j q b c at))

  after_command-Named :
      (cmd : Command U) (cmds : List (Command U)) (i : ℕ) (answers : List Answer) (w : World U)
      (code : ℤ) (left : List Answer) (w' : World U) (rest : Run U)
      → do_and_wait tran cmd answers (at_command i w) ≡ returned w' code left
      → (is_failed w'.inst ≡ false → Named cmds (suc i) left w' rest)
      → Named (cmd ∷ cmds) i answers w (after_command i code left w' rest)
  after_command-Named cmd cmds i answers w code left w' rest q go =
      elim (Bool-cases (not (is_zero code) || is_failed w'.inst)) [
        | inl b ↦
            rw b
              (λ _. (i, refl, omega arith, omega arith, here cmd cmds i answers w code left w' q b))
        | inr b ↦
            let calm : is_failed w'.inst ≡ false = ground arith in
            elim (Bool-cases w'.inst.is_complete) [
              | inl c ↦ rw (b, c) (λ f. cc (f, calm))
              | inr c ↦
                  simp (b, c) (Named-later cmd cmds i answers w code left w' rest q b c (go calm))
            ]
      ]

  run_commands-Named :
      (cmds : List (Command U)) (i : ℕ) (answers : List Answer) (w : World U)
      → is_failed w.inst ≡ false
      → Named cmds i answers w (run_commands tran cmds i answers w)
  unfolding run_commands
  run_commands-Named [] i answers w z = λ f. cc (f, z)
  run_commands-Named (cmd ∷ cmds) i answers w z =
      after (do_and_wait tran cmd answers (at_command i w)) refl
        (λ left w' calm. run_commands-Named cmds (suc i) left w' calm)
    where
      after :
          (p : Progress U)
          → do_and_wait tran cmd answers (at_command i w) ≡ p
          → ((left : List Answer) (w' : World U)
              → is_failed w'.inst ≡ false
              → Named cmds (suc i) left w' (run_commands tran cmds (suc i) left w'))
          → Named (cmd ∷ cmds) i answers w (run_commands tran (cmd ∷ cmds) i answers w)
      after (waiting w' events) q go = rw (q, run_commands) tt
      after (returned w' code left) q go =
          rw (q, run_commands)
            (after_command-Named cmd cmds i answers w code left w'
              (run_commands tran cmds (suc i) left w') q (go left w'))

  -- When the loop over the commands from the index `i` on ends with a failed instance, its fail index is
  -- the index of the command that failed: those before it ran and did not fail, and it returned a code
  -- that is not 0 or left the instance failed. The instance has not failed before.
  pub run_commands-FailsAt :
      (cmds : List (Command U)) (i : ℕ) (answers left : List Answer) (w out : World U)
      → is_failed w.inst ≡ false
      → run_commands tran cmds i answers w ≡ ended out left
      → is_failed out.inst ≡ true
      → (j : ℕ) × (out.inst.fail_index ≡ pos j)
        × (i ≤ j)
        × (j < i + length cmds)
        × FailsAt cmds i answers w j
  run_commands-FailsAt cmds i answers left w out z e f =
      subst (Named cmds i answers w) e (run_commands-Named cmds i answers w z) f
