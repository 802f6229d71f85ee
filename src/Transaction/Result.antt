-- ===== src/Transaction/Result.antt =====
-- Transaction::HandleResult: what the user is told, and what is undone.
use coroutine_transaction.Base.{
  ℕ, suc, ◌<◌, ◌≡◌, ap, ◌∙◌, true, false, ℤ, pos, length, take, arith, if◌then◌else◌, eq_ℤ,
}
use coroutine_transaction.Transaction.{
  World, Transaction, call, undo_begin, undo_end, undo, handle_result, error_abort_tran,
}
use coroutine_transaction.Transaction.Undo.{revert, undo-revert}

module _ {U : Type 0} (tr : Transaction U) where
  -- The user is told of the abort or of the failure.
  abbrev pub told : World U → World U
  told w =
      if eq_ℤ w.inst.fail_reason error_abort_tran then call tr.on_abort w else call tr.on_fail w

  told-private :
      (w : World U)
      → ((told w).inst.fail_index ≡ w.inst.fail_index)
        × ((told w).inst.is_in_undo ≡ w.inst.is_in_undo)
  told-private w = ground arith

  -- A transaction that needs undo and failed at its command `n`: in the main routine, HandleResult
  -- first calls OnAbort if it was aborted and OnFail if not, then takes back the commands before
  -- `n`, each once and the last one first, and ends with Finally; it does not call OnSuccess.
  pub handle_result-failed :
      (n : ℕ) (w : World U)
      → tr.is_need_undo ≡ true
      → w.inst.is_complete ≡ false
      → w.inst.is_in_undo ≡ false
      → w.inst.fail_index ≡ pos (suc n)
      → suc n < length tr.cmds
      → handle_result tr false w
        ≡ call tr.finally (undo_end (revert (take (suc n) tr.cmds) (undo_begin (told w))))
  unfolding handle_result
  handle_result-failed n w need pending idle at lt =
      let p = told-private w in
      let ended : handle_result tr false w ≡ call tr.finally (undo tr (told w)).0 =
        simp (need, pending) in
      ended
      ∙ ap (λ (r : World U × ℤ). call tr.finally r.0)
          (undo-revert tr n (told w) need (p.1 ∙ idle) (p.0 ∙ at) lt)
