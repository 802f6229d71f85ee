-- ===== src/Transaction/Undo.antt =====
-- Transaction::Undo takes back the commands before the failed one, the last one first.
use coroutine_transaction.Base.{
  ℕ, zero, suc, ◌<◌, ◌≡◌, refl, sym, ap, ◌∙◌, true, false, none, some, List, [], ◌∷◌, pos, arith,
  length, take, get_elem?, leb, ==-ne,
}
use coroutine_transaction.Transaction.{
  World, Command, Transaction, call, undo_one, undo_loop, undo_begin, undo_end, undo_at, undo,
}

-- The commands of a list taken back, the last one first.
abbrev pub revert : {U : Type 0} → List (Command U) → World U → World U
revert [] w = w
revert (c ∷ cs) w = call c.undo (revert cs w)

one : {U : Type 0} → List (Command U) → ℕ → World U → World U
one cmds i w = elim (get_elem? cmds i) [ none ↦ w | some c ↦ call c.undo w ]

revert-take :
    {U : Type 0} (cmds : List (Command U)) (i : ℕ) (w : World U)
    → revert (take (suc i) cmds) w ≡ revert (take i cmds) (one cmds i w)
unfolding one
revert-take [] zero w = refl
revert-take [] (suc i) w = refl
revert-take (c ∷ cmds) zero w = refl
revert-take (c ∷ cmds) (suc i) w = ap (call c.undo) (revert-take cmds i w)

module _ {U : Type 0} (tr : Transaction U) where
  undo_loop_lem : (n : ℕ) (w : World U) → undo_loop tr n w ≡ revert (take n tr.cmds) w
  unfolding undo_loop one
  undo_loop_lem zero w = refl
  undo_loop_lem (suc i) w = undo_loop_lem i (undo_one tr i w) ∙ sym (revert-take tr.cmds i w)

  -- A transaction that needs undo, failed at its command `n`, and is not being undone: Undo returns 0,
  -- has taken back the commands before `n`, each once and the last one first, and has cleared the
  -- index.
  pub undo-revert :
      (n : ℕ) (w : World U)
      → tr.is_need_undo ≡ true
      → w.inst.is_in_undo ≡ false
      → w.inst.fail_index ≡ pos (suc n)
      → suc n < length tr.cmds
      → undo tr w ≡ (undo_end (revert (take (suc n) tr.cmds) (undo_begin w)), pos 0)
  unfolding undo undo_at
  undo-revert n w need idle at lt =
      let there : leb (length tr.cmds) (suc n) ≡ false = ground arith in
      let started : undo tr w ≡ undo_at tr w.inst.fail_index w = simp (need, idle) in
      let run : undo_at tr (pos (suc n)) w
          ≡ (undo_end (undo_loop tr (suc n) (undo_begin w)), pos 0) =
        simp (there, ==-ne (suc n) 0 (λ q. cc q)) in
      started
      ∙ ap (λ k. undo_at tr k w) at
      ∙ run
      ∙ ap (λ v. (undo_end v, pos 0)) (undo_loop_lem (suc n) (undo_begin w))
