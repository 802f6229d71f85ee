-- ===== src/Tests/DoubLink.antt =====
-- Lists of nodes at concrete calls.
use coroutine_transaction.Base.{◌≡◌, refl, some, List, [], ◌∷◌, arith}
use coroutine_transaction.DoubLink.{
  Memory, null, node, new_memory, push, push_front, remove, destroy, pop, clear,
}
use coroutine_transaction.DoubLink.Represents.{Links, no_links, Represents}
use coroutine_transaction.DoubLink.Runs.{
  LinkOp, pushes, pushes_front, removes, destroys, pops, link_op, list_op, run_calls,
  run_calls-refines,
}
use coroutine_transaction.DoubLink.Cleared.{Cleared, clear-ends}

-- Node 5 is pushed twice, on two lists; node 7 is taken out of the middle.
abbrev calls_made : List LinkOp
calls_made =
    pushes 1 5
    ∷ pushes 2 5
    ∷ pushes 1 7
    ∷ pushes_front 1 8
    ∷ pushes 2 9
    ∷ removes 7
    ∷ pops 1
    ∷ pops 3
    ∷ destroys 9
    ∷ []

calls_made_lem :
    ((run_calls link_op calls_made new_memory).0 ≡ node 8 ∷ null ∷ [])
    × ((run_calls list_op calls_made no_links).1.lists 1 ≡ 5 ∷ [])
    × ((run_calls list_op calls_made no_links).1.lists 2 ≡ [])
unfolding new_memory push push_front remove destroy pop
calls_made_lem = (refl, refl, refl)

run_calls-refines_example :
    ((run_calls link_op calls_made new_memory).0 ≡ (run_calls list_op calls_made no_links).0)
    × Represents
        (run_calls list_op calls_made no_links).1
        (run_calls link_op calls_made new_memory).1
run_calls-refines_example = run_calls-refines calls_made

clear-ends_example :
    (s' : Links) × (m' : Memory) × (clear 2 1 (run_calls link_op calls_made new_memory).1 ≡ some m')
    × Represents s' m'
    × Cleared 1 (run_calls list_op calls_made no_links).1 s'
clear-ends_example = clear-ends calls_made 1 2 (omega arith)
