-- ===== src/Tests/Guid.antt =====
-- The ids at concrete inputs.
use coroutine_transaction.Base.{ℕ, List, ◌≤◌, ◌^◌, ◌≡◌, [], ◌∷◌, arith, ◌<◌}
use coroutine_transaction.Guid.{
  ObjType, calls_in, coroutine, timer, gen_init, gen_guid, gen_all, Ascending, gen_all-Ascending,
  gen_guid-fields, guid_type, guid_time, guid_seq,
}

gen_guid-fields_example :
    let r = gen_guid timer 1735689700 gen_init in
    (guid_type r.0 ≡ 3)
    × (guid_time r.0 ≡ 1735689700)
    × (guid_seq r.0 ≡ r.1.cur_seq)
    × (0 < 3 → 0 < r.0)
unfolding gen_guid
gen_guid-fields_example =
    gen_guid-fields timer 1735689700 gen_init (omega arith) (omega arith) (omega arith)

abbrev three_calls : List (ObjType × ℕ)
three_calls = (timer, 1735689600) ∷ (coroutine, 1735689600) ∷ (timer, 1735689605) ∷ []

three_calls-few : (s : ℕ) → calls_in s three_calls ≤ 2 ^ 24
three_calls-few s = ground arith

gen_all-Ascending_example : Ascending (gen_all three_calls gen_init)
gen_all-Ascending_example =
    gen_all-Ascending three_calls
      (
        omega arith,
        omega arith,
        omega arith,
        (omega arith, omega arith, omega arith, (omega arith, omega arith, omega arith, tt)),
      )
      three_calls-few
