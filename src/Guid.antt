-- ===== src/Guid.antt =====
-- The ids of src/common/gen_guid.h and src/common/gen_guid.cpp. The clock is an argument, and the
-- two static counters of GenGUID are the state.
use mathlib.Core.Path.{subst}
use coroutine_transaction.Base.{
  refl, sym, inl, inr, ℕ, suc, ◌+◌, ◌-◌, ◌*◌, ◌/◌, ◌%◌, ◌^◌, ◌≤◌, ◌<◌, ◌≡◌, List, [], ◌∷◌, arith,
  ◌==◌, if◌then◌else◌, ==-ne, ℕ-cases,
}

pub data ObjType : Type 0 where
  invalid transaction_instance coroutine timer : ObjType

abbrev pub obj_type : ObjType → ℕ
obj_type invalid = 0
obj_type transaction_instance = 1
obj_type coroutine = 2
obj_type timer = 3

-- kSecFrom19700101To20250101.
abbrev pub epoch : ℕ
epoch = 1735689600

-- `last_s` and `cur_seq`, both u32.
pub record GenState : Type 0 where
  pub last_s : ℕ
  pub cur_seq : ℕ

abbrev pub gen_init : GenState
gen_init = record { last_s = 0; cur_seq = 0 }

pub next_state : ℕ → GenState → GenState
next_state cur_s g =
    if g.last_s == cur_s
    then record g { cur_seq = (g.cur_seq + 1) % 2 ^ 32 }
    else record { last_s = cur_s; cur_seq = 0 }

-- The three fields do not overlap, so that `|` is a sum.
abbrev pub pack : ℕ → ℕ → ℕ → ℕ
pack ty time seq = (ty % 2 ^ 8) * 2 ^ 56 + (time % 2 ^ 32) * 2 ^ 24 + seq % 2 ^ 24

-- GenGUID, at a clock reading in seconds.
unfoldable pub gen_guid : ObjType → ℕ → GenState → ℕ × GenState
unfolding next_state
gen_guid ty now g =
    let s = now % 2 ^ 32 in
    let g' = next_state s g in (pack (obj_type ty) ((s + 2 ^ 32 - epoch) % 2 ^ 32) g'.cur_seq, g')

-- The fields that GUIDStr prints.
pub guid_type : ℕ → ℕ
guid_type id = (id / 2 ^ 56) % 2 ^ 8

pub guid_time : ℕ → ℕ
guid_time id = epoch + (id / 2 ^ 24) % 2 ^ 32

pub guid_seq : ℕ → ℕ
guid_seq id = id % 2 ^ 24

pack_fields :
    (ty time seq : ℕ)
    → ty < 2 ^ 8
    → time < 2 ^ 32
    → seq < 2 ^ 24
    → (guid_type (pack ty time seq) ≡ ty)
      × (guid_time (pack ty time seq) ≡ epoch + time)
      × (guid_seq (pack ty time seq) ≡ seq)
unfolding guid_type guid_time guid_seq
pack_fields ty time seq a b c = omega arith

obj_type-lt : (ty : ObjType) → obj_type ty < 2 ^ 8
obj_type-lt invalid = omega arith
obj_type-lt _ = omega arith

-- What GUIDStr reads back from an id is what GenGUID put in: the type, the second and the number of
-- the id in that second, for a clock in the 2 ^ 32 seconds that u32 holds, not before 2025, and
-- fewer than 2 ^ 24 ids in that second. The id of a valid type is not 0.
pub gen_guid-fields :
    (ty : ObjType) (now : ℕ) (g : GenState)
    → epoch ≤ now
    → now < 2 ^ 32
    → (gen_guid ty now g).1.cur_seq < 2 ^ 24
    → (guid_type (gen_guid ty now g).0 ≡ obj_type ty)
      × (guid_time (gen_guid ty now g).0 ≡ now)
      × (guid_seq (gen_guid ty now g).0 ≡ (gen_guid ty now g).1.cur_seq)
      × (0 < obj_type ty → 0 < (gen_guid ty now g).0)
unfolding gen_guid
gen_guid-fields ty now g a b c =
    let f =
      pack_fields (obj_type ty) ((now % 2 ^ 32 + 2 ^ 32 - epoch) % 2 ^ 32)
        (next_state (now % 2 ^ 32) g).cur_seq (obj_type-lt ty) (omega arith) c in
    (f.0, omega (arith, f.1), f.2, λ h. omega (arith, obj_type-lt ty))

-- A run of calls, each with its type and clock reading.
pub gen_all : List (ObjType × ℕ) → GenState → List ℕ
gen_all [] g = []
gen_all ((ty, now) ∷ cs) g = let (id, g') = gen_guid ty now g in id ∷ gen_all cs g'

-- The clock does not run back from `s`, and stays in range.
abbrev pub ClocksOk : ℕ → List (ObjType × ℕ) → Type 0
ClocksOk s [] = Unit
ClocksOk s ((ty, now) ∷ cs) = (s ≤ now) × (epoch ≤ now) × (now < 2 ^ 32) × ClocksOk now cs

-- The low 56 bits, second and sequence number, of every id lie above `low` and go up.
abbrev pub Above : ℕ → List ℕ → Type 0
Above low [] = Unit
Above low (id ∷ ids) = (low < id % 2 ^ 56) × Above (id % 2 ^ 56) ids

abbrev pub Ascending : List ℕ → Type 0
Ascending [] = Unit
Ascending (id ∷ ids) = Above (id % 2 ^ 56) ids

-- How many of the calls are made in the second `s`.
abbrev pub calls_in : ℕ → List (ObjType × ℕ) → ℕ
calls_in s [] = 0
calls_in s ((ty, now) ∷ cs) = if now == s then suc (calls_in s cs) else calls_in s cs

abbrev stamp : ℕ → ℕ → ℕ
stamp s seq = (s - epoch) * 2 ^ 24 + seq

gen_guid-low :
    (ty : ObjType) (now : ℕ) (g : GenState)
    → epoch ≤ now
    → now < 2 ^ 32
    → (next_state now g).cur_seq < 2 ^ 24
    → (gen_guid ty now g).0 % 2 ^ 56 ≡ stamp now (next_state now g).cur_seq
unfolding gen_guid
gen_guid-low ty now g a b c =
    let e : now % 2 ^ 32 ≡ now = omega arith in rw e (omega (arith, obj_type-lt ty))

gen_guid-state :
    (ty : ObjType) (now : ℕ) (g : GenState)
    → now < 2 ^ 32
    → (gen_guid ty now g).1 ≡ next_state now g
unfolding gen_guid
gen_guid-state ty now g b = let e : now % 2 ^ 32 ≡ now = omega arith in rw e

next_state-last_s : (now : ℕ) (g : GenState) → (next_state now g).last_s ≡ now
unfolding next_state
next_state-last_s now g = ground arith

-- How many sequence numbers of the second `s` are used up.
abbrev used : ℕ → GenState → ℕ
used s g = if g.last_s == s then suc g.cur_seq else 0

-- The next id uses up one sequence number of its second.
next_state-used :
    (now s c : ℕ) (g : GenState)
    → used now g < 2 ^ 24
    → (if now == s then suc c else c) + used s g ≤ 2 ^ 24
    → c + used s (next_state now g) ≤ 2 ^ 24
unfolding next_state
next_state-used now s c g h k = ground arith

next_state-fits :
    (now : ℕ) (g : GenState) → used now g < 2 ^ 24 → (next_state now g).cur_seq < 2 ^ 24
unfolding next_state
next_state-fits now g h = ground arith

-- The next id comes after those before it.
next_state-stamp :
    (now : ℕ) (g : GenState)
    → epoch ≤ g.last_s
    → g.last_s ≤ now
    → g.cur_seq < 2 ^ 24
    → used now g < 2 ^ 24
    → stamp g.last_s g.cur_seq < stamp now (next_state now g).cur_seq
unfolding next_state
next_state-stamp now g a b c d = ground arith

-- The calls leave room for a sequence number in the second of the first one, and so do those after it.
first-used :
    (ty : ObjType) (now : ℕ) (cs : List (ObjType × ℕ)) (g : GenState)
    → ((s : ℕ) → calls_in s ((ty, now) ∷ cs) + used s g ≤ 2 ^ 24)
    → used now g < 2 ^ 24
first-used ty now cs g few = let h = few now in ground arith

rest-used :
    (ty : ObjType) (now : ℕ) (cs : List (ObjType × ℕ)) (g : GenState)
    → ((s : ℕ) → calls_in s ((ty, now) ∷ cs) + used s g ≤ 2 ^ 24)
    → (s : ℕ) → calls_in s cs + used s (next_state now g) ≤ 2 ^ 24
rest-used ty now cs g few s =
    next_state-used now s (calls_in s cs) g (first-used ty now cs g few) (few s)

gen_all-Above :
    (cs : List (ObjType × ℕ)) (g : GenState)
    → epoch ≤ g.last_s
    → g.cur_seq < 2 ^ 24
    → ClocksOk g.last_s cs
    → ((s : ℕ) → calls_in s cs + used s g ≤ 2 ^ 24)
    → Above (stamp g.last_s g.cur_seq) (gen_all cs g)
unfolding gen_all
gen_all-Above [] g a b ok few = tt
gen_all-Above ((ty, now) ∷ cs) g a b ok few =
    let room = first-used ty now cs g few in
    let g' = next_state now g in
    let fits = next_state-fits now g room in
    let last = next_state-last_s now g in
    rw (gen_guid-low ty now g ok.1 ok.2 fits, gen_guid-state ty now g ok.2)
      (
        next_state-stamp now g a ok.0 b room,
        subst (λ (s : ℕ). Above (stamp s g'.cur_seq) (gen_all cs g')) last
            (gen_all-Above cs (next_state now g) (rw last ok.1) fits (rw last ok.3)
              (rest-used ty now cs g few)),
      )

-- No call is made in the second 0, with which the program starts.
calls_in-zero : (t : ℕ) (cs : List (ObjType × ℕ)) → ClocksOk t cs → calls_in 0 cs ≡ 0
calls_in-zero t [] ok = refl
calls_in-zero t ((ty, now) ∷ cs) ok =
    rw (==-ne now 0 (λ q. (let h = ok.1 in omega arith))) (calls_in-zero now cs ok.3)

started-used :
    (cs : List (ObjType × ℕ))
    → ClocksOk 0 cs
    → ((s : ℕ) → calls_in s cs ≤ 2 ^ 24)
    → (s : ℕ) → calls_in s cs + used s gen_init ≤ 2 ^ 24
started-used cs ok few s = elim (ℕ-cases 0 s) [
  | inl e ↦
      let z = calls_in-zero 0 cs ok in
      let u : used s gen_init ≡ 1 = rw (sym e) refl in
      let c : calls_in s cs ≡ 0 = rw (sym e) z in omega arith
  | inr n ↦ let h = few s in let u : used s gen_init ≡ 0 = rw (==-ne 0 s n) refl in omega arith
]

-- No two ids of a process are the same, whatever their types: the low 56 bits of the ids go up
-- strictly from the start of the program, when the clock reads no second before 2025 nor from 2 ^ 32
-- on and does not run back, and no more than 2 ^ 24 ids are made in one second.
pub gen_all-Ascending :
    (cs : List (ObjType × ℕ))
    → ClocksOk 0 cs
    → ((s : ℕ) → calls_in s cs ≤ 2 ^ 24)
    → Ascending (gen_all cs gen_init)
unfolding gen_all
gen_all-Ascending [] ok few = tt
gen_all-Ascending ((ty, now) ∷ cs) ok few =
    let g = next_state now gen_init in
    let few' = rest-used ty now cs gen_init (started-used ((ty, now) ∷ cs) ok few) in
    let fits = next_state-fits now gen_init (unused now ok.1) in
    let last = next_state-last_s now gen_init in
    rw (gen_guid-low ty now gen_init ok.1 ok.2 fits, gen_guid-state ty now gen_init ok.2)
      (subst (λ (s : ℕ). Above (stamp s g.cur_seq) (gen_all cs g)) last
        (gen_all-Above cs (next_state now gen_init) (rw last ok.1) fits (rw last ok.3) few'))
  where
    unused : (s : ℕ) → epoch ≤ s → used s gen_init < 2 ^ 24
    unused s h = ground arith
