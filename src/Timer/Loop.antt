-- ===== src/Timer/Loop.antt =====
-- The state in the middle of the loop of TimerMgr::Fire over the current slot of a wheel.
use coroutine_transaction.Base.{
  ℕ, ◌+◌, ◌-◌, ◌*◌, ◌%◌, ◌≤◌, ◌<◌, ◌≡◌, refl, sym, ap, ◌∙◌, ◌≢◌, ◌⊎◌, inl, inr, true, false, arith,
  if◌then◌else◌, Bool-cases, Elem, drop, ℕ-cases,
}
use coroutine_transaction.Timer.{
  TimerMgr, WheelType, sec, hour, day, same_wheel, u32_mod, max_timeout,
}
use coroutine_transaction.Timer.Placed.{Phase, Placed, Synced}
use coroutine_transaction.Timer.Linked.{Place, Listed, Linked}

-- As `Placed`, but the slot where the wheel stands may hold what it has just reached.
abbrev pub Loose : Phase → WheelType → ℕ → ℕ → Type 0
Loose p sec x e = (p.tick ≤ e) × (e ≤ p.tick + 1000) × ((p.s + (e - p.tick) + 999) % 1000 ≡ x)
Loose p hour x e =
    (j : ℕ) × (j ≤ 3600) × (x ≡ (p.h + j) % 3600) × (p.tick + p.to_hour + 1000 * j < e + 1000)
Loose p day x e =
    (j : ℕ) × (j ≤ 24) × (x ≡ (p.d + j) % 24) × (p.tick + p.to_day + 3600000 * j < e + 3600000)

abbrev pub position : Phase → WheelType → ℕ
position p sec = (p.s + 999) % 1000
position p hour = p.h % 3600
position p day = p.d % 24

pub Placed-Loose : (p : Phase) (u : WheelType) (x e : ℕ) → Placed p u x e → Loose p u x e
Placed-Loose p sec x e h = omega arith
Placed-Loose p hour x e (j, _, a, b, g) = (j, a, b, g)
Placed-Loose p day x e (j, _, a, b, g) = (j, a, b, g)

pub Loose-Placed :
    (p : Phase) (u : WheelType) (x e : ℕ) → x ≢ position p u → Loose p u x e → Placed p u x e
Loose-Placed p sec x e n (a, b, g) = (
  elim (ℕ-cases p.tick e) [
    | inl q ↦ absurd (n (sym g ∙ ap (λ (k : ℕ). k % 1000) (omega arith)))
    | inr q ↦ omega arith
  ],
  b,
  g,
)
Loose-Placed p hour x e n (j, a, b, g) = (
  j,
  elim (ℕ-cases j 0) [
    | inl q ↦ absurd (n (b ∙ ap (λ (k : ℕ). k % 3600) (omega arith)))
    | inr q ↦ omega arith
  ],
  a,
  b,
  g,
)
Loose-Placed p day x e n (j, a, b, g) = (
  j,
  elim (ℕ-cases j 0) [
    | inl q ↦ absurd (n (b ∙ ap (λ (k : ℕ). k % 24) (omega arith)))
    | inr q ↦ omega arith
  ],
  a,
  b,
  g,
)

-- The clock's window between two multiples of 2 ^ 32.
abbrev pub limit : ℕ → ℕ
limit c = c * u32_mod + u32_mod

pub record Window (c : ℕ) (p : Phase) : Type 0 where
  pub small : c < u32_mod
  pub above : c * u32_mod ≤ p.tick
  pub room : p.tick + max_timeout < limit c

-- Every linked timer will be reached in time.
abbrev pub InTime : Phase → ℕ → Place
InTime p c u x e = Placed p u x e × (e < limit c)

abbrev pub Looping : WheelType → Phase → ℕ → Place
Looping w p c u x e = (if same_wheel u w then Loose p u x e else Placed p u x e) × (e < limit c)

pub InTime-Looping :
    (w : WheelType) (p : Phase) (c : ℕ) (u : WheelType) (x e : ℕ)
    → InTime p c u x e
    → Looping w p c u x e
InTime-Looping w p c u x e (g, l) = elim (Bool-cases (same_wheel u w)) [
  | inl q ↦ (rw q (Placed-Loose p u x e g), l)
  | inr q ↦ (rw q g, l)
]

pub Listed-map :
    {P Q : Place} {m : TimerMgr} {w : WheelType} {x id : ℕ}
    → ((e : ℕ) → P w x e → Q w x e)
    → Listed P m w x id
    → Listed Q m w x id
Listed-map f l = record {
  timer = l.timer;
  found = l.found;
  owned = l.owned;
  idle = l.idle;
  good = f _ l.good;
}

-- `n` rounds of the loop are left. What stands behind the first `n` timers of the slot was linked
-- while the loop ran, and is in time.
pub record Running (w : WheelType) (p : Phase) (c n k : ℕ) (m : TimerMgr) : Type 0 where
  pub inv : Linked (Looping w p c) k m
  pub synced : Synced p m
  pub rest :
      (j : ℕ)
      → Elem j (drop n (m.tlist w (position p w)))
      → Listed (InTime p c) m w (position p w) j

-- After the last round every timer is in time.
pub Running-done :
    {w : WheelType} {p : Phase} {c k : ℕ} {m : TimerMgr}
    → Running w p c 0 k m
    → Linked (InTime p c) k m
Running-done {w} {p} {c} {k} {m} r = record {
  listed = λ u x id h. at u x id h (Bool-cases (same_wheel u w)) (ℕ-cases x (position p w));
  pending = r.inv.pending;
  free = r.inv.free;
  no_zero = r.inv.no_zero;
  paced = r.inv.paced;
}
  where
    same : (u v : WheelType) → same_wheel u v ≡ true → u ≡ v
    same sec sec e = refl
    same hour hour e = refl
    same day day e = refl
    same sec hour e = cc
    same sec day e = cc
    same hour sec e = cc
    same hour day e = cc
    same day sec e = cc
    same day hour e = cc

    at :
        (u : WheelType) (x id : ℕ)
        → Elem id (m.tlist u x)
        → (same_wheel u w ≡ true) ⊎ (same_wheel u w ≡ false)
        → (x ≡ position p w) ⊎ (x ≢ position p w)
        → Listed (InTime p c) m u x id
    at u x id h (inl e) (inl q) = rw (same u w e, q) (r.rest id (rw (same u w e, q) at h))
    at u x id h (inl e) (inr q) =
        Listed-map
          (λ v g.
            (Loose-Placed p u x v (λ z. q (z ∙ ap (position p) (same u w e))) (rw e at g.0), g.1))
          (r.inv.listed u x id h)
    at u x id h (inr e) _ = Listed-map (λ v g. (rw e at g.0, g.1)) (r.inv.listed u x id h)
