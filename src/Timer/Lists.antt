-- ===== src/Timer/Lists.antt =====
-- How linking and unlinking a timer changes the lists of the slots.
use coroutine_transaction.Base.{
  ℕ, ◌≡◌, ◌⊎◌, inl, inr, true, false, List, [], ◌∷◌, ◌++◌, arith, Elem, unlink, drop, drop-unlink,
  drop-append, Bool-cases,
}
use mathlib.Core.Path.{subst}
use coroutine_transaction.Timer.{TimerMgr, WheelType, sec, hour, same_slot, set_slot}

pub same_slot_eq :
    (u : WheelType) (y : ℕ) (w : WheelType) (x : ℕ) → same_slot u y w x ≡ true → (u ≡ w) × (y ≡ x)
same_slot_eq sec y w x e = ground arith
same_slot_eq hour y w x e = ground arith
same_slot_eq _ y w x e = ground arith

pub same_slot_self : (w : WheelType) (x : ℕ) → same_slot w x w x ≡ true
same_slot_self sec x = ground arith
same_slot_self _ x = ground arith

-- The slot that was written, or another one.
module _ (w : WheelType) (x : ℕ) (l : List ℕ) (m : TimerMgr) where
  pub tlist-set_slot_self : (set_slot w x l m).tlist w x ≡ l
  tlist-set_slot_self = rw (same_slot_self w x)

  pub tlist-set_slot_cases :
      (u : WheelType) (y : ℕ)
      → ((u ≡ w) × (y ≡ x) × ((set_slot w x l m).tlist u y ≡ l))
        ⊎ ((same_slot u y w x ≡ false) × ((set_slot w x l m).tlist u y ≡ m.tlist u y))
  tlist-set_slot_cases u y = elim (Bool-cases (same_slot u y w x)) [
    | inl e ↦ let p = same_slot_eq u y w x e in inl (p.0, p.1, rw e)
    | inr e ↦ inr (e, rw e)
  ]

module _ (w : WheelType) (x a n : ℕ) (m : TimerMgr) (u : WheelType) (y j : ℕ) where
  pub drop-set_slot-unlink :
      Elem j (drop n ((set_slot w x (unlink a (m.tlist w x)) m).tlist u y))
      → Elem j (drop n (m.tlist u y))
  drop-set_slot-unlink h = elim (tlist-set_slot_cases w x (unlink a (m.tlist w x)) m u y) [
    | inl (eu, ey, el) ↦
        rw (eu, ey)
          (drop-unlink a j n (m.tlist w x) (subst (λ (l : List ℕ). Elem j (drop n l)) el h))
    | inr (_, el) ↦ subst (λ (l : List ℕ). Elem j (drop n l)) el h
  ]

  pub drop-set_slot_append :
      Elem j (drop n ((set_slot w x (m.tlist w x ++ (a ∷ [])) m).tlist u y))
      → Elem j (drop n (m.tlist u y)) ⊎ ((j ≡ a) × (u ≡ w) × (y ≡ x))
  drop-set_slot_append h = elim (tlist-set_slot_cases w x (m.tlist w x ++ (a ∷ [])) m u y) [
    | inl (eu, ey, el) ↦
        elim (drop-append a j n (m.tlist w x) (subst (λ (l : List ℕ). Elem j (drop n l)) el h)) [
          | inl q ↦ inl (rw (eu, ey) q)
          | inr q ↦ inr (q, eu, ey)
        ]
    | inr (_, el) ↦ inl (subst (λ (l : List ℕ). Elem j (drop n l)) el h)
  ]
