-- ===== src/Base/Lists.antt =====
-- Lists measured and indexed by native numbers, finite maps as functions, and membership.
use Prim.Native.Nat.{ℕ, zero, suc, ◌+◌}
use mathlib.Core.Path.{◌≡◌, sym, ◌∙◌}
use mathlib.Core.Logic.{◌≢◌, ◌⊎◌, inl, inr}
use mathlib.Core.List.{List, [], ◌∷◌, ◌++◌}
use mathlib.Core.Option.{Option, none, some}
use native.Mathlib.Omega.{arith}
use coroutine_transaction.Base.Tests.{◌==◌, if◌then◌else◌, ==-self, ==-ne, ℕ-cases}

module _ {ℓ} {A : Type ℓ} where
  abbrev pub length : List A → ℕ
  length [] = 0
  length (x ∷ xs) = suc (length xs)

  abbrev pub get_elem? : List A → ℕ → Option A
  get_elem? [] i = none
  get_elem? (x ∷ xs) zero = some x
  get_elem? (x ∷ xs) (suc i) = get_elem? xs i

  abbrev pub take : ℕ → List A → List A
  take zero xs = []
  take (suc n) [] = []
  take (suc n) (x ∷ xs) = x ∷ take n xs

  abbrev pub drop : ℕ → List A → List A
  drop zero xs = xs
  drop (suc n) [] = []
  drop (suc n) (x ∷ xs) = drop n xs

  pub length-append : (xs ys : List A) → length (xs ++ ys) ≡ length xs + length ys
  length-append [] ys = omega arith
  length-append (x ∷ xs) ys = omega (arith, length-append xs ys)

  -- One entry of a map or of an array, written.
  abbrev pub update : (ℕ → A) → ℕ → A → ℕ → A
  update f k v j = if j == k then v else f j

  pub update_self : (f : ℕ → A) (k : ℕ) (v : A) → update f k v k ≡ v
  update_self f k v = rw (==-self k)

  pub update-ne : (f : ℕ → A) (k : ℕ) (v : A) (j : ℕ) → j ≢ k → update f k v j ≡ f j
  update-ne f k v j h = rw (==-ne j k h)

-- Every element has the property.
abbrev pub All {ℓ κ} : {A : Type ℓ} → (A → Type κ) → List A → Type κ
All P [] = Unit
All P (x ∷ xs) = P x × All P xs

module _ {ℓ κ} {A : Type ℓ} (P : A → Type κ) where
  pub All-map : (Q : A → Type κ) (xs : List A) → ((a : A) → P a → Q a) → All P xs → All Q xs
  All-map Q [] f h = h
  All-map Q (x ∷ xs) f (h, hs) = (f x h, All-map Q xs f hs)

  pub All-append : (xs : List A) (a : A) → All P xs → P a → All P (xs ++ (a ∷ []))
  All-append [] a h p = (p, h)
  All-append (x ∷ xs) a (h, hs) p = (h, All-append xs a hs p)

-- `Elem a xs`: the number `a` stands in `xs`, with its place.
abbrev pub Elem : ℕ → List ℕ → Type 0
Elem a [] = ⊥
Elem a (x ∷ xs) = (a ≡ x) ⊎ Elem a xs

pub Elem-append_left : (a : ℕ) (xs ys : List ℕ) → Elem a xs → Elem a (xs ++ ys)
Elem-append_left a [] ys h = elim h [ ]
Elem-append_left a (x ∷ xs) ys (inl e) = inl e
Elem-append_left a (x ∷ xs) ys (inr h) = inr (Elem-append_left a xs ys h)

pub Elem-append_right : (a : ℕ) (xs ys : List ℕ) → Elem a ys → Elem a (xs ++ ys)
Elem-append_right a [] ys h = h
Elem-append_right a (x ∷ xs) ys h = inr (Elem-append_right a xs ys h)

pub Elem-append : (a : ℕ) (xs ys : List ℕ) → Elem a (xs ++ ys) → Elem a xs ⊎ Elem a ys
Elem-append a [] ys h = inr h
Elem-append a (x ∷ xs) ys (inl e) = inl (inl e)
Elem-append a (x ∷ xs) ys (inr h) = elim (Elem-append a xs ys h) [
  | inl l ↦ inl (inr l)
  | inr r ↦ inr r
]

-- The list without `a`: an intrusive node is linked at most once, so unlinking it leaves this.
abbrev pub unlink : ℕ → List ℕ → List ℕ
unlink a [] = []
unlink a (x ∷ xs) = if x == a then unlink a xs else x ∷ unlink a xs

pub unlink-Elem : (a b : ℕ) (xs : List ℕ) → Elem b (unlink a xs) → Elem b xs × (b ≢ a)
unlink-Elem a b [] h = elim h [ ]
unlink-Elem a b (x ∷ xs) h = elim (ℕ-cases x a) [
  | inl e ↦
      let h' : Elem b (unlink a xs) = (rw (e, ==-self a) at h) in
      let p = unlink-Elem a b xs h' in (inr p.0, p.1)
  | inr n ↦ elim (rw (==-ne x a n) at h) [
    | inl e ↦ (inl e, λ q. n (sym e ∙ q))
    | inr t ↦ let p = unlink-Elem a b xs t in (inr p.0, p.1)
  ]
]

pub Elem-unlink : (a b : ℕ) (xs : List ℕ) → Elem b xs → b ≢ a → Elem b (unlink a xs)
Elem-unlink a b [] h n = h
Elem-unlink a b (x ∷ xs) (inl e) n = rw (==-ne x a (λ q. n (e ∙ q))) (inl e)
Elem-unlink a b (x ∷ xs) (inr h) n = elim (ℕ-cases x a) [
  | inl e ↦ rw (e, ==-self a) (Elem-unlink a b xs h n)
  | inr m ↦ rw (==-ne x a m) (inr (Elem-unlink a b xs h n))
]

pub drop-suc : (j n : ℕ) (xs : List ℕ) → Elem j (drop (suc n) xs) → Elem j (drop n xs)
drop-suc j zero [] h = h
drop-suc j zero (x ∷ xs) h = inr h
drop-suc j (suc n) [] h = h
drop-suc j (suc n) (x ∷ xs) h = drop-suc j n xs h

-- What stands behind the first `n` elements, when elements are taken out or added at the end.
pub drop-unlink : (a j n : ℕ) (xs : List ℕ) → Elem j (drop n (unlink a xs)) → Elem j (drop n xs)
drop-unlink a j zero xs h = (unlink-Elem a j xs h).0
drop-unlink a j (suc n) [] h = h
drop-unlink a j (suc n) (x ∷ xs) h = elim (ℕ-cases x a) [
  | inl e ↦ drop-suc j n xs (drop-unlink a j (suc n) xs (rw (e, ==-self a) at h))
  | inr ne ↦ drop-unlink a j n xs (rw (==-ne x a ne) at h)
]

pub drop-append :
    (a j n : ℕ) (xs : List ℕ) → Elem j (drop n (xs ++ (a ∷ []))) → Elem j (drop n xs) ⊎ (j ≡ a)
drop-append a j zero xs h = elim (Elem-append j xs (a ∷ []) h) [
  | inl l ↦ inl l
  | inr (inl e) ↦ inr e
  | inr (inr e) ↦ absurd e
]
drop-append a j (suc n) [] h =
    elim n as (λ k. Elem j (drop k []) → ⊥ ⊎ (j ≡ a)) [
      | zero ↦ λ q. absurd q
      | suc k ↦ λ q. absurd q
    ]
      h
drop-append a j (suc n) (x ∷ xs) h = drop-append a j n xs h

pub drop-Elem : (j n : ℕ) (xs : List ℕ) → Elem j (drop n xs) → Elem j xs
drop-Elem j zero xs h = h
drop-Elem j (suc n) [] h = h
drop-Elem j (suc n) (x ∷ xs) h = inr (drop-Elem j n xs h)

pub drop-length : (j : ℕ) (xs : List ℕ) → Elem j (drop (length xs) xs) → ⊥
drop-length j [] h = h
drop-length j (x ∷ xs) h = drop-length j xs h
