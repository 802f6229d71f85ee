-- ===== src/DoubLink/Chain.antt =====
-- A chain of nodes that `next` and `prev` link both ways.
use mathlib.Core.Path.{subst}
use coroutine_transaction.Base.{
  ℕ, ◌+◌, ◌≡◌, ◌≢◌, ◌∙◌, refl, sym, ap, inl, inr, List, [], ◌∷◌, ◌++◌, length, arith, All, Elem,
  unlink, ℕ-cases, ==-self, ==-ne,
}
use coroutine_transaction.DoubLink.{Ptr, node}

abbrev pub Out : ℕ → List ℕ → Type 0
Out a xs = All (λ y. a ≢ y) xs

abbrev pub Distinct : List ℕ → Type 0
Distinct [] = Unit
Distinct (x ∷ xs) = Out x xs × Distinct xs

-- From `a` the nodes lead through `xs` to `b`, and back.
abbrev pub Chain : (Ptr → Ptr) → (Ptr → Ptr) → Ptr → List ℕ → Ptr → Type 0
Chain next prev a [] b = (next a ≡ b) × (prev b ≡ a)
Chain next prev a (x ∷ xs) b =
    (next a ≡ node x) × (prev (node x) ≡ a) × Chain next prev (node x) xs b

pub All-of {κ} : (P : ℕ → Type κ) (xs : List ℕ) → ((y : ℕ) → Elem y xs → P y) → All P xs
All-of P [] f = tt
All-of P (x ∷ xs) f = (f x (inl refl), All-of P xs (λ y e. f y (inr e)))

pub All-at {κ} : (P : ℕ → Type κ) (xs : List ℕ) (y : ℕ) → All P xs → Elem y xs → P y
All-at P [] y h e = absurd e
All-at P (x ∷ xs) y (h, _) (inl e) = subst P (sym e) h
All-at P (x ∷ xs) y (_, hs) (inr e) = All-at P xs y hs e

pub unlink-Out : (a : ℕ) (xs : List ℕ) → Out a xs → unlink a xs ≡ xs
unlink-Out a [] h = refl
unlink-Out a (x ∷ xs) (n, h) =
    rw (==-ne x a (λ q. n (sym q))) (ap (λ ys. x ∷ ys) (unlink-Out a xs h))

module _ {κ} (next prev : Ptr → Ptr) (P : Ptr → Type κ) where
  abbrev AllNodes : List ℕ → Type κ
  AllNodes xs = All (λ x. P (node x)) xs

  -- The node before the end, and the nodes beside `n`, are nodes of the chain.
  pub last_All :
      (a : Ptr) (xs : List ℕ) (b : Ptr) → P a → AllNodes xs → Chain next prev a xs b → P (prev b)
  last_All a [] b p _ (_, e) = subst P (sym e) p
  last_All a (x ∷ xs) b p (q, qs) (_, _, c) = last_All (node x) xs b q qs c

  pub first_All :
      (a : Ptr) (xs : List ℕ) (b : Ptr) → P b → AllNodes xs → Chain next prev a xs b → P (next a)
  first_All a [] b p _ (e, _) = subst P (sym e) p
  first_All a (x ∷ xs) b p (q, qs) (e, _, _) = subst P (sym e) q

  pub before_All :
      (n : ℕ) (a : Ptr) (xs : List ℕ) (b : Ptr)
      → Elem n xs
      → P a
      → AllNodes xs
      → Chain next prev a xs b
      → P (prev (node n))
  before_All n a [] b h p _ c = absurd h
  before_All n a (x ∷ xs) b (inl h) p _ (_, e, _) = subst P (sym (ap (λ k. prev (node k)) h ∙ e)) p
  before_All n a (x ∷ xs) b (inr h) p (q, qs) (_, _, c) = before_All n (node x) xs b h q qs c

  pub after_All :
      (n : ℕ) (a : Ptr) (xs : List ℕ) (b : Ptr)
      → Elem n xs
      → P b
      → AllNodes xs
      → Chain next prev a xs b
      → P (next (node n))
  after_All n a [] b h p _ c = absurd h
  after_All n a (x ∷ xs) b (inl h) p (_, qs) (_, _, c) =
      subst (λ k. P (next (node k))) (sym h) (first_All (node x) xs b p qs c)
  after_All n a (x ∷ xs) b (inr h) p (_, qs) (_, _, c) = after_All n (node x) xs b h p qs c

-- A chain is left by writes elsewhere.
pub Chain-frame :
    (next prev next' prev' : Ptr → Ptr) (a : Ptr) (xs : List ℕ) (b : Ptr)
    → next' a ≡ next a
    → prev' b ≡ prev b
    → All (λ x. next' (node x) ≡ next (node x)) xs
    → All (λ x. prev' (node x) ≡ prev (node x)) xs
    → Chain next prev a xs b
    → Chain next' prev' a xs b
Chain-frame next prev next' prev' a [] b f g _ _ (e, h) = (f ∙ e, g ∙ h)
Chain-frame next prev next' prev' a (x ∷ xs) b f g (u, us) (v, vs) (e, h, c) =
    (f ∙ e, v ∙ h, Chain-frame next prev next' prev' (node x) xs b u g us vs c)

pub Distinct-append : (n : ℕ) (xs : List ℕ) → Out n xs → Distinct xs → Distinct (xs ++ (n ∷ []))
Distinct-append n [] _ _ = (tt, tt)
Distinct-append n (x ∷ xs) (m, ms) (o, d) = (out xs o, Distinct-append n xs ms d)
  where
    out : (ys : List ℕ) → Out x ys → Out x (ys ++ (n ∷ []))
    out [] h = (λ q. m (sym q), tt)
    out (y ∷ ys) (h, hs) = (h, out ys hs)

Out-unlink : (a n : ℕ) (xs : List ℕ) → Out a xs → Out a (unlink n xs)
Out-unlink a n [] h = tt
Out-unlink a n (x ∷ xs) (h, hs) = elim (ℕ-cases x n) [
  | inl q ↦ rw (q, ==-self n) (Out-unlink a n xs hs)
  | inr m ↦ rw (==-ne x n m) (h, Out-unlink a n xs hs)
]

pub Distinct-unlink : (n : ℕ) (xs : List ℕ) → Distinct xs → Distinct (unlink n xs)
Distinct-unlink n [] h = tt
Distinct-unlink n (x ∷ xs) (h, hs) = elim (ℕ-cases x n) [
  | inl q ↦ rw (q, ==-self n) (Distinct-unlink n xs hs)
  | inr m ↦ rw (==-ne x n m) (Out-unlink x n xs h, Distinct-unlink n xs hs)
]

pub length-unlink :
    (n : ℕ) (xs : List ℕ) → Distinct xs → Elem n xs → length (unlink n xs) + 1 ≡ length xs
length-unlink n [] _ i = absurd i
length-unlink n (x ∷ xs) (h, hs) i = elim (ℕ-cases x n) [
  | inl q ↦ rw (q, ==-self n, unlink-Out n xs (subst (λ k. Out k xs) q h)) (omega arith)
  | inr m ↦
      let j : Elem n xs = elim i [ inl q ↦ absurd (m (sym q)) | inr j ↦ j ] in
      rw (==-ne x n m) (omega (arith, length-unlink n xs hs j))
]
