-- ===== src/DoubLink/Writes.antt =====
-- Chains under the writes of Push, PushFront and Remove.
use mathlib.Core.Path.{subst}
use coroutine_transaction.Base.{
  ℕ, ◌≡◌, ◌≢◌, ◌∙◌, refl, sym, ap, inl, inr, List, [], ◌∷◌, ◌++◌, All, Elem, unlink, ℕ-cases, true,
  false, Bool-cases, ==-self, ==-ne,
}
use coroutine_transaction.DoubLink.{Ptr, null, head, tail, node, eq_ptr, write}
use coroutine_transaction.DoubLink.Chain.{
  Out, Distinct, Chain, Chain-frame, unlink-Out, last_All, before_All, after_All,
}

pub eq_ptr_self : (p : Ptr) → eq_ptr p p ≡ true
eq_ptr_self null = refl
eq_ptr_self (head l) = ==-self l
eq_ptr_self (tail l) = ==-self l
eq_ptr_self (node l) = ==-self l

pub eq_ptr-ne : (p q : Ptr) → p ≢ q → eq_ptr p q ≡ false
eq_ptr-ne null null n = absurd (n refl)
eq_ptr-ne (head a) (head b) n = ==-ne a b (λ e. n (ap head e))
eq_ptr-ne (tail a) (tail b) n = ==-ne a b (λ e. n (ap tail e))
eq_ptr-ne (node a) (node b) n = ==-ne a b (λ e. n (ap node e))
eq_ptr-ne null (head b) n = refl
eq_ptr-ne null (tail b) n = refl
eq_ptr-ne null (node b) n = refl
eq_ptr-ne (head a) null n = refl
eq_ptr-ne (head a) (tail b) n = refl
eq_ptr-ne (head a) (node b) n = refl
eq_ptr-ne (tail a) null n = refl
eq_ptr-ne (tail a) (head b) n = refl
eq_ptr-ne (tail a) (node b) n = refl
eq_ptr-ne (node a) null n = refl
eq_ptr-ne (node a) (head b) n = refl
eq_ptr-ne (node a) (tail b) n = refl

module _ {ℓ} {A : Type ℓ} (f : Ptr → A) where
  pub write_same : (p : Ptr) (v : A) → write f p v p ≡ v
  write_same p v = rw (eq_ptr_self p) refl

  pub write_other : (p : Ptr) (v : A) (q : Ptr) → q ≢ p → write f p v q ≡ f q
  write_other p v q n = rw (eq_ptr-ne q p n) refl

  -- A field is copied into the field of another node, which may be the same node.
  pub write_self : (p q : Ptr) → write f p (f q) q ≡ f q
  write_self p q = elim (Bool-cases (eq_ptr q p)) [ inl b ↦ rw b refl | inr b ↦ rw b refl ]

  -- Two writes, at a pointer that is neither's, at the first's and at the second's.
  pub writes_other :
      (p : Ptr) (v : A) (q : Ptr) (w : A) (r : Ptr)
      → r ≢ p
      → r ≢ q
      → write (write f p v) q w r ≡ f r
  writes_other p v q w r n m = rw (eq_ptr-ne r q m, eq_ptr-ne r p n) refl

  pub writes_first : (p : Ptr) (v : A) (q : Ptr) (w : A) → p ≢ q → write (write f p v) q w p ≡ v
  writes_first p v q w n = rw (eq_ptr-ne p q n, eq_ptr_self p) refl

pub node_ne : (x y : ℕ) → x ≢ y → node x ≢ node y
node_ne x y n e = n (cc e)

abbrev pub OutOf : Ptr → List ℕ → Type 0
OutOf p xs = All (λ x. p ≢ node x) xs

pub Out-OutOf : (x : ℕ) (xs : List ℕ) → Out x xs → OutOf (node x) xs
Out-OutOf x [] h = tt
Out-OutOf x (y ∷ ys) (m, h) = (node_ne x y m, Out-OutOf x ys h)

module _ (next prev : Ptr → Ptr) (n : ℕ) where
  -- `n` is put behind the last node.
  pub push-Chain :
      (a : Ptr) (xs : List ℕ) (b : Ptr)
      → a ≢ b
      → a ≢ node n
      → b ≢ node n
      → Out n xs
      → Distinct xs
      → OutOf a xs
      → OutOf b xs
      → Chain next prev a xs b
      → Chain
          (write (write next (prev b) (node n)) (node n) b)
          (write (write prev (node n) (prev b)) b (node n))
          a
          (xs ++ (n ∷ []))
          b
  push-Chain a [] b ab an bn _ _ _ _ (e, h) = (
    write_other (write next (prev b) (node n)) (node n) b a an
        ∙ (ap (λ k. write next k (node n) a) h ∙ write_same next a (node n)),
    writes_first prev (node n) (prev b) b (node n) (λ q. bn (sym q)) ∙ h,
    (
      write_same (write next (prev b) (node n)) (node n) b,
      write_same (write prev (node n) (prev b)) b (node n),
    ),
  )
  push-Chain a (x ∷ xs) b ab an bn (nx, nxs) (xo, d) (ax, axs) (bx, bxs) (e, h, c) = (
    writes_other next (prev b) (node n) (node n) b a
          (last_All next prev (λ p. a ≢ p) (node x) xs b ax axs c) an
        ∙ e,
    writes_other prev (node n) (prev b) b (node n) (node x) (node_ne x n (λ q. nx (sym q)))
          (λ q. bx (sym q))
        ∙ h,
    push-Chain (node x) xs b (λ q. bx (sym q)) (node_ne x n (λ q. nx (sym q))) bn nxs d
        (Out-OutOf x xs xo) bxs c,
  )

  same_All :
      (f g : Ptr → Ptr) (p q : Ptr) (v w : Ptr) (xs : List ℕ)
      → f ≡ write (write g p v) q w
      → OutOf p xs
      → OutOf q xs
      → All (λ x. f (node x) ≡ g (node x)) xs
  same_All f g p q v w [] e _ _ = tt
  same_All f g p q v w (x ∷ xs) e (px, ps) (qx, qs) = (
    ap (λ (h : Ptr → Ptr). h (node x)) e
        ∙ writes_other g p v q w (node x) (λ r. px (sym r)) (λ r. qx (sym r)),
    same_All f g p q v w xs e ps qs,
  )

  -- `n` is put before the first node, which is `first`.
  pub push_front-Chain :
      (first a : Ptr) (xs : List ℕ) (b : Ptr)
      → first ≡ next a
      → a ≢ b
      → a ≢ node n
      → b ≢ node n
      → Out n xs
      → Distinct xs
      → OutOf a xs
      → OutOf b xs
      → Chain next prev a xs b
      → Chain
          (write (write next (node n) (next a)) a (node n))
          (write (write prev (node n) a) first (node n))
          a
          (n ∷ xs)
          b
  push_front-Chain first a [] b at ab an bn _ _ _ _ (e, h) =
      let fb = at ∙ e in
      (
        write_same (write next (node n) (next a)) a (node n),
        writes_first prev (node n) a first (node n) (λ q. bn (sym (q ∙ fb))),
        (
          writes_first next (node n) (next a) a (node n) (λ q. an (sym q)) ∙ e,
          ap (λ k. write (write prev (node n) a) k (node n) b) fb
              ∙ write_same (write prev (node n) a) b (node n),
        ),
      )
  push_front-Chain first a (x ∷ xs) b at ab an bn (nx, nxs) (xo, d) (ax, axs) (bx, bxs) (e, h, c) =
      let fx = at ∙ e in
      let prev' = write (write prev (node n) a) first (node n) in
      (
        write_same (write next (node n) (next a)) a (node n),
        writes_first prev (node n) a first (node n) (λ q. nx (cc (q, fx))),
        (
          writes_first next (node n) (next a) a (node n) (λ q. an (sym q)) ∙ e,
          ap (λ k. write (write prev (node n) a) k (node n) (node x)) fx
              ∙ write_same (write prev (node n) a) (node x) (node n),
          Chain-frame next prev (write (write next (node n) (next a)) a (node n)) prev' (node x) xs
              b
              (writes_other next (node n) (next a) a (node n) (node x)
                (node_ne x n (λ q. nx (sym q))) (λ q. ax (sym q)))
              (writes_other prev (node n) a first (node n) b bn (λ q. bx (q ∙ fx)))
              (same_All _ next (node n) a (next a) (node n) xs refl (Out-OutOf n xs nxs) axs)
              (same_All _ prev (node n) first a (node n) xs refl (Out-OutOf n xs nxs)
                (subst (λ k. OutOf k xs) (sym fx) (Out-OutOf x xs xo)))
              c,
        ),
      )

  -- `n` is taken out, and `after` is the node behind it.
  module _ (after : Ptr) (at : after ≡ next (node n)) where
    abbrev next' : Ptr → Ptr
    next' = write (write next (prev (node n)) (next (node n))) (node n) null

    abbrev prev' : Ptr → Ptr
    prev' = write (write prev after (prev (node n))) (node n) null

    skip-Chain :
        (a : Ptr) (xs : List ℕ) (b : Ptr)
        → a ≢ node n
        → b ≢ node n
        → Out n xs
        → Distinct xs
        → OutOf a xs
        → OutOf b xs
        → Chain next prev a (n ∷ xs) b
        → Chain next' prev' a xs b
    skip-Chain a [] b an bn _ _ _ _ (e, h, (f, g)) = (
      write_other (write next (prev (node n)) (next (node n))) (node n) null a an
          ∙ (ap (λ k. write next k (next (node n)) a) h ∙ (write_same next a (next (node n)) ∙ f)),
      write_other (write prev after (prev (node n))) (node n) null b bn
          ∙ (ap (λ k. write prev k (prev (node n)) b) (at ∙ f)
              ∙ (write_same prev b (prev (node n)) ∙ h)),
    )
    skip-Chain a (x ∷ xs) b an bn (nx, nxs) (xo, d) (ax, axs) (bx, bxs) (e, h, (f, g, c)) =
        let xn = node_ne x n (λ q. nx (sym q)) in
        let ax' = at ∙ f in
        (
          write_other (write next (prev (node n)) (next (node n))) (node n) null a an
              ∙ (ap (λ k. write next k (next (node n)) a) h
                  ∙ (write_same next a (next (node n)) ∙ f)),
          write_other (write prev after (prev (node n))) (node n) null (node x) xn
              ∙ (ap (λ k. write prev k (prev (node n)) (node x)) ax'
                  ∙ (write_same prev (node x) (prev (node n)) ∙ h)),
          Chain-frame next prev next' prev' (node x) xs b
              (writes_other next (prev (node n)) (next (node n)) (node n) null (node x)
                (λ q. ax (sym (q ∙ h))) xn)
              (writes_other prev after (prev (node n)) (node n) null b (λ q. bx (q ∙ ax')) bn)
              (same_All _ next (prev (node n)) (node n) (next (node n)) null xs refl
                (subst (λ k. OutOf k xs) (sym h) axs) (Out-OutOf n xs nxs))
              (same_All _ prev after (node n) (prev (node n)) null xs refl
                (subst (λ k. OutOf k xs) (sym ax') (Out-OutOf x xs xo)) (Out-OutOf n xs nxs))
              c,
        )

    pub remove-Chain :
        (a : Ptr) (xs : List ℕ) (b : Ptr)
        → a ≢ b
        → a ≢ node n
        → b ≢ node n
        → Elem n xs
        → Distinct xs
        → OutOf a xs
        → OutOf b xs
        → Chain next prev a xs b
        → Chain next' prev' a (unlink n xs) b
    remove-Chain a [] b ab an bn i _ _ _ c = absurd i
    remove-Chain a (x ∷ xs) b ab an bn i (xo, d) (ax, axs) (bx, bxs) (e, h, c) =
        elim (ℕ-cases x n) [
          | inl q ↦
              let nxs = subst (λ k. Out k xs) q xo in
              subst (λ ys. Chain next' prev' a ys b) (sym (rw (q, ==-self n) (unlink-Out n xs nxs)))
                (skip-Chain a xs b an bn nxs d axs bxs
                  (subst (λ k. Chain next prev a (k ∷ xs) b) q (e, h, c)))
          | inr m ↦
              let i' : Elem n xs = elim i [ inl q ↦ absurd (m (sym q)) | inr j ↦ j ] in
              let xb = λ (q : node x ≡ b). bx (sym q) in
              rw (==-ne x n m) (
                writes_other next (prev (node n)) (next (node n)) (node n) null a
                      (before_All next prev (λ p. a ≢ p) n (node x) xs b i' ax axs c) an
                    ∙ e,
                writes_other prev after (prev (node n)) (node n) null (node x)
                      (λ q.
                        after_All next prev (λ p. node x ≢ p) n (node x) xs b i' xb
                          (Out-OutOf x xs xo) c (q ∙ at))
                      (node_ne x n m)
                    ∙ h,
                remove-Chain (node x) xs b xb (node_ne x n m) bn i' d (Out-OutOf x xs xo) bxs c,
              )
        ]
