-- ===== src/DoubLink/Represents.antt =====
-- The lists of node numbers that a heap of nodes represents, and the effect of one change of a list.
use coroutine_transaction.Base.{
  ℕ, ◌≡◌, ◌≢◌, ◌∙◌, refl, sym, ap, ◌⊎◌, inl, inr, ◌%◌, none, some, Option, List, [], ◌∷◌, ◌++◌,
  length, update, Elem, unlink, ℕ-cases, ==-self, ==-ne, if◌then◌else◌,
}
use coroutine_transaction.DoubLink.{Ptr, null, head, tail, node, Memory, is_some, write, u32_mod}
use coroutine_transaction.DoubLink.Chain.{Distinct, Chain, Chain-frame, All-of}
use coroutine_transaction.DoubLink.Writes.{node_ne}

-- The lists, and the list in which a node stands.
pub record Links : Type 0 where
  pub lists : ℕ → List ℕ
  pub owner : ℕ → Option ℕ

abbrev pub no_links : Links
no_links = record { lists = λ _. []; owner = λ _. none }

-- The list `l` becomes `ys`, and the owner of `n` becomes `o`.
abbrev pub relist : ℕ → List ℕ → ℕ → Option ℕ → Links → Links
relist l ys n o s = record { lists = update s.lists l ys; owner = update s.owner n o }

-- The calls on lists of numbers.
abbrev pub links_push : ℕ → ℕ → Links → Links
links_push l n s = if is_some (s.owner n) then s else relist l (s.lists l ++ (n ∷ [])) n (some l) s

abbrev pub links_push_front : ℕ → ℕ → Links → Links
links_push_front l n s = if is_some (s.owner n) then s else relist l (n ∷ s.lists l) n (some l) s

abbrev pub remove_from : Option ℕ → ℕ → Links → Links
remove_from none n s = s
remove_from (some l) n s = relist l (unlink n (s.lists l)) n none s

abbrev pub links_remove : ℕ → Links → Links
links_remove n s = remove_from (s.owner n) n s

abbrev pub pop_first : List ℕ → Links → Ptr × Links
pop_first [] s = (null, s)
pop_first (x ∷ _) s = (node x, links_remove x s)

abbrev pub links_pop : ℕ → Links → Ptr × Links
links_pop l s = pop_first (s.lists l) s

pub record Represents (s : Links) (m : Memory) : Type 0 where
  pub chain : (l : ℕ) → Chain m.next m.prev (head l) (s.lists l) (tail l)
  pub distinct : (l : ℕ) → Distinct (s.lists l)
  pub owned : (l x : ℕ) → Elem x (s.lists l) → s.owner x ≡ some l
  pub inside : (l x : ℕ) → s.owner x ≡ some l → Elem x (s.lists l)
  pub same_owner : (x : ℕ) → m.owner (node x) ≡ s.owner x
  pub free : (x : ℕ) → s.owner x ≡ none → (m.next (node x) ≡ null) × (m.prev (node x) ≡ null)
  pub counted : (l : ℕ) → m.count l ≡ length (s.lists l) % u32_mod

-- The pointer is not one of the list `l`.
abbrev pub Away : Links → ℕ → Ptr → Type 0
Away s l q = (q ≢ head l) × (q ≢ tail l) × ((x : ℕ) → Elem x (s.lists l) → q ≢ node x)

-- One change of the list `l`, which puts the node `n` into it or takes it out.
pub record Change (s : Links) (m : Memory) (l : ℕ) (ys : List ℕ) (n : ℕ) (o : Option ℕ)
    (m' : Memory) : Type 0 where
  pub chain : Chain m'.next m'.prev (head l) ys (tail l)
  pub distinct : Distinct ys
  pub same_next : (q : Ptr) → q ≢ node n → Away s l q → m'.next q ≡ m.next q
  pub same_prev : (q : Ptr) → q ≢ node n → Away s l q → m'.prev q ≡ m.prev q
  pub kept : (x : ℕ) → x ≢ n → Elem x (s.lists l) → Elem x ys
  pub back : (x : ℕ) → x ≢ n → Elem x ys → Elem x (s.lists l)
  pub was : (j : ℕ) → s.owner n ≡ some j → j ≡ l
  pub now :
      ((o ≡ some l) × Elem n ys)
      ⊎ ((o ≡ none) × (Elem n ys → ⊥) × (m'.next (node n) ≡ null) × (m'.prev (node n) ≡ null))
  pub owner : m'.owner ≡ write m.owner (node n) o
  pub count : m'.count ≡ update m.count l (length ys % u32_mod)

module _ {s : Links} {m : Memory} (l : ℕ) (ys : List ℕ) (n : ℕ) (o : Option ℕ) (m' : Memory)
    (r : Represents s m) (g : Change s m l ys n o m') where
  -- The nodes of another list are not touched.
  elsewhere : (j x : ℕ) → j ≢ l → Elem x (s.lists j) → (x ≢ n) × Away s l (node x)
  elsewhere j x ne i = (
    λ e. ne (g.was j (ap s.owner (sym e) ∙ r.owned j x i)),
    (
      λ e. cc e,
      λ e. cc e,
      λ y k e.
          (let q : x ≡ y = cc e in
            let same : some j ≡ some l = sym (r.owned j x i) ∙ (ap s.owner q ∙ r.owned l y k) in
            ne (cc same)),
    ),
  )

  sentinel : (j : ℕ) → j ≢ l → Away s l (head j) × Away s l (tail j)
  sentinel j ne =
      ((λ e. ne (cc e), λ e. cc e, λ x i e. cc e), (λ e. cc e, λ e. ne (cc e), λ x i e. cc e))

  chain_after : (j : ℕ) → Chain m'.next m'.prev (head j) (update s.lists l ys j) (tail j)
  chain_after j = elim (ℕ-cases j l) [
    | inl e ↦ rw (e, ==-self l) g.chain
    | inr ne ↦
        let (h, t) = sentinel j ne in
        rw (==-ne j l ne) (
          Chain-frame m.next m.prev m'.next m'.prev (head j) (s.lists j) (tail j)
            (g.same_next (head j) (λ e. cc e) h) (g.same_prev (tail j) (λ e. cc e) t)
            (All-of _ (s.lists j)
              (λ x i. (let (a, b) = elsewhere j x ne i in g.same_next (node x) (node_ne x n a) b)))
            (All-of _ (s.lists j)
              (λ x i. (let (a, b) = elsewhere j x ne i in g.same_prev (node x) (node_ne x n a) b)))
            (r.chain j))
  ]

  owned_after : (j x : ℕ) → Elem x (update s.lists l ys j) → update s.owner n o x ≡ some j
  owned_after j x i = elim (ℕ-cases j l) [
    | inl e ↦
        let i' : Elem x ys = (rw (e, ==-self l) at i) in
        elim (ℕ-cases x n) [
          | inl q ↦ elim g.now [
            | inl (z, _) ↦ rw (q, ==-self n, e) z
            | inr (_, out, _, _) ↦ absurd (out (rw (q) at i'))
          ]
          | inr ne ↦ rw (==-ne x n ne, e) (r.owned l x (g.back x ne i'))
        ]
    | inr ne ↦
        let i' : Elem x (s.lists j) = (rw (==-ne j l ne) at i) in
        rw (==-ne x n (elsewhere j x ne i').0) (r.owned j x i')
  ]

  inside_after : (j x : ℕ) → update s.owner n o x ≡ some j → Elem x (update s.lists l ys j)
  inside_after j x e = elim (ℕ-cases x n) [
    | inl q ↦
        let e' : o ≡ some j = (rw (q, ==-self n) at e) in
        elim g.now [
          | inl (z, i) ↦ let p : j ≡ l = cc (z, e') in rw (p, ==-self l, q) i
          | inr (z, _, _, _) ↦ cc (z, e')
        ]
    | inr ne ↦
        let e' : s.owner x ≡ some j = (rw (==-ne x n ne) at e) in
        elim (ℕ-cases j l) [
          | inl p ↦ rw (p, ==-self l) (g.kept x ne (rw p at (r.inside j x e')))
          | inr p ↦ rw (==-ne j l p) (r.inside j x e')
        ]
  ]

  free_after :
      (x : ℕ) → update s.owner n o x ≡ none → (m'.next (node x) ≡ null) × (m'.prev (node x) ≡ null)
  free_after x e = elim (ℕ-cases x n) [
    | inl q ↦
        let e' : o ≡ none = (rw (q, ==-self n) at e) in
        elim g.now [ inl (z, _) ↦ cc (z, e') | inr (_, _, a, b) ↦ rw q (a, b) ]
    | inr ne ↦
        let e' : s.owner x ≡ none = (rw (==-ne x n ne) at e) in
        let away : Away s l (node x) = (
          λ h. cc h,
          λ h. cc h,
          λ y i h. (let q : x ≡ y = cc h in cc (e', r.owned l y i, ap s.owner q)),
        ) in
        (
          g.same_next (node x) (node_ne x n ne) away ∙ (r.free x e').0,
          g.same_prev (node x) (node_ne x n ne) away ∙ (r.free x e').1,
        )
  ]

  pub Change-Represents : Represents (relist l ys n o s) m'
  Change-Represents = record {
    chain = chain_after;
    distinct = λ j. elim (ℕ-cases j l) [
      | inl e ↦ rw (e, ==-self l) g.distinct
      | inr ne ↦ rw (==-ne j l ne) (r.distinct j)
    ];
    owned = owned_after;
    inside = inside_after;
    same_owner = λ x. elim (ℕ-cases x n) [
      | inl q ↦ ap (λ (f : Ptr → Option ℕ). f (node x)) g.owner ∙ (rw (q, ==-self n) refl)
      | inr ne ↦
          ap (λ (f : Ptr → Option ℕ). f (node x)) g.owner ∙ (rw (==-ne x n ne) (r.same_owner x))
    ];
    free = free_after;
    counted = λ j. elim (ℕ-cases j l) [
      | inl e ↦ ap (λ (f : ℕ → ℕ). f j) g.count ∙ (rw (e, ==-self l) refl)
      | inr ne ↦ ap (λ (f : ℕ → ℕ). f j) g.count ∙ (rw (==-ne j l ne) (r.counted j))
    ];
  }
