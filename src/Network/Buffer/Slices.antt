-- ===== src/Network/Buffer/Slices.antt =====
-- Slices of the array of a buffer, and writes to it.
use coroutine_transaction.Base.{
  ℕ, zero, suc, ◌+◌, ◌≤◌, ◌<◌, ◌≡◌, ◌∙◌, refl, ap, List, [], ◌∷◌, ◌++◌, arith, length, drop, update,
  update_self, update-ne,
}
use coroutine_transaction.Network.Buffer.{slice, copy_in, copy_within}

pub slice-cong :
    (f g : ℕ → ℕ) (i n : ℕ) → ((j : ℕ) → i ≤ j → j < i + n → f j ≡ g j) → slice f i n ≡ slice g i n
unfolding slice
slice-cong f g i zero h = refl
slice-cong f g i (suc n) h =
    let a = h i (omega arith) (omega arith) in
    let ih = slice-cong f g (suc i) n (λ j p q. h j (omega arith) (omega arith)) in cc (a, ih)

pub slice-append : (f : ℕ → ℕ) (i m n : ℕ) → slice f i (m + n) ≡ slice f i m ++ slice f (i + m) n
unfolding slice
slice-append f i zero n =
    let a : 0 + n ≡ n = omega arith in let b : i + 0 ≡ i = omega arith in rw (a, b) refl
slice-append f i (suc m) n =
    let ih = slice-append f (suc i) m n in
    let a : suc m + n ≡ suc (m + n) = omega arith in
    let e : i + suc m ≡ suc i + m = omega arith in rw (a, e) (ap (λ (x : List ℕ). f i ∷ x) ih)

pub length-slice : (f : ℕ → ℕ) (i n : ℕ) → length (slice f i n) ≡ n
unfolding slice
length-slice f i zero = refl
length-slice f i (suc n) = let ih = length-slice f (suc i) n in omega arith

pub drop-slice : (f : ℕ → ℕ) (i k n : ℕ) → drop k (slice f i (k + n)) ≡ slice f (i + k) n
unfolding slice
drop-slice f i zero n =
    let a : 0 + n ≡ n = omega arith in let b : i + 0 ≡ i = omega arith in rw (a, b) refl
drop-slice f i (suc k) n =
    let a : suc k + n ≡ suc (k + n) = omega arith in
    let e : i + suc k ≡ suc i + k = omega arith in rw (a, e) (drop-slice f (suc i) k n)

pub copy_in-other : (xs : List ℕ) (i : ℕ) (f : ℕ → ℕ) (j : ℕ) → j < i → copy_in xs i f j ≡ f j
unfolding copy_in
copy_in-other [] i f j h = refl
copy_in-other (x ∷ xs) i f j h =
    copy_in-other xs (suc i) (update f i x) j (omega arith) ∙ update-ne f i x j (λ e. omega arith)

pub slice-copy_in : (xs : List ℕ) (i : ℕ) (f : ℕ → ℕ) → slice (copy_in xs i f) i (length xs) ≡ xs
unfolding slice copy_in
slice-copy_in [] i f = refl
slice-copy_in (x ∷ xs) i f =
    let a = copy_in-other xs (suc i) (update f i x) i (omega arith) in
    let b = update_self f i x in let ih = slice-copy_in xs (suc i) (update f i x) in cc (a, b, ih)

pub copy_within-below :
    (n src dst : ℕ) (f : ℕ → ℕ) (j : ℕ) → j < dst → copy_within n src dst f j ≡ f j
unfolding copy_within
copy_within-below zero src dst f j h = refl
copy_within-below (suc n) src dst f j h =
    copy_within-below n (suc src) (suc dst) (update f dst (f src)) j (omega arith)
    ∙ update-ne f dst (f src) j (λ e. omega arith)

pub slice-copy_within :
    (n src dst : ℕ) (f : ℕ → ℕ) → dst ≤ src → slice (copy_within n src dst f) dst n ≡ slice f src n
unfolding slice copy_within
slice-copy_within zero src dst f h = refl
slice-copy_within (suc n) src dst f h =
    let g = update f dst (f src) in
    let a = copy_within-below n (suc src) (suc dst) g dst (omega arith) in
    let b = update_self f dst (f src) in
    let ih = slice-copy_within n (suc src) (suc dst) g (omega arith) in
    let c = slice-cong g f (suc src) n (λ j p q. update-ne f dst (f src) j (λ e. omega arith)) in
    cc (a, b, ih, c)
