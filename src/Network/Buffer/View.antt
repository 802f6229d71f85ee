-- ===== src/Network/Buffer/View.antt =====
-- The buffer as a queue of bytes.
use mathlib.Core.Path.{subst}
use coroutine_transaction.Base.{
  append_assoc, take-drop, length-take, take-all, drop-all, ℕ, ◌+◌, ◌-◌, ◌≤◌, ◌≡◌, ◌∙◌, refl, sym,
  ap, inl, inr, true, List, ◌++◌, arith, ltb, length, take, drop, Bool-cases,
}
use coroutine_transaction.Network.Buffer.{
  Buffer, cheap_prepend, readable_bytes, writable_bytes, slice, copy_in, copy_within, retrieve,
  make_space, ensure_writable_bytes, append, read_fd,
}
use coroutine_transaction.Network.Buffer.Slices.{
  slice-cong, length-slice, slice-append, drop-slice, copy_in-other, slice-copy_in,
  slice-copy_within,
}

-- The bytes that can be read.
abbrev pub view : Buffer → List ℕ
view b = slice b.cells b.reader_idx (readable_bytes b)

pub record Valid (b : Buffer) : Type 0 where
  pub prepend : cheap_prepend ≤ b.reader_idx
  pub ordered : b.reader_idx ≤ b.writer_idx
  pub inside : b.writer_idx ≤ b.size

-- The view, once its size is known.
view-of : (b : Buffer) (n : ℕ) → readable_bytes b ≡ n → view b ≡ slice b.cells b.reader_idx n
view-of b n e = ap (slice b.cells b.reader_idx) e

-- Room is made without a change of what can be read.
ensure_writable_bytes-view :
    (len : ℕ) (b : Buffer)
    → Valid b
    → let b' = ensure_writable_bytes len b in
      Valid b' × (view b' ≡ view b) × (len ≤ writable_bytes b')
unfolding ensure_writable_bytes make_space
ensure_writable_bytes-view len b v =
    let p = v.prepend in
    let q = v.ordered in
    let r = v.inside in
    elim (Bool-cases (ltb (writable_bytes b) len)) [
      | inr e ↦ rw e (v, refl, ground arith)
      | inl e ↦ elim (Bool-cases (ltb (writable_bytes b + b.reader_idx) (len + cheap_prepend))) [
        | inl f ↦
            rw (e, f)
              (
                record { prepend = p; ordered = q; inside = omega arith },
                slice-cong _ _ b.reader_idx (readable_bytes b)
                    (λ j a c. (let lt : ltb j b.size ≡ true = ground arith in rw lt refl)),
                omega arith,
              )
        | inr f ↦
            rw (e, f)
              (
                record { prepend = omega arith; ordered = omega arith; inside = ground arith },
                ap
                      (slice (copy_within (readable_bytes b) b.reader_idx cheap_prepend b.cells)
                        cheap_prepend)
                      (omega arith)
                    ∙ slice-copy_within (readable_bytes b) b.reader_idx cheap_prepend b.cells p,
                ground arith,
              )
      ]
    ]

-- Bytes that are written behind the readable ones, where there is room for them.
written :
    (bytes : List ℕ) (n : ℕ) (b : Buffer)
    → Valid b
    → length bytes ≡ n
    → n ≤ writable_bytes b
    → let b' = record b {
      cells = copy_in bytes b.writer_idx b.cells;
      writer_idx = b.writer_idx + n;
    } in
      Valid b' × (view b' ≡ view b ++ bytes)
written bytes n b v l h =
    let p = v.prepend in
    let q = v.ordered in
    let r = v.inside in
    let g = copy_in bytes b.writer_idx b.cells in
    let m = readable_bytes b in
    let e : b.writer_idx + n - b.reader_idx ≡ m + n = omega arith in
    let at : b.reader_idx + m ≡ b.writer_idx = omega arith in
    (
      record { prepend = p; ordered = omega arith; inside = omega arith },
      ap (slice g b.reader_idx) e
          ∙ slice-append g b.reader_idx m n
          ∙ ap2 (λ (x y : List ℕ). x ++ y)
              (slice-cong g b.cells b.reader_idx m
                (λ j x y. copy_in-other bytes b.writer_idx b.cells j (omega arith)))
              (ap (λ k. slice g k n) at
                ∙ ap (slice g b.writer_idx) (sym l)
                ∙ slice-copy_in bytes b.writer_idx b.cells),
    )
  where
    ap2 : (f : List ℕ → List ℕ → List ℕ) {x x' y y' : List ℕ} → x ≡ x' → y ≡ y' → f x y ≡ f x' y'
    ap2 f e e' = cc (e, e')

-- Append puts the bytes behind those that can be read.
pub append-view :
    (bytes : List ℕ) (b : Buffer)
    → Valid b
    → Valid (append bytes b) × (view (append bytes b) ≡ view b ++ bytes)
unfolding append
append-view bytes b v =
    let (v', e, room) = ensure_writable_bytes-view (length bytes) b v in
    let (w, f) =
      written bytes (length bytes) (ensure_writable_bytes (length bytes) b) v' refl room in
    (w, f ∙ ap (λ (x : List ℕ). x ++ bytes) e)

-- Retrieve drops the first bytes that can be read, all of them if there are no more.
pub retrieve-view :
    (len : ℕ) (b : Buffer)
    → Valid b
    → Valid (retrieve len b) × (view (retrieve len b) ≡ drop len (view b))
unfolding retrieve slice
retrieve-view len b v =
    let p = v.prepend in
    let q = v.ordered in
    let r = v.inside in
    elim (Bool-cases (ltb len (readable_bytes b))) [
      | inl e ↦
          let a : b.writer_idx - (b.reader_idx + len) ≡ readable_bytes b - len = ground arith in
          let c : readable_bytes b ≡ len + (readable_bytes b - len) = ground arith in
          rw e (
            record { prepend = omega arith; ordered = ground arith; inside = r },
            ap (slice b.cells (b.reader_idx + len)) a
                ∙ sym (drop-slice b.cells b.reader_idx len (readable_bytes b - len))
                ∙ ap (λ k. drop len (slice b.cells b.reader_idx k)) (sym c),
          )
      | inr e ↦ rw e (
        record { prepend = omega arith; ordered = omega arith; inside = omega arith },
        sym (
            drop-all len (view b)
              (rw (length-slice b.cells b.reader_idx (readable_bytes b)) (ground arith))),
      )
    ]

-- ReadFd puts what readv brings behind those that can be read, whether or not it fits.
pub read_fd-view :
    (bytes : List ℕ) (b : Buffer)
    → Valid b
    → Valid (read_fd bytes b).0 × (view (read_fd bytes b).0 ≡ view b ++ bytes)
unfolding read_fd
read_fd-view bytes b v =
    let r = v.inside in
    let n = writable_bytes b in
    elim (Bool-cases (ltb (length bytes) n)) [
      | inl e ↦
          rw (e, take-all n bytes (ground arith))
            (written bytes (length bytes) b v refl (ground arith))
      | inr e ↦
          let at : b.writer_idx + n ≡ b.size = omega arith in
          let (v', f) =
            written (take n bytes) n b v (length-take n bytes (ground arith)) (omega arith) in
          let filled : Buffer = record b {
            cells = copy_in (take n bytes) b.writer_idx b.cells;
            writer_idx = b.writer_idx + n;
          } in
          let (w, g) = append-view (drop n bytes) filled v' in
          let done : ℕ → Type 0 = λ k.
            (let c = append (drop n bytes) (record filled { writer_idx = k }) in
              Valid c × (view c ≡ view b ++ bytes)) in
          rw e (
            subst done at (
              w,
              g
                  ∙ ap (λ (x : List ℕ). x ++ drop n bytes) f
                  ∙ append_assoc (view b) (take n bytes) (drop n bytes)
                  ∙ ap (λ (x : List ℕ). view b ++ x) (take-drop n bytes),
            ))
    ]
