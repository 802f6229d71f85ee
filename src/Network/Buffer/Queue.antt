-- ===== src/Network/Buffer/Queue.antt =====
-- What the callers of a buffer see: a queue of bytes.
use coroutine_transaction.Base.{
  ℕ, ◌≡◌, ◌∙◌, refl, sym, ap, List, [], ◌∷◌, ◌++◌, arith, length, drop,
}
use coroutine_transaction.Network.Buffer.{
  Buffer, new_buffer, readable_bytes, slice, append, retrieve, retrieve_all_as_string,
  retrieve_as_string, read_fd,
}
use coroutine_transaction.Network.Buffer.Slices.{length-slice}
use coroutine_transaction.Network.Buffer.View.{
  Valid, view, append-view, retrieve-view, read_fd-view,
}

-- The calls of a buffer: `reads` is readFd, on what readv brings.
pub data Op : Type 0 where
  appends reads : List ℕ → Op
  retrieves : ℕ → Op
  takes_all : Op

-- The buffer after a call, and the bytes that the call hands out.
unfoldable pub run_op : Op → Buffer → Buffer × List ℕ
unfolding append retrieve retrieve_all_as_string read_fd
run_op (appends bytes) b = (append bytes b, [])
run_op (reads bytes) b = ((read_fd bytes b).0, [])
run_op (retrieves n) b = (retrieve n b, [])
run_op takes_all b = let (out, b') = retrieve_all_as_string b in (b', out)

unfoldable pub run_ops : List Op → Buffer → Buffer × List ℕ
unfolding run_op
run_ops [] b = (b, [])
run_ops (op ∷ ops) b =
    let (b', out) = run_op op b in let (last, outs) = run_ops ops b' in (last, out ++ outs)

-- The same calls of a queue.
abbrev pub queue_op : Op → List ℕ → List ℕ × List ℕ
queue_op (appends bytes) xs = (xs ++ bytes, [])
queue_op (reads bytes) xs = (xs ++ bytes, [])
queue_op (retrieves n) xs = (drop n xs, [])
queue_op takes_all xs = ([], xs)

unfoldable pub queue_ops : List Op → List ℕ → List ℕ × List ℕ
queue_ops [] xs = (xs, [])
queue_ops (op ∷ ops) xs =
    let (xs', out) = queue_op op xs in let (last, outs) = queue_ops ops xs' in (last, out ++ outs)

new_buffer-Valid : (size : ℕ) → Valid (new_buffer size)
new_buffer-Valid size = record {
  prepend = omega arith;
  ordered = omega arith;
  inside = omega arith;
}

drop-length : (xs : List ℕ) → drop (length xs) xs ≡ []
drop-length [] = refl
drop-length (x ∷ xs) = drop-length xs

retrieve_all_as_string-all :
    (b : Buffer)
    → Valid b
    → let r = retrieve_all_as_string b in Valid r.1 × (view r.1 ≡ []) × (r.0 ≡ view b)
unfolding retrieve_all_as_string retrieve_as_string
retrieve_all_as_string-all b v =
    let (v', e) = retrieve-view (readable_bytes b) b v in
    let l = length-slice b.cells b.reader_idx (readable_bytes b) in
    (v', e ∙ (ap (λ n. drop n (view b)) (sym l) ∙ drop-length (view b)), refl)

run_op-refines :
    (op : Op) (b : Buffer)
    → Valid b
    → let r = run_op op b in
      let q = queue_op op (view b) in Valid r.0 × (view r.0 ≡ q.0) × (r.1 ≡ q.1)
unfolding run_op
run_op-refines (appends bytes) b v = let (v', e) = append-view bytes b v in (v', e, refl)
run_op-refines (reads bytes) b v = let (v', e) = read_fd-view bytes b v in (v', e, refl)
run_op-refines (retrieves n) b v = let (v', e) = retrieve-view n b v in (v', e, refl)
run_op-refines takes_all b v = retrieve_all_as_string-all b v

run_ops-queue :
    (ops : List Op) (b : Buffer)
    → Valid b
    → let r = run_ops ops b in
      let q = queue_ops ops (view b) in Valid r.0 × (view r.0 ≡ q.0) × (r.1 ≡ q.1)
unfolding run_ops queue_ops
run_ops-queue [] b v = (v, refl, refl)
run_ops-queue (op ∷ ops) b v =
    let (v1, e1, o1) = run_op-refines op b v in
    let (v2, e2, o2) = run_ops-queue ops (run_op op b).0 v1 in
    let next = ap (queue_ops ops) e1 in
    (
      v2,
      e2 ∙ ap (λ (q : List ℕ × List ℕ). q.0) next,
      cc (o1, o2 ∙ ap (λ (q : List ℕ × List ℕ). q.1) next),
    )

-- Any calls of a new buffer hand out the bytes that a queue hands out, and leave in it the bytes that
-- are left in the queue: append and readFd put them behind the others, retrieve and
-- retrieveAllAsString take the first ones.
pub run_ops-refines :
    (size : ℕ) (ops : List Op)
    → let r = run_ops ops (new_buffer size) in
      let q = queue_ops ops [] in (view r.0 ≡ q.0) × (r.1 ≡ q.1)
unfolding slice
run_ops-refines size ops =
    let (_, e, o) = run_ops-queue ops (new_buffer size) (new_buffer-Valid size) in (e, o)
