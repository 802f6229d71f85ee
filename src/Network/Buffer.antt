-- ===== src/Network/Buffer.antt =====
-- The byte buffer of a connection: network/Buffer.h and Buffer.cpp. The array is a function on its
-- indices and a size. Sizes stay below 2 ^ 64. What readv brings is an argument; a readv that fails
-- is not in the model, since its -1 is a size_t and the array is overrun.
pub mod Slices
pub mod View
pub mod Queue
use coroutine_transaction.Base.{
  ℕ, zero, suc, ◌+◌, ◌-◌, List, [], ◌∷◌, ltb, if◌then◌else◌, length, take, drop, update,
}

abbrev pub cheap_prepend : ℕ
cheap_prepend = 8

abbrev pub initial_size : ℕ
initial_size = 1024

pub record Buffer : Type 0 where
  pub cells : ℕ → ℕ
  pub size : ℕ
  pub reader_idx : ℕ
  pub writer_idx : ℕ

-- The constructor: it does not use its argument.
abbrev pub new_buffer : ℕ → Buffer
new_buffer size = record {
  cells = λ _. 0;
  size = cheap_prepend + initial_size;
  reader_idx = cheap_prepend;
  writer_idx = cheap_prepend;
}

abbrev pub readable_bytes : Buffer → ℕ
readable_bytes b = b.writer_idx - b.reader_idx

abbrev pub writable_bytes : Buffer → ℕ
writable_bytes b = b.size - b.writer_idx

abbrev pub prependable_bytes : Buffer → ℕ
prependable_bytes b = b.reader_idx

-- `n` bytes from the index `i` on.
unfoldable pub slice : (ℕ → ℕ) → ℕ → ℕ → List ℕ
slice f i zero = []
slice f i (suc n) = f i ∷ slice f (suc i) n

-- `std::copy` of a list to the index `i`.
unfoldable pub copy_in : List ℕ → ℕ → (ℕ → ℕ) → ℕ → ℕ
copy_in [] i f = f
copy_in (x ∷ xs) i f = copy_in xs (suc i) (update f i x)

-- `std::copy` of `n` bytes inside the array, from `src` to `dst`.
pub copy_within : ℕ → ℕ → ℕ → (ℕ → ℕ) → ℕ → ℕ
copy_within zero src dst f = f
copy_within (suc n) src dst f = copy_within n (suc src) (suc dst) (update f dst (f src))

-- Buffer::retrieveAll.
abbrev pub retrieve_all : Buffer → Buffer
retrieve_all b = record b { reader_idx = cheap_prepend; writer_idx = cheap_prepend }

-- Buffer::retrieve.
unfoldable pub retrieve : ℕ → Buffer → Buffer
retrieve len b =
    if ltb len (readable_bytes b)
    then record b { reader_idx = b.reader_idx + len }
    else retrieve_all b

-- Buffer::retrieveAsString.
pub retrieve_as_string : ℕ → Buffer → List ℕ × Buffer
unfolding slice retrieve
retrieve_as_string len b = (slice b.cells b.reader_idx len, retrieve len b)

-- Buffer::retrieveAllAsString.
pub retrieve_all_as_string : Buffer → List ℕ × Buffer
unfolding retrieve_as_string
retrieve_all_as_string b = retrieve_as_string (readable_bytes b) b

-- Buffer::makeSpace.
pub make_space : ℕ → Buffer → Buffer
unfolding copy_within
make_space len b =
    if ltb (writable_bytes b + prependable_bytes b) (len + cheap_prepend)
    then record b { cells = λ j. if ltb j b.size then b.cells j else 0; size = b.writer_idx + len }
    else let readable = readable_bytes b in
      record b {
        cells = copy_within readable b.reader_idx cheap_prepend b.cells;
        reader_idx = cheap_prepend;
        writer_idx = cheap_prepend + readable;
      }

-- Buffer::ensureWritableBytes.
unfoldable pub ensure_writable_bytes : ℕ → Buffer → Buffer
unfolding make_space
ensure_writable_bytes len b = if ltb (writable_bytes b) len then make_space len b else b

-- Buffer::append.
unfoldable pub append : List ℕ → Buffer → Buffer
unfolding ensure_writable_bytes copy_in
append bytes b =
    let b' = ensure_writable_bytes (length bytes) b in
    record b' {
      cells = copy_in bytes b'.writer_idx b'.cells;
      writer_idx = b'.writer_idx + length bytes;
    }

-- Buffer::readFd, on the bytes that readv brings: the first ones stand in the array.
unfoldable pub read_fd : List ℕ → Buffer → Buffer × ℕ
unfolding append
read_fd bytes b =
    let writable = writable_bytes b in
    let n = length bytes in
    let filled = record b { cells = copy_in (take writable bytes) b.writer_idx b.cells } in
    if ltb n writable
    then (record filled { writer_idx = b.writer_idx + n }, n)
    else (append (drop writable bytes) (record filled { writer_idx = b.size }), n)
