-- ===== src/Buf.antt =====
-- lio/src/buf.rs: the pool of buffers that operations borrow.
-- A `LentBuf` is its index, the pool is passed along. The two ends of the channel of free indices
-- are one queue, whose front is the head of the list; the queue is unbounded, so a send succeeds.
-- An operation on an atomic is one on the field, so a run is a sequence of whole operations.
-- `usize` subtraction and slices panic out of range (`len - pos` only where overflow is checked).
-- `Vec` and the adapters `chunks` and `windows` are the library's.
pub mod Pool
pub mod Lending
pub mod Holders
pub mod Lifetime
pub mod Waiting
pub mod Bytes
use lio.Base.{
  ℕ, zero, suc, ◌+◌, ◌-◌, ◌%◌, ◌^◌, Bool, true, false, Option, none, some, List, [], ◌∷◌, ◌++◌, ltb,
  if◌then◌else◌, get_elem?, set, replicate, take, drop, length, Outcome, ret, panic, ◌>>=◌, expect,
}

-- `BUF_LEN`.
abbrev pub buf_len : ℕ
buf_len = 4096

pub record BufCell : Type 0 where
  pub buf : List ℕ
  pub len : ℕ
  pub pos : ℕ
  pub in_use : Bool

pub record BufStore : Type 0 where
  pub buffers : List BufCell
  pub free : List ℕ

-- `BufCell::new`.
abbrev pub new_cell : BufCell
new_cell = record { buf = replicate buf_len 0; len = 0; pos = 0; in_use = false }

-- The indices of `with_capacity`, each cast to `u32`: `k` of them from `i` on.
abbrev pub indices : ℕ → ℕ → List ℕ
indices zero i = []
indices (suc k) i = i % 2 ^ 32 ∷ indices k (suc i)

unfoldable pub with_capacity : ℕ → BufStore
with_capacity cap = record { buffers = replicate cap new_cell; free = indices cap 0 }

-- What `acquire_buffer` leaves in the cell.
abbrev pub acquired : BufCell → BufCell
acquired c = record c { len = 0; pos = 0; in_use = true }

unfoldable pub acquire_buffer : BufStore → ℕ → Outcome (ℕ × BufStore)
acquire_buffer s index = expect (get_elem? s.buffers index) >>= λ cell.
    if cell.in_use
    then panic
    else ret (index, record s { buffers = set s.buffers index (acquired cell) })

-- `none` when every buffer is lent.
unfoldable pub try_get : BufStore → Outcome (Option ℕ × BufStore)
unfolding acquire_buffer
try_get s = elim s.free [
  | [] ↦ ret (none, s)
  | index ∷ rest ↦
      acquire_buffer (record s { free = rest }) index >>= λ lent. ret (some lent.0, lent.1)
]

-- A thread in `get` has its buffer, or waits for one.
pub data Getting : Type 0 where
  has : ℕ → Getting
  waits : Getting

-- `recv` takes an index when there is one; the channel never disconnects, as the pool has both ends.
unfoldable pub get : BufStore → Outcome (Getting × BufStore)
unfolding acquire_buffer
get s = elim s.free [
  | [] ↦ ret (waits, s)
  | index ∷ rest ↦
      acquire_buffer (record s { free = rest }) index >>= λ lent. ret (has lent.0, lent.1)
]

-- `later` is what the others have made of the pool when an index is sent or else the time is over.
unfoldable pub get_timeout : BufStore → BufStore → Outcome (Option ℕ × BufStore)
unfolding acquire_buffer
get_timeout s later =
    let pool : BufStore = elim s.free [ [] ↦ later | index ∷ rest ↦ s ] in
    elim pool.free [
      | [] ↦ ret (none, pool)
      | index ∷ rest ↦
          acquire_buffer (record pool { free = rest }) index >>= λ lent. ret (some lent.0, lent.1)
    ]

-- What `zeroize` leaves in the cell.
abbrev pub zeroed : BufCell → BufCell
zeroed c = record c { buf = replicate buf_len 0; len = 0; pos = 0 }

unfoldable pub zeroize : BufStore → ℕ → Outcome BufStore
zeroize s index = expect (get_elem? s.buffers index) >>= λ cell.
    ret (record s { buffers = set s.buffers index (zeroed cell) })

-- `Drop for LentBuf`; `wipes` is the feature `zeroize`.
unfoldable pub drop_lent : Bool → BufStore → ℕ → Outcome BufStore
unfolding zeroize
drop_lent wipes s index = (if wipes then zeroize s index else ret s) >>= λ s'.
    expect (get_elem? s'.buffers index) >>= λ cell. ret (record {
      buffers = set s'.buffers index (record cell { in_use = false });
      free = s'.free ++ index ∷ [];
    })

unfoldable pub after : BufStore → ℕ → ℕ → Outcome BufStore
after s index bw = expect (get_elem? s.buffers index) >>= λ cell.
    if ltb buf_len bw
    then panic
    else ret (record s { buffers = set s.buffers index (record cell { len = bw }) })

-- The slice `buf[pos..len]`.
abbrev pub slice : BufCell → Outcome (List ℕ)
slice c =
    if ltb c.len c.pos
    then panic
    else (if ltb (length c.buf) c.len then panic else ret (take (c.len - c.pos) (drop c.pos c.buf)))

-- `as_ref`, and `chunk`, which is the same code.
unfoldable pub as_ref : BufStore → ℕ → Outcome (List ℕ)
as_ref s index = expect (get_elem? s.buffers index) >>= λ cell. slice cell

unfoldable pub remaining : BufStore → ℕ → Outcome ℕ
remaining s index = expect (get_elem? s.buffers index) >>= λ cell.
    if ltb cell.len cell.pos then panic else ret (cell.len - cell.pos)

unfoldable pub advance : BufStore → ℕ → ℕ → Outcome BufStore
advance s index cnt = expect (get_elem? s.buffers index) >>= λ cell.
    if ltb cell.len cell.pos
    then panic
    else (if ltb (cell.len - cell.pos) cnt
        then panic
        else ret
            (record s { buffers = set s.buffers index (record cell { pos = cell.pos + cnt }) }))

-- `LentBufIter::next`, from the position `at`: the byte and the next position.
unfoldable pub next : BufStore → ℕ → ℕ → Outcome (Option ℕ × ℕ)
unfolding remaining as_ref
next s index at = remaining s index >>= λ left.
    if ltb at left
    then (as_ref s index >>= λ bytes. expect (get_elem? bytes at) >>= λ val. ret (some val, at + 1))
    else ret (none, at)

unfoldable pub capacity : BufStore → ℕ
capacity s = length s.buffers

unfoldable pub available : BufStore → ℕ
available s = length s.free
