-- ===== src/Buf/Pool.antt =====
-- The invariant of the pool, and what a new pool is.
use lio.Base.{
  ℕ, zero, suc, ◌+◌, ◌%◌, ◌^◌, ◌≤◌, ◌<◌, ◌≡◌, refl, sym, ap, ◌∙◌, false, Option, none, some, List,
  [], ◌∷◌, ◌++◌, arith, ltb, ◌==◌, if◌then◌else◌, get_elem?, set, replicate, length,
  length-replicate, ≢→==,
}
use lio.Buf.{BufCell, BufStore, with_capacity, new_cell, indices, buf_len}

-- How often an index is on the queue of free ones.
abbrev pub times : ℕ → List ℕ → ℕ
times i [] = 0
times i (j ∷ js) = if j == i then suc (times i js) else times i js

-- 1 for a buffer that nobody uses.
abbrev pub idle : Option BufCell → ℕ
idle none = 0
idle (some c) = if c.in_use then 0 else 1

-- 1 for a buffer that somebody uses.
abbrev pub busy : Option BufCell → ℕ
busy none = 0
busy (some c) = if c.in_use then 1 else 0

-- 1 for a buffer of the pool.
abbrev pub present : Option BufCell → ℕ
present none = 0
present (some c) = 1

pub busy-replicate : (n j : ℕ) → busy (get_elem? (replicate n new_cell) j) ≡ 0
busy-replicate zero j = refl
busy-replicate (suc n) zero = refl
busy-replicate (suc n) (suc j) = busy-replicate n j

-- How many buffers are lent.
abbrev pub lent : List BufCell → ℕ
lent [] = 0
lent (c ∷ cs) = if c.in_use then suc (lent cs) else lent cs

-- A buffer is on the queue once if it is idle and otherwise not at all, and every buffer is either
-- on the queue or lent.
pub record IsPool (s : BufStore) : Type 0 where
  pub queued : (i : ℕ) → times i s.free ≡ idle (get_elem? s.buffers i)
  pub total : length s.free + lent s.buffers ≡ length s.buffers
  pub whole : (i : ℕ) (c : BufCell) → get_elem? s.buffers i ≡ some c → length c.buf ≡ buf_len

pub times-append : (i j : ℕ) (js : List ℕ) → times i (js ++ j ∷ []) ≡ times i js + times i (j ∷ [])
times-append i j [] = omega arith
times-append i j (k ∷ ks) = ground (arith, times-append i j ks)

pub lent-set :
    (cs : List BufCell) (i : ℕ) (old new : BufCell)
    → get_elem? cs i ≡ some old
    → lent (set cs i new) + (if old.in_use then 1 else 0) ≡ lent cs + (if new.in_use then 1 else 0)
lent-set [] i old new e = cc
lent-set (c ∷ cs) zero old new e = ground (arith, e)
lent-set (c ∷ cs) (suc i) old new e = ground (arith, lent-set cs i old new e)

lent-replicate : (n : ℕ) → lent (replicate n new_cell) ≡ 0
lent-replicate zero = refl
lent-replicate (suc n) = lent-replicate n

length-indices : (k i : ℕ) → length (indices k i) ≡ k
length-indices zero i = refl
length-indices (suc k) i = ap suc (length-indices k (suc i))

times-indices_above : (k i j : ℕ) → j < i → i + k ≤ 2 ^ 32 → times j (indices k i) ≡ 0
times-indices_above zero i j h fits = refl
times-indices_above (suc k) i j h fits =
    let step = times-indices_above k (suc i) j (omega arith) (omega arith) in
    let new : (i % 2 ^ 32 == j) ≡ false = ≢→== _ _ (λ e. omega arith) in rw new step

idle_beyond : (n j : ℕ) → idle (get_elem? (replicate n new_cell) j) ≡ (if ltb j n then 1 else 0)
idle_beyond zero j = ground arith
idle_beyond (suc n) zero = ground arith
idle_beyond (suc n) (suc j) = ground (arith, idle_beyond n j)

times-indices :
    (k i j : ℕ) → i + k ≤ 2 ^ 32 → times (i + j) (indices k i) ≡ (if ltb j k then 1 else 0)
times-indices zero i j fits = ground arith
times-indices (suc k) i zero fits =
    let later = times-indices_above k (suc i) i (omega arith) (omega arith) in ground (arith, later)
times-indices (suc k) i (suc j) fits =
    let later = times-indices k (suc i) j (omega arith) in ground (arith, later)

bytes_of : Option BufCell → ℕ
bytes_of none = 0
bytes_of (some c) = length c.buf

whole-replicate :
    (n i : ℕ) (c : BufCell) → get_elem? (replicate n new_cell) i ≡ some c → length c.buf ≡ buf_len
unfolding bytes_of
whole-replicate zero i c e = cc
whole-replicate (suc n) zero c e = sym (ap bytes_of e) ∙ length-replicate {A = ℕ} buf_len 0
whole-replicate (suc n) (suc i) c e = whole-replicate n i c e

pub with_capacity-IsPool : (cap : ℕ) → cap ≤ 2 ^ 32 → IsPool (with_capacity cap)
unfolding with_capacity
with_capacity-IsPool cap fits = record {
  queued = λ i. ground (arith, times-indices cap 0 i (omega arith), idle_beyond cap i);
  total = omega (arith, length-indices cap 0, lent-replicate cap, length-replicate cap new_cell);
  whole = whole-replicate cap;
}
