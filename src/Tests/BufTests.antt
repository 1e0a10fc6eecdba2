-- ===== src/Tests/BufTests.antt =====
-- The pool of two buffers, and a lent buffer that holds the bytes 20 and 30.
use lio.Base.{
  ℕ, suc, ◌+◌, ◌≡◌, refl, ◌⊎◌, true, false, none, some, [], ◌∷◌, arith, ◌==◌, if◌then◌else◌,
  get_elem?, ret,
}
use lio.Buf.{BufCell, BufStore, with_capacity, new_cell, acquired, try_get, available, capacity}
use lio.Buf.{get, get_timeout, has, waits, drop_lent}
use lio.Buf.Waiting.{get-drop_lent}
use lio.Buf.Pool.{times, IsPool, lent, with_capacity-IsPool}
use lio.Buf.Lending.{try_get_lem}
use lio.Buf.Lifetime.{Reach-with_capacity-IsPool, Reach, here, next, gets, takes}

abbrev lent_one : BufStore
lent_one = record { buffers = acquired new_cell ∷ new_cell ∷ []; free = 1 ∷ [] }

lent_one_Reach : Reach (with_capacity 2) lent_one (0 ∷ [])
unfolding try_get with_capacity
lent_one_Reach = next here (takes 0 refl)

Reach-with_capacity-IsPool_example :
    IsPool lent_one × (times 0 lent_one.free + times 0 (0 ∷ []) ≡ 1)
Reach-with_capacity-IsPool_example =
    Reach-with_capacity-IsPool 2 lent_one (0 ∷ []) 0 (omega arith) lent_one_Reach

try_get_lem_example :
    ((lent (with_capacity 2).buffers ≡ capacity (with_capacity 2))
      × (try_get (with_capacity 2) ≡ ret (none, with_capacity 2)))
    ⊎ ((i : ℕ) × (c : BufCell) × (s' : BufStore) × (try_get (with_capacity 2) ≡ ret (some i, s'))
        × IsPool s'
        × (get_elem? (with_capacity 2).buffers i ≡ some c)
        × (c.in_use ≡ false)
        × (available (with_capacity 2) ≡ suc (available s'))
        × (get_elem? s'.buffers 1
            ≡ (if i == 1 then some (acquired c) else get_elem? (with_capacity 2).buffers 1)))
try_get_lem_example = try_get_lem (with_capacity 2) 1 (with_capacity-IsPool 2 (omega arith))

abbrev lent_both : BufStore
lent_both = record { buffers = acquired new_cell ∷ acquired new_cell ∷ []; free = [] }

lent_both_Reach : Reach (with_capacity 2) lent_both (1 ∷ 0 ∷ [])
unfolding get
lent_both_Reach = next lent_one_Reach (gets 1 refl)

-- The second of two lent buffers is returned, and seen is the first.
get-drop_lent_example :
    (s₁ s₂ : BufStore) × (get lent_both ≡ ret (waits, lent_both))
    × (get_timeout lent_both lent_both ≡ ret (none, lent_both))
    × (drop_lent true lent_both 1 ≡ ret s₁)
    × (get s₁ ≡ ret (has 1, s₂))
    × (get_timeout lent_both s₁ ≡ ret (some 1, s₂))
    × IsPool s₂
    × (lent s₂.buffers ≡ capacity s₂)
    × (get_elem? s₂.buffers 0 ≡ some (acquired new_cell))
unfolding capacity
get-drop_lent_example =
    get-drop_lent true lent_both 1 0 (acquired new_cell)
      (Reach-with_capacity-IsPool 2 lent_both (1 ∷ 0 ∷ []) 0 (omega arith) lent_both_Reach).0 refl
      refl refl

lent_one-IsPool : IsPool lent_one
lent_one-IsPool = (Reach-with_capacity-IsPool 2 lent_one (0 ∷ []) 0 (omega arith) lent_one_Reach).0

-- The cell is smaller than the program's, so that it can be written out.
abbrev filled_cell : BufCell
filled_cell = record { buf = 10 ∷ 20 ∷ 30 ∷ 0 ∷ []; len = 3; pos = 1; in_use = true }

abbrev filled : BufStore
filled = record { buffers = filled_cell ∷ []; free = [] }
