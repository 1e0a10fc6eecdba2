-- ===== src/Tests/StoreTests.antt =====
-- The store of a driver with two slots, one of them in use.
use lio.Base.{
  ℕ, zero, suc, ◌≤◌, ◌<◌, ◌^◌, ◌≡◌, ◌≢◌, refl, true, false, none, some, [], ◌∷◌, arith, get_elem?,
  ◌==◌, if◌then◌else◌, ret, ◌⊎◌,
}
use lio.Store.{Slot, OpStore, u32_max, with_capacity, as_u64, from_u64, get, remove, try_insert}
use lio.Store.Invariant.{IsWf, occupied}
use lio.Store.Insertion.{filled}
use lio.Store.Handles.{try_insert-get, get-remove}
use lio.Store.Steps.{Reach, here, next, inserts}
use lio.Store.Lifetime.{removed_key_stays_dead, removed_key_not_reissued, Reach-with_capacity-IsWf}

abbrev empty_slot : Slot ℕ
empty_slot = record { generation = 0; entry = none }

abbrev freed_slot : Slot ℕ
freed_slot = record { generation = 1; entry = none }

abbrev busy : OpStore ℕ
busy = record { slots = filled 0 7 ∷ empty_slot ∷ []; free_list = []; next_slot = 1; capacity = 2 }

-- After the removal of key 0, and after one more insertion.
abbrev freed : OpStore ℕ
freed = record {
  slots = freed_slot ∷ empty_slot ∷ [];
  free_list = 0 ∷ [];
  next_slot = 1;
  capacity = 2;
}

abbrev again : OpStore ℕ
again = record { slots = filled 1 9 ∷ empty_slot ∷ []; free_list = []; next_slot = 1; capacity = 2 }

abbrev full : OpStore ℕ
full = record { slots = filled 1 9 ∷ filled 0 5 ∷ []; free_list = []; next_slot = 2; capacity = 2 }

busy_fits : (i : ℕ) (slot : Slot ℕ) → get_elem? busy.slots i ≡ some slot → slot.generation ≤ u32_max
busy_fits zero slot e = ground arith
busy_fits (suc zero) slot e = ground arith
busy_fits (suc (suc i)) slot e = cc

busy_unused : (i : ℕ) → 1 ≤ i → i < 2 → get_elem? busy.slots i ≡ some empty_slot
busy_unused zero h k = absurd (omega arith)
busy_unused (suc zero) h k = refl
busy_unused (suc (suc i)) h k = absurd (omega arith)

busy-IsWf : IsWf busy
busy-IsWf = record {
  sized = refl;
  small = omega arith;
  within = omega arith;
  fits = busy_fits;
  unused = busy_unused;
  freed = tt;
  apart = tt;
  balance = refl;
}

get-busy : get busy 0 ≡ some 7
unfolding get from_u64
get-busy = refl

remove-busy : remove busy 0 ≡ ret (true, freed)
unfolding remove from_u64
remove-busy = refl

try_insert-freed : try_insert freed 9 ≡ ret (some (2 ^ 32), again)
unfolding try_insert as_u64
try_insert-freed = refl

try_insert-again : try_insert again 5 ≡ ret (some 1, full)
unfolding try_insert as_u64
try_insert-again = refl

try_insert-full : try_insert full 4 ≡ ret (none, full)
unfolding try_insert as_u64
try_insert-full = refl

try_insert-get_example :
    ((occupied busy.slots ≡ 2) × (try_insert busy 5 ≡ ret (none, busy)))
    ⊎ ((id : ℕ) × (s' : OpStore ℕ) × (try_insert busy 5 ≡ ret (some id, s'))
        × (occupied busy.slots < 2)
        × IsWf s'
        × (id < 2 ^ 64)
        × (get busy id ≡ none)
        × (get s' 0 ≡ (if id == 0 then some 5 else get busy 0)))
try_insert-get_example = try_insert-get busy 5 0 busy-IsWf (omega arith)

get-remove_example :
    (s' : OpStore ℕ) × (remove busy 0 ≡ ret (true, s'))
    × IsWf s'
    × (get s' 1 ≡ (if 0 == 1 then none else get busy 1))
unfolding from_u64
get-remove_example =
    get-remove busy 0 1 busy-IsWf (omega arith) (omega arith) get-busy (omega arith)

freed_again : Reach freed again
freed_again = next here (inserts 9 (some (2 ^ 32)) try_insert-freed)

removed_key_stays_dead_example : (get again 0 ≡ none) × (remove again 0 ≡ ret (false, again))
removed_key_stays_dead_example =
    removed_key_stays_dead busy freed again 0 busy-IsWf get-busy remove-busy freed_again

removed_key_not_reissued_example : ◌≢◌ {A = ℕ} 1 0
removed_key_not_reissued_example =
    removed_key_not_reissued busy freed again full 0 5 busy-IsWf get-busy remove-busy freed_again
      try_insert-again

with_capacity-two : try_insert (with_capacity ℕ 2) 7 ≡ ret (some 0, busy)
unfolding try_insert as_u64 with_capacity
with_capacity-two = refl

Reach-with_capacity-IsWf_example : IsWf busy
Reach-with_capacity-IsWf_example =
    Reach-with_capacity-IsWf 2 busy (next here (inserts 7 (some 0) with_capacity-two))

busy_second :
    try_insert busy 5
    ≡ ret (some 1, record busy { slots = filled 0 7 ∷ filled 0 5 ∷ []; next_slot = 2 })
unfolding try_insert as_u64
busy_second = refl
