-- ===== src/Tests/ResourceTests.antt =====
-- A descriptor with two owners, one of which goes.
use lio.Base.{ℕ, ◌≡◌, refl, false, [], ◌∷◌, pos, arith, ret}
use lio.Syscall
use lio.Resource.{Heap, from_raw_fd, clone, drop, count, will_close}
use lio.Resource.Owners.{World, Reach, begun, made, cloned, dropped, calls_for}
use lio.Resource.Closing.{closed_without_owners}

abbrev owned_by : ℕ → Heap
owned_by n = (record { inner = pos 3; strong = n }) ∷ []

abbrev one_owner : World
one_owner = record { heap = owned_by 1; owners = 0 ∷ []; calls = [] }

abbrev two_owners : World
two_owners = record { heap = owned_by 2; owners = 0 ∷ 0 ∷ []; calls = [] }

abbrev one_left : World
one_left = record { heap = owned_by 1; owners = 0 ∷ []; calls = (0, []) ∷ [] }

one_owner-Reach : Reach one_owner
unfolding from_raw_fd
one_owner-Reach = made (record { heap = []; owners = []; calls = [] }) (pos 3) begun

one_left-Reach : Reach one_left
unfolding clone drop
one_left-Reach =
    dropped two_owners 0 (owned_by 1) []
      (cloned one_owner 0 0 (owned_by 2) one_owner-Reach (omega arith) refl) (omega arith) refl

abbrev closed : World
closed = record {
  heap = owned_by 0;
  owners = [];
  calls = (0, Syscall.close (pos 3) ∷ []) ∷ (0, []) ∷ [];
}

closed-Reach : Reach closed
unfolding drop
closed-Reach =
    dropped one_left 0 (owned_by 0) (Syscall.close (pos 3) ∷ []) one_left-Reach (omega arith) refl

closed_without_owners_example :
    (count 0 closed.heap ≡ ret 0)
    × (will_close 0 closed.heap ≡ ret false)
    × (calls_for 0 closed.calls ≡ Syscall.close (pos 3) ∷ [])
closed_without_owners_example =
    closed_without_owners closed 0 (record { inner = pos 3; strong = 0 }) closed-Reach refl
