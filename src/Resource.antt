-- ===== src/Resource.antt =====
-- lio/src/api/resource.rs: descriptors that are closed when their last owner goes.
-- The heap holds the `Arc<Owned>` cells in the order of their making: the descriptor, and how many
-- `Resource`s own it. A `Resource` is the place of its cell. System calls are listed, not answered.
pub mod Owners
pub mod Closing
use lio.Base.{
  ℕ, zero, suc, ◌==◌, Bool, Option, none, some, List, [], ◌∷◌, ◌++◌, ℤ, is_neg, Outcome, ret, panic,
  ◌>>=◌, expect, get_elem?, set, length, if◌then◌else◌,
}
use lio.Op.{RawFd}
use lio.Syscall.{Syscall}
use lio.Syscall

pub record Owned : Type 0 where
  pub inner : RawFd
  pub strong : ℕ

abbrev pub Heap : Type 0
Heap = List Owned

abbrev pub Resource : Type 0
Resource = ℕ

unfoldable pub from_raw_fd : RawFd → Heap → Resource × Heap
from_raw_fd fd h = (length h, h ++ (record { inner = fd; strong = 1 }) ∷ [])

-- The derived `Clone`. A cell without owners has been freed.
unfoldable pub clone : Resource → Heap → Outcome (Resource × Heap)
clone r h = expect (get_elem? h r) >>= λ cell. elim cell.strong [
  | zero ↦ panic
  | suc n ↦ ret (r, set h r (record cell { strong = suc (suc n) }))
]

-- `Owned::drop`, whose result is ignored.
abbrev pub drop_owned : Owned → List Syscall
drop_owned cell = Syscall.close cell.inner ∷ []

unfoldable pub drop : Resource → Heap → Outcome (List Syscall × Heap)
drop r h = expect (get_elem? h r) >>= λ cell. elim cell.strong [
  | zero ↦ panic
  | suc zero ↦ ret (drop_owned cell, set h r (record cell { strong = 0 }))
  | suc (suc n) ↦ ret ([], set h r (record cell { strong = suc n }))
]

unfoldable pub count : Resource → Heap → Outcome ℕ
count r h = expect (get_elem? h r) >>= λ cell. ret cell.strong

unfoldable pub will_close : Resource → Heap → Outcome Bool
unfolding count
will_close r h = count r h >>= λ n. ret (n == 1)

-- `Resource::stdin`, `stdout` and `stderr` on the descriptor that `dup` returns, which panic without one.
unfoldable pub duplicated : RawFd → Heap → Outcome (Resource × Heap)
unfolding from_raw_fd
duplicated fd h = if is_neg fd then panic else ret (from_raw_fd fd h)
