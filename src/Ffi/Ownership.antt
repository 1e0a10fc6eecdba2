-- ===== src/Ffi/Ownership.antt =====
-- The descriptors that a C program lends to an operation stay its own.
use lio.Base.{
  append-nil, ℕ, zero, suc, ◌≡◌, refl, ap, sym, ◌∙◌, some, List, [], ◌∷◌, ◌++◌, arith, ℤ, pos,
  negsuc, ret, Outcome, get_elem?, set, length, get_elem?-set_self, Bool, get_elem?-lt,
}
use lio.Op.{RawFd}
use lio.Syscall.{Syscall}
use lio.Net.{SockaddrStorage, inet, inet6, unsupported, libc_socketaddr_into_std}
use lio.Poller.{as_i32}
use lio.Resource.{Resource, Owned, Heap, from_raw_fd, clone, drop, count}
use lio.Typed.Sockets.{Accept}
use lio.Ffi.{Task, socket, accept, Closure, Call, Outside, answer, new_resource, release, complete}
use lio.Ffi.Calling.{lend}

-- What is closed of a new connection whose peer has an address of another family.
abbrev pub closed_peer : Bool → SockaddrStorage → ℤ → List Syscall
closed_peer little (unsupported f) (pos fd) = Syscall.close (as_i32 fd) ∷ []
closed_peer little written res = []

abbrev owned : ℕ → Owned
owned n = record { inner = as_i32 n; strong = 1 }

error_closes :
    (little : Bool) (written : SockaddrStorage) (n : ℕ) → closed_peer little written (negsuc n) ≡ []
error_closes little (inet p a) n = refl
error_closes little (inet6 p a f s) n = refl
error_closes little (unsupported f) n = refl

abbrev pub refused : Outside → Task → ℤ → List Syscall
refused out (accept t) res = closed_peer out.little out.written res
refused out task res = []

-- A cell that is there stays as it is when another is made after it, and when that one is changed.
grown_keeps :
    (h : Heap) (r : ℕ) (cell new : Owned)
    → get_elem? h r ≡ some cell
    → get_elem? (h ++ new ∷ []) r ≡ some cell
grown_keeps [] r cell new at = cc
grown_keeps (c ∷ h) zero cell new at = at
grown_keeps (c ∷ h) (suc r) cell new at = grown_keeps h r cell new at

set_end_keeps :
    (h : Heap) (r : ℕ) (cell new new' : Owned)
    → get_elem? h r ≡ some cell
    → get_elem? (set (h ++ new ∷ []) (length h) new') r ≡ some cell
set_end_keeps [] r cell new new' at = cc
set_end_keeps (c ∷ h) zero cell new new' at = at
set_end_keeps (c ∷ h) (suc r) cell new new' at = set_end_keeps h r cell new new' at

end_found : (h : Heap) (new : Owned) → get_elem? (h ++ new ∷ []) (length h) ≡ some new
end_found [] new = refl
end_found (c ∷ h) new = end_found h new

set_end : (h : Heap) (new new' : Owned) → set (h ++ new ∷ []) (length h) new' ≡ h ++ new' ∷ []
set_end [] new new' = refl
set_end (c ∷ h) new new' = ap (λ l. c ∷ l) (set_end h new new')

new_peer :
    (out : Outside) (t : Accept) (n : ℕ) (h : Heap) (r : ℕ) (cell : Owned) (w : SockaddrStorage)
    → out.written ≡ w
    → get_elem? h r ≡ some cell
    → (h' : Heap) × (new_resource out (accept t) (pos n) h
        ≡ ret (closed_peer out.little w (pos n), h'))
      × (get_elem? h' r ≡ some cell)
unfolding new_resource from_raw_fd drop libc_socketaddr_into_std
new_peer out t n h r cell (inet p a) e at =
    (h ++ owned n ∷ [], ground (arith, e), grown_keeps h r cell _ at)
new_peer out t n h r cell (inet6 p a f s) e at =
    (h ++ owned n ∷ [], ground (arith, e), grown_keeps h r cell _ at)
new_peer out t n h r cell (unsupported f) e at = (
  set (h ++ owned n ∷ []) (length h) (record { inner = as_i32 n; strong = 0 }),
  ground (arith, e, end_found h (owned n)),
  set_end_keeps h r cell _ _ at,
)

new_resource-refused :
    (out : Outside) (task : Task) (res : ℤ) (h : Heap) (r : ℕ) (cell : Owned)
    → get_elem? h r ≡ some cell
    → (h' : Heap) × (new_resource out task res h ≡ ret (refused out task res, h'))
      × (get_elem? h' r ≡ some cell)
unfolding new_resource from_raw_fd
new_resource-refused out (socket t) (pos n) h r cell at =
    (h ++ owned n ∷ [], refl, grown_keeps h r cell _ at)
new_resource-refused out (socket t) (negsuc n) h r cell at = (h, refl, at)
new_resource-refused out (accept t) (pos n) h r cell at =
    new_peer out t n h r cell out.written refl at
new_resource-refused out (accept t) (negsuc n) h r cell at =
    (h, ap (λ l. ret (l, h)) (sym (error_closes out.little out.written n)), at)
new_resource-refused out task res h r cell at = (h, refl, at)

-- Completing an operation takes one owner of several away from the cell of its resource.
complete-owned :
    (out : Outside) (c : Closure) (res : ℤ) (h : Heap) (r n : ℕ) (fd : RawFd) (call : Call)
    → get_elem? h r ≡ some (record { inner = fd; strong = suc (suc n) })
    → c.resource ≡ some r
    → answer out c.task c.callback res ≡ ret call
    → (h' : Heap) × (complete out c res h ≡ ret (call, refused out c.task res, h'))
      × (get_elem? h' r ≡ some (record { inner = fd; strong = suc n }))
unfolding complete release drop
complete-owned out c res h r n fd call at is answered =
    let (h₁, made, kept) = new_resource-refused out c.task res h r _ at in
    let left : Owned = record { inner = fd; strong = suc n } in
    (
      set h₁ r left,
      rw answered
          (rw made (rw is (rw kept (ap (λ l. ret (call, l, set h₁ r left)) (append-nil _))))),
      get_elem?-set_self h₁ r left (get_elem?-lt h₁ r kept),
    )

drop-owned :
    (h : Heap) (r n : ℕ) (fd : RawFd)
    → get_elem? h r ≡ some (record { inner = fd; strong = suc (suc n) })
    → (h' : Heap) × (drop r h ≡ ret ([], h'))
      × (get_elem? h' r ≡ some (record { inner = fd; strong = suc n }))
unfolding drop
drop-owned h r n fd at =
    let left : Owned = record { inner = fd; strong = suc n } in
    (set h r left, rw at refl, get_elem?-set_self h r left (get_elem?-lt h r at))

lend_lem :
    (fd : RawFd) (h : Heap)
    → lend fd h ≡ ret (length h, h ++ (record { inner = fd; strong = 3 }) ∷ [])
unfolding lend from_raw_fd clone
lend_lem fd h =
    let cell : ℕ → Owned = λ n. record { inner = fd; strong = n } in
    rw (end_found h (cell 1)) (
      rw (set_end h (cell 1) (cell 2)) (
        rw (end_found h (cell 2))
          (rw (set_end h (cell 1) (cell 2)) (rw (set_end h (cell 2) (cell 3)) refl))))

lend-owned :
    (fd : RawFd) (h h₁ : Heap) (r : ℕ)
    → lend fd h ≡ ret (r, h₁)
    → get_elem? h₁ r ≡ some (record { inner = fd; strong = 3 })
lend-owned fd h h₁ r e =
    let made : ◌≡◌ {A = Outcome (Resource × Heap)}
        (ret (length h, h ++ (record { inner = fd; strong = 3 }) ∷ [])) (ret (r, h₁)) =
      sym (lend_lem fd h) ∙ e in
    let there : get_elem? (h ++ (record { inner = fd; strong = 3 }) ∷ []) (length h)
        ≡ some (record { inner = fd; strong = 3 }) =
      end_found h _ in
    cc

-- A descriptor that is lent to an operation stays open, whether the backend drops its clone before
-- or after the completion: completing the operation calls its callback and closes nothing, but for a
-- new connection from an address of another family, and one owner is left that nobody drops.
pub lent_stays_open :
    (out : Outside) (c : Closure) (res : ℤ) (fd : RawFd) (h h₁ : Heap) (r : ℕ) (call : Call)
    → lend fd h ≡ ret (r, h₁)
    → c.resource ≡ some r
    → answer out c.task c.callback res ≡ ret call
    → (h₂ h₃ k₂ k₃ : Heap) × (complete out c res h₁ ≡ ret (call, refused out c.task res, h₂))
      × (drop r h₂ ≡ ret ([], h₃))
      × (count r h₃ ≡ ret 1)
      × (drop r h₁ ≡ ret ([], k₂))
      × (complete out c res k₂ ≡ ret (call, refused out c.task res, k₃))
      × (count r k₃ ≡ ret 1)
unfolding count
lent_stays_open out c res fd h h₁ r call lent is answered =
    let at = lend-owned fd h h₁ r lent in
    let (h₂, completed, at₂) = complete-owned out c res h₁ r 1 fd call at is answered in
    let (h₃, dropped, at₃) = drop-owned h₂ r 0 fd at₂ in
    let (k₂, dropped', bt₂) = drop-owned h₁ r 1 fd at in
    let (k₃, completed', bt₃) = complete-owned out c res k₂ r 0 fd call bt₂ is answered in
    (h₂, h₃, k₂, k₃, completed, dropped, rw at₃ refl, dropped', completed', rw bt₃ refl)
