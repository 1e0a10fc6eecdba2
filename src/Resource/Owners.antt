-- ===== src/Resource/Owners.antt =====
-- What programs do with resources: a descriptor is closed once, by the last of its owners.
use lio.Base.{
  append-nil, ◌⊎◌, ℕ, zero, suc, ◌-◌, ◌≤◌, ◌≡◌, ◌≢◌, refl, sym, ap, subst, ◌∙◌, ◌==◌, ==→≡, ==_refl,
  ≢→==, true, Bool-cases, inl, inr, Option, none, some, Option-cases, List, [], ◌∷◌, ◌++◌, arith,
  ret, get_elem?, set, length, get_elem?-set, get_elem?-lt, if◌then◌else◌,
}
use lio.Op.{RawFd}
use lio.Syscall.{Syscall}
use lio.Resource.{Owned, Heap, from_raw_fd, clone, drop, drop_owned}

-- How often an owner occurs, and taking one occurrence away.
abbrev pub tally : ℕ → List ℕ → ℕ
tally r [] = 0
tally r (k ∷ ks) = if k == r then suc (tally r ks) else tally r ks

abbrev pub without : ℕ → List ℕ → List ℕ
without r [] = []
without r (k ∷ ks) = let rest = without r ks in if k == r then ks else k ∷ rest

-- The heap, the resources that the program has, and the calls made for each cell, last first.
pub record World : Type 0 where
  pub heap : Heap
  pub owners : List ℕ
  pub calls : List (ℕ × List Syscall)

-- A program makes a resource, clones one that it has, or drops one that it has.
pub data Reach : World → Type 0 where
  begun : Reach (record { heap = []; owners = []; calls = [] })
  made :
      (w : World) (fd : RawFd)
      → Reach w
      → Reach (record w {
        heap = (from_raw_fd fd w.heap).1;
        owners = (from_raw_fd fd w.heap).0 ∷ w.owners;
      })
  cloned :
      (w : World) (r r' : ℕ) (h : Heap)
      → Reach w
      → 1 ≤ tally r w.owners
      → clone r w.heap ≡ ret (r', h)
      → Reach (record w { heap = h; owners = r' ∷ w.owners })
  dropped :
      (w : World) (r : ℕ) (h : Heap) (cs : List Syscall)
      → Reach w
      → 1 ≤ tally r w.owners
      → drop r w.heap ≡ ret (cs, h)
      → Reach (record { heap = h; owners = without r w.owners; calls = (r, cs) ∷ w.calls })

-- The calls that were made for the cell `r`.
abbrev pub calls_for : ℕ → List (ℕ × List Syscall) → List Syscall
calls_for r [] = []
calls_for r (c ∷ cs) = let rest = calls_for r cs in if c.0 == r then c.1 ++ rest else rest

-- What holds of the cell `r`: its count is the number of its owners, and it is closed once it has none.
abbrev pub Settled : World → ℕ → Option Owned → Type 0
Settled w r none = (tally r w.owners ≡ 0) × (calls_for r w.calls ≡ [])
Settled w r (some cell) =
    (cell.strong ≡ tally r w.owners)
    × (calls_for r w.calls ≡ (if tally r w.owners == 0 then drop_owned cell else []))

tally-without :
    (k r : ℕ) (ks : List ℕ)
    → tally r (without k ks) ≡ (if k == r then tally r ks - 1 else tally r ks)
tally-without k r [] = ground arith
tally-without k r (i ∷ ks) = elim (Bool-cases (i == k)) [
  | inl e ↦
      let same = ==→≡ i k e in
      elim (Bool-cases (k == r)) [
        | inl y ↦ ground (arith, same, y)
        | inr n ↦ ground (arith, same, n)
      ]
  | inr e ↦ ground (arith, e, tally-without k r ks)
]

pub none_or_more : (n : ℕ) → (n ≡ 0) ⊎ ((m : ℕ) × (n ≡ suc m))
none_or_more zero = inl refl
none_or_more (suc m) = inr (m, refl)

clone-some :
    (r r' : ℕ) (h h' : Heap)
    → clone r h ≡ ret (r', h')
    → (cell : Owned) × (n : ℕ) × (get_elem? h r ≡ some cell)
      × (cell.strong ≡ suc n)
      × (r' ≡ r)
      × (h' ≡ set h r (record cell { strong = suc (suc n) }))
unfolding clone
clone-some r r' h h' e = elim (Option-cases (get_elem? h r)) [
  | inl missing ↦ absurd (ground (arith, e, missing))
  | inr (cell, at) ↦ elim (none_or_more cell.strong) [
    | inl freed ↦ absurd (ground (arith, e, at, freed))
    | inr (n, some_left) ↦
        (cell, n, at, some_left, ground (arith, e, at, some_left), ground (arith, e, at, some_left))
  ]
]

drop-some :
    (r : ℕ) (h h' : Heap) (cs : List Syscall)
    → drop r h ≡ ret (cs, h')
    → (cell : Owned) × (n : ℕ) × (get_elem? h r ≡ some cell)
      × (cell.strong ≡ suc n)
      × (h' ≡ set h r (record cell { strong = n }))
      × (cs ≡ (if n == 0 then drop_owned cell else []))
unfolding drop
drop-some r h h' cs e = elim (Option-cases (get_elem? h r)) [
  | inl missing ↦ absurd (ground (arith, e, missing))
  | inr (cell, at) ↦ elim (none_or_more cell.strong) [
    | inl freed ↦ absurd (ground (arith, e, at, freed))
    | inr (zero, last) ↦
        (cell, 0, at, last, ground (arith, e, at, last), ground (arith, e, at, last))
    | inr (suc n, more) ↦
        (cell, suc n, at, more, ground (arith, e, at, more), ground (arith, e, at, more))
  ]
]

get_elem?-grown :
    (h : Heap) (cell : Owned) (r : ℕ)
    → get_elem? (h ++ cell ∷ []) r ≡ (if r == length h then some cell else get_elem? h r)
get_elem?-grown [] cell zero = refl
get_elem?-grown [] cell (suc r) = ground arith
get_elem?-grown (c ∷ h) cell zero = ground arith
get_elem?-grown (c ∷ h) cell (suc r) = ground (arith, get_elem?-grown h cell r)

get_elem?-end : (h : Heap) → get_elem? h (length h) ≡ none
get_elem?-end [] = refl
get_elem?-end (c ∷ h) = get_elem?-end h

-- A cell whose owners and calls stay as they are.
Settled-same :
    (w w' : World) (r : ℕ) (o : Option Owned)
    → tally r w'.owners ≡ tally r w.owners
    → calls_for r w'.calls ≡ calls_for r w.calls
    → Settled w r o
    → Settled w' r o
Settled-same w w' r none e f h = (e ∙ h.0, f ∙ h.1)
Settled-same w w' r (some cell) e f h = (h.0 ∙ sym e, ground (arith, e, f, h.1))

-- A step that changes one cell.
Settled-step :
    (w w' : World) (k r : ℕ) (old cell : Owned)
    → get_elem? w.heap k ≡ some old
    → w'.heap ≡ set w.heap k cell
    → Settled w' k (some cell)
    → (k ≢ r
        → (tally r w'.owners ≡ tally r w.owners) × (calls_for r w'.calls ≡ calls_for r w.calls))
    → Settled w r (get_elem? w.heap r)
    → Settled w' r (get_elem? w'.heap r)
Settled-step w w' k r old cell at e here there h =
    let now : get_elem? w'.heap r ≡ (if k == r then some cell else get_elem? w.heap r) =
      ap (λ l. get_elem? l r) e ∙ get_elem?-set w.heap k r cell (get_elem?-lt w.heap k at) in
    elim (Bool-cases (k == r)) [
      | inl y ↦
          let same = ==→≡ k r y in
          let found : get_elem? w'.heap r ≡ some cell = now ∙ rw y refl in
          subst (Settled w' r) (sym found) (subst (λ i. Settled w' i (some cell)) same here)
      | inr n ↦
          let (p, q) = there (λ s. absurd (ground (arith, n, s, ==_refl r))) in
          let found : get_elem? w'.heap r ≡ get_elem? w.heap r = now ∙ rw n refl in
          subst (Settled w' r) (sym found) (Settled-same w w' r (get_elem? w.heap r) p q h)
    ]

pub Reach-Settled : (w : World) → Reach w → (r : ℕ) → Settled w r (get_elem? w.heap r)
unfolding from_raw_fd
Reach-Settled w begun r = (refl, refl)
Reach-Settled w (made old fd h) r =
    let before = Reach-Settled old h r in
    let now = get_elem?-grown old.heap (record { inner = fd; strong = 1 }) r in
    elim (Bool-cases (r == length old.heap)) [
      | inl y ↦
          let gone : get_elem? old.heap r ≡ none =
            ap (get_elem? old.heap) (==→≡ r (length old.heap) y) ∙ get_elem?-end old.heap in
          let ih = subst (Settled old r) gone before in
          let found : get_elem? w.heap r ≡ some (record { inner = fd; strong = 1 }) =
            now ∙ rw y refl in
          let mine : (length old.heap == r) ≡ true = ground (arith, y) in
          subst (Settled w r) (sym found)
            (ground (arith, mine, ih.0), ground (arith, mine, ih.0, ih.1))
      | inr n ↦
          let found : get_elem? w.heap r ≡ get_elem? old.heap r = now ∙ rw n refl in
          subst (Settled w r) (sym found)
            (Settled-same old w r (get_elem? old.heap r) (ground (arith, n)) refl before)
    ]
Reach-Settled w (cloned old k k' heap h owned ran) r =
    let (cell, n, at, strong, same, heap_is) = clone-some k k' old.heap heap ran in
    let ih = subst (Settled old k) at (Reach-Settled old h k) in
    Settled-step old w k r cell (record cell { strong = suc (suc n) }) at heap_is
      (
        ground (arith, same, ih.0, strong, ==_refl k),
        ground (arith, same, ih.0, ih.1, strong, ==_refl k),
      )
      (λ ne. (ground (arith, same, ne, ==→≡ k' r), refl)) (Reach-Settled old h r)
Reach-Settled w (dropped old k heap cs h owned ran) r =
    let (cell, n, at, strong, heap_is, closes) = drop-some k old.heap heap cs ran in
    let ih = subst (Settled old k) at (Reach-Settled old h k) in
    Settled-step old w k r cell (record cell { strong = n }) at heap_is
      (
        ground (arith, ih.0, strong, tally-without k k old.owners, ==_refl k),
        ground (
          arith,
          ih.0,
          ih.1,
          strong,
          tally-without k k old.owners,
          ==_refl k,
          closes,
          append-nil cs,
        ),
      )
      (λ ne. (tally-without k r old.owners ∙ rw (≢→== k r ne) refl, rw (≢→== k r ne) refl))
      (Reach-Settled old h r)
