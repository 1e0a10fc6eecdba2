-- ===== src/Buf/Lending.antt =====
-- Lending and returning one buffer.
use lio.Base.{
  ℕ, suc, ◌+◌, ◌≡◌, refl, sym, ap, ◌∙◌, ◌⊎◌, inl, inr, Bool, true, false, Option, none, some, List,
  [], ◌∷◌, ◌++◌, arith, ◌==◌, if◌then◌else◌, get_elem?, set, length, length-append,
  length-replicate, length-set, get_elem?-set, get_elem?-set_self, get_elem?-lt, Bool-cases,
  ==_refl, ==→≡, ret,
}
use lio.Buf.{
  BufCell, BufStore, buf_len, try_get, drop_lent, zeroize, available, capacity, acquired, zeroed,
  acquire_buffer,
}
use lio.Buf.Pool.{IsPool, times, idle, lent, times-append, lent-set}

-- A write to a cell, under a queue that has changed as the cell's use has.
module _ (s : BufStore) (i : ℕ) (old new : BufCell) (at : get_elem? s.buffers i ≡ some old) where
  write-IsPool :
      (free : List ℕ)
      → IsPool s
      → length new.buf ≡ buf_len
      → ((j : ℕ) → times j free ≡ (if i == j then idle (some new) else times j s.free))
      → length free + idle (some old) ≡ length s.free + idle (some new)
      → IsPool (record { buffers = set s.buffers i new; free = free })
  write-IsPool free v fills moved size = record {
    queued = λ j.
        ground (
          arith,
          v.queued j,
          moved j,
          get_elem?-set s.buffers i j new (get_elem?-lt s.buffers i at),
        );
    total =
        ground (arith, size, v.total, lent-set s.buffers i old new at, length-set s.buffers i new);
    whole = λ j c e. ground (
      arith,
      fills,
      v.whole j c,
      e,
      get_elem?-set s.buffers i j new (get_elem?-lt s.buffers i at),
    );
  }

  -- A write that leaves the use of the cell and the size of its buffer alone.
  pub kept-IsPool :
      IsPool s
      → length new.buf ≡ length old.buf
      → new.in_use ≡ old.in_use
      → IsPool (record s { buffers = set s.buffers i new })
  kept-IsPool v fills same =
      write-IsPool s.free v (fills ∙ v.whole i old at)
        (λ j. elim (Bool-cases (i == j)) [
          | inl e ↦
              let here : times j s.free ≡ idle (some old) =
                ap (λ k. times k s.free) (sym (==→≡ i j e)) ∙ v.queued i ∙ ap idle at in
              ground (arith, here, same)
          | inr e ↦ rw e refl
        ])
        (ground (arith, same))

idle_cell :
    (o : Option BufCell) (n : ℕ)
    → idle o ≡ suc n
    → (c : BufCell) × (o ≡ some c) × (c.in_use ≡ false)
idle_cell none n e = absurd (omega (arith, e))
idle_cell (some c) n e = (c, refl, ground (arith, e))

-- What `try_get` does to a pool that keeps its invariant, seen at any buffer `j`: if all are lent
-- it gives none; otherwise it lends a buffer that was idle, with nothing in it yet, and leaves
-- every other as it was. It never panics.
pub try_get_lem :
    (s : BufStore) (j : ℕ)
    → IsPool s
    → ((lent s.buffers ≡ capacity s) × (try_get s ≡ ret (none, s)))
      ⊎ ((i : ℕ) × (c : BufCell) × (s' : BufStore) × (try_get s ≡ ret (some i, s'))
          × IsPool s'
          × (get_elem? s.buffers i ≡ some c)
          × (c.in_use ≡ false)
          × (available s ≡ suc (available s'))
          × (get_elem? s'.buffers j
              ≡ (if i == j then some (acquired c) else get_elem? s.buffers j)))
unfolding try_get acquire_buffer available capacity
try_get_lem s j v = by_queue s.free refl
  where
    by_queue :
        (free : List ℕ)
        → s.free ≡ free
        → ((lent s.buffers ≡ capacity s) × (try_get s ≡ ret (none, s)))
          ⊎ ((i : ℕ) × (c : BufCell) × (s' : BufStore) × (try_get s ≡ ret (some i, s'))
              × IsPool s'
              × (get_elem? s.buffers i ≡ some c)
              × (c.in_use ≡ false)
              × (available s ≡ suc (available s'))
              × (get_elem? s'.buffers j
                  ≡ (if i == j then some (acquired c) else get_elem? s.buffers j)))
    by_queue [] e = inl (ground (arith, e, v.total), rw e refl)
    by_queue (i ∷ rest) e =
        let once : idle (get_elem? s.buffers i) ≡ suc (times i rest) =
          sym (v.queued i) ∙ ap (times i) e ∙ rw (==_refl i) refl in
        let (c, at, unused) = idle_cell (get_elem? s.buffers i) (times i rest) once in
        inr (
          i,
          c,
          record { buffers = set s.buffers i (acquired c); free = rest },
          rw e (rw at (rw unused refl)),
          write-IsPool s i c (acquired c) at rest v (v.whole i c at)
              (λ k. elim (Bool-cases (i == k)) [
                | inl b ↦
                    let none_left : times i rest ≡ 0 = ground (arith, once, at, unused) in
                    let here : times k rest ≡ 0 =
                      ap (λ m. times m rest) (sym (==→≡ i k b)) ∙ none_left in
                    ground (arith, b, here)
                | inr b ↦ ground (arith, b, ap (times k) e)
              ])
              (ground (arith, e, unused)),
          at,
          unused,
          ap length e,
          get_elem?-set s.buffers i j (acquired c) (get_elem?-lt s.buffers i at),
        )

returned-IsPool :
    (s : BufStore) (i : ℕ) (c : BufCell)
    → IsPool s
    → get_elem? s.buffers i ≡ some c
    → c.in_use ≡ true
    → IsPool (record {
      buffers = set s.buffers i (record c { in_use = false });
      free = s.free ++ i ∷ [];
    })
returned-IsPool s i c v at used =
    write-IsPool s i c (record c { in_use = false }) at (s.free ++ i ∷ []) v (v.whole i c at)
      (λ j. elim (Bool-cases (i == j)) [
        | inl b ↦
            let gone : times i s.free ≡ 0 = ground (arith, v.queued i, at, used) in
            let here : times j s.free ≡ 0 = ap (λ m. times m s.free) (sym (==→≡ i j b)) ∙ gone in
            ground (arith, b, here, times-append j i s.free)
        | inr b ↦ ground (arith, b, times-append j i s.free)
      ])
      (ground (arith, used, length-append s.free (i ∷ [])))

-- Returning a lent buffer puts it at the end of the queue, wiped or not, and leaves every other
-- buffer as it was; the pool keeps its invariant.
pub drop_lent_lem :
    (wipes : Bool) (s : BufStore) (i j : ℕ) (c : BufCell)
    → IsPool s
    → get_elem? s.buffers i ≡ some c
    → c.in_use ≡ true
    → (s' : BufStore) × (drop_lent wipes s i ≡ ret s')
      × IsPool s'
      × (s'.free ≡ s.free ++ i ∷ [])
      × (get_elem? s'.buffers j ≡ (
          if i == j
          then some (record (if wipes then zeroed c else c) { in_use = false })
          else get_elem? s.buffers j))
unfolding drop_lent zeroize
drop_lent_lem false s i j c v at used = (
  record { buffers = set s.buffers i (record c { in_use = false }); free = s.free ++ i ∷ [] },
  rw at refl,
  returned-IsPool s i c v at used,
  refl,
  get_elem?-set s.buffers i j _ (get_elem?-lt s.buffers i at),
)
drop_lent_lem true s i j c v at used =
    let wiped : BufStore = record s { buffers = set s.buffers i (zeroed c) } in
    let lt = get_elem?-lt s.buffers i at in
    let now : get_elem? wiped.buffers i ≡ some (zeroed c) =
      get_elem?-set_self s.buffers i (zeroed c) lt in
    let v' =
      kept-IsPool s i c (zeroed c) at v (length-replicate {A = ℕ} buf_len 0 ∙ sym (v.whole i c at))
        refl in
    (
      record {
        buffers = set wiped.buffers i (record (zeroed c) { in_use = false });
        free = s.free ++ i ∷ [];
      },
      rw at (rw now refl),
      returned-IsPool wiped i (zeroed c) v' now used,
      refl,
      ground (
        arith,
        get_elem?-set wiped.buffers i j (record (zeroed c) { in_use = false })
            (get_elem?-lt wiped.buffers i now),
        get_elem?-set s.buffers i j (zeroed c) lt,
      ),
    )
