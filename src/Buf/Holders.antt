-- ===== src/Buf/Holders.antt =====
-- Who has which buffer of a pool.
use lio.Base.{
  ℕ, suc, ◌+◌, ◌≤◌, ◌^◌, ◌≡◌, refl, sym, ap, ◌∙◌, ltb, ◌-◌, subst, inl, inr, ◌⊎◌, Bool, true, false,
  Option, none, some, List, [], ◌∷◌, arith, get_elem?, get_elem?-set, get_elem?-lt,
  length-replicate, Bool-cases, ret, ◌==◌, ==→≡, ==_refl, if◌then◌else◌, length,
}
use lio.Buf.{BufCell, BufStore, try_get, get, get_timeout, has, waits, acquire_buffer, acquired}
use lio.Buf.Pool.{IsPool, times, busy}
use lio.Buf.Lending.{kept-IsPool, try_get_lem}

-- The holders without one that has the buffer `i`.
abbrev pub without : ℕ → List ℕ → List ℕ
without i [] = []
without i (k ∷ ks) = if k == i then ks else k ∷ without i ks

-- Every buffer in use has one holder, and no other has any.
pub record IsShared (s : BufStore) (held : List ℕ) : Type 0 where
  pub pool : IsPool s
  pub owned : (j : ℕ) → times j held ≡ busy (get_elem? s.buffers j)

pub times-without :
    (i j n : ℕ) (held : List ℕ)
    → times i held ≡ suc n
    → times j (without i held) + (if i == j then 1 else 0) ≡ times j held
times-without i j n [] e = cc
times-without i j n (k ∷ ks) e = elim (Bool-cases (k == i)) [
  | inl y ↦
      let same : (k == j) ≡ (i == j) = ap (λ m. m == j) (==→≡ k i y) in ground (arith, y, same)
  | inr m ↦ let rest = times-without i j n ks (ground (arith, e, m)) in ground (arith, m, rest)
]

pub held_cell :
    (o : Option BufCell) (n : ℕ) → busy o ≡ suc n → (c : BufCell) × (o ≡ some c) × (c.in_use ≡ true)
held_cell none n e = absurd (omega (arith, e))
held_cell (some c) n e = (c, refl, ground (arith, e))

pub taken-IsShared :
    (s t : BufStore) (held : List ℕ) (i : ℕ)
    → IsShared s held
    → try_get s ≡ ret (some i, t)
    → IsShared t (i ∷ held)
taken-IsShared s t held i v run = record {
  pool = elim (try_get_lem s 0 v.pool) [
    | inl (full, same) ↦ absurd (ground (arith, run, same))
    | inr (k, c, s', lends, v', at, unused, size, view) ↦
        subst IsPool (ground (arith, run, lends)) v'
  ];
  owned = λ j. elim (try_get_lem s j v.pool) [
    | inl (full, same) ↦ absurd (ground (arith, run, same))
    | inr (k, c, s', lends, v', at, unused, size, view) ↦
        let one : k ≡ i = ground (arith, run, lends) in
        let made : s' ≡ t = ground (arith, run, lends) in
        let seen : get_elem? t.buffers j
            ≡ (if k == j then some (acquired c) else get_elem? s.buffers j) =
          ap (λ p. get_elem? p.buffers j) (sym made) ∙ view in
        let index : (k == j) ≡ (i == j) = ap (λ m. m == j) one in
        elim (Bool-cases (i == j)) [
          | inl y ↦
              let was : times j held ≡ 0 =
                ap (λ m. times m held) (sym (==→≡ i j y) ∙ sym one)
                ∙ v.owned k
                ∙ ap busy at
                ∙ rw unused refl in
              ground (arith, y, index, seen, was)
          | inr n ↦ ground (arith, n, index, seen, v.owned j)
        ]
  ];
}

pub same-IsShared :
    (s t : BufStore) (held : List ℕ) → IsShared s held → try_get s ≡ ret (none, t) → IsShared t held
same-IsShared s t held v run = elim (try_get_lem s 0 v.pool) [
  | inl (full, same) ↦ subst (λ p. IsShared p held) (ground (arith, run, same)) v
  | inr (k, c, s', lends, v', at, unused, size, view) ↦ absurd (ground (arith, run, lends))
]

-- A write to a buffer that is held, which keeps its use and its size.
pub written-IsShared :
    (s : BufStore) (held : List ℕ) (i : ℕ) (old new : BufCell)
    → IsShared s held
    → get_elem? s.buffers i ≡ some old
    → length new.buf ≡ length old.buf
    → new.in_use ≡ old.in_use
    → IsShared (record s { buffers = lio.Base.set s.buffers i new }) held
written-IsShared s held i old new v at size used = record {
  pool = kept-IsPool s i old new at v.pool size used;
  owned = λ j. elim (Bool-cases (i == j)) [
    | inl y ↦
        let here_at : get_elem? s.buffers j ≡ some old =
          ap (get_elem? s.buffers) (sym (==→≡ i j y)) ∙ at in
        ground (
          arith,
          y,
          used,
          here_at,
          v.owned j,
          get_elem?-set s.buffers i j new (get_elem?-lt s.buffers i at),
        )
    | inr n ↦
        ground (arith, n, v.owned j, get_elem?-set s.buffers i j new (get_elem?-lt s.buffers i at))
  ];
}

pub try_get-get :
    (s t : BufStore) (found : Option ℕ)
    → get s ≡ ret (elim found [ none ↦ waits | some i ↦ has i ], t)
    → try_get s ≡ ret (found, t)
unfolding try_get get acquire_buffer
try_get-get s t found run = by_queue s.free refl found run
  where
    by_queue :
        (free : List ℕ)
        → s.free ≡ free
        → (found : Option ℕ) → get s ≡ ret (elim found [ none ↦ waits | some i ↦ has i ], t)
        → try_get s ≡ ret (found, t)
    by_queue [] e none run = ground (arith, e, run)
    by_queue [] e (some i) run = absurd (ground (arith, e, run))
    by_queue (k ∷ ks) e none run = absurd (ground (arith, e, run))
    by_queue (k ∷ ks) e (some i) run = ground (arith, e, run)

pub try_get-get_timeout :
    (early s : BufStore) → (early ≡ s) ⊎ (early.free ≡ []) → get_timeout early s ≡ try_get s
unfolding try_get get_timeout acquire_buffer
try_get-get_timeout early s (inl e) = ap (λ p. get_timeout p s) e ∙ by_queue s.free refl
  where
    by_queue : (free : List ℕ) → s.free ≡ free → get_timeout s s ≡ try_get s
    by_queue [] e = ground (arith, e)
    by_queue (k ∷ ks) e = ground (arith, e)
try_get-get_timeout early s (inr e) = ground (arith, e)
