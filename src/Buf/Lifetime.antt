-- ===== src/Buf/Lifetime.antt =====
-- What becomes of a pool in the hands of its users: no buffer is lost or lent twice.
use lio.Base.{
  ℕ, suc, ◌+◌, ◌≤◌, ◌^◌, ◌≡◌, refl, sym, ap, ◌∙◌, ltb, ◌-◌, subst, inl, inr, ◌⊎◌, Bool, true,
  Option, none, some, List, [], ◌∷◌, arith, get_elem?, length-replicate, Bool-cases, ret, ◌==◌,
  ==→≡,
}
use lio.Buf.{
  BufCell, BufStore, with_capacity, buf_len, try_get, get, get_timeout, has, waits, zeroed, zeroize,
  drop_lent, after, advance,
}
use lio.Buf.Pool.{IsPool, with_capacity-IsPool, times, idle, busy, present, busy-replicate}
use lio.Buf.Lending.{drop_lent_lem}
use lio.Buf.Holders.{
  without, IsShared, taken-IsShared, same-IsShared, written-IsShared, try_get-get,
  try_get-get_timeout, times-without, held_cell,
}

-- What the users may do with the pool, of which `held` lists who has which buffer: take one, at once or
-- waiting, also in vain; and, with one that they have, record how much was transferred, consume some
-- of it, wipe it, and return it. A wait with a limit may have started on another pool, if it was empty.
-- A call that panics makes no step.
pub data Step (s : BufStore) (held : List ℕ) (t : BufStore) : List ℕ → Type 0 where
  takes : (i : ℕ) → try_get s ≡ ret (some i, t) → Step s held t (i ∷ held)
  misses : try_get s ≡ ret (none, t) → Step s held t held
  gets : (i : ℕ) → get s ≡ ret (has i, t) → Step s held t (i ∷ held)
  keeps_waiting : get s ≡ ret (waits, t) → Step s held t held
  gets_in_time :
      (early : BufStore) (i : ℕ)
      → (early ≡ s) ⊎ (early.free ≡ [])
      → get_timeout early s ≡ ret (some i, t)
      → Step s held t (i ∷ held)
  times_out :
      (early : BufStore)
      → (early ≡ s) ⊎ (early.free ≡ [])
      → get_timeout early s ≡ ret (none, t)
      → Step s held t held
  fills : (i bw n : ℕ) → times i held ≡ suc n → after s i bw ≡ ret t → Step s held t held
  consumes : (i cnt n : ℕ) → times i held ≡ suc n → advance s i cnt ≡ ret t → Step s held t held
  wipes : (i n : ℕ) → times i held ≡ suc n → zeroize s i ≡ ret t → Step s held t held
  returns :
      (wiping : Bool) (i n : ℕ)
      → times i held ≡ suc n
      → drop_lent wiping s i ≡ ret t
      → Step s held t (without i held)

pub data Reach (s : BufStore) : BufStore → List ℕ → Type 0 where
  here : Reach s s []
  next :
      {t u : BufStore} {held held' : List ℕ}
      → Reach s t held
      → Step t held u held'
      → Reach s u held'

Step-IsShared :
    (s t : BufStore) (held held' : List ℕ)
    → Step s held t held'
    → IsShared s held
    → IsShared t held'
unfolding after advance zeroize
Step-IsShared s t held _ (takes i run) v = taken-IsShared s t held i v run
Step-IsShared s t held _ (misses run) v = same-IsShared s t held v run
Step-IsShared s t held _ (gets i run) v = taken-IsShared s t held i v (try_get-get s t (some i) run)
Step-IsShared s t held _ (keeps_waiting run) v = same-IsShared s t held v (try_get-get s t none run)
Step-IsShared s t held _ (gets_in_time early i how run) v =
    taken-IsShared s t held i v (sym (try_get-get_timeout early s how) ∙ run)
Step-IsShared s t held _ (times_out early how run) v =
    same-IsShared s t held v (sym (try_get-get_timeout early s how) ∙ run)
Step-IsShared s t held _ (fills i bw n mine run) v =
    let (c, at, used) = held_cell _ n (sym (v.owned i) ∙ mine) in
    elim (Bool-cases (ltb buf_len bw)) [
      | inl b ↦ absurd (ground (arith, at, b, run))
      | inr b ↦
          subst (λ p. IsShared p held) (ground (arith, at, b, run))
            (written-IsShared s held i c (record c { len = bw }) v at refl refl)
    ]
Step-IsShared s t held _ (consumes i cnt n mine run) v =
    let (c, at, used) = held_cell _ n (sym (v.owned i) ∙ mine) in
    elim (Bool-cases (ltb c.len c.pos)) [
      | inl b ↦ absurd (ground (arith, at, b, run))
      | inr b ↦ elim (Bool-cases (ltb (c.len - c.pos) cnt)) [
        | inl b' ↦ absurd (ground (arith, at, b, b', run))
        | inr b' ↦
            subst (λ p. IsShared p held) (ground (arith, at, b, b', run))
              (written-IsShared s held i c (record c { pos = c.pos + cnt }) v at refl refl)
      ]
    ]
Step-IsShared s t held _ (wipes i n mine run) v =
    let (c, at, used) = held_cell _ n (sym (v.owned i) ∙ mine) in
    subst (λ p. IsShared p held) (ground (arith, at, run))
      (written-IsShared s held i c (zeroed c) v at
        (length-replicate {A = ℕ} buf_len 0 ∙ sym (v.pool.whole i c at)) refl)
Step-IsShared s t held _ (returns wiping i n mine run) v =
    let (c, at, used) = held_cell _ n (sym (v.owned i) ∙ mine) in
    record {
      pool =
          let (s', back, v', queue, view) = drop_lent_lem wiping s i 0 c v.pool at used in
          subst IsPool (ground (arith, run, back)) v';
      owned = λ j.
          let (s', back, v', queue, view) = drop_lent_lem wiping s i j c v.pool at used in
          let made : s' ≡ t = ground (arith, run, back) in
          let seen = ap (λ p. get_elem? p.buffers j) (sym made) ∙ view in
          let here_at : (i == j) ≡ true → get_elem? s.buffers j ≡ some c =
            λ y. ap (get_elem? s.buffers) (sym (==→≡ i j y)) ∙ at in
          elim (Bool-cases (i == j)) [
            | inl y ↦
                ground (arith, y, used, seen, here_at y, v.owned j, times-without i j n held mine)
            | inr m ↦ ground (arith, m, seen, v.owned j, times-without i j n held mine)
          ];
    }

Reach-IsShared :
    (cap : ℕ) (t : BufStore) (held : List ℕ)
    → cap ≤ 2 ^ 32
    → Reach (with_capacity cap) t held
    → IsShared t held
unfolding with_capacity
Reach-IsShared cap t _ fits here = record {
  pool = with_capacity-IsPool cap fits;
  owned = λ j. sym (busy-replicate cap j);
}
Reach-IsShared cap t held fits (next {t = u} {held = before} r step) =
    Step-IsShared u t before held step (Reach-IsShared cap u before fits r)

-- Whatever its users do with a new pool of at most `2 ^ 32` buffers: every buffer `j` is either on the
-- queue, once, or in the hands of one holder, and not of two; the pool keeps its invariant.
pub Reach-with_capacity-IsPool :
    (cap : ℕ) (t : BufStore) (held : List ℕ) (j : ℕ)
    → cap ≤ 2 ^ 32
    → Reach (with_capacity cap) t held
    → IsPool t × (times j t.free + times j held ≡ present (get_elem? t.buffers j))
Reach-with_capacity-IsPool cap t held j fits r =
    let v = Reach-IsShared cap t held fits r in
    (v.pool, omega (arith, v.pool.queued j, v.owned j, idle_or_busy (get_elem? t.buffers j)))
  where
    idle_or_busy : (o : Option BufCell) → idle o + busy o ≡ present o
    idle_or_busy none = refl
    idle_or_busy (some c) = ground arith
