-- ===== src/Buf/Waiting.antt =====
-- lio/src/buf.rs: `get` and `get_timeout`, when every buffer is lent.
use lio.Base.{
  ℕ, ◌≡◌, refl, sym, ap, ◌∙◌, inl, inr, Bool, true, none, some, List, [], ◌∷◌, ◌++◌, arith, ◌==◌,
  if◌then◌else◌, get_elem?, length, ret, Bool-cases, ==→≡,
}
use lio.Buf.{
  BufCell, BufStore, try_get, get, get_timeout, has, waits, drop_lent, acquired, zeroed,
  acquire_buffer, capacity, available,
}
use lio.Buf.Pool.{IsPool, lent}
use lio.Buf.Lending.{try_get_lem, drop_lent_lem}

-- With an index on the queue, the three ways to borrow lend the same buffer.
borrow_front :
    (s s' later : BufStore) (i k : ℕ) (rest : List ℕ)
    → s.free ≡ i ∷ rest
    → try_get s ≡ ret (some k, s')
    → (k ≡ i) × (get s ≡ ret (has i, s')) × (get_timeout s later ≡ ret (some i, s'))
unfolding try_get get get_timeout acquire_buffer
borrow_front s s' later i k rest e run = ground (arith, e, run)

no_index : (free : List ℕ) → length free ≡ 0 → free ≡ []
no_index [] e = refl
no_index (i ∷ rest) e = absurd (omega (arith, e))

-- In a pool whose buffers are all lent, a thread in `get` waits, and a `get_timeout` whose time ends
-- so gives none. Once the buffer `i` is returned, either takes that one, emptied, without a panic;
-- every other buffer is as it was, and all are lent again.
pub get-drop_lent :
    (wipes : Bool) (s : BufStore) (i j : ℕ) (c : BufCell)
    → IsPool s
    → lent s.buffers ≡ capacity s
    → get_elem? s.buffers i ≡ some c
    → c.in_use ≡ true
    → (s₁ s₂ : BufStore) × (get s ≡ ret (waits, s))
      × (get_timeout s s ≡ ret (none, s))
      × (drop_lent wipes s i ≡ ret s₁)
      × (get s₁ ≡ ret (has i, s₂))
      × (get_timeout s s₁ ≡ ret (some i, s₂))
      × IsPool s₂
      × (lent s₂.buffers ≡ capacity s₂)
      × (get_elem? s₂.buffers j ≡ (
          if i == j
          then some (acquired (if wipes then zeroed c else c))
          else get_elem? s.buffers j))
unfolding get get_timeout capacity available
get-drop_lent wipes s i j c v full at used =
    let empty : s.free ≡ [] = no_index s.free (omega (arith, v.total, full)) in
    let (s₁, back, v₁, queue, view₁) = drop_lent_lem wipes s i j c v at used in
    let front : s₁.free ≡ i ∷ [] = queue ∙ ap (λ q. q ++ i ∷ []) empty in
    elim (try_get_lem s₁ j v₁) [
      | inl (full₁, none_left) ↦ absurd (omega (arith, v₁.total, full₁, ap length front))
      | inr (k, c₁, s₂, lends, v₂, at₁, idle₁, size, view₂) ↦
          let (same, gets, timed) = borrow_front s₁ s₂ s₁ i k [] front lends in
          let index : (k == j) ≡ (i == j) = ap (λ m. m == j) same in
          let view : get_elem? s₂.buffers j ≡ (
              if i == j
              then some (acquired (if wipes then zeroed c else c))
              else get_elem? s.buffers j) =
            elim (Bool-cases (i == j)) [
              | inl b ↦
                  let found : get_elem? s₁.buffers j ≡ some c₁ =
                    ap (get_elem? s₁.buffers) (sym (==→≡ i j b) ∙ sym same) ∙ at₁ in
                  ground (arith, b, index, view₁, view₂, found)
              | inr b ↦ ground (arith, b, index, view₁, view₂)
            ] in
          (
            s₁,
            s₂,
            ground (arith, empty),
            ground (arith, empty),
            back,
            gets,
            ground (arith, empty, timed, front),
            v₂,
            omega (arith, v₁.total, v₂.total, size, ap length front),
            view,
          )
    ]
