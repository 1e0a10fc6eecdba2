-- ===== src/Buf/Bytes.antt =====
-- Reading a lent buffer: `as_ref`, `remaining`, `advance` and the iterator.
use lio.Base.{
  ℕ, zero, suc, ◌+◌, ◌-◌, ◌≤◌, ◌<◌, ◌≡◌, refl, sym, ap, ◌∙◌, ◌⊎◌, inl, inr, none, some, List, [],
  ◌∷◌, arith, ltb, get_elem?, get_elem?-lt, set, take, drop, length, get_elem?-set_self, Outcome,
  ret, panic, ◌>>=◌, Bool-cases, get_elem?_total, take-nil, drop-get, drop_beyond,
}
use lio.Buf.{BufCell, BufStore, buf_len, after, advance, as_ref, remaining, next}

length-take-drop : (xs : List ℕ) (n m : ℕ) → n + m ≤ length xs → length (take n (drop m xs)) ≡ n
length-take-drop xs zero m h = refl
length-take-drop [] (suc n) zero h = absurd (omega (arith, h))
length-take-drop (x ∷ xs) (suc n) zero h = ap suc (length-take-drop xs n zero (omega (arith, h)))
length-take-drop [] (suc n) (suc m) h = absurd (omega (arith, h))
length-take-drop (x ∷ xs) (suc n) (suc m) h = length-take-drop xs (suc n) m (omega (arith, h))

drop-nil : (n : ℕ) → drop {A = ℕ} n [] ≡ []
drop-nil zero = refl
drop-nil (suc n) = refl

drop-take : (ys : List ℕ) (k n t : ℕ) → k + n ≡ t → drop k (take t ys) ≡ take n (drop k ys)
drop-take ys zero n t e = ap (λ m. take m ys) (omega (arith, e))
drop-take ys (suc k) n zero e = absurd (omega (arith, e))
drop-take [] (suc k) n (suc t) e = sym (take-nil n)
drop-take (y ∷ ys) (suc k) n (suc t) e = drop-take ys k n t (omega (arith, e))

drop-drop : (xs : List ℕ) (m k t : ℕ) → m + k ≡ t → drop k (drop m xs) ≡ drop t xs
drop-drop xs zero k t e = ap (λ j. drop j xs) (omega (arith, e))
drop-drop xs (suc m) k zero e = absurd (omega (arith, e))
drop-drop [] (suc m) k (suc t) e = drop-nil k
drop-drop (x ∷ xs) (suc m) k (suc t) e = drop-drop xs m k t (omega (arith, e))

-- A lent buffer whose valid part is the bytes `pos..len`.
module _ (s : BufStore) (i : ℕ) (c : BufCell) (at : get_elem? s.buffers i ≡ some c)
    (ordered : c.pos ≤ c.len) (within : c.len ≤ length c.buf) where
  -- `as_ref` returns the bytes from `pos` to `len`, as many as `remaining` says. `advance` by no
  -- more takes that many off their front, and by more panics.
  pub as_ref-advance :
      (cnt : ℕ)
      → (bytes : List ℕ) × (as_ref s i ≡ ret bytes)
        × (remaining s i ≡ ret (length bytes))
        × (((cnt ≤ length bytes)
              × (s' : BufStore) × (advance s i cnt ≡ ret s')
              × (as_ref s' i ≡ ret (drop cnt bytes)))
            ⊎ ((length bytes < cnt) × (advance s i cnt ≡ panic)))
  unfolding as_ref remaining advance
  as_ref-advance cnt = (
    bytes,
    ground (arith, at, ordered, within),
    ground (arith, at, ordered, size),
    elim (Bool-cases (ltb (c.len - c.pos) cnt)) [
      | inl over ↦ inr (ground (arith, size, over), ground (arith, at, ordered, over))
      | inr fits ↦ inl (
        ground (arith, size, fits),
        record s { buffers = set s.buffers i moved },
        ground (arith, at, ordered, fits),
        ground (arith, now, rest, ordered, within, fits),
      )
    ],
  )
    where
      bytes : List ℕ
      bytes = take (c.len - c.pos) (drop c.pos c.buf)

      size : length bytes ≡ c.len - c.pos
      size = length-take-drop c.buf (c.len - c.pos) c.pos (omega (arith, ordered, within))

      moved : BufCell
      moved = record c { pos = c.pos + cnt }

      now : get_elem? (set s.buffers i moved) i ≡ some moved
      now = get_elem?-set_self s.buffers i moved (get_elem?-lt s.buffers i at)

      rest :
          cnt ≤ c.len - c.pos
          → drop cnt bytes ≡ take (c.len - (c.pos + cnt)) (drop (c.pos + cnt) c.buf)
      rest h =
          drop-take (drop c.pos c.buf) cnt (c.len - (c.pos + cnt)) (c.len - c.pos)
            (omega (arith, ordered, h))
          ∙ ap (take (c.len - (c.pos + cnt))) (drop-drop c.buf c.pos cnt (c.pos + cnt) refl)

  -- A transfer that is shorter than what was consumed before leaves a buffer that cannot be read:
  -- `after` does not reset the position.
  pub after_short_panics :
      (bw : ℕ)
      → bw ≤ buf_len
      → bw < c.pos
      → (s' : BufStore) × (after s i bw ≡ ret s') × (as_ref s' i ≡ panic) × (remaining s' i ≡ panic)
  unfolding after as_ref remaining
  after_short_panics bw small short = (
    record s { buffers = set s.buffers i filled },
    ground (arith, at, small),
    ground (arith, now, short),
    ground (arith, now, short),
  )
    where
      filled : BufCell
      filled = record c { len = bw }

      now : get_elem? (set s.buffers i filled) i ≡ some filled
      now = get_elem?-set_self s.buffers i filled (get_elem?-lt s.buffers i at)

-- The bytes that the iterator yields from the position `from` on, when asked at most `fuel` times.
abbrev pub collect : BufStore → ℕ → ℕ → ℕ → Outcome (List ℕ)
collect s i zero from = ret []
collect s i (suc fuel) from = elim (next s i from) [
  | panic ↦ panic
  | ret (none, at) ↦ ret []
  | ret (some val, at) ↦ collect s i fuel at >>= λ vals. ret (val ∷ vals)
]

collect_from :
    (s : BufStore) (i : ℕ) (bytes : List ℕ)
    → as_ref s i ≡ ret bytes
    → remaining s i ≡ ret (length bytes)
    → (fuel from : ℕ) → length bytes < from + fuel
    → collect s i fuel from ≡ ret (drop from bytes)
unfolding next
collect_from s i bytes ref left zero from h =
    ap ret (sym (drop_beyond bytes from (omega (arith, h))))
collect_from s i bytes ref left (suc fuel) from h = elim (Bool-cases (ltb from (length bytes))) [
  | inl more ↦
      let (val, at) = get_elem?_total bytes from (ground (arith, more)) in
      let later = collect_from s i bytes ref left fuel (from + 1) (omega (arith, h)) in
      let same = drop-get bytes from (from + 1) refl at in
      ground (arith, left, ref, more, at, later, same)
  | inr over ↦
      let nothing = drop_beyond bytes from (ground (arith, over)) in
      ground (arith, left, over, nothing)
]

-- The iterator over a lent buffer yields what `as_ref` returns, byte by byte, and then ends, when
-- it is asked more often than there are bytes.
pub collect-as_ref :
    (s : BufStore) (i fuel : ℕ) (bytes : List ℕ)
    → as_ref s i ≡ ret bytes
    → remaining s i ≡ ret (length bytes)
    → length bytes < fuel
    → collect s i fuel 0 ≡ ret bytes
collect-as_ref s i fuel bytes ref left h = collect_from s i bytes ref left fuel 0 (omega (arith, h))
