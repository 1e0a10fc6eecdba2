-- ===== src/IoUring/Drained.antt =====
-- One wait takes what is ready, once and in order, while the kernel posts more.
use lio.Base.{
  ℕ, zero, suc, ◌-◌, ◌≤◌, ◌≡◌, refl, sym, ap, ◌∙◌, ◌⊎◌, inl, inr, true, false, none, some, Option,
  List, [], ◌∷◌, ◌++◌, map, arith, length, length-append, append-nil, append_assoc, pos, negsuc,
  ret, ok,
}
use lio.Op.{Duration, is_zero}
use lio.Uring.{Liburing, IsLiburing, IsBetween, Completion, try_wait, wait}
use lio.Uring
use lio.IoUring.{IoUring, completed_of, drain, first, wait_timeout}

module _ {K : Type 0} (lib : Liburing K) (v : IsLiburing lib) where
  abbrev pub Between : K → List Completion → K → Type 0
  Between k taken k' = IsBetween v.posted v.ready k taken k'

  -- A loop that has taken `taken` ends with its fuel spent, or when a peek finds nothing ready.
  abbrev pub Ends : ℕ → List Completion → K → Type 0
  Ends fuel taken k' =
      (length taken ≡ fuel)
      ⊎ ((k : K) × (v.ready k ≡ []) × (lib.peek_cqe k ≡ (negsuc 10, none, k')))

  at_rest : (k : K) → Between k [] k
  at_rest k = record {
    new = [];
    grows = sym (append-nil (v.posted k));
    moves = append-nil (v.ready k);
  }

  in_turn :
      (k k₁ k₂ : K) (xs ys : List Completion)
      → Between k xs k₁
      → Between k₁ ys k₂
      → Between k (xs ++ ys) k₂
  in_turn k k₁ k₂ xs ys a b = record {
    new = a.new ++ b.new;
    grows = b.grows ∙ ap (λ l. l ++ b.new) a.grows ∙ append_assoc (v.posted k) a.new b.new;
    moves =
        sym (append_assoc (v.ready k) a.new b.new)
        ∙ ap (λ l. l ++ b.new) a.moves
        ∙ append_assoc xs (v.ready k₁) b.new
        ∙ ap (λ l. xs ++ l) b.moves
        ∙ sym (append_assoc xs ys (v.ready k₂));
  }

  -- What is left when the first is gone.
  left_over :
      (k k' : K) (c : Completion) (cs : List Completion)
      → v.ready k ≡ c ∷ cs
      → Between k (c ∷ []) k'
      → length cs ≤ length (v.ready k')
  left_over k k' c cs e b =
      omega (arith, ap length b.moves, ap length e, length-append (v.ready k) b.new)

  -- A peek that finds something, and the call that says it was seen.
  seen_first :
      (k : K) (c : Completion) (cs : List Completion)
      → v.ready k ≡ c ∷ cs
      → (k' : K) × (try_wait lib k ≡ (ok (some c), k')) × Between k (c ∷ []) k'
  unfolding try_wait
  seen_first k c cs e =
      let (k₁, found, b₁) = v.peeks k c cs e in
      let head : v.ready k₁ ≡ c ∷ (cs ++ b₁.new) = sym b₁.moves ∙ ap (λ l. l ++ b₁.new) e in
      let b₂ = v.seen k₁ c (cs ++ b₁.new) head in
      (lib.cqe_seen k₁, ground (arith, found), in_turn k k₁ (lib.cqe_seen k₁) [] (c ∷ []) b₁ b₂)

  -- At least the first `n` that are ready are taken, with fuel for as many.
  drain_takes :
      (fuel n : ℕ) (k : K) (cs : List Completion)
      → v.ready k ≡ cs
      → n ≤ fuel
      → n ≤ length cs
      → (taken : List Completion) × (k' : K) × (drain lib fuel k ≡ (map completed_of taken, k'))
        × Between k taken k'
        × (n ≤ length taken)
        × Ends fuel taken k'
  unfolding drain try_wait
  drain_takes zero n k cs e h h' = ([], k, refl, at_rest k, h, inl refl)
  drain_takes (suc fuel) n k [] e h h' =
      let (k', found, b) = v.nothing k e in
      ([], k', ground (arith, found), b, h', inr (k, e, found))
  drain_takes (suc fuel) n k (c ∷ cs) e h h' =
      let (k₁, found, b) = seen_first k c cs e in
      let more = left_over k k₁ c cs e b in
      let (taken, k₂, rest, b', enough, ends) =
        drain_takes fuel (n - 1) k₁ (v.ready k₁) refl (omega (arith, h))
          (omega (arith, h', more)) in
      (
        c ∷ taken,
        k₂,
        ground (arith, found, rest),
        in_turn k k₁ k₂ (c ∷ []) taken b b',
        omega (arith, enough),
        elim ends [ inl spent ↦ inl (ap suc spent) | inr over ↦ inr over ],
      )

  -- How a call may find something: it waits for it, waits for it with a limit, or looks whether it is
  -- there already. The world is the one in which the kernel has reported it.
  pub data Finds (k : K) : Option Duration → K → Type 0 where
    blocked : (r : ℕ) (c : Completion) (k' : K) → lib.wait_cqe k ≡ (pos r, c, k') → Finds k none k'
    timed :
        (d : Duration) (r : ℕ) (c : Completion) (k' : K)
        → is_zero d ≡ false
        → lib.wait_cqe_timeout d k ≡ (pos r, c, k')
        → Finds k (some d) k'
    polled : (d : Duration) → is_zero d ≡ true → Finds k (some d) k

  -- After the first completion, the others are drained.
  abbrev pub Drains : ℕ → Option Duration → IoUring → K → K → Type 0
  Drains fuel timeout b k at =
      (taken : List Completion) × (k' : K) × (wait_timeout lib fuel timeout (b, k)
        ≡ ret (ok (map completed_of taken), (record b { completed = map completed_of taken }, k')))
      × Between at taken k'
      × (length (v.ready at) ≤ length taken)
      × Ends (suc fuel) taken k'

  rest_taken :
      (fuel : ℕ) (timeout : Option Duration) (b : IoUring) (k at k₁ : K) (c : Completion)
      (cs : List Completion)
      → b.ring ≡ true
      → first lib timeout k ≡ (ok (some c), k₁)
      → v.ready at ≡ c ∷ cs
      → Between at (c ∷ []) k₁
      → length (v.ready at) ≤ suc fuel
      → Drains fuel timeout b k at
  unfolding wait_timeout
  rest_taken fuel timeout b k at k₁ c cs on found e begun h =
      let more = left_over at k₁ c cs e begun in
      let (taken, k₂, rest, b', enough, ends) =
        drain_takes fuel (length cs) k₁ (v.ready k₁) refl (omega (arith, h, ap length e)) more in
      (
        c ∷ taken,
        k₂,
        ground (arith, on, found, rest),
        in_turn at k₁ k₂ (c ∷ []) taken begun b',
        omega (arith, enough, ap length e),
        elim ends [ inl spent ↦ inl (ap suc spent) | inr over ↦ inr over ],
      )

  head_taken :
      (fuel : ℕ) (timeout : Option Duration) (b : IoUring) (k at : K) (c : Completion)
      (cs : List Completion)
      → b.ring ≡ true
      → first lib timeout k ≡ (ok (some c), lib.cqe_seen at)
      → v.ready at ≡ c ∷ cs
      → length (v.ready at) ≤ suc fuel
      → Drains fuel timeout b k at
  head_taken fuel timeout b k at c cs on found e h =
      rest_taken fuel timeout b k at (lib.cqe_seen at) c cs on found e (v.seen at c cs e) h

  -- A wait that finds something, on a backend with its ring and with fuel for what is ready then. It
  -- returns a completion for each entry that is ready then, once and in their order, and after them for
  -- those that the kernel posts meanwhile, as far as the fuel goes, in the order in which it posts them;
  -- what it has not taken is ready still. Unless its fuel is spent it goes on until a peek finds
  -- nothing.
  pub wait_timeout_takes_ready :
      (fuel : ℕ) (timeout : Option Duration) (b : IoUring) (k at : K)
      → b.ring ≡ true
      → Finds k timeout at
      → length (v.ready at) ≤ suc fuel
      → Drains fuel timeout b k at
  unfolding wait_timeout first wait Uring.wait_timeout try_wait
  wait_timeout_takes_ready fuel timeout b k at on (blocked r c k' w) h =
      let (cs, e) = v.waits k k' r c w in
      head_taken fuel none b k k' c cs on (ground (arith, w)) e h
  wait_timeout_takes_ready fuel timeout b k at on (timed d r c k' limited w) h =
      let (cs, e) = v.times d k k' r c w in
      head_taken fuel (some d) b k k' c cs on (ground (arith, limited, w)) e h
  wait_timeout_takes_ready fuel timeout b k at on (polled d zero_now) h = by_ready (v.ready k) refl
    where
      by_ready : (cs : List Completion) → v.ready k ≡ cs → Drains fuel (some d) b k k
      by_ready [] e =
          let (k', found, begun) = v.nothing k e in
          (
            [],
            k',
            ground (arith, on, zero_now, found),
            begun,
            omega (arith, ap length e),
            inr (k, e, found),
          )
      by_ready (c ∷ cs) e =
          let (k₁, found, begun) = seen_first k c cs e in
          rest_taken fuel (some d) b k k k₁ c cs on (rw zero_now found) e begun h
