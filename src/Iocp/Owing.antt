-- ===== src/Iocp/Owing.antt =====
-- What the backend on completion ports owes, and that taking completions from the port pays it off.
use lio.Base.{
  ℕ, zero, suc, ◌+◌, ◌≤◌, ◌≡◌, refl, ◌∙◌, Bool, true, false, not, ◌&&◌, os, Option, some, List, [],
  ◌∷◌, ℤ, pos, arith, ◌==◌, ==→≡, if◌then◌else◌, IoResult, ok, err, Bool-cases, inl, inr, subst,
  Option-cases,
}
use lio.Base.Assoc.{lookup, remove, insert, lookup-remove}
use lio.Contract.{count}
use lio.Poller.Consistency.{is_some}
use lio.Poller.Soundness.{count-append, queued}
use lio.Iocp.{Handle, Windows, Iocp, Status, error_result}
use lio.Iocp.Polling.{
  collect, drain_port, settle_timer, settle_op, told, has_completed, is_empty, notify_completion,
  timer_completion, wait_expired,
}

-- How many states are in flight for a key.
abbrev pub in_flight : ℕ → List (ℕ × ℕ) → ℕ
in_flight j [] = 0
in_flight j ((addr, id) ∷ m) = (if id == j then 1 else 0) + in_flight j m

in_flight-remove : (j addr : ℕ) (m : List (ℕ × ℕ)) → in_flight j (remove addr m) ≤ in_flight j m
unfolding remove
in_flight-remove j addr [] = omega arith
in_flight-remove j addr ((a, id) ∷ m) = ground (arith, in_flight-remove j addr m)

pub in_flight-insert :
    (j addr id : ℕ) (m : List (ℕ × ℕ))
    → in_flight j (insert addr id m) ≤ in_flight j m + (if id == j then 1 else 0)
unfolding insert
in_flight-insert j addr id m = omega (arith, in_flight-remove j addr m)

in_flight-taken :
    (j addr id : ℕ) (m : List (ℕ × ℕ))
    → lookup addr m ≡ some id
    → in_flight j (remove addr m) + (if id == j then 1 else 0) ≤ in_flight j m
unfolding lookup remove
in_flight-taken j addr id [] e = cc
in_flight-taken j addr id ((a, i) ∷ m) e = elim (Bool-cases (a == addr)) [
  | inl y ↦ ground (arith, y, e, in_flight-remove j addr m)
  | inr n ↦ ground (arith, n, e, in_flight-taken j addr id m)
]

-- The completions that are owed for a key: those of its states, of its timer, and in the queue.
abbrev pub owes : Iocp → ℕ → ℕ
owes b j =
    count j (queued b.immediate)
    + (in_flight j b.active_ops + (if is_some (lookup j b.active_timers) then 1 else 0))

-- What it owes, and what it has to tell already.
abbrev pub total : ℕ → Iocp → ℕ
total j b = owes b j + count j b.completed

module _ {K : Type 0} (win : Windows K) where
  settle_timer_total :
      (id j : ℕ) (b : Iocp) (k : K) → total j (settle_timer win id (b, k)).0 ≤ total j b
  unfolding settle_timer
  settle_timer_total id j b k = elim (Option-cases (lookup id b.active_timers)) [
    | inl e ↦ ground (arith, e)
    | inr (t, e) ↦ elim (Bool-cases (id == j)) [
      | inl y ↦
          let at : lookup j b.active_timers ≡ some t =
            subst (λ i. lookup i b.active_timers ≡ some t) (==→≡ id j y) e in
          ground (
            arith,
            e,
            at,
            y,
            lookup-remove id j b.active_timers,
            count-append j b.completed (told id (pos 0) ∷ []),
          )
      | inr n ↦ ground (
        arith,
        e,
        n,
        lookup-remove id j b.active_timers,
        count-append j b.completed (told id (pos 0) ∷ []),
      )
    ]
  ]

  settle_timer_port : (id : ℕ) (b : Iocp) (k : K) → (settle_timer win id (b, k)).0.port ≡ b.port
  unfolding settle_timer
  settle_timer_port id b k = ground arith

  settle_op_total :
      (st : Status) (j : ℕ) (b : Iocp) (k : K) → total j (settle_op win st (b, k)).0 ≤ total j b
  unfolding settle_op
  settle_op_total st j b k = elim (Option-cases (lookup st.overlapped b.active_ops)) [
    | inl e ↦ ground (arith, e)
    | inr (id, e) ↦
        let r : ℤ = if st.success then pos st.bytes else error_result (win.last_error k) in
        ground (
          arith,
          e,
          in_flight-taken j st.overlapped id b.active_ops e,
          count-append j b.completed (told id r ∷ []),
        )
  ]

  settle_op_port : (st : Status) (b : Iocp) (k : K) → (settle_op win st (b, k)).0.port ≡ b.port
  unfolding settle_op
  settle_op_port st b k = ground arith

-- What holds of both branches.
branches : {A : Type 0} (Q : A → Type 0) (b : Bool) {x y : A} → Q x → Q y → Q (if b then x else y)
branches Q true hx hy = hx
branches Q false hx hy = hy

-- A property of the backend that a call leaves behind.
record Ends {K : Type 0} (P : Iocp → Type 0) (r : IoResult (Unit {0}) × (Iocp × K)) : Type 0 where
  ended : P r.1.0

record Leaves {K : Type 0} (P : Iocp → Type 0) (s : Iocp × K) : Type 0 where
  left : P s.0

-- What settling a completion keeps is kept by the loops over the completions.
module _ {K : Type 0} (win : Windows K) (P : Iocp → Type 0)
    (timer : (id : ℕ) (b : Iocp) (k : K) → P b → P (settle_timer win id (b, k)).0)
    (op : (st : Status) (b : Iocp) (k : K) → P b → P (settle_op win st (b, k)).0) where
  collect_keeps :
      (fuel timeout : ℕ) (blocking : Bool) (port : Handle) (b : Iocp) (k : K)
      → P b
      → Ends P (collect win fuel timeout blocking port (b, k))
  unfolding collect
  collect_keeps zero timeout blocking port b k h = record { ended = h }
  collect_keeps (suc fuel) timeout blocking port b k h =
      let (st, k') = win.get_status port (if has_completed b then 0 else timeout) k in
      let here : Ends P (ok tt, (b, k')) = record { ended = h } in
      let settled : Ends P (ok tt, settle_op win st (b, k')) = record { ended = op st b k' h } in
      let (b₁, k₁) = settle_timer win st.bytes (b, k') in
      let (b₂, k₂) = settle_op win st (b, k') in
      let failed : Ends P (err (os (win.last_error k')), (b, k')) = record { ended = h } in
      branches (Ends P) (is_empty st)
        (branches (Ends P) (win.last_error k' == wait_expired) here failed)
        (branches (Ends P) (st.key == notify_completion)
          (branches (Ends P) (blocking && has_completed b) here
            (collect_keeps fuel timeout blocking port b k' h))
          (branches (Ends P) (st.key == timer_completion)
            (collect_keeps fuel timeout blocking port b₁ k₁ (timer st.bytes b k' h))
            (branches (Ends P) (blocking && has_completed b₂) settled (
              branches (Ends P) (not blocking) settled
                (collect_keeps fuel timeout blocking port b₂ k₂ (op st b k' h))))))

  drain_port_keeps :
      (fuel : ℕ) (port : Handle) (b : Iocp) (k : K)
      → P b
      → Leaves P (drain_port win fuel port (b, k))
  unfolding drain_port
  drain_port_keeps zero port b k h = record { left = h }
  drain_port_keeps (suc fuel) port b k h =
      let (st, k') = win.get_status port 0 k in
      let (b₁, k₁) = settle_timer win st.bytes (b, k') in
      let (b₂, k₂) = settle_op win st (b, k') in
      let here : Leaves P (b, k') = record { left = h } in
      branches (Leaves P) (is_empty st) here (
        branches (Leaves P) (st.key == notify_completion) (drain_port_keeps fuel port b k' h) (
          branches (Leaves P) (st.key == timer_completion)
            (drain_port_keeps fuel port b₁ k₁ (timer st.bytes b k' h))
            (drain_port_keeps fuel port b₂ k₂ (op st b k' h))))

-- The port stays, and the total for a key does not grow.
abbrev pub Pays : Option Handle → ℕ → ℕ → Iocp → Type 0
Pays port j most b = (b.port ≡ port) × (total j b ≤ most)

module _ {K : Type 0} (win : Windows K) where
  pub collect-Pays :
      (fuel timeout : ℕ) (blocking : Bool) (port : Handle) (b : Iocp) (k : K) (j : ℕ)
      → Pays b.port j (total j b) (collect win fuel timeout blocking port (b, k)).1.0
  collect-Pays fuel timeout blocking port b k j =
      (collect_keeps win (Pays b.port j (total j b))
        (λ id c k h.
          (settle_timer_port win id c k ∙ h.0, omega (arith, settle_timer_total win id j c k, h.1)))
        (λ st c k h.
          (settle_op_port win st c k ∙ h.0, omega (arith, settle_op_total win st j c k, h.1)))
        fuel timeout blocking port b k (refl, omega arith)).ended

  pub drain_port-Pays :
      (fuel : ℕ) (port : Handle) (b : Iocp) (k : K) (j : ℕ)
      → Pays b.port j (total j b) (drain_port win fuel port (b, k)).0
  drain_port-Pays fuel port b k j =
      (drain_port_keeps win (Pays b.port j (total j b))
        (λ id c k h.
          (settle_timer_port win id c k ∙ h.0, omega (arith, settle_timer_total win id j c k, h.1)))
        (λ st c k h.
          (settle_op_port win st c k ∙ h.0, omega (arith, settle_op_total win st j c k, h.1)))
        fuel port b k (refl, omega arith)).left
