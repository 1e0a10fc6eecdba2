-- ===== src/Driver/Safety.antt =====
-- The state that a driver keeps over a backend which honours its contract.
use lio.Base.{
  ℕ, ◌+◌, ◌≤◌, ◌<◌, ◌^◌, ◌≡◌, ◌≢◌, refl, sym, ◌∙◌, inl, inr, Option, none, some, List, [], arith,
  length, ◌==◌, if◌then◌else◌, ==→≡, Bool-cases, ret, IoResult, ok, err,
}
use lio.Op.{Op, OpCompleted, IoBackend, Duration}
use lio.Contract.{count, IsBackend, accepts, refuses, flushed, reports, fails}
use lio.Store
use lio.Store.{OpStore}
use lio.Store.Invariant.{IsWf, occupied}
use lio.Registration.{Notifier, Registration, Effect, pending, done}
use lio.Driver.{Lio, schedule, run_inner}
use lio.Driver.Notify.{notes}
use lio.Driver.RunInner.{final_at, run_inner_all}
use lio.Driver.Schedule.{IsYoungStore, accepted, undone, panicked, schedule-cases}
use lio.Driver.Batches.{owed-Ready, Ready-IsYoung, final_at_other, final_at_unread}

-- Whatever the backend still owes is waited for, once, and no entry is left without its result.
pub record IsRunning {W C B : Type 0} (Good : B → Type 0) (held : B → ℕ → ℕ) (lio : Lio W C B)
    : Type 0 where
  pub valid : IsWf lio.store
  pub good : Good lio.io
  pub once : (j : ℕ) → held lio.io j ≤ 1
  pub matched :
      (j : ℕ)
      → 1 ≤ held lio.io j
      → (j < 2 ^ 64) × (n : Notifier W C) × (Store.get lio.store j ≡ some (pending n))
  pub unread : (j : ℕ) → j < 2 ^ 64 → Store.get lio.store j ≢ some (done none)

module _ {W C B : Type 0} (backend : IoBackend B) (Good : B → Type 0) (held : B → ℕ → ℕ)
    (Fresh : B → Type 0) (Allowed : Op → Type 0)
    (contract : IsBackend backend Good held Fresh Allowed) where
  -- A key that is not pending is not owed.
  not_owed :
      (lio : Lio W C B) (j : ℕ)
      → IsRunning Good held lio
      → ((n : Notifier W C) → Store.get lio.store j ≢ some (pending n))
      → held lio.io j ≡ 0
  not_owed lio j r idle = elim (Bool-cases (held lio.io j == 0)) [
    | inl e ↦ ==→≡ (held lio.io j) 0 e
    | inr e ↦ let (fits, n, live) = r.matched j (ground (arith, e)) in absurd (idle n live)
  ]

  -- Fewer promises, and a store that reads as before.
  pub IsRunning-less :
      (lio : Lio W C B) (s : OpStore (Registration W C)) (b : B)
      → IsRunning Good held lio
      → IsWf s
      → Good b
      → ((j : ℕ) → held b j ≤ held lio.io j)
      → ((j : ℕ) → j < 2 ^ 64 → Store.get s j ≡ Store.get lio.store j)
      → IsRunning Good held (record { store = s; io = b })
  IsRunning-less lio s b r v g less same = record {
    valid = v;
    good = g;
    once = λ j. omega (arith, less j, r.once j);
    matched = λ j owed.
        let (fits, n, live) = r.matched j (omega (arith, owed, less j)) in
        (fits, n, same j fits ∙ live);
    unread = λ j fits q. r.unread j fits (sym (same j fits) ∙ q);
  }

  -- The new registration, and the promise of the backend to complete it.
  IsRunning-add :
      (lio : Lio W C B) (id : ℕ) (n : Notifier W C) (s : OpStore (Registration W C)) (b : B)
      → IsRunning Good held lio
      → id < 2 ^ 64
      → held lio.io id ≡ 0
      → IsWf s
      → Good b
      → ((j : ℕ) → held b j ≤ held lio.io j + (if id == j then 1 else 0))
      → ((j : ℕ)
          → j < 2 ^ 64
          → Store.get s j ≡ (if id == j then some (pending n) else Store.get lio.store j))
      → IsRunning Good held (record { store = s; io = b })
  IsRunning-add lio id n s b r small free v g more reads = record {
    valid = v;
    good = g;
    once = λ j. elim (Bool-cases (id == j)) [
      | inl e ↦ let same = ==→≡ id j e in ground (arith, more j, free, same)
      | inr e ↦ ground (arith, e, more j, r.once j)
    ];
    matched = λ j owed. elim (Bool-cases (id == j)) [
      | inl e ↦
          let fits : j < 2 ^ 64 = omega (arith, small, ==→≡ id j e) in
          (fits, n, reads j fits ∙ rw e refl)
      | inr e ↦
          let (fits, m, live) = r.matched j (ground (arith, owed, e, more j)) in
          (fits, m, ground (arith, e, live, reads j fits))
    ];
    unread = λ j fits q. elim (Bool-cases (id == j)) [
      | inl e ↦ absurd (ground (arith, e, q, reads j fits))
      | inr e ↦ r.unread j fits (ground (arith, e, q, reads j fits))
    ];
  }

  pub schedule-IsRunning :
      (lio : Lio W C B) (op : Op) (n : Notifier W C)
      → IsRunning Good held lio
      → Allowed op
      → IsYoungStore lio.store
      → occupied lio.store.slots < lio.store.capacity
      → (r : IoResult ℕ) × (l : Lio W C B) × (schedule backend lio op (pending n) ≡ ret (r, l))
        × IsRunning Good held l
  schedule-IsRunning lio op n r a y room =
      let (id, small, fresh, young, how) =
        schedule-cases backend lio op (pending n) r.valid y room in
      let free = not_owed lio id r (λ m q. cc) in
      elim (contract.pushes id op lio.io r.good a free) [
        | accepts b e g more ↦ elim how [
          | accepted s b' e' run v reads ↦
              let same : b' ≡ b = ground (arith, e, e') in
              (
                ok id,
                record { store = s; io = b' },
                run,
                rw same (IsRunning-add lio id n s b r small free v g more reads),
              )
          | undone s b' x e' run v reads ↦ absurd (ground (arith, e, e'))
          | panicked e' run ↦ absurd (ground (arith, e, e'))
        ]
        | refuses x b e g less ↦ elim how [
          | accepted s b' e' run v reads ↦ absurd (ground (arith, e, e'))
          | undone s b' x' e' run v reads ↦
              let same : b' ≡ b = ground (arith, e, e') in
              (
                err x',
                record { store = s; io = b' },
                run,
                rw same (IsRunning-less lio s b r v g less reads),
              )
          | panicked e' run ↦ absurd (ground (arith, e, e'))
        ]
      ]

  -- What was reported is no longer owed, and what is still owed was not touched.
  IsRunning-told :
      (lio : Lio W C B) (cs : List OpCompleted) (ns : List (Notifier W C))
      (s : OpStore (Registration W C)) (b : B)
      → IsRunning Good held lio
      → IsWf s
      → Good b
      → ((j : ℕ) → held b j + count j cs ≤ held lio.io j)
      → ((j : ℕ) → j < 2 ^ 64 → Store.get s j ≡ final_at j cs ns (Store.get lio.store j))
      → IsRunning Good held (record { store = s; io = b })
  IsRunning-told lio cs ns s b r v g less reads = record {
    valid = v;
    good = g;
    once = λ j. omega (arith, less j, r.once j);
    matched = λ j owed.
        let (fits, n, live) = r.matched j (omega (arith, owed, less j)) in
        (
          fits,
          n,
          reads j fits ∙ final_at_other j cs ns _ (omega (arith, owed, less j, r.once j)) ∙ live,
        );
    unread = λ j fits q. final_at_unread j cs ns _ (r.unread j fits) (sym (reads j fits) ∙ q);
  }

  pub run_inner-IsRunning :
      (lio : Lio W C B) (timeout : Option Duration)
      → IsRunning Good held lio
      → IsYoungStore lio.store
      → (r : IoResult ℕ) × (l : Lio W C B) × (told : List (Effect W C)) × (run_inner backend lio
            timeout
          ≡ ret (r, l, told))
        × IsRunning Good held l
  unfolding run_inner
  run_inner-IsRunning lio timeout r y = elim (contract.flushes lio.io r.good) [
    | flushed (err x) b e g less ↦ (
      err x,
      record lio { io = b },
      [],
      rw (e, run_inner) refl,
      IsRunning-less lio lio.store b r r.valid g less (λ j fits. refl),
    )
    | flushed (ok submitted) b e g less ↦ elim (contract.waits timeout b g) [
      | fails x b' e' g' less' ↦ (
        err x,
        record lio { io = b' },
        [],
        rw (e, run_inner) (rw (e', run_inner) refl),
        IsRunning-less lio lio.store b' r r.valid g' (λ j. omega (arith, less j, less' j))
            (λ j fits. refl),
      )
      | reports cs b' e' g' less' ↦
          let owed : (j : ℕ) → held b' j + count j cs ≤ held lio.io j =
            λ j. omega (arith, less j, less' j) in
          let (ns, ready) =
            owed-Ready lio.store (held lio.io) cs (λ j. omega (arith, owed j)) r.once r.matched in
          let (s, run, v, reads) =
            run_inner_all backend lio timeout b b' submitted cs ns e e' r.valid ready
              (Ready-IsYoung lio.store cs ns y ready) in
          (
            ok (length cs),
            record { store = s; io = b' },
            notes cs ns,
            run,
            IsRunning-told lio cs ns s b' r v g' owed reads,
          )
    ]
  ]
