-- ===== src/Driver/Readers.antt =====
-- Reading a result and replacing a waker keep the driver running.
use lio.Base.{
  ℕ, ◌<◌, ◌^◌, ◌≡◌, inl, inr, none, some, List, arith, ◌==◌, ==→≡, Bool-cases, Option-cases, ret,
}
use lio.Op.{Op, IoBackend}
use lio.Contract.{IsBackend}
use lio.Store
use lio.Store.{OpStore}
use lio.Registration.{Effect, pending, done}
use lio.Driver.{Lio, Checked, result, check_done, set_entry_waker}
use lio.Driver.CheckDone.{
  check_done_finished, check_done_idle, set_entry_waker-live, rewoken-pending,
}
use lio.Driver.Schedule.{IsYoungStore, IsYoungStore-live}
use lio.Driver.Safety.{IsRunning, IsRunning-less}
use lio.Driver.CheckDone.{rewoken_unread}

module _ {W C B : Type 0} (backend : IoBackend B) (Good : B → Type 0) (held : B → ℕ → ℕ)
    (Fresh : B → Type 0) (Allowed : Op → Type 0)
    (contract : IsBackend backend Good held Fresh Allowed) where
  -- Reading a result.
  pub check_done-IsRunning :
      (lio : Lio W C B) (key : ℕ)
      → IsRunning Good held lio
      → IsYoungStore lio.store
      → key < 2 ^ 64
      → (r : Checked) × (l : Lio W C B) × (check_done lio key ≡ ret (r, l)) × IsRunning Good held l
  check_done-IsRunning lio key r y small = elim (Option-cases (Store.get lio.store key)) [
    | inl e ↦
        let (s, run, v, same) = check_done_idle lio key r.valid small none e in
        (
          _,
          record lio { store = s },
          run,
          IsRunning-less backend Good held Fresh Allowed contract lio s lio.io r v r.good
              (λ j. omega arith) same,
        )
    | inr (pending n, e) ↦
        let (s, run, v, same) = check_done_idle lio key r.valid small (some n) e in
        (
          _,
          record lio { store = s },
          run,
          IsRunning-less backend Good held Fresh Allowed contract lio s lio.io r v r.good
              (λ j. omega arith) same,
        )
    | inr (done none, e) ↦ absurd (r.unread key small e)
    | inr (done (some x), e) ↦
        let (s, run, v, again, reads) =
          check_done_finished lio key r.valid small (IsYoungStore-live lio.store key y e) e in
        (
          result x,
          record lio { store = s },
          run,
          record {
            valid = v;
            good = r.good;
            once = r.once;
            matched = λ j owed.
                let (fits, n, live) = r.matched j owed in
                (
                  fits,
                  n,
                  elim (Bool-cases (key == j)) [
                    | inl q ↦ absurd (ground (arith, live, e, ==→≡ key j q))
                    | inr q ↦ ground (arith, q, live, reads j fits)
                  ],
                );
            unread = λ j fits q. r.unread j fits (ground (arith, q, reads j fits));
          },
        )
  ]

  pub set_entry_waker-IsRunning :
      (lio : Lio W C B) (key : ℕ) (w : W)
      → IsRunning Good held lio
      → key < 2 ^ 64
      → (l : Lio W C B) × (told : List (Effect W C)) × (set_entry_waker lio key w ≡ ret (l, told))
        × IsRunning Good held l
  set_entry_waker-IsRunning lio key w r small =
      let (s, told, run, v, reads, _) =
        set_entry_waker-live lio key r.valid small w (r.unread key small) in
      (
        record lio { store = s },
        told,
        run,
        record {
          valid = v;
          good = r.good;
          once = r.once;
          matched = λ j owed.
              let (fits, n, live) = r.matched j owed in
              let (m, p) = rewoken-pending w n in
              elim (Bool-cases (key == j)) [
                | inl q ↦ (fits, m, ground (arith, q, live, p, reads j fits))
                | inr q ↦ (fits, n, ground (arith, q, live, reads j fits))
              ];
          unread = λ j fits q. elim (Bool-cases (key == j)) [
            | inl y ↦
                rewoken_unread w (Store.get lio.store j) (r.unread j fits)
                  (ground (arith, y, q, reads j fits))
            | inr y ↦ r.unread j fits (ground (arith, y, q, reads j fits))
          ];
        },
      )
