-- ===== src/Driver/Schedule.antt =====
-- `Lio::schedule`: insertion before the push, and its undoing when the push fails.
use lio.Base.{
  ℕ, ◌<◌, ◌^◌, ◌≡◌, refl, inl, inr, none, some, arith, get_elem?, if◌then◌else◌, ◌==◌, ==_refl,
  Outcome, ret, panic, IoResult, IoError, ok, err,
}
use lio.Op.{Op, IoBackend}
use lio.Store.{Slot, Index, OpStore, vacant, u32_max, from_u64, as_u64, insert, try_insert}
use lio.Store
use lio.Store.Packing.{from_u64-as_u64, as_u64-lt}
use lio.Store.Invariant.{IsWf, occupied}
use lio.Store.Insertion.{filled, Inserted, try_insert-cases, insert-some, insert_full}
use lio.Store.Removal.{removed, remove-IsWf, get-eq-some}
use lio.Store.Handles.{get-removed, get-Inserted, get-Inserted_self}
use lio.Registration.{Registration}
use lio.Driver.{Lio, schedule}

-- No slot has used up its generations.
pub record IsYoungStore {ℓ} {A : Type ℓ} (s : OpStore A) : Type ℓ where
  pub young : (i : ℕ) (slot : Slot A) → get_elem? s.slots i ≡ some slot → slot.generation < u32_max

pub IsYoungStore-live {ℓ} :
    {A : Type ℓ} (s : OpStore A) (id : ℕ) {a : A}
    → IsYoungStore s
    → Store.get s id ≡ some a
    → (from_u64 id).generation < u32_max
IsYoungStore-live s id {a} y e =
    y.young (from_u64 id).slot (filled (from_u64 id).generation a) (get-eq-some s id e)

module _ {W C B : Type 0} (backend : IoBackend B) (lio : Lio W C B) (op : Op)
    (reg : Registration W C) where
  -- What became of a call to `schedule` under the key `id`, by the answer of the backend.
  pub data Answered (id : ℕ) : Type 0 where
    accepted :
        (s : OpStore (Registration W C)) (b : B)
        → backend.push id op lio.io ≡ ret (ok tt, b)
        → schedule backend lio op reg ≡ ret (ok id, record { store = s; io = b })
        → IsWf s
        → ((j : ℕ)
            → j < 2 ^ 64
            → Store.get s j ≡ (if id == j then some reg else Store.get lio.store j))
        → Answered id
    undone :
        (s : OpStore (Registration W C)) (b : B) (e : IoError)
        → backend.push id op lio.io ≡ ret (err e, b)
        → schedule backend lio op reg ≡ ret (err e, record { store = s; io = b })
        → IsWf s
        → ((j : ℕ) → j < 2 ^ 64 → Store.get s j ≡ Store.get lio.store j)
        → Answered id
    panicked : backend.push id op lio.io ≡ panic → schedule backend lio op reg ≡ panic → Answered id

  by_answer :
      (i : Index) (s' : OpStore (Registration W C))
      → Inserted lio.store reg i s'
      → i.generation < u32_max
      → (answer : Outcome (IoResult (Unit {0}) × B)) → backend.push (as_u64 i) op lio.io ≡ answer
      → Answered (as_u64 i)
  unfolding schedule
  by_answer i s' m young panic e =
      panicked e (rw (insert-some lio.store reg (as_u64 i) s' m.made, schedule) (rw (e, schedule)))
  by_answer i s' m young (ret (ok tt, b)) e =
      accepted s' b e
        (rw (insert-some lio.store reg (as_u64 i) s' m.made, schedule) (rw (e, schedule))) m.valid
        (λ j fits. get-Inserted lio.store reg i s' j m fits)
  by_answer i s' m young (ret (err x, b)) e =
      let id = as_u64 i in
      let small = as_u64-lt i m.index in
      let live : Store.get s' id ≡ some reg =
        ground (arith, get-Inserted lio.store reg i s' id m small, ==_refl id) in
      let room : (from_u64 id).generation < u32_max = rw (from_u64-as_u64 i m.index) young in
      let (removes, valid) = remove-IsWf s' id m.valid live room in
      undone (removed s' (from_u64 id)) b x e
        (rw (insert-some lio.store reg id s' m.made, schedule)
          (rw (e, schedule) (rw (removes, schedule))))
        valid
        (λ j fits. ground (
          arith,
          get-removed s' id j small fits live,
          get-Inserted lio.store reg i s' j m fits,
          get-Inserted_self lio.store reg i s' m,
        ))

  pub schedule-cases :
      IsWf lio.store
      → IsYoungStore lio.store
      → occupied lio.store.slots < lio.store.capacity
      → (id : ℕ) × (id < 2 ^ 64)
        × (Store.get lio.store id ≡ none)
        × ((from_u64 id).generation < u32_max)
        × Answered id
  schedule-cases v y room = elim (try_insert-cases lio.store reg v) [
    | inl r ↦ absurd (omega (arith, r.full))
    | inr (i, s', m) ↦
        let young = y.young i.slot (vacant i.generation) m.was in
        (
          as_u64 i,
          as_u64-lt i m.index,
          get-Inserted_self lio.store reg i s' m,
          rw (from_u64-as_u64 i m.index) young,
          by_answer i s' m young _ refl,
        )
  ]

  -- The same, seen through the key `j`.
  pub data Scheduled (j id : ℕ) : Type 0 where
    stored :
        (s : OpStore (Registration W C)) (b : B)
        → backend.push id op lio.io ≡ ret (ok tt, b)
        → schedule backend lio op reg ≡ ret (ok id, record { store = s; io = b })
        → IsWf s
        → Store.get s j ≡ (if id == j then some reg else Store.get lio.store j)
        → Scheduled j id
    refused :
        (s : OpStore (Registration W C)) (b : B) (e : IoError)
        → backend.push id op lio.io ≡ ret (err e, b)
        → schedule backend lio op reg ≡ ret (err e, record { store = s; io = b })
        → IsWf s
        → Store.get s j ≡ Store.get lio.store j
        → Scheduled j id
    crashed :
        backend.push id op lio.io ≡ panic → schedule backend lio op reg ≡ panic → Scheduled j id

  seen_through : (j id : ℕ) → j < 2 ^ 64 → Answered id → Scheduled j id
  seen_through j id fits (accepted s b pushed run v reads) = stored s b pushed run v (reads j fits)
  seen_through j id fits (undone s b e pushed run v reads) =
      refused s b e pushed run v (reads j fits)
  seen_through j id fits (panicked pushed run) = crashed pushed run

  -- With a well-formed store that has room and no slot of the last generation, the operation is pushed
  -- under a key that was not live. If the backend accepts it, the registration is stored under that
  -- key, and every other key reads as before; if it refuses, its error is returned and every key reads
  -- as before; if it panics, so does `schedule`. In the first two cases the store is well formed.
  pub schedule_lem :
      (j : ℕ)
      → IsWf lio.store
      → IsYoungStore lio.store
      → occupied lio.store.slots < lio.store.capacity
      → j < 2 ^ 64
      → (id : ℕ) × (id < 2 ^ 64) × (Store.get lio.store id ≡ none) × Scheduled j id
  schedule_lem j v y room fits =
      let (id, small, fresh, young, how) = schedule-cases v y room in
      (id, small, fresh, seen_through j id fits how)

  -- A full store makes `schedule` panic before the backend is asked.
  pub schedule_full :
      IsWf lio.store
      → occupied lio.store.slots ≡ lio.store.capacity
      → schedule backend lio op reg ≡ panic
  unfolding schedule
  schedule_full v full = rw (insert_full lio.store reg v full, schedule)
