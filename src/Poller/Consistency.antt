-- ===== src/Poller/Consistency.antt =====
-- When the maps of the readiness backend agree, and what keeps them so.
use lio.Base.{ℕ, Bool, true, false, ◌≡◌, ap, ◌∙◌, Option, none, some, List, arith, ==_refl}
use lio.Base.Assoc.{lookup, insert, remove, lookup-insert, lookup-remove}
use lio.Op.{Op, RawFd}
use lio.Poller.{Poller}

abbrev pub is_some {ℓ} : {A : Type ℓ} → Option A → Bool
is_some none = false
is_some (some a) = true

-- The backend is initialised, and the two maps have the same keys.
pub record IsConsistent (p : Poller) : Type 0 where
  pub started : p.sys ≡ true
  pub fds : List (ℕ × RawFd)
  pub has : p.fd_map ≡ some fds
  pub agree : (j : ℕ) → is_some (lookup j fds) ≡ is_some (lookup j p.op_map)

pub IsConsistent-insert :
    (p p' : Poller) (id : ℕ) (fd : RawFd) (op : Op) (v : IsConsistent p)
    → p'.sys ≡ true
    → p'.fd_map ≡ some (insert id fd v.fds)
    → p'.op_map ≡ insert id op p.op_map
    → IsConsistent p'
IsConsistent-insert p p' id fd op v s e f = record {
  started = s;
  fds = insert id fd v.fds;
  has = e;
  agree = λ j.
      rw (f, lookup-insert id j fd v.fds, lookup-insert id j op p.op_map)
        (ground (arith, v.agree j));
}

pub IsConsistent-undo :
    (p p' : Poller) (id : ℕ) (fd : RawFd) (op : Op) (v : IsConsistent p)
    → p'.sys ≡ true
    → p'.fd_map ≡ some (remove id (insert id fd v.fds))
    → p'.op_map ≡ remove id (insert id op p.op_map)
    → IsConsistent p'
IsConsistent-undo p p' id fd op v s e f = record {
  started = s;
  fds = remove id (insert id fd v.fds);
  has = e;
  agree = λ j. ground (
    arith,
    ap (lookup j) f,
    v.agree j,
    lookup-insert id j fd v.fds,
    lookup-insert id j op p.op_map,
    lookup-remove id j (insert id fd v.fds),
    lookup-remove id j (insert id op p.op_map),
  );
}

-- An operation that was in the map for a moment only, under a key that had none.
pub IsConsistent-passed :
    (p p' : Poller) (id : ℕ) (op : Op) (v : IsConsistent p)
    → lookup id p.op_map ≡ none
    → p'.sys ≡ true
    → p'.fd_map ≡ some v.fds
    → p'.op_map ≡ remove id (insert id op p.op_map)
    → IsConsistent p'
IsConsistent-passed p p' id op v new s e f = record {
  started = s;
  fds = v.fds;
  has = e;
  agree = λ j. ground (
    arith,
    ap (lookup j) f,
    v.agree j,
    new,
    lookup-insert id j op p.op_map,
    lookup-remove id j (insert id op p.op_map),
  );
}

pub lookup-undo :
    (id : ℕ) (op : Op) (m : List (ℕ × Op)) → lookup id (remove id (insert id op m)) ≡ none
lookup-undo id op m = lookup-remove id id (insert id op m) ∙ rw (==_refl id)

pub lookup-new {ℓ} :
    {V : Type ℓ} (id : ℕ) (v : V) (m : List (ℕ × V)) → lookup id (insert id v m) ≡ some v
lookup-new id v m = lookup-insert id id v m ∙ rw (==_refl id)
