-- ===== src/Base/Lists.antt =====
-- Lists measured and indexed by native numbers, under the library's names.
use Prim.Native.Nat.{ℕ, zero, suc, ◌+◌, ◌<◌, ◌≤◌}
use mathlib.Core.Path.{◌≡◌, refl, sym, ap, ◌∙◌}
use mathlib.Core.Logic.{◌≢◌, ◌⊎◌, inl, inr}
use mathlib.Core.List.{List, [], ◌∷◌, ◌++◌}
use mathlib.Core.Option.{Option, none, some}
use native.Mathlib.Omega.{arith}
use lio.Base.Tests.{◌==◌, if◌then◌else◌, Bool-cases, ==→≡, ==→≢}

module _ {ℓ} {A : Type ℓ} where
  abbrev pub length : List A → ℕ
  length [] = 0
  length (x ∷ xs) = suc (length xs)

  abbrev pub get_elem? : List A → ℕ → Option A
  get_elem? [] i = none
  get_elem? (x ∷ xs) zero = some x
  get_elem? (x ∷ xs) (suc i) = get_elem? xs i

  -- A write out of bounds changes nothing.
  abbrev pub set : List A → ℕ → A → List A
  set [] i v = []
  set (x ∷ xs) zero v = v ∷ xs
  set (x ∷ xs) (suc i) v = x ∷ set xs i v

  abbrev pub replicate : ℕ → A → List A
  replicate zero a = []
  replicate (suc n) a = a ∷ replicate n a

  abbrev pub take : ℕ → List A → List A
  take zero xs = []
  take (suc n) [] = []
  take (suc n) (x ∷ xs) = x ∷ take n xs

  abbrev pub drop : ℕ → List A → List A
  drop zero xs = xs
  drop (suc n) [] = []
  drop (suc n) (x ∷ xs) = drop n xs

  pub length-append : (xs ys : List A) → length (xs ++ ys) ≡ length xs + length ys
  length-append [] ys = omega arith
  length-append (x ∷ xs) ys = omega (arith, length-append xs ys)

  pub length-set : (xs : List A) (i : ℕ) (v : A) → length (set xs i v) ≡ length xs
  length-set [] i v = refl
  length-set (x ∷ xs) zero v = refl
  length-set (x ∷ xs) (suc i) v = ap suc (length-set xs i v)

  pub length-replicate : (n : ℕ) (a : A) → length (replicate n a) ≡ n
  length-replicate zero a = refl
  length-replicate (suc n) a = ap suc (length-replicate n a)

  pub get_elem?-replicate : (n i : ℕ) (a : A) → i < n → get_elem? (replicate n a) i ≡ some a
  get_elem?-replicate zero i a h = absurd (omega arith)
  get_elem?-replicate (suc n) zero a h = refl
  get_elem?-replicate (suc n) (suc i) a h = get_elem?-replicate n i a (omega arith)

  pub get_elem?-lt : (xs : List A) (i : ℕ) {a : A} → get_elem? xs i ≡ some a → i < length xs
  get_elem?-lt [] i e = cc
  get_elem?-lt (x ∷ xs) zero e = omega arith
  get_elem?-lt (x ∷ xs) (suc i) e = omega (arith, get_elem?-lt xs i e)

  pub get_elem?_total : (xs : List A) (i : ℕ) → i < length xs → (a : A) × (get_elem? xs i ≡ some a)
  get_elem?_total [] i h = absurd (omega arith)
  get_elem?_total (x ∷ xs) zero h = (x, refl)
  get_elem?_total (x ∷ xs) (suc i) h = get_elem?_total xs i (omega arith)

  pub get_elem?-set_self :
      (xs : List A) (i : ℕ) (v : A) → i < length xs → get_elem? (set xs i v) i ≡ some v
  get_elem?-set_self [] i v h = absurd (omega arith)
  get_elem?-set_self (x ∷ xs) zero v h = refl
  get_elem?-set_self (x ∷ xs) (suc i) v h = get_elem?-set_self xs i v (omega arith)

  pub get_elem?-set_ne :
      (xs : List A) (i j : ℕ) (v : A) → i ≢ j → get_elem? (set xs i v) j ≡ get_elem? xs j
  get_elem?-set_ne [] i j v h = refl
  get_elem?-set_ne (x ∷ xs) zero zero v h = absurd (h refl)
  get_elem?-set_ne (x ∷ xs) zero (suc j) v h = refl
  get_elem?-set_ne (x ∷ xs) (suc i) zero v h = refl
  get_elem?-set_ne (x ∷ xs) (suc i) (suc j) v h = get_elem?-set_ne xs i j v (λ e. h (ap suc e))

module _ {ℓ} {A : Type ℓ} where
  pub get_elem?-set :
      (xs : List A) (i j : ℕ) (v : A)
      → i < length xs
      → get_elem? (set xs i v) j ≡ (if i == j then some v else get_elem? xs j)
  get_elem?-set xs i j v h = elim (Bool-cases (i == j)) [
    | inl e ↦ rw e (ap (get_elem? (set xs i v)) (sym (==→≡ i j e)) ∙ get_elem?-set_self xs i v h)
    | inr e ↦ rw e (get_elem?-set_ne xs i j v (==→≢ i j e))
  ]

module _ {ℓ} {A : Type ℓ} where
  pub take-nil : (n : ℕ) → take {A = A} n [] ≡ []
  take-nil zero = refl
  take-nil (suc n) = refl

  pub drop-get :
      (xs : List A) (i t : ℕ) {x : A}
      → i + 1 ≡ t
      → get_elem? xs i ≡ some x
      → drop i xs ≡ x ∷ drop t xs
  drop-get [] i t n e = cc
  drop-get (y ∷ ys) i zero n e = absurd (omega (arith, n))
  drop-get (y ∷ ys) zero (suc t) {x} n e =
      let t0 : zero ≡ t = omega (arith, n) in
      let same : y ≡ x = cc in ap (λ z. z ∷ ys) same ∙ ap (λ m. x ∷ drop m ys) t0
  drop-get (y ∷ ys) (suc i) (suc t) n e = drop-get ys i t (omega (arith, n)) e

  pub drop_beyond : (xs : List A) (n : ℕ) → length xs ≤ n → drop n xs ≡ []
  drop_beyond [] zero h = refl
  drop_beyond (x ∷ xs) zero h = absurd (omega (arith, h))
  drop_beyond [] (suc n) h = refl
  drop_beyond (x ∷ xs) (suc n) h = drop_beyond xs n (omega (arith, h))

  -- A write of what is there already.
  pub set-same : (xs : List A) (i : ℕ) {x : A} → get_elem? xs i ≡ some x → set xs i x ≡ xs
  set-same [] i e = refl
  set-same (y ∷ ys) zero {x} e = let same : x ≡ y = cc in ap (λ z. z ∷ ys) same
  set-same (y ∷ ys) (suc i) e = ap (λ zs. y ∷ zs) (set-same ys i e)

  pub take-set :
      (xs : List A) (w t : ℕ) (x : A)
      → w + 1 ≡ t
      → w < length xs
      → take t (set xs w x) ≡ take w xs ++ x ∷ []
  take-set [] w t x n h = absurd (omega (arith, h))
  take-set (y ∷ ys) w zero x n h = absurd (omega (arith, n))
  take-set (y ∷ ys) zero (suc t) x n h =
      let none_more : t ≡ zero = omega (arith, n) in ap (λ m. x ∷ take m ys) none_more
  take-set (y ∷ ys) (suc w) (suc t) x n h =
      ap (λ zs. y ∷ zs) (take-set ys w t x (omega (arith, n)) (omega (arith, h)))

  pub drop-set : (xs : List A) (w r : ℕ) (x : A) → w < r → drop r (set xs w x) ≡ drop r xs
  drop-set [] w r x h = refl
  drop-set (y ∷ ys) w zero x h = absurd (omega (arith, h))
  drop-set (y ∷ ys) zero (suc r) x h = refl
  drop-set (y ∷ ys) (suc w) (suc r) x h = drop-set ys w r x (omega (arith, h))

-- A predicate of every element, and membership, by recursion.
abbrev pub All {ℓ κ} : {A : Type ℓ} → (A → Type κ) → List A → Type κ
All P [] = Unit
All P (x ∷ xs) = P x × All P xs

abbrev pub In : {A : Type 0} → A → List A → Type 0
In a [] = ⊥
In a (x ∷ xs) = (a ≡ x) ⊎ In a xs
