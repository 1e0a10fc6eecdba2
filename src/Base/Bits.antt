-- ===== src/Base/Bits.antt =====
-- `|` of a shifted field with a lower one, and `&` with a mask of low bits, as arithmetic at
-- every width: what the packing of store keys and of flag words needs.
use Prim.Native.Nat.{
  ℕ, zero, suc, ◌+◌, ◌-◌, ◌*◌, ◌/◌, ◌%◌, ◌^◌, ◌≤◌, ◌<◌, min, max, bit_and, bit_or, digits,
  bit_and-bitwise, bit_or-bitwise,
}
use mathlib.Core.Path.{◌≡◌, refl, ap, ◌∙◌}
use native.Mathlib.Nat.{pow-suc, one-le-pow}
use native.Mathlib.Omega.{arith}

-- Any two sufficient fuels of a digit recursion give the same number.
module _ (end : ℕ → ℕ) (digit : ℕ → ℕ → ℕ) where
  abbrev run : ℕ → ℕ → ℕ → ℕ
  run = digits end digit

  run_any_fuel : (k l x y : ℕ) → x ≤ l → x ≤ k → run k x y ≡ run l x y
  run_any_fuel (suc k) (suc l) (suc x) y below_l below_k =
      ap (λ t. t * 2 + digit (suc x % 2) (y % 2))
        (run_any_fuel k l (suc x / 2) (y / 2) (omega arith) (omega arith))
  run_any_fuel (suc k) (suc l) zero y below_l below_k = refl
  run_any_fuel (suc k) zero zero y below_l below_k = refl
  run_any_fuel (suc k) zero (suc x) y below_l below_k = elim below_l [ ]
  run_any_fuel zero (suc l) zero y below_l below_k = refl
  run_any_fuel zero (suc l) (suc x) y below_l below_k = elim below_k [ ]
  run_any_fuel zero zero x y below_l below_k = refl

  -- One binary digit off a number that is not zero.
  run_digit :
      (x y : ℕ)
      → run (suc x) (suc x) y ≡ run (suc x / 2) (suc x / 2) (y / 2) * 2 + digit (suc x % 2) (y % 2)
  run_digit x y =
      ap (λ t. t * 2 + digit (suc x % 2) (y % 2))
        (run_any_fuel x (suc x / 2) (suc x / 2) (y / 2) (omega arith) (omega arith))

-- The lowest digit of `|` and of `&`.
pub or_digit : (x y : ℕ) → bit_or x y ≡ bit_or (x / 2) (y / 2) * 2 + max (x % 2) (y % 2)
or_digit (suc x) y = omega (
  arith,
  bit_or-bitwise (suc x) y,
  bit_or-bitwise (suc x / 2) (y / 2),
  run_digit (λ t. t) max x y,
)
or_digit zero y = omega (arith, bit_or-bitwise 0 y, bit_or-bitwise 0 (y / 2))

pub and_digit : (x y : ℕ) → bit_and x y ≡ bit_and (x / 2) (y / 2) * 2 + min (x % 2) (y % 2)
and_digit (suc x) y = omega (
  arith,
  bit_and-bitwise (suc x) y,
  bit_and-bitwise (suc x / 2) (y / 2),
  run_digit (λ t. 0) min x y,
)
and_digit zero y = omega (arith, bit_and-bitwise 0 y, bit_and-bitwise 0 (y / 2))

-- Zero on the right, by halving under a bound.
pub or_zero_below : (bound x : ℕ) → x ≤ bound → bit_or x 0 ≡ x
or_zero_below bound zero h = refl
or_zero_below (suc bound) (suc x) h =
    omega (arith, or_digit (suc x) 0, or_zero_below bound (suc x / 2) (omega arith))
or_zero_below zero (suc x) h = elim h [ ]

and_zero_below : (bound x : ℕ) → x ≤ bound → bit_and x 0 ≡ 0
and_zero_below bound zero h = refl
and_zero_below (suc bound) (suc x) h =
    omega (arith, and_digit (suc x) 0, and_zero_below bound (suc x / 2) (omega arith))
and_zero_below zero (suc x) h = elim h [ ]

double_shift : (hi w : ℕ) → hi * 2 ^ suc w ≡ (hi * 2 ^ w) * 2
double_shift hi w = grind (arith, pow-suc 2 w)

-- `(hi << w) | lo` is a sum where `lo` has at most `w` bits.
pub or_shifted : (w hi lo : ℕ) → lo < 2 ^ w → bit_or (hi * 2 ^ w) lo ≡ hi * 2 ^ w + lo
or_shifted zero hi lo fits = ground (arith, or_zero_below (hi * 2 ^ 0) (hi * 2 ^ 0) (omega arith))
or_shifted (suc w) hi lo fits = omega (
  arith,
  pow-suc 2 w,
  double_shift hi w,
  or_digit (hi * 2 ^ suc w) lo,
  ap (λ t. bit_or t (lo / 2)) {x = hi * 2 ^ suc w / 2} {y = hi * 2 ^ w}
      (omega (arith, double_shift hi w)),
  or_shifted w hi (lo / 2) (omega (arith, pow-suc 2 w)),
)

-- `x & (2 ^ w - 1)` is the remainder by `2 ^ w`, seen through the quotient and the rest.
and_low_split : (w hi lo : ℕ) → lo < 2 ^ w → bit_and (hi * 2 ^ w + lo) (2 ^ w - 1) ≡ lo
and_low_split zero hi lo fits =
    omega (arith, and_zero_below (hi * 2 ^ 0 + lo) (hi * 2 ^ 0 + lo) (omega arith))
and_low_split (suc w) hi lo fits = omega (
  arith,
  pow-suc 2 w,
  one-le-pow w 2,
  double_shift hi w,
  and_digit (hi * 2 ^ suc w + lo) (2 ^ suc w - 1),
  ap₂_halves,
  and_low_split w hi (lo / 2) (omega (arith, pow-suc 2 w)),
)
  where
    ap₂_halves :
        bit_and ((hi * 2 ^ suc w + lo) / 2) ((2 ^ suc w - 1) / 2)
        ≡ bit_and (hi * 2 ^ w + lo / 2) (2 ^ w - 1)
    ap₂_halves =
        ap (λ t. bit_and t ((2 ^ suc w - 1) / 2)) (omega (arith, double_shift hi w))
        ∙ ap (bit_and (hi * 2 ^ w + lo / 2)) (omega (arith, pow-suc 2 w, one-le-pow w 2))

pub and_low : (w x : ℕ) → bit_and x (2 ^ w - 1) ≡ x % 2 ^ w
and_low w x = ground (arith, one-le-pow w 2, and_low_split w (x / 2 ^ w) (x % 2 ^ w))

pub and_zero : (x : ℕ) → bit_and x 0 ≡ 0
and_zero x = and_zero_below x x (omega arith)
