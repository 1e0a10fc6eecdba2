-- ===== src/Interest/Flags.antt =====
-- The laws of the flags: a union has a flag when one side has it, and contains both sides.
use Prim.Native.Nat.{bit_and, bit_or}
use lio.Base.{ℕ, zero, suc, ◌*◌, ◌/◌, ◌%◌, ◌≡◌, ◌≤◌, ap, true, ◌||◌, arith, ==_refl}
use lio.Base.Bits.{or_digit, and_digit, and_zero}
use lio.Interest.{Interest, is_readable, is_writable, is_timer, or, contains}

and_one : (x : ℕ) → bit_and x 1 ≡ x % 2
and_one x = omega (arith, and_digit x 1, and_zero (x / 2))

and_two : (x : ℕ) → bit_and x 2 ≡ (x / 2 % 2) * 2
and_two x = omega (arith, and_digit x 2, and_one (x / 2))

and_four : (x : ℕ) → bit_and x 4 ≡ (x / 2 / 2 % 2) * 4
and_four x = omega (arith, and_digit x 4, and_two (x / 2))

or-and : (bound x y : ℕ) → x ≤ bound → bit_and (bit_or x y) x ≡ x
or-and bound zero y h = and_zero (bit_or 0 y)
or-and zero (suc x) y h = elim h [ ]
or-and (suc bound) (suc x) y h =
    let halves : bit_or (suc x) y / 2 ≡ bit_or (suc x / 2) (y / 2) =
      omega (arith, or_digit (suc x) y) in
    omega (
      arith,
      or_digit (suc x) y,
      and_digit (bit_or (suc x) y) (suc x),
      ap (λ t. bit_and t (suc x / 2)) halves,
      or-and bound (suc x / 2) (y / 2) (omega arith),
    )

-- A union contains each of its sides.
contains-or : (a b : Interest) → contains (or a b) a ≡ true
unfolding contains or
contains-or a b = rw (or-and a.bits a.bits b.bits (omega arith)) (==_refl a.bits)

-- A union is readable, writable or a timer exactly when one of its sides is, and contains its
-- first side.
pub is-or :
    (a b : Interest)
    → (is_readable (or a b) ≡ (is_readable a || is_readable b))
      × (is_writable (or a b) ≡ (is_writable a || is_writable b))
      × (is_timer (or a b) ≡ (is_timer a || is_timer b))
      × (contains (or a b) a ≡ true)
unfolding is_readable is_writable is_timer or
is-or a b = (
  ground (arith, and_one x, and_one y, and_one (bit_or x y), or_digit x y),
  ground
      (arith, and_two x, and_two y, and_two (bit_or x y), or_digit x y, or_digit (x / 2) (y / 2)),
  ground (
    arith,
    and_four x,
    and_four y,
    and_four (bit_or x y),
    or_digit x y,
    or_digit (x / 2) (y / 2),
    or_digit (x / 2 / 2) (y / 2 / 2),
  ),
  contains-or a b,
)
  where
    x : ℕ
    x = a.bits

    y : ℕ
    y = b.bits
