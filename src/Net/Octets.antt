-- ===== src/Net/Octets.antt =====
-- Words as their bytes.
use lio.Base.{
  ℕ, ◌+◌, ◌*◌, ◌/◌, ◌%◌, ◌^◌, ◌<◌, ◌≡◌, refl, sym, ap, ◌∙◌, List, [], ◌∷◌, ◌++◌, append_assoc,
  append-nil, zero, suc, arith, All, length, length-append,
}
use native.Mathlib.Nat.{pow-suc}
use lio.Net.{to_le_bytes, from_le_bytes, reverse, to_be_bytes, swap_bytes}

abbrev pub IsByte : ℕ → Type 0
IsByte b = b < 256

reverse-append : (xs ys : List ℕ) → reverse (xs ++ ys) ≡ reverse ys ++ reverse xs
reverse-append [] ys = sym (append-nil (reverse ys))
reverse-append (x ∷ xs) ys =
    ap (λ l. l ++ x ∷ []) (reverse-append xs ys) ∙ append_assoc (reverse ys) (reverse xs) (x ∷ [])

pub reverse-reverse : (xs : List ℕ) → reverse (reverse xs) ≡ xs
reverse-reverse [] = refl
reverse-reverse (x ∷ xs) =
    reverse-append (reverse xs) (x ∷ []) ∙ ap (λ l. x ∷ l) (reverse-reverse xs)

pub length-reverse : (xs : List ℕ) → length (reverse xs) ≡ length xs
length-reverse [] = refl
length-reverse (x ∷ xs) = omega (arith, length-append (reverse xs) (x ∷ []), length-reverse xs)

All-append : (P : ℕ → Type 0) (xs : List ℕ) (y : ℕ) → All P xs → P y → All P (xs ++ y ∷ [])
All-append P [] y h p = (p, tt)
All-append P (x ∷ xs) y h p = (h.0, All-append P xs y h.1 p)

pub All-reverse : (P : ℕ → Type 0) (xs : List ℕ) → All P xs → All P (reverse xs)
All-reverse P [] h = tt
All-reverse P (x ∷ xs) h = All-append P (reverse xs) x (All-reverse P xs h.1) h.0

pub length-to_le_bytes : (n x : ℕ) → length (to_le_bytes n x) ≡ n
length-to_le_bytes zero x = refl
length-to_le_bytes (suc n) x = ap suc (length-to_le_bytes n (x / 256))

pub to_le_bytes-IsByte : (n x : ℕ) → All IsByte (to_le_bytes n x)
to_le_bytes-IsByte zero x = tt
to_le_bytes-IsByte (suc n) x = (omega arith, to_le_bytes-IsByte n (x / 256))

pub to_le_bytes-from_le_bytes :
    (bs : List ℕ) (n : ℕ) → length bs ≡ n → All IsByte bs → to_le_bytes n (from_le_bytes bs) ≡ bs
to_le_bytes-from_le_bytes [] zero e h = refl
to_le_bytes-from_le_bytes [] (suc n) e h = absurd (omega (arith, e))
to_le_bytes-from_le_bytes (b ∷ bs) zero e h = absurd (omega (arith, e))
to_le_bytes-from_le_bytes (b ∷ bs) (suc n) e h =
    let low : (b + 256 * from_le_bytes bs) % 256 ≡ b = omega (arith, h.0) in
    let high : (b + 256 * from_le_bytes bs) / 256 ≡ from_le_bytes bs = omega (arith, h.0) in
    rw (low, high) (ap (λ l. b ∷ l) (to_le_bytes-from_le_bytes bs n (omega (arith, e)) h.1))

pub from_le_bytes-to_le_bytes : (n x : ℕ) → x < 256 ^ n → from_le_bytes (to_le_bytes n x) ≡ x
from_le_bytes-to_le_bytes zero x fits = omega arith
from_le_bytes-to_le_bytes (suc n) x fits =
    let rest = from_le_bytes-to_le_bytes n (x / 256) (omega (arith, fits, pow-suc 256 n)) in
    omega (arith, rest)

-- Swapping the bytes of a word twice.
pub swap_bytes-swap_bytes : (n x : ℕ) → x < 256 ^ n → swap_bytes n (swap_bytes n x) ≡ x
swap_bytes-swap_bytes n x fits =
    ap (λ l. from_le_bytes (reverse l))
      (to_le_bytes-from_le_bytes (reverse (to_le_bytes n x)) n
        (length-reverse (to_le_bytes n x) ∙ length-to_le_bytes n x)
        (All-reverse IsByte (to_le_bytes n x) (to_le_bytes-IsByte n x)))
    ∙ ap from_le_bytes (reverse-reverse (to_le_bytes n x))
    ∙ from_le_bytes-to_le_bytes n x fits

-- A word of `n` bytes read high byte first and written high byte first.
pub to_be_bytes-swap_bytes-from_le_bytes :
    (bs : List ℕ) (n : ℕ)
    → length bs ≡ n
    → All IsByte bs
    → to_be_bytes n (swap_bytes n (from_le_bytes bs)) ≡ bs
to_be_bytes-swap_bytes-from_le_bytes bs n sized bytes =
    ap reverse (
      to_le_bytes-from_le_bytes (reverse (to_le_bytes n (from_le_bytes bs))) n
        (length-reverse (to_le_bytes n (from_le_bytes bs))
          ∙ length-to_le_bytes n (from_le_bytes bs))
        (All-reverse IsByte (to_le_bytes n (from_le_bytes bs))
          (to_le_bytes-IsByte n (from_le_bytes bs))))
    ∙ reverse-reverse (to_le_bytes n (from_le_bytes bs))
    ∙ to_le_bytes-from_le_bytes bs n sized bytes
