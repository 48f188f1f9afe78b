-- ===== src/Common/Bits.antt =====
-- Laws of `|` and `^` on native numbers at variables, from one equation for the lowest digit.
use Prim.Native.Nat.{
  ℕ, zero, suc, ◌+◌, ◌*◌, ◌/◌, ◌%◌, ◌^◌, ◌≤◌, ◌<◌, min, max, differ, digits, bitwise, bit_and,
  bit_or, bit_xor, bit_and-bitwise, bit_or-bitwise, bit_xor-bitwise,
}
use mathlib.Core.Path.{◌≡◌, refl, sym, ap, ◌∙◌}
use native.Mathlib.Nat.{pow-suc, le_refl, div-div-eq-div-mul}
use native.Mathlib.Omega.{arith}

-- The fuel of `digits` is only a bound.
module _ (z : ℕ → ℕ) (f : ℕ → ℕ → ℕ) where
  enough_digits : (n k x m : ℕ) → x ≤ n → x ≤ k → digits z f n x m ≡ digits z f k x m
  enough_digits zero zero x m p q = refl
  enough_digits zero (suc k) zero m p q = refl
  enough_digits zero (suc k) (suc x) m p q = absurd (omega arith)
  enough_digits (suc n) zero zero m p q = refl
  enough_digits (suc n) zero (suc x) m p q = absurd (omega arith)
  enough_digits (suc n) (suc k) zero m p q = refl
  enough_digits (suc n) (suc k) (suc x) m p q =
      rw (enough_digits n k (suc x / 2) (m / 2) (omega arith) (omega arith))

  bitwise_digit :
      (x m : ℕ)
      → bitwise z f (suc x) m ≡ bitwise z f (suc x / 2) (m / 2) * 2 + f (suc x % 2) (m % 2)
  bitwise_digit x m =
      omega (arith, enough_digits x (suc x / 2) (suc x / 2) (m / 2) (omega arith) (le_refl _))

-- The exclusive or of two digits, as a remainder.
abbrev pub xor_digit : ℕ → ℕ → ℕ
xor_digit x m = (x + m) % 2

differ-eq : (x m : ℕ) → x < 2 → m < 2 → differ x m ≡ xor_digit x m
differ-eq zero zero p q = refl
differ-eq zero (suc zero) p q = refl
differ-eq (suc zero) zero p q = refl
differ-eq (suc zero) (suc zero) p q = refl
differ-eq zero (suc (suc m)) p q = absurd (omega arith)
differ-eq (suc zero) (suc (suc m)) p q = absurd (omega arith)
differ-eq (suc (suc x)) m p q = absurd (omega arith)

pub bit_xor_step : (x m : ℕ) → bit_xor x m ≡ bit_xor (x / 2) (m / 2) * 2 + (x % 2 + m % 2) % 2
bit_xor_step zero m = simp bit_xor-bitwise (omega arith)
bit_xor_step (suc x) m = simp bit_xor-bitwise (
    omega (
      arith,
      bitwise_digit (λ y. y) differ x m,
      differ-eq (suc x % 2) (m % 2) (omega arith) (omega arith),
    ))

pub bit_or_step : (x m : ℕ) → bit_or x m ≡ bit_or (x / 2) (m / 2) * 2 + max (x % 2) (m % 2)
bit_or_step zero m = simp bit_or-bitwise (omega arith)
bit_or_step (suc x) m = simp bit_or-bitwise (bitwise_digit (λ y. y) max x m)

-- Induction from `n / 2` to `n`, as fuel.
xor_cancel_fuel : (n x m : ℕ) → x ≤ n → m ≤ n → bit_xor (bit_xor x m) m ≡ x
xor_cancel_fuel zero zero zero p q = refl
xor_cancel_fuel zero (suc x) m p q = absurd (omega arith)
xor_cancel_fuel zero zero (suc m) p q = absurd (omega arith)
xor_cancel_fuel (suc n) x m p q =
    rw (bit_xor_step (bit_xor x m) m) (
      rw (half, xor_cancel_fuel n (x / 2) (m / 2) (omega arith) (omega arith)) (omega (arith, low)))
  where
    half : bit_xor x m / 2 ≡ bit_xor (x / 2) (m / 2)
    half = omega (arith, bit_xor_step x m)

    low : bit_xor x m % 2 ≡ (x % 2 + m % 2) % 2
    low = omega (arith, bit_xor_step x m)

-- A second exclusive or by the same word undoes the first.
pub xor_cancel : (x m : ℕ) → bit_xor (bit_xor x m) m ≡ x
xor_cancel x m = xor_cancel_fuel (x + m) x m (omega arith) (omega arith)

xor_comm_fuel : (n x m : ℕ) → x ≤ n → m ≤ n → bit_xor x m ≡ bit_xor m x
xor_comm_fuel zero zero zero p q = refl
xor_comm_fuel zero (suc x) m p q = absurd (omega arith)
xor_comm_fuel zero zero (suc m) p q = absurd (omega arith)
xor_comm_fuel (suc n) x m p q = omega (
  arith,
  bit_xor_step x m,
  bit_xor_step m x,
  xor_comm_fuel n (x / 2) (m / 2) (omega arith) (omega arith),
)

pub xor_comm : (x m : ℕ) → bit_xor x m ≡ bit_xor m x
xor_comm x m = xor_comm_fuel (x + m) x m (omega arith) (omega arith)

pub zero-xor : (x : ℕ) → bit_xor 0 x ≡ x
zero-xor x = bit_xor-bitwise 0 x

pub xor-lt : (k x m : ℕ) → x < 2 ^ k → m < 2 ^ k → bit_xor x m < 2 ^ k
xor-lt zero zero zero p q = omega (arith, zero-xor 0)
xor-lt zero (suc x) m p q = absurd (omega arith)
xor-lt zero zero (suc m) p q = absurd (omega arith)
xor-lt (suc k) x m p q = omega (
  arith,
  pow-suc 2 k,
  bit_xor_step x m,
  xor-lt k (x / 2) (m / 2) (omega (arith, pow-suc 2 k)) (omega (arith, pow-suc 2 k)),
)

pub zero-or : (x : ℕ) → bit_or 0 x ≡ x
zero-or x = bit_or-bitwise 0 x

pub or-lt : (k x m : ℕ) → x < 2 ^ k → m < 2 ^ k → bit_or x m < 2 ^ k
or-lt zero zero zero p q = omega (arith, zero-or 0)
or-lt zero (suc x) m p q = absurd (omega arith)
or-lt zero zero (suc m) p q = absurd (omega arith)
or-lt (suc k) x m p q = omega (
  arith,
  pow-suc 2 k,
  bit_or_step x m,
  or-lt k (x / 2) (m / 2) (omega (arith, pow-suc 2 k)) (omega (arith, pow-suc 2 k)),
)

or_zero_fuel : (n x : ℕ) → x ≤ n → bit_or x 0 ≡ x
or_zero_fuel zero zero p = refl
or_zero_fuel zero (suc x) p = absurd (omega arith)
or_zero_fuel (suc n) x p = omega (arith, bit_or_step x 0, or_zero_fuel n (x / 2) (omega arith))

-- `|` of a field above bit `k` and one below it is their sum.
pub or_disjoint : (k q r : ℕ) → r < 2 ^ k → bit_or (q * 2 ^ k) r ≡ q * 2 ^ k + r
or_disjoint zero q r h = ground (arith, or_zero_fuel q q)
or_disjoint (suc k) q r h = ground (
  arith,
  pow-suc 2 k,
  doubled,
  bit_or_step (q * 2 ^ suc k) r,
  or_disjoint k q (r / 2) (omega (arith, pow-suc 2 k)),
)
  where
    doubled : q * 2 ^ suc k ≡ 2 * (q * 2 ^ k)
    doubled = omega (arith, ap (λ (t : ℕ). q * t) (pow-suc 2 k))

or_comm_fuel : (n x m : ℕ) → x ≤ n → m ≤ n → bit_or x m ≡ bit_or m x
or_comm_fuel zero zero zero p q = refl
or_comm_fuel zero (suc x) m p q = absurd (omega arith)
or_comm_fuel zero zero (suc m) p q = absurd (omega arith)
or_comm_fuel (suc n) x m p q = omega (
  arith,
  bit_or_step x m,
  bit_or_step m x,
  or_comm_fuel n (x / 2) (m / 2) (omega arith) (omega arith),
)

pub or_comm : (x m : ℕ) → bit_or x m ≡ bit_or m x
or_comm x m = or_comm_fuel (x + m) x m (omega arith) (omega arith)

pub bit_and_step : (x m : ℕ) → bit_and x m ≡ bit_and (x / 2) (m / 2) * 2 + min (x % 2) (m % 2)
bit_and_step zero m = simp bit_and-bitwise (omega arith)
bit_and_step (suc x) m = simp bit_and-bitwise (bitwise_digit (λ y. 0) min x m)

and_zero_fuel : (n x : ℕ) → x ≤ n → bit_and x 0 ≡ 0
and_zero_fuel zero zero p = refl
and_zero_fuel zero (suc x) p = absurd (omega arith)
and_zero_fuel (suc n) x p = omega (arith, bit_and_step x 0, and_zero_fuel n (x / 2) (omega arith))

-- A mask of ones keeps the low bits: one digit to a step.
and-one : (x : ℕ) → bit_and x 1 ≡ x % 2
and-one x = omega (arith, bit_and_step x 1, and_zero_fuel (x / 2) (x / 2))

pub and_seven : (x : ℕ) → bit_and x 7 ≡ x % 8
and_seven x = omega (arith, bit_and_step x 7, bit_and_step (x / 2) 3, and-one (x / 2 / 2))

and_31 : (x : ℕ) → bit_and x 31 ≡ x % 32
and_31 x = omega (arith, bit_and_step x 31, bit_and_step (x / 2) 15, and_seven (x / 2 / 2))

pub and_127 : (x : ℕ) → bit_and x 127 ≡ x % 128
and_127 x = omega (arith, bit_and_step x 127, bit_and_step (x / 2) 63, and_31 (x / 2 / 2))

and_eight : (x : ℕ) → bit_and x 8 ≡ x / 8 % 2 * 8
and_eight x = omega (
  arith,
  bit_and_step x 8,
  bit_and_step (x / 2) 4,
  bit_and_step (x / 2 / 2) 2,
  and-one (x / 2 / 2 / 2),
)

-- The top bit of a byte.
pub and_128 : (x : ℕ) → bit_and x 128 ≡ x / 128 % 2 * 128
and_128 x = omega (
  arith,
  bit_and_step x 128,
  bit_and_step (x / 2) 64,
  bit_and_step (x / 2 / 2) 32,
  bit_and_step (x / 2 / 2 / 2) 16,
  and_eight (x / 2 / 2 / 2 / 2),
)

pub xor-half : (x m : ℕ) → bit_xor x m / 2 ≡ bit_xor (x / 2) (m / 2)
xor-half x m = omega (arith, bit_xor_step x m)

-- `^` of a field above bit `k` and one below it is their sum.
pub xor_disjoint : (k q r : ℕ) → r < 2 ^ k → bit_xor r (q * 2 ^ k) ≡ q * 2 ^ k + r
xor_disjoint zero q zero h = ground (arith, zero-xor q)
xor_disjoint zero q (suc r) h = absurd (omega arith)
xor_disjoint (suc k) q r h = ground (
  arith,
  pow-suc 2 k,
  doubled,
  bit_xor_step r (q * 2 ^ suc k),
  xor_disjoint k q (r / 2) (omega (arith, pow-suc 2 k)),
)
  where
    doubled : q * 2 ^ suc k ≡ 2 * (q * 2 ^ k)
    doubled = omega (arith, ap (λ (t : ℕ). q * t) (pow-suc 2 k))

-- The lowest `k` digits of a number.
low : ℕ → ℕ → ℕ
low zero x = 0
low (suc k) x = low k (x / 2) * 2 + x % 2

low-xor : (k x m : ℕ) → low k (bit_xor x m) ≡ bit_xor (low k x) (low k m)
unfolding low
low-xor zero x m = omega (arith, zero-xor 0)
low-xor (suc k) x m = omega (
  arith,
  bit_xor_step x m,
  ap (low k) (xor-half x m),
  low-xor k (x / 2) (m / 2),
  bit_xor_step (low k (x / 2) * 2 + x % 2) (low k (m / 2) * 2 + m % 2),
  halves,
)
  where
    even : (n d : ℕ) → (n * 2 + d % 2) / 2 ≡ n
    even n d = omega arith

    halves :
        bit_xor ((low k (x / 2) * 2 + x % 2) / 2) ((low k (m / 2) * 2 + m % 2) / 2)
        ≡ bit_xor (low k (x / 2)) (low k (m / 2))
    halves = rw (even (low k (x / 2)) x, even (low k (m / 2)) m)

low-eight : (x : ℕ) → low 8 x ≡ x % 2 ^ 8
unfolding low
low-eight x = omega arith

div-suc : (k x : ℕ) → x / 2 ^ suc k ≡ x / 2 / 2 ^ k
div-suc k x =
    sym (div-div-eq-div-mul x 2 (2 ^ k) ∙ ap (λ (t : ℕ). x / t) (omega (arith, pow-suc 2 k)))

div-zero : (x : ℕ) → x / 2 ^ 0 ≡ x
div-zero x = omega arith

xor-div : (k x m : ℕ) → bit_xor x m / 2 ^ k ≡ bit_xor (x / 2 ^ k) (m / 2 ^ k)
xor-div zero x m = rw (div-zero (bit_xor x m), div-zero x, div-zero m)
xor-div (suc k) x m =
    rw (div-suc k (bit_xor x m), div-suc k x, div-suc k m, xor-half x m) (xor-div k (x / 2) (m / 2))

-- The exclusive or of two numbers, at the byte that starts at bit `k`.
pub byte-xor :
    (k x m : ℕ) → bit_xor x m / 2 ^ k % 2 ^ 8 ≡ bit_xor (x / 2 ^ k % 2 ^ 8) (m / 2 ^ k % 2 ^ 8)
byte-xor k x m =
    rw (xor-div k x m, sym (low-eight (bit_xor (x / 2 ^ k) (m / 2 ^ k))))
      (low-xor 8 (x / 2 ^ k) (m / 2 ^ k) ∙ rw (low-eight (x / 2 ^ k), low-eight (m / 2 ^ k)))
