-- ===== src/Base/Fields.antt =====
-- `bit_or` of fields that do not overlap, and `bit_and` with a run of ones, by recursion on the
-- digits that the operations stand for, with any count of digits that is enough.
use Prim.Native.Nat.{
  ℕ, zero, suc, ◌+◌, ◌-◌, ◌*◌, ◌/◌, ◌%◌, ◌^◌, ◌≤◌, ◌<◌, min, max, digits, bit_and, bit_or,
  bit_and-bitwise, bit_or-bitwise,
}
use mathlib.Core.Path.{◌≡◌, refl, sym, ap, ◌∙◌, ◌≡⟨◌⟩◌, ◌∎}
use native.Mathlib.Nat.{
  zero-mod, add-mul-mod_self_left, mod-eq_of_lt, mod-lt, pow-suc, pow-succ', mul_assoc, one-le-pow,
  div-add-mod,
}
use native.Mathlib.Omega.{arith}

abbrev or_digits : ℕ → ℕ → ℕ → ℕ
or_digits = digits (λ y. y) max

abbrev and_digits : ℕ → ℕ → ℕ → ℕ
and_digits = digits (λ y. 0) min

or_digits-zero : (n x : ℕ) → x ≤ n → or_digits n x 0 ≡ x
or_digits-zero zero x h = omega (arith, h)
or_digits-zero (suc n) zero h = refl
or_digits-zero (suc n) (suc x) h = omega (arith, or_digits-zero n (suc x / 2) (omega arith))

or_digits-suc :
    (n a y : ℕ)
    → or_digits (suc n) (suc a) y ≡ or_digits n (suc a / 2) (y / 2) * 2 + max (suc a % 2) (y % 2)
or_digits-suc n a y = refl

and_digits-suc :
    (n a y : ℕ)
    → and_digits (suc n) (suc a) y ≡ and_digits n (suc a / 2) (y / 2) * 2 + min (suc a % 2) (y % 2)
and_digits-suc n a y = refl

times_pow-suc : (x k : ℕ) → x * 2 ^ suc k ≡ x * 2 ^ k * 2
times_pow-suc x k = ap (λ p. x * p) (pow-suc 2 k) ∙ sym (mul_assoc x (2 ^ k) 2)

or_digits-fields : (k n x a y : ℕ) → a ≡ x * 2 ^ k → y < 2 ^ k → a ≤ n → or_digits n a y ≡ a + y
or_digits-fields zero n x a zero e l h = omega (arith, or_digits-zero n a h)
or_digits-fields zero n x a (suc y) e l h = absurd (omega arith)
or_digits-fields (suc k) zero x a y e l h = omega (arith, h)
or_digits-fields (suc k) (suc n) x zero y e l h = omega arith
or_digits-fields (suc k) (suc n) x (suc a) y e l h =
    or_digits-suc n a y
    ∙ omega (
      arith,
      or_digits-fields k n x (suc a / 2) (y / 2) (omega (arith, times_pow-suc x k)) (omega arith)
          (omega arith),
      times_pow-suc x k,
    )

-- the lowest digit of a remainder
halve-mod : (m a : ℕ) → 0 < m → a % (2 * m) ≡ a / 2 % m * 2 + a % 2
halve-mod m a p =
    a % (2 * m)
    ≡⟨ ap (λ x. x % (2 * m)) split ⟩ (s + 2 * m * (a / 2 / m)) % (2 * m)
    ≡⟨ add-mul-mod_self_left s (2 * m) (a / 2 / m) ⟩ s % (2 * m)
    ≡⟨ mod-eq_of_lt (grind (arith, mod-lt (a / 2) p)) ⟩ s ∎
  where
    s : ℕ
    s = a / 2 % m * 2 + a % 2

    split : a ≡ s + 2 * m * (a / 2 / m)
    split = grind (arith, div-add-mod (a / 2) m)

ones-halve : (k : ℕ) → ((2 ^ suc k - 1) / 2 ≡ 2 ^ k - 1) × ((2 ^ suc k - 1) % 2 ≡ 1)
ones-halve k =
    (omega (arith, one-le-pow k 2 (omega arith)), omega (arith, one-le-pow k 2 (omega arith)))

and_digits-ones : (k n a : ℕ) → a ≤ n → and_digits n a (2 ^ k - 1) ≡ a % 2 ^ k
and_digits-ones k zero a h = omega (arith, h, zero-mod (2 ^ k))
and_digits-ones k (suc n) zero h = omega (arith, zero-mod (2 ^ k))
and_digits-ones zero (suc n) (suc a) h =
    omega (arith, and_digits-ones zero n (suc a / 2) (omega arith))
and_digits-ones (suc k) (suc n) (suc a) h =
    and_digits-suc n a (2 ^ suc k - 1)
    ∙ omega (
      arith,
      ap (and_digits n (suc a / 2)) (ones-halve k).0,
      and_digits-ones k n (suc a / 2) (omega arith),
      ones-halve k,
      halve-mod (2 ^ k) (suc a) (one-le-pow k 2 (omega arith)),
      ap (λ m. suc a % m) (pow-succ' 2 k),
    )

-- a field above one of k bits
pub bit_or-fields : (k x y : ℕ) → y < 2 ^ k → bit_or (x * 2 ^ k) y ≡ x * 2 ^ k + y
bit_or-fields k x y l = simp bit_or-bitwise (or_digits-fields k _ x _ y refl l (omega arith))

-- the lowest k bits
pub bit_and-ones : (k a : ℕ) → bit_and a (2 ^ k - 1) ≡ a % 2 ^ k
bit_and-ones k a = simp bit_and-bitwise (and_digits-ones k a a (omega arith))

pub bit_and_1 : (a : ℕ) → bit_and a 1 ≡ a % 2
bit_and_1 = bit_and-ones 1

pub bit_and_7 : (a : ℕ) → bit_and a 7 ≡ a % 8
bit_and_7 = bit_and-ones 3

or_digits_below : (k n x y b : ℕ) → b ≡ x * 2 ^ k → y < 2 ^ k → y ≤ n → or_digits n y b ≡ y + b
or_digits_below k zero x y b e l h = omega (arith, h)
or_digits_below k (suc n) x zero b e l h = omega arith
or_digits_below zero (suc n) x (suc y) b e l h = absurd (omega arith)
or_digits_below (suc k) (suc n) x (suc y) b e l h =
    or_digits-suc n y b
    ∙ omega (
      arith,
      or_digits_below k n x (suc y / 2) (b / 2) (omega (arith, times_pow-suc x k)) (omega arith)
          (omega arith),
      times_pow-suc x k,
    )

-- the same fields, the low one first
pub bit_or-fields_low : (k x y : ℕ) → y < 2 ^ k → bit_or y (x * 2 ^ k) ≡ y + x * 2 ^ k
bit_or-fields_low k x y l = simp bit_or-bitwise (or_digits_below k y x y _ refl l (omega arith))
