-- ===== src/Values/Numbers.antt =====
-- The bits of a packet and the number that consecutive bits stand for, most significant first: what
-- docs/reference/ir-semantics.md calls the value of a field. Nothing here follows the C code.
use pakeles.Base.{
  ℕ, zero, suc, ◌+◌, ◌-◌, ◌*◌, ◌/◌, ◌%◌, ◌^◌, ◌≤◌, ◌<◌, ◌≡◌, refl, ap, ap₂, ◌∙◌, arith, List, [],
  ◌∷◌, All, some, length, get_elem?,
}
use native.Mathlib.Nat.{zero-add, add-zero, suc-add, mul_assoc, add-mul, mul-le-mul_right}

-- each element is the value of a byte
abbrev pub IsBytes : List ℕ → Type 0
IsBytes = All (λ x. x < 256)

-- byte k; 0 past the end
abbrev pub byte : List ℕ → ℕ → ℕ
byte [] k = 0
byte (x ∷ xs) zero = x
byte (x ∷ xs) (suc k) = byte xs k

abbrev pub bit : List ℕ → ℕ → ℕ
bit buf p = byte buf (p / 8) / 2 ^ (7 - p % 8) % 2

-- the n bits from position p
abbrev pub number : List ℕ → ℕ → ℕ → ℕ
number buf zero p = 0
number buf (suc n) p = bit buf p * 2 ^ n + number buf n (p + 1)

pub get_elem?-byte : (buf : List ℕ) (k : ℕ) → k < length buf → get_elem? buf k ≡ some (byte buf k)
get_elem?-byte [] k h = elim h [ ]
get_elem?-byte (x ∷ xs) zero h = refl
get_elem?-byte (x ∷ xs) (suc k) h = get_elem?-byte xs k (omega arith)

pub byte-lt : (buf : List ℕ) (k : ℕ) → IsBytes buf → byte buf k < 256
byte-lt [] k h = omega arith
byte-lt (x ∷ xs) zero h = h.0
byte-lt (x ∷ xs) (suc k) h = byte-lt xs k h.1

pub bit-le : (buf : List ℕ) (p : ℕ) → bit buf p ≤ 1
bit-le buf p = omega arith

pub number-lt : (buf : List ℕ) (n p : ℕ) → number buf n p < 2 ^ n
number-lt buf zero p = omega arith
number-lt buf (suc n) p =
    omega (arith, number-lt buf n (p + 1), mul-le-mul_right (2 ^ n) (bit-le buf p))

-- position j of byte k
pub bit-in_byte :
    (buf : List ℕ) (k j p : ℕ) → p ≡ 8 * k + j → j < 8 → bit buf p ≡ byte buf k / 2 ^ (7 - j) % 2
bit-in_byte buf k j p e h = ap₂ (λ a c. byte buf a / 2 ^ (7 - c) % 2) (omega arith) (omega arith)

eight_digits :
    (x : ℕ)
    → x < 256
    → x / 128 % 2 * 128
        + (x / 64 % 2 * 64
            + (x / 32 % 2 * 32
                + (x / 16 % 2 * 16
                    + (x / 8 % 2 * 8 + (x / 4 % 2 * 4 + (x / 2 % 2 * 2 + (x / 1 % 2 * 1 + 0)))))))
      ≡ x
eight_digits x h = omega arith

-- the eight bits of a byte
pub number-byte : (buf : List ℕ) (k p : ℕ) → IsBytes buf → p ≡ 8 * k → number buf 8 p ≡ byte buf k
number-byte buf k p h e =
    rw
      (
        bit-in_byte buf k 0 p (omega arith) (omega arith),
        bit-in_byte buf k 1 (p + 1) (omega arith) (omega arith),
        bit-in_byte buf k 2 (p + 1 + 1) (omega arith) (omega arith),
        bit-in_byte buf k 3 (p + 1 + 1 + 1) (omega arith) (omega arith),
        bit-in_byte buf k 4 (p + 1 + 1 + 1 + 1) (omega arith) (omega arith),
        bit-in_byte buf k 5 (p + 1 + 1 + 1 + 1 + 1) (omega arith) (omega arith),
        bit-in_byte buf k 6 (p + 1 + 1 + 1 + 1 + 1 + 1) (omega arith) (omega arith),
        bit-in_byte buf k 7 (p + 1 + 1 + 1 + 1 + 1 + 1 + 1) (omega arith) (omega arith),
      )
      (eight_digits (byte buf k) (byte-lt buf k h))

pub two_pow-add : (n m : ℕ) → 2 ^ (n + m) ≡ 2 ^ n * 2 ^ m
two_pow-add zero m = rw (zero-add m) (omega arith)
two_pow-add (suc n) m = rw (suc-add n m) (grind (arith, two_pow-add n m))

-- the first n bits of n + m
pub number-add :
    (buf : List ℕ) (n m p : ℕ)
    → number buf (n + m) p ≡ number buf n p * 2 ^ m + number buf m (p + n)
number-add buf zero m p = rw (zero-add m, add-zero p) (omega arith)
number-add buf (suc n) m p =
    ap (λ k. number buf k p) suc_add
    ∙ omega (
      arith,
      number-add buf n m (p + 1),
      two_pow-add n m,
      add-mul (bit buf p * 2 ^ n) (number buf n (p + 1)) (2 ^ m),
      mul_assoc (bit buf p) (2 ^ n) (2 ^ m),
      ap (λ x. bit buf p * x) (two_pow-add n m),
      ap (number buf m) shift,
    )
  where
    suc_add : suc n + m ≡ suc (n + m)
    suc_add = omega arith

    shift : p + 1 + n ≡ p + suc n
    shift = omega arith
