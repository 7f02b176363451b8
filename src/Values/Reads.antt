-- ===== src/Values/Reads.antt =====
-- `pk_read_bits`, and the loads that stand for it at an aligned cursor, against numbers of bits.
use pakeles.Base.{
  ℕ, zero, suc, ◌+◌, ◌-◌, ◌*◌, ◌/◌, ◌%◌, ◌^◌, ◌≤◌, ◌<◌, ◌≡◌, refl, ap, ◌∙◌, arith, add64, shl64,
  shr64, bit_or, bit_or-fields, bit_and_1, bit_and_7,
}
use native.Mathlib.Nat.{
  mod-eq_of_lt, pow-le-pow_right, pow-suc, pow-succ', add-zero, mul-le-mul, mul_assoc, add-mul,
}
use pakeles.Core.{Input, Locals, next, ◌>>=◌, read_byte, load_be, bit_at, read_bits_from, read_bits}
use pakeles.Safety.{Fits}
use pakeles.Values.Numbers.{
  IsBytes, byte, bit, number, get_elem?-byte, byte-lt, bit-le, number-lt, number-byte, number-add,
  two_pow-add,
}

bit_at-bit : (i : Input) (p : ℕ) → bit_at (byte i.buf (p / 8)) p ≡ bit i.buf p
unfolding bit_at
bit_at-bit i p = rw (bit_and_7 p) (bit_and_1 (byte i.buf (p / 8) / 2 ^ (7 - p % 8)))

module _ {B : Type 0} {i : Input} (fits : Fits i) (l : Locals) (b : B) where
  pub read_byte-byte : (at : ℕ) → 8 * at < i.bit_len → read_byte at i l b ≡ next (byte i.buf at) l b
  unfolding read_byte
  read_byte-byte at h =
      rw (fits.plain at h, get_elem?-byte i.buf at (omega (arith, fits.held)), read_byte)

  -- one round shifts in the next bit
  shift_in :
      (j v p : ℕ) → v < 2 ^ j → j < 64 → bit_or (shl64 v 1) (bit i.buf p) ≡ v * 2 + bit i.buf p
  shift_in j v p h k =
      rw (mod-eq_of_lt small) (bit_or-fields 1 v (bit i.buf p) (omega (arith, bit-le i.buf p)))
    where
      small : v * 2 < 2 ^ 64
      small = omega (arith, pow-le-pow_right {n = 2} (omega arith) {i = j} {j = 63} (omega arith))

  gather :
      (n v p q : ℕ)
      → q ≡ p + 1
      → (v * 2 + bit i.buf p) * 2 ^ n + number i.buf n q ≡ v * 2 ^ suc n + number i.buf (suc n) p
  gather n v p q e = omega (
    arith,
    ap (number i.buf n) e,
    pow-suc 2 n,
    ap (λ x. v * x) (pow-succ' 2 n),
    mul_assoc v 2 (2 ^ n),
    add-mul (v * 2) (bit i.buf p) (2 ^ n),
  )

  -- the byte at `at` above the m bits behind it
  join :
      (at m : ℕ)
      → IsBytes i.buf
      → m ≤ 56
      → bit_or (shl64 (byte i.buf at) m) (number i.buf m (8 * (at + 1)))
        ≡ number i.buf (8 + m) (8 * at)
  join at m bytes h = rw (mod-eq_of_lt small) (
      bit_or-fields m (byte i.buf at) _ (number-lt i.buf m (8 * (at + 1)))
      ∙ omega (
        arith,
        number-add i.buf 8 m (8 * at),
        ap (λ x. x * 2 ^ m) (number-byte i.buf at (8 * at) bytes refl),
        ap (number i.buf m) {x = 8 * (at + 1)} {y = 8 * at + 8} (omega arith),
      ))
    where
      small : byte i.buf at * 2 ^ m < 2 ^ 64
      small = omega (
        arith,
        mul-le-mul {n₁ = byte i.buf at} {m₁ = 2 ^ m} {n₂ = 255} {m₂ = 2 ^ 56}
            (omega (arith, byte-lt i.buf at bytes)) (pow-le-pow_right {n = 2} (omega arith) h),
      )

  read_bits_from-number :
      (n off j v : ℕ)
      → off + j + n ≤ i.bit_len
      → v < 2 ^ j
      → j + n ≤ 64
      → read_bits_from n off j v i l b ≡ next (v * 2 ^ n + number i.buf n (off + j)) l b
  unfolding read_bits_from ◌>>=◌
  read_bits_from-number zero off j v h s w = ap (λ x. next x l b) (omega arith)
  read_bits_from-number (suc n) off j v h s w =
      let e : add64 off j ≡ off + j = omega (arith, fits.word) in
      rw
        (
          e,
          read_byte-byte ((off + j) / 8) (omega arith),
          bit_at-bit i (off + j),
          shift_in j v (off + j) s (omega arith),
        )
        (read_bits_from-number n off (j + 1) (v * 2 + bit i.buf (off + j)) (omega arith)
            (omega (arith, two_pow-add j 1, bit-le i.buf (off + j))) (omega arith)
          ∙ ap (λ y. next y l b) (gather n v (off + j) (off + (j + 1)) (omega arith)))

  -- `pk_read_bits` of n ≤ 64 bits inside the packet returns the number that those bits stand for, and
  -- changes nothing.
  pub read_bits-number :
      (off n : ℕ)
      → off + n ≤ i.bit_len
      → n ≤ 64
      → read_bits off n i l b ≡ next (number i.buf n off) l b
  unfolding read_bits
  read_bits-number off n h w =
      read_bits_from-number n off 0 0 (omega arith) (omega arith) (omega arith)
      ∙ rw (add-zero off) (ap (λ y. next y l b) (omega arith))

  -- A load of k ≤ 8 bytes inside a packet of bytes returns the number that their bits stand for.
  pub load_be-number :
      (k at : ℕ)
      → IsBytes i.buf
      → 8 * at + 8 * k ≤ i.bit_len
      → k ≤ 8
      → load_be k at i l b ≡ next (number i.buf (8 * k) (8 * at)) l b
  unfolding load_be ◌>>=◌
  load_be-number zero at bytes h w = refl
  load_be-number (suc zero) at bytes h w =
      read_byte-byte at (omega arith) ∙ rw (number-byte i.buf at (8 * at) bytes refl)
  load_be-number (suc (suc k)) at bytes h w =
      rw
        (
          read_byte-byte at (omega arith),
          load_be-number (suc k) (at + 1) bytes (omega arith) (omega arith),
        )
        (ap (λ y. next y l b)
          (join at (8 * suc k) bytes (omega arith)
            ∙ ap (λ n. number i.buf n (8 * at)) (omega arith)))

  -- At an aligned cursor, and inside a packet of bytes, the load of k ≤ 8 bytes does what
  -- `pk_read_bits` of 8 * k bits would.
  pub load_be-read_bits :
      (k off : ℕ)
      → IsBytes i.buf
      → off % 8 ≡ 0
      → off + 8 * k ≤ i.bit_len
      → k ≤ 8
      → load_be k (shr64 off 3) i l b ≡ read_bits off (8 * k) i l b
  load_be-read_bits k off bytes a h w =
      load_be-number k (off / 8) bytes (omega arith) (omega arith)
      ∙ rw (read_bits-number off (8 * k) h (omega arith))
          (ap (λ p. next (number i.buf (8 * k) p) l b) (omega arith))
