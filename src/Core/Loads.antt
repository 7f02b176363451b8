-- ===== src/Core/Loads.antt =====
-- Packet reads.
use pakeles.Base.{ℕ, zero, suc, ◌+◌, ◌-◌, ◌*◌, ◌/◌, ◌^◌, bit_and, bit_or}
use pakeles.Base.{none, some, get_elem?, add64, shl64, shr64}
use pakeles.Core.Monad.{M, next, fault, pure, ◌>>=◌}

-- The bit of a byte `x` that `pk_read_bits` takes at position `pos`.
unfoldable pub bit_at : ℕ → ℕ → ℕ
bit_at x pos = bit_and (x / 2 ^ (7 - bit_and pos 7)) 1

module _ {B : Type 0} where
  -- `buf[at]`
  unfoldable pub read_byte : ℕ → M B ℕ
  read_byte at i l b = elim (get_elem? i.buf (i.index at)) [ some v ↦ next v l b | none ↦ fault ]

  -- `((uint64_t)buf[at + 0] << 8 * (k - 1)) | … | (uint64_t)buf[at + k - 1]`, the load of k bytes
  -- where the cursor is known to be aligned
  unfoldable pub load_be : ℕ → ℕ → M B ℕ
  load_be zero at = pure 0
  load_be (suc zero) at = read_byte at
  load_be (suc (suc k)) at = do
    high ← read_byte at
    low ← load_be (suc k) (at + 1)
    pure (bit_or (shl64 high (8 * suc k)) low)

  -- the loop of `pk_read_bits`: `n` rounds are left, and `i` of them are done
  unfoldable pub read_bits_from : ℕ → ℕ → ℕ → ℕ → M B ℕ
  read_bits_from zero off i v = pure v
  read_bits_from (suc n) off i v = do
    x ← read_byte (shr64 (add64 off i) 3)
    read_bits_from n off (i + 1) (bit_or (shl64 v 1) (bit_at x (add64 off i)))

  -- `pk_read_bits(buf, avail, off, n)`; it does not look at `avail`
  unfoldable pub read_bits : ℕ → ℕ → M B ℕ
  read_bits off n = read_bits_from n off 0 0
