-- ===== src/Base/Bits.antt =====
-- Masks of the form 2 ^ k - 1, checked value by value.
use Prim.Native.Nat.{ℕ, zero, suc, ◌≤◌, ◌<◌, bit_and}
use mathlib.Core.Path.{◌≡◌, refl}
use mathlib.Core.Bool.{Bool, true, ◌&&◌}
use native.Mathlib.Omega.{arith}
use pakeles.Base.Tests.{◌==◌}

-- The mask `m` keeps each number below `n`.
keeps_below : ℕ → ℕ → Bool
keeps_below m zero = true
keeps_below m (suc n) = (bit_and n m == n) && keeps_below m n

keeps_below→eq : (m n x : ℕ) → keeps_below m n ≡ true → x < n → bit_and x m ≡ x
unfolding keeps_below
keeps_below→eq m zero x h lt = elim lt [ ]
keeps_below→eq m (suc n) x h lt = ground (arith, keeps_below→eq m n x)

pub mask_0 : (x : ℕ) → x ≤ 0 → bit_and x 0 ≡ x
unfolding keeps_below
mask_0 x h = keeps_below→eq 0 1 x refl (omega arith)

pub mask_7 : (x : ℕ) → x ≤ 7 → bit_and x 7 ≡ x
unfolding keeps_below
mask_7 x h = keeps_below→eq 7 8 x refl (omega arith)

-- PK_BUF_MASK
pub mask_4095 : (x : ℕ) → x ≤ 4095 → bit_and x 4095 ≡ x
unfolding keeps_below
mask_4095 x h = keeps_below→eq 4095 4096 x refl (omega arith)
