-- ===== src/Quic/Integers.antt =====
-- Variable-length integers as RFC 9000, section 16, defines them, and how the parser of quic_initial
-- puts one together from its two fields.
use pakeles.Base.{
  ℕ, zero, suc, ◌+◌, ◌-◌, ◌*◌, ◌^◌, ◌≤◌, ◌<◌, ◌≡◌, refl, sym, ap, ◌∙◌, arith, List, ◌⊎◌, inl, inr,
  bit_or, bit_or-fields, shl64, u8, u32, u64,
}
use native.Mathlib.Nat.{mod-eq_of_lt, pow-le-pow_right, mul-le-mul}
use pakeles.Values.{number, number-lt, number-add}

-- How many bytes the integer at bit `p` takes: the first two bits are the logarithm.
abbrev pub varint_bytes : List ℕ → ℕ → ℕ
varint_bytes buf p = 2 ^ number buf 2 p

-- Its value: the bits behind those two.
abbrev pub varint : List ℕ → ℕ → ℕ
varint buf p = number buf (8 * varint_bytes buf p - 2) (p + 2)

-- Six bits above m more.
join :
    (buf : List ℕ) (m p : ℕ)
    → m ≤ 56
    → bit_or (shl64 (u8 (number buf 6 p)) m) (number buf m (p + 6)) ≡ number buf (6 + m) p
join buf m p h =
    rw (mod-eq_of_lt six, mod-eq_of_lt small)
      (bit_or-fields m (number buf 6 p) _ (number-lt buf m (p + 6)) ∙ sym (number-add buf 6 m p))
  where
    six : number buf 6 p < 2 ^ 8
    six = omega (arith, number-lt buf 6 p)

    small : number buf 6 p * 2 ^ m < 2 ^ 64
    small = omega (
      arith,
      mul-le-mul {n₁ = number buf 6 p} {m₁ = 2 ^ m} {n₂ = 63} {m₂ = 2 ^ 56}
          (omega (arith, number-lt buf 6 p)) (pow-le-pow_right {n = 2} (omega arith) h),
    )

pub four_cases : (n : ℕ) → n < 4 → (n ≡ 0) ⊎ ((n ≡ 1) ⊎ ((n ≡ 2) ⊎ (n ≡ 3)))
four_cases zero h = inl refl
four_cases (suc zero) h = inr (inl refl)
four_cases (suc (suc zero)) h = inr (inr (inl refl))
four_cases (suc (suc (suc zero))) h = inr (inr (inr refl))
four_cases (suc (suc (suc (suc n)))) h = absurd (omega arith)

-- the fields of the lead and of m more bits, put together
pub together :
    (buf : List ℕ) (p m : ℕ) (cast : ℕ → ℕ)
    → m ≤ 56
    → cast (number buf m (p + 2 + 6)) ≡ number buf m (p + 2 + 6)
    → bit_or (shl64 (u8 (number buf 6 (p + 2))) m) (cast (number buf m (p + 2 + 6)))
      ≡ number buf (6 + m) (p + 2)
together buf p m cast h e =
    ap (bit_or (shl64 (u8 (number buf 6 (p + 2))) m)) e ∙ join buf m (p + 2) h

-- the casts of the tails keep them
pub u8-number : (buf : List ℕ) (p : ℕ) → u8 (number buf 8 p) ≡ number buf 8 p
u8-number buf p = mod-eq_of_lt (number-lt buf 8 p)

pub u32-number : (buf : List ℕ) (p : ℕ) → u32 (number buf 24 p) ≡ number buf 24 p
u32-number buf p = omega (arith, number-lt buf 24 p)

pub u64-number : (buf : List ℕ) (p : ℕ) → u64 (number buf 56 p) ≡ number buf 56 p
u64-number buf p = omega (arith, number-lt buf 56 p)
