-- ===== src/Quic/Lengths.antt =====
-- The variable-length integers of benchmarks/industry/quic_initial/gen/parser.c against RFC 9000,
-- section 16.
use pakeles.Base.{
  ℕ, suc, ◌+◌, ◌-◌, ◌*◌, ◌%◌, ◌^◌, ◌≤◌, ◌<◌, ◌≡◌, refl, sym, ap, arith, Option, some, inl, inr,
  ◌==◌, if◌then◌else◌, u8, u32, u64,
}
use mathlib.Core.Path.{subst}
use pakeles.Core.{Input, Locals, ◌>>=◌, loop, returned, accept, reject, pure, Result}
use pakeles.Safety.{Fits}
use pakeles.Values.{IsBytes, number, number-lt, bits-next, bytes-next}
use pakeles.Results.{ends, field}
use pakeles.Quic.Integers.{
  varint_bytes, varint, four_cases, together, u8-number, u32-number, u64-number,
}
use pakeles.Quic.Types.{Body, parse_len_lead, len_w1, len_w2, len_w4, len_w8, unreachable}
use pakeles.Quic.Varint.{case_parse_len_lead, case_len_w1, case_len_w2, case_len_w4, case_len_w8}
use pakeles.Quic.Parse.{step}

-- What `parse_len_lead` and the state behind it are to return.
abbrev pub Accepted : Option (Result Body) → (Body → ℕ) → ℕ → ℕ → Type 0
Accepted r f consumed value = (ends r ≡ some (0, 0, consumed)) × (field f r ≡ some value)

module _ {i : Input} (fits : Fits i) (held : IsBytes i.buf) (l : Locals) (b : Body)
    (aligned : l.off % 8 ≡ 0) where
  abbrev lead : ℕ → Body
  lead w = record b {
    len_lead_present = 1;
    len_lead = record { prefix = w; v6 = u8 (number i.buf 6 (l.off + 2)) };
  }

  lead-next :
      (w : ℕ)
      → number i.buf 2 l.off ≡ w
      → w < 4
      → l.off + 8 ≤ i.bit_len
      → case_parse_len_lead i l b
        ≡ (if w == 0
              then pure len_w1
              else if w == 1
              then pure len_w2
              else if w == 2
              then pure len_w4
              else if w == 3
              then pure len_w8
              else reject unreachable)
            i
            (record l { off = l.off + 2 + 6 })
            (lead w)
  unfolding case_parse_len_lead ◌>>=◌
  lead-next w e small room =
      let prefix : u8 (number i.buf 2 l.off) ≡ w = omega (arith, e) in
      rw
        (
          bits-next fits l _ (omega arith) 2 _ (omega arith) (omega arith),
          prefix,
          bits-next fits (record l { off = l.off + 2 }) _ (omega arith) 6 _ (omega arith)
              (omega arith),
        )
        refl

  -- Enough rounds are left, and the integer takes k bytes.
  abbrev Stored : ℕ → ℕ → Type 0
  Stored fuel k =
      Accepted (returned (loop step (suc (suc fuel)) parse_len_lead i l b)) (λ b. b.m_length)
        (l.off + 8 * k) (number i.buf (8 * k - 2) (l.off + 2))

  w1-Stored : (fuel : ℕ) → number i.buf 2 l.off ≡ 0 → l.off + 8 ≤ i.bit_len → Stored fuel 1
  unfolding loop step case_len_w1 ◌>>=◌ returned accept
  w1-Stored fuel e room = rw (lead-next 0 e (omega arith) room) (
    ap (λ n. some (0, 0, n)) (omega arith),
    ap some (omega (arith, number-lt i.buf 6 (l.off + 2))),
  )

  w2-Stored : (fuel : ℕ) → number i.buf 2 l.off ≡ 1 → l.off + 16 ≤ i.bit_len → Stored fuel 2
  unfolding loop step case_len_w2 ◌>>=◌ returned accept
  w2-Stored fuel e room =
      rw
        (
          lead-next 1 e (omega arith) (omega arith),
          bytes-next fits (record l { off = l.off + 2 + 6 }) _ (omega arith) 1 _ held (omega arith)
              (omega arith) (omega arith),
        )
        (
          ap (λ n. some (0, 0, n)) (omega arith),
          ap some (together i.buf l.off 8 u8 (omega arith) (u8-number i.buf (l.off + 2 + 6))),
        )

  w4-Stored : (fuel : ℕ) → number i.buf 2 l.off ≡ 2 → l.off + 32 ≤ i.bit_len → Stored fuel 4
  unfolding loop step case_len_w4 ◌>>=◌ returned accept
  w4-Stored fuel e room =
      rw
        (
          lead-next 2 e (omega arith) (omega arith),
          bytes-next fits (record l { off = l.off + 2 + 6 }) _ (omega arith) 3 _ held (omega arith)
              (omega arith) (omega arith),
        )
        (
          ap (λ n. some (0, 0, n)) (omega arith),
          ap some (together i.buf l.off 24 u32 (omega arith) (u32-number i.buf (l.off + 2 + 6))),
        )

  w8-Stored : (fuel : ℕ) → number i.buf 2 l.off ≡ 3 → l.off + 64 ≤ i.bit_len → Stored fuel 8
  unfolding loop step case_len_w8 ◌>>=◌ returned accept
  w8-Stored fuel e room =
      rw
        (
          lead-next 3 e (omega arith) (omega arith),
          bytes-next fits (record l { off = l.off + 2 + 6 }) _ (omega arith) 7 _ held (omega arith)
              (omega arith) (omega arith),
        )
        (
          ap (λ n. some (0, 0, n)) (omega arith),
          ap some (together i.buf l.off 56 u64 (omega arith) (u64-number i.buf (l.off + 2 + 6))),
        )

  -- From `parse_len_lead`, at a byte boundary, with two rounds left and the integer inside a packet of
  -- bytes:
  -- the parser accepts behind the integer, and `m_length` is its value.
  pub len_lead-varint :
      (fuel : ℕ)
      → l.off + 8 * varint_bytes i.buf l.off ≤ i.bit_len
      → Accepted
          (returned (loop step (suc (suc fuel)) parse_len_lead i l b))
          (λ b. b.m_length)
          (l.off + 8 * varint_bytes i.buf l.off)
          (varint i.buf l.off)
  len_lead-varint fuel room =
      elim (four_cases (number i.buf 2 l.off) (number-lt i.buf 2 l.off))
        as (λ _. Stored fuel (varint_bytes i.buf l.off)) [
          | inl e ↦ at e (w1-Stored fuel e)
          | inr (inl e) ↦ at e (w2-Stored fuel e)
          | inr (inr (inl e)) ↦ at e (w4-Stored fuel e)
          | inr (inr (inr e)) ↦ at e (w8-Stored fuel e)
        ]
    where
      at :
          {w : ℕ}
          → number i.buf 2 l.off ≡ w
          → (l.off + 8 * 2 ^ w ≤ i.bit_len → Stored fuel (2 ^ w))
          → Stored fuel (varint_bytes i.buf l.off)
      at e s = subst (λ w. l.off + 8 * 2 ^ w ≤ i.bit_len → Stored fuel (2 ^ w)) (sym e) s room
