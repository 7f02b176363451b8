-- ===== src/Quic/Tokens.antt =====
-- The token of an Initial packet: the states from `parse_tok_lead` to `parse_len_lead`.
use mathlib.Core.Path.{subst}
use pakeles.Base.{
  ℕ, suc, ◌+◌, ◌-◌, ◌*◌, ◌%◌, ◌^◌, ◌≤◌, ◌<◌, ◌≡◌, refl, sym, ap, ◌∙◌, arith, true, inl, inr, ◌==◌,
  leb, if◌then◌else◌, bit_or, shl64, mul64, u8, u32, u64,
}
use pakeles.Core.{Input, Locals, next, ◌>>=◌, loop, reject, pure, run_of}
use pakeles.Safety.{Fits}
use pakeles.Values.{IsBytes, number, number-lt, bits-next, bytes-next, run_of-take_run}
use pakeles.Quic.Integers.{
  varint_bytes, varint, four_cases, together, u8-number, u32-number, u64-number,
}
use pakeles.Quic.Types.{
  Body, parse_len_lead, parse_tok_lead, tok_w1, tok_w2, tok_w4, tok_w8, unreachable,
}
use pakeles.Quic.Varint.{case_parse_tok_lead, case_tok_w1, case_tok_w2, case_tok_w4, case_tok_w8}
use pakeles.Quic.Parse.{step}

-- a run of bytes that ends inside the packet
run_of-next :
    {B : Type 0} {i : Input} (fits : Fits i) (l : Locals) (b : B) (n : ℕ) (put : ℕ → ℕ → B → B)
    → l.off + n ≤ i.bit_len
    → run_of n put i l b ≡ next tt (record l { off = l.off + n }) (put l.off n b)
run_of-next {i = i} fits l b n put h =
    let inside : l.off ≤ i.bit_len = omega arith in
    let room : leb (l.off + n) i.bit_len ≡ true = ground arith in
    run_of-take_run fits l b inside n put ∙ rw room refl

module _ {i : Input} (fits : Fits i) (held : IsBytes i.buf) (l : Locals) (b : Body)
    (aligned : l.off % 8 ≡ 0) where
  abbrev lead : ℕ → Body
  lead w = record b {
    tok_lead_present = 1;
    tok_lead = record { prefix = w; v6 = u8 (number i.buf 6 (l.off + 2)) };
  }

  lead-next :
      (w : ℕ)
      → number i.buf 2 l.off ≡ w
      → w < 4
      → l.off + 8 ≤ i.bit_len
      → case_parse_tok_lead i l b
        ≡ (if w == 0
              then pure tok_w1
              else if w == 1
              then pure tok_w2
              else if w == 2
              then pure tok_w4
              else if w == 3
              then pure tok_w8
              else reject unreachable)
            i
            (record l { off = l.off + 2 + 6 })
            (lead w)
  unfolding case_parse_tok_lead ◌>>=◌
  lead-next w e small room =
      let prefix : u8 (number i.buf 2 l.off) ≡ w = omega (arith, e) in
      rw
        (
          bits-next fits l _ (omega arith) 2 _ (omega arith) (omega arith),
          prefix,
          bits-next fits (record l { off = l.off + 2 }) _ (omega arith) 6 _ (omega arith)
              (omega arith),
        )
        refl

  -- The integer takes k bytes and has the value `v`: the token behind it is passed over, and the loop
  -- goes on at `parse_len_lead`.
  abbrev Passed : ℕ → ℕ → ℕ → Type 0
  Passed fuel k v =
      (b' : Body) × (loop step (suc (suc fuel)) parse_tok_lead i l b
        ≡ loop step fuel parse_len_lead i (record l { off = l.off + 8 * k + mul64 v 8 }) b')
      × (b'.m_token_len ≡ v)

  w1-Passed :
      (fuel : ℕ)
      → number i.buf 2 l.off ≡ 0
      → l.off + 8 + mul64 (number i.buf 6 (l.off + 2)) 8 ≤ i.bit_len
      → Passed fuel 1 (number i.buf 6 (l.off + 2))
  unfolding loop step case_tok_w1 ◌>>=◌
  w1-Passed fuel e room =
      let v = u8 (number i.buf 6 (l.off + 2)) in
      let exact : v ≡ number i.buf 6 (l.off + 2) = omega (arith, number-lt i.buf 6 (l.off + 2)) in
      let after : l.off + 2 + 6 + mul64 v 8 ≡ l.off + 8 * 1 + mul64 (number i.buf 6 (l.off + 2)) 8 =
        omega (arith, ap (λ x. mul64 x 8) exact) in
      (
        record (lead 0) {
          tok0_present = 1;
          tok0 = record { body_bit_off = l.off + 2 + 6; body_bit_len = mul64 v 8 };
          m_token_len = v;
        },
        rw
            (
              lead-next 0 e (omega arith) (omega arith),
              run_of-next fits (record l { off = l.off + 2 + 6 }) _ (mul64 v 8) _
                  (omega (arith, after)),
              after,
            )
            refl,
        exact,
      )

  w2-Passed :
      (fuel : ℕ)
      → number i.buf 2 l.off ≡ 1
      → l.off + 16 + mul64 (number i.buf 14 (l.off + 2)) 8 ≤ i.bit_len
      → Passed fuel 2 (number i.buf 14 (l.off + 2))
  unfolding loop step case_tok_w2 ◌>>=◌
  w2-Passed fuel e room =
      let v =
        bit_or (shl64 (u8 (number i.buf 6 (l.off + 2))) 8) (u8 (number i.buf 8 (l.off + 2 + 6))) in
      let exact : v ≡ number i.buf 14 (l.off + 2) =
        together i.buf l.off 8 u8 (omega arith) (u8-number i.buf (l.off + 2 + 6)) in
      let after : l.off + 2 + 6 + 8 + mul64 v 8
          ≡ l.off + 8 * 2 + mul64 (number i.buf 14 (l.off + 2)) 8 =
        omega (arith, ap (λ x. mul64 x 8) exact) in
      (
        record (lead 1) {
          tok1_present = 1;
          tok1 = record {
            t = u8 (number i.buf 8 (l.off + 2 + 6));
            body_bit_off = l.off + 2 + 6 + 8;
            body_bit_len = mul64 v 8;
          };
          m_token_len = v;
        },
        rw
            (
              lead-next 1 e (omega arith) (omega arith),
              bytes-next fits (record l { off = l.off + 2 + 6 }) _ (omega arith) 1 _ held
                  (omega arith) (omega arith) (omega arith),
              run_of-next fits (record l { off = l.off + 2 + 6 + 8 }) _ (mul64 v 8) _
                  (omega (arith, after)),
              after,
            )
            refl,
        exact,
      )

  w4-Passed :
      (fuel : ℕ)
      → number i.buf 2 l.off ≡ 2
      → l.off + 32 + mul64 (number i.buf 30 (l.off + 2)) 8 ≤ i.bit_len
      → Passed fuel 4 (number i.buf 30 (l.off + 2))
  unfolding loop step case_tok_w4 ◌>>=◌
  w4-Passed fuel e room =
      let v =
        bit_or (shl64 (u8 (number i.buf 6 (l.off + 2))) 24)
          (u32 (number i.buf 24 (l.off + 2 + 6))) in
      let exact : v ≡ number i.buf 30 (l.off + 2) =
        together i.buf l.off 24 u32 (omega arith) (u32-number i.buf (l.off + 2 + 6)) in
      let after : l.off + 2 + 6 + 24 + mul64 v 8
          ≡ l.off + 8 * 4 + mul64 (number i.buf 30 (l.off + 2)) 8 =
        omega (arith, ap (λ x. mul64 x 8) exact) in
      (
        record (lead 2) {
          tok2_present = 1;
          tok2 = record {
            t = u32 (number i.buf 24 (l.off + 2 + 6));
            body_bit_off = l.off + 2 + 6 + 24;
            body_bit_len = mul64 v 8;
          };
          m_token_len = v;
        },
        rw
            (
              lead-next 2 e (omega arith) (omega arith),
              bytes-next fits (record l { off = l.off + 2 + 6 }) _ (omega arith) 3 _ held
                  (omega arith) (omega arith) (omega arith),
              run_of-next fits (record l { off = l.off + 2 + 6 + 24 }) _ (mul64 v 8) _
                  (omega (arith, after)),
              after,
            )
            refl,
        exact,
      )

  w8-Passed :
      (fuel : ℕ)
      → number i.buf 2 l.off ≡ 3
      → l.off + 64 + mul64 (number i.buf 62 (l.off + 2)) 8 ≤ i.bit_len
      → Passed fuel 8 (number i.buf 62 (l.off + 2))
  unfolding loop step case_tok_w8 ◌>>=◌
  w8-Passed fuel e room =
      let v =
        bit_or (shl64 (u8 (number i.buf 6 (l.off + 2))) 56)
          (u64 (number i.buf 56 (l.off + 2 + 6))) in
      let exact : v ≡ number i.buf 62 (l.off + 2) =
        together i.buf l.off 56 u64 (omega arith) (u64-number i.buf (l.off + 2 + 6)) in
      let after : l.off + 2 + 6 + 56 + mul64 v 8
          ≡ l.off + 8 * 8 + mul64 (number i.buf 62 (l.off + 2)) 8 =
        omega (arith, ap (λ x. mul64 x 8) exact) in
      (
        record (lead 3) {
          tok3_present = 1;
          tok3 = record {
            t = u64 (number i.buf 56 (l.off + 2 + 6));
            body_bit_off = l.off + 2 + 6 + 56;
            body_bit_len = mul64 v 8;
          };
          m_token_len = v;
        },
        rw
            (
              lead-next 3 e (omega arith) (omega arith),
              bytes-next fits (record l { off = l.off + 2 + 6 }) _ (omega arith) 7 _ held
                  (omega arith) (omega arith) (omega arith),
              run_of-next fits (record l { off = l.off + 2 + 6 + 56 }) _ (mul64 v 8) _
                  (omega (arith, after)),
              after,
            )
            refl,
        exact,
      )

  -- From `parse_tok_lead`, at a byte boundary, with two rounds left and the integer inside the packet:
  -- `m_token_len` is the value v of the integer, and the loop goes on at `parse_len_lead` behind
  -- 8 * v bits of token, a product that is taken modulo 2 ^ 64; they must end inside the packet.
  pub tok_lead-varint :
      (fuel : ℕ)
      → l.off + 8 * varint_bytes i.buf l.off + mul64 (varint i.buf l.off) 8 ≤ i.bit_len
      → Passed fuel (varint_bytes i.buf l.off) (varint i.buf l.off)
  tok_lead-varint fuel room =
      elim (four_cases (number i.buf 2 l.off) (number-lt i.buf 2 l.off))
        as (λ _. Passed fuel (varint_bytes i.buf l.off) (varint i.buf l.off)) [
          | inl e ↦ at e (w1-Passed fuel e)
          | inr (inl e) ↦ at e (w2-Passed fuel e)
          | inr (inr (inl e)) ↦ at e (w4-Passed fuel e)
          | inr (inr (inr e)) ↦ at e (w8-Passed fuel e)
        ]
    where
      value : ℕ → ℕ
      value w = number i.buf (8 * 2 ^ w - 2) (l.off + 2)

      at :
          {w : ℕ}
          → number i.buf 2 l.off ≡ w
          → (l.off + 8 * 2 ^ w + mul64 (value w) 8 ≤ i.bit_len → Passed fuel (2 ^ w) (value w))
          → Passed fuel (varint_bytes i.buf l.off) (varint i.buf l.off)
      at e s =
          subst
            (λ w. l.off + 8 * 2 ^ w + mul64 (value w) 8 ≤ i.bit_len → Passed fuel (2 ^ w) (value w))
            (sym e) s room
