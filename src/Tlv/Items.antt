-- ===== src/Tlv/Items.antt =====
-- The loop of tlv_items over encoded items: examples/tlv_items/gen/parser.c.
use pakeles.Base.{
  ℕ, suc, ◌+◌, ◌-◌, ◌*◌, ◌≤◌, ◌≡◌, refl, ap, ◌∙◌, arith, List, [], ◌∷◌, length, some, Bool-cases,
  inl, inr, true, false, ◌==◌, ltb, bit_and, sub32, mul64, shr64, u8, mask_0,
}
use native.Mathlib.Nat.{mod-eq_of_lt}
use pakeles.Core.{Input, Locals, ◌>>=◌, loop, returned, reject, accept, reject_if, pop, element}
use pakeles.Safety.{Fits, IsMask}
use pakeles.Values.{
  IsBytes, byte, number, number-byte, byte-lt, Inside, Inside-advance, remaining-next,
  bytes_in-next, run_of_in-next,
}
use pakeles.Results.{ends}
use pakeles.Tlv.Types.{Body, tlv_loop, rmask}
use pakeles.Tlv.States.{case_tlv_loop, case_parse_item, case_close}
use pakeles.Tlv.Parse.{step}
use pakeles.Tlv.Wire.{Entry, At, size}

pub one_region : IsMask rmask
one_region = record { small = omega arith; keeps = mask_0 }

pub one_byte : (buf : List ℕ) (k p : ℕ) → IsBytes buf → p ≡ 8 * k → u8 (number buf 8 p) ≡ byte buf k
one_byte buf k p held e = ap u8 (number-byte buf k p held e) ∙ mod-eq_of_lt (byte-lt buf k held)

-- Two rounds for each item, and `fuel` for what follows them.
abbrev pub rounds : List Entry → ℕ → ℕ
rounds [] fuel = fuel
rounds (it ∷ items) fuel = suc (suc (rounds items fuel))

module _ {i : Input} (fits : Fits i) (held : IsBytes i.buf) {e : ℕ} (whole : e ≤ i.bit_len) where
  -- the region is used up
  pub close-ends :
      (fuel : ℕ) (l : Locals) (b : Body)
      → Inside rmask 0 e l
      → l.off ≡ e
      → ends (returned (loop step (suc (suc fuel)) tlv_loop i l b)) ≡ some (0, 0, l.off)
  unfolding loop step case_tlv_loop case_close ◌>>=◌ returned accept pop reject_if element
  close-ends fuel l b region at_end =
      let empty : shr64 (e - l.off) 3 == 0 ≡ true = ground arith in
      let opened : l.rsp == 0 ≡ false = ground (arith, region.depth) in
      let index : bit_and (sub32 l.rsp 1) rmask ≡ 0 = rw (region.depth) refl in
      let full : ltb l.off e ≡ false = ground arith in
      rw
        (
          remaining-next one_region fits l b region (omega arith),
          empty,
          opened,
          index,
          region.end,
          full,
        )
        refl

  -- one item
  item-next :
      (fuel k n rest : ℕ) (l : Locals) (b : Body)
      → Inside rmask 0 e l
      → l.off ≡ 8 * k
      → byte i.buf (k + 1) ≡ n
      → e ≡ l.off + 8 * (2 + n + rest)
      → (b' : Body) × (loop step (suc (suc fuel)) tlv_loop i l b
          ≡ loop step fuel tlv_loop i (record l { off = l.off + 8 * (2 + n) }) b')
  unfolding loop step case_tlv_loop case_parse_item ◌>>=◌
  item-next fuel k n rest l b region at declared total =
      let more : shr64 (e - l.off) 3 == 0 ≡ false = ground arith in
      let l1 = record l { off = l.off + 8 } in
      let l2 = record l { off = l.off + 8 + 8 } in
      let ln : u8 (number i.buf 8 (l.off + 8)) ≡ n =
        one_byte i.buf (k + 1) (l.off + 8) held (omega arith) ∙ declared in
      let vlen : mul64 n 8 ≡ 8 * n = omega (arith, declared, byte-lt i.buf (k + 1) held) in
      let after : l.off + 8 + 8 + 8 * n ≡ l.off + 8 * (2 + n) = omega arith in
      (
        record b {
          item_present = 1;
          item = record {
            kind = u8 (number i.buf 8 l.off);
            ln = n;
            val_bit_off = l.off + 8 + 8;
            val_bit_len = 8 * n;
          };
        },
        rw
            (
              remaining-next one_region fits l b region (omega arith),
              more,
              bytes_in-next one_region fits l _ region 1 _ held (omega arith) (omega arith)
                  (omega arith) (omega arith),
              bytes_in-next one_region fits l1 _ (Inside-advance (l.off + 8) region) 1 _ held
                  (omega arith) (omega arith) (omega arith) (omega arith),
              ln,
              vlen,
              run_of_in-next one_region fits l2 _ (Inside-advance (l.off + 8 + 8) region) (8 * n) _
                  (omega arith) (omega arith),
              after,
            )
            refl,
      )

  -- all of them, up to the end of the region or short of `rest` bytes
  pub items-next :
      (fuel : ℕ) (items : List Entry) (k rest : ℕ) (l : Locals) (b : Body)
      → Inside rmask 0 e l
      → l.off ≡ 8 * k
      → At i.buf k items
      → e ≡ l.off + 8 * (size items + rest)
      → (b' : Body) × (loop step (rounds items fuel) tlv_loop i l b
          ≡ loop step fuel tlv_loop i (record l { off = l.off + 8 * size items }) b')
  items-next fuel [] k rest l b region at lie total =
      (b, ap (λ off. loop step fuel tlv_loop i (record l { off = off }) b) (omega arith))
  items-next fuel (it ∷ items) k rest l b region at lie total =
      let n = 2 + length it.value in
      let (b1, e1) =
        item-next (rounds items fuel) k (length it.value) (size items + rest) l b region at lie.0
          (omega arith) in
      let (b2, e2) =
        items-next fuel items (k + n) rest (record l { off = l.off + 8 * n }) b1
          (Inside-advance (l.off + 8 * n) region) (omega arith) lie.1 (omega arith) in
      (
        b2,
        e1 ∙ e2 ∙ ap (λ off. loop step fuel tlv_loop i (record l { off = off }) b2) (omega arith),
      )

  -- one round is left
  pub last_round :
      (l : Locals) (b : Body)
      → Inside rmask 0 e l
      → l.off ≤ e
      → ends (returned (loop step 1 tlv_loop i l b)) ≡ some (1, 2, l.off)
  unfolding loop step case_tlv_loop ◌>>=◌ returned reject
  last_round l b region h = elim (Bool-cases (shr64 (e - l.off) 3 == 0)) [
    | inl t ↦ rw (remaining-next one_region fits l b region h, t) refl
    | inr t ↦ rw (remaining-next one_region fits l b region h, t) refl
  ]
