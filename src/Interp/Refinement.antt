-- ===== src/Interp/Refinement.antt =====
-- The generated `push` and `pop` against those of the interpreter.
use pakeles.Base.{
  ℕ, suc, ◌+◌, ◌-◌, ◌^◌, ◌≤◌, ◌<◌, ◌≡◌, refl, ap, ◌∙◌, arith, List, [], ◌∷◌, Option, some, true,
  false, Bool-cases, inl, inr, ltb, ◌==◌, length, set, length-set, bit_and, add32, add64, sub64,
}
use pakeles.Core.{
  Input, Locals, M, locals, set_locals, ◌>>◌, Run, next, stop, ◌>>=◌, slot, element, top, remaining,
  at_most_remaining, no_overflow, can_push, push, pop, reject, reject_if, region_out_of_bounds,
  region_not_exhausted,
}
use pakeles.Safety.{IsMask, below, slot-set_self, slot-set_ne}
use pakeles.Interp.Regions.{RegionStep, regions, rejected, no_open_region, interp_push, interp_pop}

-- The elements of the array below the stack pointer are the stack.
abbrev pub Ends : List (Option ℕ) → List ℕ → Type 0
Ends ends [] = Unit {0}
Ends ends (e ∷ stack) = (slot ends (length stack) ≡ some e) × (e < 2 ^ 64) × Ends ends stack

pub record Represents (slots : ℕ) (l : Locals) (stack : List ℕ) : Type 0 where
  pub depth : l.rsp ≡ length stack
  pub room : length l.region_end ≡ slots
  pub ends : Ends l.region_end stack

-- the cursor is not past the end of the innermost region
abbrev pub Within : ℕ → List ℕ → Type 0
Within off [] = off < 2 ^ 64
Within off (e ∷ stack) = off ≤ e

-- The C statement does what the interpreter does: the same stack and cursor, or the same rejection.
abbrev pub Agrees : {B : Type 0} → ℕ → Locals → B → Run B (Unit {0}) → RegionStep → Type 0
Agrees slots l b (next a l' b') (regions stack) =
    (l'.off ≡ l.off) × (b' ≡ b) × Represents slots l' stack
Agrees slots l b (stop v b') (rejected r) =
    (v.outcome ≡ 1) × (v.reason ≡ r) × (v.consumed_bits ≡ l.off) × (b' ≡ b)
Agrees slots l b _ _ = ⊥

Ends-set :
    (ends : List (Option ℕ)) (stack : List ℕ) (j e : ℕ)
    → length stack ≤ j
    → Ends ends stack
    → Ends (set ends j (some e)) stack
Ends-set ends [] j e h n = tt
Ends-set ends (x ∷ stack) j e h n =
    (slot-set_ne ends e (omega arith) ∙ n.0, n.1, Ends-set ends stack j e (omega arith) n.2)

-- what `push` does once the length has passed its test
abbrev write : {B : Type 0} → ℕ → ℕ → M B (Unit {0})
write rmask rlen = do
  l ← locals
  reject_if (ltb rmask l.rsp) region_out_of_bounds
  set_locals (record l {
    region_end = set l.region_end (bit_and l.rsp rmask) (some (add64 l.off rlen));
    rsp = add32 l.rsp 1;
  })

-- What the C code reports where the interpreter rejects a pop: one reason for all.
abbrev pub one_reason : RegionStep → RegionStep
one_reason (rejected r) = rejected region_not_exhausted
one_reason (regions stack) = regions stack
one_reason no_open_region = no_open_region

module _ {rmask : ℕ} (mask : IsMask rmask) {B : Type 0} (i : Input) (l : Locals) (b : B) where
  -- With a region open, `pop` leaves the stack that the interpreter leaves, or rejects when it
  -- rejects; but the reason is `region_not_exhausted` even where the interpreter says
  -- `out_of_bounds`, for a region that ends past the packet.
  pub pop-interp_pop :
      (e : ℕ) (stack : List ℕ)
      → length stack ≤ rmask
      → Represents (suc rmask) l (e ∷ stack)
      → Agrees
          (suc rmask)
          l
          b
          (pop rmask i l b)
          (one_reason (interp_pop (e ∷ stack) l.off i.bit_len))
  unfolding pop interp_pop ◌>>=◌ reject_if element reject
  pop-interp_pop e stack h r =
      let opened : l.rsp == 0 ≡ false = ground (arith, r.depth) in
      let index = below mask l r.depth h in
      elim (Bool-cases (ltb l.off e)) [
        | inl short ↦ rw (opened, index, r.ends.0, short) (refl, refl, refl, refl)
        | inr used_up ↦
            rw (opened, index, r.ends.0, used_up)
              (
                refl,
                refl,
                record {
                  depth = omega (arith, r.depth, h, mask.small);
                  room = r.room;
                  ends = r.ends.2;
                },
              )
      ]

  -- the part of `push` behind its test of the length
  written :
      (stack : List ℕ) (rlen : ℕ)
      → length stack ≤ rmask
      → Represents (suc rmask) l stack
      → rlen < 2 ^ 64
      → rlen + l.off < 2 ^ 64
      → Agrees (suc rmask) l b (write rmask rlen i l b) (regions ((rlen + l.off) ∷ stack))
  unfolding ◌>>=◌ reject_if
  written stack rlen h r small fits =
      let room : ltb rmask l.rsp ≡ false = ground (arith, r.depth) in
      let index : bit_and l.rsp rmask ≡ length stack =
        ap (λ k. bit_and k rmask) r.depth ∙ mask.keeps _ h in
      let sum : add64 l.off rlen ≡ rlen + l.off = omega arith in
      rw (room, index, sum)
        (
          refl,
          refl,
          record {
            depth = omega (arith, r.depth, h, mask.small);
            room = length-set _ _ _ ∙ r.room;
            ends = (
              slot-set_self l.region_end (length stack) (rlen + l.off) (omega (arith, r.room)),
              fits,
              Ends-set l.region_end stack (length stack) (rlen + l.off) (omega arith) r.ends,
            );
          },
        )

  -- With the cursor not past the innermost region and an element of the array free, `push` of a 64-bit
  -- length does what the interpreter does: the same stack, or the same rejection.
  pub push-interp_push :
      (stack : List ℕ) (rlen : ℕ)
      → length stack ≤ rmask
      → Represents (suc rmask) l stack
      → Within l.off stack
      → rlen < 2 ^ 64
      → Agrees (suc rmask) l b (push rmask rlen i l b) (interp_push stack l.off rlen)
  unfolding push interp_push can_push at_most_remaining no_overflow remaining top ◌>>=◌ reject_if
      element reject
  push-interp_push [] rlen h r w small =
      let opened : l.rsp == 0 ≡ true = ground (arith, r.depth) in
      elim (Bool-cases (ltb (2 ^ 64 - 1) (rlen + l.off))) [
        | inl over ↦
            let t : ltb (sub64 (2 ^ 64 - 1) l.off) rlen ≡ true = ground (arith, w) in
            rw (opened, over, t) (refl, refl, refl, refl)
        | inr room ↦
            let t : ltb (sub64 (2 ^ 64 - 1) l.off) rlen ≡ false = ground (arith, w) in
            rw (opened, room, t) (written [] rlen h r (omega arith) (ground arith))
      ]
  push-interp_push (e ∷ stack) rlen h r w small =
      let opened : l.rsp == 0 ≡ false = ground (arith, r.depth) in
      let index = below mask l r.depth (omega arith) in
      let exact : sub64 e l.off ≡ e - l.off = omega (arith, w, r.ends.1) in
      elim (Bool-cases (ltb (2 ^ 64 - 1) (rlen + l.off))) [
        | inl over ↦
            let t : ltb (e - l.off) rlen ≡ true = ground (arith, w, r.ends.1) in
            rw (opened, index, r.ends.0, exact, t, over) (refl, refl, refl, refl)
        | inr room ↦ elim (Bool-cases (ltb e (rlen + l.off))) [
          | inl past ↦
              let t : ltb (e - l.off) rlen ≡ true = ground (arith, w) in
              rw (opened, index, r.ends.0, exact, t, room, past) (refl, refl, refl, refl)
          | inr inside ↦
              let t : ltb (e - l.off) rlen ≡ false = ground (arith, w) in
              rw (opened, index, r.ends.0, exact, t, room, inside)
                (written (e ∷ stack) rlen h r (omega arith) (ground arith))
        ]
      ]
