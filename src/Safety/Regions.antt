-- ===== src/Safety/Regions.antt =====
-- The rules for the statements of a parser with regions.
use pakeles.Base.{
  ℕ, zero, suc, ◌+◌, ◌-◌, ◌^◌, ◌≤◌, ◌<◌, ◌≡◌, ◌≢◌, refl, ap, ◌∙◌, ◌⊎◌, inl, inr, Bool, Bool-cases,
  false, Option, List, [], ◌∷◌, some, arith, length, ltb, add64, sub64, bit_and, sub32, set, ◌==◌,
}
use pakeles.Core.{
  Input, Locals, next, ◌>>=◌, reject, reject_if, slot, element, top, remaining, in_top, in_region,
  at_most_remaining, run_in_region, no_overflow, can_push, out_of_region_bounds,
  region_out_of_bounds,
}
use pakeles.Safety.Judgement.{Fits, Nested, Good}

pub slot-set_self :
    (ends : List (Option ℕ)) (j e : ℕ) → j < length ends → slot (set ends j (some e)) j ≡ some e
unfolding slot
slot-set_self [] j e h = elim h [ ]
slot-set_self (x ∷ xs) zero e h = refl
slot-set_self (x ∷ xs) (suc j) e h = slot-set_self xs j e (omega arith)

pub slot-set_ne :
    (ends : List (Option ℕ)) {j k : ℕ} (e : ℕ) → j ≢ k → slot (set ends j (some e)) k ≡ slot ends k
unfolding slot
slot-set_ne [] e h = refl
slot-set_ne (x ∷ xs) {j = zero} {k = zero} e h = absurd (h refl)
slot-set_ne (x ∷ xs) {j = zero} {k = suc k} e h = refl
slot-set_ne (x ∷ xs) {j = suc j} {k = zero} e h = refl
slot-set_ne (x ∷ xs) {j = suc j} {k = suc k} e h = slot-set_ne xs e (λ p. h (ap suc p))

-- Writing above the open regions leaves them alone.
pub Nested-set :
    (ends : List (Option ℕ)) (d j e lo : ℕ)
    → d ≤ j
    → Nested ends d lo
    → Nested (set ends j (some e)) d lo
Nested-set ends zero j e lo h n = tt
Nested-set ends (suc d) j e lo h (x, s, le, lt, n) =
    (x, slot-set_ne ends e (omega arith) ∙ s, le, lt, Nested-set ends d j e x (omega arith) n)

-- `PK_RMASK` is a small number that is one less than a power of two, so masking keeps the indices of
-- the array.
pub record IsMask (rmask : ℕ) : Type 0 where
  pub small : rmask < 256
  pub keeps : (x : ℕ) → x ≤ rmask → bit_and x rmask ≡ x

pub below :
    {rmask : ℕ} (mask : IsMask rmask) {d : ℕ} (l : Locals)
    → l.rsp ≡ suc d
    → d ≤ rmask
    → bit_and (sub32 l.rsp 1) rmask ≡ d
below {rmask} mask {d} l e h =
    ap (λ k. bit_and k rmask) (omega (arith, e, mask.small)) ∙ mask.keeps d h

module _ {rmask : ℕ} (mask : IsMask rmask) {named : ℕ → Bool} {B : Type 0} {i : Input} where
  -- With a region open, the masked index reads the end of the innermost one.
  pub top_next :
      {d : ℕ} (l : Locals) (b : B) (good : Good (suc rmask) named i (suc d) l)
      → d ≤ rmask
      → top rmask i l b ≡ next good.ends.0 l b
  unfolding top element ◌>>=◌
  top_next l b good h = rw (below mask l good.depth h, good.ends.1)

  pub remaining_next :
      {d : ℕ} (l : Locals) (b : B) (good : Good (suc rmask) named i (suc d) l)
      → d ≤ rmask
      → remaining rmask i l b ≡ next (good.ends.0 - l.off) l b
  unfolding remaining ◌>>=◌
  remaining_next l b good h = rw (top_next l b good h, exact)
    where
      exact : sub64 good.ends.0 l.off ≡ good.ends.0 - l.off
      exact = omega (arith, good.ends.2, good.ends.3)

  module _ (fits : Fits i) (l : Locals) (b : B) where
    in_top_cases :
        (d n : ℕ) (good : Good (suc rmask) named i (suc d) l)
        → d ≤ rmask
        → n ≤ 64
        → (in_top rmask n i l b ≡ next tt l b) × Nested l.region_end (suc d) (l.off + n)
          ⊎ (in_top rmask n i l b ≡ reject out_of_region_bounds i l b)
    unfolding in_top ◌>>=◌ reject_if
    in_top_cases d n good h small =
        let (e, s, le, lt, n') = good.ends in
        elim (Bool-cases (ltb e (add64 l.off n))) [
          | inl over ↦ inr (rw (top_next l b good h, over))
          | inr room ↦ inl (
            rw (top_next l b good h, room),
            (e, s, ground (arith, fits.word, good.inside), lt, n'),
          )
        ]

    -- The test of a fixed-width read against the innermost region.
    pub in_region_cases :
        (d n : ℕ)
        → Good (suc rmask) named i d l
        → d ≤ rmask + 1
        → n ≤ 64
        → (in_region rmask n i l b ≡ next tt l b) × Nested l.region_end d (l.off + n)
          ⊎ (in_region rmask n i l b ≡ reject out_of_region_bounds i l b)
    unfolding in_region ◌>>=◌ reject_if
    in_region_cases zero n good h small = inl (rw good.depth, tt)
    in_region_cases (suc d) n good h small = elim (in_top_cases d n good (omega arith) small) [
      | inl (e, nested) ↦ inl (rw (opened, e), nested)
      | inr e ↦ inr (rw (opened, e))
    ]
      where
        opened : (l.rsp == 0) ≡ false
        opened = ground (arith, good.depth)

    -- The test of a length against what the innermost region has left.
    pub at_most_remaining_cases :
        (d n r : ℕ) (good : Good (suc rmask) named i (suc d) l)
        → d ≤ rmask
        → (at_most_remaining rmask n r i l b ≡ next tt l b)
            × Nested l.region_end (suc d) (l.off + n)
          ⊎ (at_most_remaining rmask n r i l b ≡ reject r i l b)
    unfolding at_most_remaining ◌>>=◌ reject_if
    at_most_remaining_cases d n r good h =
        let (e, s, le, lt, n') = good.ends in
        elim (Bool-cases (ltb (e - l.off) n)) [
          | inl over ↦ inr (rw (remaining_next l b good h, over))
          | inr room ↦ inl (rw (remaining_next l b good h, room), (e, s, ground (arith), lt, n'))
        ]

    pub run_in_region_cases :
        (d n : ℕ)
        → Good (suc rmask) named i d l
        → d ≤ rmask + 1
        → (run_in_region rmask n i l b ≡ next tt l b) × Nested l.region_end d (l.off + n)
          ⊎ (run_in_region rmask n i l b ≡ reject out_of_region_bounds i l b)
    unfolding run_in_region ◌>>=◌ reject_if
    run_in_region_cases zero n good h = inl (rw good.depth, tt)
    run_in_region_cases (suc d) n good h = elim (at_most_remaining_cases d n 4 good (omega arith)) [
      | inl (e, nested) ↦ inl (rw (opened, e), nested)
      | inr e ↦ inr (rw (opened, e))
    ]
      where
        opened : (l.rsp == 0) ≡ false
        opened = ground (arith, good.depth)

    -- The tests of a push leave room for the new region inside the enclosing one.
    pub can_push_cases :
        (d n : ℕ)
        → Good (suc rmask) named i d l
        → d ≤ rmask + 1
        → (can_push rmask n i l b ≡ next tt l b)
            × Nested l.region_end d (l.off + n)
            × (l.off + n < 2 ^ 64)
          ⊎ (can_push rmask n i l b ≡ reject region_out_of_bounds i l b)
    unfolding can_push no_overflow ◌>>=◌ reject_if
    can_push_cases zero n good h = elim (Bool-cases (ltb (sub64 (2 ^ 64 - 1) l.off) n)) [
      | inl over ↦ inr (rw (good.depth, over))
      | inr room ↦ inl (rw (good.depth, room), tt, ground (arith, fits.word, good.inside))
    ]
    can_push_cases (suc d) n good h = elim (at_most_remaining_cases d n 5 good (omega arith)) [
      | inl (e, nested) ↦ inl (rw (opened, e), nested, omega (arith, nested.2, nested.3))
      | inr e ↦ inr (rw (opened, e))
    ]
      where
        opened : (l.rsp == 0) ≡ false
        opened = ground (arith, good.depth)
