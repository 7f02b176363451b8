-- ===== src/Core/Regions.antt =====
-- The statements of a parser that opens sized regions. `rmask` is its `PK_RMASK`: the array
-- `pk_region_end` has `rmask + 1` elements, and every index into it is masked.
use pakeles.Base.{
  ℕ, zero, suc, ◌-◌, ◌*◌, ◌^◌, bit_and, List, [], ◌∷◌, Option, none, some, ltb, ◌==◌, if◌then◌else◌,
  set, add32, sub32, add64, sub64, shr64,
}
use pakeles.Core.Monad.{M, pure, crash, store, locals, set_locals, ◌>>=◌, ◌>>◌}
use pakeles.Core.Loads.{load_be}
use pakeles.Core.Statements.{
  reject_if, in_buffer, run_in_buffer, advance, out_of_region_bounds, region_out_of_bounds,
  region_not_exhausted,
}

-- An element of the array; `none` outside it, and before it is written.
unfoldable pub slot : List (Option ℕ) → ℕ → Option ℕ
slot [] i = none
slot (x ∷ xs) zero = x
slot (x ∷ xs) (suc i) = slot xs i

-- what reading an element gives
unfoldable pub element : {B : Type 0} → Option ℕ → M B ℕ
element none = crash
element (some e) = pure e

module _ {B : Type 0} (rmask : ℕ) where
  -- `pk_region_end[(pk_rsp - 1u) & PK_RMASK]`
  unfoldable pub top : M B ℕ
  top = do l ← locals; element (slot l.region_end (bit_and (sub32 l.rsp 1) rmask))

  -- `remaining()`: `pk_region_end[(pk_rsp - 1u) & PK_RMASK] - off`
  unfoldable pub remaining : M B ℕ
  remaining = do e ← top; l ← locals; pure (sub64 e l.off)

  unfoldable pub in_top : ℕ → M B (Unit {0})
  in_top n = do e ← top; l ← locals; reject_if (ltb e (add64 l.off n)) out_of_region_bounds

  -- `if (pk_rsp && off + n > pk_region_end[…]) { reject }`
  unfoldable pub in_region : ℕ → M B (Unit {0})
  in_region n = do l ← locals; if l.rsp == 0 then pure tt else in_top n

  -- `if (len > pk_region_end[…] - off) { reject }`
  unfoldable pub at_most_remaining : ℕ → ℕ → M B (Unit {0})
  at_most_remaining len reason = do r ← remaining; reject_if (ltb r len) reason

  -- `if (pk_rsp && vlen > pk_region_end[…] - off) { reject }`
  unfoldable pub run_in_region : ℕ → M B (Unit {0})
  run_in_region vlen = do
    l ← locals
    if l.rsp == 0 then pure tt else at_most_remaining vlen out_of_region_bounds

  -- A field of k whole bytes: the region's end is tested before the buffer's.
  unfoldable pub bytes_in : ℕ → (ℕ → B → B) → M B (Unit {0})
  bytes_in k put = do
    in_region (8 * k)
    in_buffer (8 * k)
    l ← locals
    v ← load_be k (shr64 l.off 3)
    store (put v)
    advance (8 * k)

  -- A variable-length field: `put` is given its offset and its length.
  unfoldable pub run_of_in : ℕ → (ℕ → ℕ → B → B) → M B (Unit {0})
  run_of_in vlen put = do
    run_in_region vlen
    run_in_buffer vlen
    l ← locals
    store (put l.off vlen)
    advance vlen

  -- `if (rlen > 0xffffffffffffffffULL - off) { reject }`
  unfoldable pub no_overflow : ℕ → M B (Unit {0})
  no_overflow rlen = do
    l ← locals
    reject_if (ltb (sub64 (2 ^ 64 - 1) l.off) rlen) region_out_of_bounds

  -- the tests of a push, against the enclosing region or, where there is none, against overflow
  unfoldable pub can_push : ℕ → M B (Unit {0})
  can_push rlen = do
    l ← locals
    if l.rsp == 0 then no_overflow rlen else at_most_remaining rlen region_out_of_bounds

  -- `push`: open a region of `rlen` bits at the cursor.
  unfoldable pub push : ℕ → M B (Unit {0})
  push rlen = do
    can_push rlen
    l ← locals
    reject_if (ltb rmask l.rsp) region_out_of_bounds
    set_locals (record l {
      region_end = set l.region_end (bit_and l.rsp rmask) (some (add64 l.off rlen));
      rsp = add32 l.rsp 1;
    })

  -- `pop`: close the innermost region, which must be used up.
  unfoldable pub pop : M B (Unit {0})
  pop = do
    l ← locals
    reject_if (l.rsp == 0) region_not_exhausted
    set_locals (record l { rsp = sub32 l.rsp 1 })
    l' ← locals
    e ← element (slot l'.region_end (bit_and l'.rsp rmask))
    reject_if (ltb l'.off e) region_not_exhausted
