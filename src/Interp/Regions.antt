-- ===== src/Interp/Regions.antt =====
-- `region_ops` in `run` of rust/pakeles/src/interp/mod.rs, on its stack of region ends, the innermost
-- first.
use pakeles.Base.{ℕ, ◌+◌, ◌-◌, ◌^◌, List, [], ◌∷◌, ltb, if◌then◌else◌}
use pakeles.Core.{out_of_bounds, region_out_of_bounds, region_not_exhausted}

-- The stack afterwards, a rejection with its reason, or the error of a pop with no open region.
pub data RegionStep : Type 0 where
  regions : List ℕ → RegionStep
  rejected : ℕ → RegionStep
  no_open_region : RegionStep

-- is `end` past the region around it?
abbrev past_top : ℕ → List ℕ → RegionStep
past_top end [] = regions (end ∷ [])
past_top end (top ∷ rest) =
    if ltb top end then rejected region_out_of_bounds else regions (end ∷ top ∷ rest)

-- `RegionOp::Push`, its length evaluated; `checked_add` is on 64 bits.
unfoldable pub interp_push : List ℕ → ℕ → ℕ → RegionStep
interp_push stack cursor len =
    if ltb (2 ^ 64 - 1) (len + cursor)
    then rejected region_out_of_bounds
    else past_top (len + cursor) stack

-- `RegionOp::Pop` on a packet of `avail` bits.
unfoldable pub interp_pop : List ℕ → ℕ → ℕ → RegionStep
interp_pop [] cursor avail = no_open_region
interp_pop (end ∷ rest) cursor avail =
    if ltb cursor end
    then rejected (if ltb avail end then out_of_bounds else region_not_exhausted)
    else regions rest
