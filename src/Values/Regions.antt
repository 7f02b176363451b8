-- ===== src/Values/Regions.antt =====
-- The statements that read inside a region, where they go on.
use pakeles.Base.{
  ℕ, suc, ◌+◌, ◌-◌, ◌*◌, ◌/◌, ◌%◌, ◌^◌, ◌≤◌, ◌<◌, ◌≡◌, arith, some, false, ltb, ◌==◌, add64, sub64,
}
use pakeles.Core.{
  Input, Locals, next, ◌>>=◌, slot, element, top, remaining, in_top, in_region, at_most_remaining,
  run_in_region, bytes_in, run_of_in, reject_if, advance, run_in_buffer,
}
use pakeles.Safety.{Fits, IsMask, below}
use pakeles.Values.Numbers.{IsBytes, number}
use pakeles.Values.Reads.{load_be-number}
use pakeles.Values.Statements.{in_buffer-next}

-- `d + 1` regions are open, and the innermost ends at `e`.
pub record Inside (rmask d e : ℕ) (l : Locals) : Type 0 where
  pub depth : l.rsp ≡ suc d
  pub cap : d ≤ rmask
  pub end : slot l.region_end d ≡ some e
  pub word : e < 2 ^ 64

-- Moving the cursor changes no region.
pub Inside-advance :
    {rmask d e : ℕ} {l : Locals} (off : ℕ)
    → Inside rmask d e l
    → Inside rmask d e (record l { off = off })
Inside-advance off r = record { depth = r.depth; cap = r.cap; end = r.end; word = r.word }

module _ {rmask : ℕ} (mask : IsMask rmask) {B : Type 0} {i : Input} (fits : Fits i) {d e : ℕ}
    (l : Locals) (b : B) (region : Inside rmask d e l) where
  top-next : top rmask i l b ≡ next e l b
  unfolding top element ◌>>=◌
  top-next = rw (below mask l region.depth region.cap, region.end)

  pub remaining-next : l.off ≤ e → remaining rmask i l b ≡ next (e - l.off) l b
  unfolding remaining ◌>>=◌
  remaining-next h =
      let exact : sub64 e l.off ≡ e - l.off = omega (arith, region.word) in rw (top-next, exact)

  opened : (l.rsp == 0) ≡ false
  opened = ground (arith, region.depth)

  in_region-next : (n : ℕ) → l.off + n ≤ e → in_region rmask n i l b ≡ next tt l b
  unfolding in_region in_top ◌>>=◌ reject_if
  in_region-next n h =
      let room : ltb e (add64 l.off n) ≡ false = ground (arith, region.word) in
      rw (opened, top-next, room)

  run_in_region-next : (n : ℕ) → l.off + n ≤ e → run_in_region rmask n i l b ≡ next tt l b
  unfolding run_in_region at_most_remaining ◌>>=◌ reject_if
  run_in_region-next n h =
      let room : ltb (e - l.off) n ≡ false = ground arith in
      rw (opened, remaining-next (omega arith), room)

  pub bytes_in-next :
      (k : ℕ) (put : ℕ → B → B)
      → IsBytes i.buf
      → l.off % 8 ≡ 0
      → k ≤ 8
      → l.off + 8 * k ≤ e
      → l.off + 8 * k ≤ i.bit_len
      → bytes_in rmask k put i l b
        ≡ next tt (record l { off = l.off + 8 * k }) (put (number i.buf (8 * k) l.off) b)
  unfolding bytes_in ◌>>=◌ advance
  bytes_in-next k put held aligned small inner outer =
      let exact : add64 l.off (8 * k) ≡ l.off + 8 * k = omega (arith, fits.word) in
      let start : 8 * (l.off / 8) ≡ l.off = omega arith in
      rw (
        in_region-next (8 * k) inner,
        in_buffer-next fits l b (omega arith) (8 * k) outer,
        load_be-number fits l b k (l.off / 8) held (omega arith) small,
        exact,
        start,
      )

  pub run_of_in-next :
      (n : ℕ) (put : ℕ → ℕ → B → B)
      → l.off + n ≤ e
      → l.off + n ≤ i.bit_len
      → run_of_in rmask n put i l b ≡ next tt (record l { off = l.off + n }) (put l.off n b)
  unfolding run_of_in run_in_buffer ◌>>=◌ reject_if advance
  run_of_in-next n put inner outer =
      let room : ltb (sub64 i.bit_len l.off) n ≡ false = ground (arith, fits.word) in
      let exact : add64 l.off n ≡ l.off + n = omega (arith, fits.word) in
      rw (run_in_region-next n inner, room, exact)
