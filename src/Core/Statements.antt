-- ===== src/Core/Statements.antt =====
-- The statements that the emitter writes into a `case`.
use pakeles.Base.{ℕ, ◌*◌, Bool, ltb, if◌then◌else◌, add64, sub64, shr64}
use pakeles.Core.Monad.{M, next, stop, pure, store, bit_len, locals, ◌>>=◌, ◌>>◌}
use pakeles.Core.Loads.{load_be, read_bits}

-- The six reason codes that every parser has.
abbrev pub out_of_bounds : ℕ
out_of_bounds = 1

abbrev pub max_depth_exceeded : ℕ
max_depth_exceeded = 2

abbrev pub no_matching_select_arm : ℕ
no_matching_select_arm = 3

abbrev pub out_of_region_bounds : ℕ
out_of_region_bounds = 4

abbrev pub region_out_of_bounds : ℕ
region_out_of_bounds = 5

abbrev pub region_not_exhausted : ℕ
region_not_exhausted = 6

module _ {B A : Type 0} where
  -- `out->outcome = 1; out->reason = r; out->consumed_bits = off; return 1;`
  unfoldable pub reject : ℕ → M B A
  reject r i l b = stop (record { outcome = 1; reason = r; consumed_bits = l.off }) b

  unfoldable pub accept : M B A
  accept i l b = stop (record { outcome = 0; reason = 0; consumed_bits = l.off }) b

module _ {B : Type 0} where
  -- `if (c) { reject }`
  unfoldable pub reject_if : Bool → ℕ → M B (Unit {0})
  reject_if c r = if c then reject r else pure tt

  -- `off += n`
  unfoldable pub advance : ℕ → M B (Unit {0})
  advance n i l b = next tt (record l { off = add64 l.off n }) b

  -- `if (off + n > bit_len) { reject }`
  unfoldable pub in_buffer : ℕ → M B (Unit {0})
  in_buffer n = do total ← bit_len; l ← locals; reject_if (ltb total (add64 l.off n)) out_of_bounds

  -- `if (vlen > bit_len - off) { reject }`
  unfoldable pub run_in_buffer : ℕ → M B (Unit {0})
  run_in_buffer vlen = do
    total ← bit_len
    l ← locals
    reject_if (ltb (sub64 total l.off) vlen) out_of_bounds

  module _ (k : ℕ) (put : ℕ → B → B) where
    -- A field of k whole bytes at an aligned cursor, in a parser without regions. `put` writes the
    -- value into its member of `*out`, the cast included.
    unfoldable pub bytes : M B (Unit {0})
    bytes = do
      in_buffer (8 * k)
      l ← locals
      v ← load_be k (shr64 l.off 3)
      store (put v)
      advance (8 * k)

    -- A field of k bits that is read by `pk_read_bits`.
    unfoldable pub bits : M B (Unit {0})
    bits = do in_buffer k; l ← locals; v ← read_bits l.off k; store (put v); advance k

  -- A variable-length field: `put` is given its offset and its length.
  unfoldable pub run_of : ℕ → (ℕ → ℕ → B → B) → M B (Unit {0})
  run_of vlen put = do run_in_buffer vlen; l ← locals; store (put l.off vlen); advance vlen
