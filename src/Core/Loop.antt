-- ===== src/Core/Loop.antt =====
-- The loop over the states, and the function around it.
use pakeles.Base.{ℕ, zero, suc, Option, none, some, List, replicate, bit_and}
use pakeles.Core.Monad.{Input, Run, next, stop, fault, M, ◌>>=◌}
use pakeles.Core.Loads.{read_byte, load_be, bit_at, read_bits_from, read_bits}
use pakeles.Core.Statements.{
  reject, accept, reject_if, advance, in_buffer, run_in_buffer, bytes, bits, run_of,
  max_depth_exceeded,
}
use pakeles.Core.Regions.{
  slot, element, top, remaining, in_top, in_region, at_most_remaining, run_in_region, bytes_in,
  run_of_in, no_overflow, can_push, push, pop,
}

-- `pk_…_result_t`: the three fields that all parsers have, then the parser's own.
pub record Result (B : Type 0) : Type 0 where
  pub outcome : ℕ
  pub reason : ℕ
  pub consumed_bits : ℕ
  pub body : B

module _ {B S : Type 0} (body : S → M B S) where
  -- `for (depth = 0; depth < fuel; depth++) switch (state)`, and the code behind it
  unfoldable pub loop : ℕ → S → M B ⊥
  loop zero s = reject max_depth_exceeded
  loop (suc fuel) s = do s' ← body s; loop fuel s'

-- `*out` when the function returns; `none` after a fault.
unfoldable pub returned : {B : Type 0} → Run B ⊥ → Option (Result B)
returned (next a l b) = absurd a
returned (stop v b) =
    some
      (record { outcome = v.outcome; reason = v.reason; consumed_bits = v.consumed_bits; body = b })
returned fault = none

-- `parse_core` from its first state: nothing read, no region open, and `slots` elements of
-- `pk_region_end` that are not yet written. `b` is the rest of `*out` as the caller left it.
unfoldable pub run_core : {B S : Type 0} → (S → M B S) → ℕ → S → ℕ → Input → B → Option (Result B)
run_core body fuel s slots i b =
    returned (loop body fuel s i (record { off = 0; rsp = 0; region_end = replicate slots none }) b)

-- How parser.c reads the packet: no mask.
abbrev pub portable : List ℕ → ℕ → Input
portable buf bit_len = record { buf = buf; bit_len = bit_len; index = λ k. k }

-- How parser.bpf.c does: `& PK_BUF_MASK`, which is 4095 unless the build says otherwise.
abbrev pub buf_mask : ℕ
buf_mask = 4095

abbrev pub masked : List ℕ → ℕ → Input
masked buf bit_len = record { buf = buf; bit_len = bit_len; index = λ k. bit_and k buf_mask }

-- For tests: a line `unfolding statements` opens every statement.
unfoldable pub statements : Unit {0}
unfolding ◌>>=◌ read_byte load_be bit_at read_bits_from read_bits reject accept reject_if advance
    in_buffer run_in_buffer bytes bits run_of slot element top remaining in_top in_region
    at_most_remaining run_in_region bytes_in run_of_in no_overflow can_push push pop loop returned
    run_core
statements = tt
