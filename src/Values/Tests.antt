-- ===== src/Values/Tests.antt =====
-- Reads of three bytes.
use pakeles.Base.{ℕ, ◌≡◌, refl, List, [], ◌∷◌, arith}
use pakeles.Core.{Input, Locals, next, portable, read_bits, load_be, bits, bytes, run_of}
use pakeles.Safety.{Fits, portable-Fits}
use pakeles.Values.Numbers.{IsBytes, number}
use pakeles.Values.Reads.{read_bits-number, load_be-number, load_be-read_bits}
use pakeles.Values.Statements.{
  take_field, take_run, bits-take_field, bytes-take_field, run_of-take_run,
}

abbrev sample : List ℕ
sample = 0xab ∷ 0xcd ∷ 0xef ∷ []

abbrev packet : Input
packet = portable sample 24

-- what stands for `*out`
abbrev out : ℕ
out = 0

-- a cursor behind the first byte
abbrev cursor : Locals
cursor = record { off = 8; rsp = 0; region_end = [] }

sample-IsBytes : IsBytes sample
sample-IsBytes = (omega arith, (omega arith, (omega arith, tt)))

packet-Fits : Fits packet
packet-Fits = portable-Fits sample 24 (omega arith) (omega arith)

middle : number sample 12 4 ≡ 0xbcd
middle = refl

read_bits-number_example : read_bits 4 12 packet cursor out ≡ next (number sample 12 4) cursor out
read_bits-number_example = read_bits-number packet-Fits cursor out 4 12 (omega arith) (omega arith)

load_be-number_example : load_be 2 1 packet cursor out ≡ next (number sample 16 8) cursor out
load_be-number_example =
    load_be-number packet-Fits cursor out 2 1 sample-IsBytes (omega arith) (omega arith)

load_be-read_bits_example : load_be 2 1 packet cursor out ≡ read_bits 8 16 packet cursor out
load_be-read_bits_example =
    load_be-read_bits packet-Fits cursor out 2 8 sample-IsBytes refl (omega arith) (omega arith)

bits-take_field_example :
    bits 3 (λ v b. v) packet cursor out ≡ take_field (λ v b. v) 3 packet cursor out
bits-take_field_example =
    bits-take_field packet-Fits cursor out (omega arith) 3 (λ v b. v) (omega arith)

-- more bytes than are left
bytes-take_field_example :
    bytes 3 (λ v b. v) packet cursor out ≡ take_field (λ v b. v) 24 packet cursor out
bytes-take_field_example =
    bytes-take_field packet-Fits cursor out (omega arith) 3 (λ v b. v) sample-IsBytes refl
      (omega arith)

run_of-take_run_example :
    run_of 16 (λ off n b. off) packet cursor out ≡ take_run (λ off n b. off) 16 packet cursor out
run_of-take_run_example = run_of-take_run packet-Fits cursor out (omega arith) 16 (λ off n b. off)
