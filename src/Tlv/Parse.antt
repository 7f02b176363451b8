-- ===== src/Tlv/Parse.antt =====
-- `parse_core` of examples/tlv_items/gen/parser.c and the function around it.
use pakeles.Base.{ℕ, List, Option}
use pakeles.Core.{Input, M, Result, run_core, portable, statements}
use pakeles.Tlv.Types.{Body, zero_body, State, parse_total, tlv_loop, parse_item, close}
use pakeles.Tlv.States.{case_parse_total, case_tlv_loop, case_parse_item, case_close}

-- `switch (state)`
unfoldable pub step : State → M Body State
step parse_total = case_parse_total
step tlv_loop = case_tlv_loop
step parse_item = case_parse_item
step close = case_close

-- the bound of the loop
abbrev pub max_depth : ℕ
max_depth = 8

-- `pk_tlv_items_parse_core`, called with `*out` zeroed
unfoldable pub tlv_items_parse_core : Input → Option (Result Body)
tlv_items_parse_core i = run_core step max_depth parse_total 1 i zero_body

-- `pk_tlv_items_parse`
unfoldable pub tlv_items_parse : List ℕ → ℕ → Option (Result Body)
tlv_items_parse buf bit_len = tlv_items_parse_core (portable buf bit_len)

-- For tests: a line `unfolding running` opens all that a run computes with.
unfoldable pub running : Unit {0}
unfolding statements run_core step tlv_items_parse_core tlv_items_parse case_parse_total
    case_tlv_loop case_parse_item case_close
running = tt
