-- ===== src/Counted/Parse.antt =====
-- `parse_core` of examples/counted_items/gen/parser.c and the function around it.
use pakeles.Base.{ℕ, List, Option}
use pakeles.Core.{Input, M, Result, run_core, portable, statements}
use pakeles.Counted.Types.{Body, zero_body, State, parse_count, parse_item, mark_done}
use pakeles.Counted.States.{case_parse_count, case_parse_item, case_mark_done}

-- `switch (state)`
unfoldable pub step : State → M Body State
step parse_count = case_parse_count
step parse_item = case_parse_item
step mark_done = case_mark_done

-- the bound of the loop
abbrev pub max_depth : ℕ
max_depth = 8

-- `pk_counted_items_parse_core`, called with `*out` zeroed
unfoldable pub counted_items_parse_core : Input → Option (Result Body)
counted_items_parse_core i = run_core step max_depth parse_count 0 i zero_body

-- `pk_counted_items_parse`
unfoldable pub counted_items_parse : List ℕ → ℕ → Option (Result Body)
counted_items_parse buf bit_len = counted_items_parse_core (portable buf bit_len)

-- For tests: a line `unfolding running` opens all that a run computes with.
unfoldable pub running : Unit {0}
unfolding statements run_core step counted_items_parse_core counted_items_parse case_parse_count
    case_parse_item case_mark_done
running = tt
