-- ===== src/Counted/Tests.antt =====
-- Runs of counted_items on whole packets.
use pakeles.Base.{ℕ, ◌≡◌, refl, List, [], ◌∷◌, some, arith}
use pakeles.Core.{masked}
use pakeles.Results.{ends, field}
use pakeles.Safety.{ReturnsSound}
use pakeles.Counted.Parse.{counted_items_parse, counted_items_parse_core, running}
use pakeles.Counted.Cases.{named}
use pakeles.Counted.Sound.{counted_items_parse-ReturnsSound, counted_items_parse_core-masked}
use pakeles.Counted.Exact.{counted_items_parse-expected}

-- a count of 2
abbrev two_items : List ℕ
two_items = 2 ∷ 5 ∷ 6 ∷ []

two_items_ends : ends (counted_items_parse two_items 24) ≡ some (0, 0, 24)
unfolding running
two_items_ends = refl

two_items_m_remaining : field (λ b. b.m_remaining) (counted_items_parse two_items 24) ≡ some 0
unfolding running
two_items_m_remaining = refl

-- more than the bound of the loop allows
abbrev seven_items : List ℕ
seven_items = 7 ∷ 0 ∷ 1 ∷ 2 ∷ 3 ∷ 4 ∷ 5 ∷ 6 ∷ []

seven_items_ends : ends (counted_items_parse seven_items 64) ≡ some (1, 2, 64)
unfolding running
seven_items_ends = refl

counted_items_parse-ReturnsSound_example : ReturnsSound named 24 (counted_items_parse two_items 24)
counted_items_parse-ReturnsSound_example =
    counted_items_parse-ReturnsSound two_items 24 (omega arith) (omega arith)

counted_items_parse_core-masked_example :
    counted_items_parse_core (masked two_items 24) ≡ counted_items_parse two_items 24
counted_items_parse_core-masked_example =
    counted_items_parse_core-masked two_items 24 (omega arith) (omega arith)

-- a count of 2 and two items
counted_items_parse-expected_example :
    ends (counted_items_parse (2 ∷ 5 ∷ 6 ∷ []) 24) ≡ some (0, 0, 24)
counted_items_parse-expected_example =
    counted_items_parse-expected (2 ∷ 5 ∷ 6 ∷ []) 3 (omega arith, (omega arith, (omega arith, tt)))
      (omega arith) (omega arith)
