-- ===== src/Results.antt =====
-- What is read off the result of a parser.
use pakeles.Base.{ℕ, Option, none, some}
use pakeles.Core.{Result}

-- outcome, reason and consumed bits
abbrev pub ends : {B : Type 0} → Option (Result B) → Option (ℕ × ℕ × ℕ)
ends none = none
ends (some r) = some (r.outcome, r.reason, r.consumed_bits)

-- a part of the body
abbrev pub field : {B : Type 0} → (B → ℕ) → Option (Result B) → Option ℕ
field f none = none
field f (some r) = some (f r.body)
