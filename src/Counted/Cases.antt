-- ===== src/Counted/Cases.antt =====
-- The rules of `Safety` at the cases of counted_items.
use text.Mathlib.Text.{◌==◌ as str_eq}
use pakeles.Base.{ℕ, refl, Bool, not, arith, ◌==◌}
use pakeles.Safety.{
  Triple, Triple-pure, Triple-accept, Triple-if, Triple-store, Triple-fetch, ◌⨾◌, ◌▸◌, Triple-bytes,
  NamesBuiltIn,
}
use pakeles.Counted.Types.{State, parse_count, parse_item, mark_done, reason_str}
use pakeles.Counted.States.{case_parse_count, case_parse_item, case_mark_done}
use pakeles.Counted.Parse.{step}

-- `reason_str` has words for the code.
abbrev pub named : ℕ → Bool
unfolding reason_str
named r = not (str_eq (reason_str r) "")

-- How many regions are open when a state is entered.
abbrev pub depth_of : State → ℕ
depth_of s = 0

instance pub names : NamesBuiltIn named
unfolding reason_str
names = record { oob = refl; oorb = refl; robb = refl; rne = refl }

case_parse_count-Triple : Triple 0 named 0 case_parse_count depth_of
unfolding case_parse_count
case_parse_count-Triple =
    Triple-store _ ▸ Triple-bytes _ _ (omega arith) ▸ Triple-store _ ▸ Triple-fetch _ ⨾ λ key0.
    Triple-if (key0 == 0) (Triple-pure mark_done refl) (Triple-pure parse_item refl)

case_parse_item-Triple : Triple 0 named 0 case_parse_item depth_of
unfolding case_parse_item
case_parse_item-Triple =
    Triple-store _ ▸ Triple-bytes _ _ (omega arith) ▸ Triple-store _ ▸ Triple-fetch _ ⨾ λ key0.
    Triple-if (key0 == 0) (Triple-pure mark_done refl) (Triple-pure parse_item refl)

case_mark_done-Triple : Triple 0 named 0 case_mark_done depth_of
unfolding case_mark_done
case_mark_done-Triple = Triple-store _ ▸ Triple-accept

-- Every state keeps the invariant.
pub step-Triple : (s : State) → Triple 0 named (depth_of s) (step s) depth_of
unfolding step
step-Triple parse_count = case_parse_count-Triple
step-Triple parse_item = case_parse_item-Triple
step-Triple mark_done = case_mark_done-Triple
