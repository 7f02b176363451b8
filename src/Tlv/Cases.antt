-- ===== src/Tlv/Cases.antt =====
-- The rules of `Safety` at the cases of tlv_items.
use text.Mathlib.Text.{◌==◌ as str_eq}
use pakeles.Base.{ℕ, suc, refl, Bool, not, arith, ◌==◌, shr64, mask_0}
use pakeles.Safety.{
  Triple, Triple-pure, Triple-accept, Triple-if, Triple-store, Triple-fetch, ◌⨾◌, ◌▸◌,
  Triple-bytes_in, Triple-run_of_in, Triple-push, Triple-pop, Triple-remaining, IsMask,
  NamesBuiltIn,
}
use pakeles.Tlv.Types.{State, parse_total, tlv_loop, parse_item, close, reason_str, rmask}
use pakeles.Tlv.States.{case_parse_total, case_tlv_loop, case_parse_item, case_close}
use pakeles.Tlv.Parse.{step}

-- `reason_str` has words for the code.
abbrev pub named : ℕ → Bool
unfolding reason_str
named r = not (str_eq (reason_str r) "")

-- How many regions are open when a state is entered.
abbrev pub depth_of : State → ℕ
depth_of parse_total = 0
depth_of tlv_loop = 1
depth_of parse_item = 1
depth_of close = 1

instance pub mask : IsMask rmask
mask = record { small = omega arith; keeps = mask_0 }

instance pub names : NamesBuiltIn named
unfolding reason_str
names = record { oob = refl; oorb = refl; robb = refl; rne = refl }

case_parse_total-Triple : Triple (suc rmask) named 0 case_parse_total depth_of
unfolding case_parse_total
case_parse_total-Triple =
    Triple-store _ ▸ Triple-bytes_in _ _ (omega arith) ▸ Triple-fetch _ ⨾ λ rlen.
    Triple-push rlen (omega arith) ▸ Triple-pure tlv_loop refl

case_tlv_loop-Triple : Triple (suc rmask) named 1 case_tlv_loop depth_of
unfolding case_tlv_loop
case_tlv_loop-Triple = Triple-remaining ⨾ λ r.
    Triple-if ((shr64 r 3) == 0) (Triple-pure close refl) (Triple-pure parse_item refl)

case_parse_item-Triple : Triple (suc rmask) named 1 case_parse_item depth_of
unfolding case_parse_item
case_parse_item-Triple =
    Triple-store _
    ▸ Triple-bytes_in _ _ (omega arith)
    ▸ Triple-bytes_in _ _ (omega arith)
    ▸ Triple-fetch _
    ⨾ λ vlen. Triple-run_of_in vlen _ ▸ Triple-pure tlv_loop refl

case_close-Triple : Triple (suc rmask) named 1 case_close depth_of
unfolding case_close
case_close-Triple = Triple-pop ▸ Triple-accept

-- Every state keeps the invariant.
pub step-Triple : (s : State) → Triple (suc rmask) named (depth_of s) (step s) depth_of
unfolding step
step-Triple parse_total = case_parse_total-Triple
step-Triple tlv_loop = case_tlv_loop-Triple
step-Triple parse_item = case_parse_item-Triple
step-Triple close = case_close-Triple
