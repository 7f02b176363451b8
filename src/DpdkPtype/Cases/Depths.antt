-- ===== src/DpdkPtype/Cases/Depths.antt =====
-- The reasons that dpdk_ptype names, and how many regions are open at each of its states.
use text.Mathlib.Text.{◌==◌ as str_eq}
use pakeles.Base.{ℕ, refl, Bool, not}
use pakeles.Safety.{NamesBuiltIn}
use pakeles.DpdkPtype.Types.{State, reason_str}

-- `reason_str` has words for the code.
abbrev pub named : ℕ → Bool
unfolding reason_str
named r = not (str_eq (reason_str r) "")

-- How many regions are open when a state is entered.
abbrev pub depth_of : State → ℕ
depth_of s = 0

instance pub names : NamesBuiltIn named
unfolding reason_str
names = record { oob = refl; oorb = refl; robb = refl; rne = refl }
