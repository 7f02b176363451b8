-- ===== src/Tls/Cases/Depths.antt =====
-- The reasons that tls_clienthello names, and how many regions are open at each of its states.
use text.Mathlib.Text.{◌==◌ as str_eq}
use pakeles.Base.{ℕ, refl, Bool, not, arith, mask_7}
use pakeles.Safety.{IsMask, NamesBuiltIn}
use pakeles.Tls.Types.{
  State, s_record, s_recver, s_hs, s_fixed, s_sid_len, s_sid, s_cs_len, s_cs_parity, s_cs,
  s_comp_len, s_comp, s_ext_check, s_ext_len, s_tlv, s_ext, s_skip, s_sni, s_sni_list, s_sni_entry,
  s_host, s_done, s_done_noext, reason_str, rmask,
}

-- `reason_str` has words for the code.
abbrev pub named : ℕ → Bool
unfolding reason_str
named r = not (str_eq (reason_str r) "")

-- How many regions are open when a state is entered.
abbrev pub depth_of : State → ℕ
depth_of s_record = 0
depth_of s_recver = 1
depth_of s_hs = 1
depth_of s_fixed = 2
depth_of s_sid_len = 2
depth_of s_sid = 2
depth_of s_cs_len = 2
depth_of s_cs_parity = 2
depth_of s_cs = 2
depth_of s_comp_len = 2
depth_of s_comp = 2
depth_of s_ext_check = 2
depth_of s_ext_len = 2
depth_of s_tlv = 3
depth_of s_ext = 3
depth_of s_skip = 3
depth_of s_sni = 3
depth_of s_sni_list = 4
depth_of s_sni_entry = 5
depth_of s_host = 5
depth_of s_done = 3
depth_of s_done_noext = 2

instance pub mask : IsMask rmask
mask = record { small = omega arith; keeps = mask_7 }

instance pub names : NamesBuiltIn named
unfolding reason_str
names = record { oob = refl; oorb = refl; robb = refl; rne = refl }
