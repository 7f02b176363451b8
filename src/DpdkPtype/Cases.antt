-- ===== src/DpdkPtype/Cases.antt =====
-- The rules of `Safety` at the cases of dpdk_ptype.
mod Depths
mod Link
mod Network
mod Tunnel
mod Inner
pub use Depths.{named, depth_of}
use text.Mathlib.Text.{◌==◌ as str_eq}
use pakeles.Base.{ℕ, refl, Bool, not, arith, ◌==◌, ◌&&◌}
use pakeles.Safety.{
  Triple, Triple-pure, Triple-accept, Triple-if, Triple-store, Triple-fetch, ◌⨾◌, ◌▸◌, Triple-bytes,
  Triple-bits, Triple-run_of, NamesBuiltIn,
}
use pakeles.DpdkPtype.Types.{
  State, parse_ethernet, parse_vlan, parse_qinq, parse_ipv4, parse_ipv6, parse_ext_opt1,
  parse_ext_opt2, parse_ext_opt3, parse_ext_opt4, parse_ext_opt5, parse_ext_frag, parse_gre,
  parse_gre_opt, parse_tcp, parse_inner_ethernet, parse_inner_vlan, parse_inner_qinq,
  parse_inner_ipv4, parse_inner_ipv6, parse_inner_ext_opt1, parse_inner_ext_opt2,
  parse_inner_ext_opt3, parse_inner_ext_opt4, parse_inner_ext_opt5, parse_inner_ext_frag,
  parse_inner_tcp, reason_str,
}
use pakeles.DpdkPtype.Link.{case_parse_ethernet, case_parse_vlan, case_parse_qinq}
use pakeles.DpdkPtype.Network.{
  case_parse_ipv4, case_parse_ipv6, case_parse_ext_opt1, case_parse_ext_opt2, case_parse_ext_opt3,
  case_parse_ext_opt4, case_parse_ext_opt5, case_parse_ext_frag,
}
use pakeles.DpdkPtype.Tunnel.{
  case_parse_gre, case_parse_gre_opt, case_parse_tcp, case_parse_inner_ethernet,
  case_parse_inner_vlan, case_parse_inner_qinq,
}
use pakeles.DpdkPtype.Inner.{
  case_parse_inner_ipv4, case_parse_inner_ipv6, case_parse_inner_ext_opt1,
  case_parse_inner_ext_opt2, case_parse_inner_ext_opt3, case_parse_inner_ext_opt4,
  case_parse_inner_ext_opt5, case_parse_inner_ext_frag, case_parse_inner_tcp,
}
use pakeles.DpdkPtype.Parse.{step}
use Link.{case_parse_ethernet-Triple, case_parse_vlan-Triple, case_parse_qinq-Triple}
use Network.{
  case_parse_ipv4-Triple, case_parse_ipv6-Triple, case_parse_ext_opt1-Triple,
  case_parse_ext_opt2-Triple, case_parse_ext_opt3-Triple, case_parse_ext_opt4-Triple,
  case_parse_ext_opt5-Triple, case_parse_ext_frag-Triple,
}
use Tunnel.{
  case_parse_gre-Triple, case_parse_gre_opt-Triple, case_parse_tcp-Triple,
  case_parse_inner_ethernet-Triple, case_parse_inner_vlan-Triple, case_parse_inner_qinq-Triple,
}
use Inner.{
  case_parse_inner_ipv4-Triple, case_parse_inner_ipv6-Triple, case_parse_inner_ext_opt1-Triple,
  case_parse_inner_ext_opt2-Triple, case_parse_inner_ext_opt3-Triple,
  case_parse_inner_ext_opt4-Triple, case_parse_inner_ext_opt5-Triple,
  case_parse_inner_ext_frag-Triple, case_parse_inner_tcp-Triple,
}

-- Every state keeps the invariant.
pub step-Triple : (s : State) → Triple 0 named (depth_of s) (step s) depth_of
unfolding step
step-Triple parse_ethernet = case_parse_ethernet-Triple
step-Triple parse_vlan = case_parse_vlan-Triple
step-Triple parse_qinq = case_parse_qinq-Triple
step-Triple parse_ipv4 = case_parse_ipv4-Triple
step-Triple parse_ipv6 = case_parse_ipv6-Triple
step-Triple parse_ext_opt1 = case_parse_ext_opt1-Triple
step-Triple parse_ext_opt2 = case_parse_ext_opt2-Triple
step-Triple parse_ext_opt3 = case_parse_ext_opt3-Triple
step-Triple parse_ext_opt4 = case_parse_ext_opt4-Triple
step-Triple parse_ext_opt5 = case_parse_ext_opt5-Triple
step-Triple parse_ext_frag = case_parse_ext_frag-Triple
step-Triple parse_gre = case_parse_gre-Triple
step-Triple parse_gre_opt = case_parse_gre_opt-Triple
step-Triple parse_tcp = case_parse_tcp-Triple
step-Triple parse_inner_ethernet = case_parse_inner_ethernet-Triple
step-Triple parse_inner_vlan = case_parse_inner_vlan-Triple
step-Triple parse_inner_qinq = case_parse_inner_qinq-Triple
step-Triple parse_inner_ipv4 = case_parse_inner_ipv4-Triple
step-Triple parse_inner_ipv6 = case_parse_inner_ipv6-Triple
step-Triple parse_inner_ext_opt1 = case_parse_inner_ext_opt1-Triple
step-Triple parse_inner_ext_opt2 = case_parse_inner_ext_opt2-Triple
step-Triple parse_inner_ext_opt3 = case_parse_inner_ext_opt3-Triple
step-Triple parse_inner_ext_opt4 = case_parse_inner_ext_opt4-Triple
step-Triple parse_inner_ext_opt5 = case_parse_inner_ext_opt5-Triple
step-Triple parse_inner_ext_frag = case_parse_inner_ext_frag-Triple
step-Triple parse_inner_tcp = case_parse_inner_tcp-Triple
