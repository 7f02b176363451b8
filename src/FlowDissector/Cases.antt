-- ===== src/FlowDissector/Cases.antt =====
-- The rules of `Safety` at the cases of linux_flow_dissector.
mod Depths
mod Link
mod Network
mod Tunnel
mod Transport
pub use Depths.{named, depth_of}
use text.Mathlib.Text.{◌==◌ as str_eq}
use pakeles.Base.{ℕ, refl, Bool, not, arith, ◌==◌}
use pakeles.Safety.{
  Triple, Triple-pure, Triple-accept, Triple-reject, Triple-if, Triple-store, Triple-fetch, ◌⨾◌,
  ◌▸◌, Triple-bytes, Triple-bits, Triple-run_of, NamesBuiltIn,
}
use pakeles.FlowDissector.Types.{
  State, parse_ethernet, parse_vlan_ad, parse_vlan_q, parse_ipv4, parse_ipv6, parse_ipv6_opt,
  parse_ipip, parse_ip6ip, parse_gre, parse_gre_opt, parse_ipv6_frag, parse_mpls, parse_tcp,
  parse_udp, 802_1ad_must_be_followed_by_802_1q, unsupported_ethertype, unsupported_gre_proto,
  unsupported_ip_protocol, vlan_stacking_beyond_kernel_depth, reason_str,
}
use pakeles.FlowDissector.Link.{
  case_parse_ethernet, case_parse_vlan_ad, case_parse_vlan_q, case_parse_mpls,
}
use pakeles.FlowDissector.Network.{
  case_parse_ipv4, case_parse_ipv6, case_parse_ipv6_opt, case_parse_ipv6_frag,
}
use pakeles.FlowDissector.Tunnel.{
  case_parse_ipip, case_parse_ip6ip, case_parse_gre, case_parse_gre_opt,
}
use pakeles.FlowDissector.Transport.{case_parse_tcp, case_parse_udp}
use pakeles.FlowDissector.Parse.{step}
use Link.{
  case_parse_ethernet-Triple, case_parse_vlan_ad-Triple, case_parse_vlan_q-Triple,
  case_parse_mpls-Triple,
}
use Network.{
  case_parse_ipv4-Triple, case_parse_ipv6-Triple, case_parse_ipv6_opt-Triple,
  case_parse_ipv6_frag-Triple,
}
use Tunnel.{
  case_parse_ipip-Triple, case_parse_ip6ip-Triple, case_parse_gre-Triple, case_parse_gre_opt-Triple,
}
use Transport.{case_parse_tcp-Triple, case_parse_udp-Triple}

-- Every state keeps the invariant.
pub step-Triple : (s : State) → Triple 0 named (depth_of s) (step s) depth_of
unfolding step
step-Triple parse_ethernet = case_parse_ethernet-Triple
step-Triple parse_vlan_ad = case_parse_vlan_ad-Triple
step-Triple parse_vlan_q = case_parse_vlan_q-Triple
step-Triple parse_ipv4 = case_parse_ipv4-Triple
step-Triple parse_ipv6 = case_parse_ipv6-Triple
step-Triple parse_ipv6_opt = case_parse_ipv6_opt-Triple
step-Triple parse_ipip = case_parse_ipip-Triple
step-Triple parse_ip6ip = case_parse_ip6ip-Triple
step-Triple parse_gre = case_parse_gre-Triple
step-Triple parse_gre_opt = case_parse_gre_opt-Triple
step-Triple parse_ipv6_frag = case_parse_ipv6_frag-Triple
step-Triple parse_mpls = case_parse_mpls-Triple
step-Triple parse_tcp = case_parse_tcp-Triple
step-Triple parse_udp = case_parse_udp-Triple
