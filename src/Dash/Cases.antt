-- ===== src/Dash/Cases.antt =====
-- The rules of `Safety` at the cases of dash_parser.
mod Depths
mod Flow
mod Encap
mod Underlay
mod Customer
pub use Depths.{named, depth_of}
use text.Mathlib.Text.{◌==◌ as str_eq}
use pakeles.Base.{ℕ, refl, Bool, not, arith, ◌==◌, leb, bit_and}
use pakeles.Safety.{
  Triple, Triple-pure, Triple-accept, Triple-reject, Triple-if, Triple-store, Triple-fetch, ◌⨾◌,
  ◌▸◌, Triple-bytes, Triple-bits, Triple-run_of, NamesBuiltIn,
}
use pakeles.Dash.Types.{
  State, parse_u0_ethernet, parse_dash_hdr, parse_flow_key, parse_flow_data,
  parse_flow_overlay_data, parse_flow_encap_u0, parse_flow_encap_u1, parse_flow_encap_u0_u1,
  parse_u0_ipv4, parse_u0_ipv4_ihl, parse_u0_ipv4options, dispatch_on_u0_protocol, parse_u0_ipv6,
  parse_u0_udp, parse_u0_tcp, parse_u0_vxlan, parse_customer_ethernet, parse_customer_ipv4,
  parse_customer_ipv4_ihl, dispatch_on_customer_protocol, parse_customer_ipv6, parse_customer_udp,
  parse_customer_tcp, ipv4incorrectversion, ipv4optionsnotsupported, invalidipv4header, reason_str,
}
use pakeles.Dash.Flow.{
  case_parse_u0_ethernet, case_parse_dash_hdr, case_parse_flow_key, case_parse_flow_data,
  case_parse_flow_overlay_data,
}
use pakeles.Dash.Encap.{
  case_parse_flow_encap_u0, case_parse_flow_encap_u1, case_parse_flow_encap_u0_u1,
}
use pakeles.Dash.Underlay.{
  case_parse_u0_ipv4, case_parse_u0_ipv4_ihl, case_parse_u0_ipv4options,
  case_dispatch_on_u0_protocol, case_parse_u0_ipv6, case_parse_u0_udp, case_parse_u0_tcp,
  case_parse_u0_vxlan,
}
use pakeles.Dash.Customer.{
  case_parse_customer_ethernet, case_parse_customer_ipv4, case_parse_customer_ipv4_ihl,
  case_dispatch_on_customer_protocol, case_parse_customer_ipv6, case_parse_customer_udp,
  case_parse_customer_tcp,
}
use pakeles.Dash.Parse.{step}
use Flow.{
  case_parse_u0_ethernet-Triple, case_parse_dash_hdr-Triple, case_parse_flow_key-Triple,
  case_parse_flow_data-Triple, case_parse_flow_overlay_data-Triple,
}
use Encap.{
  case_parse_flow_encap_u0-Triple, case_parse_flow_encap_u1-Triple,
  case_parse_flow_encap_u0_u1-Triple,
}
use Underlay.{
  case_parse_u0_ipv4-Triple, case_parse_u0_ipv4_ihl-Triple, case_parse_u0_ipv4options-Triple,
  case_dispatch_on_u0_protocol-Triple, case_parse_u0_ipv6-Triple, case_parse_u0_udp-Triple,
  case_parse_u0_tcp-Triple, case_parse_u0_vxlan-Triple,
}
use Customer.{
  case_parse_customer_ethernet-Triple, case_parse_customer_ipv4-Triple,
  case_parse_customer_ipv4_ihl-Triple, case_dispatch_on_customer_protocol-Triple,
  case_parse_customer_ipv6-Triple, case_parse_customer_udp-Triple, case_parse_customer_tcp-Triple,
}

-- Every state keeps the invariant.
pub step-Triple : (s : State) → Triple 0 named (depth_of s) (step s) depth_of
unfolding step
step-Triple parse_u0_ethernet = case_parse_u0_ethernet-Triple
step-Triple parse_dash_hdr = case_parse_dash_hdr-Triple
step-Triple parse_flow_key = case_parse_flow_key-Triple
step-Triple parse_flow_data = case_parse_flow_data-Triple
step-Triple parse_flow_overlay_data = case_parse_flow_overlay_data-Triple
step-Triple parse_flow_encap_u0 = case_parse_flow_encap_u0-Triple
step-Triple parse_flow_encap_u1 = case_parse_flow_encap_u1-Triple
step-Triple parse_flow_encap_u0_u1 = case_parse_flow_encap_u0_u1-Triple
step-Triple parse_u0_ipv4 = case_parse_u0_ipv4-Triple
step-Triple parse_u0_ipv4_ihl = case_parse_u0_ipv4_ihl-Triple
step-Triple parse_u0_ipv4options = case_parse_u0_ipv4options-Triple
step-Triple dispatch_on_u0_protocol = case_dispatch_on_u0_protocol-Triple
step-Triple parse_u0_ipv6 = case_parse_u0_ipv6-Triple
step-Triple parse_u0_udp = case_parse_u0_udp-Triple
step-Triple parse_u0_tcp = case_parse_u0_tcp-Triple
step-Triple parse_u0_vxlan = case_parse_u0_vxlan-Triple
step-Triple parse_customer_ethernet = case_parse_customer_ethernet-Triple
step-Triple parse_customer_ipv4 = case_parse_customer_ipv4-Triple
step-Triple parse_customer_ipv4_ihl = case_parse_customer_ipv4_ihl-Triple
step-Triple dispatch_on_customer_protocol = case_dispatch_on_customer_protocol-Triple
step-Triple parse_customer_ipv6 = case_parse_customer_ipv6-Triple
step-Triple parse_customer_udp = case_parse_customer_udp-Triple
step-Triple parse_customer_tcp = case_parse_customer_tcp-Triple
