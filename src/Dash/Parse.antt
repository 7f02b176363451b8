-- ===== src/Dash/Parse.antt =====
-- `parse_core` of benchmarks/industry/dash_parser/gen/parser.c and the function around it.
use pakeles.Base.{ℕ, List, Option}
use pakeles.Core.{Input, M, Result, run_core, portable, statements}
use pakeles.Dash.Types.{
  Body, zero_body, State, parse_u0_ethernet, parse_dash_hdr, parse_flow_key, parse_flow_data,
  parse_flow_overlay_data, parse_flow_encap_u0, parse_flow_encap_u1, parse_flow_encap_u0_u1,
  parse_u0_ipv4, parse_u0_ipv4_ihl, parse_u0_ipv4options, dispatch_on_u0_protocol, parse_u0_ipv6,
  parse_u0_udp, parse_u0_tcp, parse_u0_vxlan, parse_customer_ethernet, parse_customer_ipv4,
  parse_customer_ipv4_ihl, dispatch_on_customer_protocol, parse_customer_ipv6, parse_customer_udp,
  parse_customer_tcp,
}
use pakeles.Dash.Flow.{
  case_parse_u0_ethernet, case_parse_dash_hdr, case_parse_flow_key, case_parse_flow_data,
  case_parse_flow_overlay_data,
}
use pakeles.Dash.Encap.{
  case_parse_flow_encap_u0, case_parse_flow_encap_u1, case_parse_flow_encap_u0_u1,
}
use pakeles.Dash.Underlay.{
  case_parse_u0_ipv4, case_parse_u0_ipv4_ihl, case_parse_u0_ipv4options,
  case_dispatch_on_u0_protocol, case_parse_u0_ipv6, case_parse_u0_udp, case_parse_u0_tcp,
  case_parse_u0_vxlan,
}
use pakeles.Dash.Customer.{
  case_parse_customer_ethernet, case_parse_customer_ipv4, case_parse_customer_ipv4_ihl,
  case_dispatch_on_customer_protocol, case_parse_customer_ipv6, case_parse_customer_udp,
  case_parse_customer_tcp,
}

-- `switch (state)`
unfoldable pub step : State → M Body State
step parse_u0_ethernet = case_parse_u0_ethernet
step parse_dash_hdr = case_parse_dash_hdr
step parse_flow_key = case_parse_flow_key
step parse_flow_data = case_parse_flow_data
step parse_flow_overlay_data = case_parse_flow_overlay_data
step parse_flow_encap_u0 = case_parse_flow_encap_u0
step parse_flow_encap_u1 = case_parse_flow_encap_u1
step parse_flow_encap_u0_u1 = case_parse_flow_encap_u0_u1
step parse_u0_ipv4 = case_parse_u0_ipv4
step parse_u0_ipv4_ihl = case_parse_u0_ipv4_ihl
step parse_u0_ipv4options = case_parse_u0_ipv4options
step dispatch_on_u0_protocol = case_dispatch_on_u0_protocol
step parse_u0_ipv6 = case_parse_u0_ipv6
step parse_u0_udp = case_parse_u0_udp
step parse_u0_tcp = case_parse_u0_tcp
step parse_u0_vxlan = case_parse_u0_vxlan
step parse_customer_ethernet = case_parse_customer_ethernet
step parse_customer_ipv4 = case_parse_customer_ipv4
step parse_customer_ipv4_ihl = case_parse_customer_ipv4_ihl
step dispatch_on_customer_protocol = case_dispatch_on_customer_protocol
step parse_customer_ipv6 = case_parse_customer_ipv6
step parse_customer_udp = case_parse_customer_udp
step parse_customer_tcp = case_parse_customer_tcp

-- the bound of the loop
abbrev pub max_depth : ℕ
max_depth = 13

-- `pk_dash_parser_parse_core`, called with `*out` zeroed
unfoldable pub dash_parser_parse_core : Input → Option (Result Body)
dash_parser_parse_core i = run_core step max_depth parse_u0_ethernet 0 i zero_body

-- `pk_dash_parser_parse`
unfoldable pub dash_parser_parse : List ℕ → ℕ → Option (Result Body)
dash_parser_parse buf bit_len = dash_parser_parse_core (portable buf bit_len)

-- For tests: a line `unfolding running` opens all that a run computes with.
unfoldable pub running : Unit {0}
unfolding statements run_core step dash_parser_parse_core dash_parser_parse case_parse_u0_ethernet
    case_parse_dash_hdr case_parse_flow_key case_parse_flow_data case_parse_flow_overlay_data
    case_parse_flow_encap_u0 case_parse_flow_encap_u1 case_parse_flow_encap_u0_u1 case_parse_u0_ipv4
    case_parse_u0_ipv4_ihl case_parse_u0_ipv4options case_dispatch_on_u0_protocol case_parse_u0_ipv6
    case_parse_u0_udp case_parse_u0_tcp case_parse_u0_vxlan case_parse_customer_ethernet
    case_parse_customer_ipv4 case_parse_customer_ipv4_ihl case_dispatch_on_customer_protocol
    case_parse_customer_ipv6 case_parse_customer_udp case_parse_customer_tcp
running = tt
