-- ===== src/FlowDissector/Parse.antt =====
-- `parse_core` of benchmarks/industry/linux_flow_dissector/gen/parser.c and the function around it.
use pakeles.Base.{ℕ, List, Option}
use pakeles.Core.{Input, M, Result, run_core, portable, statements}
use pakeles.FlowDissector.Types.{
  Body, zero_body, State, parse_ethernet, parse_vlan_ad, parse_vlan_q, parse_ipv4, parse_ipv6,
  parse_ipv6_opt, parse_ipip, parse_ip6ip, parse_gre, parse_gre_opt, parse_ipv6_frag, parse_mpls,
  parse_tcp, parse_udp,
}
use pakeles.FlowDissector.Link.{
  case_parse_ethernet, case_parse_vlan_ad, case_parse_vlan_q, case_parse_mpls,
}
use pakeles.FlowDissector.Network.{
  case_parse_ipv4, case_parse_ipv6, case_parse_ipv6_opt, case_parse_ipv6_frag,
}
use pakeles.FlowDissector.Tunnel.{
  case_parse_ipip, case_parse_ip6ip, case_parse_gre, case_parse_gre_opt,
}
use pakeles.FlowDissector.Transport.{case_parse_tcp, case_parse_udp}

-- `switch (state)`
unfoldable pub step : State → M Body State
step parse_ethernet = case_parse_ethernet
step parse_vlan_ad = case_parse_vlan_ad
step parse_vlan_q = case_parse_vlan_q
step parse_ipv4 = case_parse_ipv4
step parse_ipv6 = case_parse_ipv6
step parse_ipv6_opt = case_parse_ipv6_opt
step parse_ipip = case_parse_ipip
step parse_ip6ip = case_parse_ip6ip
step parse_gre = case_parse_gre
step parse_gre_opt = case_parse_gre_opt
step parse_ipv6_frag = case_parse_ipv6_frag
step parse_mpls = case_parse_mpls
step parse_tcp = case_parse_tcp
step parse_udp = case_parse_udp

-- the bound of the loop
abbrev pub max_depth : ℕ
max_depth = 10

-- `pk_linux_flow_dissector_parse_core`, called with `*out` zeroed
unfoldable pub linux_flow_dissector_parse_core : Input → Option (Result Body)
linux_flow_dissector_parse_core i = run_core step max_depth parse_ethernet 0 i zero_body

-- `pk_linux_flow_dissector_parse`
unfoldable pub linux_flow_dissector_parse : List ℕ → ℕ → Option (Result Body)
linux_flow_dissector_parse buf bit_len = linux_flow_dissector_parse_core (portable buf bit_len)

-- For tests: a line `unfolding running` opens all that a run computes with.
unfoldable pub running : Unit {0}
unfolding statements run_core step linux_flow_dissector_parse_core linux_flow_dissector_parse
    case_parse_ethernet case_parse_vlan_ad case_parse_vlan_q case_parse_ipv4 case_parse_ipv6
    case_parse_ipv6_opt case_parse_ipip case_parse_ip6ip case_parse_gre case_parse_gre_opt
    case_parse_ipv6_frag case_parse_mpls case_parse_tcp case_parse_udp
running = tt
