-- ===== src/DpdkPtype/Parse.antt =====
-- `parse_core` of benchmarks/industry/dpdk_ptype/gen/parser.c and the function around it.
use pakeles.Base.{ℕ, List, Option}
use pakeles.Core.{Input, M, Result, run_core, portable, statements}
use pakeles.DpdkPtype.Types.{
  Body, zero_body, State, parse_ethernet, parse_vlan, parse_qinq, parse_ipv4, parse_ipv6,
  parse_ext_opt1, parse_ext_opt2, parse_ext_opt3, parse_ext_opt4, parse_ext_opt5, parse_ext_frag,
  parse_gre, parse_gre_opt, parse_tcp, parse_inner_ethernet, parse_inner_vlan, parse_inner_qinq,
  parse_inner_ipv4, parse_inner_ipv6, parse_inner_ext_opt1, parse_inner_ext_opt2,
  parse_inner_ext_opt3, parse_inner_ext_opt4, parse_inner_ext_opt5, parse_inner_ext_frag,
  parse_inner_tcp,
}
use pakeles.DpdkPtype.Link.{case_parse_ethernet, case_parse_vlan, case_parse_qinq}
use pakeles.DpdkPtype.Network.{
  case_parse_ipv4, case_parse_ipv6, case_parse_ext_opt1, case_parse_ext_opt2, case_parse_ext_opt3,
  case_parse_ext_opt4, case_parse_ext_opt5, case_parse_ext_frag,
}
use pakeles.DpdkPtype.Tunnel.{
  case_parse_gre, case_parse_gre_opt, case_parse_tcp, case_parse_inner_ethernet,
  case_parse_inner_vlan, case_parse_inner_qinq,
}
use pakeles.DpdkPtype.Inner.{
  case_parse_inner_ipv4, case_parse_inner_ipv6, case_parse_inner_ext_opt1,
  case_parse_inner_ext_opt2, case_parse_inner_ext_opt3, case_parse_inner_ext_opt4,
  case_parse_inner_ext_opt5, case_parse_inner_ext_frag, case_parse_inner_tcp,
}

-- `switch (state)`
unfoldable pub step : State → M Body State
step parse_ethernet = case_parse_ethernet
step parse_vlan = case_parse_vlan
step parse_qinq = case_parse_qinq
step parse_ipv4 = case_parse_ipv4
step parse_ipv6 = case_parse_ipv6
step parse_ext_opt1 = case_parse_ext_opt1
step parse_ext_opt2 = case_parse_ext_opt2
step parse_ext_opt3 = case_parse_ext_opt3
step parse_ext_opt4 = case_parse_ext_opt4
step parse_ext_opt5 = case_parse_ext_opt5
step parse_ext_frag = case_parse_ext_frag
step parse_gre = case_parse_gre
step parse_gre_opt = case_parse_gre_opt
step parse_tcp = case_parse_tcp
step parse_inner_ethernet = case_parse_inner_ethernet
step parse_inner_vlan = case_parse_inner_vlan
step parse_inner_qinq = case_parse_inner_qinq
step parse_inner_ipv4 = case_parse_inner_ipv4
step parse_inner_ipv6 = case_parse_inner_ipv6
step parse_inner_ext_opt1 = case_parse_inner_ext_opt1
step parse_inner_ext_opt2 = case_parse_inner_ext_opt2
step parse_inner_ext_opt3 = case_parse_inner_ext_opt3
step parse_inner_ext_opt4 = case_parse_inner_ext_opt4
step parse_inner_ext_opt5 = case_parse_inner_ext_opt5
step parse_inner_ext_frag = case_parse_inner_ext_frag
step parse_inner_tcp = case_parse_inner_tcp

-- the bound of the loop
abbrev pub max_depth : ℕ
max_depth = 20

-- `pk_dpdk_ptype_parse_core`, called with `*out` zeroed
unfoldable pub dpdk_ptype_parse_core : Input → Option (Result Body)
dpdk_ptype_parse_core i = run_core step max_depth parse_ethernet 0 i zero_body

-- `pk_dpdk_ptype_parse`
unfoldable pub dpdk_ptype_parse : List ℕ → ℕ → Option (Result Body)
dpdk_ptype_parse buf bit_len = dpdk_ptype_parse_core (portable buf bit_len)

-- For tests: a line `unfolding running` opens all that a run computes with.
unfoldable pub running : Unit {0}
unfolding statements run_core step dpdk_ptype_parse_core dpdk_ptype_parse case_parse_ethernet
    case_parse_vlan case_parse_qinq case_parse_ipv4 case_parse_ipv6 case_parse_ext_opt1
    case_parse_ext_opt2 case_parse_ext_opt3 case_parse_ext_opt4 case_parse_ext_opt5
    case_parse_ext_frag case_parse_gre case_parse_gre_opt case_parse_tcp case_parse_inner_ethernet
    case_parse_inner_vlan case_parse_inner_qinq case_parse_inner_ipv4 case_parse_inner_ipv6
    case_parse_inner_ext_opt1 case_parse_inner_ext_opt2 case_parse_inner_ext_opt3
    case_parse_inner_ext_opt4 case_parse_inner_ext_opt5 case_parse_inner_ext_frag
    case_parse_inner_tcp
running = tt
