-- ===== src/Sai/Parse.antt =====
-- `parse_core` of benchmarks/industry/sai_parser/gen/parser.c and the function around it.
use pakeles.Base.{ℕ, List, Option}
use pakeles.Core.{Input, M, Result, run_core, portable, statements}
use pakeles.Sai.Types.{
  Body, zero_body, State, parse_ethernet, parse_vlan, parse_ipv4, parse_ipv6, parse_arp, parse_icmp,
  parse_tcp, parse_udp,
}
use pakeles.Sai.Link.{case_parse_ethernet, case_parse_vlan, case_parse_arp}
use pakeles.Sai.Network.{case_parse_ipv4, case_parse_ipv6}
use pakeles.Sai.Transport.{case_parse_icmp, case_parse_tcp, case_parse_udp}

-- `switch (state)`
unfoldable pub step : State → M Body State
step parse_ethernet = case_parse_ethernet
step parse_vlan = case_parse_vlan
step parse_ipv4 = case_parse_ipv4
step parse_ipv6 = case_parse_ipv6
step parse_arp = case_parse_arp
step parse_icmp = case_parse_icmp
step parse_tcp = case_parse_tcp
step parse_udp = case_parse_udp

-- the bound of the loop
abbrev pub max_depth : ℕ
max_depth = 6

-- `pk_sai_parser_parse_core`, called with `*out` zeroed
unfoldable pub sai_parser_parse_core : Input → Option (Result Body)
sai_parser_parse_core i = run_core step max_depth parse_ethernet 0 i zero_body

-- `pk_sai_parser_parse`
unfoldable pub sai_parser_parse : List ℕ → ℕ → Option (Result Body)
sai_parser_parse buf bit_len = sai_parser_parse_core (portable buf bit_len)

-- For tests: a line `unfolding running` opens all that a run computes with.
unfoldable pub running : Unit {0}
unfolding statements run_core step sai_parser_parse_core sai_parser_parse case_parse_ethernet
    case_parse_vlan case_parse_ipv4 case_parse_ipv6 case_parse_arp case_parse_icmp case_parse_tcp
    case_parse_udp
running = tt
