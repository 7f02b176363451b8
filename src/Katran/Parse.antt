-- ===== src/Katran/Parse.antt =====
-- `parse_core` of benchmarks/industry/katran_parser/gen/parser.c and the function around it.
use pakeles.Base.{ℕ, List, Option}
use pakeles.Core.{Input, M, Result, run_core, portable, statements}
use pakeles.Katran.Types.{
  Body, zero_body, State, parse_ethernet, parse_ipv4, parse_ipv4_proto, parse_ipv6, parse_icmp,
  parse_icmp6, parse_inner_ipv4, parse_inner_ipv4_proto, parse_inner_ipv6, parse_tcp, parse_udp,
}
use pakeles.Katran.Outer.{
  case_parse_ethernet, case_parse_ipv4, case_parse_ipv4_proto, case_parse_ipv6,
}
use pakeles.Katran.Icmp.{
  case_parse_icmp, case_parse_icmp6, case_parse_inner_ipv4, case_parse_inner_ipv4_proto,
  case_parse_inner_ipv6,
}
use pakeles.Katran.Transport.{case_parse_tcp, case_parse_udp}

-- `switch (state)`
unfoldable pub step : State → M Body State
step parse_ethernet = case_parse_ethernet
step parse_ipv4 = case_parse_ipv4
step parse_ipv4_proto = case_parse_ipv4_proto
step parse_ipv6 = case_parse_ipv6
step parse_icmp = case_parse_icmp
step parse_icmp6 = case_parse_icmp6
step parse_inner_ipv4 = case_parse_inner_ipv4
step parse_inner_ipv4_proto = case_parse_inner_ipv4_proto
step parse_inner_ipv6 = case_parse_inner_ipv6
step parse_tcp = case_parse_tcp
step parse_udp = case_parse_udp

-- the bound of the loop
abbrev pub max_depth : ℕ
max_depth = 8

-- `pk_katran_parser_parse_core`, called with `*out` zeroed
unfoldable pub katran_parser_parse_core : Input → Option (Result Body)
katran_parser_parse_core i = run_core step max_depth parse_ethernet 0 i zero_body

-- `pk_katran_parser_parse`
unfoldable pub katran_parser_parse : List ℕ → ℕ → Option (Result Body)
katran_parser_parse buf bit_len = katran_parser_parse_core (portable buf bit_len)

-- For tests: a line `unfolding running` opens all that a run computes with.
unfoldable pub running : Unit {0}
unfolding statements run_core step katran_parser_parse_core katran_parser_parse case_parse_ethernet
    case_parse_ipv4 case_parse_ipv4_proto case_parse_ipv6 case_parse_icmp case_parse_icmp6
    case_parse_inner_ipv4 case_parse_inner_ipv4_proto case_parse_inner_ipv6 case_parse_tcp
    case_parse_udp
running = tt
