-- ===== src/EthIpvxL4/Parse.antt =====
-- `parse_core` of examples/eth_ipvx_l4/gen/parser.c and the function around it.
use pakeles.Base.{ℕ, List, Option}
use pakeles.Core.{Input, M, Result, run_core, portable, statements}
use pakeles.EthIpvxL4.Types.{
  Body, zero_body, State, parse_ethernet, parse_ipv4, parse_ipv6, parse_tcp, parse_udp,
}
use pakeles.EthIpvxL4.Network.{case_parse_ethernet, case_parse_ipv4, case_parse_ipv6}
use pakeles.EthIpvxL4.Transport.{case_parse_tcp, case_parse_udp}

-- `switch (state)`
unfoldable pub step : State → M Body State
step parse_ethernet = case_parse_ethernet
step parse_ipv4 = case_parse_ipv4
step parse_ipv6 = case_parse_ipv6
step parse_tcp = case_parse_tcp
step parse_udp = case_parse_udp

-- the bound of the loop
abbrev pub max_depth : ℕ
max_depth = 4

-- `pk_eth_ipvx_l4_parse_core`, called with `*out` zeroed
unfoldable pub eth_ipvx_l4_parse_core : Input → Option (Result Body)
eth_ipvx_l4_parse_core i = run_core step max_depth parse_ethernet 0 i zero_body

-- `pk_eth_ipvx_l4_parse`
unfoldable pub eth_ipvx_l4_parse : List ℕ → ℕ → Option (Result Body)
eth_ipvx_l4_parse buf bit_len = eth_ipvx_l4_parse_core (portable buf bit_len)

-- For tests: a line `unfolding running` opens all that a run computes with.
unfoldable pub running : Unit {0}
unfolding statements run_core step eth_ipvx_l4_parse_core eth_ipvx_l4_parse case_parse_ethernet
    case_parse_ipv4 case_parse_ipv6 case_parse_tcp case_parse_udp
running = tt
