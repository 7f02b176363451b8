-- ===== src/EthIpvxL4/Tests.antt =====
-- Runs of eth_ipvx_l4 on whole packets.
use pakeles.Base.{ℕ, ◌≡◌, refl, List, [], ◌∷◌, some, arith}
use pakeles.Core.{masked}
use pakeles.Results.{ends, field}
use pakeles.Safety.{ReturnsSound}
use pakeles.EthIpvxL4.Parse.{eth_ipvx_l4_parse, eth_ipvx_l4_parse_core, running}
use pakeles.EthIpvxL4.Cases.{named}
use pakeles.EthIpvxL4.Sound.{eth_ipvx_l4_parse-ReturnsSound, eth_ipvx_l4_parse_core-masked}

-- IPv4 and TCP
abbrev tcp : List ℕ
tcp =
    170 ∷ 187 ∷ 204 ∷ 221 ∷ 238 ∷ 255 ∷ 17 ∷ 34 ∷ 51 ∷ 68 ∷ 85 ∷ 102 ∷ 8 ∷ 0 ∷ 69 ∷ 0 ∷ 0 ∷ 40 ∷ 18
    ∷ 52 ∷ 0 ∷ 0 ∷ 64 ∷ 6 ∷ 222 ∷ 173 ∷ 10 ∷ 0 ∷ 0 ∷ 1 ∷ 10 ∷ 0 ∷ 0 ∷ 2 ∷ 48 ∷ 57 ∷ 1 ∷ 187 ∷ 0 ∷ 0
    ∷ 0 ∷ 1 ∷ 0 ∷ 0 ∷ 0 ∷ 0 ∷ 80 ∷ 16 ∷ 255 ∷ 255 ∷ 0 ∷ 0 ∷ 0 ∷ 0 ∷ []

tcp_ends : ends (eth_ipvx_l4_parse tcp 432) ≡ some (0, 0, 432)
unfolding running
tcp_ends = refl

tcp_tcp_dport : field (λ b. b.tcp.dport) (eth_ipvx_l4_parse tcp 432) ≡ some 443
unfolding running
tcp_tcp_dport = refl

-- an EtherType that the parser does not know
abbrev arp : List ℕ
arp = 170 ∷ 187 ∷ 204 ∷ 221 ∷ 238 ∷ 255 ∷ 17 ∷ 34 ∷ 51 ∷ 68 ∷ 85 ∷ 102 ∷ 8 ∷ 6 ∷ []

arp_ends : ends (eth_ipvx_l4_parse arp 112) ≡ some (1, 16, 112)
unfolding running
arp_ends = refl

eth_ipvx_l4_parse-ReturnsSound_example : ReturnsSound named 432 (eth_ipvx_l4_parse tcp 432)
eth_ipvx_l4_parse-ReturnsSound_example =
    eth_ipvx_l4_parse-ReturnsSound tcp 432 (omega arith) (omega arith)

eth_ipvx_l4_parse_core-masked_example :
    eth_ipvx_l4_parse_core (masked tcp 432) ≡ eth_ipvx_l4_parse tcp 432
eth_ipvx_l4_parse_core-masked_example =
    eth_ipvx_l4_parse_core-masked tcp 432 (omega arith) (omega arith)
