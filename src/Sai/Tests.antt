-- ===== src/Sai/Tests.antt =====
-- Runs of sai_parser on whole packets.
use pakeles.Base.{ℕ, ◌≡◌, refl, List, [], ◌∷◌, some, arith}
use pakeles.Core.{masked}
use pakeles.Results.{ends, field}
use pakeles.Safety.{ReturnsSound}
use pakeles.Sai.Parse.{sai_parser_parse, sai_parser_parse_core, running}
use pakeles.Sai.Cases.{named}
use pakeles.Sai.Sound.{sai_parser_parse-ReturnsSound, sai_parser_parse_core-masked}

-- ARP
abbrev arp : List ℕ
arp =
    170 ∷ 187 ∷ 204 ∷ 221 ∷ 238 ∷ 255 ∷ 17 ∷ 34 ∷ 51 ∷ 68 ∷ 85 ∷ 102 ∷ 8 ∷ 6 ∷ 0 ∷ 1 ∷ 8 ∷ 0 ∷ 6 ∷ 4
    ∷ 0 ∷ 1 ∷ 17 ∷ 34 ∷ 51 ∷ 68 ∷ 85 ∷ 102 ∷ 10 ∷ 0 ∷ 0 ∷ 1 ∷ 170 ∷ 187 ∷ 204 ∷ 221 ∷ 238 ∷ 255 ∷ 10
    ∷ 0 ∷ 0 ∷ 2 ∷ []

arp_ends : ends (sai_parser_parse arp 336) ≡ some (0, 0, 336)
unfolding running
arp_ends = refl

arp_arp_target_proto : field (λ b. b.arp.target_proto) (sai_parser_parse arp 336) ≡ some 167772162
unfolding running
arp_arp_target_proto = refl

-- VLAN, IPv4 and TCP
abbrev tagged_tcp : List ℕ
tagged_tcp =
    170 ∷ 187 ∷ 204 ∷ 221 ∷ 238 ∷ 255 ∷ 17 ∷ 34 ∷ 51 ∷ 68 ∷ 85 ∷ 102 ∷ 129 ∷ 0 ∷ 0 ∷ 100 ∷ 8 ∷ 0
    ∷ 69 ∷ 0 ∷ 0 ∷ 40 ∷ 18 ∷ 52 ∷ 0 ∷ 0 ∷ 64 ∷ 6 ∷ 222 ∷ 173 ∷ 10 ∷ 0 ∷ 0 ∷ 1 ∷ 10 ∷ 0 ∷ 0 ∷ 2 ∷ 48
    ∷ 57 ∷ 1 ∷ 187 ∷ 0 ∷ 0 ∷ 0 ∷ 1 ∷ 0 ∷ 0 ∷ 0 ∷ 0 ∷ 80 ∷ 16 ∷ 255 ∷ 255 ∷ 0 ∷ 0 ∷ 0 ∷ 0 ∷ []

tagged_tcp_ends : ends (sai_parser_parse tagged_tcp 464) ≡ some (0, 0, 464)
unfolding running
tagged_tcp_ends = refl

tagged_tcp_tcp_dst_port : field (λ b. b.tcp.dst_port) (sai_parser_parse tagged_tcp 464) ≡ some 443
unfolding running
tagged_tcp_tcp_dst_port = refl

sai_parser_parse-ReturnsSound_example : ReturnsSound named 336 (sai_parser_parse arp 336)
sai_parser_parse-ReturnsSound_example =
    sai_parser_parse-ReturnsSound arp 336 (omega arith) (omega arith)

sai_parser_parse_core-masked_example :
    sai_parser_parse_core (masked arp 336) ≡ sai_parser_parse arp 336
sai_parser_parse_core-masked_example =
    sai_parser_parse_core-masked arp 336 (omega arith) (omega arith)
