-- ===== src/Dash/Tests.antt =====
-- Runs of dash_parser on whole packets.
use pakeles.Base.{ℕ, ◌≡◌, refl, List, [], ◌∷◌, some, arith}
use pakeles.Core.{masked}
use pakeles.Results.{ends, field}
use pakeles.Safety.{ReturnsSound}
use pakeles.Dash.Parse.{dash_parser_parse, dash_parser_parse_core, running}
use pakeles.Dash.Cases.{named}
use pakeles.Dash.Sound.{dash_parser_parse-ReturnsSound, dash_parser_parse_core-masked}

-- VXLAN around Ethernet, IPv4 and TCP
abbrev vxlan : List ℕ
vxlan =
    170 ∷ 187 ∷ 204 ∷ 221 ∷ 238 ∷ 255 ∷ 17 ∷ 34 ∷ 51 ∷ 68 ∷ 85 ∷ 102 ∷ 8 ∷ 0 ∷ 69 ∷ 0 ∷ 0 ∷ 120 ∷ 18
    ∷ 52 ∷ 64 ∷ 0 ∷ 64 ∷ 17 ∷ 222 ∷ 173 ∷ 10 ∷ 0 ∷ 0 ∷ 1 ∷ 10 ∷ 0 ∷ 0 ∷ 2 ∷ 48 ∷ 57 ∷ 18 ∷ 181 ∷ 0
    ∷ 100 ∷ 0 ∷ 0 ∷ 8 ∷ 0 ∷ 0 ∷ 0 ∷ 0 ∷ 0 ∷ 100 ∷ 0 ∷ 192 ∷ 255 ∷ 238 ∷ 0 ∷ 0 ∷ 1 ∷ 192 ∷ 255 ∷ 238
    ∷ 0 ∷ 0 ∷ 2 ∷ 8 ∷ 0 ∷ 69 ∷ 0 ∷ 0 ∷ 40 ∷ 18 ∷ 52 ∷ 64 ∷ 0 ∷ 64 ∷ 6 ∷ 222 ∷ 173 ∷ 10 ∷ 0 ∷ 0 ∷ 1
    ∷ 10 ∷ 0 ∷ 0 ∷ 2 ∷ 48 ∷ 57 ∷ 1 ∷ 187 ∷ 0 ∷ 0 ∷ 0 ∷ 1 ∷ 0 ∷ 0 ∷ 0 ∷ 0 ∷ 80 ∷ 16 ∷ 255 ∷ 255 ∷ 0
    ∷ 0 ∷ 0 ∷ 0 ∷ []

vxlan_ends : ends (dash_parser_parse vxlan 832) ≡ some (0, 0, 832)
unfolding running
vxlan_ends = refl

vxlan_u0_vxlan_vni : field (λ b. b.u0_vxlan.vni) (dash_parser_parse vxlan 832) ≡ some 100
unfolding running
vxlan_u0_vxlan_vni = refl

vxlan_customer_tcp_dst_port :
    field (λ b. b.customer_tcp.dst_port) (dash_parser_parse vxlan 832) ≡ some 443
unfolding running
vxlan_customer_tcp_dst_port = refl

-- an IPv4 header that declares less than 20 bytes
abbrev short_header : List ℕ
short_header =
    170 ∷ 187 ∷ 204 ∷ 221 ∷ 238 ∷ 255 ∷ 17 ∷ 34 ∷ 51 ∷ 68 ∷ 85 ∷ 102 ∷ 8 ∷ 0 ∷ 68 ∷ 0 ∷ 0 ∷ 40 ∷ 18
    ∷ 52 ∷ 64 ∷ 0 ∷ 64 ∷ 6 ∷ 222 ∷ 173 ∷ 10 ∷ 0 ∷ 0 ∷ 1 ∷ 10 ∷ 0 ∷ 0 ∷ 2 ∷ 0 ∷ 0 ∷ 0 ∷ 0 ∷ 0 ∷ 0 ∷ 0
    ∷ 0 ∷ []

short_header_ends : ends (dash_parser_parse short_header 336) ≡ some (1, 18, 272)
unfolding running
short_header_ends = refl

dash_parser_parse-ReturnsSound_example : ReturnsSound named 832 (dash_parser_parse vxlan 832)
dash_parser_parse-ReturnsSound_example =
    dash_parser_parse-ReturnsSound vxlan 832 (omega arith) (omega arith)

dash_parser_parse_core-masked_example :
    dash_parser_parse_core (masked vxlan 832) ≡ dash_parser_parse vxlan 832
dash_parser_parse_core-masked_example =
    dash_parser_parse_core-masked vxlan 832 (omega arith) (omega arith)
