-- ===== src/FlowDissector/Tests.antt =====
-- Runs of linux_flow_dissector on whole packets.
use pakeles.Base.{ℕ, ◌≡◌, refl, List, [], ◌∷◌, some, arith}
use pakeles.Core.{masked}
use pakeles.Results.{ends, field}
use pakeles.Safety.{ReturnsSound}
use pakeles.FlowDissector.Parse.{
  linux_flow_dissector_parse, linux_flow_dissector_parse_core, running,
}
use pakeles.FlowDissector.Cases.{named}
use pakeles.FlowDissector.Sound.{
  linux_flow_dissector_parse-ReturnsSound, linux_flow_dissector_parse_core-masked,
}

-- VLAN, IPv4 and TCP
abbrev tagged_tcp : List ℕ
tagged_tcp =
    170 ∷ 187 ∷ 204 ∷ 221 ∷ 238 ∷ 255 ∷ 17 ∷ 34 ∷ 51 ∷ 68 ∷ 85 ∷ 102 ∷ 129 ∷ 0 ∷ 0 ∷ 100 ∷ 8 ∷ 0
    ∷ 69 ∷ 0 ∷ 0 ∷ 40 ∷ 18 ∷ 52 ∷ 64 ∷ 0 ∷ 64 ∷ 6 ∷ 222 ∷ 173 ∷ 10 ∷ 0 ∷ 0 ∷ 1 ∷ 10 ∷ 0 ∷ 0 ∷ 2 ∷ 48
    ∷ 57 ∷ 1 ∷ 187 ∷ 0 ∷ 0 ∷ 0 ∷ 1 ∷ 0 ∷ 0 ∷ 0 ∷ 0 ∷ 80 ∷ 24 ∷ 255 ∷ 255 ∷ 0 ∷ 0 ∷ 0 ∷ 0 ∷ []

tagged_tcp_ends : ends (linux_flow_dissector_parse tagged_tcp 464) ≡ some (0, 0, 464)
unfolding running
tagged_tcp_ends = refl

tagged_tcp_tcp_dport :
    field (λ b. b.tcp.dport) (linux_flow_dissector_parse tagged_tcp 464) ≡ some 443
unfolding running
tagged_tcp_tcp_dport = refl

-- MPLS
abbrev mpls : List ℕ
mpls =
    170 ∷ 187 ∷ 204 ∷ 221 ∷ 238 ∷ 255 ∷ 17 ∷ 34 ∷ 51 ∷ 68 ∷ 85 ∷ 102 ∷ 136 ∷ 71 ∷ 0 ∷ 6 ∷ 65 ∷ 64
    ∷ 69 ∷ 0 ∷ 0 ∷ 40 ∷ 18 ∷ 52 ∷ 64 ∷ 0 ∷ 64 ∷ 6 ∷ 222 ∷ 173 ∷ 10 ∷ 0 ∷ 0 ∷ 1 ∷ 10 ∷ 0 ∷ 0 ∷ 2 ∷ 48
    ∷ 57 ∷ 1 ∷ 187 ∷ 0 ∷ 0 ∷ 0 ∷ 1 ∷ 0 ∷ 0 ∷ 0 ∷ 0 ∷ 80 ∷ 24 ∷ 255 ∷ 255 ∷ 0 ∷ 0 ∷ 0 ∷ 0 ∷ []

mpls_ends : ends (linux_flow_dissector_parse mpls 464) ≡ some (0, 0, 144)
unfolding running
mpls_ends = refl

linux_flow_dissector_parse-ReturnsSound_example :
    ReturnsSound named 464 (linux_flow_dissector_parse tagged_tcp 464)
linux_flow_dissector_parse-ReturnsSound_example =
    linux_flow_dissector_parse-ReturnsSound tagged_tcp 464 (omega arith) (omega arith)

linux_flow_dissector_parse_core-masked_example :
    linux_flow_dissector_parse_core (masked tagged_tcp 464)
    ≡ linux_flow_dissector_parse tagged_tcp 464
linux_flow_dissector_parse_core-masked_example =
    linux_flow_dissector_parse_core-masked tagged_tcp 464 (omega arith) (omega arith)
