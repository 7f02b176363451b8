-- ===== src/DpdkPtype/Tests.antt =====
-- Runs of dpdk_ptype on whole packets.
use pakeles.Base.{ℕ, ◌≡◌, refl, List, [], ◌∷◌, some, arith}
use pakeles.Core.{masked}
use pakeles.Results.{ends}
use pakeles.Safety.{ReturnsSound}
use pakeles.DpdkPtype.Parse.{dpdk_ptype_parse, dpdk_ptype_parse_core, running}
use pakeles.DpdkPtype.Cases.{named}
use pakeles.DpdkPtype.Sound.{dpdk_ptype_parse-ReturnsSound, dpdk_ptype_parse_core-masked}

-- IPv4 and TCP
abbrev tcp : List ℕ
tcp =
    170 ∷ 187 ∷ 204 ∷ 221 ∷ 238 ∷ 255 ∷ 17 ∷ 34 ∷ 51 ∷ 68 ∷ 85 ∷ 102 ∷ 8 ∷ 0 ∷ 69 ∷ 0 ∷ 0 ∷ 40 ∷ 18
    ∷ 52 ∷ 64 ∷ 0 ∷ 64 ∷ 6 ∷ 222 ∷ 173 ∷ 10 ∷ 0 ∷ 0 ∷ 1 ∷ 10 ∷ 0 ∷ 0 ∷ 2 ∷ 48 ∷ 57 ∷ 1 ∷ 187 ∷ 0 ∷ 0
    ∷ 0 ∷ 1 ∷ 0 ∷ 0 ∷ 0 ∷ 0 ∷ 80 ∷ 24 ∷ 255 ∷ 255 ∷ 0 ∷ 0 ∷ 0 ∷ 0 ∷ []

tcp_ends : ends (dpdk_ptype_parse tcp 432) ≡ some (0, 0, 432)
unfolding running
tcp_ends = refl

-- a first fragment of IPv6
abbrev fragment : List ℕ
fragment =
    170 ∷ 187 ∷ 204 ∷ 221 ∷ 238 ∷ 255 ∷ 17 ∷ 34 ∷ 51 ∷ 68 ∷ 85 ∷ 102 ∷ 134 ∷ 221 ∷ 96 ∷ 0 ∷ 0 ∷ 0
    ∷ 0 ∷ 0 ∷ 44 ∷ 64 ∷ 32 ∷ 1 ∷ 13 ∷ 184 ∷ 0 ∷ 0 ∷ 0 ∷ 0 ∷ 0 ∷ 0 ∷ 0 ∷ 0 ∷ 0 ∷ 0 ∷ 0 ∷ 1 ∷ 32 ∷ 1
    ∷ 13 ∷ 184 ∷ 0 ∷ 0 ∷ 0 ∷ 0 ∷ 0 ∷ 0 ∷ 0 ∷ 0 ∷ 0 ∷ 0 ∷ 0 ∷ 2 ∷ 59 ∷ 0 ∷ 0 ∷ 0 ∷ 0 ∷ 0 ∷ 0 ∷ 1 ∷ []

fragment_ends : ends (dpdk_ptype_parse fragment 496) ≡ some (0, 0, 496)
unfolding running
fragment_ends = refl

dpdk_ptype_parse-ReturnsSound_example : ReturnsSound named 432 (dpdk_ptype_parse tcp 432)
dpdk_ptype_parse-ReturnsSound_example =
    dpdk_ptype_parse-ReturnsSound tcp 432 (omega arith) (omega arith)

dpdk_ptype_parse_core-masked_example :
    dpdk_ptype_parse_core (masked tcp 432) ≡ dpdk_ptype_parse tcp 432
dpdk_ptype_parse_core-masked_example =
    dpdk_ptype_parse_core-masked tcp 432 (omega arith) (omega arith)
