-- ===== src/Katran/Tests.antt =====
-- Runs of katran_parser on whole packets.
use pakeles.Base.{ℕ, ◌≡◌, refl, List, [], ◌∷◌, some, arith}
use pakeles.Core.{masked}
use pakeles.Results.{ends, field}
use pakeles.Safety.{ReturnsSound}
use pakeles.Katran.Parse.{katran_parser_parse, katran_parser_parse_core, running}
use pakeles.Katran.Cases.{named}
use pakeles.Katran.Sound.{katran_parser_parse-ReturnsSound, katran_parser_parse_core-masked}

-- an ICMP echo request
abbrev echo : List ℕ
echo =
    170 ∷ 187 ∷ 204 ∷ 221 ∷ 238 ∷ 255 ∷ 17 ∷ 34 ∷ 51 ∷ 68 ∷ 85 ∷ 102 ∷ 8 ∷ 0 ∷ 69 ∷ 0 ∷ 0 ∷ 40 ∷ 18
    ∷ 52 ∷ 0 ∷ 0 ∷ 64 ∷ 1 ∷ 222 ∷ 173 ∷ 10 ∷ 0 ∷ 0 ∷ 1 ∷ 10 ∷ 0 ∷ 0 ∷ 2 ∷ 8 ∷ 0 ∷ 222 ∷ 173 ∷ 0 ∷ 0
    ∷ 0 ∷ 0 ∷ []

echo_ends : ends (katran_parser_parse echo 336) ≡ some (0, 0, 336)
unfolding running
echo_ends = refl

echo_icmp_type : field (λ b. b.icmp.type) (katran_parser_parse echo 336) ≡ some 8
unfolding running
echo_icmp_type = refl

-- IPv4 and TCP
abbrev tcp : List ℕ
tcp =
    170 ∷ 187 ∷ 204 ∷ 221 ∷ 238 ∷ 255 ∷ 17 ∷ 34 ∷ 51 ∷ 68 ∷ 85 ∷ 102 ∷ 8 ∷ 0 ∷ 69 ∷ 0 ∷ 0 ∷ 40 ∷ 18
    ∷ 52 ∷ 0 ∷ 0 ∷ 64 ∷ 6 ∷ 222 ∷ 173 ∷ 10 ∷ 0 ∷ 0 ∷ 1 ∷ 10 ∷ 0 ∷ 0 ∷ 2 ∷ 48 ∷ 57 ∷ 1 ∷ 187 ∷ 0 ∷ 0
    ∷ 0 ∷ 1 ∷ 0 ∷ 0 ∷ 0 ∷ 0 ∷ 80 ∷ 16 ∷ 255 ∷ 255 ∷ 0 ∷ 0 ∷ 0 ∷ 0 ∷ []

tcp_ends : ends (katran_parser_parse tcp 432) ≡ some (0, 0, 432)
unfolding running
tcp_ends = refl

tcp_tcp_dport : field (λ b. b.tcp.dport) (katran_parser_parse tcp 432) ≡ some 443
unfolding running
tcp_tcp_dport = refl

katran_parser_parse-ReturnsSound_example : ReturnsSound named 336 (katran_parser_parse echo 336)
katran_parser_parse-ReturnsSound_example =
    katran_parser_parse-ReturnsSound echo 336 (omega arith) (omega arith)

katran_parser_parse_core-masked_example :
    katran_parser_parse_core (masked echo 336) ≡ katran_parser_parse echo 336
katran_parser_parse_core-masked_example =
    katran_parser_parse_core-masked echo 336 (omega arith) (omega arith)
