-- ===== src/Tls/Tests.antt =====
-- Runs of tls_clienthello on whole packets.
use pakeles.Base.{ℕ, ◌≡◌, refl, List, [], ◌∷◌, some, arith}
use pakeles.Core.{masked}
use pakeles.Results.{ends, field}
use pakeles.Safety.{ReturnsSound}
use pakeles.Tls.Parse.{tls_clienthello_parse, tls_clienthello_parse_core, running}
use pakeles.Tls.Cases.{named}
use pakeles.Tls.Sound.{tls_clienthello_parse-ReturnsSound, tls_clienthello_parse_core-masked}

-- server name a.test, signature algorithms
abbrev client_hello : List ℕ
client_hello =
    22 ∷ 3 ∷ 1 ∷ 0 ∷ 74 ∷ 1 ∷ 0 ∷ 0 ∷ 70 ∷ 3 ∷ 3 ∷ 17 ∷ 17 ∷ 17 ∷ 17 ∷ 17 ∷ 17 ∷ 17 ∷ 17 ∷ 17 ∷ 17
    ∷ 17 ∷ 17 ∷ 17 ∷ 17 ∷ 17 ∷ 17 ∷ 17 ∷ 17 ∷ 17 ∷ 17 ∷ 17 ∷ 17 ∷ 17 ∷ 17 ∷ 17 ∷ 17 ∷ 17 ∷ 17 ∷ 17
    ∷ 17 ∷ 17 ∷ 17 ∷ 0 ∷ 0 ∷ 2 ∷ 192 ∷ 47 ∷ 1 ∷ 0 ∷ 0 ∷ 27 ∷ 0 ∷ 0 ∷ 0 ∷ 11 ∷ 0 ∷ 9 ∷ 0 ∷ 0 ∷ 6 ∷ 97
    ∷ 46 ∷ 116 ∷ 101 ∷ 115 ∷ 116 ∷ 0 ∷ 13 ∷ 0 ∷ 8 ∷ 0 ∷ 6 ∷ 4 ∷ 3 ∷ 8 ∷ 4 ∷ 4 ∷ 1 ∷ []

client_hello_ends : ends (tls_clienthello_parse client_hello 632) ≡ some (0, 0, 632)
unfolding running
client_hello_ends = refl

client_hello_host_name_bit_off :
    field (λ b. b.host.name_bit_off) (tls_clienthello_parse client_hello 632) ≡ some 488
unfolding running
client_hello_host_name_bit_off = refl

client_hello_host_name_bit_len :
    field (λ b. b.host.name_bit_len) (tls_clienthello_parse client_hello 632) ≡ some 48
unfolding running
client_hello_host_name_bit_len = refl

-- nothing after the compression methods
abbrev no_extensions : List ℕ
no_extensions =
    22 ∷ 3 ∷ 1 ∷ 0 ∷ 45 ∷ 1 ∷ 0 ∷ 0 ∷ 41 ∷ 3 ∷ 3 ∷ 17 ∷ 17 ∷ 17 ∷ 17 ∷ 17 ∷ 17 ∷ 17 ∷ 17 ∷ 17 ∷ 17
    ∷ 17 ∷ 17 ∷ 17 ∷ 17 ∷ 17 ∷ 17 ∷ 17 ∷ 17 ∷ 17 ∷ 17 ∷ 17 ∷ 17 ∷ 17 ∷ 17 ∷ 17 ∷ 17 ∷ 17 ∷ 17 ∷ 17
    ∷ 17 ∷ 17 ∷ 17 ∷ 0 ∷ 0 ∷ 2 ∷ 192 ∷ 47 ∷ 1 ∷ 0 ∷ []

no_extensions_ends : ends (tls_clienthello_parse no_extensions 400) ≡ some (0, 0, 400)
unfolding running
no_extensions_ends = refl

-- a record that declares 3 bytes more than were sent
abbrev declares_more : List ℕ
declares_more =
    22 ∷ 3 ∷ 1 ∷ 0 ∷ 48 ∷ 1 ∷ 0 ∷ 0 ∷ 41 ∷ 3 ∷ 3 ∷ 17 ∷ 17 ∷ 17 ∷ 17 ∷ 17 ∷ 17 ∷ 17 ∷ 17 ∷ 17 ∷ 17
    ∷ 17 ∷ 17 ∷ 17 ∷ 17 ∷ 17 ∷ 17 ∷ 17 ∷ 17 ∷ 17 ∷ 17 ∷ 17 ∷ 17 ∷ 17 ∷ 17 ∷ 17 ∷ 17 ∷ 17 ∷ 17 ∷ 17
    ∷ 17 ∷ 17 ∷ 17 ∷ 0 ∷ 0 ∷ 2 ∷ 192 ∷ 47 ∷ 1 ∷ 0 ∷ []

declares_more_ends : ends (tls_clienthello_parse declares_more 400) ≡ some (1, 6, 400)
unfolding running
declares_more_ends = refl

tls_clienthello_parse-ReturnsSound_example :
    ReturnsSound named 632 (tls_clienthello_parse client_hello 632)
tls_clienthello_parse-ReturnsSound_example =
    tls_clienthello_parse-ReturnsSound client_hello 632 (omega arith) (omega arith)

tls_clienthello_parse_core-masked_example :
    tls_clienthello_parse_core (masked client_hello 632) ≡ tls_clienthello_parse client_hello 632
tls_clienthello_parse_core-masked_example =
    tls_clienthello_parse_core-masked client_hello 632 (omega arith) (omega arith)
