-- ===== src/Quic/Tests.antt =====
-- Runs of quic_initial on whole packets.
use pakeles.Base.{ℕ, ◌≡◌, refl, List, [], ◌∷◌, some, arith}
use pakeles.Core.{masked}
use pakeles.Results.{ends, field}
use pakeles.Safety.{ReturnsSound}
use pakeles.Quic.Types.{Body}
use pakeles.Quic.Parse.{quic_initial_parse, quic_initial_parse_core, running}
use pakeles.Quic.Cases.{named}
use pakeles.Quic.Sound.{quic_initial_parse-ReturnsSound, quic_initial_parse_core-masked}
use pakeles.Base.{◌^◌}
use pakeles.Core.{Locals, portable, loop, returned}
use pakeles.Safety.{Fits, portable-Fits}
use pakeles.Values.{IsBytes}
use pakeles.Quic.Types.{zero_body, parse_len_lead, parse_tok_lead}
use pakeles.Quic.Parse.{step}
use pakeles.Quic.Lengths.{Accepted, len_lead-varint}
use pakeles.Quic.Tokens.{tok_lead-varint}

-- an Initial packet with a token of 5 bytes and a length on 4 bytes
abbrev initial : List ℕ
initial =
    192 ∷ 0 ∷ 0 ∷ 0 ∷ 1 ∷ 0 ∷ 0 ∷ 5 ∷ 51 ∷ 51 ∷ 51 ∷ 51 ∷ 51 ∷ 128 ∷ 0 ∷ 0 ∷ 18 ∷ 0 ∷ 0 ∷ 0 ∷ 0 ∷ 0
    ∷ 0 ∷ 0 ∷ 0 ∷ 0 ∷ 0 ∷ 0 ∷ 0 ∷ 0 ∷ 0 ∷ 0 ∷ 0 ∷ 0 ∷ 0 ∷ []

initial_ends : ends (quic_initial_parse initial 280) ≡ some (0, 0, 136)
unfolding running
initial_ends = refl

initial_m_kind : field (λ b. b.m_kind) (quic_initial_parse initial 280) ≡ some 1
unfolding running
initial_m_kind = refl

initial_m_token_len : field (λ b. b.m_token_len) (quic_initial_parse initial 280) ≡ some 5
unfolding running
initial_m_token_len = refl

initial_m_length : field (λ b. b.m_length) (quic_initial_parse initial 280) ≡ some 18
unfolding running
initial_m_length = refl

-- a short header
abbrev short : List ℕ
short = 64 ∷ []

short_ends : ends (quic_initial_parse short 8) ≡ some (0, 0, 8)
unfolding running
short_ends = refl

short_m_kind : field (λ b. b.m_kind) (quic_initial_parse short 8) ≡ some 7
unfolding running
short_m_kind = refl

-- a connection identifier that is cut off
abbrev truncated : List ℕ
truncated = 192 ∷ 0 ∷ 0 ∷ 0 ∷ 1 ∷ 8 ∷ 170 ∷ 187 ∷ []

truncated_ends : ends (quic_initial_parse truncated 64) ≡ some (1, 1, 48)
unfolding running
truncated_ends = refl

quic_initial_parse-ReturnsSound_example : ReturnsSound named 280 (quic_initial_parse initial 280)
quic_initial_parse-ReturnsSound_example =
    quic_initial_parse-ReturnsSound initial 280 (omega arith) (omega arith)

quic_initial_parse_core-masked_example :
    quic_initial_parse_core (masked initial 280) ≡ quic_initial_parse initial 280
quic_initial_parse_core-masked_example =
    quic_initial_parse_core-masked initial 280 (omega arith) (omega arith)

-- 258 on two bytes, then 3 on one
abbrev integers : List ℕ
integers = 0x41 ∷ 0x02 ∷ 0x03 ∷ 0x11 ∷ 0x22 ∷ 0x33 ∷ []

integers-IsBytes : IsBytes integers
integers-IsBytes =
    (omega arith, (omega arith, (omega arith, (omega arith, (omega arith, (omega arith, tt))))))

integers-Fits : Fits (portable integers 48)
integers-Fits = portable-Fits integers 48 (omega arith) (omega arith)

abbrev at : ℕ → Locals
at off = record { off = off; rsp = 0; region_end = [] }

len_lead-varint_example :
    Accepted
      (returned (loop step 2 parse_len_lead (portable integers 48) (at 0) zero_body))
      (λ b. b.m_length)
      16
      258
len_lead-varint_example =
    len_lead-varint integers-Fits integers-IsBytes (at 0) zero_body refl 0 (omega arith)

tok_lead-varint_example :
    (b' : Body) × (loop step 2 parse_tok_lead (portable integers 48) (at 16) zero_body
      ≡ loop step 0 parse_len_lead (portable integers 48) (at 48) b')
    × (b'.m_token_len ≡ 3)
tok_lead-varint_example =
    tok_lead-varint integers-Fits integers-IsBytes (at 16) zero_body refl 0 (omega arith)

-- A token of 2 ^ 61 bytes: its length in bits is 0 modulo 2 ^ 64, and the packet is accepted.
abbrev huge_token : List ℕ
huge_token = 0xc0 ∷ 0 ∷ 0 ∷ 0 ∷ 1 ∷ 0 ∷ 0 ∷ 0xe0 ∷ 0 ∷ 0 ∷ 0 ∷ 0 ∷ 0 ∷ 0 ∷ 0 ∷ 0x12 ∷ []

huge_token_ends : ends (quic_initial_parse huge_token 128) ≡ some (0, 0, 128)
unfolding running
huge_token_ends = refl

huge_token_len : field (λ b. b.m_token_len) (quic_initial_parse huge_token 128) ≡ some (2 ^ 61)
unfolding running
huge_token_len = refl
