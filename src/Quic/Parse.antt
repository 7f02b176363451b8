-- ===== src/Quic/Parse.antt =====
-- `parse_core` of benchmarks/industry/quic_initial/gen/parser.c and the function around it.
use pakeles.Base.{ℕ, List, Option}
use pakeles.Core.{Input, M, Result, run_core, portable, statements}
use pakeles.Quic.Types.{
  Body, zero_body, State, parse_first, parse_version, parse_other_cids, parse_dcid_len, parse_dcid,
  parse_scid_len, parse_scid, parse_tok_lead, parse_len_lead, parse_first_short,
  parse_version_negotiation, parse_version_default, parse_scid_initial, parse_scid_zero_rtt,
  parse_scid_handshake, parse_scid_retry, tok_w1, tok_w2, tok_w4, tok_w8, len_w1, len_w2, len_w4,
  len_w8,
}
use pakeles.Quic.Header.{
  case_parse_first, case_parse_version, case_parse_other_cids, case_parse_dcid_len, case_parse_dcid,
  case_parse_scid_len, case_parse_scid,
}
use pakeles.Quic.Kind.{
  case_parse_first_short, case_parse_version_negotiation, case_parse_version_default,
  case_parse_scid_initial, case_parse_scid_zero_rtt, case_parse_scid_handshake,
  case_parse_scid_retry,
}
use pakeles.Quic.Varint.{
  case_parse_tok_lead, case_tok_w1, case_tok_w2, case_tok_w4, case_tok_w8, case_parse_len_lead,
  case_len_w1, case_len_w2, case_len_w4, case_len_w8,
}

-- `switch (state)`
unfoldable pub step : State → M Body State
step parse_first = case_parse_first
step parse_version = case_parse_version
step parse_other_cids = case_parse_other_cids
step parse_dcid_len = case_parse_dcid_len
step parse_dcid = case_parse_dcid
step parse_scid_len = case_parse_scid_len
step parse_scid = case_parse_scid
step parse_tok_lead = case_parse_tok_lead
step parse_len_lead = case_parse_len_lead
step parse_first_short = case_parse_first_short
step parse_version_negotiation = case_parse_version_negotiation
step parse_version_default = case_parse_version_default
step parse_scid_initial = case_parse_scid_initial
step parse_scid_zero_rtt = case_parse_scid_zero_rtt
step parse_scid_handshake = case_parse_scid_handshake
step parse_scid_retry = case_parse_scid_retry
step tok_w1 = case_tok_w1
step tok_w2 = case_tok_w2
step tok_w4 = case_tok_w4
step tok_w8 = case_tok_w8
step len_w1 = case_len_w1
step len_w2 = case_len_w2
step len_w4 = case_len_w4
step len_w8 = case_len_w8

-- the bound of the loop
abbrev pub max_depth : ℕ
max_depth = 12

-- `pk_quic_initial_parse_core`, called with `*out` zeroed
unfoldable pub quic_initial_parse_core : Input → Option (Result Body)
quic_initial_parse_core i = run_core step max_depth parse_first 0 i zero_body

-- `pk_quic_initial_parse`
unfoldable pub quic_initial_parse : List ℕ → ℕ → Option (Result Body)
quic_initial_parse buf bit_len = quic_initial_parse_core (portable buf bit_len)

-- For tests: a line `unfolding running` opens all that a run computes with.
unfoldable pub running : Unit {0}
unfolding statements run_core step quic_initial_parse_core quic_initial_parse case_parse_first
    case_parse_version case_parse_other_cids case_parse_dcid_len case_parse_dcid case_parse_scid_len
    case_parse_scid case_parse_tok_lead case_parse_len_lead case_parse_first_short
    case_parse_version_negotiation case_parse_version_default case_parse_scid_initial
    case_parse_scid_zero_rtt case_parse_scid_handshake case_parse_scid_retry case_tok_w1 case_tok_w2
    case_tok_w4 case_tok_w8 case_len_w1 case_len_w2 case_len_w4 case_len_w8
running = tt
