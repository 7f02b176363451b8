-- ===== src/Quic/Kind.antt =====
-- What kind of packet it is.
-- Cases of the `switch` in benchmarks/industry/quic_initial/gen/parser.c.
use pakeles.Base.{bit_and}
use pakeles.Core.{M, ◌>>◌, pure, store, accept}
use pakeles.Quic.Types.{Body, State, parse_other_cids, parse_tok_lead, parse_len_lead}

-- `case PK_S_PARSE_FIRST__SHORT`
unfoldable pub case_parse_first_short : M Body State
case_parse_first_short = do store (λ b. record b { m_kind = bit_and 7 0x7 }); accept

-- `case PK_S_PARSE_VERSION__NEGOTIATION`
unfoldable pub case_parse_version_negotiation : M Body State
case_parse_version_negotiation = do
  store (λ b. record b { m_kind = bit_and 5 0x7 })
  pure parse_other_cids

-- `case PK_S_PARSE_VERSION__DEFAULT`
unfoldable pub case_parse_version_default : M Body State
case_parse_version_default = do
  store (λ b. record b { m_kind = bit_and 6 0x7 })
  pure parse_other_cids

-- `case PK_S_PARSE_SCID__INITIAL`
unfoldable pub case_parse_scid_initial : M Body State
case_parse_scid_initial = do store (λ b. record b { m_kind = bit_and 1 0x7 }); pure parse_tok_lead

-- `case PK_S_PARSE_SCID__ZERO_RTT`
unfoldable pub case_parse_scid_zero_rtt : M Body State
case_parse_scid_zero_rtt = do store (λ b. record b { m_kind = bit_and 2 0x7 }); pure parse_len_lead

-- `case PK_S_PARSE_SCID__HANDSHAKE`
unfoldable pub case_parse_scid_handshake : M Body State
case_parse_scid_handshake = do store (λ b. record b { m_kind = bit_and 3 0x7 }); pure parse_len_lead

-- `case PK_S_PARSE_SCID__RETRY`
unfoldable pub case_parse_scid_retry : M Body State
case_parse_scid_retry = do store (λ b. record b { m_kind = bit_and 4 0x7 }); accept
