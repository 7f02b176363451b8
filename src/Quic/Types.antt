-- ===== src/Quic/Types.antt =====
-- The result of quic_initial and its states: benchmarks/industry/quic_initial/gen/parser.h, and the state numbers of parser.c.
use pakeles.Base.{ℕ, ◌==◌, if◌then◌else◌}
use Prim.Native.String.{String}

-- `pk_quic_initial_first_byte_t`
pub record FirstByte : Type 0 where
  pub form : ℕ
  pub fixed : ℕ
  pub ty : ℕ
  pub low : ℕ

-- `pk_quic_initial_version_t`
pub record Version : Type 0 where
  pub v : ℕ

-- `pk_quic_initial_other_cids_t`
pub record OtherCids : Type 0 where
  pub dcid_len : ℕ
  pub dcid_bit_off : ℕ
  pub dcid_bit_len : ℕ
  pub scid_len : ℕ
  pub scid_bit_off : ℕ
  pub scid_bit_len : ℕ

-- `pk_quic_initial_dcid_len_t`
pub record DcidLen : Type 0 where
  pub ln : ℕ

-- `pk_quic_initial_dcid_t`
pub record Dcid : Type 0 where
  pub cid_bit_off : ℕ
  pub cid_bit_len : ℕ

-- `pk_quic_initial_scid_len_t`
pub record ScidLen : Type 0 where
  pub ln : ℕ

-- `pk_quic_initial_scid_t`
pub record Scid : Type 0 where
  pub cid_bit_off : ℕ
  pub cid_bit_len : ℕ

-- `pk_quic_initial_tok_lead_t`
pub record TokLead : Type 0 where
  pub prefix : ℕ
  pub v6 : ℕ

-- `pk_quic_initial_len_lead_t`
pub record LenLead : Type 0 where
  pub prefix : ℕ
  pub v6 : ℕ

-- `pk_quic_initial_tok0_t`
pub record Tok0 : Type 0 where
  pub body_bit_off : ℕ
  pub body_bit_len : ℕ

-- `pk_quic_initial_tok1_t`
pub record Tok1 : Type 0 where
  pub t : ℕ
  pub body_bit_off : ℕ
  pub body_bit_len : ℕ

-- `pk_quic_initial_tok2_t`
pub record Tok2 : Type 0 where
  pub t : ℕ
  pub body_bit_off : ℕ
  pub body_bit_len : ℕ

-- `pk_quic_initial_tok3_t`
pub record Tok3 : Type 0 where
  pub t : ℕ
  pub body_bit_off : ℕ
  pub body_bit_len : ℕ

-- `pk_quic_initial_len1_t`
pub record Len1 : Type 0 where
  pub t : ℕ

-- `pk_quic_initial_len2_t`
pub record Len2 : Type 0 where
  pub t : ℕ

-- `pk_quic_initial_len3_t`
pub record Len3 : Type 0 where
  pub t : ℕ

-- `pk_quic_initial_result_t` without its first three fields.
pub record Body : Type 0 where
  pub first_byte_present : ℕ
  pub first_byte : FirstByte
  pub version_present : ℕ
  pub version : Version
  pub other_cids_present : ℕ
  pub other_cids : OtherCids
  pub dcid_len_present : ℕ
  pub dcid_len : DcidLen
  pub dcid_present : ℕ
  pub dcid : Dcid
  pub scid_len_present : ℕ
  pub scid_len : ScidLen
  pub scid_present : ℕ
  pub scid : Scid
  pub tok_lead_present : ℕ
  pub tok_lead : TokLead
  pub len_lead_present : ℕ
  pub len_lead : LenLead
  pub tok0_present : ℕ
  pub tok0 : Tok0
  pub tok1_present : ℕ
  pub tok1 : Tok1
  pub tok2_present : ℕ
  pub tok2 : Tok2
  pub tok3_present : ℕ
  pub tok3 : Tok3
  pub len1_present : ℕ
  pub len1 : Len1
  pub len2_present : ℕ
  pub len2 : Len2
  pub len3_present : ℕ
  pub len3 : Len3
  pub m_kind : ℕ
  pub m_token_len : ℕ
  pub m_length : ℕ

-- `pk_quic_initial_result_t zero = {0}`
abbrev pub zero_body : Body
zero_body = record {
  first_byte_present = 0;
  first_byte = record { form = 0; fixed = 0; ty = 0; low = 0 };
  version_present = 0;
  version = record { v = 0 };
  other_cids_present = 0;
  other_cids = record {
    dcid_len = 0;
    dcid_bit_off = 0;
    dcid_bit_len = 0;
    scid_len = 0;
    scid_bit_off = 0;
    scid_bit_len = 0;
  };
  dcid_len_present = 0;
  dcid_len = record { ln = 0 };
  dcid_present = 0;
  dcid = record { cid_bit_off = 0; cid_bit_len = 0 };
  scid_len_present = 0;
  scid_len = record { ln = 0 };
  scid_present = 0;
  scid = record { cid_bit_off = 0; cid_bit_len = 0 };
  tok_lead_present = 0;
  tok_lead = record { prefix = 0; v6 = 0 };
  len_lead_present = 0;
  len_lead = record { prefix = 0; v6 = 0 };
  tok0_present = 0;
  tok0 = record { body_bit_off = 0; body_bit_len = 0 };
  tok1_present = 0;
  tok1 = record { t = 0; body_bit_off = 0; body_bit_len = 0 };
  tok2_present = 0;
  tok2 = record { t = 0; body_bit_off = 0; body_bit_len = 0 };
  tok3_present = 0;
  tok3 = record { t = 0; body_bit_off = 0; body_bit_len = 0 };
  len1_present = 0;
  len1 = record { t = 0 };
  len2_present = 0;
  len2 = record { t = 0 };
  len3_present = 0;
  len3 = record { t = 0 };
  m_kind = 0;
  m_token_len = 0;
  m_length = 0;
}

pub data State : Type 0 where
  parse_first parse_version parse_other_cids parse_dcid_len parse_dcid parse_scid_len parse_scid
        parse_tok_lead parse_len_lead parse_first_short parse_version_negotiation
        parse_version_default parse_scid_initial parse_scid_zero_rtt parse_scid_handshake
        parse_scid_retry tok_w1 tok_w2 tok_w4 tok_w8 len_w1 len_w2 len_w4 len_w8 :
      State

abbrev pub dcid_too_long_for_v1 : ℕ
dcid_too_long_for_v1 = 16

abbrev pub scid_too_long_for_v1 : ℕ
scid_too_long_for_v1 = 17

abbrev pub unreachable : ℕ
unreachable = 18

-- `pk_quic_initial_reason_str`
unfoldable pub reason_str : ℕ → String
reason_str reason =
    if reason == 1
    then "out of bounds"
    else if reason == 2
    then "max depth exceeded"
    else if reason == 3
    then "no matching select arm"
    else if reason == 4
    then "out of region bounds"
    else if reason == 5
    then "region out of bounds"
    else if reason == 6
    then "region not exhausted"
    else if reason == 16
    then "dcid too long for v1"
    else if reason == 17
    then "scid too long for v1"
    else if reason == 18
    then "unreachable"
    else ""
