-- ===== src/Quic/Cases.antt =====
-- The rules of `Safety` at the cases of quic_initial.
mod Depths
mod Header
mod Kind
mod Varint
pub use Depths.{named, depth_of}
use text.Mathlib.Text.{◌==◌ as str_eq}
use pakeles.Base.{ℕ, refl, Bool, not, arith, ◌==◌, leb}
use pakeles.Safety.{
  Triple, Triple-pure, Triple-accept, Triple-reject, Triple-if, Triple-store, Triple-fetch, ◌⨾◌,
  ◌▸◌, Triple-bytes, Triple-bits, Triple-run_of, NamesBuiltIn,
}
use pakeles.Quic.Types.{
  State, parse_first, parse_version, parse_other_cids, parse_dcid_len, parse_dcid, parse_scid_len,
  parse_scid, parse_tok_lead, parse_len_lead, parse_first_short, parse_version_negotiation,
  parse_version_default, parse_scid_initial, parse_scid_zero_rtt, parse_scid_handshake,
  parse_scid_retry, tok_w1, tok_w2, tok_w4, tok_w8, len_w1, len_w2, len_w4, len_w8,
  dcid_too_long_for_v1, scid_too_long_for_v1, unreachable, reason_str,
}
use pakeles.Quic.Header.{
  case_parse_first, case_parse_version, case_parse_other_cids, case_parse_dcid_len, case_parse_dcid,
  case_parse_scid_len, case_parse_scid,
}
use pakeles.Quic.Kind.{
  case_parse_first_short, case_parse_version_negotiation, case_parse_version_default,
  case_parse_scid_initial, case_parse_scid_zero_rtt, case_parse_scid_handshake,
  case_parse_scid_retry,
}
use pakeles.Quic.Varint.{
  case_parse_tok_lead, case_tok_w1, case_tok_w2, case_tok_w4, case_tok_w8, case_parse_len_lead,
  case_len_w1, case_len_w2, case_len_w4, case_len_w8,
}
use pakeles.Quic.Parse.{step}
use Header.{
  case_parse_first-Triple, case_parse_version-Triple, case_parse_other_cids-Triple,
  case_parse_dcid_len-Triple, case_parse_dcid-Triple, case_parse_scid_len-Triple,
  case_parse_scid-Triple,
}
use Kind.{
  case_parse_first_short-Triple, case_parse_version_negotiation-Triple,
  case_parse_version_default-Triple, case_parse_scid_initial-Triple,
  case_parse_scid_zero_rtt-Triple, case_parse_scid_handshake-Triple, case_parse_scid_retry-Triple,
}
use Varint.{
  case_parse_tok_lead-Triple, case_tok_w1-Triple, case_tok_w2-Triple, case_tok_w4-Triple,
  case_tok_w8-Triple, case_parse_len_lead-Triple, case_len_w1-Triple, case_len_w2-Triple,
  case_len_w4-Triple, case_len_w8-Triple,
}

-- Every state keeps the invariant.
pub step-Triple : (s : State) → Triple 0 named (depth_of s) (step s) depth_of
unfolding step
step-Triple parse_first = case_parse_first-Triple
step-Triple parse_version = case_parse_version-Triple
step-Triple parse_other_cids = case_parse_other_cids-Triple
step-Triple parse_dcid_len = case_parse_dcid_len-Triple
step-Triple parse_dcid = case_parse_dcid-Triple
step-Triple parse_scid_len = case_parse_scid_len-Triple
step-Triple parse_scid = case_parse_scid-Triple
step-Triple parse_tok_lead = case_parse_tok_lead-Triple
step-Triple parse_len_lead = case_parse_len_lead-Triple
step-Triple parse_first_short = case_parse_first_short-Triple
step-Triple parse_version_negotiation = case_parse_version_negotiation-Triple
step-Triple parse_version_default = case_parse_version_default-Triple
step-Triple parse_scid_initial = case_parse_scid_initial-Triple
step-Triple parse_scid_zero_rtt = case_parse_scid_zero_rtt-Triple
step-Triple parse_scid_handshake = case_parse_scid_handshake-Triple
step-Triple parse_scid_retry = case_parse_scid_retry-Triple
step-Triple tok_w1 = case_tok_w1-Triple
step-Triple tok_w2 = case_tok_w2-Triple
step-Triple tok_w4 = case_tok_w4-Triple
step-Triple tok_w8 = case_tok_w8-Triple
step-Triple len_w1 = case_len_w1-Triple
step-Triple len_w2 = case_len_w2-Triple
step-Triple len_w4 = case_len_w4-Triple
step-Triple len_w8 = case_len_w8-Triple
