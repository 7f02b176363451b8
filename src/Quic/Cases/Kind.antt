-- ===== src/Quic/Cases/Kind.antt =====
-- The rules of `Safety` at the cases of quic_initial in Quic/Kind.antt.
use pakeles.Base.{refl}
use pakeles.Safety.{Triple, Triple-pure, Triple-accept, Triple-store, ◌▸◌}
use pakeles.Quic.Types.{parse_other_cids, parse_tok_lead, parse_len_lead}
use pakeles.Quic.Kind.{
  case_parse_first_short, case_parse_version_negotiation, case_parse_version_default,
  case_parse_scid_initial, case_parse_scid_zero_rtt, case_parse_scid_handshake,
  case_parse_scid_retry,
}
use pakeles.Quic.Cases.Depths.{named, depth_of, names}

pub case_parse_first_short-Triple : Triple 0 named 0 case_parse_first_short depth_of
unfolding case_parse_first_short
case_parse_first_short-Triple = Triple-store _ ▸ Triple-accept

pub case_parse_version_negotiation-Triple : Triple 0 named 0 case_parse_version_negotiation depth_of
unfolding case_parse_version_negotiation
case_parse_version_negotiation-Triple = Triple-store _ ▸ Triple-pure parse_other_cids refl

pub case_parse_version_default-Triple : Triple 0 named 0 case_parse_version_default depth_of
unfolding case_parse_version_default
case_parse_version_default-Triple = Triple-store _ ▸ Triple-pure parse_other_cids refl

pub case_parse_scid_initial-Triple : Triple 0 named 0 case_parse_scid_initial depth_of
unfolding case_parse_scid_initial
case_parse_scid_initial-Triple = Triple-store _ ▸ Triple-pure parse_tok_lead refl

pub case_parse_scid_zero_rtt-Triple : Triple 0 named 0 case_parse_scid_zero_rtt depth_of
unfolding case_parse_scid_zero_rtt
case_parse_scid_zero_rtt-Triple = Triple-store _ ▸ Triple-pure parse_len_lead refl

pub case_parse_scid_handshake-Triple : Triple 0 named 0 case_parse_scid_handshake depth_of
unfolding case_parse_scid_handshake
case_parse_scid_handshake-Triple = Triple-store _ ▸ Triple-pure parse_len_lead refl

pub case_parse_scid_retry-Triple : Triple 0 named 0 case_parse_scid_retry depth_of
unfolding case_parse_scid_retry
case_parse_scid_retry-Triple = Triple-store _ ▸ Triple-accept
