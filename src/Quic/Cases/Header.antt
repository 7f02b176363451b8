-- ===== src/Quic/Cases/Header.antt =====
-- The rules of `Safety` at the cases of quic_initial in Quic/Header.antt.
use pakeles.Base.{refl, arith, ◌==◌, leb}
use pakeles.Safety.{
  Triple, Triple-pure, Triple-accept, Triple-reject, Triple-if, Triple-store, Triple-fetch, ◌⨾◌,
  ◌▸◌, Triple-bytes, Triple-bits, Triple-run_of,
}
use pakeles.Quic.Types.{
  parse_version, parse_dcid_len, parse_dcid, parse_scid_len, parse_scid, parse_first_short,
  parse_version_negotiation, parse_version_default, parse_scid_initial, parse_scid_zero_rtt,
  parse_scid_handshake, parse_scid_retry, dcid_too_long_for_v1, scid_too_long_for_v1, unreachable,
  reason_str,
}
use pakeles.Quic.Header.{
  case_parse_first, case_parse_version, case_parse_other_cids, case_parse_dcid_len, case_parse_dcid,
  case_parse_scid_len, case_parse_scid,
}
use pakeles.Quic.Cases.Depths.{named, depth_of, names}

pub case_parse_first-Triple : Triple 0 named 0 case_parse_first depth_of
unfolding case_parse_first reason_str
case_parse_first-Triple =
    Triple-store _
    ▸ Triple-bits _ _ (omega arith)
    ▸ Triple-bits _ _ (omega arith)
    ▸ Triple-bits _ _ (omega arith)
    ▸ Triple-bits _ _ (omega arith)
    ▸ Triple-fetch _
    ⨾ λ key0.
        Triple-if (key0 == 0) (Triple-pure parse_first_short refl)
          (Triple-if (key0 == 1) (Triple-pure parse_version refl) (Triple-reject unreachable refl))

pub case_parse_version-Triple : Triple 0 named 0 case_parse_version depth_of
unfolding case_parse_version
case_parse_version-Triple =
    Triple-store _ ▸ Triple-bytes _ _ (omega arith) ▸ Triple-fetch _ ⨾ λ key0.
    Triple-if (key0 == 1) (Triple-pure parse_dcid_len refl) (
      Triple-if (key0 == 0) (Triple-pure parse_version_negotiation refl)
        (Triple-pure parse_version_default refl))

pub case_parse_other_cids-Triple : Triple 0 named 0 case_parse_other_cids depth_of
unfolding case_parse_other_cids
case_parse_other_cids-Triple =
    Triple-store _ ▸ Triple-bytes _ _ (omega arith) ▸ Triple-fetch _ ⨾ λ vlen.
    Triple-run_of vlen _ ▸ Triple-bytes _ _ (omega arith) ▸ Triple-fetch _ ⨾ λ vlen.
    Triple-run_of vlen _ ▸ Triple-accept

pub case_parse_dcid_len-Triple : Triple 0 named 0 case_parse_dcid_len depth_of
unfolding case_parse_dcid_len reason_str
case_parse_dcid_len-Triple =
    Triple-store _ ▸ Triple-bytes _ _ (omega arith) ▸ Triple-fetch _ ⨾ λ key0.
    Triple-if (leb key0 20) (Triple-pure parse_dcid refl) (Triple-reject dcid_too_long_for_v1 refl)

pub case_parse_dcid-Triple : Triple 0 named 0 case_parse_dcid depth_of
unfolding case_parse_dcid
case_parse_dcid-Triple =
    Triple-store _ ▸ Triple-fetch _ ⨾ λ vlen. Triple-run_of vlen _ ▸ Triple-pure parse_scid_len refl

pub case_parse_scid_len-Triple : Triple 0 named 0 case_parse_scid_len depth_of
unfolding case_parse_scid_len reason_str
case_parse_scid_len-Triple =
    Triple-store _ ▸ Triple-bytes _ _ (omega arith) ▸ Triple-fetch _ ⨾ λ key0.
    Triple-if (leb key0 20) (Triple-pure parse_scid refl) (Triple-reject scid_too_long_for_v1 refl)

pub case_parse_scid-Triple : Triple 0 named 0 case_parse_scid depth_of
unfolding case_parse_scid reason_str
case_parse_scid-Triple = Triple-store _ ▸ Triple-fetch _ ⨾ λ vlen.
    Triple-run_of vlen _ ▸ Triple-fetch _ ⨾ λ key0.
    Triple-if (key0 == 0) (Triple-pure parse_scid_initial refl) (
      Triple-if (key0 == 1) (Triple-pure parse_scid_zero_rtt refl) (
        Triple-if (key0 == 2) (Triple-pure parse_scid_handshake refl) (
          Triple-if (key0 == 3) (Triple-pure parse_scid_retry refl)
            (Triple-reject unreachable refl))))
